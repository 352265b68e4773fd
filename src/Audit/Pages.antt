-- ===== src/Audit/Pages.antt =====
-- loadAllUserUIDs of handlers/jobs/auth.cron.go: the pages are all users.
use storebirth.Base.{ℕ, ◌≡◌, List, Option, none, some, Text, Bool}
use storebirth.Store.{failed, Result, ok, err}
use storebirth.Store.Sql.{World}
use storebirth.Audit.{all_uids}

module _ (text_leb : Text → Text → Bool) where
  module _ {S : Type 0} where
    -- How the loading ends: with all users, or with the error of a call that failed.
    abbrev pub LoadEnds : World S → Result (Option (List Text)) → Type 0
    LoadEnds s (ok none) = ⊥
    LoadEnds s (ok (some user_set)) = user_set ≡ all_uids text_leb s.db
    LoadEnds s (err e) = (n : ℕ) × (text : Text) × (s.fault n ≡ some text) × (e ≡ failed text)
