-- ===== src/Audit/Owners.antt =====
-- What the audit of handlers/jobs/auth.cron.go keeps, makes and drops of the databases of users.
use storebirth.Base.{
  ℕ, zero, suc, ◌+◌, length, ltb, ◌≡◌, refl, All, ◌∙◌, List, ◌++◌, Bool, Option, Text, Option-cases,
  Bool-cases, inl, inr,
}
use storebirth.Names.{database}
use storebirth.Store.{Result, ok, err}
use storebirth.Store.Sql.{World, exec, continue}
use storebirth.Audit.{load_pages, list_user_uids_paged, user_page_size, next_page}
use storebirth.Rdb.{Services}
use storebirth.Audit.Kept.{Has}

module _ (text_leb : Text → Text → Bool) where
  page-service :
      (limit offset : ℕ) (w : World Services)
      → (list_user_uids_paged text_leb limit offset w).1.service ≡ w.service
  unfolding list_user_uids_paged
  page-service limit offset w = elim (Option-cases (w.fault w.calls)) [
    | inl e ↦ rw (e, exec) refl
    | inr (text, e) ↦ rw (e, exec) refl
  ]

  next-service :
      (go_on : List Text → World Services → Result (Option (List Text)) × World Services)
      (user_set : List Text) (r : Result (List Text)) (v : World Services)
      → ((us : List Text) (u : World Services) → (go_on us u).1.service ≡ u.service)
      → (continue r (λ uids. next_page go_on uids (user_set ++ uids)) v).1.service ≡ v.service
  next-service go_on user_set (err e) v same = refl
  next-service go_on user_set (ok uids) v same =
      elim (Bool-cases (ltb (length uids) user_page_size)) [
        | inl e ↦ rw e refl
        | inr e ↦ rw e (same (user_set ++ uids) v)
      ]

  -- The pages are read from the other database.
  pub pages-service :
      (fuel offset : ℕ) (user_set : List Text) (w : World Services)
      → (load_pages text_leb fuel offset user_set w).1.service ≡ w.service
  unfolding load_pages
  pages-service zero offset user_set w = refl
  pages-service (suc fuel) offset user_set w =
      next-service (load_pages text_leb fuel (offset + user_page_size)) user_set
        (list_user_uids_paged text_leb user_page_size offset w).0
        (list_user_uids_paged text_leb user_page_size offset w).1
        (λ us u. pages-service fuel (offset + user_page_size) us u)
      ∙ page-service user_page_size offset w

module _ (unicode_lower : ℕ → ℕ) (uid : Text) (reads : Text → Result Text) where
  -- The server reads no other name as that of the user's database.
  abbrev pub IsApart : Text → Type 0
  IsApart n = reads n ≡ ok (database unicode_lower uid) → n ≡ database unicode_lower uid

module _ (unicode_lower : ℕ → ℕ) (iterate : List Text → List Text) (uid : Text)
    (reads : Text → Result Text) where
  -- The invariant: the database of the user is there.
  abbrev Kept : World Services → Type 0
  Kept w = Has reads (database unicode_lower uid) w

  -- What the audit needs to know of a world.
  abbrev Safe : World Services → Type 0
  Safe w = Kept w × All (IsApart unicode_lower uid reads) w.service.catalog.databases
