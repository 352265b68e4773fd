-- ===== src/Tests/Audits.antt =====
-- The audit on a concrete database and catalog.
use storebirth.Base.{
  ℕ, ◌+◌, ◌≡◌, refl, List, [], ◌∷◌, Bool, true, false, none, some, Text, text_eq, codes, leb, ◌==◌,
  ◌&&◌, map, if◌then◌else◌,
}
use storebirth.Names.{database}
use storebirth.Store.{failed, Result, ok, err}
use storebirth.Store.Sql.{World, select}
use storebirth.Audit.{clean_orphan_rdbs, do_user_audit}
use storebirth.Rdb.{Catalog, Services, like_db}
use storebirth.Audit.Kept.{has_database}
use storebirth.Audit.Orphans.{clean_orphan_rdbs-exact}
use storebirth.Audit.Unlisted.{do_user_audit-unlisted}
use storebirth.Tests.Rows.{ann, db}

-- One order of texts, by their first characters, and one order of a map.
abbrev first_leb : Text → Text → Bool
first_leb [] t = true
first_leb (c ∷ s) [] = false
first_leb (c ∷ s) (d ∷ t) = leb c d

abbrev pub same_char : ℕ → ℕ
same_char c = c

abbrev in_order : List Text → List Text
in_order us = us

abbrev ann_db : Text
ann_db = database same_char ann

-- A server that reads a name with its capital letters as small ones, and refuses one with a dash.
abbrev folded : ℕ → ℕ
folded c = if leb b'A' c && leb c b'Z' then c + 32 else c

abbrev has_dash : Text → Bool
has_dash [] = false
has_dash (c ∷ s) = if c == b'-' then true else has_dash s

abbrev folds : Text → Result Text
folds s = if has_dash s then err (failed (codes "syntax error")) else ok (map folded s)

abbrev catalog : Catalog
catalog = record {
  databases = ann_db ∷ codes "db_gone" ∷ codes "db_Old" ∷ codes "db-x" ∷ codes "system" ∷ [];
  sql_users = [];
  grants = [];
  reads = folds;
}

abbrev pub services : Services
services = record {
  catalog = catalog;
  root_calls = 0;
  root_fault = λ n. none;
  root_db = false;
  worker_apps = (codes "w-1-gone", some (codes "gone")) ∷ [];
  api_calls = 0;
  api_fault = λ n. none;
  clients = true;
  rdb_manager = true;
}

abbrev world : World Services
world = record { db = db; now = 9; calls = 0; fault = λ n. none; service = services }

clean_orphan_rdbs-exact_example :
    has_database
      (codes "db_gone")
      (clean_orphan_rdbs same_char in_order (ann ∷ []) (codes "db_Gone" ∷ []) world)
    ≡ false
unfolding text_eq database
clean_orphan_rdbs-exact_example =
    clean_orphan_rdbs-exact same_char in_order (codes "db_gone") (ann ∷ []) (codes "db_Gone" ∷ [])
      world (λ n. refl)

abbrev new_catalog : Catalog
new_catalog = record { databases = codes "system" ∷ []; sql_users = []; grants = []; reads = folds }

do_user_audit-unlisted_example :
    (do_user_audit same_char in_order first_leb
      (record world { service = record services { catalog = new_catalog } })).1.service.catalog
    ≡ new_catalog
unfolding select like_db
do_user_audit-unlisted_example =
    do_user_audit-unlisted same_char in_order new_catalog refl first_leb
      (record world { service = record services { catalog = new_catalog } }) refl
