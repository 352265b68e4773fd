-- ===== src/Audit.antt =====
-- handlers/jobs/auth.cron.go, the audit of users, with what it calls of k8s/rdb.go and
-- dblayer/actions.go.
pub mod Pages
pub mod Kept
pub mod Owners
pub mod Orphans
pub mod Unlisted
use storebirth.Base.{
  ℕ, suc, zero, ◌+◌, List, [], ◌∷◌, ◌++◌, Bool, true, false, not, ◌&&◌, map, Option, none, some,
  Text, text_eq, text_eq_iff, ◌==◌, ltb, if◌then◌else◌, length, take, drop, codes,
}
use storebirth.Names.{database, username}
use storebirth.Store.{Db, User, Error, message, failed, Result, ok, err}
use storebirth.Store.Sql.{World, M, ◌>>=◌, ◌>>◌, pure, raise, attempt, exec, select}
use storebirth.Rdb.{Services, contains, root_list_user_databases, drop_database, init_user_rdb}

-- One call of the Kubernetes API.
unfoldable pub api_exec :
    {A : Type 0} → (List (Text × Option Text) → A × List (Text × Option Text)) → M Services A
api_exec f w = elim (w.service.api_fault w.service.api_calls) [
  | some text ↦ (
    err (failed text),
    record w { service = record w.service { api_calls = suc w.service.api_calls } },
  )
  | none ↦ (
    ok (f w.service.worker_apps).0,
    record w {
      service = record w.service {
        api_calls = suc w.service.api_calls;
        worker_apps = (f w.service.worker_apps).1;
      };
    },
  )
]

abbrev pub user_page_size : ℕ
user_page_size = 1000

-- The end of a round: a page that is not full is the last one.
abbrev pub next_page :
    {S : Type 0}
    → (List Text → M S (Option (List Text)))
    → List Text
    → List Text
    → M S (Option (List Text))
next_page go_on uids user_set =
    if ltb (length uids) user_page_size then pure (some user_set) else go_on user_set

-- ORDER BY uid, by the order of the database's texts
module _ (text_leb : Text → Text → Bool) where
  insert_uid : Text → List Text → List Text
  insert_uid uid [] = uid ∷ []
  insert_uid uid (u ∷ uids) = if text_leb uid u then uid ∷ u ∷ uids else u ∷ insert_uid uid uids

  unfoldable pub sort_uids : List Text → List Text
  unfolding insert_uid
  sort_uids [] = []
  sort_uids (u ∷ uids) = insert_uid u (sort_uids uids)

  abbrev pub all_uids : Db → List Text
  all_uids d = sort_uids (map (λ (u : User). u.uid) d.users.rows)

  -- ListUserUIDsPaged
  unfoldable pub list_user_uids_paged : {S : Type 0} → ℕ → ℕ → M S (List Text)
  unfolding exec sort_uids
  list_user_uids_paged limit offset = exec λ d. (ok (take limit (drop offset (all_uids d))), d)

  -- loadAllUserUIDs, with fuel for the pages. The set is the list of what was put into it.
  pub load_pages : {S : Type 0} → ℕ → ℕ → List Text → M S (Option (List Text))
  unfolding list_user_uids_paged
  load_pages zero offset user_set = pure none
  load_pages (suc fuel) offset user_set = do
    uids ← list_user_uids_paged user_page_size offset
    next_page (load_pages fuel (offset + user_page_size)) uids (user_set ++ uids)

  unfoldable pub load_all_user_uids : {S : Type 0} → M S (Option (List Text))
  unfolding load_pages
  load_all_user_uids w = load_pages (suc (length w.db.users.rows)) 0 [] w

-- A loop whose body's error is logged only.
abbrev pub each :
    {A : Type 0} → (A → M Services (Unit {0})) → List A → World Services → World Services
each f [] w = w
each f (x ∷ xs) w = each f xs (f x w).1

module _ (unicode_lower : ℕ → ℕ) where
  -- One round of each loop of the audit.
  unfoldable pub check_user : List Text → Text → M Services (Unit {0})
  unfolding init_user_rdb
  check_user existing uid =
      if contains (database unicode_lower uid) existing
      then pure tt
      else init_user_rdb unicode_lower uid

  abbrev pub valid_dbs : List Text → List Text
  valid_dbs = map (database unicode_lower)

  unfoldable pub clean_rdb : List Text → Text → M Services (Unit {0})
  unfolding drop_database
  clean_rdb user_set name =
      if contains name (valid_dbs user_set) then pure tt else drop_database name

abbrev remove_app : Text → List (Text × Option Text) → List (Text × Option Text)
remove_app name [] = []
remove_app name (app ∷ apps) =
    if text_eq app.0 name then remove_app name apps else app ∷ remove_app name apps

pub clean_worker : List Text → Text × Option Text → M Services (Unit {0})
unfolding api_exec
clean_worker user_set (name, none) = pure tt
clean_worker user_set (name, some owner) =
    if text_eq owner []
    then pure tt
    else if contains owner user_set
    then pure tt
    else api_exec λ apps. (tt, remove_app name apps)

-- cleanOrphanWorkers
unfoldable pub clean_orphan_workers :
    List Text → List (Text × Option Text) → World Services → World Services
unfolding clean_worker
clean_orphan_workers user_set = each (clean_worker user_set)

existing_dbs : Result (List Text) → List Text
existing_dbs (ok dbs) = dbs
existing_dbs (err e) = []

list_apps : M Services (List (Text × Option Text))
unfolding api_exec
list_apps = api_exec λ apps. (apps, apps)

-- `iterate` is the order in which the runtime goes through a map.
module _ (unicode_lower : ℕ → ℕ) (iterate : List Text → List Text) where
  -- checkUserRDBInitialization
  unfoldable pub check_user_rdb_initialization :
      List Text → List Text → World Services → World Services
  unfolding check_user
  check_user_rdb_initialization user_set existing =
      each (check_user unicode_lower existing) (iterate user_set)

  -- cleanOrphanRDBs
  unfoldable pub clean_orphan_rdbs : List Text → List Text → World Services → World Services
  unfolding clean_rdb
  clean_orphan_rdbs user_set existing = each (clean_rdb unicode_lower user_set) existing

  -- The nil slice, from an error or from no row, skips the two steps.
  audit_rdbs : List Text → List Text → List (Text × Option Text) → World Services → World Services
  unfolding check_user_rdb_initialization clean_orphan_rdbs clean_orphan_workers
  audit_rdbs user_set [] apps w = clean_orphan_workers user_set apps w
  audit_rdbs user_set (db ∷ dbs) apps w =
      clean_orphan_rdbs user_set (db ∷ dbs)
        (clean_orphan_workers user_set apps (check_user_rdb_initialization user_set (db ∷ dbs) w))

  audit_users : List Text → List (Text × Option Text) → M Services (Unit {0})
  unfolding audit_rdbs existing_dbs
  audit_users user_set apps w =
      if w.service.rdb_manager
      then attempt root_list_user_databases
          (λ dbs v. (ok tt, audit_rdbs user_set (existing_dbs dbs) apps v)) w
      else (ok tt, audit_rdbs user_set [] apps w)

  audit_listed : List Text → Result (List (Text × Option Text)) → M Services (Unit {0})
  unfolding audit_users
  audit_listed user_set (err e) = raise (failed (codes "list worker CRs: " ++ message e))
  audit_listed user_set (ok apps) = audit_users user_set apps

  audit_loaded : Option (List Text) → M Services (Unit {0})
  unfolding list_apps audit_listed
  audit_loaded none = pure tt
  audit_loaded (some user_set) = attempt list_apps (audit_listed user_set)

  -- userAuditJob.Do
  unfoldable pub do_user_audit : (Text → Text → Bool) → M Services (Unit {0})
  unfolding audit_loaded
  do_user_audit text_leb w =
      if w.service.clients then (load_all_user_uids text_leb >>= audit_loaded) w else (ok tt, w)
