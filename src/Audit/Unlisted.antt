-- ===== src/Audit/Unlisted.antt =====
-- The audit of handlers/jobs/auth.cron.go where CockroachDB lists no database.
use storebirth.Base.{
  refl, Option-cases, inl, inr, ℕ, suc, ◌≡◌, ap, ◌∙◌, List, [], length, Bool, true, false, Option,
  none, some, Text, arith, if◌then◌else◌,
}
use storebirth.Store.{Result, ok, err}
use storebirth.Store.Sql.{World, continue, select}
use storebirth.Audit.{
  api_exec, clean_worker, clean_orphan_workers, audit_rdbs, audit_users, audit_listed, audit_loaded,
  list_apps, existing_dbs, load_all_user_uids, do_user_audit,
}
use storebirth.Rdb.Root.{connected-keeps, root_exec-keeps, try_get_root_db-Same}
use storebirth.Rdb.{
  user_databases, Catalog, Services, root_exec, try_get_root_db, root_list_user_databases, like_db,
}
use storebirth.Audit.Owners.{pages-service}
use storebirth.Audit.Kept.{each-keeps, clean_worker-catalog}

module _ (unicode_lower : ℕ → ℕ) (iterate : List Text → List Text) (c : Catalog)
    (unlisted : select like_db c.databases ≡ []) where
  abbrev Same : World Services → Type 0
  Same w = w.service.catalog ≡ c

  listing-Same : (w : World Services) → Same w → Same (root_list_user_databases w).1
  unfolding root_list_user_databases
  listing-Same w h =
      connected-keeps _ (λ d. d ≡ c) w h λ v k. root_exec-keeps (λ d. d ≡ c) user_databases v k k

  read_nil : (v : World Services) → Same v → existing_dbs (root_exec user_databases v).0 ≡ []
  unfolding root_exec existing_dbs
  read_nil v h = elim (Option-cases (v.service.root_fault v.service.root_calls)) [
    | inl e ↦ rw (e, root_exec) (ap (λ (d : Catalog). select like_db d.databases) h ∙ unlisted)
    | inr (text, e) ↦ rw (e, root_exec) refl
  ]

  nil_after :
      (r : Result (Unit {0})) (v : World Services)
      → Same v
      → existing_dbs (continue r (λ _. root_exec user_databases) v).0 ≡ []
  unfolding existing_dbs
  nil_after (ok x) v h = read_nil v h
  nil_after (err e) v h = refl

  listing_nil : (w : World Services) → Same w → existing_dbs (root_list_user_databases w).0 ≡ []
  unfolding root_list_user_databases
  listing_nil w h =
      nil_after (try_get_root_db w).0 (try_get_root_db w).1 (try_get_root_db-Same w ∙ h)

  rdbs-Same :
      (user_set : List Text) (apps : List (Text × Option Text)) (w : World Services)
      → Same w
      → Same (audit_rdbs unicode_lower iterate user_set [] apps w)
  unfolding audit_rdbs clean_orphan_workers
  rdbs-Same user_set apps w h =
      each-keeps Same (clean_worker user_set) apps w
        (λ app v k. clean_worker-catalog user_set app v ∙ k) h

  if-Same :
      (b : Bool) (x y : Result (Unit {0}) × World Services)
      → Same x.1
      → Same y.1
      → Same (if b then x else y).1
  if-Same true x y h k = h
  if-Same false x y h k = k

  users-Same :
      (user_set : List Text) (apps : List (Text × Option Text)) (w : World Services)
      → Same w
      → Same (audit_users unicode_lower iterate user_set apps w).1
  unfolding audit_users
  users-Same user_set apps w h =
      if-Same w.service.rdb_manager _ _
        (rw (listing_nil w h)
          (rdbs-Same user_set apps (root_list_user_databases w).1 (listing-Same w h)))
        (rdbs-Same user_set apps w h)

  listed-Same :
      (user_set : List Text) (r : Result (List (Text × Option Text))) (w : World Services)
      → Same w
      → Same (audit_listed unicode_lower iterate user_set r w).1
  unfolding audit_listed
  listed-Same user_set (err e) w h = h
  listed-Same user_set (ok apps) w h = users-Same user_set apps w h

  list_apps-Same : (w : World Services) → Same w → Same (list_apps w).1
  unfolding list_apps api_exec
  list_apps-Same w h = ground arith

  loaded-Same :
      (r : Result (Option (List Text))) (w : World Services)
      → Same w
      → Same (continue r (audit_loaded unicode_lower iterate) w).1
  unfolding audit_loaded
  loaded-Same (err e) w h = h
  loaded-Same (ok none) w h = h
  loaded-Same (ok (some user_set)) w h =
      listed-Same user_set (list_apps w).0 (list_apps w).1 (list_apps-Same w h)

  -- While CockroachDB holds no database that the pattern matches, the audit changes nothing there:
  -- it makes no database for any user, though every call succeeds.
  pub do_user_audit-unlisted :
      (text_leb : Text → Text → Bool) (w : World Services)
      → w.service.catalog ≡ c
      → (do_user_audit unicode_lower iterate text_leb w).1.service.catalog ≡ c
  unfolding do_user_audit load_all_user_uids
  do_user_audit-unlisted text_leb w h =
      if-Same w.service.clients _ (ok tt, w)
        (loaded-Same (load_all_user_uids text_leb w).0 (load_all_user_uids text_leb w).1 (
          ap (λ (v : Services). v.catalog)
            (pages-service text_leb (suc (length w.db.users.rows)) 0 [] w)
          ∙ h))
        h
