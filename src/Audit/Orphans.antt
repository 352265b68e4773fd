-- ===== src/Audit/Orphans.antt =====
-- What the audit of handlers/jobs/auth.cron.go drops while CockroachDB answers.
use storebirth.Base.{
  refl, Bool, if◌then◌else◌, ℕ, ◌≡◌, ◌∙◌, List, [], ◌∷◌, true, false, not, ◌&&◌, Text, text_eq,
  arith, Bool-cases, inl, inr,
}
use storebirth.Store.{Result, ok, err}
use storebirth.Store.Sql.{World}
use storebirth.Audit.{each, valid_dbs, clean_rdb, clean_orphan_rdbs}
use storebirth.Rdb.Root.{contains-remove, RootQuiet, connected-quiet}
use storebirth.Rdb.{
  Catalog, named, remove, without_database, Services, contains, root_exec, drop_database,
}
use storebirth.Audit.Kept.{has_database}

-- Whether the server reads a text as a name.
abbrev pub reads_as : Text → Result Text → Bool
reads_as name (err e) = false
reads_as name (ok n) = text_eq n name

-- Whether the audit drops a database: some name of the list is of none of the users, and the server
-- reads it as the name of that database.
abbrev pub is_dropped : (ℕ → ℕ) → (Text → Result Text) → List Text → Text → List Text → Bool
is_dropped unicode_lower reads user_set name [] = false
is_dropped unicode_lower reads user_set name (n ∷ existing) =
    if not (contains n (valid_dbs unicode_lower user_set)) && reads_as name (reads n)
    then true
    else is_dropped unicode_lower reads user_set name existing

module _ (unicode_lower : ℕ → ℕ) where
  removed :
      (name : Text) (r : Result Text) (c : Catalog)
      → let after = (named r (λ n c. (ok tt, record c { databases = remove n c.databases })) c).1 in
        (contains name after.databases ≡ (contains name c.databases && not (reads_as name r)))
        × (after.reads ≡ c.reads)
  removed name (err e) c = (ground arith, refl)
  removed name (ok n) c = (ground (arith, contains-remove name n c.databases), refl)

  -- What one round leaves: whether the database is there, how names are read, and no fault.
  abbrev Left : Text → Bool → World Services → World Services → Type 0
  Left name gone w v =
      (has_database name v ≡ (has_database name w && not gone))
      × (v.service.catalog.reads ≡ w.service.catalog.reads)
      × RootQuiet v

  dropped-quiet :
      (name n : Text) (w : World Services)
      → RootQuiet w
      → Left name (reads_as name (w.service.catalog.reads n)) w (drop_database n w).1
  unfolding drop_database root_exec
  dropped-quiet name n w q =
      let (v, eq, same, q') = connected-quiet w q (root_exec (without_database n)) in
      let (gone, reads) = removed name (w.service.catalog.reads n) w.service.catalog in
      rw (eq, q' v.service.root_calls, root_exec, same) (gone, reads, q')

  clean_rdb-quiet :
      (name n : Text) (user_set : List Text) (w : World Services)
      → RootQuiet w
      → Left name
          (not (contains n (valid_dbs unicode_lower user_set))
            && reads_as name (w.service.catalog.reads n))
          w
          (clean_rdb unicode_lower user_set n w).1
  unfolding clean_rdb
  clean_rdb-quiet name n user_set w q =
      elim (Bool-cases (contains n (valid_dbs unicode_lower user_set))) [
        | inl e ↦ rw (e, clean_rdb) (ground arith, refl, q)
        | inr e ↦ rw (e, clean_rdb) (dropped-quiet name n w q)
      ]

  clean_each :
      (reads : Text → Result Text) (name : Text) (user_set existing : List Text)
      (w : World Services)
      → w.service.catalog.reads ≡ reads
      → RootQuiet w
      → has_database name (each (clean_rdb unicode_lower user_set) existing w)
        ≡ (has_database name w && not (is_dropped unicode_lower reads user_set name existing))
  clean_each reads name user_set [] w same q = ground arith
  clean_each reads name user_set (n ∷ existing) w same q =
      let (here, same', q') = clean_rdb-quiet name n user_set w q in
      clean_each reads name user_set existing (clean_rdb unicode_lower user_set n w).1
        (same' ∙ same) q'
      ∙ (rw (here, same) (ground arith))

  -- While CockroachDB answers, cleanOrphanRDBs drops exactly the databases that the server reads some
  -- listed name as, where that name is of none of the users: any other is there afterwards if and only
  -- if it was there before. So a listed name that is read as another one drops that other database, and
  -- one that is read as none drops nothing.
  pub clean_orphan_rdbs-exact :
      (iterate : List Text → List Text) (name : Text) (user_set existing : List Text)
      (w : World Services)
      → RootQuiet w
      → has_database name (clean_orphan_rdbs unicode_lower iterate user_set existing w) ≡ (
          has_database name w
          && not (is_dropped unicode_lower w.service.catalog.reads user_set name existing))
  unfolding clean_orphan_rdbs
  clean_orphan_rdbs-exact iterate name user_set existing w q =
      clean_each w.service.catalog.reads name user_set existing w refl q
