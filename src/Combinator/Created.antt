-- ===== src/Combinator/Created.antt =====
-- createRDBJob.Do (handlers/jobs/combinator.jobs.go): the status of a resource and its schema.
use storebirth.Base.{
  ℕ, ◌≡◌, refl, ap, ◌∙◌, List, [], ◌∷◌, ◌++◌, Bool, true, false, Bool-cases, inl, inr, Option, none,
  Text, text_eq_iff, codes, arith, if◌then◌else◌,
}
use storebirth.Store.{Db, CombinatorResource, ResourceStatus, message, Result, ok, err}
use storebirth.Store.Sql.{World, exec, update}
use storebirth.Store.Resources.{is_resource, update_combinator_resource_status}
use storebirth.Rdb.{init_user_rdb}
use storebirth.Rdb.Root.{init_user_rdb-DbSame}
use storebirth.Combinator.{
  Fleet, on_rdb, user_exec, has_schema, with_schema, schema_of, create_schema, set_status,
  schema_made, database_made, do_create_rdb, rdb,
}

-- The resources with a new status and message for one of them.
abbrev pub with_state :
    Text → Text → ResourceStatus → Text → List CombinatorResource → List CombinatorResource
with_state uid id status msg =
    update (is_resource uid rdb id)
      (λ (r : CombinatorResource). record r { status = status; msg = msg })

has_schema-append : (p : Text × Text) (ps : List (Text × Text)) → has_schema p (ps ++ p ∷ []) ≡ true
has_schema-append p [] = ground (arith, text_eq_iff p.0 p.0, text_eq_iff p.1 p.1)
has_schema-append p (q ∷ ps) = ground (arith, has_schema-append p ps)

has_schema-with_schema :
    (p : Text × Text) (f : Fleet) → has_schema p (with_schema p f).1.schemas ≡ true
has_schema-with_schema p f = elim (Bool-cases (has_schema p f.schemas)) [
  | inl e ↦ rw e e
  | inr e ↦ rw e (has_schema-append p f.schemas)
]

-- No call of a database fails.
abbrev pub DbQuiet : World Fleet → Type 0
DbQuiet w = (n : ℕ) → w.fault n ≡ none

module _ (unicode_lower : ℕ → ℕ) (uid id : Text) where
  -- A schema that was made is there, and the other database is as before.
  abbrev SchemaEnds : World Fleet → Result (Unit {0}) × World Fleet → Type 0
  SchemaEnds w t =
      (t.1.db ≡ w.db)
      × (t.1.fault ≡ w.fault)
      × (t.0 ≡ ok tt → has_schema (schema_of unicode_lower uid id) t.1.service.schemas ≡ true)

  create_schema-SchemaEnds : (w : World Fleet) → SchemaEnds w (create_schema unicode_lower uid id w)
  unfolding create_schema user_exec
  create_schema-SchemaEnds w = (
    ground arith,
    ground arith,
    λ done. ground (arith, done, has_schema-with_schema (schema_of unicode_lower uid id) w.service),
  )

  -- The two ends of the job.
  abbrev pub CreateEnds : List CombinatorResource → Result (Unit {0}) × World Fleet → Type 0
  CreateEnds rows (ok x, t) =
      (has_schema (schema_of unicode_lower uid id) t.service.schemas ≡ true)
      × (t.db.combinator_resources.rows ≡ with_state uid id ResourceStatus.active [] rows)
  CreateEnds rows (err e, t) =
      (msg : Text) × (t.db.combinator_resources.rows
        ≡ with_state uid id ResourceStatus.error msg rows)

  rows-set_status :
      (status : ResourceStatus) (msg : Text) (w : World Fleet)
      → DbQuiet w
      → ((set_status unicode_lower uid rdb id status msg w).db.combinator_resources.rows
          ≡ with_state uid id status msg w.db.combinator_resources.rows)
        × ((set_status unicode_lower uid rdb id status msg w).service ≡ w.service)
  unfolding update_combinator_resource_status exec
  rows-set_status status msg w q = (ground (arith, q w.calls), ground (arith, q w.calls))

  schema_made-CreateEnds :
      (rows : List CombinatorResource) (r : Result (Unit {0})) (w : World Fleet)
      → DbQuiet w
      → w.db.combinator_resources.rows ≡ rows
      → (r ≡ ok tt → has_schema (schema_of unicode_lower uid id) w.service.schemas ≡ true)
      → CreateEnds rows (schema_made unicode_lower uid id r w)
  schema_made-CreateEnds rows (ok x) w q e made =
      let set = rows-set_status ResourceStatus.active [] w q in
      (
        ap (λ (f : Fleet). has_schema (schema_of unicode_lower uid id) f.schemas) set.1 ∙ made refl,
        set.0 ∙ ap (with_state uid id ResourceStatus.active []) e,
      )
  schema_made-CreateEnds rows (err x) w q e made =
      let set = rows-set_status ResourceStatus.error (message x) w q in
      (message x, set.0 ∙ ap (with_state uid id ResourceStatus.error (message x)) e)

  database_made-CreateEnds :
      (rows : List CombinatorResource) (r : Result (Unit {0})) (w : World Fleet)
      → DbQuiet w
      → w.db.combinator_resources.rows ≡ rows
      → CreateEnds rows (database_made unicode_lower uid id r w)
  database_made-CreateEnds rows (ok x) w q e =
      let (db, fault, made) = create_schema-SchemaEnds w in
      let made_world = (create_schema unicode_lower uid id w).1 in
      schema_made-CreateEnds rows (create_schema unicode_lower uid id w).0 made_world
        (λ n. ap (λ (f : ℕ → Option Text). f n) fault ∙ q n)
        (ap (λ (d : Db). d.combinator_resources.rows) db ∙ e) made
  database_made-CreateEnds rows (err x) w q e =
      let set = rows-set_status ResourceStatus.error (message x) w q in
      (message x, set.0 ∙ ap (with_state uid id ResourceStatus.error (message x)) e)

  by_manager :
      (rows : List CombinatorResource) (b : Bool) (x y : Result (Unit {0}) × World Fleet)
      → CreateEnds rows x
      → CreateEnds rows y
      → CreateEnds rows (if b then x else y)
  by_manager rows true x y h k = h
  by_manager rows false x y h k = k

  -- While the database of the control plane answers, and however CockroachDB does, the job of a new
  -- RDB ends in one of two ways: it returns no error, the schema of the resource is in the database of
  -- its user, and the resource is active; or it returns an error, and the resource has the status
  -- error. No other resource changes.
  pub do_create_rdb-CreateEnds :
      (w : World Fleet)
      → DbQuiet w
      → CreateEnds w.db.combinator_resources.rows (do_create_rdb unicode_lower uid id w)
  unfolding do_create_rdb
  do_create_rdb-CreateEnds w q =
      let rows = w.db.combinator_resources.rows in
      let t = on_rdb (init_user_rdb unicode_lower uid) w in
      let same = init_user_rdb-DbSame unicode_lower uid (record {
        db = w.db;
        now = w.now;
        calls = w.calls;
        fault = w.fault;
        service = w.service.rdb;
      }) in
      let set = rows-set_status ResourceStatus.error (codes "cockroachdb not available") w q in
      by_manager rows w.service.rdb.rdb_manager _ _
        (database_made-CreateEnds rows t.0 t.1 (λ n. ap (λ (f : ℕ → Option Text). f n) same.1 ∙ q n)
          (ap (λ (d : Db). d.combinator_resources.rows) same.0))
        (codes "cockroachdb not available", set.0)
