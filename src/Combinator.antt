-- ===== src/Combinator.antt =====
-- handlers/jobs/combinator.jobs.go, with the operations on schemas of k8s/rdb.go.
pub mod Created
pub mod Schemas
use storebirth.Base.{
  ℕ, suc, List, [], ◌∷◌, ◌++◌, Bool, true, false, ◌&&◌, Option, none, some, Text, text_eq, codes,
  length, drop, ◌==◌, map, if◌then◌else◌,
}
use storebirth.Names.{database, username, schema_name}
use storebirth.Store.{ResourceStatus, Error, failed, message, Result, ok, err}
use storebirth.Store.Sql.{World, M, ◌>>◌, ◌>>=◌, pure, raise, attempt, select}
use storebirth.Store.Resources.{update_combinator_resource_status}
use storebirth.Rdb.{Services, contains, remove, add, init_user_rdb}
use storebirth.Rdb.Pool.{UserDbManager, get_or_create_user_db}

-- A pod of the combinator: whether it is running, and its address, empty if it has none.
pub record Pod : Type 0 where
  pub running : Bool
  pub ip : Text

-- A notification: the address, the user, the resource and its type.
abbrev pub Notice : Type 0
Notice = Text × Text × Text × Text

-- `user_fault` decides how the statements on the connections of users go.
pub record Fleet : Type 0 where
  pub rdb : Services
  pub users : UserDbManager
  -- the schemas of each database, and GRANT ALL ON SCHEMA … TO …
  pub schemas : List (Text × Text)
  pub schema_grants : List (Text × Text)
  pub user_calls : ℕ
  pub user_fault : ℕ → Option Text
  -- whether k8s.K8sClient is set, what the list of pods is, and the POSTs that were sent
  pub k8s_client : Bool
  pub pods : Result (List Pod)
  pub notices : List Notice

-- A call on the administrator's connection.
abbrev pub on_rdb : {A : Type 0} → M Services A → M Fleet A
on_rdb m w =
    let w' : World Services = record {
      db = w.db;
      now = w.now;
      calls = w.calls;
      fault = w.fault;
      service = w.service.rdb;
    } in
    (
      (m w').0,
      record {
        db = (m w').1.db;
        now = (m w').1.now;
        calls = (m w').1.calls;
        fault = (m w').1.fault;
        service = record w.service { rdb = (m w').1.service };
      },
    )

-- tryGetUserDB
abbrev pub try_get_user_db : Text → M Fleet ℕ
try_get_user_db uid w = (
  (get_or_create_user_db uid w.service.users).0,
  record w { service = record w.service { users = (get_or_create_user_db uid w.service.users).1 } },
)

-- One statement on a user's connection.
unfoldable pub user_exec : {A : Type 0} → (Fleet → A × Fleet) → M Fleet A
user_exec f w = elim (w.service.user_fault w.service.user_calls) [
  | some text ↦ (
    err (failed text),
    record w { service = record w.service { user_calls = suc w.service.user_calls } },
  )
  | none ↦ (
    ok (f w.service).0,
    record w { service = record (f w.service).1 { user_calls = suc w.service.user_calls } },
  )
]

abbrev pub pair_eq : Text × Text → Text × Text → Bool
pair_eq p q = text_eq p.0 q.0 && text_eq p.1 q.1

abbrev pub has_schema : Text × Text → List (Text × Text) → Bool
has_schema p [] = false
has_schema p (q ∷ qs) = if pair_eq q p then true else has_schema p qs

abbrev pub drop_schema : Text × Text → List (Text × Text) → List (Text × Text)
drop_schema p [] = []
drop_schema p (q ∷ qs) = if pair_eq q p then drop_schema p qs else q ∷ drop_schema p qs

-- CREATE SCHEMA IF NOT EXISTS, GRANT ALL ON SCHEMA, DROP SCHEMA IF EXISTS
abbrev pub with_schema : Text × Text → Fleet → Unit {0} × Fleet
with_schema p f =
    (tt, record f { schemas = if has_schema p f.schemas then f.schemas else f.schemas ++ p ∷ [] })

abbrev pub with_schema_grant : Text → Text → Fleet → Unit {0} × Fleet
with_schema_grant schema user f =
    (tt, record f { schema_grants = (schema, user) ∷ f.schema_grants })

abbrev pub without_schema : Text × Text → Fleet → Unit {0} × Fleet
without_schema p f = (tt, record f { schemas = drop_schema p f.schemas })

-- notifyAllCombinatorPods: a POST for each running pod with an address; that it fails is logged.
abbrev pub notices_for : Text → Text → Text → List Pod → List Notice
notices_for uid id type [] = []
notices_for uid id type (pod ∷ pods) =
    let rest = notices_for uid id type pods in
    if pod.running
    then (if text_eq pod.ip []
        then rest
        else (codes "http://" ++ (pod.ip ++ codes ":8890/webhook"), uid, id, type) ∷ rest)
    else rest

abbrev pub notify_listed : Text → Text → Text → Result (List Pod) → M Fleet (Unit {0})
notify_listed uid id type (err e) w =
    (err (failed (codes "failed to list combinator pods: " ++ message e)), w)
notify_listed uid id type (ok pods) w = (
  ok tt,
  record w {
    service = record w.service { notices = w.service.notices ++ notices_for uid id type pods };
  },
)

unfoldable pub notify_all_combinator_pods : Text → Text → Text → M Fleet (Unit {0})
notify_all_combinator_pods uid id type w =
    if w.service.k8s_client
    then notify_listed uid id type w.service.pods w
    else (err (failed (codes "k8s client not available")), w)

abbrev pub rdb : Text
rdb = codes "rdb"

abbrev pub kv : Text
kv = codes "kv"

module _ (unicode_lower : ℕ → ℕ) where
  -- The schema of a resource, in the database of its user.
  abbrev pub schema_of : Text → Text → Text × Text
  schema_of uid id = (database unicode_lower uid, schema_name unicode_lower id)

  -- CreateSchema
  unfoldable pub create_schema : Text → Text → M Fleet (Unit {0})
  unfolding user_exec
  create_schema uid id = do
    try_get_user_db uid
    user_exec (with_schema (schema_of uid id))
    user_exec (with_schema_grant (schema_name unicode_lower id) (username unicode_lower uid))

  -- DeleteSchema
  unfoldable pub delete_schema : Text → Text → M Fleet (Unit {0})
  unfolding user_exec
  delete_schema uid id = do try_get_user_db uid; user_exec (without_schema (schema_of uid id))

  -- SchemaExists
  unfoldable pub schema_exists : Text → Text → M Fleet Bool
  unfolding user_exec
  schema_exists uid id = do
    try_get_user_db uid
    user_exec λ f. (has_schema (schema_of uid id) f.schemas, f)

  -- The status of a resource, where no error is looked at.
  abbrev pub set_status : Text → Text → Text → ResourceStatus → Text → World Fleet → World Fleet
  set_status uid type id status msg w =
      (update_combinator_resource_status uid type id status msg w).1

  -- An error of createRDBJob is stored as the message of the resource, and returned.
  abbrev pub create_failed : Text → Text → Text → Text → M Fleet (Unit {0})
  create_failed uid id msg text w =
      (err (failed text), set_status uid rdb id ResourceStatus.error msg w)

  abbrev pub schema_made : Text → Text → Result (Unit {0}) → M Fleet (Unit {0})
  schema_made uid id (err e) w =
      create_failed uid id (message e) (codes "create schema: " ++ message e) w
  schema_made uid id (ok _) w = (ok tt, set_status uid rdb id ResourceStatus.active [] w)

  abbrev pub database_made : Text → Text → Result (Unit {0}) → M Fleet (Unit {0})
  database_made uid id (err e) w =
      create_failed uid id (message e) (codes "init user rdb: " ++ message e) w
  database_made uid id (ok _) w = attempt (create_schema uid id) (schema_made uid id) w

  -- createRDBJob.Do
  unfoldable pub do_create_rdb : Text → Text → M Fleet (Unit {0})
  unfolding create_schema init_user_rdb update_combinator_resource_status
  do_create_rdb uid id w =
      if w.service.rdb.rdb_manager
      then attempt (on_rdb (init_user_rdb unicode_lower uid)) (database_made uid id) w
      else create_failed uid id (codes "cockroachdb not available")
          (codes "cockroachdb not available") w

  -- deleteRDBJob.Do: errors are logged.
  unfoldable pub do_delete_rdb : Text → Text → M Fleet (Unit {0})
  unfolding delete_schema notify_all_combinator_pods
  do_delete_rdb uid id w =
      let w' = if w.service.rdb.rdb_manager then (delete_schema uid id w).1 else w in
      (ok tt, (notify_all_combinator_pods uid id rdb w').1)

-- createKVJob.Do
unfoldable pub do_create_kv : Text → Text → M Fleet (Unit {0})
unfolding update_combinator_resource_status
do_create_kv uid id w =
    (ok tt, (update_combinator_resource_status uid kv id ResourceStatus.active [] w).1)

-- deleteKVJob.Do
unfoldable pub do_delete_kv : Text → Text → M Fleet (Unit {0})
unfolding notify_all_combinator_pods
do_delete_kv uid id w = (ok tt, (notify_all_combinator_pods uid id kv w).1)
