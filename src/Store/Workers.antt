-- ===== src/Store/Workers.antt =====
-- dblayer/worker.actions.go
pub mod Owner
pub mod Deploy
pub mod Keys
pub mod Sound
use storebirth.Base.{
  ℕ, zero, suc, ◌+◌, List, [], ◌∷◌, ◌++◌, Bool, true, false, ◌&&◌, Option, none, some, Text, codes,
  text_eq, ◌==◌, if◌then◌else◌, take, drop,
}
use storebirth.Store.{
  Db, Table, User, Worker, WorkerDeployVersion, WorkerStatus, VersionStatus, Error, no_rows, Result,
  ok, err,
}
use storebirth.Store.Sql.{
  World, M, ◌>>=◌, ◌>>◌, pure, exec, transaction, select, update, delete, first, exists, order_desc,
  row_or, affected, duplicate_key,
}

-- WHERE wid = $1 AND user_uid = $2
abbrev pub is_owned : Text → Text → Worker → Bool
is_owned wid user_uid w = text_eq w.wid wid && text_eq w.user_uid user_uid

abbrev pub set_workers : List Worker → Db → Db
set_workers rows d = record d { workers = record d.workers { rows = rows } }

abbrev pub set_versions : List WorkerDeployVersion → Db → Db
set_versions rows d = record d { versions = record d.versions { rows = rows } }

-- The columns that the INSERT leaves out have the defaults of the schema.
abbrev pub new_worker : ℕ → ℕ → Text → Text → Text → Worker
new_worker id now wid user_uid worker_name = record {
  id = id;
  wid = wid;
  user_uid = user_uid;
  worker_name = worker_name;
  status = WorkerStatus.unloaded;
  active_version_id = none;
  env_json = codes "{}";
  secrets_json = codes "[]";
  created_at = now;
}

insert_worker : ℕ → Text → Text → Text → Db → Result (Unit {0}) × Db
insert_worker now wid user_uid worker_name d =
    if exists (λ (w : Worker). text_eq w.wid wid) d.workers.rows then (err duplicate_key, d) else (
      ok tt,
      record d {
        workers = record {
          rows = d.workers.rows ++ new_worker d.workers.next_id now wid user_uid worker_name ∷ [];
          next_id = suc d.workers.next_id;
        };
      },
    )

insert_version : ℕ → ℕ → Text → ℕ → Db → Result ℕ × Db
insert_version now worker_id image port d = (
  ok d.versions.next_id,
  record d {
    versions = record {
      rows =
          d.versions.rows
          ++ record {
            id = d.versions.next_id;
            worker_id = worker_id;
            image = image;
            port = port;
            status = VersionStatus.loading;
            msg = [];
            created_at = now;
          }
            ∷ [];
      next_id = suc d.versions.next_id;
    };
  },
)

-- UPDATE workers SET … WHERE wid = $ AND user_uid = $, with the test on RowsAffected
update_owned : Text → Text → (Worker → Worker) → Db → Result (Unit {0}) × Db
update_owned wid user_uid set d = (
  affected (exists (is_owned wid user_uid) d.workers.rows),
  set_workers (update (is_owned wid user_uid) set d.workers.rows) d,
)

-- UPDATE workers SET status = 'loading' WHERE wid = $1 AND user_uid = $2 RETURNING id
load_owned : Text → Text → Db → Result Worker × Db
load_owned wid user_uid d = (
  row_or (first (is_owned wid user_uid) d.workers.rows) no_rows,
  set_workers
      (update (is_owned wid user_uid) (λ w. record w { status = WorkerStatus.loading })
        d.workers.rows)
      d,
)

-- ON DELETE CASCADE: the versions of the workers that are deleted
pub orphaned : Text → Text → List Worker → WorkerDeployVersion → Bool
orphaned wid user_uid workers v =
    exists (λ (w : Worker). is_owned wid user_uid w && (w.id == v.worker_id)) workers

delete_owned : Text → Text → Db → Result (Unit {0}) × Db
unfolding orphaned
delete_owned wid user_uid d = (
  affected (exists (is_owned wid user_uid) d.workers.rows),
  record d {
    workers = record d.workers { rows = delete (is_owned wid user_uid) d.workers.rows };
    versions = record d.versions {
      rows = delete (orphaned wid user_uid d.workers.rows) d.versions.rows;
    };
  },
)

-- FROM worker_deploy_versions v JOIN workers w ON w.id = v.worker_id JOIN users u ON u.uid = w.user_uid
pub record Joined : Type 0 where
  pub version : WorkerDeployVersion
  pub worker : Worker
  pub secret_key : Text

unfoldable pub join : ℕ → Db → Option Joined
join version_id d = elim (first (λ (v : WorkerDeployVersion). v.id == version_id) d.versions.rows) [
  | none ↦ none
  | some v ↦ elim (first (λ (w : Worker). w.id == v.worker_id) d.workers.rows) [
    | none ↦ none
    | some w ↦ elim (first (λ (u : User). text_eq u.uid w.user_uid) d.users.rows) [
      | none ↦ none
      | some u ↦ some (record { version = v; worker = w; secret_key = u.secret_key })
    ]
  ]
]

module _ {S : Type 0} where
  unfoldable pub create_worker : Text → Text → Text → M S (Unit {0})
  unfolding insert_worker exec
  create_worker wid user_uid worker_name s = exec (insert_worker s.now wid user_uid worker_name) s

  unfoldable pub list_workers_by_user : Text → M S (List Worker)
  list_workers_by_user user_uid = exec λ d. (
    ok (
        order_desc (λ (w : Worker). w.created_at)
          (select (λ (w : Worker). text_eq w.user_uid user_uid) d.workers.rows)),
    d,
  )

  unfoldable pub update_deploy_version_status : ℕ → VersionStatus → Text → M S (Unit {0})
  unfolding exec
  update_deploy_version_status version_id status msg = exec λ d. (
    ok tt,
    set_versions
        (update (λ (v : WorkerDeployVersion). v.id == version_id)
          (λ v. record v { status = status; msg = msg }) d.versions.rows)
        d,
  )

  unfoldable pub list_deploy_versions : ℕ → ℕ → ℕ → M S (List WorkerDeployVersion)
  unfolding exec
  list_deploy_versions worker_id limit offset = exec λ d. (
    ok (
        take limit (
          drop offset (
            order_desc (λ (v : WorkerDeployVersion). v.created_at)
              (select (λ (v : WorkerDeployVersion). v.worker_id == worker_id) d.versions.rows)))),
    d,
  )

  unfoldable pub get_worker_by_owner : Text → Text → M S Worker
  unfolding exec
  get_worker_by_owner wid user_uid =
      exec λ d. (row_or (first (is_owned wid user_uid) d.workers.rows) no_rows, d)

  unfoldable pub get_worker_env_by_owner : Text → Text → M S Text
  unfolding get_worker_by_owner
  get_worker_env_by_owner wid user_uid = do w ← get_worker_by_owner wid user_uid; pure w.env_json

  unfoldable pub set_worker_env_by_owner : Text → Text → Text → M S (Unit {0})
  unfolding exec update_owned
  set_worker_env_by_owner wid user_uid env_json = exec (
      update_owned wid user_uid
        λ w. record w { env_json = env_json; status = WorkerStatus.loading })

  unfoldable pub get_worker_secrets_by_owner : Text → Text → M S Text
  unfolding get_worker_by_owner
  get_worker_secrets_by_owner wid user_uid = do
    w ← get_worker_by_owner wid user_uid
    pure w.secrets_json

  unfoldable pub set_worker_secrets_by_owner : Text → Text → Text → M S (Unit {0})
  unfolding exec update_owned
  set_worker_secrets_by_owner wid user_uid secrets_json = exec (
      update_owned wid user_uid
        λ w. record w { secrets_json = secrets_json; status = WorkerStatus.loading })

  unfoldable pub delete_worker_by_owner : Text → Text → M S (Unit {0})
  unfolding exec delete_owned
  delete_worker_by_owner wid user_uid = exec (delete_owned wid user_uid)

  unfoldable pub create_deploy_version_for_owner : Text → Text → Text → ℕ → M S ℕ
  unfolding exec transaction load_owned insert_version
  create_deploy_version_for_owner wid user_uid image port s =
      transaction
        (do w ← exec (load_owned wid user_uid); exec (insert_version s.now w.id image port)) s

  unfoldable pub get_deploy_version_with_worker : ℕ → M S Joined
  unfolding exec join
  get_deploy_version_with_worker version_id = exec λ d. (row_or (join version_id d) no_rows, d)

  unfoldable pub deploy_version_success : ℕ → ℕ → M S (Unit {0})
  unfolding exec transaction
  deploy_version_success version_id worker_id = transaction (do
    exec λ d. (
      ok tt,
      set_versions
          (update (λ (v : WorkerDeployVersion). v.id == version_id)
            (λ v. record v { status = VersionStatus.success; msg = [] }) d.versions.rows)
          d,
    )
    exec λ d. (
      ok tt,
      set_workers
          (update (λ (w : Worker). w.id == worker_id)
            (λ w. record w { active_version_id = some version_id; status = WorkerStatus.active })
            d.workers.rows)
          d,
    ))

  unfoldable pub update_worker_status : Text → WorkerStatus → M S (Unit {0})
  unfolding exec
  update_worker_status wid status = exec λ d. (
    ok tt,
    set_workers
        (update (λ (w : Worker). text_eq w.wid wid) (λ w. record w { status = status })
          d.workers.rows)
        d,
  )
