-- ===== src/Jobs/Worker.antt =====
-- handlers/jobs/worker.jobs.go: what the jobs of a worker do, with CreateWorkerAppCR and
-- DeleteWorkerAppCR of k8s/controller/worker.controller.go.
pub mod Deploy
pub mod Sync
use storebirth.Base.{ℕ, ◌++◌, Text, codes, if◌then◌else◌}
use storebirth.Names.{worker_name, env_config_map_name, secret_name}
use storebirth.Uid.{print_decimal}
use storebirth.Jobs.{StringMap}
use storebirth.Store.{WorkerStatus, VersionStatus, Error, failed, message, Result, ok, err}
use storebirth.Store.Sql.{M, ◌>>◌, pure, raise, attempt}
use storebirth.Store.Workers.{
  Joined, get_deploy_version_with_worker, update_deploy_version_status, update_worker_status,
  deploy_version_success,
}
use storebirth.Platform.{Platform, ObjectApi, Cluster, WorkerAppSpec, call}

-- A call whose error is not looked at.
abbrev pub ignore : {S A : Type 0} → M S A → M S (Unit {0})
ignore m w = (ok tt, (m w).1)

module _ {C : Type 0} where
  after_update : Text → Text → Result (Unit {0}) → M (Platform C) (Unit {0})
  after_update worker_id what (err e) = do
    ignore (update_worker_status worker_id WorkerStatus.error)
    raise (failed (what ++ message e))
  after_update worker_id what (ok _) = ignore (update_worker_status worker_id WorkerStatus.active)

  -- An object that cannot be read is no error, and nothing is done.
  replace_data :
      ObjectApi C StringMap
      → Text
      → Text
      → Text
      → StringMap
      → Result StringMap
      → M (Platform C) (Unit {0})
  unfolding after_update
  replace_data api name worker_id what entries (err e) = pure tt
  replace_data api name worker_id what entries (ok existing) =
      attempt (call (api.update name entries)) (after_update worker_id what)

  sync_data : ObjectApi C StringMap → Text → Text → Text → StringMap → M (Platform C) (Unit {0})
  unfolding replace_data
  sync_data api name worker_id what entries w =
      if w.service.k8s_client
      then attempt (call (api.get name)) (replace_data api name worker_id what entries) w
      else (ok tt, w)

-- The arguments of CreateWorkerAppCR.
abbrev pub spec_of : Joined → WorkerAppSpec
spec_of j = record {
  worker_id = j.worker.wid;
  owner_id = j.worker.user_uid;
  owner_sk = j.secret_key;
  image = j.version.image;
  port = j.version.port;
}

module _ {C : Type 0} (k : Cluster C) where
  create_or_update : Text → WorkerAppSpec → Result WorkerAppSpec → M (Platform C) (Unit {0})
  create_or_update name spec (err e) = call (k.worker_apps.create name spec)
  create_or_update name spec (ok existing) = call (k.worker_apps.update name spec)

  -- CreateWorkerAppCR: any error of Get leads to Create.
  unfoldable pub create_worker_app_cr : Text → WorkerAppSpec → M (Platform C) (Unit {0})
  unfolding create_or_update
  create_worker_app_cr name spec =
      attempt (call (k.worker_apps.get name)) (create_or_update name spec)

  delete_worker_app_cr : Text → M (Platform C) (Unit {0})
  delete_worker_app_cr name = call (k.worker_apps.delete name)

  create_cr_failed : ℕ → Joined → Error → M (Platform C) (Unit {0})
  create_cr_failed version_id j e = do
    ignore (update_deploy_version_status version_id VersionStatus.error (message e))
    ignore (update_worker_status j.worker.wid WorkerStatus.error)
    raise (
        failed (
          codes "create CR for version "
          ++ (print_decimal version_id ++ (codes ": " ++ message e))))

  after_create : ℕ → Joined → Result (Unit {0}) → M (Platform C) (Unit {0})
  unfolding create_cr_failed
  after_create version_id j (err e) = create_cr_failed version_id j e
  after_create version_id j (ok _) = ignore (deploy_version_success version_id j.worker.id)

  after_read : ℕ → Result Joined → M (Platform C) (Unit {0})
  unfolding after_create create_worker_app_cr
  after_read version_id (err e) = do
    ignore (update_deploy_version_status version_id VersionStatus.error (message e))
    raise (failed (codes "get version " ++ (print_decimal version_id ++ (codes ": " ++ message e))))
  after_read version_id (ok j) =
      attempt (create_worker_app_cr (worker_name j.worker.wid j.worker.user_uid) (spec_of j))
        (after_create version_id j)

  -- deployWorkerJob.Do
  unfoldable pub do_deploy_worker : ℕ → M (Platform C) (Unit {0})
  unfolding after_read
  do_deploy_worker version_id =
      attempt (get_deploy_version_with_worker version_id) (after_read version_id)

  -- syncEnvJob.Do
  unfoldable pub do_sync_env : Text → Text → StringMap → M (Platform C) (Unit {0})
  unfolding sync_data
  do_sync_env worker_id user_uid entries =
      sync_data k.config_maps (env_config_map_name worker_id user_uid) worker_id
        (codes "sync env configmap: ") entries

  -- syncSecretJob.Do
  unfoldable pub do_sync_secret : Text → Text → StringMap → M (Platform C) (Unit {0})
  unfolding sync_data
  do_sync_secret worker_id user_uid entries =
      sync_data k.secrets (secret_name worker_id user_uid) worker_id (codes "sync secret: ") entries

  -- deleteWorkerCRJob.Do
  unfoldable pub do_delete_worker_cr : Text → Text → M (Platform C) (Unit {0})
  unfolding delete_worker_app_cr
  do_delete_worker_cr worker_id user_uid = delete_worker_app_cr (worker_name worker_id user_uid)
