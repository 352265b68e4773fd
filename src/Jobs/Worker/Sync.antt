-- ===== src/Jobs/Worker/Sync.antt =====
-- syncEnvJob.Do and syncSecretJob.Do (handlers/jobs/worker.jobs.go) when the database answers.
use storebirth.Base.{◌≡◌, ◌≢◌, refl, ap, ◌∙◌, subst, codes, true, some, Text, text_eq, arith}
use storebirth.Names.{env_config_map_name, secret_name}
use storebirth.Jobs.{StringMap}
use storebirth.Store.{Db, Worker, WorkerStatus, Error, Result, ok, err}
use storebirth.Store.Sql.{World, update}
use storebirth.Store.Workers.{set_workers, update_worker_status}
use storebirth.Platform.{Platform, ObjectApi, IsStore, Cluster, call}
use storebirth.Jobs.Worker.{sync_data, replace_data, after_update, do_sync_env, do_sync_secret}
use storebirth.Jobs.Worker.Deploy.{Quiet}

-- The database with a new status for a worker.
abbrev pub with_status : Text → WorkerStatus → Db → Db
with_status wid status d =
    set_workers
      (update (λ (w : Worker). text_eq w.wid wid) (λ w. record w { status = status })
        d.workers.rows)
      d

module _ {C : Type 0} (api : ObjectApi C StringMap) (name worker_id : Text)
    (entries : StringMap) where
  after_update_settled :
      (what : Text) (r : Result (Unit {0})) (s : World (Platform C))
      → Quiet s
      → (r ≡ ok tt
          → ((after_update worker_id what r s).0 ≡ ok tt)
            × ((after_update worker_id what r s).1.db
                ≡ with_status worker_id WorkerStatus.active s.db)
            × ((after_update worker_id what r s).1.service ≡ s.service))
        × ((e : Error)
            → r ≡ err e
            → ((after_update worker_id what r s).0 ≢ ok tt)
              × ((after_update worker_id what r s).1.db
                  ≡ with_status worker_id WorkerStatus.error s.db))
  unfolding after_update update_worker_status
  after_update_settled what (ok x) s q =
      ((λ h. (refl, ground (arith, q s.calls), ground (arith, q s.calls))), λ e h. absurd (cc))
  after_update_settled what (err x) s q =
      ((λ h. absurd (cc)), λ e h. (ground (arith, q s.calls), ground (arith, q s.calls)))

  -- The world before the update of the object.
  abbrev pub read_first : World (Platform C) → World (Platform C)
  read_first s = (call (api.get name) s).1

  abbrev pub write_back : World (Platform C) → Result (Unit {0}) × World (Platform C)
  write_back s = call (api.update name entries) (read_first s)

  -- The three ends of a synchronisation.
  abbrev pub Synced : (Result (Unit {0}) × World (Platform C)) → World (Platform C) → Type 0
  Synced t s =
      ((e : Error) → (api.get name s.service.cluster).0 ≡ err e → (t.0 ≡ ok tt) × (t.1.db ≡ s.db))
      × ((old : StringMap)
          → (api.get name s.service.cluster).0 ≡ ok old
          → ((write_back s).0 ≡ ok tt
              → (t.0 ≡ ok tt)
                × (t.1.db ≡ with_status worker_id WorkerStatus.active s.db)
                × (api.view t.1.service.cluster name ≡ some entries))
            × ((e : Error)
                → (write_back s).0 ≡ err e
                → (t.0 ≢ ok tt) × (t.1.db ≡ with_status worker_id WorkerStatus.error s.db)))

  replace_settled :
      (what : Text) (r : Result StringMap) (s : World (Platform C))
      → Quiet s
      → IsStore api
      → (api.get name s.service.cluster).0 ≡ r
      → Synced (replace_data api name worker_id what entries r (read_first s)) s
  unfolding replace_data
  replace_settled what (err x) s q law e =
      ((λ x h. (refl, refl)), λ old h. absurd (let p : err x ≡ ok old = cc in cc p))
  replace_settled what (ok x) s q law e =
      let after = after_update_settled what (write_back s).0 (write_back s).1 q in
      (
        (λ y h. absurd (let p : err y ≡ ok x = cc in cc p)),
        λ old h. (
          (λ u. (
            (after.0 u).0,
            (after.0 u).1,
            ap (λ (p : Platform C). api.view p.cluster name) (after.0 u).2
                ∙ law.view-update name entries (read_first s).service.cluster u,
          )),
          λ y u. after.1 y u,
        ),
      )

  sync_on :
      (what : Text) (s : World (Platform C))
      → s.service.k8s_client ≡ true
      → replace_data api name worker_id what entries
          (api.get name s.service.cluster).0
          (read_first s)
        ≡ sync_data api name worker_id what entries s
  unfolding sync_data
  sync_on what s on = ground arith

  sync_settled :
      (what : Text) (s : World (Platform C))
      → Quiet s
      → IsStore api
      → s.service.k8s_client ≡ true
      → Synced (sync_data api name worker_id what entries s) s
  unfolding sync_data
  sync_settled what s q law on =
      subst (λ t. Synced t s) (sync_on what s on)
        (replace_settled what (api.get name s.service.cluster).0 s q law refl)

  -- The three ends, by what the read and the write of the object return.
  abbrev pub WriteEnds :
      (Result (Unit {0}) × World (Platform C)) → World (Platform C) → Result (Unit {0}) → Type 0
  WriteEnds t s (ok x) =
      (t.0 ≡ ok tt)
      × (t.1.db ≡ with_status worker_id WorkerStatus.active s.db)
      × (api.view t.1.service.cluster name ≡ some entries)
  WriteEnds t s (err e) = (t.0 ≢ ok tt) × (t.1.db ≡ with_status worker_id WorkerStatus.error s.db)

  abbrev pub SyncEnds :
      (Result (Unit {0}) × World (Platform C)) → World (Platform C) → Result StringMap → Type 0
  SyncEnds t s (err e) = (t.0 ≡ ok tt) × (t.1.db ≡ s.db)
  SyncEnds t s (ok old) = WriteEnds t s (write_back s).0

  settled_write :
      (t : Result (Unit {0}) × World (Platform C)) (s : World (Platform C)) (old : StringMap)
      (r : Result (Unit {0}))
      → Synced t s
      → (api.get name s.service.cluster).0 ≡ ok old
      → (write_back s).0 ≡ r
      → WriteEnds t s r
  settled_write t s old (ok x) h e u = (h.1 old e).0 u
  settled_write t s old (err x) h e u = (h.1 old e).1 x u

  settled_sync :
      (t : Result (Unit {0}) × World (Platform C)) (s : World (Platform C)) (r : Result StringMap)
      → Synced t s
      → (api.get name s.service.cluster).0 ≡ r
      → SyncEnds t s r
  settled_sync t s (err x) h e = h.0 x e
  settled_sync t s (ok old) h e = settled_write t s old _ h e refl

module _ {C : Type 0} (k : Cluster C) (worker_id user_uid : Text) (entries : StringMap) where
  pub do_sync_env_cases :
      (s : World (Platform C))
      → Quiet s
      → IsStore k.config_maps
      → s.service.k8s_client ≡ true
      → Synced k.config_maps
          (env_config_map_name worker_id user_uid)
          worker_id
          entries
          (do_sync_env k worker_id user_uid entries s)
          s
  unfolding do_sync_env
  do_sync_env_cases s q law on =
      sync_settled k.config_maps (env_config_map_name worker_id user_uid) worker_id entries
        (codes "sync env configmap: ") s q law on

  pub do_sync_secret_cases :
      (s : World (Platform C))
      → Quiet s
      → IsStore k.secrets
      → s.service.k8s_client ≡ true
      → Synced k.secrets
          (secret_name worker_id user_uid)
          worker_id
          entries
          (do_sync_secret k worker_id user_uid entries s)
          s
  unfolding do_sync_secret
  do_sync_secret_cases s q law on =
      sync_settled k.secrets (secret_name worker_id user_uid) worker_id entries
        (codes "sync secret: ") s q law on

  -- While the database answers and there is a client: if the ConfigMap cannot be read, the job of
  -- the environment does nothing and reports no error; if it is read and written back, it holds
  -- exactly the entries of the job, and the worker is active; if the write fails, the worker has the
  -- status error.
  pub do_sync_env_outcome :
      (s : World (Platform C))
      → Quiet s
      → IsStore k.config_maps
      → s.service.k8s_client ≡ true
      → SyncEnds k.config_maps
          (env_config_map_name worker_id user_uid)
          worker_id
          entries
          (do_sync_env k worker_id user_uid entries s)
          s
          (k.config_maps.get (env_config_map_name worker_id user_uid) s.service.cluster).0
  do_sync_env_outcome s q law on =
      settled_sync k.config_maps (env_config_map_name worker_id user_uid) worker_id entries
        (do_sync_env k worker_id user_uid entries s) s _ (do_sync_env_cases s q law on) refl

  -- While the database answers and there is a client: if the Secret cannot be read, the job of the
  -- secrets does nothing and reports no error; if it is read and written back, it holds exactly the
  -- entries of the job, and the worker is active; if the write fails, the worker has the status error.
  do_sync_secret_outcome :
      (s : World (Platform C))
      → Quiet s
      → IsStore k.secrets
      → s.service.k8s_client ≡ true
      → SyncEnds k.secrets
          (secret_name worker_id user_uid)
          worker_id
          entries
          (do_sync_secret k worker_id user_uid entries s)
          s
          (k.secrets.get (secret_name worker_id user_uid) s.service.cluster).0
  do_sync_secret_outcome s q law on =
      settled_sync k.secrets (secret_name worker_id user_uid) worker_id entries
        (do_sync_secret k worker_id user_uid entries s) s _ (do_sync_secret_cases s q law on) refl
