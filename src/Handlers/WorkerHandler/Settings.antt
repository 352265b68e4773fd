-- ===== src/Handlers/WorkerHandler/Settings.antt =====
-- SetWorkerEnv and SetWorkerSecrets of handlers/worker.handler.go, with the jobs that they send.
use storebirth.Base.{
  ◌≡◌, refl, ap, ◌∙◌, codes, [], ◌∷◌, ◌++◌, true, false, Option, none, some, Text, text_eq,
  text_eq_iff, arith, if◌then◌else◌,
}
use storebirth.Names.{env_config_map_name, secret_name}
use storebirth.Jobs.{StringMap, sync_env, sync_secret}
use storebirth.Store.{Db, Worker, WorkerStatus, Error, ok, err}
use storebirth.Store.Sql.{World, first, update}
use storebirth.Store.Workers.{
  is_owned, set_workers, get_worker_env_by_owner, set_worker_env_by_owner,
  get_worker_secrets_by_owner, set_worker_secrets_by_owner,
}
use storebirth.Platform.{Platform, IsStore, Cluster}
use storebirth.Jobs.Worker.{do_sync_env, do_sync_secret}
use storebirth.Jobs.Worker.Deploy.{Quiet}
use storebirth.Jobs.Worker.Sync.{with_status, write_back, do_sync_env_cases, do_sync_secret_cases}
use storebirth.Handlers.{Response}
use storebirth.Handlers.WorkerHandler.{
  SetRequest, JsonCodec, get_key, put_key, delete_key, merge_env, merge_keys,
  set_worker_env_handler, set_worker_secrets_handler,
}

get_key-put_key :
    (key value j : Text) (m : StringMap)
    → get_key j (put_key key value m) ≡ (if text_eq key j then some value else get_key j m)
unfolding get_key put_key
get_key-put_key key value j [] = refl
get_key-put_key key value j ((k, v) ∷ m) =
    ground
      (arith, text_eq_iff key j, text_eq_iff k key, text_eq_iff k j, get_key-put_key key value j m)

get_key-delete_key :
    (key j : Text) (m : StringMap)
    → get_key j (delete_key key m) ≡ (if text_eq key j then none else get_key j m)
unfolding get_key delete_key
get_key-delete_key key j [] = ground arith
get_key-delete_key key j ((k, v) ∷ m) =
    ground
      (arith, text_eq_iff key j, text_eq_iff k key, text_eq_iff k j, get_key-delete_key key j m)

-- The entries of a map that may be nil.
abbrev pub entries_of : Option StringMap → StringMap
entries_of none = []
entries_of (some m) = m

-- The environment that SetWorkerEnv stores differs from the old one at the key of the request
-- alone, where it has the new value, or nothing after a deletion.
get_key-merge_env :
    (r : SetRequest) (o : Option StringMap) (j : Text)
    → get_key j (merge_env r o) ≡ (
        if text_eq r.key j
        then (if r.delete then none else some r.value)
        else get_key j (entries_of o))
unfolding merge_env get_key put_key
get_key-merge_env r none j = ground arith
get_key-merge_env r (some m) j =
    ground (arith, get_key-put_key r.key r.value j m, get_key-delete_key r.key j m)

-- The columns that the two handlers write.
abbrev pub env_stored : Text → Text → Text → Db → Db
env_stored wid user_uid env_json d =
    set_workers
      (update (is_owned wid user_uid)
        (λ w. record w { env_json = env_json; status = WorkerStatus.loading }) d.workers.rows)
      d

abbrev pub secrets_stored : Text → Text → Text → Db → Db
secrets_stored wid user_uid secrets_json d =
    set_workers
      (update (is_owned wid user_uid)
        (λ w. record w { secrets_json = secrets_json; status = WorkerStatus.loading })
        d.workers.rows)
      d

module _ {C : Type 0} (codec : JsonCodec) (user_uid wid : Text) (r : SetRequest)
    (s : World (Platform C)) where
  abbrev pub env_run : Response × World (Platform C)
  env_run = set_worker_env_handler codec user_uid wid (some r) s

  abbrev pub secrets_run : Response × World (Platform C)
  secrets_run = set_worker_secrets_handler codec user_uid wid (some r) s

  env_answers :
      (o : Option Worker)
      → first (is_owned wid user_uid) s.db.workers.rows ≡ o
      → env_run.0.status ≡ 200
      → (w : Worker) × (o ≡ some w)
        × (text_eq r.key (codes "COMBINATOR_API_ENDPOINT") ≡ false)
        × (env_run.1.db
            ≡ env_stored wid user_uid
                (codec.encode_map (merge_env r (codec.decode_map w.env_json)))
                s.db)
        × (env_run.1.service.accepted
            ≡ s.service.accepted
              ++ sync_env wid user_uid (merge_env r (codec.decode_map w.env_json)) ∷ [])
  unfolding set_worker_env_handler get_worker_env_by_owner set_worker_env_by_owner
  env_answers none e h = absurd (ground arith)
  env_answers (some w) e h = (w, refl, ground arith, ground arith, ground arith)

  -- If SetWorkerEnv answers 200, wherever a call fails before: the worker is the user's, the key is
  -- not the one of the system, the column holds the merged environment and the worker is loading,
  -- and the job that was sent carries the whole merged environment.
  pub set_worker_env-ok :
      env_run.0.status ≡ 200
      → (w : Worker) × (first (is_owned wid user_uid) s.db.workers.rows ≡ some w)
        × (text_eq r.key (codes "COMBINATOR_API_ENDPOINT") ≡ false)
        × (env_run.1.db
            ≡ env_stored wid user_uid
                (codec.encode_map (merge_env r (codec.decode_map w.env_json)))
                s.db)
        × (env_run.1.service.accepted
            ≡ s.service.accepted
              ++ sync_env wid user_uid (merge_env r (codec.decode_map w.env_json)) ∷ [])
  set_worker_env-ok h = env_answers (first (is_owned wid user_uid) s.db.workers.rows) refl h

  secrets_answers :
      (o : Option Worker)
      → first (is_owned wid user_uid) s.db.workers.rows ≡ o
      → secrets_run.0.status ≡ 200
      → (w : Worker) × (o ≡ some w)
        × (secrets_run.1.db
            ≡ secrets_stored wid user_uid
                (codec.encode_list (merge_keys r (codec.decode_list w.secrets_json)))
                s.db)
        × (secrets_run.1.service.accepted
            ≡ s.service.accepted ++ sync_secret wid user_uid ((r.key, r.value) ∷ []) ∷ [])
  unfolding set_worker_secrets_handler get_worker_secrets_by_owner set_worker_secrets_by_owner
  secrets_answers none e h = absurd (ground arith)
  secrets_answers (some w) e h = (w, refl, ground arith, ground arith)

  -- A worker whose ConfigMap cannot be read stays loading: after SetWorkerEnv has answered 200, its
  -- job reports no error and leaves the rows of the database as the handler wrote them.
  pub set_worker_env-stuck :
      (k : Cluster C) (m : StringMap) (e : Error)
      → env_run.0.status ≡ 200
      → Quiet env_run.1
      → IsStore k.config_maps
      → env_run.1.service.k8s_client ≡ true
      → (k.config_maps.get (env_config_map_name wid user_uid) env_run.1.service.cluster).0 ≡ err e
      → (env_json : Text) × ((do_sync_env k wid user_uid m env_run.1).0 ≡ ok tt)
        × ((do_sync_env k wid user_uid m env_run.1).1.db ≡ env_stored wid user_uid env_json s.db)
  set_worker_env-stuck k m e h q law on failed_get =
      let (w, _, _, stored, _) = set_worker_env-ok h in
      let idle = (do_sync_env_cases k wid user_uid m env_run.1 q law on).0 e failed_get in
      (_, idle.0, idle.1 ∙ stored)

  -- After SetWorkerSecrets has answered 200, for an addition or a deletion, and its job has
  -- written the Secret, the Secret has the key of the request, with the value of the request, and
  -- no other key, while the column lists all keys of the merged list.
  pub set_worker_secrets-keeps_one :
      (k : Cluster C) (old : StringMap)
      → secrets_run.0.status ≡ 200
      → Quiet secrets_run.1
      → IsStore k.secrets
      → secrets_run.1.service.k8s_client ≡ true
      → (k.secrets.get (secret_name wid user_uid) secrets_run.1.service.cluster).0 ≡ ok old
      → (write_back k.secrets
          (secret_name wid user_uid)
          wid
          ((r.key, r.value) ∷ [])
          secrets_run.1).0
        ≡ ok tt
      → let t = (do_sync_secret k wid user_uid ((r.key, r.value) ∷ []) secrets_run.1).1 in
        (w : Worker) × (first (is_owned wid user_uid) s.db.workers.rows ≡ some w)
        × (secrets_run.1.service.accepted
            ≡ s.service.accepted ++ sync_secret wid user_uid ((r.key, r.value) ∷ []) ∷ [])
        × (t.db
            ≡ with_status wid WorkerStatus.active (
                secrets_stored wid user_uid
                  (codec.encode_list (merge_keys r (codec.decode_list w.secrets_json)))
                  s.db))
        × (k.secrets.view t.service.cluster (secret_name wid user_uid)
            ≡ some ((r.key, r.value) ∷ []))
  set_worker_secrets-keeps_one k old h q law on read written =
      let (w, owned, stored, sent) =
        secrets_answers (first (is_owned wid user_uid) s.db.workers.rows) refl h in
      let done =
        ((do_sync_secret_cases k wid user_uid ((r.key, r.value) ∷ []) secrets_run.1 q law on).1 old
            read).0
          written in
      (w, owned, sent, done.1 ∙ ap (with_status wid WorkerStatus.active) stored, done.2)
