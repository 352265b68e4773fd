-- ===== src/Tests/Settings.antt =====
-- The settings of a worker on a concrete database and cluster.
use mathlib.Core.List.{map}
use storebirth.Base.{◌≡◌, refl, text_eq, [], ◌∷◌, ◌++◌, some, Text, codes, false}
use storebirth.Names.{env_config_map_name, secret_name}
use storebirth.Jobs.{StringMap, sync_env, sync_secret}
use storebirth.Store.{Worker, WorkerStatus, ok, err}
use storebirth.Store.Sql.{World, first, exists, exec}
use storebirth.Store.Workers.{
  is_owned, get_worker_env_by_owner, set_worker_env_by_owner, get_worker_secrets_by_owner,
  set_worker_secrets_by_owner,
}
use storebirth.Platform.{Platform, send_task}
use storebirth.Jobs.Worker.{do_sync_env, do_sync_secret}
use storebirth.Jobs.Worker.Sync.{SyncEnds, with_status, do_sync_env_outcome}
use storebirth.Handlers.WorkerHandler.{
  SetRequest, JsonCodec, merge_env, merge_keys, set_worker_env_handler, set_worker_secrets_handler,
}
use storebirth.Handlers.WorkerHandler.Settings.{
  env_run, secrets_run, env_stored, secrets_stored, set_worker_env-ok, set_worker_env-stuck,
  set_worker_secrets-keeps_one,
}
use storebirth.Tests.Codec.{encode_map, decode_map}
use storebirth.Tests.Objects.{Objects, cluster, config_maps-IsStore, secrets-IsStore, not_there}
use storebirth.Tests.Rows.{ann, shop, db, world}

abbrev codec : JsonCodec
codec = record {
  decode_map = λ t. some (decode_map t);
  encode_map = encode_map;
  decode_list = λ t. map (λ (e : Text × Text). e.0) (decode_map t);
  encode_list = λ keys. encode_map (map (λ k. (k, [])) keys);
}

abbrev request : SetRequest
request = record { key = codes "MODE"; value = codes "fast"; delete = false }

env_answers_ok : (env_run codec ann shop request world).0.status ≡ 200
unfolding set_worker_env_handler get_worker_env_by_owner set_worker_env_by_owner send_task first
    exists text_eq exec
env_answers_ok = refl

abbrev merged : StringMap
merged = merge_env request (some (decode_map []))

set_worker_env-ok_example :
    (w : Worker) × (first (is_owned shop ann) db.workers.rows ≡ some w)
    × (text_eq (codes "MODE") (codes "COMBINATOR_API_ENDPOINT") ≡ false)
    × ((env_run codec ann shop request world).1.db
        ≡ env_stored shop ann
            (codec.encode_map (merge_env request (codec.decode_map w.env_json)))
            db)
    × ((env_run codec ann shop request world).1.service.accepted
        ≡ [] ++ sync_env shop ann (merge_env request (codec.decode_map w.env_json)) ∷ [])
set_worker_env-ok_example = set_worker_env-ok codec ann shop request world env_answers_ok

set_worker_env-stuck_example :
    (env_json : Text) × ((do_sync_env cluster shop ann merged
        (env_run codec ann shop request world).1).0
      ≡ ok tt)
    × ((do_sync_env cluster shop ann merged (env_run codec ann shop request world).1).1.db
        ≡ env_stored shop ann env_json db)
unfolding set_worker_env_handler get_worker_env_by_owner set_worker_env_by_owner send_task first
    exists text_eq exec
set_worker_env-stuck_example =
    set_worker_env-stuck codec ann shop request world cluster merged not_there env_answers_ok
      (λ n. refl) config_maps-IsStore refl refl

-- The world with the Secret of the worker there, with another key.
abbrev secret_world : World (Platform Objects)
secret_world = record world {
  service = record world.service {
    cluster = record world.service.cluster {
      secrets = (secret_name shop ann, (codes "TOKEN", codes "old") ∷ []) ∷ [];
    };
  };
}

secrets_answers_ok : (secrets_run codec ann shop request secret_world).0.status ≡ 200
unfolding set_worker_secrets_handler get_worker_secrets_by_owner set_worker_secrets_by_owner
    send_task first exists text_eq exec
secrets_answers_ok = refl

set_worker_secrets-keeps_one_example :
    let t =
      (do_sync_secret cluster shop ann
        ((codes "MODE", codes "fast") ∷ [])
        (secrets_run codec ann shop request secret_world).1).1 in
    (w : Worker) × (first (is_owned shop ann) db.workers.rows ≡ some w)
    × ((secrets_run codec ann shop request secret_world).1.service.accepted
        ≡ [] ++ sync_secret shop ann ((codes "MODE", codes "fast") ∷ []) ∷ [])
    × (t.db
        ≡ with_status shop WorkerStatus.active (
            secrets_stored shop ann
              (codec.encode_list (merge_keys request (codec.decode_list w.secrets_json)))
              db))
    × (cluster.secrets.view t.service.cluster (secret_name shop ann)
        ≡ some ((codes "MODE", codes "fast") ∷ []))
unfolding set_worker_secrets_handler get_worker_secrets_by_owner set_worker_secrets_by_owner
    send_task first exists text_eq exec secret_name
set_worker_secrets-keeps_one_example =
    set_worker_secrets-keeps_one codec ann shop request secret_world cluster
      ((codes "TOKEN", codes "old") ∷ []) secrets_answers_ok (λ n. refl) secrets-IsStore refl refl
      refl

do_sync_env_outcome_example :
    SyncEnds cluster.config_maps
      (env_config_map_name shop ann)
      shop
      []
      (do_sync_env cluster shop ann [] world)
      world
      (err not_there)
do_sync_env_outcome_example =
    do_sync_env_outcome cluster shop ann [] world (λ n. refl) config_maps-IsStore refl
