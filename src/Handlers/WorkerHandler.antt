-- ===== src/Handlers/WorkerHandler.antt =====
-- handlers/worker.handler.go
pub mod Deploy
pub mod Settings
use storebirth.Base.{
  ℕ, zero, suc, ◌+◌, ◌-◌, ◌*◌, ◌^◌, List, [], ◌∷◌, ◌++◌, Bool, true, false, not, ◌&&◌, map, Option,
  none, some, Text, codes, text_eq, ltb, leb, ◌==◌, if◌then◌else◌,
}
use storebirth.Names.{worker_url}
use storebirth.Jobs.{StringMap, Job, deploy_worker, delete_worker_cr, sync_env, sync_secret}
use storebirth.Store.{Worker, Error, no_rows, not_found, failed}
use storebirth.Store.Sql.{World, M}
use storebirth.Store.Workers.{
  create_worker, list_workers_by_user, list_deploy_versions, get_worker_by_owner,
  get_worker_env_by_owner, set_worker_env_by_owner, get_worker_secrets_by_owner,
  set_worker_secrets_by_owner, delete_worker_by_owner, create_deploy_version_for_owner,
}
use storebirth.Platform.{Platform, send_task}
use storebirth.Handlers.{
  Body, error, message, worker_created, worker_list, worker_detail, deploy_started, string_map,
  string_list, Handler, json, try, bind, WorkerSummary,
}

abbrev pub non_empty : Text → Bool
non_empty s = not (text_eq s [])

pub record DeployRequest : Type 0 where
  pub user_uid : Text
  pub worker_id : Text
  pub image : Text
  pub port : ℕ

pub record SetRequest : Type 0 where
  pub key : Text
  pub value : Text
  pub delete : Bool

-- encoding/json on the columns `env_json` and `secrets_json`. A text that is no such JSON leaves
-- the nil map, or the nil slice.
pub record JsonCodec : Type 0 where
  pub decode_map : Text → Option StringMap
  pub encode_map : StringMap → Text
  pub decode_list : Text → List Text
  pub encode_list : List Text → Text

-- m[key]
unfoldable pub get_key : Text → StringMap → Option Text
get_key key [] = none
get_key key ((k, v) ∷ m) = if text_eq k key then some v else get_key key m

-- m[key] = value
pub put_key : Text → Text → StringMap → StringMap
put_key key value [] = (key, value) ∷ []
put_key key value ((k, v) ∷ m) =
    if text_eq k key then (key, value) ∷ m else (k, v) ∷ put_key key value m

-- delete(m, key)
pub delete_key : Text → StringMap → StringMap
delete_key key [] = []
delete_key key ((k, v) ∷ m) =
    let rest = delete_key key m in if text_eq k key then rest else (k, v) ∷ rest

pub contains_key : Text → List Text → Bool
contains_key key [] = false
contains_key key (k ∷ keys) = if text_eq k key then true else contains_key key keys

pub without_key : Text → List Text → List Text
without_key key [] = []
without_key key (k ∷ keys) =
    let rest = without_key key keys in if text_eq k key then rest else k ∷ rest

-- The digits of an `int`; `none` for another character, or a value beyond 64 bits.
read_digits : ℕ → Text → Option ℕ
read_digits n [] = if ltb n (2 ^ 63) then some n else none
read_digits n (c ∷ s) =
    let rest = read_digits (n * 10 + (c - b'0')) s in
    if leb b'0' c && leb c b'9' then rest else none

number_or_zero : Option ℕ → ℕ
number_or_zero none = 0
number_or_zero (some n) = n

-- The query `offset`: strconv.Atoi, and 0 where that fails or is negative.
parse_offset : Text → ℕ
unfolding read_digits number_or_zero
parse_offset [] = 0
parse_offset (c ∷ s) =
    if c == b'-'
    then 0
    else if c == b'+'
    then (if text_eq s [] then 0 else number_or_zero (read_digits 0 s))
    else number_or_zero (read_digits 0 (c ∷ s))

abbrev worker_not_found : Body
worker_not_found = error (codes "worker not found")

-- envMap after the merge
pub merge_env : SetRequest → Option StringMap → StringMap
unfolding put_key delete_key
merge_env req none = if req.delete then [] else put_key req.key req.value []
merge_env req (some m) = if req.delete then delete_key req.key m else put_key req.key req.value m

-- keys after the deletion, or the addition of a key that was not there
pub merge_keys : SetRequest → List Text → List Text
unfolding without_key contains_key
merge_keys req keys =
    if req.delete
    then without_key req.key keys
    else if contains_key req.key keys
    then keys
    else keys ++ req.key ∷ []

summary : Text → Worker → WorkerSummary
summary domain w = record {
  worker_id = w.wid;
  worker_name = w.worker_name;
  status = w.status;
  active_version_id = w.active_version_id;
  url = worker_url domain w.wid w.user_uid;
}

-- binding:"required" on the four fields
abbrev pub deploy_is_bound : DeployRequest → Bool
deploy_is_bound r =
    non_empty r.user_uid && (non_empty r.worker_id && (non_empty r.image && not (r.port == 0)))

module _ {C : Type 0} where
  -- `fresh` is uuid.New().String()[:8]
  create_worker_handler : Text → Text → Option Text → Handler C
  create_worker_handler fresh user_uid req = bind req non_empty λ worker_name.
      try (create_worker fresh user_uid worker_name)
        (λ e. json 500 (error (codes "failed to create worker")))
        (λ _. json 200 (worker_created fresh worker_name))

  delete_error : Error → Handler C
  delete_error not_found = json 404 worker_not_found
  delete_error no_rows = json 500 (error (codes "failed to delete worker"))
  delete_error (failed text) = json 500 (error (codes "failed to delete worker"))

  -- The error of SendTask is logged only.
  delete_worker_handler : Text → Text → Handler C
  unfolding delete_error send_task
  delete_worker_handler user_uid worker_id w =
      try (delete_worker_by_owner worker_id user_uid) delete_error
        (λ _. json 200 (message (codes "worker deleted")))
        (send_task (delete_worker_cr worker_id user_uid) w).1

  list_workers_handler : Text → Text → Handler C
  unfolding summary
  list_workers_handler domain user_uid =
      try (list_workers_by_user user_uid) (λ e. json 500 (error (codes "failed to list workers")))
        (λ ws. json 200 (worker_list (map (summary domain) ws)))

  get_worker_handler : Text → Text → Text → Text → Handler C
  unfolding parse_offset
  get_worker_handler domain user_uid worker_id offset =
      try (get_worker_by_owner worker_id user_uid) (λ e. json 404 worker_not_found)
        (λ w.
          try (list_deploy_versions w.id 10 (parse_offset offset))
            (λ e. json 500 (error (codes "failed to list versions")))
            (λ versions. json 200 (worker_detail w versions (worker_url domain w.wid w.user_uid))))

  deploy_error : Error → Handler C
  deploy_error not_found = json 404 worker_not_found
  deploy_error no_rows = json 500 (error (codes "failed to create deploy version"))
  deploy_error (failed text) = json 500 (error (codes "failed to create deploy version"))

  pub deploy_worker_handler : Option DeployRequest → Handler C
  unfolding deploy_error send_task
  deploy_worker_handler req = bind req deploy_is_bound λ r.
      try (create_deploy_version_for_owner r.worker_id r.user_uid r.image r.port) deploy_error
        (λ version_id.
          try (send_task (deploy_worker r.worker_id r.user_uid version_id))
            (λ e. json 500 (error (codes "failed to enqueue deploy task")))
            (λ _. json 200 (deploy_started r.worker_id version_id)))

module _ {C : Type 0} (codec : JsonCodec) where
  get_worker_env_handler : Text → Text → Handler C
  get_worker_env_handler user_uid worker_id =
      try (get_worker_env_by_owner worker_id user_uid) (λ e. json 404 worker_not_found)
        (λ env_json. json 200 (string_map (codec.decode_map env_json)))

  store_env : Text → Text → StringMap → Handler C
  unfolding send_task
  store_env user_uid worker_id env_map =
      try (set_worker_env_by_owner worker_id user_uid (codec.encode_map env_map))
        (λ e. json 500 (error (codes "failed to set env")))
        (λ _.
          try (send_task (sync_env worker_id user_uid env_map))
            (λ e. json 500 (error (codes "failed to enqueue sync task")))
            (λ _. json 200 (string_map (some env_map))))

  unfoldable pub set_worker_env_handler : Text → Text → Option SetRequest → Handler C
  unfolding store_env merge_env
  set_worker_env_handler user_uid worker_id req =
      bind req (λ r. non_empty r.key)
        λ r.
          if text_eq r.key (codes "COMBINATOR_API_ENDPOINT")
          then json 400 (error (codes "COMBINATOR_API_ENDPOINT is managed by the system"))
          else try (get_worker_env_by_owner worker_id user_uid) (λ e. json 404 worker_not_found)
              (λ env_json. store_env user_uid worker_id (merge_env r (codec.decode_map env_json)))

  get_worker_secrets_handler : Text → Text → Handler C
  get_worker_secrets_handler user_uid worker_id =
      try (get_worker_secrets_by_owner worker_id user_uid) (λ e. json 404 worker_not_found)
        (λ secrets_json. json 200 (string_list (codec.decode_list secrets_json)))

  -- The task carries the one key and value of the request.
  store_secrets : Text → Text → SetRequest → List Text → Handler C
  unfolding send_task
  store_secrets user_uid worker_id r keys =
      try (set_worker_secrets_by_owner worker_id user_uid (codec.encode_list keys))
        (λ e. json 500 (error (codes "failed to set secrets")))
        (λ _.
          try (send_task (sync_secret worker_id user_uid ((r.key, r.value) ∷ [])))
            (λ e. json 500 (error (codes "failed to enqueue sync task")))
            (λ _. json 200 (string_list keys)))

  unfoldable pub set_worker_secrets_handler : Text → Text → Option SetRequest → Handler C
  unfolding store_secrets merge_keys
  set_worker_secrets_handler user_uid worker_id req =
      bind req (λ r. non_empty r.key)
        λ r.
          try (get_worker_secrets_by_owner worker_id user_uid) (λ e. json 404 worker_not_found)
            (λ secrets_json.
              store_secrets user_uid worker_id r (merge_keys r (codec.decode_list secrets_json)))
