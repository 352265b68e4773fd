-- ===== src/Names.antt =====
-- k8s/rdb.go (sanitize, userRDB) and k8s/controller/worker.go (WorkerName): the names that are
-- made from user and resource ids.
pub mod Sanitize
pub mod Injective
use storebirth.Base.{
  ℕ, ◌+◌, ◌≤◌, ◌<◌, List, [], ◌∷◌, ◌++◌, map, Bool, ◌&&◌, Text, codes, ltb, leb, ◌==◌,
  if◌then◌else◌,
}

-- strings.ReplaceAll(s, from, to), for texts of one character each
replace_all : ℕ → ℕ → Text → Text
replace_all from to = map (λ c. if c == from then to else c)

-- unicode.ToLower; beyond ASCII it is the table of the standard library
to_lower : (ℕ → ℕ) → ℕ → ℕ
to_lower unicode_lower c =
    if ltb c 128 then (if leb b'A' c && leb c b'Z' then c + 32 else c) else unicode_lower c

module _ (unicode_lower : ℕ → ℕ) where
  unfoldable pub sanitize : Text → Text
  unfolding replace_all to_lower
  sanitize s = map (to_lower unicode_lower) (replace_all b'.' b'_' (replace_all b'-' b'_' s))

  -- userRDB.username
  unfoldable pub username : Text → Text
  unfolding sanitize
  username user_uid = codes "user_" ++ sanitize user_uid

  -- userRDB.database, RootRDBManager.DatabaseName
  unfoldable pub database : Text → Text
  unfolding sanitize
  database user_uid = codes "db_" ++ sanitize user_uid

  -- the name of a schema in CreateSchema, DeleteSchema, SchemaExists and SchemaSize
  unfoldable pub schema_name : Text → Text
  unfolding sanitize
  schema_name schema_id = codes "schema_" ++ sanitize schema_id

  -- userRDB.dsn
  unfoldable pub dsn : Text → Text
  unfolding username database
  dsn user_uid =
      codes "postgresql://"
      ++ (username user_uid
          ++ (codes "@cockroachdb-public.cockroachdb.svc.cluster.local:26257/"
              ++ (database user_uid ++ codes "?sslmode=disable")))

  -- userRDB.dsnWithSchema
  unfoldable pub dsn_with_schema : Text → Text → Text
  unfolding username database schema_name
  dsn_with_schema user_uid schema_id =
      codes "postgresql://"
      ++ (username user_uid
          ++ (codes "@cockroachdb-public.cockroachdb.svc.cluster.local:26257/"
              ++ (database user_uid
                  ++ (codes "?sslmode=disable&search_path=" ++ schema_name schema_id))))

-- controller.WorkerName
unfoldable pub worker_name : Text → Text → Text
worker_name worker_id owner_id = codes "w-" ++ (worker_id ++ (codes "-" ++ owner_id))

-- WorkerAppSpec.EnvConfigMapName
unfoldable pub env_config_map_name : Text → Text → Text
unfolding worker_name
env_config_map_name worker_id owner_id = worker_name worker_id owner_id ++ codes "-env"

-- WorkerAppSpec.SecretName
unfoldable pub secret_name : Text → Text → Text
unfolding worker_name
secret_name worker_id owner_id = worker_name worker_id owner_id ++ codes "-secret"

-- workerURL
unfoldable pub worker_url : Text → Text → Text → Text
unfolding worker_name
worker_url domain worker_id owner_id =
    codes "https://" ++ (worker_name worker_id owner_id ++ (codes ".worker." ++ domain))
