-- ===== src/Handlers/HealthHandler.antt =====
-- HealthInner and HealthOuter of handlers/jobs.handler.go.
use storebirth.Base.{◌/◌, Bool, true, false, Option, none, some, Text, codes}
use storebirth.Store.{message, Result, ok, err}
use storebirth.Store.Sql.{M, exec}
use storebirth.Handlers.{health, HandlerOn, json}

-- What is said of the Kubernetes client, by whether it is set.
abbrev client_status : Bool → Text
client_status true = codes "healthy"
client_status false = codes "not_initialized"

module _ {S : Type 0} where
  -- DB.Ping
  ping_db : M S (Unit {0})
  unfolding exec
  ping_db = exec λ d. (ok tt, d)

  -- The answer to a ping, with what is said of Kubernetes.
  db_pinged : Option Text → Result (Unit {0}) → HandlerOn S
  db_pinged kubernetes (err e) w =
      json 503 (health (w.now / 1000000000) (codes "unhealthy") (some (message e)) none) w
  db_pinged kubernetes (ok _) w =
      json 200 (health (w.now / 1000000000) (codes "healthy") none kubernetes) w

  -- `db_set`: whether dblayer.DB is set
  db_checked : Bool → Option Text → HandlerOn S
  unfolding ping_db db_pinged
  db_checked true kubernetes w = db_pinged kubernetes (ping_db w).0 (ping_db w).1
  db_checked false kubernetes w =
      json 200 (health (w.now / 1000000000) (codes "not_initialized") none kubernetes) w

  -- HealthInner
  unfoldable pub health_inner : Bool → Bool → HandlerOn S
  unfolding db_checked
  health_inner db_set k8s_client = db_checked db_set (some (client_status k8s_client))

  -- HealthOuter
  unfoldable pub health_outer : Bool → HandlerOn S
  unfolding db_checked
  health_outer db_set = db_checked db_set none
