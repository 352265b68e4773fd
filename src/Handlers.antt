-- ===== src/Handlers.antt =====
-- The HTTP handlers of the control plane (handlers/*.go): what they have in common.
pub mod WorkerHandler
pub mod AuthHandler
pub mod DomainHandler
pub mod CombinatorHandler
pub mod HealthHandler
pub mod Keeps
use storebirth.Base.{ℕ, List, Bool, Option, none, some, Text, codes, if◌then◌else◌}
use storebirth.Jobs.{StringMap}
use storebirth.Store.{
  CombinatorResource, CustomDomain, Worker, WorkerDeployVersion, WorkerStatus, Error, Result, ok,
  err,
}
use storebirth.Store.Sql.{World, M}
use storebirth.Platform.{Platform}

-- An entry of ListWorkers.
pub record WorkerSummary : Type 0 where
  pub worker_id : Text
  pub worker_name : Text
  pub status : WorkerStatus
  pub active_version_id : Option ℕ
  pub url : Text

pub data Body : Type 0 where
  -- {"error": …}; the text of gin's binding errors is left out
  error : Text → Body
  binding_error : Body
  message : Text → Body
  worker_created : (worker_id worker_name : Text) → Body
  worker_list : List WorkerSummary → Body
  worker_detail : Worker → List WorkerDeployVersion → (url : Text) → Body
  deploy_started : (worker_id : Text) (version_id : ℕ) → Body
  -- a map of strings, nil if it is `none`
  string_map : Option StringMap → Body
  string_list : List Text → Body
  account_created : (user_id email token secret_key : Text) → Body
  session : (user_id token : Text) → Body
  -- `misc` is the answer of the mail service
  code_sent : (code misc : Text) → Body
  domain_added : CustomDomain → Body
  domain_list : List CustomDomain → Body
  domain_detail : CustomDomain → Body
  resource_loading : (id : Text) → Body
  -- with what the database says of its size, where there is a manager and it answers
  rdb_list : List CombinatorResource → (size : ℕ) → Body
  rdb_detail : CombinatorResource → (size : ℕ) → Body
  kv_list : List CombinatorResource → Body
  secrets : (resources : List (Text × Text)) (secret_key : Text) → Body
  health : (timestamp : ℕ) (database : Text) (database_error kubernetes : Option Text) → Body
  reports_processed : (count : ℕ) → Body

pub record Response : Type 0 where
  pub status : ℕ
  pub body : Body

abbrev pub HandlerOn : Type 0 → Type 0
HandlerOn S = World S → Response × World S

abbrev pub Handler : Type 0 → Type 0
Handler C = HandlerOn (Platform C)

module _ {S : Type 0} where
  -- c.JSON(status, body), and return
  abbrev pub json : ℕ → Body → HandlerOn S
  json status body w = (record { status = status; body = body }, w)

  -- `x, err := m`, with the handler's two ways to go on
  abbrev pub proceed :
      {A : Type 0} → Result A → (Error → HandlerOn S) → (A → HandlerOn S) → HandlerOn S
  proceed (err e) bad good = bad e
  proceed (ok a) bad good = good a

  abbrev pub try : {A : Type 0} → M S A → (Error → HandlerOn S) → (A → HandlerOn S) → HandlerOn S
  try m bad good w = proceed (m w).0 bad good (m w).1

  -- ShouldBindJSON: the body is JSON of the right shape, and the required fields are not zero.
  abbrev pub bind : {R : Type 0} → Option R → (R → Bool) → (R → HandlerOn S) → HandlerOn S
  bind none valid good = json 400 binding_error
  bind (some r) valid good = if valid r then good r else json 400 binding_error
