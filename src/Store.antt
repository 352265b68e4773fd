-- ===== src/Store.antt =====
-- dblayer: the rows of the database (models.go, and the schema of scripts/init.sql), and what a
-- statement does. A table is the list of its rows in the order of insertion.
pub mod Sql
pub mod Workers
pub mod Users
pub mod Domains
pub mod Resources
pub mod Tasks
use storebirth.Base.{
  ℤ, ℕ, suc, ◌+◌, ◌≡◌, List, [], ◌∷◌, ◌++◌, Bool, true, false, Option, none, some, Text, codes,
}

pub data WorkerStatus : Type 0 where
  unloaded loading active error : WorkerStatus

pub data VersionStatus : Type 0 where
  loading success error : VersionStatus

pub record User : Type 0 where
  pub id : ℕ
  pub uid : Text
  pub email : Text
  pub password_hash : Text
  pub secret_key : Text

pub record VerificationCode : Type 0 where
  pub id : ℕ
  pub email : Text
  pub code : Text
  pub expires_at : ℕ
  pub used : Bool

pub record Worker : Type 0 where
  pub id : ℕ
  pub wid : Text
  pub user_uid : Text
  pub worker_name : Text
  pub status : WorkerStatus
  pub active_version_id : Option ℕ
  pub env_json : Text
  pub secrets_json : Text
  pub created_at : ℕ

pub record WorkerDeployVersion : Type 0 where
  pub id : ℕ
  pub worker_id : ℕ
  pub image : Text
  pub port : ℕ
  pub status : VersionStatus
  pub msg : Text
  pub created_at : ℕ

pub data DomainStatus : Type 0 where
  pending success error : DomainStatus

pub record CustomDomain : Type 0 where
  pub id : ℕ
  pub cdid : Text
  pub user_uid : Text
  pub domain : Text
  pub target : Text
  pub txt_name : Text
  pub txt_value : Text
  pub status : DomainStatus
  pub created_at : ℕ

pub data ResourceStatus : Type 0 where
  loading error active : ResourceStatus

pub record CombinatorResource : Type 0 where
  pub id : ℕ
  pub user_uid : Text
  pub resource_type : Text
  pub resource_id : Text
  pub status : ResourceStatus
  pub msg : Text
  pub created_at : ℕ

-- A row of combinator_resource_reports; its `resource_id` is the id of a resource.
pub record ReportRow : Type 0 where
  pub id : ℕ
  pub user_uid : Text
  pub resource_id : ℕ
  pub datachange : ℤ
  pub record_start : ℕ
  pub record_end : ℕ

-- `task_status` is a text: the package names two of its values.
pub record ConsoleTask : Type 0 where
  pub id : ℕ
  pub task_type : Text
  pub task_status : Text
  pub task_detailed_status : Text
  pub task_info : Text
  pub created_at : ℕ

-- The rows of a table, and the value that its SERIAL column takes next.
pub record Table {ℓ} (R : Type ℓ) : Type ℓ where
  pub rows : List R
  pub next_id : ℕ

pub record Db : Type 0 where
  pub users : Table User
  pub verification_codes : Table VerificationCode
  pub workers : Table Worker
  pub versions : Table WorkerDeployVersion
  pub custom_domains : Table CustomDomain
  pub combinator_resources : Table CombinatorResource
  pub resource_reports : Table ReportRow
  pub console_tasks : Table ConsoleTask

-- sql.ErrNoRows, dblayer.ErrNotFound, and the errors of the driver and of other services
pub data Error : Type 0 where
  no_rows : Error
  not_found : Error
  failed : Text → Error

-- err.Error()
abbrev pub message : Error → Text
message no_rows = codes "sql: no rows in result set"
message not_found = codes "not found"
message (failed text) = text

pub data Result {ℓ} (A : Type ℓ) : Type ℓ where
  ok : A → Result A
  err : Error → Result A
