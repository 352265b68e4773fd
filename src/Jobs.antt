-- ===== src/Jobs.antt =====
-- handlers/jobs: the jobs, their types and ids, and the factory that reads a job from a request
-- (basic.jobs.go, and the constructors and methods Type and ID of the other files).
pub mod Wire
pub mod Worker
use storebirth.Base.{
  ℕ, zero, suc, ℤ, pos, negsuc, List, [], ◌∷◌, ◌++◌, Option, none, some, Text, codes, text_eq,
  if◌then◌else◌,
}
use storebirth.Uid.{print_decimal}

-- map[string]string
abbrev pub StringMap : Type 0
StringMap = List (Text × Text)

pub data Job : Type 0 where
  register_user : (user_uid : Text) → Job
  user_audit : Job
  deploy_worker : (worker_id user_uid : Text) (version_id : ℕ) → Job
  delete_worker_cr : (worker_id user_uid : Text) → Job
  sync_env : (worker_id user_uid : Text) (entries : StringMap) → Job
  sync_secret : (worker_id user_uid : Text) (entries : StringMap) → Job
  create_rdb : (user_uid name resource_id : Text) → Job
  delete_rdb : (user_uid resource_id : Text) → Job
  create_kv : (user_uid resource_id : Text) → Job
  delete_kv : (user_uid resource_id : Text) → Job
  domain_check : Job

unfoldable pub job_type : Job → Text
job_type (register_user _) = codes "auth.register_user"
job_type user_audit = codes "auth.user_audit"
job_type (deploy_worker _ _ _) = codes "worker.deploy_worker"
job_type (delete_worker_cr _ _) = codes "worker.delete_worker_cr"
job_type (sync_env _ _ _) = codes "worker.sync_env"
job_type (sync_secret _ _ _) = codes "worker.sync_secret"
job_type (create_rdb _ _ _) = codes "combinator.create_rdb"
job_type (delete_rdb _ _) = codes "combinator.delete_rdb"
job_type (create_kv _ _) = codes "combinator.create_kv"
job_type (delete_kv _ _) = codes "combinator.delete_kv"
job_type domain_check = codes "domain.check"

-- string(j.Type()) + fmt.Sprintf("%s_%s", j.UserUID, j.ResourceID)
resource_job_id : Text → Text → Text → Text
resource_job_id type user_uid resource_id = type ++ (user_uid ++ (codes "_" ++ resource_id))

job_id : Job → Text
unfolding resource_job_id job_type
job_id (register_user user_uid) = user_uid
job_id user_audit = codes "periodic"
job_id (deploy_worker worker_id user_uid version_id) =
    worker_id ++ (codes "-" ++ (user_uid ++ (codes "-" ++ print_decimal version_id)))
job_id (delete_worker_cr worker_id user_uid) = worker_id
job_id (sync_env worker_id user_uid entries) = worker_id
job_id (sync_secret worker_id user_uid entries) = worker_id
job_id (create_rdb user_uid name resource_id) =
    resource_job_id (job_type (create_rdb user_uid name resource_id)) user_uid resource_id
job_id (delete_rdb user_uid resource_id) =
    resource_job_id (job_type (delete_rdb user_uid resource_id)) user_uid resource_id
job_id (create_kv user_uid resource_id) =
    resource_job_id (job_type (create_kv user_uid resource_id)) user_uid resource_id
job_id (delete_kv user_uid resource_id) =
    resource_job_id (job_type (delete_kv user_uid resource_id)) user_uid resource_id
job_id domain_check = codes "periodic"

-- The objects that the builders make: the fields have the zero values of Go.
abbrev blank_jobs : List Job
blank_jobs =
    register_user []
    ∷ user_audit
    ∷ deploy_worker [] [] 0
    ∷ delete_worker_cr [] []
    ∷ sync_env [] [] []
    ∷ sync_secret [] [] []
    ∷ create_rdb [] [] []
    ∷ delete_rdb [] []
    ∷ create_kv [] []
    ∷ delete_kv [] []
    ∷ domain_check
    ∷ []

-- JobFactory.objectBuilders, after RegisterJobType was called by each `init` of the package: the
-- key is the type of the object that its builder makes.
abbrev Builders : Type 0
Builders = List (Text × Job)

register_job_type : Text → Job → Builders → Builders
register_job_type type blank builders = (type, blank) ∷ builders

registered : List Job → Builders
unfolding register_job_type job_type
registered [] = []
registered (j ∷ js) = register_job_type (job_type j) j (registered js)

global_factory : Builders
unfolding registered
global_factory = registered blank_jobs

find_builder : Text → Builders → Option Job
find_builder type [] = none
find_builder type ((t, blank) ∷ rest) =
    if text_eq t type then some blank else find_builder type rest

pub data Created : Type 0 where
  created : Job → Created
  unknown_type : Created
  bad_data : Created

-- CreateJob. `unmarshal blank data` is json.Unmarshal into the object.
create_job : (Job → Text → Option Job) → Text → Text → Created
unfolding find_builder global_factory
create_job unmarshal type bytes = elim (find_builder type global_factory) [
  | none ↦ unknown_type
  | some blank ↦ elim (unmarshal blank bytes) [ none ↦ bad_data | some job ↦ created job ]
]

-- AcceptTaskRequest; `task_data` is the content of its bytes, or nil
pub record AcceptTaskRequest : Type 0 where
  pub task_type : Text
  pub timestamp : ℤ
  pub task_data : Option Text

-- What AcceptTask answers, and the job that it submits.
pub data Answer : Type 0 where
  submitted : Job → Answer
  refused : Answer

submit_created : Created → Answer
submit_created (created job) = submitted job
submit_created unknown_type = refused
submit_created bad_data = refused

-- The bytes are there, since the binding requires them.
accept_data : (Job → Text → Option Job) → Text → Option Text → Answer
unfolding submit_created create_job
accept_data unmarshal type none = refused
accept_data unmarshal type (some bytes) = submit_created (create_job unmarshal type bytes)

-- `Timestamp <= 0`, after the binding has required that it is not 0
accept_timestamp : ℤ → Answer → Answer
accept_timestamp (pos zero) answer = refused
accept_timestamp (pos (suc n)) answer = answer
accept_timestamp (negsuc n) answer = refused

-- JobsHandler.AcceptTask, on a request that is JSON of this shape
pub accept_task : (Job → Text → Option Job) → AcceptTaskRequest → Answer
unfolding accept_data accept_timestamp
accept_task unmarshal req =
    if text_eq req.task_type []
    then refused
    else accept_timestamp req.timestamp (accept_data unmarshal req.task_type req.task_data)

-- The request that SendTask posts, at the time `now`.
pub task_request : (Job → Text) → ℕ → Job → AcceptTaskRequest
unfolding job_type
task_request marshal now job = record {
  task_type = job_type job;
  timestamp = pos now;
  task_data = some (marshal job);
}
