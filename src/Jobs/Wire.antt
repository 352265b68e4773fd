-- ===== src/Jobs/Wire.antt =====
-- A job on its way from SendTask to AcceptTask (handlers/jobs.handler.go).
use storebirth.Base.{
  Bool, true, false, ◌&&◌, ◌==◌, ltb, leb, if◌then◌else◌, ℕ, zero, suc, ◌≡◌, ◌<◌, refl, List, [],
  ◌∷◌, Option, none, some, Text, text_eq, text_eq_iff, arith, inl, inr, ℤ, pos, negsuc, Bool-cases,
}
use storebirth.Jobs.{
  StringMap, Job, register_user, user_audit, deploy_worker, delete_worker_cr, sync_env, sync_secret,
  create_rdb, delete_rdb, create_kv, delete_kv, domain_check, job_type, find_builder,
  global_factory, blank_jobs, registered, AcceptTaskRequest, Answer, submitted, accept_task,
  create_job, accept_data, accept_timestamp, task_request,
}

-- A text of Unicode, as JSON keeps it.
abbrev pub is_text : Text → Bool
is_text [] = true
is_text (c ∷ s) = (if ltb c 55296 then true else leb 57344 c && ltb c 1114112) && is_text s

abbrev pub text_ltb : Text → Text → Bool
text_ltb s [] = false
text_ltb [] (d ∷ t) = true
text_ltb (c ∷ s) (d ∷ t) = if c == d then text_ltb s t else ltb c d

abbrev pub is_after : Text → StringMap → Bool
is_after key [] = true
is_after key (entry ∷ m) = text_ltb key entry.0

-- A map[string]string, as the list of its entries in the order of their keys, which is the order in
-- which JSON has them.
abbrev pub is_map : StringMap → Bool
is_map [] = true
is_map (entry ∷ m) = is_text entry.0 && (is_text entry.1 && (is_after entry.0 m && is_map m))

-- Whether the fields are values of their Go types; an int has 64 bits.
abbrev pub is_go_value : Job → Bool
is_go_value (register_user u) = is_text u
is_go_value user_audit = true
is_go_value (deploy_worker w u v) = is_text w && (is_text u && ltb v 9223372036854775808)
is_go_value (delete_worker_cr w u) = is_text w && is_text u
is_go_value (sync_env w u m) = is_text w && (is_text u && is_map m)
is_go_value (sync_secret w u m) = is_text w && (is_text u && is_map m)
is_go_value (create_rdb u n r) = is_text u && (is_text n && is_text r)
is_go_value (delete_rdb u r) = is_text u && is_text r
is_go_value (create_kv u r) = is_text u && is_text r
is_go_value (delete_kv u r) = is_text u && is_text r
is_go_value domain_check = true

-- The object that a builder makes for a job of the same type.
abbrev pub blank_of : Job → Job
blank_of (register_user _) = register_user []
blank_of user_audit = user_audit
blank_of (deploy_worker _ _ _) = deploy_worker [] [] 0
blank_of (delete_worker_cr _ _) = delete_worker_cr [] []
blank_of (sync_env _ _ _) = sync_env [] [] []
blank_of (sync_secret _ _ _) = sync_secret [] [] []
blank_of (create_rdb _ _ _) = create_rdb [] [] []
blank_of (delete_rdb _ _) = delete_rdb [] []
blank_of (create_kv _ _) = create_kv [] []
blank_of (delete_kv _ _) = delete_kv [] []
blank_of domain_check = domain_check

-- encoding/json reads what it wrote of texts, an int and a map of texts, into an object with no
-- field set, as the same values.
abbrev pub ReadsBack : (Job → Text) → (Job → Text → Option Job) → Type 0
ReadsBack marshal unmarshal =
    (j : Job) → is_go_value j ≡ true → unmarshal (blank_of j) (marshal j) ≡ some j

module _ (marshal : Job → Text) (unmarshal : Job → Text → Option Job) where
  find_builder-job_type : (j : Job) → find_builder (job_type j) global_factory ≡ some (blank_of j)
  unfolding find_builder global_factory job_type text_eq
  find_builder-job_type (register_user _) = refl
  find_builder-job_type user_audit = refl
  find_builder-job_type (deploy_worker _ _ _) = refl
  find_builder-job_type (delete_worker_cr _ _) = refl
  find_builder-job_type (sync_env _ _ _) = refl
  find_builder-job_type (sync_secret _ _ _) = refl
  find_builder-job_type (create_rdb _ _ _) = refl
  find_builder-job_type (delete_rdb _ _) = refl
  find_builder-job_type (create_kv _ _) = refl
  find_builder-job_type (delete_kv _ _) = refl
  find_builder-job_type domain_check = refl

  named_type : (j : Job) → text_eq (job_type j) [] ≡ false
  unfolding job_type text_eq
  named_type (register_user _) = refl
  named_type user_audit = refl
  named_type (deploy_worker _ _ _) = refl
  named_type (delete_worker_cr _ _) = refl
  named_type (sync_env _ _ _) = refl
  named_type (sync_secret _ _ _) = refl
  named_type (create_rdb _ _ _) = refl
  named_type (delete_rdb _ _) = refl
  named_type (create_kv _ _) = refl
  named_type (delete_kv _ _) = refl
  named_type domain_check = refl

  -- A job of any of the eleven types that SendTask posts, after the epoch, is the job that
  -- AcceptTask submits, if its fields are values of their Go types, and encoding/json reads such
  -- values back into the blank object of their type.
  pub accept_task-task_request :
      (now : ℕ) (job : Job)
      → 0 < now
      → is_go_value job ≡ true
      → ReadsBack marshal unmarshal
      → accept_task unmarshal (task_request marshal now job) ≡ submitted job
  unfolding accept_task task_request accept_data accept_timestamp
  accept_task-task_request zero job h value law = elim h [ ]
  accept_task-task_request (suc now) job h value law =
      rw (named_type job, accept_data, create_job, find_builder-job_type job, law job value) refl

  find_builder-registered :
      (type : Text) (js : List Job) (b : Job)
      → find_builder type (registered js) ≡ some b
      → job_type b ≡ type
  unfolding find_builder registered
  find_builder-registered type [] b h = absurd (cc)
  find_builder-registered type (j ∷ js) b h = elim (Bool-cases (text_eq (job_type j) type)) [
    | inl e ↦ ground (arith, text_eq_iff (job_type j) type)
    | inr e ↦ find_builder-registered type js b (ground arith)
  ]

  accept_data_sound :
      (type : Text) (bytes : Option Text) (job : Job) (o : Option Job)
      → find_builder type global_factory ≡ o
      → accept_data unmarshal type bytes ≡ submitted job
      → (b : Job) × (data_bytes : Text) × (job_type b ≡ type)
        × (bytes ≡ some data_bytes)
        × (unmarshal b data_bytes ≡ some job)
  unfolding accept_data
  accept_data_sound type none job o e h = absurd (cc)
  accept_data_sound type (some bytes) job none e h = absurd (ground arith)
  accept_data_sound type (some bytes) job (some b) e h = (
    b,
    bytes,
    unfold global_factory in find_builder-registered type blank_jobs b e,
    refl,
    ground arith,
  )

  accept_timestamp_sound :
      (t : ℤ) (a : Answer) (job : Job)
      → accept_timestamp t a ≡ submitted job
      → (n : ℕ) × (t ≡ pos (suc n)) × (a ≡ submitted job)
  unfolding accept_timestamp
  accept_timestamp_sound (pos zero) a job h = absurd (cc)
  accept_timestamp_sound (pos (suc n)) a job h = (n, refl, h)
  accept_timestamp_sound (negsuc n) a job h = absurd (cc)

  -- AcceptTask submits a job only for a positive timestamp, and only one that was read from the
  -- bytes of the request into an object whose type is the one that the request names.
  pub accept_task_sound :
      (req : AcceptTaskRequest) (job : Job)
      → accept_task unmarshal req ≡ submitted job
      → (n : ℕ) × (b : Job) × (bytes : Text) × (req.timestamp ≡ pos (suc n))
        × (job_type b ≡ req.task_type)
        × (req.task_data ≡ some bytes)
        × (unmarshal b bytes ≡ some job)
  unfolding accept_task
  accept_task_sound req job h = elim (Bool-cases (text_eq req.task_type [])) [
    | inl e ↦ absurd (ground arith)
    | inr e ↦
        let (n, positive, taken) =
          accept_timestamp_sound req.timestamp (accept_data unmarshal req.task_type req.task_data)
            job (ground arith) in
        let (b, bytes, typed, given, read) =
          accept_data_sound req.task_type req.task_data job _ refl taken in
        (n, b, bytes, positive, typed, given, read)
  ]
