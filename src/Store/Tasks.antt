-- ===== src/Store/Tasks.antt =====
-- The log of tasks (dblayer/task.actions.go).
use storebirth.Base.{
  none, ℕ, suc, ◌≡◌, ◌⊎◌, inl, inr, refl, List, [], ◌∷◌, ◌++◌, Text, text_eq, codes, leb, ◌==◌, All,
  All-append, if◌then◌else◌,
}
use storebirth.Store.{Db, ConsoleTask, Result, ok}
use storebirth.Store.Sql.{World, M, exec, select, update}
use storebirth.Store.Sql.Keeps.{exec-keeps}
use storebirth.Store.Sql.Rows.{All-update}

-- TaskStatusProcessing, TaskStatusFinished
abbrev pub processing : Text
processing = codes "processing"

abbrev pub finished : Text
finished = codes "finished"

abbrev set_tasks : List ConsoleTask → Db → Db
set_tasks rows d = record d { console_tasks = record d.console_tasks { rows = rows } }

abbrev pub new_task : ℕ → Text → Text → Text → Text → ℕ → ConsoleTask
new_task id task_type detailed_status task_info status now = record {
  id = id;
  task_type = task_type;
  task_status = status;
  task_detailed_status = detailed_status;
  task_info = task_info;
  created_at = now;
}

insert_asc : ConsoleTask → List ConsoleTask → List ConsoleTask
insert_asc t [] = t ∷ []
insert_asc t (u ∷ rest) =
    let later = insert_asc t rest in
    if leb t.created_at u.created_at then t ∷ u ∷ rest else u ∷ later

-- ORDER BY created_at ASC
order_asc : List ConsoleTask → List ConsoleTask
unfolding insert_asc
order_asc [] = []
order_asc (t ∷ rest) = insert_asc t (order_asc rest)

abbrev insert_task : (ℕ → ConsoleTask) → Db → Result ConsoleTask × Db
insert_task task d = (
  ok (task d.console_tasks.next_id),
  record d {
    console_tasks = record {
      rows = d.console_tasks.rows ++ task d.console_tasks.next_id ∷ [];
      next_id = suc d.console_tasks.next_id;
    };
  },
)

abbrev change_task : ℕ → Text → Text → Db → Result (Unit {0}) × Db
change_task task_id status detailed_status d = (
  ok tt,
  set_tasks
      (update (λ (t : ConsoleTask). t.id == task_id)
        (λ t. record t { task_status = status; task_detailed_status = detailed_status })
        d.console_tasks.rows)
      d,
)

module _ {S : Type 0} where
  -- CreateTask
  unfoldable pub create_task : Text → Text → Text → Text → M S ConsoleTask
  unfolding exec
  create_task task_type detailed_status task_info status w =
      exec (insert_task (λ id. new_task id task_type detailed_status task_info status w.now)) w

  -- UpdateTaskStatus. No row is no error.
  unfoldable pub update_task_status : ℕ → Text → Text → M S (Unit {0})
  unfolding exec
  update_task_status task_id status detailed_status =
      exec (change_task task_id status detailed_status)

  -- GetAllPendingTasks
  unfoldable pub get_all_pending_tasks : M S (List ConsoleTask)
  unfolding exec order_asc
  get_all_pending_tasks = exec λ d. (
    ok (
        order_asc (
          select (λ (t : ConsoleTask). text_eq t.task_status (codes "pending"))
            d.console_tasks.rows)),
    d,
  )

-- The statuses that the package names.
abbrev pub IsNamed : Text → Type 0
IsNamed status = (status ≡ processing) ⊎ (status ≡ finished)

abbrev AllNamed : Db → Type 0
AllNamed d = All (λ (t : ConsoleTask). IsNamed t.task_status) d.console_tasks.rows

none_pending :
    (rows : List ConsoleTask)
    → All (λ (t : ConsoleTask). IsNamed t.task_status) rows
    → select (λ (t : ConsoleTask). text_eq t.task_status (codes "pending")) rows ≡ []
unfolding select text_eq
none_pending [] h = refl
none_pending (t ∷ rows) (inl e, h) = rw e (none_pending rows h)
none_pending (t ∷ rows) (inr e, h) = rw e (none_pending rows h)

-- What the package can be asked to write.
pub data TaskWrite : Type 0 where
  creates : (task_type detailed_status task_info status : Text) → TaskWrite
  updates : (task_id : ℕ) → (status detailed_status : Text) → TaskWrite

abbrev pub status_of : TaskWrite → Text
status_of (creates task_type detailed_status task_info status) = status
status_of (updates task_id status detailed_status) = status

module _ {S : Type 0} where
  unfoldable pub written_task : TaskWrite → World S → World S
  unfolding create_task update_task_status
  written_task (creates task_type detailed_status task_info status) s =
      (create_task task_type detailed_status task_info status s).1
  written_task (updates task_id status detailed_status) s =
      (update_task_status task_id status detailed_status s).1

  unfoldable pub written_tasks : List TaskWrite → World S → World S
  unfolding written_task
  written_tasks [] s = s
  written_tasks (o ∷ os) s = written_tasks os (written_task o s)

  written_task-AllNamed :
      (o : TaskWrite) (s : World S)
      → IsNamed (status_of o)
      → AllNamed s.db
      → AllNamed (written_task o s).db
  unfolding written_task create_task update_task_status
  written_task-AllNamed (creates task_type detailed_status task_info status) s named h =
      let task = λ (id : ℕ). new_task id task_type detailed_status task_info status s.now in
      exec-keeps AllNamed (insert_task task) s h (
        All-append (λ (t : ConsoleTask). IsNamed t.task_status) s.db.console_tasks.rows
          (task s.db.console_tasks.next_id ∷ []) h (named, tt))
  written_task-AllNamed (updates task_id status detailed_status) s named h =
      exec-keeps AllNamed (change_task task_id status detailed_status) s h (
        All-update (λ (t : ConsoleTask). IsNamed t.task_status)
          (λ (t : ConsoleTask). IsNamed t.task_status) _ _ s.db.console_tasks.rows (λ t k e. named)
          (λ t k e. k) h)

  written_tasks-AllNamed :
      (os : List TaskWrite) (s : World S)
      → All (λ (o : TaskWrite). IsNamed (status_of o)) os
      → AllNamed s.db
      → AllNamed (written_tasks os s).db
  unfolding written_tasks
  written_tasks-AllNamed [] s named h = h
  written_tasks-AllNamed (o ∷ os) s named h =
      written_tasks-AllNamed os (written_task o s) named.1 (written_task-AllNamed o s named.0 h)

  listed_none :
      (s : World S) → AllNamed s.db → s.fault s.calls ≡ none → (get_all_pending_tasks s).0 ≡ ok []
  unfolding get_all_pending_tasks exec order_asc
  listed_none s h e =
      rw (e, get_all_pending_tasks, exec) (rw (none_pending s.db.console_tasks.rows h) refl)

  -- After any tasks that are created and updated with the statuses that the package names, starting
  -- from an empty table, GetAllPendingTasks lists no task, while the database answers it.
  get_all_pending_tasks-written_tasks :
      (os : List TaskWrite) (s : World S)
      → All (λ (o : TaskWrite). IsNamed (status_of o)) os
      → s.db.console_tasks.rows ≡ []
      → (written_tasks os s).fault (written_tasks os s).calls ≡ none
      → (get_all_pending_tasks (written_tasks os s)).0 ≡ ok []
  get_all_pending_tasks-written_tasks os s named empty q =
      listed_none (written_tasks os s) (written_tasks-AllNamed os s named (rw empty tt)) q
