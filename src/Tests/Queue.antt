-- ===== src/Tests/Queue.antt =====
-- The processor on concrete events, and one task on its way.
use mathlib.Core.List.{Perm}
use mathlib.Core.List.Perm
use storebirth.Base.{
  ◌≤◌, length, ℕ, suc, ◌≡◌, refl, true, [], ◌∷◌, List, some, Text, codes, arith, pos,
}
use storebirth.Processor.{
  Processor, Event, submits, takes, finishes, closes, new_processor, start, step, submit,
}
use storebirth.Processor.Order.{Run, here, then_step, Inv, Run-Inv}
use storebirth.Processor.Drain.{work_left, Less, work_left-step, all_done}
use storebirth.Jobs.{
  Job, deploy_worker, accept_task, AcceptTaskRequest, job_type, task_request, submitted,
}
use storebirth.Jobs.Wire.{accept_task-task_request, accept_task_sound}
use storebirth.Tests.Codec.{marshal_job, unmarshal_job, reads_back}

-- A processor with one goroutine after job 7 was done, job 8 was taken, and job 9 waits.
abbrev busy : Processor ℕ
busy = record {
  queue = 9 ∷ [];
  capacity = 2;
  closed = true;
  pool_size = 1;
  workers = 1;
  running = 8 ∷ [];
  started = 7 ∷ 8 ∷ [];
  done = 7 ∷ [];
}

abbrev busy_events : List (Event ℕ)
busy_events = submits 7 ∷ submits 8 ∷ takes ∷ finishes 0 ∷ submits 9 ∷ takes ∷ closes ∷ []

busy-Run : Run (start (new_processor 2 1)) busy_events busy
unfolding start new_processor step submit
busy-Run =
    then_step closes
      (then_step takes
        (then_step (submits 9)
          (then_step (finishes 0)
            (then_step takes (then_step (submits 8) (then_step (submits 7) here refl) refl) refl)
            refl)
          refl)
        refl)
      refl

Run-Inv_example : Inv (7 ∷ 8 ∷ 9 ∷ []) busy × (length busy.running ≤ 1)
Run-Inv_example = Run-Inv 2 1 busy_events busy busy-Run

-- The same processor at the end.
abbrev idle : Processor ℕ
idle = record busy { queue = []; running = []; started = 7 ∷ 8 ∷ 9 ∷ []; done = 7 ∷ 8 ∷ 9 ∷ [] }

idle-Inv : Inv (7 ∷ 8 ∷ 9 ∷ []) idle
idle-Inv = record {
  fifo = refl;
  conserved = Perm.refl _;
  queue_bound = omega arith;
  running_bound = omega arith;
}

all_done_example : (idle.queue ≡ []) × (idle.running ≡ []) × Perm (7 ∷ 8 ∷ 9 ∷ []) idle.done
all_done_example =
    all_done (7 ∷ 8 ∷ 9 ∷ []) idle (omega arith) idle-Inv (unfold step in refl)
      (unfold step in refl)

work_left-step_example :
    Less (work_left busy) (step takes busy) × Less (work_left busy) (step (finishes 0) busy)
work_left-step_example = work_left-step busy 0

abbrev job : Job
job = deploy_worker (codes "1764150000000") (codes "annann123456") 3

accept_task-task_request_example :
    accept_task unmarshal_job (task_request marshal_job 1764150000 job) ≡ submitted job
accept_task-task_request_example =
    accept_task-task_request marshal_job unmarshal_job 1764150000 job (omega arith) refl reads_back

abbrev request : AcceptTaskRequest
request = task_request marshal_job 1764150000 job

accept_task_sound_example :
    (n : ℕ) × (b : Job) × (bytes : Text) × (request.timestamp ≡ pos (suc n))
    × (job_type b ≡ request.task_type)
    × (request.task_data ≡ some bytes)
    × (unmarshal_job b bytes ≡ some job)
accept_task_sound_example =
    accept_task_sound marshal_job unmarshal_job request job accept_task-task_request_example
