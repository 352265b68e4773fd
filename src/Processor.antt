-- ===== src/Processor.antt =====
-- k8s/processor.go: a bounded queue of jobs and the goroutines that take from it. The interleaving
-- is a sequence of events; a job's outcome does not change what the processor does next.
pub mod Order
pub mod Drain
use storebirth.Base.{
  ℕ, zero, suc, ◌+◌, List, [], ◌∷◌, ◌++◌, Bool, true, false, ltb, if◌then◌else◌, length,
}

pub record Processor {ℓ} (J : Type ℓ) : Type ℓ where
  -- the channel: its buffer, its capacity, and whether it is closed
  pub queue : List J
  pub capacity : ℕ
  pub closed : Bool
  pub pool_size : ℕ
  -- goroutines of Start, those of them that are in `job.Do()`, and the history of the jobs
  pub workers : ℕ
  pub running : List J
  pub started : List J
  pub done : List J

-- What a goroutine meets at an operation of the channel.
pub data Outcome {ℓ} (J : Type ℓ) : Type ℓ where
  next : Processor J → Outcome J
  blocked : Outcome J
  panics : Outcome J

pub data Event {ℓ} (J : Type ℓ) : Type ℓ where
  submits : J → Event J
  takes : Event J
  -- the goroutine that runs the job at this place of `running` returns from `Do`
  finishes : ℕ → Event J
  closes : Event J

module _ {ℓ} {J : Type ℓ} where
  unfoldable pub new_processor : ℕ → ℕ → Processor J
  new_processor queue_size pool_size = record {
    queue = [];
    capacity = queue_size;
    closed = false;
    pool_size = pool_size;
    workers = 0;
    running = [];
    started = [];
    done = [];
  }

  unfoldable pub start : Processor J → Processor J
  start p = record p { workers = p.workers + p.pool_size }

  -- A send on a closed channel panics, and one on a full channel waits.
  unfoldable pub submit : J → Processor J → Outcome J
  submit job p =
      if p.closed
      then panics
      else if ltb (length p.queue) p.capacity
      then next (record p { queue = p.queue ++ job ∷ [] })
      else blocked

  take_from : List J → Processor J → Outcome J
  take_from [] p = blocked
  take_from (job ∷ rest) p =
      next (record p { queue = rest; running = job ∷ p.running; started = p.started ++ job ∷ [] })

  -- One round of `for job := range p.JobQueue`, by an idle goroutine.
  take_job : Processor J → Outcome J
  unfolding take_from
  take_job p = if ltb (length p.running) p.workers then take_from p.queue p else blocked

  -- The job that ends, and the jobs that still run.
  remove_at : ℕ → List J → List J
  remove_at i [] = []
  remove_at zero (x ∷ xs) = xs
  remove_at (suc i) (x ∷ xs) = x ∷ remove_at i xs

  job_at : ℕ → List J → List J
  job_at i [] = []
  job_at zero (x ∷ xs) = x ∷ []
  job_at (suc i) (x ∷ xs) = job_at i xs

  finish : ℕ → Processor J → Outcome J
  unfolding remove_at job_at
  finish i p =
      if ltb i (length p.running)
      then next (record p { running = remove_at i p.running; done = p.done ++ job_at i p.running })
      else blocked

  pub close : Processor J → Outcome J
  close p = if p.closed then panics else next (record p { closed = true })

  unfoldable pub step : Event J → Processor J → Outcome J
  unfolding take_job finish close submit
  step (submits job) p = submit job p
  step takes p = take_job p
  step (finishes i) p = finish i p
  step closes p = close p
