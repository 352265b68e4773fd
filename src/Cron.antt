-- ===== src/Cron.antt =====
-- k8s/cron.go: the scheduler, and its use in cmd/inner/main.go. A duration is a number. What the
-- tickers submit is a list of jobs, in order; that `Submit` may wait there is the processor's part.
pub mod Tickers
use storebirth.Base.{
  ℕ, suc, ◌+◌, ◌*◌, List, [], ◌∷◌, ◌++◌, Bool, true, false, Option, none, some, ◌==◌, if◌then◌else◌,
  get_or, map, length,
}

-- map[time.Duration][]Job
module _ {ℓ} {V : Type ℓ} where
  unfoldable pub lookup : ℕ → List (ℕ × V) → Option V
  lookup d [] = none
  lookup d (entry ∷ rest) = if entry.0 == d then some entry.1 else lookup d rest

  insert : ℕ → V → List (ℕ × V) → List (ℕ × V)
  insert d jobs [] = (d, jobs) ∷ []
  insert d jobs (entry ∷ rest) =
      let others = insert d jobs rest in if entry.0 == d then (d, jobs) ∷ rest else entry ∷ others

  -- The ticker of that duration is stopped and its goroutine returns.
  without : ℕ → List (ℕ × V) → List (ℕ × V)
  without k [] = []
  without k ((j, v) ∷ m) = let rest = without k m in if j == k then rest else (j, v) ∷ rest

pub record CronScheduler {ℓ} (J : Type ℓ) : Type ℓ where
  pub duration_to_call : List (ℕ × List J)
  -- the goroutines `runTicker`, each with the slice of jobs that it was given
  pub tickers : List (ℕ × List J)
  pub stopped : Bool

module _ {ℓ} {J : Type ℓ} where
  pub new_cron_scheduler : CronScheduler J
  new_cron_scheduler = record { duration_to_call = []; tickers = []; stopped = false }

  -- A missing key reads as the empty slice.
  abbrev pub jobs_at : ℕ → List (ℕ × List J) → List J
  jobs_at d m = elim (lookup d m) [ none ↦ [] | some jobs ↦ jobs ]

  pub register_job : ℕ → J → CronScheduler J → CronScheduler J
  unfolding insert
  register_job d job s = record s {
    duration_to_call = insert d (jobs_at d s.duration_to_call ++ job ∷ []) s.duration_to_call;
  }

  -- One goroutine for each duration that is registered now.
  pub start : CronScheduler J → CronScheduler J
  start s = record s { tickers = s.tickers ++ s.duration_to_call }

  pub close : CronScheduler J → CronScheduler J
  close s = record s { stopped = true }

-- What can happen to a scheduler: the clock of a ticker fires, a ticker sees that `stopCh` is
-- closed, or somebody calls a method.
pub data Event {ℓ} (J : Type ℓ) : Type ℓ where
  fires : ℕ → Event J
  sees_stop : ℕ → Event J
  registers : ℕ → J → Event J
  closes : Event J

module _ {ℓ} {J : Type ℓ} where
  -- The scheduler afterwards, and the jobs that were submitted.
  pub step : Event J → CronScheduler J → CronScheduler J × List J
  unfolding register_job close without lookup
  step (fires d) s = (s, jobs_at d s.tickers)
  step (sees_stop d) s = (if s.stopped then record s { tickers = without d s.tickers } else s, [])
  step (registers d job) s = (register_job d job s, [])
  step closes s = (close s, [])

  pub run : List (Event J) → CronScheduler J → CronScheduler J × List J
  run [] s = (s, [])
  run (e ∷ es) s = let (s', jobs) = step e s in let (s'', more) = run es s' in (s'', jobs ++ more)

-- cmd/inner/main.go: `cron.Start()` and then the two calls of `RegisterJob`, here in nanoseconds.
abbrev hour : ℕ
hour = 3600 * 1000000000

unfoldable pub main_cron {ℓ} : {J : Type ℓ} → J → J → CronScheduler J
unfolding new_cron_scheduler start register_job
main_cron user_audit_job domain_check_job =
    register_job (12 * hour) domain_check_job
      (register_job (24 * hour) user_audit_job (start new_cron_scheduler))
