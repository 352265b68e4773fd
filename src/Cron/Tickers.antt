-- ===== src/Cron/Tickers.antt =====
-- Which jobs the tickers of k8s/cron.go submit.
use mathlib.Core.List.{append-nil, append_assoc}
use storebirth.Base.{
  ℕ, ◌≡◌, refl, sym, ap, ◌∙◌, List, [], ◌∷◌, ◌++◌, some, arith, ◌==◌, if◌then◌else◌, Bool-cases,
  inl, inr,
}
use storebirth.Cron.{
  CronScheduler, Event, fires, sees_stop, registers, closes, new_cron_scheduler, jobs_at, lookup,
  insert, register_job, start, step, run, main_cron,
}

module _ {ℓ} {V : Type ℓ} where
  lookup-insert :
      (d e : ℕ) (jobs : V) (m : List (ℕ × V))
      → lookup e (insert d jobs m) ≡ (if d == e then some jobs else lookup e m)
  unfolding lookup insert
  lookup-insert d e jobs [] = refl
  lookup-insert d e jobs (entry ∷ rest) = ground (arith, lookup-insert d e jobs rest)

module _ {ℓ} {J : Type ℓ} where
  -- The jobs of a list of registrations that have the duration `d`, in order.
  abbrev pub jobs_of : ℕ → List (ℕ × J) → List J
  jobs_of d [] = []
  jobs_of d ((k, job) ∷ rest) = if k == d then job ∷ jobs_of d rest else jobs_of d rest

  abbrev pub register_all : List (ℕ × J) → CronScheduler J → CronScheduler J
  register_all [] s = s
  register_all ((d, job) ∷ rest) s = register_all rest (register_job d job s)

  jobs_at-register_job :
      (d k : ℕ) (job : J) (s : CronScheduler J)
      → jobs_at k (register_job d job s).duration_to_call
        ≡ jobs_at k s.duration_to_call ++ (if d == k then job ∷ [] else [])
  unfolding register_job
  jobs_at-register_job d k job s = ground (
    arith,
    lookup-insert d k (jobs_at d s.duration_to_call ++ job ∷ []) s.duration_to_call,
    append-nil (jobs_at k s.duration_to_call),
  )

  jobs_at-register_all :
      (d : ℕ) (regs : List (ℕ × J)) (s : CronScheduler J)
      → jobs_at d (register_all regs s).duration_to_call
        ≡ jobs_at d s.duration_to_call ++ jobs_of d regs
  jobs_at-register_all d [] s = sym (append-nil _)
  jobs_at-register_all d ((k, job) ∷ rest) s =
      jobs_at-register_all d rest (register_job k job s)
      ∙ rw (jobs_at-register_job k d job s) (elim (Bool-cases (k == d)) [
        | inl e ↦ rw (e, append_assoc) refl
        | inr e ↦ rw (e, append-nil) refl
      ])

  tickers-register_all :
      (regs : List (ℕ × J)) (s : CronScheduler J) → (register_all regs s).tickers ≡ s.tickers
  unfolding register_job
  tickers-register_all [] s = refl
  tickers-register_all ((k, job) ∷ rest) s = tickers-register_all rest (register_job k job s)

  -- A ticker of a scheduler that is started after some registrations submits the jobs that were
  -- registered for its duration, in the order of registration, and no job that is registered after
  -- the start.
  fires-start :
      (before later : List (ℕ × J)) (d : ℕ)
      → (step (fires d) (register_all later (start (register_all before new_cron_scheduler)))).1
        ≡ jobs_of d before
  unfolding step start new_cron_scheduler lookup
  fires-start before later d =
      ap (jobs_at d) (
        tickers-register_all later (start (register_all before new_cron_scheduler))
        ∙ ap (λ t. t ++ (register_all before new_cron_scheduler).duration_to_call)
            (tickers-register_all before new_cron_scheduler))
      ∙ jobs_at-register_all d before new_cron_scheduler

  step_without_tickers :
      (e : Event J) (s : CronScheduler J)
      → s.tickers ≡ []
      → ((step e s).0.tickers ≡ []) × ((step e s).1 ≡ [])
  unfolding step
  step_without_tickers (fires d) s h = (h, rw h)
  step_without_tickers (sees_stop d) s h = (ground arith, refl)
  step_without_tickers (registers d job) s h = (h, refl)
  step_without_tickers closes s h = (h, refl)

  -- Without tickers nothing is submitted, whatever happens next.
  run_without_tickers :
      (es : List (Event J)) (s : CronScheduler J) → s.tickers ≡ [] → (run es s).1 ≡ []
  unfolding run
  run_without_tickers [] s h = refl
  run_without_tickers (e ∷ es) s h =
      let (t, n) = step_without_tickers e s h in rw (n, run_without_tickers es (step e s).0 t)

  -- The scheduler of the inner gateway, which is started before its two jobs are registered, never
  -- submits a job, whatever events follow.
  pub main_cron_idle :
      (audit check : J) (es : List (Event J)) → (run es (main_cron audit check)).1 ≡ []
  unfolding main_cron
  main_cron_idle audit check es = run_without_tickers es _ refl
