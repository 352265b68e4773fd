-- ===== src/Processor/Drain.antt =====
-- What was submitted gets done: the goroutines can always go on until nothing is left, and under
-- no schedule do they go on for ever.
use mathlib.Core.List.{Perm, append-nil}
use storebirth.Base.{
  ℕ, zero, suc, ◌+◌, ◌*◌, ◌<◌, ◌≡◌, refl, sym, ap, ◌∙◌, subst, List, [], ◌∷◌, ◌++◌, arith, length,
  ltb, ltb→lt, Bool-cases, inl, inr, true, lt→ltb,
}
use storebirth.Processor.{
  Processor, Outcome, next, blocked, takes, finishes, step, take_job, take_from, finish, remove_at,
}
use storebirth.Processor.Order.{Inv}

module _ {ℓ} {J : Type ℓ} where
  -- The steps that the goroutines can still make: one to take each waiting job, one to end each
  -- job that waits or runs.
  abbrev pub work_left : Processor J → ℕ
  work_left p = 2 * length p.queue + length p.running

  -- An operation that happens leaves less than `n` of them.
  abbrev pub Less : ℕ → Outcome J → Type 0
  Less n (next q) = work_left q < n
  Less n _ = Unit

  take_from-Less :
      (queue : List J) (p : Processor J) → p.queue ≡ queue → Less (work_left p) (take_from queue p)
  unfolding take_from
  take_from-Less [] p e = tt
  take_from-Less (job ∷ rest) p e = omega (arith, ap length e)

  length-remove_at : (i : ℕ) (xs : List J) → i < length xs → length (remove_at i xs) < length xs
  unfolding remove_at
  length-remove_at i [] h = elim h [ ]
  length-remove_at zero (x ∷ xs) h = omega arith
  length-remove_at (suc i) (x ∷ xs) h = omega (arith, length-remove_at i xs (omega arith))

  take_job-Less : (p : Processor J) → Less (work_left p) (take_job p)
  unfolding take_job
  take_job-Less p = elim (Bool-cases (ltb (length p.running) p.workers)) [
    | inl idle ↦ rw (idle, take_job) (take_from-Less p.queue p refl)
    | inr busy ↦ rw (busy, take_job) tt
  ]

  finish-Less : (i : ℕ) (p : Processor J) → Less (work_left p) (finish i p)
  unfolding finish
  finish-Less i p = elim (Bool-cases (ltb i (length p.running))) [
    | inl found ↦
        rw (found, finish) (omega (arith, length-remove_at i p.running (ltb→lt _ _ found)))
    | inr gone ↦ rw (gone, finish) tt
  ]

  -- Every step of a goroutine, a take or the end of a job, leaves less work, so that with no new
  -- submission the goroutines make at most `work_left` steps, whatever the schedule.
  pub work_left-step :
      (p : Processor J) (i : ℕ)
      → Less (work_left p) (step takes p) × Less (work_left p) (step (finishes i) p)
  unfolding step
  work_left-step p i = (take_job-Less p, finish-Less i p)

  idle_queue : (queue : List J) (p : Processor J) → take_from queue p ≡ blocked → queue ≡ []
  unfolding take_from
  idle_queue [] p h = refl
  idle_queue (job ∷ rest) p h = absurd (cc)

  nothing_runs :
      (p : Processor J) (running : List J)
      → p.running ≡ running
      → finish 0 p ≡ blocked
      → running ≡ []
  unfolding finish
  nothing_runs p [] e h = refl
  nothing_runs p (job ∷ rest) e h = ground (arith, ap length e)

  all_taken :
      (jobs started queue done running : List J)
      → started ++ queue ≡ jobs
      → Perm started (done ++ running)
      → queue ≡ []
      → running ≡ []
      → Perm jobs done
  all_taken jobs started queue done running e c q r =
      let s : started ≡ jobs = sym (append-nil started) ∙ ap (λ l. started ++ l) (sym q) ∙ e in
      subst (λ l. Perm l done) s (subst (Perm started) (ap (λ l. done ++ l) r ∙ append-nil done) c)

  -- When no goroutine can take a job and none runs one, every submitted job is done, each as often
  -- as it was submitted, if there is a goroutine at all.
  pub all_done :
      (jobs : List J) (p : Processor J)
      → 0 < p.workers
      → Inv jobs p
      → step takes p ≡ blocked
      → step (finishes 0) p ≡ blocked
      → (p.queue ≡ []) × (p.running ≡ []) × Perm jobs p.done
  unfolding step take_job
  all_done jobs p w v no_take no_end =
      let r = nothing_runs p p.running refl no_end in
      let idle : ltb (length p.running) p.workers ≡ true =
        lt→ltb _ _ (omega (arith, ap length r)) in
      let q = idle_queue p.queue p (rw (idle, take_job) at no_take) in
      (q, r, all_taken jobs p.started p.queue p.done p.running v.fifo v.conserved q r)
