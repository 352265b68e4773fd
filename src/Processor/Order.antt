-- ===== src/Processor/Order.antt =====
-- No job is lost, doubled or overtaken, and no bound is passed.
use mathlib.Core.List.{Perm, append_assoc, append-nil, perm_middle, perm_append_singleton}
use mathlib.Core.List.Perm
use storebirth.Base.{
  ℕ, zero, suc, ◌≤◌, ◌<◌, ◌≡◌, refl, sym, ap, ◌∙◌, List, [], ◌∷◌, ◌++◌, arith, length,
  length-append, Bool, true, false, if◌then◌else◌, ltb, ltb→lt, Bool-cases, inl, inr, subst,
}
use storebirth.Processor.{
  Processor, Outcome, next, Event, submits, takes, finishes, closes, new_processor, start, step,
  submit, take_job, take_from, finish, close, remove_at, job_at,
}

module _ {ℓ} {J : Type ℓ} where
  -- The jobs that a history of events has put into the queue.
  abbrev pub accepted : List (Event J) → List J
  accepted [] = []
  accepted (submits job ∷ es) = job ∷ accepted es
  accepted (_ ∷ es) = accepted es

  -- The events happen one after the other, and each can.
  pub data Run (p : Processor J) : List (Event J) → Processor J → Type ℓ where
    here : Run p [] p
    then_step :
        {q r : Processor J} {es : List (Event J)} (e : Event J)
        → Run p es q
        → step e q ≡ next r
        → Run p (es ++ e ∷ []) r

  pub record Inv (jobs : List J) (p : Processor J) : Type ℓ where
    -- the goroutines took the jobs in the order of the submissions, and the rest waits in order
    pub fifo : p.started ++ p.queue ≡ jobs
    -- a job that was taken has ended or is running
    pub conserved : Perm p.started (p.done ++ p.running)
    pub queue_bound : length p.queue ≤ p.capacity
    pub running_bound : length p.running ≤ p.workers

  -- The invariant of what an operation leaves behind.
  abbrev Kept : List J → Outcome J → Type ℓ
  Kept jobs (next q) = Inv jobs q
  Kept jobs _ = Unit

  remove_at-perm : (i : ℕ) (xs : List J) → i < length xs → Perm xs (job_at i xs ++ remove_at i xs)
  unfolding remove_at job_at
  remove_at-perm i [] h = elim h [ ]
  remove_at-perm zero (x ∷ xs) h = Perm.refl (x ∷ xs)
  remove_at-perm (suc i) (x ∷ xs) h =
      Perm.trans (Perm.cons x (remove_at-perm i xs (omega arith)))
        (Perm.symm (perm_middle (job_at i xs) (remove_at i xs)))

  length-remove_at : (i : ℕ) (xs : List J) → length (remove_at i xs) ≤ length xs
  unfolding remove_at
  length-remove_at i [] = omega arith
  length-remove_at zero (x ∷ xs) = omega arith
  length-remove_at (suc i) (x ∷ xs) = omega (arith, length-remove_at i xs)

  submit-Kept :
      (jobs : List J) (job : J) (p : Processor J)
      → Inv jobs p
      → Kept (jobs ++ job ∷ []) (submit job p)
  unfolding submit
  submit-Kept jobs job p v = elim (Bool-cases p.closed) [
    | inl e ↦ rw (e, submit) tt
    | inr e ↦ elim (Bool-cases (ltb (length p.queue) p.capacity)) [
      | inl room ↦
          rw (e, room, submit)
            (record {
              fifo =
                  sym (append_assoc p.started p.queue (job ∷ [])) ∙ ap (λ l. l ++ job ∷ []) v.fifo;
              conserved = v.conserved;
              queue_bound = ground (arith, length-append p.queue (job ∷ []));
              running_bound = v.running_bound;
            })
      | inr full ↦ rw (e, full, submit) tt
    ]
  ]

  take_from-Kept :
      (jobs queue : List J) (p : Processor J)
      → p.queue ≡ queue
      → length p.running < p.workers
      → Inv jobs p
      → Kept jobs (take_from queue p)
  unfolding take_from
  take_from-Kept jobs [] p e h v = tt
  take_from-Kept jobs (job ∷ rest) p e h v = record {
    fifo = append_assoc p.started (job ∷ []) rest ∙ ap (λ l. p.started ++ l) (sym e) ∙ v.fifo;
    conserved =
        Perm.trans (perm_append_singleton job p.started)
          (Perm.trans (Perm.cons job v.conserved) (Perm.symm (perm_middle p.done p.running)));
    queue_bound = omega (arith, ap length e, v.queue_bound);
    running_bound = omega arith;
  }

  take_job-Kept : (jobs : List J) (p : Processor J) → Inv jobs p → Kept jobs (take_job p)
  unfolding take_job
  take_job-Kept jobs p v = elim (Bool-cases (ltb (length p.running) p.workers)) [
    | inl idle ↦ rw (idle, take_job) (take_from-Kept jobs p.queue p refl (ltb→lt _ _ idle) v)
    | inr busy ↦ rw (busy, take_job) tt
  ]

  finish-Kept : (jobs : List J) (i : ℕ) (p : Processor J) → Inv jobs p → Kept jobs (finish i p)
  unfolding finish
  finish-Kept jobs i p v = elim (Bool-cases (ltb i (length p.running))) [
    | inl found ↦
        rw (found, finish)
          (record {
            fifo = v.fifo;
            conserved = rw append_assoc (
                Perm.trans v.conserved
                  (Perm.append (Perm.refl p.done) (remove_at-perm i p.running (ltb→lt _ _ found))));
            queue_bound = v.queue_bound;
            running_bound = omega (arith, length-remove_at i p.running, v.running_bound);
          })
    | inr gone ↦ rw (gone, finish) tt
  ]

  close-Kept : (jobs : List J) (p : Processor J) → Inv jobs p → Kept jobs (close p)
  unfolding close
  close-Kept jobs p v = elim (Bool-cases p.closed) [
    | inl e ↦ rw (e, close) tt
    | inr e ↦
        rw (e, close)
          (record {
            fifo = v.fifo;
            conserved = v.conserved;
            queue_bound = v.queue_bound;
            running_bound = v.running_bound;
          })
  ]

  step-Kept :
      (jobs : List J) (e : Event J) (p : Processor J)
      → Inv jobs p
      → Kept (jobs ++ accepted (e ∷ [])) (step e p)
  unfolding step
  step-Kept jobs (submits job) p v = submit-Kept jobs job p v
  step-Kept jobs takes p v = rw append-nil (take_job-Kept jobs p v)
  step-Kept jobs (finishes i) p v = rw append-nil (finish-Kept jobs i p v)
  step-Kept jobs closes p v = rw append-nil (close-Kept jobs p v)

  accepted-append : (es fs : List (Event J)) → accepted (es ++ fs) ≡ accepted es ++ accepted fs
  accepted-append [] fs = refl
  accepted-append (submits job ∷ es) fs = ap (λ l. job ∷ l) (accepted-append es fs)
  accepted-append (takes ∷ es) fs = accepted-append es fs
  accepted-append (finishes i ∷ es) fs = accepted-append es fs
  accepted-append (closes ∷ es) fs = accepted-append es fs

  start-Inv : (queue_size pool_size : ℕ) → Inv [] (start (new_processor queue_size pool_size))
  unfolding start new_processor
  start-Inv queue_size pool_size = record {
    fifo = refl;
    conserved = Perm.refl [];
    queue_bound = omega arith;
    running_bound = omega arith;
  }

  history-Inv :
      (queue_size pool_size : ℕ) (es : List (Event J)) (p : Processor J)
      → Run (start (new_processor queue_size pool_size)) es p
      → Inv (accepted es) p
  history-Inv queue_size pool_size es p here = start-Inv queue_size pool_size
  history-Inv queue_size pool_size es p (then_step {q = q} {es = fs} e r h) = rw accepted-append (
      subst (Kept (accepted fs ++ accepted (e ∷ []))) h
        (step-Kept (accepted fs) e q (history-Inv queue_size pool_size fs q r)))

  -- There are `n` goroutines after an operation.
  abbrev Staffed : ℕ → Outcome J → Type 0
  Staffed n (next q) = q.workers ≡ n
  Staffed n _ = Unit

  if-Staffed :
      (n : ℕ) (b : Bool) (x y : Outcome J)
      → Staffed n x
      → Staffed n y
      → Staffed n (if b then x else y)
  if-Staffed n true x y h k = h
  if-Staffed n false x y h k = k

  take_from-Staffed : (queue : List J) (p : Processor J) → Staffed p.workers (take_from queue p)
  unfolding take_from
  take_from-Staffed [] p = tt
  take_from-Staffed (job ∷ rest) p = refl

  step-Staffed : (e : Event J) (p : Processor J) → Staffed p.workers (step e p)
  unfolding step submit take_job finish close
  step-Staffed (submits job) p =
      if-Staffed p.workers p.closed _ _ tt
        (if-Staffed p.workers (ltb (length p.queue) p.capacity) _ _ refl tt)
  step-Staffed takes p =
      if-Staffed p.workers (ltb (length p.running) p.workers) _ _ (take_from-Staffed p.queue p) tt
  step-Staffed (finishes i) p = if-Staffed p.workers (ltb i (length p.running)) _ _ refl tt
  step-Staffed closes p = if-Staffed p.workers p.closed _ _ tt refl

  workers-Run :
      (queue_size pool_size : ℕ) (es : List (Event J)) (p : Processor J)
      → Run (start (new_processor queue_size pool_size)) es p
      → p.workers ≡ pool_size
  unfolding start new_processor
  workers-Run queue_size pool_size es p here = omega arith
  workers-Run queue_size pool_size es p (then_step {q = q} {es = fs} e r h) =
      subst (Staffed q.workers) h (step-Staffed e q) ∙ workers-Run queue_size pool_size fs q r

  -- After any events since Start, the jobs that goroutines took, followed by the queue, are the
  -- submitted jobs in the order of their submission; each job that was taken has ended or is
  -- running, as often as it was taken; the queue is within its capacity, and no more jobs run than
  -- the size of the pool.
  pub Run-Inv :
      (queue_size pool_size : ℕ) (es : List (Event J)) (p : Processor J)
      → Run (start (new_processor queue_size pool_size)) es p
      → Inv (accepted es) p × (length p.running ≤ pool_size)
  Run-Inv queue_size pool_size es p r =
      let v = history-Inv queue_size pool_size es p r in
      (v, omega (arith, v.running_bound, workers-Run queue_size pool_size es p r))
