-- ===== src/Worker/Slots/Bounded.antt =====
-- The tokens of the poll loop of `Engine.Run` in pkg/worker/worker.go, counted.
use progo_a2a.Prelude.{
  ℕ, zero, suc, ◌+◌, ◌-◌, ◌≤◌, ◌<◌, ◌≡◌, refl, Bool, true, false, Option, none, some, List, [], ◌∷◌,
  length, take, ltb, Bool-cases, inl, inr, arith,
}
use progo_a2a.Job.{Job}
use progo_a2a.Worker.Slots.{
  Phase, Slots, new_slots, return_tokens, start_jobs, start_batch, request_leases, after_acquire,
  Step, Reaches, acquire_token, wait_token, leave, request, answer, poll, job_done, done, next,
  gathering, requesting, polling, stopped,
}

-- The tokens that the loop itself has: none once it waits for the timer or has been left.
abbrev pub held : Phase → ℕ
held (gathering n) = n
held (requesting n) = n
held polling = 0
held stopped = 0

-- No token is lost or made, and the loop asks for a batch at most.
pub record IsSlots (concurrency batch_size : ℕ) (s : Slots) : Type 0 where
  pub sum : s.capacity_tokens + held s.phase + s.active ≡ concurrency
  pub asked : held s.phase ≤ batch_size

start_jobs-sum :
    (jobs : List (Option Job)) (s : Slots)
    → ((start_jobs jobs s).capacity_tokens + (start_jobs jobs s).active
        ≡ s.capacity_tokens + s.active + length jobs)
      × ((start_jobs jobs s).phase ≡ s.phase)
unfolding start_jobs
start_jobs-sum [] s = (omega arith, refl)
start_jobs-sum (none ∷ jobs) s =
    let (a, b) = start_jobs-sum jobs (record s { capacity_tokens = suc s.capacity_tokens }) in
    (omega (arith, a), b)
start_jobs-sum (some job ∷ jobs) s =
    let (a, b) = start_jobs-sum jobs (record s { active = suc s.active }) in (omega (arith, a), b)

length-take : {A : Type 0} (n : ℕ) (xs : List A) → n ≤ length xs → length (take n xs) ≡ n
length-take zero xs h = refl
length-take (suc n) [] h = absurd (omega arith)
length-take (suc n) (x ∷ xs) h = omega (arith, length-take n xs)

module _ (concurrency batch_size : ℕ) where
  start_batch-IsSlots :
      (jobs : List (Option Job)) (acquired : ℕ) (s : Slots)
      → s.capacity_tokens + acquired + s.active ≡ concurrency
      → IsSlots concurrency batch_size (start_batch jobs acquired s)
  unfolding start_batch
  start_batch-IsSlots jobs acquired s x = elim (Bool-cases (ltb acquired (length jobs))) [
    | inl h ↦
        let n = length-take acquired jobs (ground (arith, h)) in
        let (a, b) =
          start_jobs-sum (take acquired jobs)
            (return_tokens (acquired - length (take acquired jobs)) (gathering 0) s) in
        rw h (record { sum = rw b (omega (arith, a, n, x)); asked = rw b (omega arith) })
    | inr h ↦
        let (a, b) = start_jobs-sum jobs (return_tokens (acquired - length jobs) (gathering 0) s) in
        let few : length jobs ≤ acquired = ground (arith, h) in
        rw h (record { sum = rw b (omega (arith, a, few, x)); asked = rw b (omega arith) })
  ]

  after_acquire-IsSlots :
      (reply : Option (List (Option Job))) (context_done : Bool) (acquired : ℕ) (s : Slots)
      → s.capacity_tokens + acquired + s.active ≡ concurrency
      → IsSlots concurrency batch_size (after_acquire reply context_done acquired s)
  unfolding after_acquire
  after_acquire-IsSlots none true n s x = record { sum = omega (arith, x); asked = omega arith }
  after_acquire-IsSlots none false n s x = record { sum = omega (arith, x); asked = omega arith }
  after_acquire-IsSlots (some jobs) true n s x = record {
    sum = omega (arith, x);
    asked = omega arith;
  }
  after_acquire-IsSlots (some []) false n s x = record {
    sum = omega (arith, x);
    asked = omega arith;
  }
  after_acquire-IsSlots (some (job ∷ jobs)) false n s x = start_batch-IsSlots (job ∷ jobs) n s x

  Step-IsSlots :
      (s t : Slots)
      → 0 < batch_size
      → Step batch_size s t
      → IsSlots concurrency batch_size s
      → IsSlots concurrency batch_size t
  unfolding request_leases
  Step-IsSlots s t one (acquire_token h) x = record {
    sum = omega (arith, x.sum);
    asked = omega (arith, h);
  }
  Step-IsSlots s t one wait_token x = record {
    sum = omega (arith, x.sum);
    asked = omega (arith, one);
  }
  Step-IsSlots s t one leave x = record { sum = omega (arith, x.sum); asked = omega arith }
  Step-IsSlots s t one (request some_held full true) x = record {
    sum = omega (arith, x.sum);
    asked = omega arith;
  }
  Step-IsSlots s t one (request some_held full false) x = record {
    sum = omega (arith, x.sum);
    asked = omega (arith, x.asked);
  }
  Step-IsSlots s t one (answer reply context_done) x =
      after_acquire-IsSlots reply context_done _ _ x.sum
  Step-IsSlots s t one (poll true) x = record { sum = omega (arith, x.sum); asked = omega arith }
  Step-IsSlots s t one (poll false) x = record { sum = omega (arith, x.sum); asked = omega arith }
  Step-IsSlots s t one job_done x = record {
    sum = omega (arith, x.sum);
    asked = omega (arith, x.asked);
  }

  Reaches-IsSlots :
      (s t : Slots)
      → 0 < batch_size
      → Reaches batch_size s t
      → IsSlots concurrency batch_size s
      → IsSlots concurrency batch_size t
  Reaches-IsSlots s t one done x = x
  Reaches-IsSlots s t one (next st rest) x =
      Reaches-IsSlots _ t one rest (Step-IsSlots s _ one st x)

  -- Through any number of iterations of the poll loop, whatever AcquireLeases answers (an error, no job, jobs, more
  -- jobs than asked for, nil jobs), whenever the context is done and however the jobs end, where the batch size is not 0:
  -- the tokens in the channel, those of the loop and the jobs that run are `concurrency` together, so that once the loop
  -- waits for its timer or has been left, every token that no job has is in the channel; at most `concurrency`
  -- jobs run at once; and a request for leases is for `batch_size` jobs at most.
  pub slots_bounded :
      (s : Slots)
      → 0 < batch_size
      → Reaches batch_size (new_slots concurrency) s
      → (s.capacity_tokens + held s.phase + s.active ≡ concurrency)
        × (s.active ≤ concurrency)
        × (held s.phase ≤ batch_size)
  unfolding new_slots
  slots_bounded s one r =
      let x =
        Reaches-IsSlots (new_slots concurrency) s one r
          (record { sum = omega arith; asked = omega arith }) in
      (x.sum, omega (arith, x.sum), x.asked)
