-- ===== src/Worker/Slots.antt =====
-- The capacity semaphore of `Engine.Run` in pkg/worker/worker.go, through the iterations of its poll loop: the tokens
-- in the channel, the jobs that run, and where the loop stands with the tokens of its iteration. `AcquireLeases` may
-- answer anything, and the context may be done at every point where the loop looks at it.
pub mod Bounded
use progo_a2a.Prelude.{
  ℕ, zero, suc, ◌+◌, ◌-◌, ◌≤◌, ◌<◌, ◌≡◌, ◌⊎◌, refl, Bool, true, false, Option, none, some, List, [],
  ◌∷◌, length, take, ltb, if◌then◌else◌, Bool-cases, inl, inr, arith,
}
use progo_a2a.Job.{Job}

-- Where the poll loop stands: it gathers tokens, `acquiredTokens` so far; it waits for the answer of `AcquireLeases` to
-- a request for as many jobs as it has tokens; it waits for the poll timer; it has been left.
pub data Phase : Type 0 where
  gathering : ℕ → Phase
  requesting : ℕ → Phase
  polling : Phase
  stopped : Phase

pub record Slots : Type 0 where
  pub capacity_tokens : ℕ
  pub active : ℕ
  pub phase : Phase

-- The semaphore that `Run` makes, at the first iteration.
unfoldable pub new_slots : ℕ → Slots
new_slots concurrency = record { capacity_tokens = concurrency; active = 0; phase = gathering 0 }

-- `capacityTokens <- struct{}{}`, `acquiredTokens` times; and where the loop goes then.
unfoldable pub return_tokens : ℕ → Phase → Slots → Slots
return_tokens acquired phase s = record {
  capacity_tokens = s.capacity_tokens + acquired;
  active = s.active;
  phase = phase;
}

-- A nil job gives its token back; the others start.
unfoldable pub start_jobs : List (Option Job) → Slots → Slots
start_jobs [] s = s
start_jobs (none ∷ jobs) s = start_jobs jobs (record s { capacity_tokens = suc s.capacity_tokens })
start_jobs (some job ∷ jobs) s = start_jobs jobs (record s { active = suc s.active })

-- The jobs beyond the request are cut off, the unused tokens go back, and the next iteration begins without tokens.
unfoldable pub start_batch : List (Option Job) → ℕ → Slots → Slots
unfolding start_jobs return_tokens
start_batch jobs acquired s =
    let kept = if ltb acquired (length jobs) then take acquired jobs else jobs in
    start_jobs kept (return_tokens (acquired - length kept) (gathering 0) s)

-- `hasTokens`: whether the context is done decides between a request and the end of the loop.
unfoldable pub request_leases : Bool → ℕ → Slots → Slots
unfolding return_tokens
request_leases true acquired s = return_tokens acquired stopped s
request_leases false acquired s = record s { phase = requesting acquired }

-- What follows the answer of `AcquireLeases`: an error is `none`, and the second argument is whether the context is done.
unfoldable pub after_acquire : Option (List (Option Job)) → Bool → ℕ → Slots → Slots
unfolding return_tokens start_batch
after_acquire none true acquired s = return_tokens acquired stopped s
after_acquire none false acquired s = return_tokens acquired polling s
after_acquire (some jobs) true acquired s = return_tokens acquired stopped s
after_acquire (some []) false acquired s = return_tokens acquired polling s
after_acquire (some (job ∷ jobs)) false acquired s = start_batch (job ∷ jobs) acquired s

-- The end of a poll interval, or of the wait for it.
abbrev pub after_poll : Bool → Phase
after_poll true = stopped
after_poll false = gathering 0

-- The steps of the loop, in the order of its code, and of the jobs, at any time.
pub data Step (batch_size : ℕ) : Slots → Slots → Type 0 where
  acquire_token :
      {n acquired active : ℕ}
      → acquired < batch_size
      → Step batch_size
          (record { capacity_tokens = suc n; active = active; phase = gathering acquired })
          (record { capacity_tokens = n; active = active; phase = gathering (suc acquired) })
  -- The wait of an iteration that found no token.
  wait_token :
      {n active : ℕ}
      → Step batch_size
          (record { capacity_tokens = suc n; active = active; phase = gathering 0 })
          (record { capacity_tokens = n; active = active; phase = gathering 1 })
  -- The context is done at the head of the loop, or during that wait.
  leave :
      {n active : ℕ}
      → Step batch_size
          (record { capacity_tokens = n; active = active; phase = gathering 0 })
          (record { capacity_tokens = n; active = active; phase = stopped })
  -- The loop has some tokens, and no more are to be had or wanted.
  request :
      {n acquired active : ℕ}
      → 0 < acquired
      → (n ≡ 0) ⊎ (batch_size ≤ acquired)
      → (context_done : Bool)
      → Step batch_size
          (record { capacity_tokens = n; active = active; phase = gathering acquired })
          (request_leases context_done acquired
            (record { capacity_tokens = n; active = active; phase = gathering acquired }))
  answer :
      {n acquired active : ℕ}
      → (reply : Option (List (Option Job))) → (context_done : Bool)
      → Step batch_size
          (record { capacity_tokens = n; active = active; phase = requesting acquired })
          (after_acquire reply context_done acquired
            (record { capacity_tokens = n; active = active; phase = requesting acquired }))
  poll :
      {n active : ℕ}
      → (context_done : Bool)
      → Step batch_size
          (record { capacity_tokens = n; active = active; phase = polling })
          (record { capacity_tokens = n; active = active; phase = after_poll context_done })
  job_done :
      {n active : ℕ}
      → {phase : Phase}
      → Step batch_size
          (record { capacity_tokens = n; active = suc active; phase = phase })
          (record { capacity_tokens = suc n; active = active; phase = phase })

pub data Reaches (batch_size : ℕ) : Slots → Slots → Type 0 where
  done : {s : Slots} → Reaches batch_size s s
  next : {s t u : Slots} → Step batch_size s t → Reaches batch_size t u → Reaches batch_size s u
