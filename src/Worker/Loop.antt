-- ===== src/Worker/Loop.antt =====
-- services/backend/app/workers/worker.py: the cycle of the worker, with the periodic jobs and the
-- recovery of stale locks.
use chrome_chatgpt_data.Prelude.{
  ℕ, zero, suc, ◌+◌, ◌*◌, min, String, Bool, true, Option, none, some, List, [], ◌∷◌, length, leb,
  if◌then◌else◌,
}
use chrome_chatgpt_data.Enums.{
  JobKind, retention_sweep, maintain_partitions, cleanup_stale, kind_eq,
}
use chrome_chatgpt_data.Jobs.{
  Job, JobIn, plain_text, periodic_key, second, enqueue_job, recover_stale_jobs,
}
use chrome_chatgpt_data.Jobs.Claim.{claim_jobs}
use chrome_chatgpt_data.Worker.{
  Worker, JobSession, Handlers, Times, Cycle, executed, aborted, execute_each,
}

abbrev pub last_run : JobKind → List (JobKind × ℕ) → Option ℕ
last_run kind [] = none
last_run kind ((k, t) ∷ rest) =
    let later = last_run kind rest in if kind_eq k kind then some t else later

abbrev pub set_last : JobKind → ℕ → List (JobKind × ℕ) → List (JobKind × ℕ)
set_last kind t [] = (kind, t) ∷ []
set_last kind t ((k, u) ∷ rest) =
    let later = set_last kind t rest in if kind_eq k kind then (k, t) ∷ rest else (k, u) ∷ later

-- `not (last is not None and loop_now - last < interval)`
abbrev pub is_due : ℕ → ℕ → Option ℕ → Bool
is_due loop_now interval none = true
is_due loop_now interval (some last) = leb (last + interval) loop_now

abbrev pub periodic_job : String → JobKind → ℕ → JobIn
periodic_job worker_id kind priority = record {
  kind = kind;
  payload = ("scheduled_by", plain_text worker_id) ∷ [];
  organization_id = none;
  dedupe_key = some (periodic_key kind);
  priority = priority;
  run_after = none;
  max_attempts = 8;
}

-- The environment of a cycle of `run_forever`: the clocks, and the rows that others hold locked.
pub record Tick : Type 0 where
  pub loop_now : ℕ
  pub now : ℕ
  pub times : ℕ → Times
  pub locked : ℕ → Bool

-- `worker_stale_lock_seconds`
abbrev pub stale_lock : ℕ
stale_lock = 300 * second

-- `idle_cycles` after a cycle that executed `n` jobs.
abbrev pub next_idle : ℕ → ℕ → ℕ
next_idle zero idle = min (idle + 1) 10
next_idle (suc n) idle = 0

module _ {S : Type 0} where
  -- The jobs that `run_once` claims, and the session once the claim is committed.
  abbrev pub claim : ℕ → (ℕ → Bool) → Worker → JobSession S → List (Job × ℕ) × JobSession S
  claim now locked w s =
      let (claimed, uuids', jobs') =
        claim_jobs now w.worker_id w.concurrency [] locked s.uuids s.jobs in
      (claimed, record s { uuids = uuids'; jobs = jobs' })

  -- `run_once`, with the number of jobs that it returns.
  unfoldable pub run_once :
      Handlers S → (ℕ → Times) → ℕ → (ℕ → Bool) → Worker → JobSession S → ℕ × Cycle S
  run_once hs times now locked w s =
      let (claimed, s') = claim now locked w s in
      (length claimed, execute_each hs times claimed w s')

  -- One round of the loop of `ensure_periodic_jobs`: `loop_now` is the event loop's clock.
  unfoldable pub ensure_periodic :
      ℕ → ℕ → JobKind → ℕ → ℕ → Worker × JobSession S → Worker × JobSession S
  ensure_periodic loop_now now kind interval priority (w, s) =
      if is_due loop_now interval (last_run kind w.last_periodic)
      then (
        record w { last_periodic = set_last kind loop_now w.last_periodic },
        record s {
          uuids = s.uuids + 1;
          jobs = (enqueue_job now s.uuids (periodic_job w.worker_id kind priority) s.jobs).1;
        },
      )
      else (w, s)

  -- The loop over `PERIODIC_JOBS`.
  unfoldable pub ensure_periodic_jobs : ℕ → ℕ → Worker → JobSession S → Worker × JobSession S
  unfolding ensure_periodic
  ensure_periodic_jobs loop_now now w s =
      ensure_periodic loop_now now cleanup_stale (12 * 3600 * second) 950 (
        ensure_periodic loop_now now retention_sweep (24 * 3600 * second) 900
          (ensure_periodic loop_now now maintain_partitions (6 * 3600 * second) 800 (w, s)))

  -- A cycle of `run_forever`, with the number of jobs that it executed: 0 where it raised.
  unfoldable pub finish_cycle : ℕ × Cycle S → ℕ × Worker × JobSession S
  finish_cycle (n, executed w s) = (n, w, s)
  finish_cycle (n, aborted w s) = (0, w, s)

  unfoldable pub cycle : Handlers S → Tick → Worker → JobSession S → ℕ × Worker × JobSession S
  unfolding finish_cycle
  cycle hs tick w s =
      let (w', s') = ensure_periodic_jobs tick.loop_now tick.now w s in
      finish_cycle (
        run_once hs tick.times tick.now tick.locked w'
          (record s' { jobs = (recover_stale_jobs tick.now stale_lock s'.jobs).1 }))

  -- `run_forever` for as many cycles as run before the stop is requested.
  unfoldable pub run_forever :
      Handlers S → List Tick → ℕ → Worker → JobSession S → ℕ × Worker × JobSession S
  run_forever hs [] idle w s = (idle, w, s)
  run_forever hs (tick ∷ ticks) idle w s =
      let (n, w', s') = cycle hs tick w s in run_forever hs ticks (next_idle n idle) w' s'
