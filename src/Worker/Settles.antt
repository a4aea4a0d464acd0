-- ===== src/Worker/Settles.antt =====
-- services/backend/app/workers/worker.py, `run_once` and `_execute`: no job stays claimed.
use chrome_chatgpt_data.Prelude.{
  ℕ, ◌+◌, ◌≡◌, refl, Bool, true, false, some, List, [], ◌∷◌, ◌++◌, length, arith,
}
use chrome_chatgpt_data.Prelude.Texts.{codes}
use chrome_chatgpt_data.Enums.{JobKind}
use chrome_chatgpt_data.Jobs.{Job}
use chrome_chatgpt_data.Jobs.Keeps.{IsQueue}
use chrome_chatgpt_data.Jobs.Release.{
  IsReleased, complete_job-IsReleased, complete_job_releases, fail_job_releases,
  fail_job-IsReleased,
}
use chrome_chatgpt_data.Jobs.Claim.Exclusive.{AreClaimed, claim_jobs_exclusive}
use chrome_chatgpt_data.Worker.{
  Worker, JobSession, Handler, Handlers, Times, Outcome, returned, non_retryable, raised, broken,
  unflushed, refused, Cycle, executed, aborted, and_next, get_handler, run_handler,
  record_attempt_start, conclude, execute, execute_each,
}
use chrome_chatgpt_data.Worker.Loop.{claim, run_once}

abbrev pub is_broken : Outcome → Bool
is_broken (broken type e) = true
is_broken (unflushed type e) = true
is_broken (refused good) = true
is_broken _ = false

-- No row is held under any of the claims.
abbrev pub AllReleased : List (Job × ℕ) → List Job → Type 0
AllReleased [] jobs = Unit
AllReleased ((job, token) ∷ rest) jobs = IsReleased job.id token jobs × AllReleased rest jobs

abbrev AreHeld : List (Job × ℕ) → Type 0
AreHeld [] = Unit
AreHeld ((job, token) ∷ rest) = (job.lock_token ≡ some token) × AreHeld rest

claimed-AreHeld :
    (lo hi : ℕ) (table : List Job) (claimed : List (Job × ℕ))
    → AreClaimed lo hi table claimed
    → AreHeld claimed
claimed-AreHeld lo hi table [] h = tt
claimed-AreHeld lo hi table ((j, t) ∷ rest) h = (h.2, claimed-AreHeld (t + 1) hi table rest h.5)

module _ {S : Type 0} where
  -- A handler that the database does not break off, nor refuses at the commit, and that hands out no claim.
  pub record IsCareful (h : Handler S) : Type 0 where
    pub alive : (now : ℕ) (job : Job) (s : JobSession S) → is_broken (h now job s).0 ≡ false
    pub grants_none :
        (now : ℕ) (job : Job) (s : JobSession S) (i t : ℕ)
        → IsReleased i t s.jobs
        → IsReleased i t (h now job s).1.jobs

  abbrev pub AreCareful : Handlers S → Type 0
  AreCareful hs = (kind : JobKind) → IsCareful (run_handler (get_handler hs kind))

  -- All jobs were executed, with a final state of which `P` holds.
  abbrev pub Ends : (Worker → JobSession S → Type 0) → Cycle S → Type 0
  Ends P (executed w s) = P w s
  Ends P (aborted w s) = ⊥

  -- One job more has been executed and is released, and what was released before still is.
  abbrev Released : Worker → Job → ℕ → List Job → Worker → JobSession S → Type 0
  Released w job token before w' s' =
      (w'.processed + w'.failed ≡ w.processed + w.failed + 1)
      × IsReleased job.id token s'.jobs
      × ((i t : ℕ) → IsReleased i t before → IsReleased i t s'.jobs)

  conclude-Released :
      (times : Times) (w : Worker) (job : Job) (token attempt : ℕ) (committed : JobSession S)
      (r : Outcome × JobSession S)
      → job.lock_token ≡ some token
      → is_broken r.0 ≡ false
      → Ends (Released w job token r.1.jobs) (conclude times w job token attempt committed r)
  unfolding conclude
  conclude-Released times w job token attempt committed (returned res, s) held whole = (
    omega arith,
    complete_job_releases times.finished job.id token res s.jobs,
    λ i t. complete_job-IsReleased times.finished i t job.id token res s.jobs,
  )
  conclude-Released times w job token attempt committed (non_retryable e, s) held whole = (
    omega arith,
    fail_job_releases times.finished times.draw token e false job s.jobs held,
    λ i t. fail_job-IsReleased times.finished times.draw i t token e false job s.jobs held,
  )
  conclude-Released times w job token attempt committed (raised type e, s) held whole =
      let summary = type ++ codes ": " ++ e in
      (
        omega arith,
        fail_job_releases times.finished times.draw token summary true job s.jobs held,
        λ i t. fail_job-IsReleased times.finished times.draw i t token summary true job s.jobs held,
      )
  conclude-Released times w job token attempt committed (broken type e, s) held whole = cc
  conclude-Released times w job token attempt committed (unflushed type e, s) held whole = cc
  conclude-Released times w job token attempt committed (refused good, s) held whole = cc

  execute-Released :
      (hs : Handlers S) (times : Times) (w : Worker) (job : Job) (token : ℕ) (s : JobSession S)
      → AreCareful hs
      → job.lock_token ≡ some token
      → Ends (Released w job token s.jobs) (execute hs times w job token s)
  unfolding execute record_attempt_start
  execute-Released hs times w job token s careful held =
      let started = record_attempt_start times.started w.worker_id job s in
      let r = run_handler (get_handler hs job.kind) times.started job started in
      widen (conclude times w job token s.uuids s r) (
        conclude-Released times w job token s.uuids s r held
          ((careful job.kind).alive times.started job started))
    where
      widen :
          (c : Cycle S)
          → Ends
              (Released w job token
                (run_handler
                  (get_handler hs job.kind)
                  times.started
                  job
                  (record_attempt_start times.started w.worker_id job s)).1.jobs)
              c
          → Ends (Released w job token s.jobs) c
      widen (executed w' s') h = (
        h.0,
        h.1,
        λ i t e. h.2 i t (
            (careful job.kind).grants_none times.started job
              (record_attempt_start times.started w.worker_id job s) i t e),
      )
      widen (aborted w' s') h = h

  abbrev Settled : Worker → List (Job × ℕ) → List Job → Worker → JobSession S → Type 0
  Settled w claimed before w' s' =
      (w'.processed + w'.failed ≡ w.processed + w.failed + length claimed)
      × AllReleased claimed s'.jobs
      × ((i t : ℕ) → IsReleased i t before → IsReleased i t s'.jobs)

  execute_each-Settled :
      (hs : Handlers S) (times : ℕ → Times) (claimed : List (Job × ℕ)) (w : Worker)
      (s : JobSession S)
      → AreCareful hs
      → AreHeld claimed
      → Ends (Settled w claimed s.jobs) (execute_each hs times claimed w s)
  unfolding execute_each
  execute_each-Settled hs times [] w s careful held = (omega arith, tt, λ i t h. h)
  execute_each-Settled hs times ((job, token) ∷ claimed) w s careful held =
      both (execute hs (times token) w job token s)
        (execute-Released hs (times token) w job token s careful held.0)
        (λ w' s'. execute_each-Settled hs times claimed w' s' careful held.1)
    where
      after :
          (w' : Worker) (s' : JobSession S) (c : Cycle S)
          → Released w job token s.jobs w' s'
          → Ends (Settled w' claimed s'.jobs) c
          → Ends (Settled w ((job, token) ∷ claimed) s.jobs) c
      after w' s' (executed w'' s'') one rest = (
        omega (arith, one.0, rest.0),
        (rest.2 job.id token one.1, rest.1),
        λ i t h. rest.2 i t (one.2 i t h),
      )
      after w' s' (aborted w'' s'') one rest = rest

      both :
          (c : Cycle S)
          → Ends (Released w job token s.jobs) c
          → ((w' : Worker) (s' : JobSession S)
              → Ends (Settled w' claimed s'.jobs) (execute_each hs times claimed w' s'))
          → Ends
              (Settled w ((job, token) ∷ claimed) s.jobs)
              (and_next c (execute_each hs times claimed))
      both (executed w' s') one rest =
          after w' s' (execute_each hs times claimed w' s') one (rest w' s')
      both (aborted w' s') one rest = one

  -- From a well-formed table, with handlers that the database does not break off and that hand out no
  -- claims, a cycle executes every job that it claims, whether its handler returns or raises: it
  -- returns their number, counts each as processed or failed, and leaves no row of the table held
  -- under a claim that it took.
  pub run_once_settles :
      (hs : Handlers S) (times : ℕ → Times) (now : ℕ) (locked : ℕ → Bool) (w : Worker)
      (s : JobSession S)
      → IsQueue s.uuids s.jobs
      → AreCareful hs
      → let (claimed, started) = claim now locked w s in
        let (n, c) = run_once hs times now locked w s in
        (n ≡ length claimed)
        × Ends
            (λ w' s'.
              (w'.processed + w'.failed ≡ w.processed + w.failed + n) × AllReleased claimed s'.jobs)
            c
  unfolding run_once
  run_once_settles hs times now locked w s q careful =
      let (claimed, started) = claim now locked w s in
      let shape =
        (claim_jobs_exclusive now w.worker_id w.concurrency [] locked s.uuids s.jobs q).1 in
      (
        refl,
        drop_kept (execute_each hs times claimed w started) (
            execute_each-Settled hs times claimed w started careful
              (claimed-AreHeld s.uuids started.uuids started.jobs claimed shape)),
      )
    where
      drop_kept :
          (c : Cycle S)
          → Ends (Settled w (claim now locked w s).0 (claim now locked w s).1.jobs) c
          → Ends
              (λ w' s'.
                (w'.processed + w'.failed
                  ≡ w.processed + w.failed + length (claim now locked w s).0)
                × AllReleased (claim now locked w s).0 s'.jobs)
              c
      drop_kept (executed w' s') h = (h.0, h.1)
      drop_kept (aborted w' s') h = h
