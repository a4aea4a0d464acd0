-- ===== src/Worker/Tests.antt =====
-- Runs of the worker of services/backend/app/workers/worker.py, and its theorems at concrete inputs.
use chrome_chatgpt_data.Prelude.{
  ℕ, ◌+◌, ◌*◌, ◌≡◌, refl, false, none, some, List, [], ◌∷◌, length, arith,
}
use chrome_chatgpt_data.Prelude.Texts.{codes}
use chrome_chatgpt_data.Enums.{
  JobKind, JobStatus, archive_raw_event, build_conversation_snapshot, maintain_partitions,
  retention_sweep, cleanup_stale,
}
use chrome_chatgpt_data.Jobs.{Job, plain_text, second}
use chrome_chatgpt_data.Jobs.Keeps.{IsQueue}
use chrome_chatgpt_data.Worker.{
  Worker, JobSession, Handler, Handlers, Times, returned, non_retryable, raised, get_handler,
  record_attempt_start, execute,
}
use chrome_chatgpt_data.Worker.Loop.{claim, run_once, ensure_periodic_jobs}
use chrome_chatgpt_data.Worker.Settles.{IsCareful, AreCareful, AllReleased, Ends, run_once_settles}
use chrome_chatgpt_data.Worker.Outcomes.{Concluded, execute_outcome}
use chrome_chatgpt_data.Worker.Periodic.{IsEnsured, ensure_periodic_jobs_once}

-- A store that nothing writes, and handlers that answer, give up and fail.
abbrev NoStore : Type 0
NoStore = ℕ

abbrev answers : Handler NoStore
answers now job s = (returned (("note", plain_text "done") ∷ []), s)

abbrev gives_up : Handler NoStore
gives_up now job s = (non_retryable (codes "message no longer exists"), s)

abbrev fails : Handler NoStore
fails now job s = (raised (codes "UpstreamError") (codes "read failed"), s)

abbrev handlers : Handlers NoStore
handlers = record {
  handle_archive_raw_event = answers;
  handle_build_snapshot = fails;
  handle_finalize_attachment = answers;
  handle_reconcile_partial = gives_up;
  handle_run_export = answers;
  handle_retention_sweep = answers;
  handle_maintain_partitions = answers;
  handle_cleanup_stale = answers;
  handle_compliance_sync = answers;
}

answers-IsCareful : IsCareful answers
answers-IsCareful = record { alive = λ now job s. refl; grants_none = λ now job s i t h. h }

gives_up-IsCareful : IsCareful gives_up
gives_up-IsCareful = record { alive = λ now job s. refl; grants_none = λ now job s i t h. h }

fails-IsCareful : IsCareful fails
fails-IsCareful = record { alive = λ now job s. refl; grants_none = λ now job s i t h. h }

handlers-AreCareful : AreCareful handlers
unfolding get_handler
handlers-AreCareful JobKind.archive_raw_event = answers-IsCareful
handlers-AreCareful JobKind.build_conversation_snapshot = fails-IsCareful
handlers-AreCareful JobKind.finalize_attachment = answers-IsCareful
handlers-AreCareful JobKind.reconcile_partial = gives_up-IsCareful
handlers-AreCareful JobKind.run_export = answers-IsCareful
handlers-AreCareful JobKind.retention_sweep = answers-IsCareful
handlers-AreCareful JobKind.maintain_partitions = answers-IsCareful
handlers-AreCareful JobKind.cleanup_stale = answers-IsCareful
handlers-AreCareful JobKind.compliance_sync = answers-IsCareful

abbrev worker : Worker
worker = record {
  worker_id = "host:7";
  concurrency = 2;
  last_periodic = (retention_sweep, 5) ∷ [];
  processed = 0;
  failed = 0;
}

abbrev queued : ℕ → JobKind → Job
queued i kind = record {
  id = i;
  organization_id = none;
  kind = kind;
  status = JobStatus.pending;
  priority = 100;
  payload = [];
  dedupe_key = none;
  attempts = 0;
  max_attempts = 8;
  run_after = 10;
  created_at = 10;
  locked_at = none;
  locked_by = none;
  lock_token = none;
  started_at = none;
  finished_at = none;
  error_summary = none;
  result = [];
}

abbrev session : List Job → JobSession NoStore
session jobs = record { uuids = 2; jobs = jobs; attempts = []; store = 0 }

abbrev two_jobs : List Job
two_jobs = queued 0 archive_raw_event ∷ queued 1 build_conversation_snapshot ∷ []

abbrev times : ℕ → Times
times t = record { started = 20; finished = 30; draw = 0 }

two_jobs-IsQueue : IsQueue 2 two_jobs
two_jobs-IsQueue = record {
  locked = ground arith;
  single_live = λ k. omega arith;
  unique_id = λ i. ground arith;
  fresh = omega arith;
}

run_once_settles_example :
    let (claimed, started) = claim 15 (λ i. false) worker (session two_jobs) in
    let (n, c) = run_once handlers times 15 (λ i. false) worker (session two_jobs) in
    (n ≡ length claimed)
    × Ends
        (λ w' s'.
          (w'.processed + w'.failed ≡ worker.processed + worker.failed + n)
          × AllReleased claimed s'.jobs)
        c
run_once_settles_example =
    run_once_settles handlers times 15 (λ i. false) worker (session two_jobs) two_jobs-IsQueue
      handlers-AreCareful

abbrev held : Job
held = record (queued 1 build_conversation_snapshot) {
  status = JobStatus.running;
  attempts = 1;
  locked_at = some 15;
  locked_by = some "host:7";
  lock_token = some 4;
  started_at = some 15;
}

execute_outcome_example :
    Concluded
      (times 4)
      worker
      held
      (session (held ∷ []))
      (raised (codes "UpstreamError") (codes "read failed"))
      (execute handlers (times 4) worker held 4 (session (held ∷ [])))
unfolding record_attempt_start get_handler
execute_outcome_example =
    execute_outcome handlers (times 4) worker held 4 (session (held ∷ [])) (omega arith) refl refl

ensure_periodic_jobs_once_example :
    let (w', s') = ensure_periodic_jobs 100 15 worker (session two_jobs) in
    IsQueue s'.uuids s'.jobs
    × IsEnsured 100 15 maintain_partitions (6 * 3600 * second) worker w' s'
    × IsEnsured 100 15 retention_sweep (24 * 3600 * second) worker w' s'
    × IsEnsured 100 15 cleanup_stale (12 * 3600 * second) worker w' s'
ensure_periodic_jobs_once_example =
    ensure_periodic_jobs_once 100 15 worker (session two_jobs) two_jobs-IsQueue
