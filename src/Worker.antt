-- ===== src/Worker.antt =====
-- services/backend/app/workers/worker.py: the execution of claimed jobs. The tables that the
-- queue does not own are a type `S`; a cycle runs in one session, whose state is the record `JobSession`.
pub mod Loop
pub mod Settles
pub mod Outcomes
pub mod Periodic
mod Tests
use chrome_chatgpt_data.Prelude.{
  ℕ, zero, suc, ◌+◌, ◌-◌, ◌*◌, ◌/◌, min, String, Bool, true, false, not, Option, none, some, List,
  [], ◌∷◌, ◌++◌, length, leb, ◌==◌, if◌then◌else◌, take,
}
use chrome_chatgpt_data.Prelude.Rows.{update}
use chrome_chatgpt_data.Prelude.Texts.{Text, codes}
use chrome_chatgpt_data.Enums.{
  JobKind, archive_raw_event, build_conversation_snapshot, finalize_attachment, run_export,
  retention_sweep, compliance_sync, reconcile_partial, maintain_partitions, cleanup_stale, kind_eq,
}
use chrome_chatgpt_data.Jobs.{
  Job, JobIn, Payload, plain_text, periodic_key, second, enqueue_job, complete_job, fail_job,
  recover_stale_jobs,
}
use chrome_chatgpt_data.Jobs.Claim.{claim_jobs}

pub record JobAttempt : Type 0 where
  pub id : ℕ
  pub job_id : ℕ
  pub attempt_number : ℕ
  pub worker_id : String
  pub started_at : ℕ
  pub finished_at : Option ℕ
  pub duration_ms : Option ℕ
  pub succeeded : Option Bool
  pub error_type : Option Text
  pub error_summary : Option Text
  pub recovered_stale_lock : Bool

pub record JobSession (S : Type 0) : Type 0 where
  pub uuids : ℕ
  pub jobs : List Job
  pub attempts : List JobAttempt
  pub store : S

-- How a handler ends: with a result; with NonRetryableError and its text; with another exception, by
-- its type and text; with one that the database raised for a statement, after which it refuses every
-- statement until the session is rolled back; with one that a flush raised, after which the session is
-- rolled back and its rows are expired; or, with a result or an exception, after writes that it has not
-- flushed and that the database will refuse at the commit.
pub data Outcome : Type 0 where
  returned : Payload → Outcome
  non_retryable : Text → Outcome
  raised : Text → Text → Outcome
  broken : Text → Text → Outcome
  unflushed : Text → Text → Outcome
  refused : Bool → Outcome

-- A handler, with the clock reading of its run.
abbrev pub Handler : Type 0 → Type 0
Handler S = ℕ → Job → JobSession S → Outcome × JobSession S

-- `HANDLERS`
pub record Handlers (S : Type 0) : Type 0 where
  pub handle_archive_raw_event : Handler S
  pub handle_build_snapshot : Handler S
  pub handle_finalize_attachment : Handler S
  pub handle_reconcile_partial : Handler S
  pub handle_run_export : Handler S
  pub handle_retention_sweep : Handler S
  pub handle_maintain_partitions : Handler S
  pub handle_cleanup_stale : Handler S
  pub handle_compliance_sync : Handler S

pub record Worker : Type 0 where
  pub worker_id : String
  pub concurrency : ℕ
  pub last_periodic : List (JobKind × ℕ)
  pub processed : ℕ
  pub failed : ℕ

-- The clock readings of one execution, and the draw of the backoff.
pub record Times : Type 0 where
  pub started : ℕ
  pub finished : ℕ
  pub draw : ℕ

-- How the jobs of a cycle end: all executed, each committed; or with an exception out of `run_once`,
-- by which the session has gone back to its last commit.
pub data Cycle (S : Type 0) : Type 0 where
  executed : Worker → JobSession S → Cycle S
  aborted : Worker → JobSession S → Cycle S

abbrev pub and_next : {S : Type 0} → Cycle S → (Worker → JobSession S → Cycle S) → Cycle S
and_next (executed w s) k = k w s
and_next (aborted w s) k = aborted w s

-- What `_execute` writes to the attempt, in its branch and in `finally`.
abbrev pub end_attempt :
    Times → ℕ → Bool → Option Text → Option Text → List JobAttempt → List JobAttempt
end_attempt times id good type summary =
    update (λ a. a.id == id)
      (λ a. record a {
        succeeded = some good;
        error_type = type;
        error_summary = summary;
        finished_at = some times.finished;
        duration_ms = some ((times.finished - times.started) / 1000);
      })

module _ {S : Type 0} where
  unfoldable pub get_handler : Handlers S → JobKind → Option (Handler S)
  get_handler hs archive_raw_event = some hs.handle_archive_raw_event
  get_handler hs build_conversation_snapshot = some hs.handle_build_snapshot
  get_handler hs finalize_attachment = some hs.handle_finalize_attachment
  get_handler hs reconcile_partial = some hs.handle_reconcile_partial
  get_handler hs run_export = some hs.handle_run_export
  get_handler hs retention_sweep = some hs.handle_retention_sweep
  get_handler hs maintain_partitions = some hs.handle_maintain_partitions
  get_handler hs cleanup_stale = some hs.handle_cleanup_stale
  get_handler hs compliance_sync = some hs.handle_compliance_sync

  abbrev pub run_handler : Option (Handler S) → Handler S
  run_handler none now job s = (non_retryable (codes "no handler registered for job kind"), s)
  run_handler (some h) now job s = h now job s

  -- `jobs_service.record_attempt_start`
  unfoldable pub record_attempt_start : ℕ → String → Job → JobSession S → JobSession S
  record_attempt_start now worker_id job s = record s {
    uuids = s.uuids + 1;
    attempts =
        s.attempts
        ++ record {
          id = s.uuids;
          job_id = job.id;
          attempt_number = job.attempts;
          worker_id = worker_id;
          started_at = now;
          finished_at = none;
          duration_ms = none;
          succeeded = none;
          error_type = none;
          error_summary = none;
          recovered_stale_lock = false;
        }
          ∷ [];
  }

  -- A failure: the attempt, `fail_job` with the session's copy of the job, and the count.
  unfoldable pub fail_with :
      Times → Worker → Job → ℕ → ℕ → Text → Text → Bool → JobSession S → Cycle S
  fail_with times w job token attempt type summary retryable s =
      executed (record w { failed = w.failed + 1 })
        (record s {
          attempts =
              end_attempt times attempt false (some type) (some (take 2000 summary)) s.attempts;
          jobs =
              (fail_job times.finished times.draw (some job) job.id token summary retryable
                s.jobs).1;
        })

  unfoldable pub conclude :
      Times → Worker → Job → ℕ → ℕ → JobSession S → Outcome × JobSession S → Cycle S
  unfolding fail_with
  conclude times w job token attempt committed (returned res, s) =
      executed (record w { processed = w.processed + 1 })
        (record s {
          attempts = end_attempt times attempt true none none s.attempts;
          jobs = (complete_job times.finished job.id token (some res) s.jobs).1;
        })
  conclude times w job token attempt committed (non_retryable e, s) =
      fail_with times w job token attempt (codes "NonRetryableError") e false s
  conclude times w job token attempt committed (raised type e, s) =
      fail_with times w job token attempt type (type ++ codes ": " ++ e) true s
  conclude times w job token attempt committed (broken type e, s) =
      aborted (record w { failed = w.failed + 1 }) committed
  conclude times w job token attempt committed (unflushed type e, s) = aborted w committed
  conclude times w job token attempt committed (refused good, s) =
      aborted
        (if good
          then record w { processed = w.processed + 1 }
          else record w { failed = w.failed + 1 })
        committed

  -- `_execute`. `fail_job` answers from the session's copy and runs no statement, so that after a
  -- refused statement the failure is counted; after a failing flush `job.id` is expired, and raises
  -- before the count. A commit in `finally` that fails is suppressed, and what uses the session next,
  -- the following job or the end of the cycle, raises.
  unfoldable pub execute : Handlers S → Times → Worker → Job → ℕ → JobSession S → Cycle S
  unfolding conclude
  execute hs times w job token s = conclude times w job token s.uuids s (
      run_handler (get_handler hs job.kind) times.started job
        (record_attempt_start times.started w.worker_id job s))

  unfoldable pub execute_each :
      Handlers S → (ℕ → Times) → List (Job × ℕ) → Worker → JobSession S → Cycle S
  execute_each hs times [] w s = executed w s
  execute_each hs times ((job, token) ∷ claimed) w s =
      and_next (execute hs (times token) w job token s) (execute_each hs times claimed)
