-- ===== src/Worker/Outcomes.antt =====
-- services/backend/app/workers/worker.py, `_execute`: what becomes of a job by how its handler ends.
use chrome_chatgpt_data.Prelude.{
  ℕ, ◌+◌, ◌^◌, ◌<◌, ◌≡◌, refl, Bool, true, false, some, none, List, ◌++◌,
}
use chrome_chatgpt_data.Prelude.Rows.{find}
use chrome_chatgpt_data.Prelude.Texts.{codes}
use chrome_chatgpt_data.Enums.{JobStatus}
use chrome_chatgpt_data.Jobs.{Job, has_id}
use chrome_chatgpt_data.Jobs.Retry.{HasFailed, fail_job_outcome}
use chrome_chatgpt_data.Jobs.Release.{complete_job_outcome}
use chrome_chatgpt_data.Worker.{
  Worker, JobSession, Handlers, Times, Outcome, returned, non_retryable, raised, broken, unflushed,
  refused, Cycle, executed, aborted, get_handler, run_handler, record_attempt_start, conclude,
  execute,
}

-- The row of the job as a failure of the given sort leaves it.
abbrev pub RowFailed : Times → Bool → Job → List Job → Type 0
RowFailed times retryable job jobs =
    (r : Job) × (find (has_id job.id) jobs ≡ some r) × HasFailed times.finished retryable job r

module _ {S : Type 0} where
  -- What `_execute` makes of an outcome: the counts of the worker and the row of the job; or the
  -- session as it was committed before.
  abbrev pub Concluded : Times → Worker → Job → JobSession S → Outcome → Cycle S → Type 0
  Concluded times w job committed (returned res) (executed w' s') =
      (w' ≡ record w { processed = w.processed + 1 })
      × (r : Job) × (find (has_id job.id) s'.jobs ≡ some r)
      × (r.status ≡ JobStatus.succeeded)
      × (r.result ≡ res)
      × (r.lock_token ≡ none)
      × (r.finished_at ≡ some times.finished)
  Concluded times w job committed (non_retryable e) (executed w' s') =
      (w' ≡ record w { failed = w.failed + 1 }) × RowFailed times false job s'.jobs
  Concluded times w job committed (raised type e) (executed w' s') =
      (w' ≡ record w { failed = w.failed + 1 }) × RowFailed times true job s'.jobs
  Concluded times w job committed (broken type e) (aborted w' s') =
      (w' ≡ record w { failed = w.failed + 1 }) × (s' ≡ committed)
  Concluded times w job committed (unflushed type e) (aborted w' s') = (w' ≡ w) × (s' ≡ committed)
  Concluded times w job committed (refused true) (aborted w' s') =
      (w' ≡ record w { processed = w.processed + 1 }) × (s' ≡ committed)
  Concluded times w job committed (refused false) (aborted w' s') =
      (w' ≡ record w { failed = w.failed + 1 }) × (s' ≡ committed)
  Concluded times w job committed o c = ⊥

  conclude-Concluded :
      (times : Times) (w : Worker) (job : Job) (token attempt : ℕ) (committed : JobSession S)
      (r : Outcome × JobSession S)
      → times.draw < 2 ^ 53
      → job.lock_token ≡ some token
      → find (has_id job.id) r.1.jobs ≡ some job
      → Concluded times w job committed r.0 (conclude times w job token attempt committed r)
  unfolding conclude
  conclude-Concluded times w job token attempt committed (returned res, s) draw held kept = (
    refl,
    _,
    complete_job_outcome times.finished token res job s.jobs kept held,
    refl,
    refl,
    refl,
    refl,
  )
  conclude-Concluded times w job token attempt committed (non_retryable e, s) draw held kept =
      let (done, r, found, failed) =
        fail_job_outcome times.finished times.draw job.id token (some job) e false s.jobs job draw
          kept kept held in
      (refl, (r, found, failed))
  conclude-Concluded times w job token attempt committed (raised type e, s) draw held kept =
      let (done, r, found, failed) =
        fail_job_outcome times.finished times.draw job.id token (some job) (type ++ codes ": " ++ e)
          true s.jobs job draw kept kept held in
      (refl, (r, found, failed))
  conclude-Concluded times w job token attempt committed (broken type e, s) draw held kept =
      (refl, refl)
  conclude-Concluded times w job token attempt committed (unflushed type e, s) draw held kept =
      (refl, refl)
  conclude-Concluded times w job token attempt committed (refused true, s) draw held kept =
      (refl, refl)
  conclude-Concluded times w job token attempt committed (refused false, s) draw held kept =
      (refl, refl)

  -- A claimed job whose handler leaves its row alone ends by the handler's outcome: succeeded with the
  -- result that the handler returned, unlocked; dead after NonRetryableError; after another exception
  -- pending again within five seconds to an hour, or failed once its attempts are used up; each is
  -- counted once. If the database broke the handler off, or refuses its writes at the commit, the batch
  -- stops and the session is back at its last commit, where the job is still claimed: a refused
  -- statement counts as a failure, a failing flush is not counted at all, and a refused commit counts
  -- as the handler had ended.
  pub execute_outcome :
      (hs : Handlers S) (times : Times) (w : Worker) (job : Job) (token : ℕ) (s : JobSession S)
      → times.draw < 2 ^ 53
      → job.lock_token ≡ some token
      → let r =
          run_handler
            (get_handler hs job.kind)
            times.started
            job
            (record_attempt_start times.started w.worker_id job s) in
        find (has_id job.id) r.1.jobs ≡ some job
        → Concluded times w job s r.0 (execute hs times w job token s)
  unfolding execute
  execute_outcome hs times w job token s draw held kept =
      conclude-Concluded times w job token s.uuids s _ draw held kept
