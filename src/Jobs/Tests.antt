-- ===== src/Jobs/Tests.antt =====
-- Runs of the job queue of services/backend/app/services/jobs.py, and its theorems at concrete inputs.
use chrome_chatgpt_data.Prelude.{
  ℕ, ◌+◌, ◌≤◌, ◌<◌, ◌≡◌, refl, true, false, none, some, List, [], ◌∷◌, arith, length,
}
use chrome_chatgpt_data.Prelude.Rows.{find}
use chrome_chatgpt_data.Prelude.Texts.{codes}
use chrome_chatgpt_data.Enums.{JobStatus, archive_raw_event, is_running, is_pending}
use chrome_chatgpt_data.Jobs.{
  Job, JobIn, archive_key, has_id, enqueue_job, complete_job, fail_job, recover_stale_jobs,
}
use chrome_chatgpt_data.Jobs.Recovery.{recovered_runs_again}
use chrome_chatgpt_data.Jobs.Keeps.{IsQueue}
use chrome_chatgpt_data.Jobs.Claim.{runnable, claim_jobs}
use chrome_chatgpt_data.Jobs.Claim.Exclusive.{AreClaimed, claim_jobs_exclusive}
use chrome_chatgpt_data.Jobs.Retry.{fail_job_ignores_takeover, failed_rounds, failed_rounds_bury}
use chrome_chatgpt_data.Jobs.Steps.{Queue, here, next, enqueue, claim, Reach-IsQueue}

abbrev order : ℕ → ℕ → JobIn
order n priority = record {
  kind = archive_raw_event;
  payload = [];
  organization_id = some 1;
  dedupe_key = some (archive_key n);
  priority = priority;
  run_after = none;
  max_attempts = 2;
}

abbrev waiting : ℕ → ℕ → Job
waiting i priority = record {
  id = i;
  organization_id = some 1;
  kind = archive_raw_event;
  status = JobStatus.pending;
  priority = priority;
  payload = [];
  dedupe_key = some (archive_key i);
  attempts = 0;
  max_attempts = 2;
  run_after = 10;
  created_at = 10;
  locked_at = none;
  locked_by = none;
  lock_token = none;
  started_at = none;
  finished_at = none;
  error_summary = none;
  result = [];
}

abbrev two_waiting : List Job
two_waiting = waiting 0 100 ∷ waiting 1 50 ∷ []

abbrev running_under : ℕ → Job
running_under token = record (waiting 0 100) {
  status = JobStatus.running;
  locked_at = some 20;
  locked_by = some "w";
  lock_token = some token;
  started_at = some 20;
  attempts = 1;
}

two_waiting-IsQueue : IsQueue 2 two_waiting
two_waiting-IsQueue = record {
  locked = ground arith;
  single_live = λ k. ground arith;
  unique_id = λ i. ground arith;
  fresh = omega arith;
}

running-IsQueue : IsQueue 9 (running_under 7 ∷ [])
running-IsQueue = record {
  locked = ground arith;
  single_live = λ k. ground arith;
  unique_id = λ i. ground arith;
  fresh = omega arith;
}

enqueue_dedupes : (enqueue_job 30 2 (order 0 100) two_waiting) ≡ (none, two_waiting)
unfolding enqueue_job
enqueue_dedupes = refl

claims_by_priority : (claim_jobs 30 "w" 1 [] (λ i. false) 5 two_waiting).1 ≡ 6
unfolding claim_jobs
claims_by_priority = refl

claim_jobs_exclusive_example :
    let (claimed, uuid', jobs') = claim_jobs 30 "w" 1 [] (λ i. false) 2 two_waiting in
    (length claimed ≤ 1)
    × AreClaimed 2 uuid' jobs' claimed
    × ((i : ℕ) (j : Job)
        → find (has_id i) two_waiting ≡ some j
        → is_pending j.status ≡ false
        → find (has_id i) jobs' ≡ some j)
claim_jobs_exclusive_example =
    claim_jobs_exclusive 30 "w" 1 [] (λ i. false) 2 two_waiting two_waiting-IsQueue

fail_job_ignores_takeover_example :
    let (done, jobs') =
      fail_job 40 0 (some (running_under 6)) 0 6 (codes "late") true (running_under 7 ∷ []) in
    (done ≡ true)
    × (r : Job) × (find (has_id 0) jobs' ≡ some r)
    × (r.lock_token ≡ none)
    × (is_running r.status ≡ false)
fail_job_ignores_takeover_example =
    fail_job_ignores_takeover 40 0 0 6 (running_under 6) (codes "late") true (running_under 7 ∷ [])
      (running_under 7) refl refl refl (λ e. ground arith)

failed_rounds_bury_example :
    let r = failed_rounds "w" (codes "no") ((20, 0) ∷ (30, 1) ∷ []) (waiting 0 100) in
    (0 + 2 < 2 → r.status ≡ JobStatus.pending)
    × (1 ≤ 2 → 0 + 2 ≡ 2 → (r.status ≡ JobStatus.failed) × (r.attempts ≡ 2))
failed_rounds_bury_example =
    failed_rounds_bury "w" (codes "no") ((20, 0) ∷ (30, 1) ∷ []) (waiting 0 100) refl

abbrev one_claimed : Queue
one_claimed = record {
  uuids = (claim_jobs 30 "w" 1 [] (λ i. false) 1 (enqueue_job 10 0 (order 0 100) []).1).1;
  rows = (claim_jobs 30 "w" 1 [] (λ i. false) 1 (enqueue_job 10 0 (order 0 100) []).1).2;
}

Reach-IsQueue_example : IsQueue one_claimed.uuids one_claimed.rows
Reach-IsQueue_example =
    Reach-IsQueue (next (next here (enqueue 10 (order 0 100))) (claim 30 "w" 1 [] (λ i. false)))

recovered_runs_again_example :
    let jobs' = (recover_stale_jobs 900 100 (running_under 7 ∷ [])).1 in
    (r : Job) × (find (has_id 0) jobs' ≡ some r)
    × (runnable 900 [] r ≡ true)
    × (r.attempts ≡ (running_under 7).attempts)
    × (complete_job 950 0 7 none jobs' ≡ (false, jobs'))
recovered_runs_again_example =
    recovered_runs_again 9 900 950 100 0 20 7 none (running_under 7 ∷ []) (running_under 7)
      running-IsQueue refl refl refl (omega arith)
