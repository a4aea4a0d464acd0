-- ===== src/Jobs/Recovery.antt =====
-- services/backend/app/services/jobs.py, `recover_stale_jobs`: what becomes of the job of a worker that
-- died.
use chrome_chatgpt_data.Prelude.{
  ℕ, ◌+◌, ◌<◌, ◌≡◌, refl, ◌∙◌, true, false, Option, some, List, [], arith,
}
use chrome_chatgpt_data.Prelude.Rows.{find, find-update, find_unique, update_none}
use chrome_chatgpt_data.Enums.{is_running}
use chrome_chatgpt_data.Jobs.{
  Job, Payload, owns, has_id, mark_succeeded, mark_recovered, complete_job, recover_stale_jobs,
  is_stale,
}
use chrome_chatgpt_data.Jobs.Claim.{runnable}
use chrome_chatgpt_data.Jobs.Keeps.{IsQueue, recover_stale_jobs-IsQueue}
use chrome_chatgpt_data.Jobs.Retry.{not_owned}

-- A running job whose lock is older than the threshold is taken back: its row is pending, may be
-- claimed at once and has the attempts that it had, however many these are and whatever its limit is,
-- and a late completion under the old token returns false and changes nothing.
pub recovered_runs_again :
    (uuid now later threshold i t token : ℕ) (res : Option Payload) (jobs : List Job) (j : Job)
    → IsQueue uuid jobs
    → find (has_id i) jobs ≡ some j
    → is_running j.status ≡ true
    → j.locked_at ≡ some t
    → t + threshold < now
    → let jobs' = (recover_stale_jobs now threshold jobs).1 in
      (r : Job) × (find (has_id i) jobs' ≡ some r)
      × (runnable now [] r ≡ true)
      × (r.attempts ≡ j.attempts)
      × (complete_job later i token res jobs' ≡ (false, jobs'))
unfolding recover_stale_jobs runnable complete_job
recovered_runs_again uuid now later threshold i t token res jobs j q found runs since old =
    let r = mark_recovered now j in
    let stale : is_stale now threshold j ≡ true = rw (runs, since) (ground arith) in
    let found' =
      find-update (has_id i) (is_stale now threshold) (mark_recovered now) jobs j (λ x. refl) found
      ∙ ground arith in
    let q' = recover_stale_jobs-IsQueue uuid now threshold jobs q in
    let free = not_owned i token _ r (find_unique (has_id i) _ r (q'.unique_id i) found') refl in
    (
      r,
      found',
      ground arith,
      refl,
      rw (free, update_none (owns i token) (mark_succeeded later res) _ free) refl,
    )
