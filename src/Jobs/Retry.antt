-- ===== src/Jobs/Retry.antt =====
-- services/backend/app/services/jobs.py, `complete_job` and `fail_job`: who may end a job, and what
-- becomes of a job that fails.
use chrome_chatgpt_data.Prelude.{
  ℕ, ◌+◌, ◌*◌, ◌^◌, ◌≤◌, ◌<◌, ◌≡◌, ◌≢◌, refl, ap, ◌∙◌, Bool, true, false, Option, none, some, List,
  [], ◌∷◌, ◌==◌, holds_num, All, All-implies, length, String, arith, Bool-cases, inl, inr,
}
use chrome_chatgpt_data.Prelude.Rows.{
  any, find, find-update, find_unique, find-eq_some, update_none, any_none,
}
use chrome_chatgpt_data.Prelude.Texts.{Text}
use chrome_chatgpt_data.Enums.{JobStatus, is_running}
use chrome_chatgpt_data.Jobs.{
  Job, Payload, second, max_backoff_seconds, base_backoff_seconds, owns, has_id, mark_succeeded,
  complete_job, reschedule, fail_job,
}
use chrome_chatgpt_data.Jobs.Claim.{mark_claimed}
use chrome_chatgpt_data.Jobs.Backoff.{backoff_delay_bounds}
use chrome_chatgpt_data.Jobs.Keeps.{IsQueue, IsCurrent, session_get_current, reschedule-id}

pub not_owned :
    (i token : ℕ) (jobs : List Job) (j : Job)
    → All (λ x. has_id i x ≡ true → x ≡ j) jobs
    → holds_num j.lock_token token ≡ false
    → any (owns i token) jobs ≡ false
not_owned i token jobs j one other = any_none (owns i token) jobs (
    All-implies (λ x. has_id i x ≡ true → x ≡ j) (λ x. owns i token x ≡ false) jobs
      (λ x same. elim (Bool-cases (has_id i x)) [
        | inl e ↦ rw (same e) (ground arith)
        | inr e ↦ ground arith
      ])
      one)

-- A worker whose token is not on the row, since the job was recovered, taken over or finished,
-- neither completes nor fails it: with the row as its session's copy, both calls return false and
-- leave the table as it is.
pub lost_lock_changes_nothing :
    (uuid now k i token : ℕ) (res : Option Payload) (loaded : Option Job) (summary : Text)
    (retryable : Bool) (jobs : List Job) (j : Job)
    → IsQueue uuid jobs
    → IsCurrent loaded jobs
    → find (has_id i) jobs ≡ some j
    → j.lock_token ≢ some token
    → (complete_job now i token res jobs ≡ (false, jobs))
      × (fail_job now k loaded i token summary retryable jobs ≡ (false, jobs))
unfolding complete_job fail_job
lost_lock_changes_nothing uuid now k i token res loaded summary retryable jobs j q c found other =
    let wrong : holds_num j.lock_token token ≡ false = ground arith in
    let free =
      not_owned i token jobs j (find_unique (has_id i) jobs j (q.unique_id i) found) wrong in
    (
      rw (free, update_none (owns i token) (mark_succeeded now res) jobs free) refl,
      rw (session_get_current loaded i jobs c) (rw found (rw wrong refl)),
    )

-- A row after a failure: back in the queue between five seconds and an hour from now while
-- attempts are left, else finished as failed, and dead when a retry cannot help.
abbrev pub HasFailed : ℕ → Bool → Job → Job → Type 0
HasFailed now retryable j r =
    (r.lock_token ≡ none)
    × (r.locked_at ≡ none)
    × (r.attempts ≡ j.attempts)
    × (retryable ≡ true
        → j.attempts < j.max_attempts
        → (r.status ≡ JobStatus.pending)
          × (now + base_backoff_seconds * second ≤ r.run_after)
          × (r.run_after ≤ now + max_backoff_seconds * second)
          × (r.finished_at ≡ j.finished_at))
    × (retryable ≡ true
        → j.max_attempts ≤ j.attempts
        → (r.status ≡ JobStatus.failed) × (r.finished_at ≡ some now))
    × (retryable ≡ false → (r.status ≡ JobStatus.dead) × (r.finished_at ≡ some now))

reschedule-HasFailed :
    (now k : ℕ) (summary : Text) (retryable : Bool) (j : Job)
    → k < 2 ^ 53
    → HasFailed now retryable j (reschedule now k summary retryable j j)
unfolding reschedule
reschedule-HasFailed now k summary retryable j h =
    let bounds = backoff_delay_bounds j.attempts k h in ground arith

-- The holder of the lock fails its job on every branch: the call returns true, and the row that the
-- id finds is rescheduled within five seconds to an hour while retryable attempts are left, else
-- failed, or dead if not retryable; the lock is released and the attempts stay.
pub fail_job_outcome :
    (now k i token : ℕ) (loaded : Option Job) (summary : Text) (retryable : Bool) (jobs : List Job)
    (j : Job)
    → k < 2 ^ 53
    → IsCurrent loaded jobs
    → find (has_id i) jobs ≡ some j
    → j.lock_token ≡ some token
    → let (done, jobs') = fail_job now k loaded i token summary retryable jobs in
      (done ≡ true) × (r : Job) × (find (has_id i) jobs' ≡ some r) × HasFailed now retryable j r
unfolding fail_job
fail_job_outcome now k i token loaded summary retryable jobs j draw c found held =
    let mine : holds_num j.lock_token token ≡ true = ground arith in
    let named = find-eq_some (has_id i) jobs j found in
    let f = reschedule now k summary retryable j in
    rw (session_get_current loaded i jobs c) (
      rw found (
        rw mine (
          refl,
          f j,
          find-update (has_id i) (has_id i) f jobs j
                (λ x. ap (λ n. n == i) (reschedule-id now k summary retryable j x)) found
              ∙ ground arith,
          reschedule-HasFailed now k summary retryable j draw,
        )))

-- The guard of `fail_job` tests the copy that the session loaded. If another worker has taken the
-- job over since, or has finished it, the call still returns true and takes the row away from that
-- worker: the new row has no lock and does not run, whatever the row's present token.
pub fail_job_ignores_takeover :
    (now k i token : ℕ) (seen : Job) (summary : Text) (retryable : Bool) (jobs : List Job) (j : Job)
    → seen.id ≡ i
    → seen.lock_token ≡ some token
    → find (has_id i) jobs ≡ some j
    → j.lock_token ≢ some token
    → let (done, jobs') = fail_job now k (some seen) i token summary retryable jobs in
      (done ≡ true)
      × (r : Job) × (find (has_id i) jobs' ≡ some r)
      × (r.lock_token ≡ none)
      × (is_running r.status ≡ false)
unfolding fail_job
fail_job_ignores_takeover now k i token seen summary retryable jobs j same held found other =
    let mine : holds_num seen.lock_token token ≡ true = ground arith in
    let loaded : has_id i seen ≡ true = ground arith in
    let named = find-eq_some (has_id i) jobs j found in
    let f = reschedule now k summary retryable seen in
    rw loaded (
      rw mine (
        refl,
        f j,
        find-update (has_id i) (has_id i) f jobs j
              (λ x. ap (λ n. n == i) (reschedule-id now k summary retryable seen x)) found
            ∙ ground arith,
        unfold reschedule in ground arith,
        unfold reschedule in ground arith,
      ))

-- A claim followed by a failure that may be retried, for each draw of the clock and of the backoff.
pub failed_rounds : String → Text → List (ℕ × ℕ) → Job → Job
unfolding reschedule
failed_rounds worker_id summary [] j = j
failed_rounds worker_id summary ((now, k) ∷ draws) j =
    let c = mark_claimed now worker_id k j in
    failed_rounds worker_id summary draws (reschedule now k summary true c c)

-- One such round counts an attempt, and leaves the job pending or failed by the attempts left.
failed_round :
    (now k : ℕ) (worker_id : String) (summary : Text) (j : Job)
    → let c = mark_claimed now worker_id k j in
      let r = reschedule now k summary true c c in
      (r.attempts ≡ j.attempts + 1)
      × (r.max_attempts ≡ j.max_attempts)
      × (j.attempts + 1 < j.max_attempts → r.status ≡ JobStatus.pending)
      × (j.max_attempts ≤ j.attempts + 1 → r.status ≡ JobStatus.failed)
unfolding reschedule
failed_round now k worker_id summary j = ground arith

-- A job that fails every time is not retried for ever: as long as fewer rounds than the attempts
-- left have failed it is pending again, and with the last of them it is failed.
pub failed_rounds_bury :
    (worker_id : String) (summary : Text) (draws : List (ℕ × ℕ)) (j : Job)
    → j.status ≡ JobStatus.pending
    → let r = failed_rounds worker_id summary draws j in
      (j.attempts + length draws < j.max_attempts → r.status ≡ JobStatus.pending)
      × (1 ≤ length draws
          → j.attempts + length draws ≡ j.max_attempts
          → (r.status ≡ JobStatus.failed) × (r.attempts ≡ j.max_attempts))
unfolding failed_rounds
failed_rounds_bury worker_id summary [] j p = (λ lt. p, λ h. absurd (omega arith))
failed_rounds_bury worker_id summary ((now, k) ∷ []) j p =
    let (more, same, again, over) = failed_round now k worker_id summary j in
    (λ lt. again (omega arith), λ _ e. (over (omega arith), omega arith))
failed_rounds_bury worker_id summary ((now, k) ∷ d ∷ draws) j p =
    let (more, same, again, over) = failed_round now k worker_id summary j in
    let c = mark_claimed now worker_id k j in
    let ih = failed_rounds_bury worker_id summary (d ∷ draws) (reschedule now k summary true c c) in
    (
      λ lt. (ih (again (omega arith))).0 (omega arith),
      λ _ e.
          let (buried, all) = (ih (again (omega arith))).1 (omega arith) (omega arith) in
          (buried, all ∙ same),
    )
