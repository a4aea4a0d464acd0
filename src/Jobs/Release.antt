-- ===== src/Jobs/Release.antt =====
-- services/backend/app/services/jobs.py, `complete_job` and `fail_job`: a job that a worker ends is
-- released.
use chrome_chatgpt_data.Prelude.{
  ℕ, ◌≡◌, refl, ◌∙◌, Bool, true, false, some, List, [], ◌∷◌, holds_num, arith, ==_refl,
}
use chrome_chatgpt_data.Prelude.Rows.{any, find, update, find-update}
use chrome_chatgpt_data.Prelude.Texts.{Text}
use chrome_chatgpt_data.Jobs.{
  Job, Payload, owns, has_id, mark_succeeded, complete_job, reschedule, fail_job,
}

-- No row is held under the claim of job `i` by the token `t`.
abbrev pub IsReleased : ℕ → ℕ → List Job → Type 0
IsReleased i t jobs = any (owns i t) jobs ≡ false

any_stays_false :
    (q p : Job → Bool) (f : Job → Job) (jobs : List Job)
    → ((x : Job) → q x ≡ false → q (f x) ≡ false)
    → any q jobs ≡ false
    → any q (update p f jobs) ≡ false
any_stays_false q p f [] keep h = refl
any_stays_false q p f (x ∷ xs) keep h = ground (arith, keep x, any_stays_false q p f xs keep)

any_cleared :
    (q p : Job → Bool) (f : Job → Job) (jobs : List Job)
    → ((x : Job) → q x ≡ true → p x ≡ true)
    → ((x : Job) → q (f x) ≡ false)
    → any q (update p f jobs) ≡ false
any_cleared q p f [] hit clear = refl
any_cleared q p f (x ∷ xs) hit clear =
    ground (arith, hit x, clear x, any_cleared q p f xs hit clear)

pub complete_job-IsReleased :
    (now i t j u : ℕ) (res : Payload) (jobs : List Job)
    → IsReleased i t jobs
    → IsReleased i t (complete_job now j u (some res) jobs).1
unfolding complete_job
complete_job-IsReleased now i t j u res jobs =
    any_stays_false (owns i t) (owns j u) (mark_succeeded now (some res)) jobs (λ x _. ground arith)

pub complete_job_releases :
    (now i t : ℕ) (res : Payload) (jobs : List Job)
    → IsReleased i t (complete_job now i t (some res) jobs).1
unfolding complete_job
complete_job_releases now i t res jobs =
    any_cleared (owns i t) (owns i t) (mark_succeeded now (some res)) jobs (λ x e. e)
      (λ x. ground arith)

reschedule_frees :
    (now k i t : ℕ) (summary : Text) (retryable : Bool) (seen r : Job)
    → owns i t (reschedule now k summary retryable seen r) ≡ false
unfolding reschedule
reschedule_frees now k i t summary retryable seen r = ground arith

-- `fail_job` with the copy that the claim returned.
pub fail_job_claimed :
    (now k t : ℕ) (summary : Text) (retryable : Bool) (job : Job) (jobs : List Job)
    → job.lock_token ≡ some t
    → (fail_job now k (some job) job.id t summary retryable jobs).1
      ≡ update (has_id job.id) (reschedule now k summary retryable job) jobs
unfolding fail_job
fail_job_claimed now k t summary retryable job jobs held =
    let mine : holds_num job.lock_token t ≡ true = ground (arith, ==_refl t) in
    rw (==_refl job.id) (rw mine refl)

pub fail_job_releases :
    (now k t : ℕ) (summary : Text) (retryable : Bool) (job : Job) (jobs : List Job)
    → job.lock_token ≡ some t
    → IsReleased job.id t (fail_job now k (some job) job.id t summary retryable jobs).1
fail_job_releases now k t summary retryable job jobs held =
    rw (fail_job_claimed now k t summary retryable job jobs held) (
      any_cleared (owns job.id t) (has_id job.id) (reschedule now k summary retryable job) jobs
        (λ x e. ground arith) (λ x. reschedule_frees now k job.id t summary retryable job x))

pub fail_job-IsReleased :
    (now k i t u : ℕ) (summary : Text) (retryable : Bool) (job : Job) (jobs : List Job)
    → job.lock_token ≡ some u
    → IsReleased i t jobs
    → IsReleased i t (fail_job now k (some job) job.id u summary retryable jobs).1
fail_job-IsReleased now k i t u summary retryable job jobs held h =
    rw (fail_job_claimed now k u summary retryable job jobs held) (
      any_stays_false (owns i t) (has_id job.id) (reschedule now k summary retryable job) jobs
        (λ x _. reschedule_frees now k i t summary retryable job x) h)

-- The holder of the lock completes its job.
pub complete_job_outcome :
    (now t : ℕ) (res : Payload) (job : Job) (jobs : List Job)
    → find (has_id job.id) jobs ≡ some job
    → job.lock_token ≡ some t
    → find (has_id job.id) (complete_job now job.id t (some res) jobs).1
      ≡ some (mark_succeeded now (some res) job)
unfolding complete_job
complete_job_outcome now t res job jobs found held =
    let mine : owns job.id t job ≡ true = ground (arith, ==_refl t, ==_refl job.id) in
    find-update (has_id job.id) (owns job.id t) (mark_succeeded now (some res)) jobs job (λ x. refl)
      found
    ∙ rw mine refl
