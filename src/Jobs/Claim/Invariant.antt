-- ===== src/Jobs/Claim/Invariant.antt =====
-- services/backend/app/services/jobs.py, `claim_jobs`: a claim keeps the invariant of the queue.
use chrome_chatgpt_data.Prelude.{
  ℕ, ◌+◌, ◌<◌, ◌≡◌, refl, String, Bool, true, List, [], ◌∷◌, All-intro, All-implies, arith,
}
use chrome_chatgpt_data.Prelude.Rows.{update}
use chrome_chatgpt_data.Enums.{JobKind}
use chrome_chatgpt_data.Jobs.{Job, is_active_key}
use chrome_chatgpt_data.Jobs.Keeps.{IsLocked, IsQueue, update-IsQueue}
use chrome_chatgpt_data.Jobs.Claim.{claimable, is_claim, mark_claimed, claim_each, claim_jobs}

pub mark-IsQueue :
    (uuid now token i : ℕ) (worker_id : String) (jobs : List Job)
    → IsQueue uuid jobs
    → IsQueue uuid (update (is_claim i) (mark_claimed now worker_id token) jobs)
mark-IsQueue uuid now token i worker_id jobs h =
    update-IsQueue uuid (is_claim i) (mark_claimed now worker_id token) jobs (λ x. refl)
      (All-implies IsLocked
        (λ x. is_claim i x ≡ true → IsLocked (mark_claimed now worker_id token x)) jobs
        (λ x l e. ground arith) h.locked)
      (λ k.
        All-intro
          (λ x.
            is_claim i x ≡ true
            → is_active_key k (mark_claimed now worker_id token x) ≡ true
            → is_active_key k x ≡ true)
          (λ x e a. ground arith) jobs)
      h

pub weaken-IsQueue : (uuid : ℕ) (jobs : List Job) → IsQueue uuid jobs → IsQueue (uuid + 1) jobs
weaken-IsQueue uuid jobs h = record {
  locked = h.locked;
  single_live = h.single_live;
  unique_id = h.unique_id;
  fresh = All-implies (λ j. j.id < uuid) (λ j. j.id < uuid + 1) jobs (λ j lt. omega arith) h.fresh;
}

claim_each-IsQueue :
    (now : ℕ) (worker_id : String) (selected : List Job) (uuid : ℕ) (jobs : List Job)
    → IsQueue uuid jobs
    → IsQueue
        (claim_each now worker_id selected uuid jobs).1
        (claim_each now worker_id selected uuid jobs).2
unfolding claim_each
claim_each-IsQueue now worker_id [] uuid jobs h = h
claim_each-IsQueue now worker_id (s ∷ selected) uuid jobs h =
    claim_each-IsQueue now worker_id selected (uuid + 1) _
      (weaken-IsQueue uuid _ (mark-IsQueue uuid now uuid s.id worker_id jobs h))

module _ (now : ℕ) (worker_id : String) (limit : ℕ) (kinds : List JobKind) (locked : ℕ → Bool)
    (uuid : ℕ) (jobs : List Job) where
  pub claim_jobs-IsQueue :
      IsQueue uuid jobs
      → IsQueue
          (claim_jobs now worker_id limit kinds locked uuid jobs).1
          (claim_jobs now worker_id limit kinds locked uuid jobs).2
  unfolding claim_jobs
  claim_jobs-IsQueue h =
      claim_each-IsQueue now worker_id (claimable now kinds locked limit jobs) uuid jobs h
