-- ===== src/Jobs/Enqueued.antt =====
-- services/backend/app/services/jobs.py, `enqueue_job`: after it a job with the dedupe key is live.
use chrome_chatgpt_data.Prelude.{
  ℕ, Bool, true, some, List, [], ◌∷◌, ◌++◌, ◌≡◌, refl, arith, Bool-cases, inl, inr, ==_refl,
}
use chrome_chatgpt_data.Prelude.Rows.{any}
use chrome_chatgpt_data.Enums.{kind_index}
use chrome_chatgpt_data.Jobs.{
  Job, JobIn, DedupeKey, archive_key, snapshot_key, reconcile_key, finalize_key, export_key,
  periodic_key, sync_key, key_eq, is_active_key, new_job, enqueue_job, conflicts,
}

-- A live job has the key.
abbrev pub IsQueued : DedupeKey → List Job → Type 0
IsQueued k jobs = any (is_active_key k) jobs ≡ true

key_eq_refl : (k : DedupeKey) → key_eq k k ≡ true
key_eq_refl (archive_key a) = ==_refl a
key_eq_refl (snapshot_key a) = ==_refl a
key_eq_refl (reconcile_key a) = ==_refl a
key_eq_refl (finalize_key a) = ==_refl a
key_eq_refl (export_key a) = ==_refl a
key_eq_refl (periodic_key a) = ==_refl (kind_index a)
key_eq_refl sync_key = refl

any_append : (p : Job → Bool) (xs ys : List Job) → any p xs ≡ true → any p (xs ++ ys) ≡ true
any_append p [] ys h = ground arith
any_append p (x ∷ xs) ys h = ground (arith, any_append p xs ys)

any_last : (p : Job → Bool) (xs : List Job) (j : Job) → p j ≡ true → any p (xs ++ j ∷ []) ≡ true
any_last p [] j h = ground arith
any_last p (x ∷ xs) j h = ground (arith, any_last p xs j h)

pub enqueue_job-IsQueued :
    (now uuid : ℕ) (v : JobIn) (k : DedupeKey) (jobs : List Job)
    → v.dedupe_key ≡ some k
    → IsQueued k (enqueue_job now uuid v jobs).1
unfolding enqueue_job new_job
enqueue_job-IsQueued now uuid v k jobs e = elim (Bool-cases (conflicts v.dedupe_key jobs)) [
  | inl t ↦ rw t (rw e at t)
  | inr f ↦ rw f (any_last (is_active_key k) jobs _ (rw e (rw (key_eq_refl k) refl)))
]

pub enqueue_job_keeps :
    (now uuid : ℕ) (v : JobIn) (k : DedupeKey) (jobs : List Job)
    → IsQueued k jobs
    → IsQueued k (enqueue_job now uuid v jobs).1
unfolding enqueue_job
enqueue_job_keeps now uuid v k jobs h = elim (Bool-cases (conflicts v.dedupe_key jobs)) [
  | inl t ↦ rw t h
  | inr f ↦ rw f (any_append (is_active_key k) jobs _ h)
]
