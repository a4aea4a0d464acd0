-- ===== src/Jobs/Keeps.antt =====
-- What the operations of services/backend/app/services/jobs.py keep, one lemma for each operation and
-- each part of the invariant of the queue.
use chrome_chatgpt_data.Prelude.{
  ℕ, ◌+◌, ◌≤◌, ◌<◌, ◌≡◌, refl, sym, Bool, true, false, Option, none, some, List, [], ◌∷◌, is_some,
  holds_num, All, All-append, All-intro, All-zip, All-implies, arith, Bool-cases, ==_iff, inl, inr,
}
use mathlib.Core.Path.{subst}
use chrome_chatgpt_data.Prelude.Rows.{
  any, find, update, count, All-update, count-update_le, count-append, count-any, find_unique,
  All-find,
}
use chrome_chatgpt_data.Prelude.Texts.{Text}
use chrome_chatgpt_data.Enums.{JobStatus, is_running}
use chrome_chatgpt_data.Jobs.{
  Job, JobIn, DedupeKey, key_eq, has_key, is_active_key, Payload, new_job, enqueue_job, owns,
  complete_job, reschedule, fail_job, fail_loaded, session_get, has_id, is_stale,
  recover_stale_jobs, mark_succeeded, mark_recovered, conflicts,
}

abbrev pub is_finished : JobStatus → Bool
is_finished JobStatus.succeeded = true
is_finished JobStatus.failed = true
is_finished JobStatus.dead = true
is_finished _ = false

-- A row is locked exactly while it runs, it has an end time exactly when it is finished, and a
-- running row has been counted as an attempt.
pub record IsLocked (j : Job) : Type 0 where
  pub token : is_some j.lock_token ≡ is_running j.status
  pub since : is_some j.locked_at ≡ is_running j.status
  pub holder : is_some j.locked_by ≡ is_running j.status
  pub ended : is_some j.finished_at ≡ is_finished j.status
  pub counted : is_running j.status ≡ true → 1 ≤ j.attempts

-- The invariant of the table, over the next value of `uuid.uuid4()`.
pub record IsQueue (uuid : ℕ) (jobs : List Job) : Type 0 where
  pub locked : All IsLocked jobs
  pub single_live : (k : DedupeKey) → count (is_active_key k) jobs ≤ 1
  pub unique_id : (i : ℕ) → count (has_id i) jobs ≤ 1
  pub fresh : All (λ j. j.id < uuid) jobs

-- The copy that the session holds is the row of the table.
abbrev pub IsCurrent : Option Job → List Job → Type 0
IsCurrent none jobs = Unit
IsCurrent (some j) jobs = find (has_id j.id) jobs ≡ some j

-- An update that keeps the ids, unlocks properly and makes no job live keeps the invariant.
pub update-IsQueue :
    (uuid : ℕ) (p : Job → Bool) (f : Job → Job) (jobs : List Job)
    → ((x : Job) → (f x).id ≡ x.id)
    → All (λ x. p x ≡ true → IsLocked (f x)) jobs
    → ((k : DedupeKey)
        → All (λ x. p x ≡ true → is_active_key k (f x) ≡ true → is_active_key k x ≡ true) jobs)
    → IsQueue uuid jobs
    → IsQueue uuid (update p f jobs)
update-IsQueue uuid p f jobs same locks keys h = record {
  locked = All-update IsLocked p f jobs locks h.locked;
  single_live =
      λ k. omega (arith, h.single_live k, count-update_le (is_active_key k) p f jobs (keys k));
  unique_id = λ i. omega (
    arith,
    h.unique_id i,
    count-update_le (has_id i) p f jobs (
        All-intro (λ x. p x ≡ true → has_id i (f x) ≡ true → has_id i x ≡ true)
          (λ x _ e. rw (← same x) e) jobs),
  );
  fresh =
      All-update (λ j. j.id < uuid) p f jobs
        (All-implies (λ j. j.id < uuid) (λ x. p x ≡ true → (f x).id < uuid) jobs
          (λ x lt _. rw (same x) lt) h.fresh)
        h.fresh;
}

key_eq_sound : (a b : DedupeKey) → key_eq a b ≡ true → a ≡ b
key_eq_sound a b h = ground arith

-- A key that no live job has is counted nowhere.
free_key :
    (o : Option DedupeKey) (k : DedupeKey) (jobs : List Job)
    → conflicts o jobs ≡ false
    → has_key o k ≡ true
    → count (is_active_key k) jobs ≡ 0
free_key none k jobs c e = cc
free_key (some j) k jobs c e =
    count-any (is_active_key k) jobs
      (subst (λ x. any (is_active_key x) jobs ≡ false) (key_eq_sound j k e) c)

enqueue_single_live :
    (now uuid : ℕ) (v : JobIn) (jobs : List Job) (k : DedupeKey)
    → count (is_active_key k) jobs ≤ 1
    → count (is_active_key k) (enqueue_job now uuid v jobs).1 ≤ 1
unfolding enqueue_job
enqueue_single_live now uuid v jobs k h = ground (
  arith,
  count-append (is_active_key k) jobs (new_job now uuid v ∷ []),
  free_key v.dedupe_key k jobs,
)

-- An id below `uuid` is not the id of the new row.
old_id :
    (uuid i : ℕ) (jobs : List Job)
    → All (λ j. j.id < uuid) jobs
    → uuid ≤ i
    → count (has_id i) jobs ≡ 0
old_id uuid i [] h le = refl
old_id uuid i (j ∷ jobs) h le = ground (arith, old_id uuid i jobs h.1 le)

pub enqueue_job-IsQueue :
    (now uuid : ℕ) (v : JobIn) (jobs : List Job)
    → IsQueue uuid jobs
    → IsQueue (uuid + 1) (enqueue_job now uuid v jobs).1
unfolding enqueue_job
enqueue_job-IsQueue now uuid v jobs h =
    let row = new_job now uuid v in
    let older =
      All-implies (λ j. j.id < uuid) (λ j. j.id < uuid + 1) jobs (λ j lt. omega arith) h.fresh in
    record {
      locked =
          ground (arith, h.locked, All-append IsLocked jobs (row ∷ []) h.locked (ground arith));
      single_live = λ k. enqueue_single_live now uuid v jobs k (h.single_live k);
      unique_id = λ i. ground (
        arith,
        h.unique_id i,
        old_id uuid i jobs h.fresh,
        count-append (has_id i) jobs (row ∷ []),
      );
      fresh =
          ground
            (arith, older, All-append (λ j. j.id < uuid + 1) jobs (row ∷ []) older (ground arith));
    }

pub complete_job-IsQueue :
    (uuid now i token : ℕ) (res : Option Payload) (jobs : List Job)
    → IsQueue uuid jobs
    → IsQueue uuid (complete_job now i token res jobs).1
unfolding complete_job
complete_job-IsQueue uuid now i token res jobs h =
    update-IsQueue uuid (owns i token) (mark_succeeded now res) jobs (λ x. refl)
      (All-intro (λ x. owns i token x ≡ true → IsLocked (mark_succeeded now res x))
        (λ x e. ground arith) jobs)
      (λ k.
        All-intro
          (λ x.
            owns i token x ≡ true
            → is_active_key k (mark_succeeded now res x) ≡ true
            → is_active_key k x ≡ true)
          (λ x e a. ground arith) jobs)
      h

pub recover_stale_jobs-IsQueue :
    (uuid now threshold : ℕ) (jobs : List Job)
    → IsQueue uuid jobs
    → IsQueue uuid (recover_stale_jobs now threshold jobs).1
unfolding recover_stale_jobs
recover_stale_jobs-IsQueue uuid now threshold jobs h =
    update-IsQueue uuid (is_stale now threshold) (mark_recovered now) jobs (λ x. refl)
      (All-implies IsLocked (λ x. is_stale now threshold x ≡ true → IsLocked (mark_recovered now x))
        jobs (λ x l e. ground arith) h.locked)
      (λ k.
        All-intro
          (λ x.
            is_stale now threshold x ≡ true
            → is_active_key k (mark_recovered now x) ≡ true
            → is_active_key k x ≡ true)
          (λ x e a. ground arith) jobs)
      h

pub session_get_current :
    (loaded : Option Job) (i : ℕ) (jobs : List Job)
    → IsCurrent loaded jobs
    → session_get loaded i jobs ≡ find (has_id i) jobs
session_get_current none i jobs c = refl
session_get_current (some j) i jobs c = elim (Bool-cases (has_id i j)) [
  | inl e ↦
      let same : j.id ≡ i = (==_iff j.id i).0 e in
      rw e (sym (subst (λ k. find (has_id k) jobs ≡ some j) same c))
  | inr e ↦ rw e refl
]

reschedule-IsLocked :
    (now k : ℕ) (summary : Text) (retryable : Bool) (seen r : Job)
    → is_running r.status ≡ true
    → IsLocked r
    → IsLocked (reschedule now k summary retryable seen r)
unfolding reschedule
reschedule-IsLocked now k summary retryable seen r e h = ground arith

pub reschedule-id :
    (now k : ℕ) (summary : Text) (retryable : Bool) (seen r : Job)
    → (reschedule now k summary retryable seen r).id ≡ r.id
unfolding reschedule
reschedule-id now k summary retryable seen r = ground arith

reschedule_key :
    (now k : ℕ) (summary : Text) (retryable : Bool) (seen r : Job) (key : DedupeKey)
    → is_running r.status ≡ true
    → is_active_key key (reschedule now k summary retryable seen r) ≡ true
    → is_active_key key r ≡ true
unfolding reschedule
reschedule_key now k summary retryable seen r key e a = ground arith

-- The row that a worker owns runs.
owner_runs :
    (seen : Job) (token : ℕ)
    → IsLocked seen
    → holds_num seen.lock_token token ≡ true
    → is_running seen.status ≡ true
owner_runs seen token h e = ground (arith, h.token)

pub fail_job-IsQueue :
    (uuid now k : ℕ) (loaded : Option Job) (i token : ℕ) (summary : Text) (retryable : Bool)
    (jobs : List Job)
    → IsCurrent loaded jobs
    → IsQueue uuid jobs
    → IsQueue uuid (fail_job now k loaded i token summary retryable jobs).1
unfolding fail_job
fail_job-IsQueue uuid now k loaded i token summary retryable jobs c h =
    rw (session_get_current loaded i jobs c) (go (find (has_id i) jobs) refl)
  where
    go :
        (row : Option Job)
        → find (has_id i) jobs ≡ row
        → IsQueue uuid (fail_loaded now k row i token summary retryable jobs).1
    go none e = h
    go (some seen) e = elim (Bool-cases (holds_num seen.lock_token token)) [
      | inl own ↦
          let run = owner_runs seen token (All-find IsLocked (has_id i) jobs seen h.locked e) own in
          let one = find_unique (has_id i) jobs seen (h.unique_id i) e in
          rw own (
            update-IsQueue uuid (has_id i) (reschedule now k summary retryable seen) jobs
              (reschedule-id now k summary retryable seen)
              (All-implies (λ x. (has_id i x ≡ true → x ≡ seen) × IsLocked x) _ jobs
                (λ x a hit.
                  reschedule-IsLocked now k summary retryable seen x (rw (a.0 hit) run) a.1)
                (All-zip _ IsLocked jobs one h.locked))
              (λ key.
                All-implies (λ x. has_id i x ≡ true → x ≡ seen) _ jobs
                  (λ x a hit. reschedule_key now k summary retryable seen x key (rw (a hit) run))
                  one)
              h)
      | inr other ↦ rw other h
    ]
