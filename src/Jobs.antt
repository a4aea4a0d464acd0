-- ===== src/Jobs.antt =====
-- services/backend/app/services/jobs.py and models/jobs.py: the durable job queue. A function of a
-- session takes the table and returns it. Times are microseconds; `now` is the clock reading of the
-- call and `uuid` the next value of `uuid.uuid4()`, which the caller hands on as `uuid + 1`.
pub mod Claim
pub mod Backoff
pub mod Keeps
pub mod Retry
pub mod Steps
pub mod Enqueued
pub mod Release
pub mod Recovery
mod Tests
use chrome_chatgpt_data.Prelude.{
  ℕ, zero, suc, ◌+◌, ◌-◌, ◌*◌, ◌/◌, ◌^◌, ◌≤◌, min, String, Bool, true, false, not, ◌&&◌, ◌||◌,
  Option, none, some, List, [], ◌∷◌, ◌++◌, ltb, leb, ◌==◌, if◌then◌else◌, or_else, holds_num, take,
}
use chrome_chatgpt_data.Prelude.Rows.{select, find, any, update, count}
use chrome_chatgpt_data.Prelude.Texts.{Text, codes}
use chrome_chatgpt_data.Enums.{
  JobStatus, JobKind, kind_eq, is_pending, is_running, is_succeeded, is_failed, is_dead, is_live,
}

abbrev pub second : ℕ
second = 1_000_000

abbrev pub base_backoff_seconds : ℕ
base_backoff_seconds = 5

abbrev pub max_backoff_seconds : ℕ
max_backoff_seconds = 3600

-- A value of a JSON payload: null, a truth value, a number, the text of an identifier, an ISO time,
-- another text, or the key of the object that holds a raw event, by its workspace hash, conversation,
-- event and day.
pub data Scalar : Type 0 where
  null : Scalar
  flag : Bool → Scalar
  number : ℕ → Scalar
  id_text : ℕ → Scalar
  time_text : ℕ → Scalar
  plain_text : String → Scalar
  code_points : Text → Scalar
  raw_event_key : String → Scalar → ℕ → ℕ → Scalar

abbrev pub Payload : Type 0
Payload = List (String × Scalar)

-- The dedupe keys that the program writes, by their prefix: `archive_raw_event:{event_id}` and so on.
pub data DedupeKey : Type 0 where
  archive_key snapshot_key reconcile_key finalize_key export_key : ℕ → DedupeKey
  periodic_key : JobKind → DedupeKey
  sync_key : DedupeKey

abbrev pub key_eq : DedupeKey → DedupeKey → Bool
key_eq (archive_key a) (archive_key b) = a == b
key_eq (snapshot_key a) (snapshot_key b) = a == b
key_eq (reconcile_key a) (reconcile_key b) = a == b
key_eq (finalize_key a) (finalize_key b) = a == b
key_eq (export_key a) (export_key b) = a == b
key_eq (periodic_key a) (periodic_key b) = kind_eq a b
key_eq sync_key sync_key = true
key_eq _ _ = false

pub record Job : Type 0 where
  pub id : ℕ
  pub organization_id : Option ℕ
  pub kind : JobKind
  pub status : JobStatus
  pub priority : ℕ
  pub payload : Payload
  pub dedupe_key : Option DedupeKey
  pub attempts : ℕ
  pub max_attempts : ℕ
  pub run_after : ℕ
  pub created_at : ℕ
  pub locked_at : Option ℕ
  pub locked_by : Option String
  pub lock_token : Option ℕ
  pub started_at : Option ℕ
  pub finished_at : Option ℕ
  pub error_summary : Option Text
  pub result : Payload

-- `backoff_delay(attempts, jitter=False)`, in seconds.
unfoldable pub backoff_ceiling : ℕ → ℕ
backoff_ceiling attempts = min (base_backoff_seconds * 2 ^ min attempts 12) max_backoff_seconds

-- `random.uniform(a, b)` for a draw `k / 2 ^ 53` of `random.random()`, in microseconds.
uniform : ℕ → ℕ → ℕ → ℕ
uniform a b k = a * second + (b - a) * second * k / 2 ^ 53

unfoldable pub backoff_delay : ℕ → ℕ → ℕ
unfolding uniform
backoff_delay attempts k = uniform base_backoff_seconds (backoff_ceiling attempts) k

-- The arguments of `enqueue_job` with their defaults left to the caller.
pub record JobIn : Type 0 where
  pub kind : JobKind
  pub payload : Payload
  pub organization_id : Option ℕ
  pub dedupe_key : Option DedupeKey
  pub priority : ℕ
  pub run_after : Option ℕ
  pub max_attempts : ℕ

abbrev pub has_key : Option DedupeKey → DedupeKey → Bool
has_key none k = false
has_key (some j) k = key_eq j k

-- The partial unique index `uq_jobs_dedupe_active`.
abbrev pub is_active_key : DedupeKey → Job → Bool
is_active_key k j = has_key j.dedupe_key k && is_live j.status

pub new_job : ℕ → ℕ → JobIn → Job
new_job now uuid v = record {
  id = uuid;
  organization_id = v.organization_id;
  kind = v.kind;
  status = JobStatus.pending;
  priority = v.priority;
  payload = v.payload;
  dedupe_key = v.dedupe_key;
  attempts = 0;
  max_attempts = v.max_attempts;
  run_after = or_else v.run_after now;
  created_at = now;
  locked_at = none;
  locked_by = none;
  lock_token = none;
  started_at = none;
  finished_at = none;
  error_summary = none;
  result = [];
}

-- `INSERT … ON CONFLICT DO NOTHING` when there is a dedupe key, a plain INSERT when there is none.
abbrev pub conflicts : Option DedupeKey → List Job → Bool
conflicts none jobs = false
conflicts (some k) jobs = any (is_active_key k) jobs

unfoldable pub enqueue_job : ℕ → ℕ → JobIn → List Job → Option Job × List Job
unfolding new_job
enqueue_job now uuid v jobs =
    let job = new_job now uuid v in
    if conflicts v.dedupe_key jobs then (none, jobs) else (some job, jobs ++ job ∷ [])

-- `Job.id == job_id, Job.lock_token == lock_token`
abbrev pub owns : ℕ → ℕ → Job → Bool
owns job_id token j = j.id == job_id && holds_num j.lock_token token

abbrev pub mark_succeeded : ℕ → Option Payload → Job → Job
mark_succeeded now res j = record j {
  status = JobStatus.succeeded;
  finished_at = some now;
  locked_at = none;
  locked_by = none;
  lock_token = none;
  error_summary = none;
  result = or_else res [];
}

pub complete_job : ℕ → ℕ → ℕ → Option Payload → List Job → Bool × List Job
complete_job now job_id token res jobs =
    (any (owns job_id token) jobs, update (owns job_id token) (mark_succeeded now res) jobs)

-- The columns that a failure writes to the row `r`; `seen` is the copy of the row that the session
-- holds, by which the attempts are counted, and `k` the random draw of the backoff.
pub reschedule : ℕ → ℕ → Text → Bool → Job → Job → Job
unfolding backoff_delay
reschedule now k summary retryable seen r =
    let free = record r {
      locked_at = none;
      locked_by = none;
      lock_token = none;
      error_summary = some (take 2000 summary);
    } in
    if retryable && ltb seen.attempts seen.max_attempts
    then record free { status = JobStatus.pending; run_after = now + backoff_delay seen.attempts k }
    else record free {
      status = if retryable then JobStatus.failed else JobStatus.dead;
      finished_at = some now;
    }

abbrev pub has_id : ℕ → Job → Bool
has_id i j = j.id == i

-- `session.get(Job, job_id)`: the copy that the session loaded before, if there is one, for the
-- sessions are made with `expire_on_commit=False`; else the row.
abbrev pub session_get : Option Job → ℕ → List Job → Option Job
session_get none i jobs = find (has_id i) jobs
session_get (some j) i jobs = let row = find (has_id i) jobs in if has_id i j then some j else row

fail_loaded : ℕ → ℕ → Option Job → ℕ → ℕ → Text → Bool → List Job → Bool × List Job
fail_loaded now k none job_id token summary retryable jobs = (false, jobs)
fail_loaded now k (some seen) job_id token summary retryable jobs =
    if holds_num seen.lock_token token
    then (true, update (has_id job_id) (reschedule now k summary retryable seen) jobs)
    else (false, jobs)

pub fail_job : ℕ → ℕ → Option Job → ℕ → ℕ → Text → Bool → List Job → Bool × List Job
unfolding reschedule fail_loaded
fail_job now k loaded job_id token summary retryable jobs =
    fail_loaded now k (session_get loaded job_id jobs) job_id token summary retryable jobs

-- `locked_at IS NULL OR locked_at < now - threshold`
abbrev lock_expired : ℕ → ℕ → Option ℕ → Bool
lock_expired now threshold none = true
lock_expired now threshold (some t) = ltb (t + threshold) now

abbrev pub is_stale : ℕ → ℕ → Job → Bool
is_stale now threshold j = is_running j.status && lock_expired now threshold j.locked_at

abbrev pub mark_recovered : ℕ → Job → Job
mark_recovered now j = record j {
  status = JobStatus.pending;
  locked_at = none;
  locked_by = none;
  lock_token = none;
  run_after = now;
  error_summary = some (codes "recovered from stale lock");
}

pub recover_stale_jobs : ℕ → ℕ → List Job → ℕ × List Job
recover_stale_jobs now threshold jobs =
    (count (is_stale now threshold) jobs, update (is_stale now threshold) (mark_recovered now) jobs)

pub pending_job_count : List Job → ℕ
pending_job_count = count (λ j. is_pending j.status)
