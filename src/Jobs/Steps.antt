-- ===== src/Jobs/Steps.antt =====
-- The queue of services/backend/app/services/jobs.py as a state machine: every operation, in any
-- order, by any workers.
use chrome_chatgpt_data.Prelude.{ℕ, ◌+◌, String, Bool, Option, List, [], arith}
use chrome_chatgpt_data.Prelude.Texts.{Text}
use chrome_chatgpt_data.Enums.{JobKind}
use chrome_chatgpt_data.Jobs.{
  Job, JobIn, Payload, enqueue_job, complete_job, fail_job, recover_stale_jobs,
}
use chrome_chatgpt_data.Jobs.Claim.{claim_jobs}
use chrome_chatgpt_data.Jobs.Keeps.{
  IsQueue, IsCurrent, enqueue_job-IsQueue, complete_job-IsQueue, fail_job-IsQueue,
  recover_stale_jobs-IsQueue,
}
use chrome_chatgpt_data.Jobs.Claim.Invariant.{claim_jobs-IsQueue}

-- The table, with the next value of `uuid.uuid4()`.
pub record Queue : Type 0 where
  pub uuids : ℕ
  pub rows : List Job

pub data Step (q : Queue) : Queue → Type 0 where
  enqueue :
      (now : ℕ) (v : JobIn)
      → Step q (record { uuids = q.uuids + 1; rows = (enqueue_job now q.uuids v q.rows).1 })
  claim :
      (now : ℕ) (worker_id : String) (limit : ℕ) (kinds : List JobKind) (locked : ℕ → Bool)
      → Step q (record {
        uuids = (claim_jobs now worker_id limit kinds locked q.uuids q.rows).1;
        rows = (claim_jobs now worker_id limit kinds locked q.uuids q.rows).2;
      })
  complete :
      (now i token : ℕ) (res : Option Payload)
      → Step q (record q { rows = (complete_job now i token res q.rows).1 })
  -- with the row as the session's copy of it
  fail :
      (now k i token : ℕ) (loaded : Option Job) (summary : Text) (retryable : Bool)
      → IsCurrent loaded q.rows
      → Step q (record q { rows = (fail_job now k loaded i token summary retryable q.rows).1 })
  recover :
      (now threshold : ℕ) → Step q (record q { rows = (recover_stale_jobs now threshold q.rows).1 })

pub data Reach (q : Queue) : Queue → Type 0 where
  here : Reach q q
  next : {r s : Queue} → Reach q r → Step r s → Reach q s

Step-IsQueue : {q r : Queue} → Step q r → IsQueue q.uuids q.rows → IsQueue r.uuids r.rows
Step-IsQueue {q} (enqueue now v) h = enqueue_job-IsQueue now q.uuids v q.rows h
Step-IsQueue {q} (claim now worker_id limit kinds locked) h =
    claim_jobs-IsQueue now worker_id limit kinds locked q.uuids q.rows h
Step-IsQueue {q} (complete now i token res) h =
    complete_job-IsQueue q.uuids now i token res q.rows h
Step-IsQueue {q} (fail now k i token loaded summary retryable c) h =
    fail_job-IsQueue q.uuids now k loaded i token summary retryable q.rows c h
Step-IsQueue {q} (recover now threshold) h =
    recover_stale_jobs-IsQueue q.uuids now threshold q.rows h

abbrev pub empty : Queue
empty = record { uuids = 0; rows = [] }

empty-IsQueue : IsQueue 0 []
empty-IsQueue = record {
  locked = tt;
  single_live = λ k. omega arith;
  unique_id = λ i. omega arith;
  fresh = tt;
}

-- Whatever enqueues, claims, completions, failures and recoveries have run, by any workers in any
-- order, from the empty table: exactly the running rows carry a lock with its token, holder and
-- time, exactly the finished ones an end time, each running row has been counted as an attempt, at
-- most one live job has any given dedupe key, and ids are unique. A failure is reported by a session
-- whose copy of the job is the row.
pub Reach-IsQueue : {q : Queue} → Reach empty q → IsQueue q.uuids q.rows
Reach-IsQueue here = empty-IsQueue
Reach-IsQueue (next r s) = Step-IsQueue s (Reach-IsQueue r)
