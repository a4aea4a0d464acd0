-- ===== src/Jobs/Claim.antt =====
-- services/backend/app/services/jobs.py, `claim_jobs`: the claim of runnable jobs under
-- `FOR UPDATE SKIP LOCKED`. The rows that other transactions hold locked are an argument.
pub mod Invariant
pub mod Exclusive
pub mod Order
use chrome_chatgpt_data.Prelude.{
  ℕ, ◌+◌, String, Bool, true, false, not, ◌&&◌, ◌||◌, Option, some, List, [], ◌∷◌, ltb, leb, ◌==◌,
  if◌then◌else◌, take,
}
use chrome_chatgpt_data.Prelude.Rows.{select, find, any, update}
use chrome_chatgpt_data.Enums.{JobStatus, JobKind, kind_eq, is_pending}
use chrome_chatgpt_data.Jobs.{Job}

abbrev kind_in : List JobKind → JobKind → Bool
kind_in [] k = false
kind_in (j ∷ js) k = kind_eq j k || kind_in js k

-- `kinds` is no filter when it is absent or empty.
abbrev wanted : List JobKind → JobKind → Bool
wanted [] k = true
wanted (j ∷ js) k = kind_in (j ∷ js) k

unfoldable pub runnable : ℕ → List JobKind → Job → Bool
runnable now kinds j = is_pending j.status && leb j.run_after now && wanted kinds j.kind

-- `ORDER BY priority, run_after, created_at`
abbrev pub ordered : Job → Job → Bool
ordered a b =
    ltb a.priority b.priority
    || a.priority == b.priority
      && (ltb a.run_after b.run_after
          || a.run_after == b.run_after && leb a.created_at b.created_at)

pub insert_ordered : Job → List Job → List Job
insert_ordered j [] = j ∷ []
insert_ordered j (k ∷ ks) =
    let rest = insert_ordered j ks in if ordered j k then j ∷ k ∷ ks else k ∷ rest

pub order_by : List Job → List Job
unfolding insert_ordered
order_by [] = []
order_by (j ∷ js) = insert_ordered j (order_by js)

-- Rows that another transaction has locked are skipped.
pub skip_locked : (ℕ → Bool) → List Job → List Job
skip_locked locked = select (λ j. not (locked j.id))

pub claimable : ℕ → List JobKind → (ℕ → Bool) → ℕ → List Job → List Job
unfolding runnable order_by skip_locked
claimable now kinds locked limit jobs =
    take limit (order_by (skip_locked locked (select (runnable now kinds) jobs)))

abbrev pub is_claim : ℕ → Job → Bool
is_claim i j = j.id == i && is_pending j.status

abbrev pub mark_claimed : ℕ → String → ℕ → Job → Job
mark_claimed now worker_id token j = record j {
  status = JobStatus.running;
  locked_at = some now;
  locked_by = some worker_id;
  lock_token = some token;
  started_at = some now;
  attempts = j.attempts + 1;
}

abbrev pub add_claimed : Bool → Option Job → ℕ → List (Job × ℕ) → List (Job × ℕ)
add_claimed true (some j) token rest = (j, token) ∷ rest
add_claimed _ _ token rest = rest

-- The loop of `claim_jobs` over the selected ids, one fresh token to each.
pub claim_each : ℕ → String → List Job → ℕ → List Job → List (Job × ℕ) × ℕ × List Job
claim_each now worker_id [] uuid jobs = ([], uuid, jobs)
claim_each now worker_id (s ∷ selected) uuid jobs =
    let hit = any (is_claim s.id) jobs in
    let marked = update (is_claim s.id) (mark_claimed now worker_id uuid) jobs in
    let (rest, uuid', jobs') = claim_each now worker_id selected (uuid + 1) marked in
    (add_claimed hit (find (λ j. j.id == s.id) marked) uuid rest, uuid', jobs')

unfoldable pub claim_jobs :
    ℕ → String → ℕ → List JobKind → (ℕ → Bool) → ℕ → List Job → List (Job × ℕ) × ℕ × List Job
unfolding claimable claim_each
claim_jobs now worker_id limit kinds locked uuid jobs =
    claim_each now worker_id (claimable now kinds locked limit jobs) uuid jobs
