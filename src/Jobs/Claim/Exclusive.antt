-- ===== src/Jobs/Claim/Exclusive.antt =====
-- What `claim_jobs` of services/backend/app/services/jobs.py does to the table and hands out.
use mathlib.Core.Path.{subst, ◌∙◌}
use chrome_chatgpt_data.Prelude.{
  ℕ, ◌+◌, ◌≤◌, ◌<◌, ◌≡◌, refl, sym, String, Bool, true, false, Option, none, some, List, [], ◌∷◌,
  All-implies, length, length-take, arith, Option-cases, inl, inr,
}
use chrome_chatgpt_data.Prelude.Rows.{
  any, find, select, update, find-eq_some, find-update, find-update-none, any_elim, find_unique,
}
use chrome_chatgpt_data.Enums.{JobKind, is_running, is_pending}
use chrome_chatgpt_data.Jobs.{Job, has_id}
use chrome_chatgpt_data.Jobs.Keeps.{IsQueue}
use chrome_chatgpt_data.Jobs.Claim.Invariant.{mark-IsQueue, weaken-IsQueue}
use chrome_chatgpt_data.Jobs.Claim.{
  runnable, order_by, skip_locked, claimable, is_claim, mark_claimed, add_claimed, claim_each,
  claim_jobs,
}

-- A row that no claim may take is found as it was.
claim_each_keeps :
    (now : ℕ) (worker_id : String) (selected : List Job) (uuid i : ℕ) (jobs : List Job) (j : Job)
    → find (has_id i) jobs ≡ some j
    → is_pending j.status ≡ false
    → find (has_id i) (claim_each now worker_id selected uuid jobs).2 ≡ some j
unfolding claim_each
claim_each_keeps now worker_id [] uuid i jobs j e p = e
claim_each_keeps now worker_id (s ∷ selected) uuid i jobs j e p =
    claim_each_keeps now worker_id selected (uuid + 1) i _ j
      (find-update (has_id i) (is_claim s.id) (mark_claimed now worker_id uuid) jobs j (λ x. refl) e
        ∙ ground arith)
      p

-- The claimed jobs with their tokens: running in the final table under tokens of the interval,
-- in ascending order.
abbrev pub AreClaimed : ℕ → ℕ → List Job → List (Job × ℕ) → Type 0
AreClaimed lo hi table [] = Unit
AreClaimed lo hi table ((j, t) ∷ rest) =
    (find (has_id j.id) table ≡ some j)
    × (is_running j.status ≡ true)
    × (j.lock_token ≡ some t)
    × (lo ≤ t)
    × (t < hi)
    × AreClaimed (t + 1) hi table rest

AreClaimed-weaken :
    (lo hi : ℕ) (table : List Job) (l : List (Job × ℕ))
    → AreClaimed (lo + 1) hi table l
    → AreClaimed lo hi table l
AreClaimed-weaken lo hi table [] h = tt
AreClaimed-weaken lo hi table ((j, t) ∷ rest) h = ground arith

claim_each_tokens :
    (now : ℕ) (worker_id : String) (selected : List Job) (uuid : ℕ) (jobs : List Job)
    → uuid ≤ (claim_each now worker_id selected uuid jobs).1
unfolding claim_each
claim_each_tokens now worker_id [] uuid jobs = omega arith
claim_each_tokens now worker_id (s ∷ selected) uuid jobs = omega (
  arith,
  claim_each_tokens now worker_id selected (uuid + 1)
      (update (is_claim s.id) (mark_claimed now worker_id uuid) jobs),
)

-- The row that the loop has just marked: with unique ids it is the one that the id finds.
marked_row :
    (now uuid i token : ℕ) (worker_id : String) (jobs : List Job) (j : Job)
    → IsQueue uuid jobs
    → any (is_claim i) jobs ≡ true
    → find (has_id i) (update (is_claim i) (mark_claimed now worker_id token) jobs) ≡ some j
    → (j.id ≡ i) × (is_running j.status ≡ true) × (j.lock_token ≡ some token)
marked_row now uuid i token worker_id jobs j q hit e = elim (Option-cases (find (has_id i) jobs)) [
  | inl missing ↦
      let gone =
        find-update-none (has_id i) (is_claim i) (mark_claimed now worker_id token) jobs (λ x. refl)
          missing in
      ground (arith, gone)
  | inr (x, found) ↦
      let pends : is_pending x.status ≡ true =
        any_elim (is_pending x.status ≡ true) (is_claim i) jobs
          (All-implies (λ y. has_id i y ≡ true → y ≡ x) _ jobs (λ y same c. ground (arith, same))
            (find_unique (has_id i) jobs x (q.unique_id i) found))
          hit in
      let named = find-eq_some (has_id i) jobs x found in
      let now_marked =
        find-update (has_id i) (is_claim i) (mark_claimed now worker_id token) jobs x (λ y. refl)
          found in
      ground arith
]

add_claimed-AreClaimed :
    (lo hi : ℕ) (table : List Job) (hit : Bool) (row : Option Job) (rest : List (Job × ℕ))
    → ((j : Job)
        → hit ≡ true
        → row ≡ some j
        → (find (has_id j.id) table ≡ some j)
          × (is_running j.status ≡ true)
          × (j.lock_token ≡ some lo))
    → lo < hi
    → AreClaimed (lo + 1) hi table rest
    → AreClaimed lo hi table (add_claimed hit row lo rest)
add_claimed-AreClaimed lo hi table true (some j) rest now_runs lt h =
    let (found, runs, token) = now_runs j refl refl in (found, runs, token, omega arith, lt, h)
add_claimed-AreClaimed lo hi table true none rest now_runs lt h =
    AreClaimed-weaken lo hi table rest h
add_claimed-AreClaimed lo hi table false row rest now_runs lt h =
    AreClaimed-weaken lo hi table rest h

claim_each-AreClaimed :
    (now : ℕ) (worker_id : String) (selected : List Job) (uuid : ℕ) (jobs : List Job)
    → IsQueue uuid jobs
    → AreClaimed uuid
        (claim_each now worker_id selected uuid jobs).1
        (claim_each now worker_id selected uuid jobs).2
        (claim_each now worker_id selected uuid jobs).0
unfolding claim_each
claim_each-AreClaimed now worker_id [] uuid jobs q = tt
claim_each-AreClaimed now worker_id (s ∷ selected) uuid jobs q =
    let marked = update (is_claim s.id) (mark_claimed now worker_id uuid) jobs in
    let later =
      claim_each-AreClaimed now worker_id selected (uuid + 1) marked
        (weaken-IsQueue uuid _ (mark-IsQueue uuid now uuid s.id worker_id jobs q)) in
    add_claimed-AreClaimed uuid (claim_each now worker_id selected (uuid + 1) marked).1
      (claim_each now worker_id selected (uuid + 1) marked).2 (any (is_claim s.id) jobs)
      (find (has_id s.id) marked) _
      (λ j hit e.
        let (named, runs, token) = marked_row now uuid s.id uuid worker_id jobs j q hit e in
        (
          claim_each_keeps now worker_id selected (uuid + 1) j.id marked j
              (subst (λ i. find (has_id i) marked ≡ some j) (sym named) e) (ground arith),
          runs,
          token,
        ))
      (omega (arith, claim_each_tokens now worker_id selected (uuid + 1) marked)) later

length-add_claimed :
    (hit : Bool) (row : Option Job) (t : ℕ) (rest : List (Job × ℕ))
    → length (add_claimed hit row t rest) ≤ length rest + 1
length-add_claimed hit row t rest = ground arith

length-claim_each :
    (now : ℕ) (worker_id : String) (selected : List Job) (uuid : ℕ) (jobs : List Job)
    → length (claim_each now worker_id selected uuid jobs).0 ≤ length selected
unfolding claim_each
length-claim_each now worker_id [] uuid jobs = omega arith
length-claim_each now worker_id (s ∷ selected) uuid jobs =
    let marked = update (is_claim s.id) (mark_claimed now worker_id uuid) jobs in
    omega (
      arith,
      length-add_claimed (any (is_claim s.id) jobs) (find (has_id s.id) marked) uuid
          (claim_each now worker_id selected (uuid + 1) marked).0,
      length-claim_each now worker_id selected (uuid + 1) marked,
    )

module _ (now : ℕ) (worker_id : String) (limit : ℕ) (kinds : List JobKind) (locked : ℕ → Bool)
    (uuid : ℕ) (jobs : List Job) where
  -- From a well-formed table, `claim_jobs` hands out at most `limit` jobs; each stands in the new
  -- table as handed out, running under its own token, the tokens are drawn freshly in ascending
  -- order, and every row of the old table that was not pending is found unchanged, so a job that
  -- runs for one worker is not claimed by another.
  pub claim_jobs_exclusive :
      IsQueue uuid jobs
      → let (claimed, uuid', jobs') = claim_jobs now worker_id limit kinds locked uuid jobs in
        (length claimed ≤ limit)
        × AreClaimed uuid uuid' jobs' claimed
        × ((i : ℕ) (j : Job)
            → find (has_id i) jobs ≡ some j
            → is_pending j.status ≡ false
            → find (has_id i) jobs' ≡ some j)
  unfolding claim_jobs claimable
  claim_jobs_exclusive q =
      let selected = claimable now kinds locked limit jobs in
      (
        omega (
          arith,
          length-claim_each now worker_id selected uuid jobs,
          length-take limit (order_by (skip_locked locked (select (runnable now kinds) jobs))),
        ),
        claim_each-AreClaimed now worker_id selected uuid jobs q,
        λ i j. claim_each_keeps now worker_id selected uuid i jobs j,
      )
