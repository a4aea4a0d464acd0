-- ===== src/RateLimit/Window.antt =====
-- services/backend/app/core/ratelimit.py, `SlidingWindowLimiter.check` on one key: the deque against the
-- log of all admitted hits.
use chrome_chatgpt_data.Prelude.{
  ℕ, zero, suc, ◌+◌, ◌≤◌, ◌≡◌, refl, ap, ◌∙◌, Bool, false, not, List, [], ◌∷◌, ◌++◌, ltb,
  if◌then◌else◌, length, length-append, All, All-append, arith,
}
use chrome_chatgpt_data.Prelude.Rows.{select, count, All-select}
use chrome_chatgpt_data.RateLimit.{RateLimitDecision, pop_expired, append_hits, admit}

-- The hits that the window ending at `now` still counts.
abbrev pub in_window : ℕ → ℕ → ℕ → Bool
in_window window now t = not (ltb (t + window) now)

abbrev pub Sorted : List ℕ → Type 0
Sorted [] = Unit
Sorted (t ∷ ts) = All (λ u. t ≤ u) ts × Sorted ts

-- One key's deque, and the log of every hit that was ever admitted for the key.
pub record Trace : Type 0 where
  pub hits : List ℕ
  pub log : List ℕ

unfoldable pub request : ℕ → ℕ → ℕ → ℕ → Trace → RateLimitDecision × Trace
request limit window cost now tr =
    let (decision, hits) = admit limit window cost now tr.hits in
    (
      decision,
      record {
        hits = hits;
        log = if decision.allowed then append_hits cost now tr.log else tr.log;
      },
    )

-- The deque is the part of the log that the window counts, and never exceeds the limit.
pub record IsTrace (limit window now : ℕ) (tr : Trace) : Type 0 where
  pub exact : tr.hits ≡ select (in_window window now) tr.log
  pub within : length tr.hits ≤ limit
  pub sorted : Sorted tr.log
  pub past : All (λ t. t ≤ now) tr.log

select_later :
    (window now t : ℕ) (ts : List ℕ)
    → All (λ u. t ≤ u) ts
    → ltb (t + window) now ≡ false
    → select (in_window window now) ts ≡ ts
select_later window now t [] h e = refl
select_later window now t (u ∷ us) h e = ground (arith, select_later window now t us h.1)

pub pop_expired-eq-select :
    (window now : ℕ) (ts : List ℕ)
    → Sorted ts
    → pop_expired window now ts ≡ select (in_window window now) ts
unfolding pop_expired
pop_expired-eq-select window now [] h = refl
pop_expired-eq-select window now (t ∷ ts) h =
    ground (arith, pop_expired-eq-select window now ts h.1, select_later window now t ts h.0)

-- Popping at an earlier time and then at `now` is popping at `now`.
pub pop_expired_again :
    (window t now : ℕ) (ts : List ℕ)
    → t ≤ now
    → pop_expired window now (pop_expired window t ts) ≡ pop_expired window now ts
unfolding pop_expired
pop_expired_again window t now [] h = refl
pop_expired_again window t now (u ∷ us) h = ground (arith, pop_expired_again window t now us h)

pub length-append_hits : (n now : ℕ) (ts : List ℕ) → length (append_hits n now ts) ≡ length ts + n
unfolding append_hits
length-append_hits zero now ts = omega arith
length-append_hits (suc n) now ts =
    omega (arith, length-append_hits n now (ts ++ now ∷ []), length-append ts (now ∷ []))

select-append : (p : ℕ → Bool) (xs ys : List ℕ) → select p (xs ++ ys) ≡ select p xs ++ select p ys
select-append p [] ys = refl
select-append p (x ∷ xs) ys = ground (arith, select-append p xs ys)

pub select-append_hits :
    (n window now : ℕ) (ts : List ℕ)
    → select (in_window window now) (append_hits n now ts)
      ≡ append_hits n now (select (in_window window now) ts)
unfolding append_hits
select-append_hits zero window now ts = refl
select-append_hits (suc n) window now ts =
    select-append_hits n window now (ts ++ now ∷ [])
    ∙ ap (append_hits n now) (ground (arith, select-append (in_window window now) ts (now ∷ [])))

pub All-append_hits :
    (P : ℕ → Type 0) (n now : ℕ) (ts : List ℕ) → P now → All P ts → All P (append_hits n now ts)
unfolding append_hits
All-append_hits P zero now ts p h = h
All-append_hits P (suc n) now ts p h =
    All-append_hits P n now (ts ++ now ∷ []) p (All-append P ts (now ∷ []) h (p, tt))

append-Sorted :
    (now : ℕ) (ts : List ℕ) → Sorted ts → All (λ t. t ≤ now) ts → Sorted (ts ++ now ∷ [])
append-Sorted now [] s h = (tt, tt)
append-Sorted now (t ∷ ts) s h =
    (All-append (λ u. t ≤ u) ts (now ∷ []) s.0 (h.0, tt), append-Sorted now ts s.1 h.1)

pub append_hits-Sorted :
    (n now : ℕ) (ts : List ℕ) → Sorted ts → All (λ t. t ≤ now) ts → Sorted (append_hits n now ts)
unfolding append_hits
append_hits-Sorted zero now ts s h = s
append_hits-Sorted (suc n) now ts s h =
    append_hits-Sorted n now (ts ++ now ∷ []) (append-Sorted now ts s h)
      (All-append (λ t. t ≤ now) ts (now ∷ []) h (omega arith, tt))

pub length-select : (p : ℕ → Bool) (xs : List ℕ) → length (select p xs) ≡ count p xs
length-select p [] = refl
length-select p (x ∷ xs) = ground (arith, length-select p xs)

select_of_select_mono :
    (window t now : ℕ) (ts : List ℕ)
    → t ≤ now
    → select (in_window window now) (select (in_window window t) ts)
      ≡ select (in_window window now) ts
select_of_select_mono window t now [] h = refl
select_of_select_mono window t now (u ∷ us) h =
    ground (arith, select_of_select_mono window t now us h)

pub Sorted-select : (p : ℕ → Bool) (ts : List ℕ) → Sorted ts → Sorted (select p ts)
Sorted-select p [] h = tt
Sorted-select p (t ∷ ts) h =
    ground (arith, Sorted-select p ts h.1, All-select (λ u. t ≤ u) p ts h.0)

-- What the deque holds after the pops of a request.
pub popped :
    (limit window t now : ℕ) (tr : Trace)
    → IsTrace limit window t tr
    → t ≤ now
    → pop_expired window now tr.hits ≡ select (in_window window now) tr.log
popped limit window t now tr h le =
    ap (pop_expired window now) h.exact
    ∙ pop_expired-eq-select window now _ (Sorted-select _ tr.log h.sorted)
    ∙ select_of_select_mono window t now tr.log le
