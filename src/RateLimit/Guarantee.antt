-- ===== src/RateLimit/Guarantee.antt =====
-- services/backend/app/core/ratelimit.py: the guarantee of one key's sliding window over any history.
use chrome_chatgpt_data.Prelude.{
  ℕ, ◌+◌, ◌-◌, ◌*◌, ◌/◌, ◌≤◌, ◌<◌, ◌≡◌, refl, sym, ap, Bool, true, false, List, [], ◌∷◌, ltb, leb,
  length, max, All, All-implies, arith, Bool-cases, inl, inr,
}
use chrome_chatgpt_data.Prelude.Rows.{select, count}
use chrome_chatgpt_data.RateLimit.{RateLimitDecision, second, append_hits, admit}
use chrome_chatgpt_data.RateLimit.Window.{
  in_window, Trace, request, IsTrace, length-append_hits, select-append_hits, All-append_hits,
  append_hits-Sorted, length-select, popped,
}

-- What a request at `now` must do to the log: it is admitted exactly when the hits that the window
-- counts leave room for its cost; then the log grows by that cost and the rest of the budget is
-- reported; else the log stays, and after `retry_after` seconds the oldest counted hit is out of the
-- window.
abbrev pub Serves : ℕ → ℕ → ℕ → ℕ → Trace → RateLimitDecision → Trace → Type 0
Serves limit window cost now tr d tr' =
    (d.allowed ≡ leb (count (in_window window now) tr.log + cost) limit)
    × (d.allowed ≡ true
        → (tr'.log ≡ append_hits cost now tr.log)
          × (d.remaining + (count (in_window window now) tr.log + cost) ≡ limit))
    × (d.allowed ≡ false
        → (tr'.log ≡ tr.log)
          × ((t : ℕ) (ts : List ℕ)
              → select (in_window window now) tr.log ≡ t ∷ ts
              → in_window window (now + d.retry_after * second) t ≡ false))

-- Waiting for the quotient and one second more passes the whole window.
wait_passes :
    (window now t : ℕ)
    → t ≤ now
    → ltb (t + window) now ≡ false
    → t + window < now + max 1 ((window - (now - t)) / second + 1) * second
wait_passes window now t le h = ground arith

-- The oldest counted hit is among the logged ones, none of which is later than `now`.
oldest_past :
    (p : ℕ → Bool) (now : ℕ) (log : List ℕ) (t : ℕ) (ts : List ℕ)
    → All (λ u. u ≤ now) log
    → select p log ≡ t ∷ ts
    → (t ≤ now) × (p t ≡ true)
oldest_past p now [] t ts h e = ground arith
oldest_past p now (u ∷ us) t ts h e = elim (Bool-cases (p u)) [
  | inl hit ↦ ground arith
  | inr out ↦ oldest_past p now us t ts h.1 (ground arith)
]

count_later :
    (window t now : ℕ) (log : List ℕ)
    → t ≤ now
    → count (in_window window now) log ≤ count (in_window window t) log
count_later window t now [] h = omega arith
count_later window t now (u ∷ us) h = ground (arith, count_later window t now us h)

module _ (limit window t now cost : ℕ) (tr : Trace) (h : IsTrace limit window t tr)
    (le : t ≤ now) where
  pub request-Serves :
      let (d, tr') = request limit window cost now tr in Serves limit window cost now tr d tr'
  unfolding request admit
  request-Serves =
      let live = select (in_window window now) tr.log in
      let past = All-implies (λ u. u ≤ t) (λ u. u ≤ now) tr.log (λ u k. omega arith) h.past in
      let counted = length-select (in_window window now) tr.log in
      let filled = length-append_hits cost now live in
      rw (popped limit window t now tr h le) (elim (Bool-cases (ltb limit (length live + cost))) [
        | inl full ↦ rw full (
          ground (arith, counted),
          λ bad. cc,
          λ _. (
            refl,
            λ u us e.
                let (before, inside) = oldest_past (in_window window now) now tr.log u us past e in
                let passed = wait_passes window now u before (ground arith) in
                rw e (ground (arith, passed)),
          ),
        )
        | inr room ↦
            rw room
              (ground (arith, counted), λ _. (refl, ground (arith, counted, filled)), λ bad. cc)
      ])

  pub request-IsTrace : IsTrace limit window now (request limit window cost now tr).1
  unfolding request admit
  request-IsTrace =
      let live = select (in_window window now) tr.log in
      let past = All-implies (λ u. u ≤ t) (λ u. u ≤ now) tr.log (λ u k. omega arith) h.past in
      let filled = length-append_hits cost now live in
      rw (popped limit window t now tr h le) (elim (Bool-cases (ltb limit (length live + cost))) [
        | inl full ↦ rw full (record {
          exact = refl;
          within = omega (
            arith,
            length-select (in_window window now) tr.log,
            count_later window t now tr.log le,
            length-select (in_window window t) tr.log,
            ap (length {A = ℕ}) h.exact,
            h.within,
          );
          sorted = h.sorted;
          past = past;
        })
        | inr room ↦ rw room (record {
          exact = sym (select-append_hits cost window now tr.log);
          within = ground (arith, filled);
          sorted = append_hits-Sorted cost now tr.log h.sorted past;
          past = All-append_hits (λ u. u ≤ now) cost now tr.log (omega arith) past;
        })
      ])

-- The requests of one key, as pairs of a time and a cost, in the order of the clock.
abbrev pub InOrder : ℕ → List (ℕ × ℕ) → Type 0
InOrder t [] = Unit
InOrder t ((now, cost) ∷ rest) = (t ≤ now) × InOrder now rest

-- Every request of a history, on the trace before it, is served by the log.
abbrev pub AllServed : ℕ → ℕ → List (ℕ × ℕ) → Trace → Type 0
AllServed limit window [] tr = Unit
AllServed limit window ((now, cost) ∷ rest) tr =
    let (d, tr') = request limit window cost now tr in
    Serves limit window cost now tr d tr'
    × (length tr'.hits ≤ limit)
    × (tr'.hits ≡ select (in_window window now) tr'.log)
    × AllServed limit window rest tr'

serves_all :
    (limit window t : ℕ) (requests : List (ℕ × ℕ)) (tr : Trace)
    → IsTrace limit window t tr
    → InOrder t requests
    → AllServed limit window requests tr
serves_all limit window t [] tr h o = tt
serves_all limit window t ((now, cost) ∷ rest) tr h o =
    let kept = request-IsTrace limit window t now cost tr h o.0 in
    (
      request-Serves limit window t now cost tr h o.0,
      kept.within,
      kept.exact,
      serves_all limit window now rest (request limit window cost now tr).1 kept o.1,
    )

-- For any limit, window and history of one key's requests in clock order: each request is admitted
-- exactly when its cost and the hits admitted within the window before it stay within the limit, an
-- admitted one reports the rest of that budget, a refused one is told a wait after which the oldest
-- of these hits no longer counts, and the deque is always exactly the admitted hits that the window
-- still counts, never more than the limit.
pub sliding_window_exact :
    (limit window : ℕ) (requests : List (ℕ × ℕ))
    → InOrder 0 requests
    → AllServed limit window requests (record { hits = []; log = [] })
sliding_window_exact limit window requests o =
    serves_all limit window 0 requests (record { hits = []; log = [] })
      (record { exact = refl; within = omega arith; sorted = tt; past = tt }) o
