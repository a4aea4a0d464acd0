-- ===== src/RateLimit/Composite.antt =====
-- services/backend/app/core/ratelimit.py, `CompositeRateLimiter`: four limiters, and the strictest verdict.
use Prim.Native.String.{◌++◌ as concat}
use mathlib.Core.Path.{subst}
use chrome_chatgpt_data.Prelude.{
  ℕ, ◌+◌, ◌*◌, ◌/◌, ◌≤◌, ◌<◌, ◌≡◌, ◌↔◌, refl, sym, max, String, Bool, true, false, not, Option,
  none, some, List, [], ◌∷◌, ◌++◌, ltb, if◌then◌else◌, All, arith, Bool-cases, inl, inr,
}
use chrome_chatgpt_data.Prelude.Texts.{truthy}
use chrome_chatgpt_data.Prelude.Rows.{select}
use chrome_chatgpt_data.RateLimit.{
  RateLimitDecision, SlidingWindowLimiter, window_seconds, second, new_limiter, check, reset,
}

pub record CompositeRateLimiter : Type 0 where
  pub user : SlidingWindowLimiter
  pub device : SlidingWindowLimiter
  pub ip : SlidingWindowLimiter
  pub burst : SlidingWindowLimiter

-- The share of one worker in the configured rate.
pub effective : ℕ → ℕ → ℕ
effective per_minute workers = max 1 (per_minute / max 1 workers)

pub new_composite : ℕ → ℕ → ℕ → CompositeRateLimiter
unfolding effective new_limiter
new_composite per_minute workers burst =
    let share = effective per_minute workers in
    record {
      user = new_limiter share window_seconds;
      device = new_limiter share window_seconds;
      ip = new_limiter (max share (share * 4)) window_seconds;
      burst = new_limiter (max 1 (burst / max 1 workers)) second;
    }

-- `max(denied, key=lambda c: c.retry_after)`: the first of the largest.
pub worst : RateLimitDecision → List RateLimitDecision → RateLimitDecision
worst d [] = d
worst d (e ∷ es) = worst (if ltb d.retry_after e.retry_after then e else d) es

-- `min(checks, key=lambda c: c.remaining)`
pub tightest : RateLimitDecision → List RateLimitDecision → RateLimitDecision
tightest d [] = d
tightest d (e ∷ es) = tightest (if ltb e.remaining d.remaining then e else d) es

pub judge : RateLimitDecision → List RateLimitDecision → List RateLimitDecision → RateLimitDecision
unfolding worst tightest
judge c cs [] = tightest c cs
judge c cs (d ∷ ds) = worst d ds

-- `[c for c in checks if not c.allowed]`
pub refused : List RateLimitDecision → List RateLimitDecision
refused = select (λ d. not d.allowed)

pub verdict : List RateLimitDecision → RateLimitDecision
unfolding judge refused
verdict [] = record { allowed = true; remaining = 0; retry_after = 0; limit = 0 }
verdict (c ∷ cs) = judge c cs (refused (c ∷ cs))

-- One limiter, if there is a key for it: its decisions, and its new state.
pub consult :
    String
    → Option String
    → ℕ
    → ℕ
    → SlidingWindowLimiter
    → List RateLimitDecision × SlidingWindowLimiter
consult prefix none cost now s = ([], s)
consult prefix (some key) cost now s =
    let (d, s') = check (concat prefix key) cost now s in (d ∷ [], s')

-- `CompositeRateLimiter.check`; the clock is read once by each limiter.
pub check_all :
    Option String
    → Option String
    → Option String
    → ℕ
    → ℕ
    → ℕ
    → ℕ
    → ℕ
    → CompositeRateLimiter
    → RateLimitDecision × CompositeRateLimiter
unfolding consult verdict
check_all user_key device_key ip_key cost now_user now_burst now_device now_ip c =
    let (users, user) = consult "u:" (truthy user_key) cost now_user c.user in
    let (bursts, burst) = consult "bu:" (truthy user_key) cost now_burst c.burst in
    let (devices, device) = consult "d:" (truthy device_key) cost now_device c.device in
    let (ips, ip) = consult "i:" (truthy ip_key) cost now_ip c.ip in
    (
      verdict (users ++ bursts ++ devices ++ ips),
      record { user = user; device = device; ip = ip; burst = burst },
    )

pub reset_all : CompositeRateLimiter → CompositeRateLimiter
reset_all c = record {
  user = reset c.user;
  device = reset c.device;
  ip = reset c.ip;
  burst = reset c.burst;
}

-- `n` is at least every wait of the list.
abbrev Covers : ℕ → List RateLimitDecision → Type 0
Covers n = All (λ e. e.retry_after ≤ n)

abbrev Least : ℕ → List RateLimitDecision → Type 0
Least n = All (λ e. n ≤ e.remaining)

worst-le :
    (d : RateLimitDecision) (es : List RateLimitDecision)
    → All (λ e. e.allowed ≡ false) (d ∷ es)
    → ((worst d es).allowed ≡ false) × Covers (worst d es).retry_after (d ∷ es)
unfolding worst
worst-le d [] h = (h.0, (omega arith, tt))
worst-le d (e ∷ es) h =
    step (ltb d.retry_after e.retry_after) refl (worst-le e es h.1) (worst-le d es (h.0, h.1.1))
  where
    step :
        (b : Bool)
        → ltb d.retry_after e.retry_after ≡ b
        → ((worst e es).allowed ≡ false) × Covers (worst e es).retry_after (e ∷ es)
        → ((worst d es).allowed ≡ false) × Covers (worst d es).retry_after (d ∷ es)
        → ((worst (if b then e else d) es).allowed ≡ false)
          × Covers (worst (if b then e else d) es).retry_after (d ∷ e ∷ es)
    step true t he hd = (he.0, (ground arith, he.1))
    step false f he hd = (hd.0, (hd.1.0, (ground arith, hd.1.1)))

tightest-le :
    (d : RateLimitDecision) (es : List RateLimitDecision)
    → All (λ e. e.allowed ≡ true) (d ∷ es)
    → ((tightest d es).allowed ≡ true) × Least (tightest d es).remaining (d ∷ es)
unfolding tightest
tightest-le d [] h = (h.0, (omega arith, tt))
tightest-le d (e ∷ es) h =
    step (ltb e.remaining d.remaining) refl (tightest-le e es h.1) (tightest-le d es (h.0, h.1.1))
  where
    step :
        (b : Bool)
        → ltb e.remaining d.remaining ≡ b
        → ((tightest e es).allowed ≡ true) × Least (tightest e es).remaining (e ∷ es)
        → ((tightest d es).allowed ≡ true) × Least (tightest d es).remaining (d ∷ es)
        → ((tightest (if b then e else d) es).allowed ≡ true)
          × Least (tightest (if b then e else d) es).remaining (d ∷ e ∷ es)
    step true t he hd = (he.0, (ground arith, he.1))
    step false f he hd = (hd.0, (hd.1.0, (ground arith, hd.1.1)))

refused-All : (cs : List RateLimitDecision) → All (λ e. e.allowed ≡ false) (refused cs)
unfolding refused
refused-All [] = tt
refused-All (c ∷ cs) = ground (arith, refused-All cs)

-- Nothing is refused exactly when every check passed.
refused_none : (cs : List RateLimitDecision) → refused cs ≡ [] → All (λ e. e.allowed ≡ true) cs
unfolding refused
refused_none [] h = tt
refused_none (c ∷ cs) h = ground (arith, refused_none cs)

refused_some :
    (cs : List RateLimitDecision) (d : RateLimitDecision) (ds : List RateLimitDecision)
    → refused cs ≡ d ∷ ds
    → ¬ All (λ e. e.allowed ≡ true) cs
unfolding refused
refused_some [] d ds h all = ground arith
refused_some (c ∷ cs) d ds h all = ground (arith, refused_some cs d ds, all.0, all.1)

-- A refused check of the list waits no longer than the bound that holds for the refused ones.
refused_bound :
    (n : ℕ) (cs : List RateLimitDecision)
    → All (λ e. e.retry_after ≤ n) (refused cs)
    → All (λ e. e.allowed ≡ false → e.retry_after ≤ n) cs
unfolding refused
refused_bound n [] h = tt
refused_bound n (c ∷ cs) h = elim (Bool-cases c.allowed) [
  | inl t ↦ ((λ f. ground arith), refused_bound n cs (ground arith))
  | inr f ↦ ground (arith, refused_bound n cs)
]

-- For any non-empty list of checks the composite verdict is the strictest: it allows the request
-- exactly when every check does, and then reports the least budget that remains; when it refuses,
-- every check that refuses asks for no longer a wait than the verdict does.
pub verdict_strictest :
    (c : RateLimitDecision) (cs : List RateLimitDecision)
    → let v = verdict (c ∷ cs) in
      ((v.allowed ≡ true) ↔ All (λ e. e.allowed ≡ true) (c ∷ cs))
      × (v.allowed ≡ true → All (λ e. v.remaining ≤ e.remaining) (c ∷ cs))
      × All (λ e. e.allowed ≡ false → e.retry_after ≤ v.retry_after) (c ∷ cs)
unfolding verdict
verdict_strictest c cs = go (refused (c ∷ cs)) refl
  where
    go :
        (ds : List RateLimitDecision)
        → refused (c ∷ cs) ≡ ds
        → let v = judge c cs ds in
          ((v.allowed ≡ true) ↔ All (λ e. e.allowed ≡ true) (c ∷ cs))
          × (v.allowed ≡ true → All (λ e. v.remaining ≤ e.remaining) (c ∷ cs))
          × All (λ e. e.allowed ≡ false → e.retry_after ≤ v.retry_after) (c ∷ cs)
    go [] none_refused =
        let all = refused_none (c ∷ cs) none_refused in
        let best = tightest-le c cs all in
        (
          (λ _. all, λ _. best.0),
          λ _. best.1,
          refused_bound (tightest c cs).retry_after (c ∷ cs) (
              subst (All (λ e. e.retry_after ≤ (tightest c cs).retry_after)) (sym none_refused) tt),
        )
    go (d ∷ ds) some_refused =
        let bad =
          worst-le d ds
            (subst (All (λ e. e.allowed ≡ false)) some_refused (refused-All (c ∷ cs))) in
        (
          (
            λ t. absurd (ground (arith, bad.0)),
            λ all. absurd (refused_some (c ∷ cs) d ds some_refused all),
          ),
          λ t. absurd (ground (arith, bad.0)),
          refused_bound (worst d ds).retry_after (c ∷ cs) (
              subst (All (λ e. e.retry_after ≤ (worst d ds).retry_after)) (sym some_refused) bad.1),
        )

-- Split over its workers, the configured rate is not exceeded by the shares together, as long as
-- every worker's share is at least one request.
pub effective_fleet :
    (per_minute workers : ℕ)
    → 1 ≤ workers
    → workers ≤ per_minute
    → (workers * effective per_minute workers ≤ per_minute)
      × (per_minute < workers * (effective per_minute workers + 1))
unfolding effective
effective_fleet per_minute workers h le = grind arith
