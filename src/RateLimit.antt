-- ===== src/RateLimit.antt =====
-- services/backend/app/core/ratelimit.py: the sliding-window limiter and the composite of four. A time
-- is a reading of the monotonic clock in microseconds; a deque is a list, oldest hit first.
pub mod Window
pub mod Guarantee
pub mod Composite
mod Tests
use Prim.Native.String.{◌++◌ as concat}
use text.Mathlib.Text.{◌==◌ as str_eq}
use chrome_chatgpt_data.Prelude.{
  ℕ, zero, suc, ◌+◌, ◌-◌, ◌*◌, ◌/◌, ◌%◌, max, String, Bool, true, false, not, ◌&&◌, ◌||◌, Option,
  none, some, List, [], ◌∷◌, ◌++◌, map, ltb, leb, ◌==◌, if◌then◌else◌, length, take,
}
use chrome_chatgpt_data.Prelude.Rows.{select, delete}

abbrev pub second : ℕ
second = 1_000_000

abbrev pub window_seconds : ℕ
window_seconds = 60 * second

abbrev pub max_tracked_keys : ℕ
max_tracked_keys = 100_000

abbrev pub cleanup_every : ℕ
cleanup_every = 2048

pub record RateLimitDecision : Type 0 where
  pub allowed : Bool
  pub remaining : ℕ
  pub retry_after : ℕ
  pub limit : ℕ

-- `_hits: dict[str, deque[float]]`, in insertion order.
abbrev pub Hits : Type 0
Hits = List (String × List ℕ)

pub record SlidingWindowLimiter : Type 0 where
  pub limit : ℕ
  pub window : ℕ
  pub hits : Hits
  pub ops : ℕ

pub new_limiter : ℕ → ℕ → SlidingWindowLimiter
new_limiter limit window = record { limit = max 1 limit; window = window; hits = []; ops = 0 }

-- `hits[-1]`, with `d` for an empty deque.
abbrev pub last_hit : ℕ → List ℕ → ℕ
last_hit d [] = d
last_hit d (t ∷ ts) = last_hit t ts

-- `not hits or now - hits[-1] > self.window`
abbrev pub is_stale : ℕ → ℕ → List ℕ → Bool
is_stale window now [] = true
is_stale window now (t ∷ ts) = ltb (last_hit t ts + window) now

-- `sorted(…, key=lambda kv: kv[1][-1] if kv[1] else 0.0)`, a stable sort.
insert_by_last : String × List ℕ → Hits → Hits
insert_by_last e [] = e ∷ []
insert_by_last e (f ∷ fs) =
    let rest = insert_by_last e fs in
    if leb (last_hit 0 e.1) (last_hit 0 f.1) then e ∷ f ∷ fs else f ∷ rest

sort_by_last : Hits → Hits
unfolding insert_by_last
sort_by_last [] = []
sort_by_last (e ∷ es) = insert_by_last e (sort_by_last es)

abbrev has_key : String → String × List ℕ → Bool
has_key k e = str_eq e.0 k

abbrev key_in : List String → String → Bool
key_in [] k = false
key_in (j ∷ js) k = str_eq j k || key_in js k

-- `for key in keys: self._hits.pop(key, None)`
pub pop_keys : List String → Hits → Hits
pop_keys keys = delete (λ e. key_in keys e.0)

abbrev keys : Hits → List String
keys [] = []
keys (e ∷ es) = e.0 ∷ keys es

pub evict_coldest : Hits → Hits
unfolding sort_by_last pop_keys
evict_coldest hits = pop_keys (keys (take (length hits / 2) (sort_by_last hits))) hits

pub prune : ℕ → ℕ → Hits → Hits
unfolding evict_coldest
prune window now hits =
    let kept = delete (λ e. is_stale window now e.1) hits in
    if ltb max_tracked_keys (length kept) then evict_coldest kept else kept

pub lookup : String → Hits → List ℕ
lookup k [] = []
lookup k (e ∷ es) = let rest = lookup k es in if has_key k e then e.1 else rest

-- The dictionary after `setdefault(k, deque())` and the changes made to that deque.
pub store : String → List ℕ → Hits → Hits
store k v [] = (k, v) ∷ []
store k v (e ∷ es) = let rest = store k v es in if has_key k e then (e.0, v) ∷ es else e ∷ rest

-- `while hits and hits[0] < cutoff: hits.popleft()`, with `cutoff = now - window`.
unfoldable pub pop_expired : ℕ → ℕ → List ℕ → List ℕ
pop_expired window now [] = []
pop_expired window now (t ∷ ts) =
    let rest = pop_expired window now ts in if ltb (t + window) now then rest else t ∷ ts

-- `for _ in range(cost): hits.append(now)`
unfoldable pub append_hits : ℕ → ℕ → List ℕ → List ℕ
append_hits zero now hits = hits
append_hits (suc n) now hits = append_hits n now (hits ++ now ∷ [])

abbrev oldest : ℕ → List ℕ → ℕ
oldest now [] = now
oldest now (t ∷ ts) = t

-- The decision on one deque, and the deque after it.
unfoldable pub admit : ℕ → ℕ → ℕ → ℕ → List ℕ → RateLimitDecision × List ℕ
unfolding pop_expired append_hits
admit limit window cost now hits =
    let live = pop_expired window now hits in
    let filled = append_hits cost now live in
    if ltb limit (length live + cost)
    then (
      record {
        allowed = false;
        remaining = 0;
        retry_after = max 1 ((window - (now - oldest now live)) / second + 1);
        limit = limit;
      },
      live,
    )
    else (
      record { allowed = true; remaining = limit - length filled; retry_after = 0; limit = limit },
      filled,
    )

-- `SlidingWindowLimiter.check`
pub check : String → ℕ → ℕ → SlidingWindowLimiter → RateLimitDecision × SlidingWindowLimiter
unfolding prune lookup store admit
check key cost now s =
    let ops = s.ops + 1 in
    let hits = if ops % cleanup_every == 0 then prune s.window now s.hits else s.hits in
    let (decision, live) = admit s.limit s.window cost now (lookup key hits) in
    (decision, record s { hits = store key live hits; ops = ops })

pub reset : SlidingWindowLimiter → SlidingWindowLimiter
reset s = record s { hits = []; ops = 0 }
