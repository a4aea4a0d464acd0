-- ===== src/Jobs/Backoff.antt =====
-- services/backend/app/services/jobs.py, `backoff_delay`: the bounds of the retry delay.
use native.Mathlib.Nat.{pow-le-pow_right, mul-le-mul_left, div-le_of_le-mul, le_trans}
use chrome_chatgpt_data.Prelude.{ℕ, ◌-◌, ◌*◌, ◌/◌, ◌^◌, ◌≤◌, ◌<◌, ◌≡◌, min, arith}
use chrome_chatgpt_data.Jobs.{
  second, base_backoff_seconds, max_backoff_seconds, uniform, backoff_ceiling, backoff_delay,
}

two_pow_mono : (i j : ℕ) → i ≤ j → 2 ^ i ≤ 2 ^ j
two_pow_mono i j h = pow-le-pow_right (omega arith) h

-- A draw below 1 stays below the upper end.
scaled_draw : (w k : ℕ) → k < 2 ^ 53 → w * k / 2 ^ 53 ≤ w
scaled_draw w k h =
    div-le_of_le-mul (2 ^ 53)
      (le_trans {m = w * 2 ^ 53} (mul-le-mul_left w (omega arith)) (omega arith))

pub backoff_ceiling_bounds :
    (n : ℕ) → (base_backoff_seconds ≤ backoff_ceiling n) × (backoff_ceiling n ≤ max_backoff_seconds)
unfolding backoff_ceiling
backoff_ceiling_bounds n = (omega (arith, two_pow_mono 0 (min n 12) (omega arith)), omega arith)

-- For every number of attempts and every draw of `random.random()`, the delay is at least five
-- seconds, at most the exponential ceiling of that many attempts, and at most one hour.
pub backoff_delay_bounds :
    (attempts k : ℕ)
    → k < 2 ^ 53
    → (base_backoff_seconds * second ≤ backoff_delay attempts k)
      × (backoff_delay attempts k ≤ backoff_ceiling attempts * second)
      × (backoff_delay attempts k ≤ max_backoff_seconds * second)
unfolding backoff_delay uniform
backoff_delay_bounds attempts k h = omega (
  arith,
  backoff_ceiling_bounds attempts,
  scaled_draw ((backoff_ceiling attempts - base_backoff_seconds) * second) k h,
)

-- The ceiling never falls with the number of attempts; it is 5 * 2 ^ attempts below ten attempts,
-- and one hour from ten attempts on.
pub backoff_ceiling_doubles :
    (n m : ℕ)
    → (n ≤ m → backoff_ceiling n ≤ backoff_ceiling m)
      × (n < 10 → backoff_ceiling n ≡ base_backoff_seconds * 2 ^ n)
      × (10 ≤ n → backoff_ceiling n ≡ max_backoff_seconds)
unfolding backoff_ceiling
backoff_ceiling_doubles n m = (monotone, doubling, capped)
  where
    monotone : n ≤ m → min (5 * 2 ^ min n 12) 3600 ≤ min (5 * 2 ^ min m 12) 3600
    monotone h = omega (arith, two_pow_mono (min n 12) (min m 12) (omega arith))

    doubling : n < 10 → min (5 * 2 ^ min n 12) 3600 ≡ 5 * 2 ^ n
    doubling h =
        let same : min n 12 ≡ n = omega arith in
        rw same (omega (arith, two_pow_mono n 9 (omega arith)))

    capped : 10 ≤ n → min (5 * 2 ^ min n 12) 3600 ≡ 3600
    capped h = omega (arith, two_pow_mono 10 (min n 12) (omega arith))
