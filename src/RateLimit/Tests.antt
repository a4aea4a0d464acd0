-- ===== src/RateLimit/Tests.antt =====
-- services/backend/app/core/ratelimit.py: the limiter on small inputs, and the theorems at them.
use chrome_chatgpt_data.Prelude.{ℕ, ◌≡◌, refl, true, false, List, [], ◌∷◌, arith}
use chrome_chatgpt_data.RateLimit.{RateLimitDecision, admit, pop_expired}
use chrome_chatgpt_data.RateLimit.Guarantee.{AllServed, sliding_window_exact}

-- Two requests in a window of ten that holds two, a third that is refused, and a fourth after it.
abbrev four_requests : List (ℕ × ℕ)
four_requests = (1, 1) ∷ (4, 1) ∷ (9, 1) ∷ (12, 1) ∷ []

sliding_window_exact_example : AllServed 2 10 four_requests (record { hits = []; log = [] })
sliding_window_exact_example =
    sliding_window_exact 2 10 four_requests
      (omega arith, (omega arith, (omega arith, (omega arith, tt))))

third_refused : (admit 2 10 1 9 (1 ∷ 4 ∷ [])).0.allowed ≡ false
unfolding admit pop_expired
third_refused = refl

abbrev passes : RateLimitDecision
passes = record { allowed = true; remaining = 3; retry_after = 0; limit = 5 }

abbrev waits : ℕ → RateLimitDecision
waits n = record { allowed = false; remaining = 0; retry_after = n; limit = 5 }

abbrev three_checks : List RateLimitDecision
three_checks = waits 4 ∷ waits 9 ∷ waits 2 ∷ []
