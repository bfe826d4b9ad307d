-- ===== src/Resilience/TokenBucket/Tests.antt =====
-- Runs of the bucket at concrete inputs, and the theorems there.
use python_commons.Base.{ℕ, ◌+◌, ◌-◌, ◌*◌, ◌≤◌, ◌≡◌, refl, true, List, [], ◌∷◌, arith}
use python_commons.Outcome.{returned}
use python_commons.Resilience.TokenBucket.{
  TokenBucket, RetryAfter, Throttled, post_init, acquire, execute,
}
use python_commons.Resilience.TokenBucket.Bounds.{Request, serve, serve_bounded}

abbrev bucket : TokenBucket
bucket = record { capacity = 10; refill_rate = 2; tokens = 3; last_refill = 100 }

abbrev requests : List Request
requests = (3, 100) ∷ (5, 102) ∷ (4, 102) ∷ []

execute_refused : execute {T = ℕ} {E = ℕ} bucket 9 101 (returned 1) ≡ (
  record bucket { tokens = 5; last_refill = 101 },
  Throttled.throttled_error (RetryAfter.fraction 4 2),
)
unfolding execute
execute_refused = refl

post_init_full : acquire (post_init 10 2 100) 10 100 ≡ (record bucket { tokens = 0 }, true)
unfolding post_init acquire
post_init_full = refl

serve_bounded_example :
    let (granted, last) = serve bucket requests in
    granted + last.tokens ≤ 3 + (last.last_refill - 100) * 2
serve_bounded_example = serve_bounded requests bucket (omega arith)
