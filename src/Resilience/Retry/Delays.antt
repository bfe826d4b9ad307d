-- ===== src/Resilience/Retry/Delays.antt =====
-- The bounds of the delays.
use python_commons.Base.{ℕ, zero, suc, ◌/◌, ◌^◌, ◌≤◌, arith}
use native.Mathlib.Nat.{mul-le-mul_left}
use python_commons.Resilience.Retry.{BackoffStrategy, compute, JitterStrategy, apply}

pow_le : (m n : ℕ) → m ≤ n → 2 ^ m ≤ 2 ^ n
pow_le zero zero l = omega arith
pow_le (suc m) zero l = absurd (omega (arith, l))
pow_le zero (suc n) l = omega (arith, pow_le 0 n (omega arith))
pow_le (suc m) (suc n) l = omega (arith, pow_le m n (omega (arith, l)))

-- A linear or exponential backoff never exceeds its maximum, and does not fall as the attempt
-- grows.
pub compute_bounds :
    (base max_delay m n : ℕ)
    → m ≤ n
    → (compute (BackoffStrategy.exponential base max_delay) m
        ≤ compute (BackoffStrategy.exponential base max_delay) n)
      × (compute (BackoffStrategy.exponential base max_delay) n ≤ max_delay)
      × (compute (BackoffStrategy.linear base max_delay) m
          ≤ compute (BackoffStrategy.linear base max_delay) n)
      × (compute (BackoffStrategy.linear base max_delay) n ≤ max_delay)
unfolding compute
compute_bounds base max_delay m n l =
    let growing = mul-le-mul_left base l in
    let doubling = mul-le-mul_left base (pow_le m n l) in
    (omega (arith, doubling), omega arith, omega (arith, growing), omega arith)

-- If `random.uniform` keeps to its bounds, no jitter exceeds the delay, and the equal jitter is at
-- least the half of it.
pub apply_bounds :
    (draw : ℕ → ℕ → ℕ → ℕ)
    → ((low high attempt : ℕ)
        → low ≤ high
        → (low ≤ draw low high attempt) × (draw low high attempt ≤ high))
    → (jitter : JitterStrategy) (d attempt : ℕ)
    → (apply draw jitter d attempt ≤ d) × (d / 2 ≤ apply draw JitterStrategy.equal d attempt)
unfolding apply
apply_bounds draw h JitterStrategy.no_jitter d attempt = (omega arith, omega arith)
apply_bounds draw h JitterStrategy.full d attempt =
    ((h 0 d attempt (omega arith)).1, omega (arith, h 0 (d / 2) attempt (omega arith)))
apply_bounds draw h JitterStrategy.equal d attempt =
    let half = h 0 (d / 2) attempt (omega arith) in (omega (arith, half.1), omega (arith, half.0))
