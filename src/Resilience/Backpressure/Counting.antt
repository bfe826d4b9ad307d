-- ===== src/Resilience/Backpressure/Counting.antt =====
-- The policy against a counter of the coroutines that are inside.
use python_commons.Base.{
  ℕ, zero, suc, ◌+◌, ◌-◌, ◌<◌, ◌==◌, ◌≡◌, refl, Bool, true, Bool-cases, inl, inr, Option, none,
  some, List, [], ◌∷◌, if◌then◌else◌, arith,
}
use python_commons.Resilience.Backpressure.{
  BackpressurePolicy, BackpressureError, make, in_flight, is_overloaded, aenter, aexit,
}

-- A coroutine enters, or one that is inside leaves.
pub data Call : Type 0 where
  enters leaves : Call

-- what the policy shows after a call: the error of the call, `in_flight` and `is_overloaded`
abbrev pub Shown : Type 0
Shown = Option BackpressureError × ℕ × Bool

show : BackpressurePolicy → Option BackpressureError → Shown
show p e = (e, in_flight p, is_overloaded p)

-- `n` coroutines are inside; with none inside nobody leaves
unfoldable pub serve : BackpressurePolicy → ℕ → List Call → List Shown
unfolding show
serve p n [] = []
serve p n (enters ∷ cs) =
    let (q, e) = aenter p in
    let rest = serve q (elim e [ none ↦ suc n | some _ ↦ n ]) cs in show q e ∷ rest
serve p zero (leaves ∷ cs) = serve p zero cs
serve p (suc n) (leaves ∷ cs) = show (aexit p) none ∷ serve (aexit p) n cs

-- the promise: a counter of those inside, which at `max` refuses
unfoldable pub counted : ℕ → ℕ → List Call → List Shown
counted max n [] = []
counted max n (enters ∷ cs) =
    let refused = counted max n cs in
    let entered = counted max (suc n) cs in
    if n == max
    then (some (record { in_flight = max; max_in_flight = max }), n, true) ∷ refused
    else (none, suc n, suc n == max) ∷ entered
counted max zero (leaves ∷ cs) = counted max zero cs
counted max (suc n) (leaves ∷ cs) = (none, n, n == max) ∷ counted max n cs

serve-counted :
    (p : BackpressurePolicy) (n : ℕ) (cs : List Call)
    → p.value + n ≡ p.max
    → serve p n cs ≡ counted p.max n cs
unfolding serve counted show aenter aexit in_flight is_overloaded
serve-counted p n [] h = refl
serve-counted p n (enters ∷ cs) h = elim (Bool-cases (p.value == 0)) [
  | inl e ↦ ground (arith, e, h, serve-counted p n cs h)
  | inr e ↦ ground (
    arith,
    e,
    h,
    serve-counted (record p { value = p.value - 1 }) (suc n) cs (ground (arith, e, h)),
  )
]
serve-counted p zero (leaves ∷ cs) h = serve-counted p zero cs h
serve-counted p (suc n) (leaves ∷ cs) h =
    ground (arith, h, serve-counted (record p { value = p.value + 1 }) n cs (omega (arith, h)))

-- A policy for max_in_flight coroutines, at least one, shows over any calls what a counter of
-- those inside does: it refuses exactly at max_in_flight and reports the counter.
pub make-counted :
    (max : ℕ) (cs : List Call)
    → 0 < max
    → (p : BackpressurePolicy) × (make max ≡ some p) × (serve p 0 cs ≡ counted max 0 cs)
unfolding make
make-counted max cs h = (
  record { max = max; value = max },
  ground arith,
  serve-counted (record { max = max; value = max }) 0 cs (omega arith),
)
