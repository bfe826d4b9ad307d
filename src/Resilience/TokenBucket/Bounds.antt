-- ===== src/Resilience/TokenBucket/Bounds.antt =====
-- How many tokens the bucket grants, and when the delay that it reports suffices.
use python_commons.Base.{
  ℕ, ◌+◌, ◌-◌, ◌*◌, ◌≤◌, ◌≡◌, ◌↔◌, ap, subst, sym, true, List, [], ◌∷◌, arith, Bool-cases, inl, inr,
  leb, min, if◌then◌else◌,
}
use python_commons.Resilience.TokenBucket.{TokenBucket, RetryAfter, acquire, retry_after_ms}

-- A request: how many tokens, and at what time.
abbrev pub Request : Type 0
Request = ℕ × ℕ

-- The times of the requests never go back.
abbrev pub IsOrdered : ℕ → List Request → Type 0
IsOrdered t [] = Unit
IsOrdered t ((_, now) ∷ rs) = (t ≤ now) × IsOrdered now rs

-- The tokens granted to the requests, and the bucket after them.
unfoldable pub serve : TokenBucket → List Request → ℕ × TokenBucket
serve b [] = (0, b)
serve b ((n, now) ∷ rs) =
    let (b', granted) = acquire b n now in
    let (total, last) = serve b' rs in ((if granted then n else 0) + total, last)

acquire_tokens :
    (b : TokenBucket) (n now : ℕ)
    → let (b', granted) = acquire b n now in
      ((if granted then n else 0) + b'.tokens
        ≡ min b.capacity (b.tokens + (now - b.last_refill) * b.refill_rate))
      × (b'.capacity ≡ b.capacity)
      × (b'.refill_rate ≡ b.refill_rate)
      × (b'.last_refill ≡ now)
unfolding acquire
acquire_tokens b n now = ground arith

span_mul :
    (t now last r : ℕ) → t ≤ now → now ≤ last → (now - t) * r + (last - now) * r ≡ (last - t) * r
span_mul t now last r p q =
    let e : last - t ≡ (now - t) + (last - now) = omega arith in
    omega (arith, ap (λ (n : ℕ). n * r) e)

serve_last :
    (rs : List Request) (b : TokenBucket)
    → IsOrdered b.last_refill rs
    → b.last_refill ≤ (serve b rs).1.last_refill
unfolding serve acquire
serve_last [] b o = omega arith
serve_last ((n, now) ∷ rs) b o =
    let same = (acquire_tokens b n now).3 in
    omega
      (arith, same, serve_last rs (acquire b n now).0 (subst (λ t. IsOrdered t rs) (sym same) o.1))

-- Over any ordered sequence of requests the bucket grants at most what it held and what has
-- flowed in from its first refill to its last; what it still holds counts as well.
pub serve_bounded :
    (rs : List Request) (b : TokenBucket)
    → IsOrdered b.last_refill rs
    → let (granted, last) = serve b rs in
      granted + last.tokens ≤ b.tokens + (last.last_refill - b.last_refill) * b.refill_rate
unfolding serve
serve_bounded [] b o = omega arith
serve_bounded ((n, now) ∷ rs) b o =
    let (held, cap, rate, same) = acquire_tokens b n now in
    let b' = (acquire b n now).0 in
    let o' : IsOrdered b'.last_refill rs = subst (λ t. IsOrdered t rs) (sym same) o.1 in
    let later = serve_last rs b' o' in
    let rest = serve_bounded rs b' o' in
    let span =
      span_mul b.last_refill now (serve b' rs).1.last_refill b.refill_rate o.0
        (omega (arith, same, later)) in
    let rest' = rw (same, rate) at rest in omega (arith, rest', held, span)

-- The time `wait`, in ticks, is at least the reported delay.
abbrev pub Suffices : RetryAfter → ℕ → Type 0
Suffices RetryAfter.at_once wait = Unit
Suffices RetryAfter.never wait = ⊥
Suffices (RetryAfter.fraction needed rate) wait = needed ≤ wait * rate

-- For a request that fits the capacity the reported delay is exact: an attempt after the time
-- `wait`, with no other attempt in between, is granted exactly when `wait` is at least the delay.
pub retry_after_exact :
    (b : TokenBucket) (n wait : ℕ)
    → n ≤ b.capacity
    → ((acquire b n (b.last_refill + wait)).1 ≡ true) ↔ Suffices (retry_after_ms b n) wait
unfolding acquire retry_after_ms
retry_after_exact b n wait h = elim (Bool-cases (leb n b.tokens)) [
  | inl enough ↦ rw enough (λ _. tt, λ _. grind arith)
  | inr short ↦ elim (Bool-cases (leb b.refill_rate 0)) [
    | inl still ↦
        rw (short, still)
          (let z : b.refill_rate ≡ 0 = ground arith in
            let none_flows : (b.last_refill + wait - b.last_refill) * b.refill_rate ≡ 0 =
              rw z (omega arith) in
            (λ q. ground (arith, none_flows), λ f. absurd f))
    | inr flows ↦ rw (short, flows) (ground arith)
  ]
]
