-- ===== src/Resilience/Bulkhead/Capacity.antt =====
-- How many coroutines a bulkhead lets in, over any calls.
use python_commons.Base.{
  ==_iff, subst, ◌↔◌, ℕ, ◌+◌, ◌≤◌, ◌==◌, ◌≡◌, refl, ◌⊎◌, inl, inr, List, [], ◌∷◌, length, arith,
  Bool-cases,
}
use python_commons.Resilience.Bulkhead.{
  QueueLimiter, init, remove, member, full, acquire_slot, aenter, release_to, aexit, cancel,
}
use python_commons.Resilience.Bulkhead.Invariant.{
  Call, enter, leave, cancelled, step, run, lost, IsValid, init-IsValid, run-IsValid,
}

-- The two limits are never changed.
IsSized : ℕ → ℕ → QueueLimiter → Type 0
IsSized c q s = (s.max_concurrent ≡ c) × (s.max_queue ≡ q)

release_to-IsSized :
    (c q : ℕ) (ws : List ℕ) (s : QueueLimiter) → IsSized c q s → IsSized c q (release_to ws s)
unfolding IsSized release_to
release_to-IsSized c q [] s h = h
release_to-IsSized c q (w ∷ ws) s h = h

step-IsSized : (c q : ℕ) (d : Call) (s : QueueLimiter) → IsSized c q s → IsSized c q (step s d)
unfolding IsSized step aenter acquire_slot aexit cancel
step-IsSized c q (enter i) s h = ground arith
step-IsSized c q (leave i) s h = elim (Bool-cases (member i s.inside)) [
  | inl e ↦ rw e (release_to-IsSized c q s.waiting (record s { inside = remove i s.inside }) h)
  | inr e ↦ rw e h
]
step-IsSized c q (cancelled i) s h = h

run-IsSized : (c q : ℕ) (ds : List Call) (s : QueueLimiter) → IsSized c q s → IsSized c q (run s ds)
unfolding run
run-IsSized c q [] s h = h
run-IsSized c q (d ∷ ds) s h = run-IsSized c q ds (step s d) (step-IsSized c q d s h)

init-IsSized : (c q : ℕ) → IsSized c q (init c q)
unfolding IsSized init
init-IsSized c q = (refl, refl)

run-init-IsValid :
    (c q : ℕ) (ds : List Call)
    → IsValid (lost (init c q) ds) (run (init c q) ds) × IsSized c q (run (init c q) ds)
unfolding IsSized
run-init-IsValid c q ds = (
  subst (λ m. IsValid m (run (init c q) ds)) (omega arith)
      (run-IsValid 0 ds (init c q) (init-IsValid c q)),
  run-IsSized c q ds (init c q) (init-IsSized c q),
)

bounded :
    {c q n : ℕ} (s : QueueLimiter)
    → IsValid n s
    → s.max_concurrent ≡ c
    → s.max_queue ≡ q
    → (length s.inside ≤ c)
      × (length s.waiting ≤ q)
      × ((length s.waiting ≡ 0) ⊎ (length s.inside ≡ c))
bounded s v e f = (
  omega (arith, v.slots),
  ground (arith, v.busy, v.slots, v.places),
  ground (arith, v.busy, v.slots),
)

aenter-full :
    {c q n : ℕ} (i : ℕ) (s : QueueLimiter)
    → IsValid n s
    → s.max_concurrent ≡ c
    → s.max_queue ≡ q
    → ((aenter i s).1 ≡ full) ↔ (length s.inside + length s.waiting + n ≡ c + q)
unfolding aenter acquire_slot
aenter-full i s v e f = elim (Bool-cases (s.queue == 0)) [
  | inl z ↦ rw z ((λ _. omega (arith, v.places, (==_iff s.queue 0).0 z)), (λ _. refl))
  | inr z ↦ elim (Bool-cases (s.semaphore == 0)) [
    | inl y ↦ rw (z, y) ((λ h. cc), (λ h. absurd (ground (arith, z, v.places, h))))
    | inr y ↦ rw (z, y) ((λ h. cc), (λ h. absurd (ground (arith, z, v.places, h))))
  ]
]

-- After any calls at most max_concurrent coroutines are inside and at most max_queue wait, and
-- one waits only while max_concurrent are inside.
pub run-bounded :
    (c q : ℕ) (ds : List Call)
    → (length (run (init c q) ds).inside ≤ c)
      × (length (run (init c q) ds).waiting ≤ q)
      × ((length (run (init c q) ds).waiting ≡ 0) ⊎ (length (run (init c q) ds).inside ≡ c))
unfolding IsSized
run-bounded c q ds = let (v, (e, f)) = run-init-IsValid c q ds in bounded (run (init c q) ds) v e f

-- After any calls a coroutine is refused exactly if those that are inside, those that wait and
-- those that were cancelled while they waited fill max_concurrent + max_queue: a cancellation takes
-- a place for good.
pub aenter_full_iff :
    (c q : ℕ) (ds : List Call) (i : ℕ)
    → ((aenter i (run (init c q) ds)).1 ≡ full) ↔ (
        length (run (init c q) ds).inside + length (run (init c q) ds).waiting + lost (init c q) ds
        ≡ c + q)
unfolding IsSized
aenter_full_iff c q ds i =
    let (v, (e, f)) = run-init-IsValid c q ds in aenter-full i (run (init c q) ds) v e f
