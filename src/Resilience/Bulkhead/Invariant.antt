-- ===== src/Resilience/Bulkhead/Invariant.antt =====
-- The invariant of the bulkhead, under any calls.
use mathlib.Core.Bool.{false≢true}
use python_commons.Base.{
  ==_iff, subst, ℕ, suc, ◌+◌, ◌-◌, ◌<◌, ◌==◌, ◌≡◌, refl, ap, true, false, ◌⊎◌, inl, inr, List, [],
  ◌∷◌, if◌then◌else◌, length, length-append, arith, Bool-cases,
}
use python_commons.Resilience.Bulkhead.{
  QueueLimiter, init, remove, member, acquire_slot, aenter, release_to, aexit, cancel,
}

pub data Call : Type 0 where
  enter leave cancelled : ℕ → Call

unfoldable pub step : QueueLimiter → Call → QueueLimiter
step s (enter i) = (aenter i s).0
step s (leave i) = aexit i s
step s (cancelled i) = cancel i s

unfoldable pub run : QueueLimiter → List Call → QueueLimiter
run s [] = s
run s (c ∷ cs) = run (step s c) cs

-- whether a call cancels a coroutine that waits
abbrev lost_by : Call → QueueLimiter → ℕ
lost_by (cancelled i) s = if member i s.waiting then 1 else 0
lost_by _ s = 0

-- how many coroutines were cancelled while they waited
unfoldable pub lost : QueueLimiter → List Call → ℕ
unfolding step
lost s [] = 0
lost s (c ∷ cs) = lost_by c s + lost (step s c) cs

-- Every slot is free or taken, nobody waits while one is free, and every place is free, taken,
-- waited in, or one of the `n` that are lost.
pub record IsValid (n : ℕ) (s : QueueLimiter) : Type 0 where
  pub slots : s.semaphore + length s.inside ≡ s.max_concurrent
  pub busy : (length s.waiting ≡ 0) ⊎ (s.semaphore ≡ 0)
  pub places : s.queue + length s.inside + length s.waiting + n ≡ s.max_concurrent + s.max_queue

length-remove : (i : ℕ) (js : List ℕ) → member i js ≡ true → length (remove i js) + 1 ≡ length js
unfolding remove member
length-remove i [] h = absurd (false≢true h)
length-remove i (j ∷ js) h = ground (arith, length-remove i js)

remove-absent : (i : ℕ) (js : List ℕ) → member i js ≡ false → remove i js ≡ js
unfolding remove member
remove-absent i [] h = refl
remove-absent i (j ∷ js) h = ground (arith, remove-absent i js)

pub init-IsValid : (c q : ℕ) → IsValid 0 (init c q)
unfolding init
init-IsValid c q = record { slots = omega arith; busy = inl refl; places = omega arith }

acquire_slot-IsValid :
    (n i : ℕ) (s : QueueLimiter)
    → 0 < s.queue
    → IsValid n s
    → IsValid n (acquire_slot i (record s { queue = s.queue - 1 })).0
unfolding acquire_slot
acquire_slot-IsValid n i s h v = elim (Bool-cases (s.semaphore == 0)) [
  | inl e ↦ rw e (record {
    slots = v.slots;
    busy = inr ((==_iff s.semaphore 0).0 e);
    places = omega (arith, v.places, length-append s.waiting (i ∷ []));
  })
  | inr e ↦ rw e (record {
    slots = ground (arith, v.slots, e);
    busy = ground (arith, v.busy, e);
    places = omega (arith, v.places);
  })
]

aenter-IsValid : (n i : ℕ) (s : QueueLimiter) → IsValid n s → IsValid n (aenter i s).0
unfolding aenter
aenter-IsValid n i s v = elim (Bool-cases (s.queue == 0)) [
  | inl e ↦ rw e v
  | inr e ↦ rw e (acquire_slot-IsValid n i s (ground arith) v)
]

-- A slot that was given up goes on to the first that waits.
release_to-IsValid :
    (n : ℕ) (ws : List ℕ) (s : QueueLimiter)
    → s.waiting ≡ ws
    → s.semaphore + suc (length s.inside) ≡ s.max_concurrent
    → (length s.waiting ≡ 0) ⊎ (s.semaphore ≡ 0)
    → suc s.queue + length s.inside + length s.waiting + n ≡ s.max_concurrent + s.max_queue
    → IsValid n (record (release_to ws s) { queue = (release_to ws s).queue + 1 })
unfolding release_to
release_to-IsValid n [] s e slots busy places = record {
  slots = omega (arith, slots);
  busy = inl (ap length e);
  places = omega (arith, places);
}
release_to-IsValid n (w ∷ ws) s e slots busy places = record {
  slots = omega (arith, slots);
  busy = ground (arith, busy, ap length e);
  places = omega (arith, places, ap length e);
}

aexit-IsValid : (n i : ℕ) (s : QueueLimiter) → IsValid n s → IsValid n (aexit i s)
unfolding aexit
aexit-IsValid n i s v = elim (Bool-cases (member i s.inside)) [
  | inl e ↦ rw e (
      release_to-IsValid n s.waiting (record s { inside = remove i s.inside }) refl
        (omega (arith, v.slots, length-remove i s.inside e)) v.busy
        (omega (arith, v.places, length-remove i s.inside e)))
  | inr e ↦ rw e v
]

cancel-IsValid :
    (n i : ℕ) (s : QueueLimiter) → IsValid n s → IsValid (lost_by (cancelled i) s + n) (cancel i s)
unfolding cancel
cancel-IsValid n i s v = elim (Bool-cases (member i s.waiting)) [
  | inl e ↦ rw e (record {
    slots = v.slots;
    busy = ground (arith, v.busy, length-remove i s.waiting e);
    places = omega (arith, v.places, length-remove i s.waiting e);
  })
  | inr e ↦
      rw (e, remove-absent i s.waiting e)
        (record { slots = v.slots; busy = v.busy; places = omega (arith, v.places) })
]

add_zero : (n : ℕ) → 0 + n ≡ n
add_zero n = omega arith

step-IsValid :
    (n : ℕ) (c : Call) (s : QueueLimiter) → IsValid n s → IsValid (lost_by c s + n) (step s c)
unfolding step
step-IsValid n (enter i) s v = rw (add_zero n) (aenter-IsValid n i s v)
step-IsValid n (leave i) s v = rw (add_zero n) (aexit-IsValid n i s v)
step-IsValid n (cancelled i) s v = cancel-IsValid n i s v

pub run-IsValid :
    (n : ℕ) (cs : List Call) (s : QueueLimiter) → IsValid n s → IsValid (lost s cs + n) (run s cs)
unfolding run lost
run-IsValid n [] s v = rw (add_zero n) v
run-IsValid n (c ∷ cs) s v =
    subst (λ m. IsValid m (run (step s c) cs)) (omega arith)
      (run-IsValid (lost_by c s + n) cs (step s c) (step-IsValid n c s v))
