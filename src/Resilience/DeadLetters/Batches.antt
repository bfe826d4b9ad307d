-- ===== src/Resilience/DeadLetters/Batches.antt =====
-- Which entries a cycle replays.
use python_commons.Base.{
  ℕ, ◌+◌, ◌*◌, ◌≤◌, ◌≡◌, ◌≢◌, ◌∙◌, refl, leb, not, ◌&&◌, Bool-cases, inl, inr, String, Option, none,
  some, List, [], ◌∷◌, length, if◌then◌else◌, arith,
}
use python_commons.Outcome.{Outcome, returned, raised, cancelled}
use python_commons.Resilience.DeadLetters.{
  DeadLetterEntry, DeadLetterReplayScheduler, Cycle, backoff, count, continue_with, replay_loop,
  replay_batch,
}

-- the entries that are left to replay, in order
abbrev pub due : DeadLetterReplayScheduler → List DeadLetterEntry → List DeadLetterEntry
due s [] = []
due s (entry ∷ entries) =
    if not entry.replayed && not (leb s.max_retries entry.retry_count)
    then entry ∷ due s entries
    else due s entries

backoff_le :
    (s : DeadLetterReplayScheduler) (entry : DeadLetterEntry) → backoff s entry ≤ s.max_backoff
unfolding backoff
backoff_le s entry = omega arith

module _ {W X : Type 0} (s : DeadLetterReplayScheduler)
    (replay : String → W → W × Outcome (Unit {0}) X) where
  -- replays all of the given entries, whether replaying one raises or not
  pub replay_all : List DeadLetterEntry → W → W
  replay_all [] w = w
  replay_all (entry ∷ entries) w = replay_all entries (replay entry.id w).0

  abbrev pub one_if_returned : Outcome (Unit {0}) X → ℕ
  one_if_returned (returned _) = 1
  one_if_returned _ = 0

  -- how many of these replays return
  pub returned_in : List DeadLetterEntry → W → ℕ
  returned_in [] w = 0
  returned_in (entry ∷ entries) w =
      one_if_returned (replay entry.id w).1 + returned_in entries (replay entry.id w).0

  -- no replay is cancelled
  abbrev pub Uncancelled : Type 0
  Uncancelled = (id : String) (w : W) → (replay id w).1 ≢ cancelled

  -- the counts of a cycle: `r` replayed, and at most `n` slept
  abbrev pub Counts : ℕ → ℕ → Option Cycle → Type 0
  Counts r n none = ⊥
  Counts r n (some c) = (c.replayed ≡ r) × (c.slept ≤ n)

  Loops : List DeadLetterEntry → Type 0
  Loops entries =
      (c : Cycle) (w : W)
      → ((replay_loop s replay entries c w).0 ≡ replay_all (due s entries) w)
        × Counts (c.replayed + returned_in (due s entries) w)
            (c.slept + length (due s entries) * s.max_backoff) (replay_loop s replay entries c w).1

  Counts-le : (o : Option Cycle) (r r' n n' : ℕ) → r ≡ r' → n ≤ n' → Counts r n o → Counts r' n' o
  Counts-le none r r' n n' e h k = k
  Counts-le (some c) r r' n n' e h k = (k.0 ∙ e, omega (arith, k.1, h))

  tried :
      (entries : List DeadLetterEntry) (o : Outcome (Unit {0}) X) (c : Cycle) (w' : W)
      → o ≢ cancelled
      → Loops entries
      → ((continue_with w' (count replay o c) (replay_loop s replay entries)).0
          ≡ replay_all (due s entries) w')
        × Counts
            (one_if_returned o + c.replayed + returned_in (due s entries) w')
            (c.slept + length (due s entries) * s.max_backoff)
            (continue_with w' (count replay o c) (replay_loop s replay entries)).1
  unfolding continue_with count Loops
  tried entries (returned _) c w' u h =
      let (a, b) = h (record c { replayed = c.replayed + 1 }) w' in
      (
        a,
        Counts-le (replay_loop s replay entries (record c { replayed = c.replayed + 1 }) w').1 _ _ _
            _ (omega arith) (omega arith) b,
      )
  tried entries (raised x) c w' u h =
      let (a, b) = h c w' in
      (a, Counts-le (replay_loop s replay entries c w').1 _ _ _ _ (omega arith) (omega arith) b)
  tried entries cancelled c w' u h = absurd (u refl)

  replay_loop-due : (entries : List DeadLetterEntry) → Uncancelled → Loops entries
  unfolding Loops replay_loop replay_all returned_in
  replay_loop-due [] u c w = (refl, (omega arith, omega arith))
  replay_loop-due (entry ∷ entries) u c w =
      let rest = replay_loop-due entries u in
      elim (Bool-cases entry.replayed) [
        | inl e ↦ rw e (rest c w)
        | inr e ↦ elim (Bool-cases (leb s.max_retries entry.retry_count)) [
          | inl f ↦ rw (e, f) (rest c w)
          | inr f ↦
              rw (e, f)
                (let (p, o) = replay entry.id w in
                  let waited : Cycle = record c { slept = c.slept + backoff s entry } in
                  let (a, b) = tried entries o waited p (u entry.id w) rest in
                  (
                    a,
                    Counts-le
                        (continue_with p (count replay o waited) (replay_loop s replay entries)).1 _
                        _ _ _ (omega arith) (omega (arith, backoff_le s entry)) b,
                  ))
        ]
      ]

  -- A cycle in which no replay is cancelled tries to replay exactly the entries of the batch that
  -- were not replayed and have retries left, in their order, whether earlier ones raise or not; it
  -- counts those that return, and sleeps at most max_backoff for each that it tries.
  pub replay_batch-due :
      (entries : List DeadLetterEntry) (w : W)
      → Uncancelled
      → ((replay_batch s replay entries w).0 ≡ replay_all (due s entries) w)
        × Counts
            (returned_in (due s entries) w)
            (length (due s entries) * s.max_backoff)
            (replay_batch s replay entries w).1
  unfolding replay_batch Loops
  replay_batch-due entries w u =
      let (a, b) = replay_loop-due entries u (record { replayed = 0; slept = 0 }) w in
      (a, Counts-le (replay_batch s replay entries w).1 _ _ _ _ (omega arith) (omega arith) b)
