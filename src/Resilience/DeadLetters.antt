-- ===== src/Resilience/DeadLetters.antt =====
-- src/mp_commons/resilience/dead_letter_scheduler.py: `DeadLetterReplayScheduler`, with the entries
-- of src/mp_commons/kernel/messaging/dead_letter.py. The store is what `replay` does to the world;
-- of a sleep only its length is kept. Backoffs are natural numbers of seconds.
pub mod Batches
mod Tests
use python_commons.Base.{
  ℕ, ◌+◌, ◌^◌, min, leb, ltb, String, Bool, true, false, Option, none, some, List, [], ◌∷◌,
  if◌then◌else◌,
}
use python_commons.Outcome.{Outcome, returned, raised, cancelled}

pub record DeadLetterEntry : Type 0 where
  pub id : String
  pub retry_count : ℕ
  pub replayed : Bool

pub record DeadLetterReplayScheduler : Type 0 where
  pub max_retries : ℕ
  pub backoff_base : ℕ
  pub max_backoff : ℕ

-- what a cycle has done: how many entries it has replayed, and how long it has slept
pub record Cycle : Type 0 where
  pub replayed : ℕ
  pub slept : ℕ

unfoldable pub backoff : DeadLetterReplayScheduler → DeadLetterEntry → ℕ
backoff s entry = min (s.backoff_base ^ entry.retry_count) s.max_backoff

module _ {W X : Type 0} (replay : String → W → W × Outcome (Unit {0}) X) where
  -- the counts after `replay` has ended; `none` is the cancellation, which is raised again
  count : Outcome (Unit {0}) X → Cycle → Option Cycle
  count (returned _) c = some (record c { replayed = c.replayed + 1 })
  count (raised _) c = some c
  count cancelled c = none

module _ {W : Type 0} where
  -- the rest of the loop, unless it is cancelled
  continue_with : W → Option Cycle → (Cycle → W → W × Option Cycle) → W × Option Cycle
  continue_with w none rest = (w, none)
  continue_with w (some c) rest = rest c w

module _ {W X : Type 0} (s : DeadLetterReplayScheduler)
    (replay : String → W → W × Outcome (Unit {0}) X) where
  -- the loop of `_replay_batch`
  unfoldable pub replay_loop : List DeadLetterEntry → Cycle → W → W × Option Cycle
  unfolding count continue_with backoff
  replay_loop [] c w = (w, some c)
  replay_loop (entry ∷ entries) c w =
      let skipped = replay_loop entries c w in
      let (w', o) = replay entry.id w in
      let waited = record c { slept = c.slept + backoff s entry } in
      let tried = continue_with w' (count replay o waited) (replay_loop entries) in
      if entry.replayed
      then skipped
      else if leb s.max_retries entry.retry_count
      then skipped
      else tried

  unfoldable pub replay_batch : List DeadLetterEntry → W → W × Option Cycle
  replay_batch entries w = replay_loop entries (record { replayed = 0; slept = 0 }) w
