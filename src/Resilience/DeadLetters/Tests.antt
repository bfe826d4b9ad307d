-- ===== src/Resilience/DeadLetters/Tests.antt =====
-- A cycle at a concrete batch, and the theorem there.
use python_commons.Base.{
  ℕ, ◌*◌, ◌≡◌, ◌≢◌, Bool, refl, String, string_eq, ◌=?◌, true, false, List, [], ◌∷◌, ◌++◌, some,
  length, if◌then◌else◌,
}
use python_commons.Outcome.{Outcome, returned, raised, cancelled}
use python_commons.Resilience.DeadLetters.{
  DeadLetterEntry, DeadLetterReplayScheduler, backoff, replay_loop, replay_batch,
}
use python_commons.Resilience.DeadLetters.Batches.{
  due, replay_all, returned_in, Counts, replay_batch-due,
}

abbrev scheduler : DeadLetterReplayScheduler
scheduler = record { max_retries = 3; backoff_base = 2; max_backoff = 3 }

abbrev entries : List DeadLetterEntry
entries =
    record { id = "a"; retry_count = 0; replayed = false }
    ∷ record { id = "b"; retry_count = 3; replayed = false }
    ∷ record { id = "c"; retry_count = 2; replayed = false }
    ∷ record { id = "d"; retry_count = 0; replayed = true }
    ∷ []

-- the world lists the replays, and that of "a" raises
abbrev replay : String → List String → List String × Outcome (Unit {0}) ℕ
replay id w = (w ++ (id ∷ []), if id =? "a" then raised 1 else returned tt)

replay_batch_runs :
    replay_batch scheduler replay entries []
    ≡ ("a" ∷ "c" ∷ [], some (record { replayed = 1; slept = 4 }))
unfolding replay_batch replay_loop backoff
replay_batch_runs = refl

returns_or_raises :
    (b : Bool) → ◌≢◌ {A = Outcome (Unit {0}) ℕ} (if b then raised 1 else returned tt) cancelled
returns_or_raises true e = cc
returns_or_raises false e = cc

replay_batch-due_example :
    ((replay_batch scheduler replay entries []).0
      ≡ replay_all scheduler replay (due scheduler entries) [])
    × Counts scheduler replay
        (returned_in scheduler replay (due scheduler entries) [])
        (length (due scheduler entries) * 3)
        (replay_batch scheduler replay entries []).1
replay_batch-due_example =
    replay_batch-due scheduler replay entries [] (λ id w. returns_or_raises (id =? "a"))
