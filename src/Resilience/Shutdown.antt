-- ===== src/Resilience/Shutdown.antt =====
-- src/mp_commons/resilience/graceful_shutdown.py: `GracefulShutdown`. A hook is what calling it
-- does to the world, given the time that `asyncio.wait_for` leaves it; a timeout is one of the
-- exceptions that it can end with. The clock of the event loop is part of the world.
pub mod Hooks
mod Tests
use python_commons.Base.{
  ℕ, ◌+◌, ◌-◌, leb, Bool, true, false, Option, none, some, List, [], ◌∷◌, ◌++◌, reverse,
  if◌then◌else◌,
}
use python_commons.Outcome.{Outcome, returned, raised, cancelled}

-- with a name to tell it by
pub record Hook (W X : Type 0) : Type 0 where
  pub name : ℕ
  pub call : ℕ → W → W × Outcome (Unit {0}) X

pub record GracefulShutdown (W X : Type 0) : Type 0 where
  pub drain_timeout : ℕ
  pub hooks : List (Hook W X)
  pub is_set : Bool
  pub triggered_by : Option ℕ

module _ {W X : Type 0} where
  unfoldable pub register : Hook W X → GracefulShutdown W X → GracefulShutdown W X
  register hook s = record s { hooks = s.hooks ++ (hook ∷ []) }

  unfoldable pub handle_signal : ℕ → GracefulShutdown W X → GracefulShutdown W X
  handle_signal sig s = if s.is_set then s else record s { triggered_by = some sig; is_set = true }

  unfoldable pub trigger : GracefulShutdown W X → GracefulShutdown W X
  trigger s = record s { is_set = true }

-- how `run_hooks` ends: which hooks it has called, and whether it was cancelled in the last
pub record Drained (W : Type 0) : Type 0 where
  pub world : W
  pub called : List ℕ
  pub was_cancelled : Bool

-- A hook that raises is logged, and the loop goes on; a cancellation passes.
go_on : {W X : Type 0} → Outcome (Unit {0}) X → Drained W → Drained W → Drained W
go_on (returned _) stop rest = rest
go_on (raised _) stop rest = rest
go_on cancelled stop rest = stop

module _ {W X : Type 0} (time : W → ℕ) where
  -- the loop, with the names of the hooks that were called
  unfoldable pub drain : ℕ → List (Hook W X) → List ℕ → W → Drained W
  unfolding go_on
  drain deadline [] called w = record { world = w; called = called; was_cancelled = false }
  drain deadline (hook ∷ hooks) called w =
      let (w', o) = hook.call (deadline - time w) w in
      let called' = called ++ (hook.name ∷ []) in
      let rest = drain deadline hooks called' w' in
      if leb deadline (time w)
      then record { world = w; called = called; was_cancelled = false }
      else go_on o (record { world = w'; called = called'; was_cancelled = true }) rest

  unfoldable pub run_hooks : GracefulShutdown W X → W → Drained W
  run_hooks s w = drain (time w + s.drain_timeout) (reverse s.hooks) [] w
