-- ===== src/Resilience/Bulkhead.antt =====
-- src/mp_commons/resilience/bulkhead: `QueueLimiter`, which `Bulkhead` delegates to, as steps of
-- the coroutines that use it. A coroutine is a number. `asyncio.Semaphore` is its value and the
-- coroutines that wait, first come first served: a release hands the slot to the first of them,
-- and adds to the value if there is none. Nobody waits for `_queue`, since `__aenter__` has seen
-- a value before it acquires, with no suspension in between.
pub mod Invariant
pub mod Capacity
mod Tests
use python_commons.Base.{
  ℕ, ◌+◌, ◌-◌, ◌==◌, nat_eq, Bool, true, false, List, [], ◌∷◌, ◌++◌, if◌then◌else◌,
}

pub record QueueLimiter : Type 0 where
  pub max_concurrent : ℕ
  pub max_queue : ℕ
  pub semaphore : ℕ  -- `_semaphore._value`
  pub queue : ℕ  -- `_queue._value`
  pub waiting : List ℕ  -- the waiters of `_semaphore`
  pub inside : List ℕ  -- past `__aenter__`

unfoldable pub init : ℕ → ℕ → QueueLimiter
init max_concurrent max_queue = record {
  max_concurrent = max_concurrent;
  max_queue = max_queue;
  semaphore = max_concurrent;
  queue = max_concurrent + max_queue;
  waiting = [];
  inside = [];
}

abbrev pub is_empty : List ℕ → Bool
is_empty [] = true
is_empty (_ ∷ _) = false

-- Python's `list.remove`, if it is there
pub remove : ℕ → List ℕ → List ℕ
remove i [] = []
remove i (j ∷ js) = if j == i then js else j ∷ remove i js

pub member : ℕ → List ℕ → Bool
member i [] = false
member i (j ∷ js) = if j == i then true else member i js

-- How `__aenter__` goes on: it raises BulkheadFullError, suspends, or returns.
pub data Entered : Type 0 where
  full waits enters : Entered

-- `self._semaphore.acquire()`: it suspends while there is no slot
acquire_slot : ℕ → QueueLimiter → QueueLimiter × Entered
acquire_slot i s =
    if s.semaphore == 0
    then (record s { waiting = s.waiting ++ (i ∷ []) }, waits)
    else (record s { semaphore = s.semaphore - 1; inside = i ∷ s.inside }, enters)

-- `__aenter__`, up to where it suspends
unfoldable pub aenter : ℕ → QueueLimiter → QueueLimiter × Entered
unfolding acquire_slot
aenter i s = if s.queue == 0 then (s, full) else acquire_slot i (record s { queue = s.queue - 1 })

-- `self._semaphore.release()`
release_to : List ℕ → QueueLimiter → QueueLimiter
release_to [] s = record s { semaphore = s.semaphore + 1 }
release_to (i ∷ rest) s = record s { waiting = rest; inside = i ∷ s.inside }

-- `__aexit__` of a coroutine that is inside
unfoldable pub aexit : ℕ → QueueLimiter → QueueLimiter
unfolding release_to remove member
aexit i s =
    if member i s.inside
    then (let s' = release_to s.waiting (record s { inside = remove i s.inside }) in
        record s' { queue = s'.queue + 1 })
    else s

-- A coroutine that waits in `__aenter__` is cancelled: `acquire` takes it out of the waiters, and
-- `__aexit__` does not run.
unfoldable pub cancel : ℕ → QueueLimiter → QueueLimiter
unfolding remove
cancel i s = record s { waiting = remove i s.waiting }
