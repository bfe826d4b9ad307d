-- ===== src/Resilience/CacheAside.antt =====
-- src/mp_commons/resilience/cache/aside.py: `CacheAsidePolicy.get_or_load` of one key, as steps of
-- the coroutines that call it. The entry of the cache and the lock of the key are all that the
-- calls of a key share. The cache loses entries at any time, and only the policy writes this one.
-- A Python `None` is `none`, stored or not. A step goes from one await to the next; a `set` writes
-- at some moment between its call and its return, and any await may raise or be cancelled, a `set`
-- with or without having written.
pub mod Stampede
mod Tests
use python_commons.Base.{ℕ, suc, ◌+◌, ◌==◌, ◌≡◌, Option, none, some, if◌then◌else◌}

-- where a call stands, with the value that it is about to store or has returned
pub data Pc (V : Type 0) : Type 0 where
  idle : Pc V
  asking : Pc V  -- before the lock
  holding : Pc V  -- behind the lock, before the second `get`
  loading : Pc V  -- the loader is awaited
  storing : Option V → Pc V  -- in the `set`, before it has written
  stored : Option V → Pc V  -- in the `set`, after it has written
  done : Option V → Pc V
  failed : Pc V  -- an await has raised or was cancelled

pub record System (V : Type 0) : Type 0 where
  pub cache : Option V
  pub owner : Option ℕ  -- who holds the lock
  pub pc : ℕ → Pc V

abbrev pub update : {A : Type 0} → (ℕ → A) → ℕ → A → ℕ → A
update f i a j = if i == j then a else f j

abbrev pub init : {V : Type 0} → System V
init = record { cache = none; owner = none; pc = λ _. Pc.idle }

-- One step of a call, or of the cache; how many loaders it starts, and whether it leaves the key
-- without a value: an entry is dropped, a loader has failed or returned None, or a `set` has failed
-- before it has written.
pub data Step {V : Type 0} (s : System V) : (started lost : ℕ) → System V → Type 0 where
  hit :
      (i : ℕ) (v : V)
      → s.pc i ≡ Pc.idle
      → s.cache ≡ some v
      → Step s 0 0 (record s { pc = update s.pc i (Pc.done (some v)) })
  get_fails : (i : ℕ) → s.pc i ≡ Pc.idle → Step s 0 0 (record s { pc = update s.pc i Pc.failed })
  miss :
      (i : ℕ)
      → s.pc i ≡ Pc.idle
      → s.cache ≡ none
      → Step s 0 0 (record s { pc = update s.pc i Pc.asking })
  lock :
      (i : ℕ)
      → s.pc i ≡ Pc.asking
      → s.owner ≡ none
      → Step s 0 0 (record s { owner = some i; pc = update s.pc i Pc.holding })
  lock_cancelled :
      (i : ℕ) → s.pc i ≡ Pc.asking → Step s 0 0 (record s { pc = update s.pc i Pc.failed })
  get_again_fails :
      (i : ℕ)
      → s.pc i ≡ Pc.holding
      → Step s 0 0 (record s { owner = none; pc = update s.pc i Pc.failed })
  hit_again :
      (i : ℕ) (v : V)
      → s.pc i ≡ Pc.holding
      → s.cache ≡ some v
      → Step s 0 0 (record s { owner = none; pc = update s.pc i (Pc.done (some v)) })
  load :
      (i : ℕ)
      → s.pc i ≡ Pc.holding
      → s.cache ≡ none
      → Step s 1 0 (record s { pc = update s.pc i Pc.loading })
  loaded :
      (i : ℕ) (v : Option V)
      → s.pc i ≡ Pc.loading
      → Step s 0 0 (record s { pc = update s.pc i (Pc.storing v) })
  fail :
      (i : ℕ)
      → s.pc i ≡ Pc.loading
      → Step s 0 1 (record s { owner = none; pc = update s.pc i Pc.failed })
  write :
      (i : ℕ) (v : V)
      → s.pc i ≡ Pc.storing (some v)
      → Step s 0 0 (record s { cache = some v; pc = update s.pc i (Pc.stored (some v)) })
  write_none :
      (i : ℕ)
      → s.pc i ≡ Pc.storing none
      → Step s 0 1 (record s { cache = none; pc = update s.pc i (Pc.stored none) })
  set_fails :
      (i : ℕ) (v : Option V)
      → s.pc i ≡ Pc.storing v
      → Step s 0 1 (record s { owner = none; pc = update s.pc i Pc.failed })
  set_fails_late :
      (i : ℕ) (v : Option V)
      → s.pc i ≡ Pc.stored v
      → Step s 0 0 (record s { owner = none; pc = update s.pc i Pc.failed })
  return :
      (i : ℕ) (v : Option V)
      → s.pc i ≡ Pc.stored v
      → Step s 0 0 (record s { owner = none; pc = update s.pc i (Pc.done v) })
  drop : Step s 0 1 (record s { cache = none })

pub data Reach {V : Type 0} : (started lost : ℕ) → System V → Type 0 where
  start : Reach 0 0 init
  later : {m n k l : ℕ} {s t : System V} → Reach m n s → Step s k l t → Reach (m + k) (n + l) t
