-- ===== src/Application/LruCache.antt =====
-- src/mp_commons/application/cache/lru.py: `AsyncLRUCache`. The `OrderedDict` is a dict in order,
-- least recently used first; a stored value may be `None`, which is `none`. Times are ticks of
-- `time.monotonic()`. Each method holds the lock from its first access of the store to its last.
pub mod Invariant
pub mod Reads
mod Tests
use python_commons.Base.{
  ℕ, ◌+◌, Bool, true, false, Option, none, some, List, [], ◌∷◌, ◌++◌, Eq, ltb, leb, if◌then◌else◌,
  length, drop,
}
use python_commons.Dict.{Dict, lookup, contains, insert, erase}
use python_commons.Outcome.{Outcome, returned, raised, cancelled}

-- A value, and the time at which it expires.
abbrev pub Entry : Type 0 → Type 0
Entry V = Option V × Option ℕ

pub record AsyncLruCache (K V : Type 0) : Type 0 where
  pub maxsize : ℕ
  pub ttl : Option ℕ
  pub store : Dict K (Entry V)
  pub hits : ℕ
  pub misses : ℕ

-- The constructor; `none` is `ValueError`.
unfoldable pub init : {K V : Type 0} → ℕ → Option ℕ → Option (AsyncLruCache K V)
init maxsize ttl =
    if ltb maxsize 1
    then none
    else some (record { maxsize = maxsize; ttl = ttl; store = []; hits = 0; misses = 0 })

-- `expires_at is not None and time.monotonic() > expires_at`
unfoldable pub is_expired : Option ℕ → ℕ → Bool
is_expired none now = false
is_expired (some t) now = ltb t now

-- `ttl if ttl is not None else self._ttl`, and the time of expiry that it gives
unfoldable pub expiry : Option ℕ → Option ℕ → ℕ → Option ℕ
expiry (some t) default now = some (now + t)
expiry none (some t) now = some (now + t)
expiry none none now = none

-- `popitem(last=False)` where the store is too large
pub evict : {K V : Type 0} → ℕ → Dict K (Entry V) → Dict K (Entry V)
evict maxsize store = if ltb maxsize (length store) then drop 1 store else store

module _ {K V : Type 0} ⦃e : Eq K⦄ where
  -- `OrderedDict.move_to_end` of the entry that is stored under the key
  unfoldable pub move_to_end : K → Entry V → Dict K (Entry V) → Dict K (Entry V)
  move_to_end key entry store = erase key store ++ (key, entry) ∷ []

  -- the part of `get` behind the lookup
  get_entry : AsyncLruCache K V → K → ℕ → Option (Entry V) → AsyncLruCache K V × Option V
  get_entry c key now none = (record c { misses = c.misses + 1 }, none)
  get_entry c key now (some entry) =
      if is_expired entry.1 now
      then (record c { store = erase key c.store; misses = c.misses + 1 }, none)
      else (record c { store = move_to_end key entry c.store; hits = c.hits + 1 }, entry.0)

  pub get : AsyncLruCache K V → K → ℕ → AsyncLruCache K V × Option V
  unfolding get_entry
  get c key now = get_entry c key now (lookup key c.store)

  -- `if key in self._store: self._store.move_to_end(key)`, then `self._store[key] = entry`
  store_entry : K → Entry V → Option (Entry V) → Dict K (Entry V) → Dict K (Entry V)
  store_entry key entry none store = insert key entry store
  store_entry key entry (some old) store = insert key entry (move_to_end key old store)

  pub set : AsyncLruCache K V → K → Option V → Option ℕ → ℕ → AsyncLruCache K V
  unfolding store_entry evict expiry
  set c key value ttl now = record c {
    store =
        evict c.maxsize
          (store_entry key (value, expiry ttl c.ttl now) (lookup key c.store) c.store);
  }

  pub delete : AsyncLruCache K V → K → AsyncLruCache K V × Bool
  delete c key =
      if contains key c.store then (record c { store = erase key c.store }, true) else (c, false)

  pub clear : AsyncLruCache K V → AsyncLruCache K V
  clear c = record c { store = [] }

  abbrev pub size : AsyncLruCache K V → ℕ
  size c = length c.store

  -- the part of `get_or_load` behind the `get`; the loader runs outside the lock
  load :
      {E : Type 0}
      → K
      → Option ℕ
      → ℕ
      → Outcome (Option V) E
      → AsyncLruCache K V
      → AsyncLruCache K V × Outcome (Option V) E
  load key ttl now (returned v) c = (set c key v ttl now, returned v)
  load key ttl now other c = (c, other)

  -- `get_or_load`, with the outcome of the loader, which a hit does not run: the last component
  -- says whether it ran.
  pub get_or_load :
      {E : Type 0}
      → AsyncLruCache K V
      → K
      → ℕ
      → Outcome (Option V) E
      → Option ℕ
      → ℕ
      → AsyncLruCache K V × Outcome (Option V) E × Bool
  unfolding get load
  get_or_load c key now loader ttl later =
      let (c', cached) = get c key now in
      elim cached [
        | some v ↦ (c', returned (some v), false)
        | none ↦ let (c'', o) = load key ttl later loader c' in (c'', o, true)
      ]
