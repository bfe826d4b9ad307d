-- ===== src/Application/LruCache/Invariant.antt =====
-- What a `set` stores, and the invariant of the cache under all its methods.
use python_commons.Base.{
  ℕ, zero, suc, ◌+◌, ◌≤◌, ◌≡◌, refl, Option, none, some, List, [], ◌∷◌, ◌++◌, arith, Eq, length, ap,
  sym, ◌∙◌, Bool-cases, Option-cases, inl, inr, ltb, drop, ◌⊎◌,
}
use python_commons.Dict.{Dict, lookup, contains, erase, IsUnique, lookup-erase_self, erase-IsUnique}
use python_commons.Dict.Order.{
  erase_absent, length-erase, insert_absent, insert-append, touch, touch-IsUnique,
  length-touch_absent, length-touch_present,
}
use python_commons.Application.LruCache.{
  Entry, AsyncLruCache, init, expiry, is_expired, move_to_end, store_entry, evict, get_entry, get,
  set, delete, clear,
}

module _ {K V : Type 0} ⦃e : Eq K⦄ where
  pub record IsValid (c : AsyncLruCache K V) : Type 0 where
    pub positive : 1 ≤ c.maxsize
    pub bounded : length c.store ≤ c.maxsize
    pub unique : IsUnique c.store

  store_entry-touch :
      (k : K) (n : Entry V) (o : Option (Entry V)) (d : Dict K (Entry V))
      → lookup k d ≡ o
      → IsUnique d
      → store_entry k n o d ≡ touch k n d
  unfolding store_entry move_to_end
  store_entry-touch k n none d h u =
      insert_absent k n d h
      ∙ ap (λ (x : Dict K (Entry V)). x ++ (k, n) ∷ []) (sym (erase_absent k d h))
  store_entry-touch k n (some old) d h u =
      insert-append k n old (erase k d) (lookup-erase_self k d u)

  drop-IsUnique : (d : Dict K (Entry V)) → IsUnique d → IsUnique (drop 1 d)
  drop-IsUnique [] u = tt
  drop-IsUnique (x ∷ d) u = u.1

  evict-IsUnique : (m : ℕ) (d : Dict K (Entry V)) → IsUnique d → IsUnique (evict m d)
  unfolding evict
  evict-IsUnique m d u = elim (Bool-cases (ltb m (length d))) [
    | inl full ↦ rw full (drop-IsUnique d u)
    | inr fits ↦ rw fits u
  ]

  length-evict : (m : ℕ) (d : Dict K (Entry V)) → length d ≤ m + 1 → length (evict m d) ≤ m
  unfolding evict
  length-evict m [] h = ground arith
  length-evict m (x ∷ d) h = ground arith

  length-touch_le :
      (k : K) (n : Entry V) (d : Dict K (Entry V)) → length (touch k n d) ≤ length d + 1
  length-touch_le k n d = elim (Option-cases (lookup k d)) [
    | inl missing ↦ omega (arith, length-touch_absent k n d missing)
    | inr (w, found) ↦ omega (arith, length-touch_present k n w d found)
  ]

  -- the store after a `set`
  pub store-set :
      (c : AsyncLruCache K V) (k : K) (v : Option V) (ttl : Option ℕ) (now : ℕ)
      → IsUnique c.store
      → (set c k v ttl now).store ≡ evict c.maxsize (touch k (v, expiry ttl c.ttl now) c.store)
  unfolding set
  store-set c k v ttl now u =
      ap (evict c.maxsize)
        (store_entry-touch k (v, expiry ttl c.ttl now) (lookup k c.store) c.store refl u)

  set-IsValid :
      (c : AsyncLruCache K V) (k : K) (v : Option V) (ttl : Option ℕ) (now : ℕ)
      → IsValid c
      → IsValid (set c k v ttl now)
  unfolding set
  set-IsValid c k v ttl now h =
      let entry : Entry V = (v, expiry ttl c.ttl now) in
      let stored = store-set c k v ttl now h.unique in
      record {
        positive = h.positive;
        bounded = omega (
          arith,
          ap length stored,
          h.bounded,
          length-touch_le k entry c.store,
          length-evict c.maxsize (touch k entry c.store),
        );
        unique = rw stored (
            evict-IsUnique c.maxsize (touch k entry c.store)
              (touch-IsUnique k entry c.store h.unique));
      }

  length-erase_le : (k : K) (d : Dict K (Entry V)) → length (erase k d) ≤ length d
  length-erase_le k d = elim (Option-cases (lookup k d)) [
    | inl missing ↦ omega (arith, ap length (erase_absent k d missing))
    | inr (w, found) ↦ omega (arith, length-erase k w d found)
  ]

  erase-IsValid :
      (c : AsyncLruCache K V) (k : K) → IsValid c → IsValid (record c { store = erase k c.store })
  erase-IsValid c k h = record {
    positive = h.positive;
    bounded = omega (arith, length-erase_le k c.store, h.bounded);
    unique = erase-IsUnique k c.store h.unique;
  }

  get_entry-IsValid :
      (c : AsyncLruCache K V) (k : K) (now : ℕ) (o : Option (Entry V))
      → lookup k c.store ≡ o
      → IsValid c
      → IsValid (get_entry c k now o).0
  unfolding get_entry move_to_end
  get_entry-IsValid c k now none q h = record {
    positive = h.positive;
    bounded = h.bounded;
    unique = h.unique;
  }
  get_entry-IsValid c k now (some entry) q h = elim (Bool-cases (is_expired entry.1 now)) [
    | inl old ↦
        let v = erase-IsValid c k h in
        rw old (record { positive = v.positive; bounded = v.bounded; unique = v.unique })
    | inr fresh ↦ rw fresh (record {
      positive = h.positive;
      bounded = omega (arith, length-touch_present k entry entry c.store q, h.bounded);
      unique = touch-IsUnique k entry c.store h.unique;
    })
  ]

  delete-IsValid : (c : AsyncLruCache K V) (k : K) → IsValid c → IsValid (delete c k).0
  unfolding delete
  delete-IsValid c k h = elim (Bool-cases (contains k c.store)) [
    | inl present ↦ rw present (erase-IsValid c k h)
    | inr absent ↦ rw absent h
  ]

module _ {K V : Type 0} ⦃e : Eq K⦄ where
  pub get-IsValid : (c : AsyncLruCache K V) (k : K) (now : ℕ) → IsValid c → IsValid (get c k now).0
  unfolding get
  get-IsValid c k now h = get_entry-IsValid c k now (lookup k c.store) refl h

-- A call of a method, with the time at which it reads the clock.
pub data Call (K V : Type 0) : Type 0 where
  getting : K → ℕ → Call K V
  setting : K → Option V → Option ℕ → ℕ → Call K V
  deleting : K → Call K V
  clearing : Call K V

module _ {K V : Type 0} ⦃e : Eq K⦄ where
  unfoldable pub run_calls : AsyncLruCache K V → List (Call K V) → AsyncLruCache K V
  run_calls c [] = c
  run_calls c (getting k now ∷ calls) = run_calls (get c k now).0 calls
  run_calls c (setting k v ttl now ∷ calls) = run_calls (set c k v ttl now) calls
  run_calls c (deleting k ∷ calls) = run_calls (delete c k).0 calls
  run_calls c (clearing ∷ calls) = run_calls (clear c) calls

  -- After any calls of `get`, `set`, `delete` and `clear` a valid cache holds at most `maxsize`
  -- entries, and no key twice.
  pub run_calls-IsValid :
      (calls : List (Call K V)) (c : AsyncLruCache K V) → IsValid c → IsValid (run_calls c calls)
  unfolding run_calls get clear
  run_calls-IsValid [] c h = h
  run_calls-IsValid (getting k now ∷ calls) c h =
      run_calls-IsValid calls (get c k now).0 (get_entry-IsValid c k now (lookup k c.store) refl h)
  run_calls-IsValid (setting k v ttl now ∷ calls) c h =
      run_calls-IsValid calls (set c k v ttl now) (set-IsValid c k v ttl now h)
  run_calls-IsValid (deleting k ∷ calls) c h =
      run_calls-IsValid calls (delete c k).0 (delete-IsValid c k h)
  run_calls-IsValid (clearing ∷ calls) c h =
      run_calls-IsValid calls (clear c)
        (record { positive = h.positive; bounded = omega arith; unique = tt })

  -- The constructor refuses a size below 1, and otherwise builds a valid, empty cache.
  pub init-IsValid :
      (maxsize : ℕ) (ttl : Option ℕ)
      → ((maxsize ≡ 0) × (init {K = K} {V = V} maxsize ttl ≡ none))
        ⊎ ((c : AsyncLruCache K V) × (init maxsize ttl ≡ some c)
            × IsValid c
            × (c.store ≡ [])
            × (c.maxsize ≡ maxsize))
  unfolding init
  init-IsValid zero ttl = inl (refl, refl)
  init-IsValid (suc n) ttl = inr (
    record { maxsize = suc n; ttl = ttl; store = []; hits = 0; misses = 0 },
    ground arith,
    record { positive = omega arith; bounded = omega arith; unique = tt },
    refl,
    refl,
  )
