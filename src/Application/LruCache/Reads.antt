-- ===== src/Application/LruCache/Reads.antt =====
-- What can be read after a call, and which entry is evicted.
use python_commons.Base.{
  ℕ, ◌≤◌, ◌<◌, ◌≡◌, ◌≢◌, refl, true, false, Option, none, some, List, [], ◌∷◌, ◌++◌, arith, Eq,
  length, length-append, tests, ap, ◌∙◌, Bool-cases, Option-cases, inl, inr, ltb, drop,
}
use python_commons.Dict.{Dict, lookup, erase, lookup-erase_self}
use python_commons.Dict.Order.{
  erase_absent, touch, lookup-touch, lookup-append_one, length-touch_absent, length-touch_present,
}
use python_commons.Application.LruCache.{
  Entry, AsyncLruCache, expiry, is_expired, evict, get, set, get_or_load,
}
use python_commons.Application.LruCache.Invariant.{IsValid, store-set, get-IsValid}
use python_commons.Outcome.{Outcome, returned}

module _ {K V : Type 0} (m : ℕ) (d : Dict K (Entry V)) where
  evict_full : m < length d → evict m d ≡ drop 1 d
  unfolding evict
  evict_full h = ground arith

  evict_fits : length d ≤ m → evict m d ≡ d
  unfolding evict
  evict_fits h = ground arith

drop_one-append {ℓ} : {A : Type ℓ} (d x : List A) → 1 ≤ length d → drop 1 (d ++ x) ≡ drop 1 d ++ x
drop_one-append [] x h = absurd (omega arith)
drop_one-append (y ∷ d) x h = refl

-- the key of the entry that was least recently used
abbrev pub first_key : {K V : Type 0} → Dict K V → Option K
first_key [] = none
first_key ((k, _) ∷ d) = some k

module _ {K V : Type 0} ⦃e : Eq K⦄ where
  lookup-drop_absent :
      (k : K) (d : Dict K (Entry V)) → lookup k d ≡ none → lookup k (drop 1 d) ≡ none
  lookup-drop_absent k [] h = refl
  lookup-drop_absent k ((j, w) ∷ d) h = ground arith

  lookup-append_last :
      (k : K) (n : Entry V) (d : Dict K (Entry V))
      → lookup k d ≡ none
      → lookup k (d ++ (k, n) ∷ []) ≡ some n
  lookup-append_last k n d h = ground (arith, lookup-append_one k k n d h, e.beq_iff k k)

  lookup-evict_last :
      (k : K) (n : Entry V) (m : ℕ) (d : Dict K (Entry V))
      → 1 ≤ m
      → lookup k d ≡ none
      → lookup k (evict m (d ++ (k, n) ∷ [])) ≡ some n
  unfolding evict
  lookup-evict_last k n m d p h = elim (Bool-cases (ltb m (length (d ++ (k, n) ∷ [])))) [
    | inl full ↦
        let long : 1 ≤ length d = omega (tests, p, length-append d ((k, n) ∷ []), full) in
        rw (full, drop_one-append d ((k, n) ∷ []) long)
          (lookup-append_last k n (drop 1 d) (lookup-drop_absent k d h))
    | inr fits ↦ rw fits (lookup-append_last k n d h)
  ]

  lookup-drop_ne :
      (j : K) (d : Dict K (Entry V)) → first_key d ≢ some j → lookup j (drop 1 d) ≡ lookup j d
  lookup-drop_ne j [] h = refl
  lookup-drop_ne j ((k, w) ∷ d) h = ground (arith, e.beq_iff k j)

  first_key-append :
      (k : K) (n : Entry V) (d : Dict K (Entry V)) (j : K)
      → k ≢ j
      → first_key d ≢ some j
      → first_key (d ++ (k, n) ∷ []) ≢ some j
  first_key-append k n [] j h f = λ q. h (ground arith)
  first_key-append k n (x ∷ d) j h f = f

  lookup-evict_ne :
      (j : K) (m : ℕ) (d : Dict K (Entry V))
      → first_key d ≢ some j
      → lookup j (evict m d) ≡ lookup j d
  unfolding evict
  lookup-evict_ne j m d h = elim (Bool-cases (ltb m (length d))) [
    | inl full ↦ rw full (lookup-drop_ne j d h)
    | inr fits ↦ rw fits refl
  ]

module _ {K V : Type 0} ⦃e : Eq K⦄ (c : AsyncLruCache K V) (key : K) (value : Option V)
    (ttl : Option ℕ) (now : ℕ) where
  abbrev written : Entry V
  written = (value, expiry ttl c.ttl now)

  -- A `set` moves or adds the entry to the end. It evicts the first entry, the least recently
  -- used one, if the key is new and the cache is full, and evicts nothing otherwise.
  pub set_evicts :
      IsValid c
      → ((lookup key c.store ≡ none) × (length c.store ≡ c.maxsize)
          → (set c key value ttl now).store ≡ drop 1 c.store ++ (key, written) ∷ [])
        × ((lookup key c.store ≡ none) × (length c.store < c.maxsize)
            → (set c key value ttl now).store ≡ c.store ++ (key, written) ∷ [])
        × ((old : Entry V)
            → lookup key c.store ≡ some old
            → (set c key value ttl now).store ≡ erase key c.store ++ (key, written) ∷ [])
  set_evicts h =
      let stored = store-set c key value ttl now h.unique in
      (
        λ q.
            stored
            ∙ (evict_full c.maxsize (touch key written c.store)
                  (omega (arith, q.1, length-touch_absent key written c.store q.0))
                ∙ (drop_one-append (erase key c.store) ((key, written) ∷ [])
                      (omega (arith, ap length (erase_absent key c.store q.0), q.1, h.positive))
                    ∙ ap (λ (d : Dict K (Entry V)). drop 1 d ++ (key, written) ∷ [])
                        (erase_absent key c.store q.0))),
        λ q.
            stored
            ∙ (evict_fits c.maxsize (touch key written c.store)
                  (omega (arith, q.1, length-touch_absent key written c.store q.0))
                ∙ ap (λ (d : Dict K (Entry V)). d ++ (key, written) ∷ [])
                    (erase_absent key c.store q.0)),
        λ old q.
            stored
            ∙ evict_fits c.maxsize (touch key written c.store)
                (omega (arith, h.bounded, length-touch_present key written old c.store q)),
      )

  -- the entry that was written can be looked up: it is never the one evicted
  lookup-set_self : IsValid c → lookup key (set c key value ttl now).store ≡ some written
  lookup-set_self h =
      ap (lookup key) (store-set c key value ttl now h.unique)
      ∙ lookup-evict_last key written c.maxsize (erase key c.store) h.positive
          (lookup-erase_self key c.store h.unique)

  -- A `get` of the key after a `set` returns the value, until the entry has expired.
  pub get-set :
      (later : ℕ)
      → IsValid c
      → is_expired (expiry ttl c.ttl now) later ≡ false
      → (get (set c key value ttl now) key later).1 ≡ value
  unfolding get
  get-set later h fresh = ground (arith, lookup-set_self h)

  -- A `set` keeps the entry of every other key but the least recently used one.
  pub lookup-set_ne :
      (j : K)
      → IsValid c
      → key ≢ j
      → first_key c.store ≢ some j
      → lookup j (set c key value ttl now).store ≡ lookup j c.store
  lookup-set_ne j h other kept =
      ap (lookup j) (store-set c key value ttl now h.unique)
      ∙ (elim (Option-cases (lookup key c.store)) [
        | inl missing ↦ lookup-evict_ne j c.maxsize (touch key written c.store) (
            rw (erase_absent key c.store missing)
              (first_key-append key written c.store j other kept))
        | inr (old, found) ↦ ap (lookup j) (
            evict_fits c.maxsize (touch key written c.store)
              (omega (arith, h.bounded, length-touch_present key written old c.store found)))
      ]
          ∙ ground (arith, lookup-touch key j written c.store h.unique, e.beq_iff key j))

module _ {K V : Type 0} ⦃e : Eq K⦄ (c : AsyncLruCache K V) (key : K) where
  get-ttl : (now : ℕ) → (get c key now).0.ttl ≡ c.ttl
  unfolding get
  get-ttl now = ground arith

  get_or_load_hit :
      {E : Type 0} (now : ℕ) (loader : Outcome (Option V) E) (ttl : Option ℕ) (stored : ℕ) {v : V}
      → (get c key now).1 ≡ some v
      → ((get_or_load c key now loader ttl stored).1 ≡ returned (some v))
        × ((get_or_load c key now loader ttl stored).2 ≡ false)
  unfolding get_or_load
  get_or_load_hit now loader ttl stored h = (ground arith, ground arith)

  get_or_load_miss :
      (E : Type 0) (now : ℕ) (v : Option V) (ttl : Option ℕ) (stored : ℕ)
      → (get_or_load {E = E} c key now (returned v) ttl stored).2 ≡ true
      → (get_or_load {E = E} c key now (returned v) ttl stored).0
        ≡ set (get c key now).0 key v ttl stored
  unfolding get_or_load
  get_or_load_miss E now v ttl stored h = ground arith

module _ {K V : Type 0} ⦃e : Eq K⦄ where
  -- After `get_or_load` has run its loader for a value, no later `get_or_load` runs one until
  -- the entry has expired: it returns the loaded value.
  pub get_or_load_once :
      {E : Type 0} (c : AsyncLruCache K V) (key : K) (v : V) (ttl : Option ℕ) (now stored later : ℕ)
      (loader : Outcome (Option V) E)
      → IsValid c
      → let (c', _, ran) = get_or_load {E = E} c key now (returned (some v)) ttl stored in
        ran ≡ true
        → is_expired (expiry ttl c.ttl stored) later ≡ false
        → ((get_or_load c' key later loader ttl later).1 ≡ returned (some v))
          × ((get_or_load c' key later loader ttl later).2 ≡ false)
  get_or_load_once {E} c key v ttl now stored later loader h ran fresh =
      let c' = (get_or_load {E = E} c key now (returned (some v)) ttl stored).0 in
      let missed = get_or_load_miss c key E now (some v) ttl stored ran in
      let still : is_expired (expiry ttl (get c key now).0.ttl stored) later ≡ false =
        rw (get-ttl c key now) fresh in
      let read : (get c' key later).1 ≡ some v =
        ap (λ d. (get d key later).1) missed
        ∙ get-set (get c key now).0 key (some v) ttl stored later (get-IsValid c key now h) still in
      get_or_load_hit c' key later loader ttl later read
