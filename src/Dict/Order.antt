-- ===== src/Dict/Order.antt =====
-- The order and the number of the entries, and the entry moved to the end.
use python_commons.Base.{
  ◌+◌, ◌≡◌, refl, ◌≢◌, none, some, [], ◌∷◌, ◌++◌, arith, Eq, ◌=?◌, if◌then◌else◌, length,
  length-append, ap, subst, Bool-cases, Option-cases, inl, inr,
}
use python_commons.Dict.{
  Dict, lookup, insert, erase, IsUnique, lookup-erase_self, lookup-erase_ne, erase-IsUnique,
}

module _ {ℓ κ} {K : Type ℓ} {V : Type κ} ⦃e : Eq K⦄ where
  pub erase_absent : (k : K) (d : Dict K V) → lookup k d ≡ none → erase k d ≡ d
  erase_absent k [] h = refl
  erase_absent k ((j, w) ∷ d) h = ground (arith, erase_absent k d)

  pub length-erase :
      (k : K) (v : V) (d : Dict K V) → lookup k d ≡ some v → length (erase k d) + 1 ≡ length d
  length-erase k v [] h = cc
  length-erase k v ((j, w) ∷ d) h = ground (arith, length-erase k v d)

  pub insert_absent :
      (k : K) (v : V) (d : Dict K V) → lookup k d ≡ none → insert k v d ≡ d ++ (k, v) ∷ []
  insert_absent k v [] h = refl
  insert_absent k v ((j, w) ∷ d) h = ground (arith, insert_absent k v d)

  pub insert-append :
      (k : K) (v w : V) (d : Dict K V)
      → lookup k d ≡ none
      → insert k v (d ++ (k, w) ∷ []) ≡ d ++ (k, v) ∷ []
  insert-append k v w [] h = ground (arith, e.beq_iff k k)
  insert-append k v w ((j, u) ∷ d) h = ground (arith, insert-append k v w d)

  pub lookup-append_one :
      (j k : K) (v : V) (d : Dict K V)
      → lookup j d ≡ none
      → lookup j (d ++ (k, v) ∷ []) ≡ (if k =? j then some v else none)
  lookup-append_one j k v [] h = refl
  lookup-append_one j k v ((i, w) ∷ d) h = ground (arith, lookup-append_one j k v d)

  pub lookup-append_found :
      (j k : K) (v w : V) (d : Dict K V)
      → lookup j d ≡ some w
      → lookup j (d ++ (k, v) ∷ []) ≡ some w
  lookup-append_found j k v w [] h = cc
  lookup-append_found j k v w ((i, u) ∷ d) h = ground (arith, lookup-append_found j k v w d)

  pub append-IsUnique :
      (k : K) (v : V) (d : Dict K V) → IsUnique d → lookup k d ≡ none → IsUnique (d ++ (k, v) ∷ [])
  append-IsUnique k v [] u h = (refl, tt)
  append-IsUnique k v ((j, w) ∷ d) u h =
      ground
        (arith, append-IsUnique k v d u.1, lookup-append_one j k v d, e.beq_iff j k, e.beq_iff k j)

  -- The entry of the key moves to the end, with a new value.
  abbrev pub touch : K → V → Dict K V → Dict K V
  touch k v d = erase k d ++ (k, v) ∷ []

  pub touch-IsUnique : (k : K) (v : V) (d : Dict K V) → IsUnique d → IsUnique (touch k v d)
  touch-IsUnique k v d u =
      append-IsUnique k v (erase k d) (erase-IsUnique k d u) (lookup-erase_self k d u)

  lookup-touch_ne : (k j : K) (v : V) (d : Dict K V) → k ≢ j → lookup j (touch k v d) ≡ lookup j d
  lookup-touch_ne k j v d h = elim (Option-cases (lookup j (erase k d))) [
    | inl missing ↦
        ground (
          arith,
          e.beq_iff k j,
          lookup-append_one j k v (erase k d) missing,
          lookup-erase_ne k j d h,
        )
    | inr (w, found) ↦
        ground (arith, lookup-append_found j k v w (erase k d) found, lookup-erase_ne k j d h)
  ]

  pub lookup-touch :
      (k j : K) (v : V) (d : Dict K V)
      → IsUnique d
      → lookup j (touch k v d) ≡ (if k =? j then some v else lookup j d)
  lookup-touch k j v d u = elim (Bool-cases (k =? j)) [
    | inl same ↦
        let q = (e.beq_iff k j).0 same in
        subst (λ i. lookup i (touch k v d) ≡ (if k =? i then some v else lookup i d)) q
          (ground
            (arith, e.beq_iff k k, lookup-append_one k k v (erase k d) (lookup-erase_self k d u)))
    | inr other ↦ ground (arith, lookup-touch_ne k j v d (λ q. cc (other, (e.beq_iff k j).1 q)))
  ]

  pub length-touch_absent :
      (k : K) (v : V) (d : Dict K V) → lookup k d ≡ none → length (touch k v d) ≡ length d + 1
  length-touch_absent k v d h =
      omega (arith, length-append (erase k d) ((k, v) ∷ []), ap length (erase_absent k d h))

  pub length-touch_present :
      (k : K) (v w : V) (d : Dict K V) → lookup k d ≡ some w → length (touch k v d) ≡ length d
  length-touch_present k v w d h =
      omega (arith, length-append (erase k d) ((k, v) ∷ []), length-erase k w d h)
