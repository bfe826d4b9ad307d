-- ===== src/Application/Inbox/Deliveries.antt =====
-- How often a message is dispatched when it is delivered again.
use python_commons.Base.{
  ℕ, ◌+◌, ◌/◌, ◌≡◌, ◌≢◌, refl, sym, subst, ap, ◌∙◌, String, string_eq, Bool, true, false, some,
  List, [], ◌∷◌, All, length, arith, if◌then◌else◌, inl, inr, Bool-cases,
}
use python_commons.Dict.{lookup-insert_self}
use python_commons.Outcome.{Outcome, returned, raised, cancelled}
use python_commons.Application.Inbox.{
  InboxStatus, InboxRecord, Records, save, is_processed, is_duplicate, finish, process,
}

module _ {P : Type 0} where
  duplicate-save :
      (r : InboxRecord P) (records : Records P)
      → is_duplicate r.id (save r records) ≡ is_processed r.status
  unfolding is_duplicate save
  duplicate-save r records = rw (lookup-insert_self r.id r records, is_duplicate)

-- whether a dispatch has returned
settles : {X : Type 0} → Outcome (Unit {0}) X → Bool
settles (returned _) = true
settles _ = false

-- A delivery: how its dispatch ends if it is made, the time, and the record.
abbrev pub Delivery : Type 0 → Type 0 → Type 0
Delivery P X = Outcome (Unit {0}) X × ℕ × InboxRecord P

-- The deliveries are of the message `i`, and their dispatches return, or raise.
abbrev pub Succeed : {P X : Type 0} → String → List (Delivery P X) → Type 0
Succeed i = All (λ d. (d.2.id ≡ i) × (d.0 ≡ returned tt))

abbrev pub Fail : {P X : Type 0} → String → List (Delivery P X) → Type 0
Fail {X} i = All (λ d. (d.2.id ≡ i) × ((x : X) × (d.0 ≡ raised x)))

settles-ne : {X : Type 0} (o : Outcome (Unit {0}) X) → settles o ≡ true → o ≢ cancelled
unfolding settles
settles-ne o h e = cc (sym h ∙ ap settles e)

raised-ne : {X : Type 0} (o : Outcome (Unit {0}) X) → ((x : X) × (o ≡ raised x)) → o ≢ cancelled
raised-ne o (x, h) e = cc (sym h ∙ e)

module _ {P X : Type 0} (str : X → String) where
  finish-duplicate :
      (o : Outcome (Unit {0}) X) (now : ℕ) (r : InboxRecord P) (records : Records P)
      → o ≢ cancelled
      → (is_duplicate r.id (finish str o now r records).records ≡ settles o)
        × ((finish str o now r records).dispatched ≡ true)
  unfolding finish settles is_processed
  finish-duplicate (returned _) now r records h = (
    duplicate-save (record r { status = InboxStatus.processed; processed_at = some now }) records,
    refl,
  )
  finish-duplicate (raised x) now r records h = (
    duplicate-save (record r { status = InboxStatus.failed; error = some (str x) }) records,
    refl,
  )
  finish-duplicate cancelled now r records h = absurd (h refl)

  process-duplicate :
      (o : Outcome (Unit {0}) X) (now : ℕ) (r : InboxRecord P) (records : Records P)
      → o ≢ cancelled
      → let p = process str o now r records in
        (is_duplicate r.id p.records ≡ (if is_duplicate r.id records then false else settles o))
        × (p.dispatched ≡ (if is_duplicate r.id records then false else true))
  unfolding process is_processed
  process-duplicate o now r records h = elim (Bool-cases (is_duplicate r.id records)) [
    | inl again ↦
        rw again (duplicate-save (record r { status = InboxStatus.duplicate }) records, refl)
    | inr fresh ↦ rw fresh (finish-duplicate o now r (save r records) h)
  ]

  -- How many of the deliveries are dispatched, one after the other.
  unfoldable pub dispatches : List (Delivery P X) → Records P → ℕ
  dispatches [] records = 0
  dispatches ((o, now, r) ∷ ds) records =
      let p = process str o now r records in
      (if p.dispatched then 1 else 0) + dispatches ds p.records

  -- the next state of the message `i` after a delivery of it
  delivered :
      (i : String) (o : Outcome (Unit {0}) X) (now : ℕ) (r : InboxRecord P) (records : Records P)
      → r.id ≡ i
      → o ≢ cancelled
      → let p = process str o now r records in
        (is_duplicate i p.records ≡ (if is_duplicate i records then false else settles o))
        × (p.dispatched ≡ (if is_duplicate i records then false else true))
  delivered i o now r records e h =
      subst
        (λ j.
          let p = process str o now r records in
          (is_duplicate j p.records ≡ (if is_duplicate j records then false else settles o))
          × (p.dispatched ≡ (if is_duplicate j records then false else true)))
        e (process-duplicate o now r records h)

  alternate :
      (i : String) (ds : List (Delivery P X)) (records : Records P)
      → Succeed i ds
      → dispatches ds records
        ≡ (if is_duplicate i records then length ds / 2 else (length ds + 1) / 2)
  unfolding dispatches settles
  alternate i [] records h = ground arith
  alternate i ((o, now, r) ∷ ds) records h =
      let (next, now_dispatched) =
        delivered i o now r records h.0.0 (settles-ne o (ap settles h.0.1)) in
      let rest = alternate i ds (process str o now r records).records h.1 in
      elim (Bool-cases (is_duplicate i records)) [
        | inl e ↦ ground (arith, next, now_dispatched, rest, ap settles h.0.1, e)
        | inr e ↦ ground (arith, next, now_dispatched, rest, ap settles h.0.1, e)
      ]

  -- Deliveries of a message that was not processed, all of whose dispatches return, are
  -- dispatched every other time: of `n` deliveries `(n + 1) / 2` are.
  pub deliveries_alternate :
      (i : String) (ds : List (Delivery P X)) (records : Records P)
      → Succeed i ds
      → is_duplicate i records ≡ false
      → dispatches ds records ≡ (length ds + 1) / 2
  deliveries_alternate i ds records h fresh = alternate i ds records h ∙ ground arith

  -- A message that was not processed, all of whose dispatches raise, is dispatched at each of its
  -- deliveries.
  pub deliveries_retried :
      (i : String) (ds : List (Delivery P X)) (records : Records P)
      → Fail i ds
      → is_duplicate i records ≡ false
      → dispatches ds records ≡ length ds
  unfolding dispatches settles
  deliveries_retried i [] records h fresh = refl
  deliveries_retried i ((o, now, r) ∷ ds) records h fresh =
      let (next, now_dispatched) = delivered i o now r records h.0.0 (raised-ne o h.0.1) in
      let rest =
        deliveries_retried i ds (process str o now r records).records h.1
          (next ∙ rw (fresh, h.0.1.1) refl) in
      ground (arith, next, now_dispatched, rest, fresh)
