-- ===== src/Kernel/Outbox/Memory.antt =====
-- The repository in memory keeps the laws.
use python_commons.Base.{
  arith, length-take, All-take, ℕ, zero, suc, String, string_eq, ◌≡◌, ◌≢◌, refl, sym, ◌∙◌, ap,
  subst, Bool, true, false, Bool-cases, Option, none, some, List, [], ◌∷◌, take, All, if◌then◌else◌,
  inl, inr, ◌=?◌, ne_of_test,
}
use mathlib.Core.Bool.{false≢true}
use mathlib.Core.Option.{some-ne-none, some-injective}
use python_commons.Dict.{
  lookup, insert, IsUnique, insert-IsUnique, lookup-insert_self, lookup-insert_ne,
}
use python_commons.Kernel.Outbox.{
  OutboxStatus, OutboxRecord, Distinct, ids, RepositoryLaws, MemoryOutbox, remade, is_pending,
  all_pending, mark, memory_outbox,
}

-- each record stands under its id
abbrev Keyed : MemoryOutbox → Type 0
Keyed d = All (λ (e : String × OutboxRecord). e.0 ≡ e.1.id) d

abbrev pub IsOutbox : MemoryOutbox → Type 0
IsOutbox d = IsUnique d × Keyed d

abbrev pub status_in : Option OutboxRecord → Option OutboxStatus
status_in none = none
status_in (some r) = some r.status

abbrev pub memory_status : String → MemoryOutbox → Option OutboxStatus
memory_status id d = status_in (lookup id d)

insert-Keyed :
    (id : String) (r : OutboxRecord) (d : MemoryOutbox)
    → id ≡ r.id
    → Keyed d
    → Keyed (insert id r d)
insert-Keyed id r [] e k = (e, tt)
insert-Keyed id r ((j, q) ∷ d) e k = elim (Bool-cases (j =? id)) [
  | inl t ↦ rw t ((string_eq.beq_iff j id).0 t ∙ e, k.1)
  | inr t ↦ rw t (k.0, insert-Keyed id r d e k.1)
]

lookup-Keyed :
    (id : String) (r : OutboxRecord) (d : MemoryOutbox) → lookup id d ≡ some r → Keyed d → id ≡ r.id
lookup-Keyed id r [] = λ e k. absurd (some-ne-none r (sym e))
lookup-Keyed id r ((j, q) ∷ d) = elim (Bool-cases (j =? id)) [
  | inl t ↦
      rw t (λ e k. sym ((string_eq.beq_iff j id).0 t) ∙ k.0 ∙ ap (λ u. u.id) (some-injective _ _ e))
  | inr t ↦ rw t (λ e k. lookup-Keyed id r d e k.1)
]

mark-IsOutbox :
    (status : OutboxStatus) (id : String) (d : MemoryOutbox) (o : Option OutboxRecord)
    → lookup id d ≡ o
    → IsOutbox d
    → IsOutbox (mark status id d o)
unfolding mark remade
mark-IsOutbox status id d none e v = v
mark-IsOutbox status id d (some r) e (u, k) =
    (insert-IsUnique id _ d u, insert-Keyed id _ d (lookup-Keyed id r d e k) k)

mark_self :
    (status : OutboxStatus) (id : String) (d : MemoryOutbox) (o : Option OutboxRecord)
    → status_in o ≢ none
    → memory_status id (mark status id d o) ≡ some status
unfolding mark remade
mark_self status id d none h = absurd (h refl)
mark_self status id d (some r) h = ap status_in (lookup-insert_self id _ d)

mark_ne :
    (status : OutboxStatus) (id other : String) (d : MemoryOutbox) (o : Option OutboxRecord)
    → id ≢ other
    → memory_status other (mark status id d o) ≡ memory_status other d
unfolding mark
mark_ne status id other d none h = refl
mark_ne status id other d (some r) h = ap status_in (lookup-insert_ne id other _ d h)

-- what holds of an outbox that is read record by record
ids-take : (n : ℕ) (rs : List OutboxRecord) → ids (take n rs) ≡ take n (ids rs)
ids-take zero rs = refl
ids-take (suc n) [] = refl
ids-take (suc n) (r ∷ rs) = ap (λ xs. r.id ∷ xs) (ids-take n rs)

take-Distinct : (n : ℕ) (xs : List String) → Distinct xs → Distinct (take n xs)
take-Distinct zero xs d = tt
take-Distinct (suc n) [] d = tt
take-Distinct (suc n) (x ∷ xs) (h, d) = (All-take _ n xs h, take-Distinct n xs d)

All-ids : (P : String → Type 0) (rs : List OutboxRecord) → All (λ r. P r.id) rs → All P (ids rs)
All-ids P [] a = tt
All-ids P (r ∷ rs) (p, a) = (p, All-ids P rs a)

test_of_ne : (a b : String) → a ≢ b → (a =? b) ≡ false
test_of_ne a b h = elim (Bool-cases (a =? b)) [
  | inl t ↦ absurd (h ((string_eq.beq_iff a b).0 t))
  | inr t ↦ t
]

-- the records behind the first, of which each has another id
kept :
    (P : OutboxRecord → Type 0) (r : OutboxRecord) (rs : List OutboxRecord) (b : Bool)
    → P r
    → All P rs
    → All P (if b then r ∷ rs else rs)
kept P r rs true p a = (p, a)
kept P r rs false p a = a

pending_other :
    (id : String) (d : MemoryOutbox)
    → lookup id d ≡ none
    → Keyed d
    → All (λ r. id ≢ r.id) (all_pending d)
unfolding all_pending
pending_other id [] = λ e k. tt
pending_other id ((j, q) ∷ d) = elim (Bool-cases (j =? id)) [
  | inl t ↦ rw t (λ e. absurd (some-ne-none q e))
  | inr t ↦ rw t (λ e k.
      kept (λ r. id ≢ r.id) q (all_pending d) (is_pending q.status)
        (λ h. ne_of_test j id t (k.0 ∙ sym h)) (pending_other id d e k.1))
]

kept-Distinct :
    (r : OutboxRecord) (rs : List OutboxRecord) (b : Bool)
    → All (λ q. r.id ≢ q.id) rs
    → Distinct (ids rs)
    → Distinct (ids (if b then r ∷ rs else rs))
kept-Distinct r rs true h d = (All-ids (λ x. r.id ≢ x) rs h, d)
kept-Distinct r rs false h d = d

pending-Distinct : (d : MemoryOutbox) → IsOutbox d → Distinct (ids (all_pending d))
unfolding all_pending
pending-Distinct [] v = tt
pending-Distinct ((j, q) ∷ d) ((fresh, u), (e, k)) =
    kept-Distinct q (all_pending d) (is_pending q.status)
      (subst (λ x. All (λ r. x ≢ r.id) (all_pending d)) e (pending_other j d fresh k))
      (pending-Distinct d (u, k))

-- a status that tests as pending
pending_of : (s : OutboxStatus) → is_pending s ≡ true → s ≡ OutboxStatus.pending
unfolding is_pending
pending_of OutboxStatus.pending e = refl
pending_of OutboxStatus.dispatched e = absurd (false≢true e)
pending_of OutboxStatus.failed e = absurd (false≢true e)

behind_first :
    (j : String) (q : OutboxRecord) (d : MemoryOutbox) (rs : List OutboxRecord)
    → All (λ r. j ≢ r.id) rs
    → All (λ r. memory_status r.id d ≡ some OutboxStatus.pending) rs
    → All (λ r. memory_status r.id ((j, q) ∷ d) ≡ some OutboxStatus.pending) rs
behind_first j q d [] h a = tt
behind_first j q d (r ∷ rs) (n, h) (p, a) = (rw (test_of_ne j r.id n) p, behind_first j q d rs h a)

own_status :
    (q : OutboxRecord) (d : MemoryOutbox)
    → is_pending q.status ≡ true
    → memory_status q.id ((q.id, q) ∷ d) ≡ some OutboxStatus.pending
own_status q d e = rw ((string_eq.beq_iff q.id q.id).1 refl) (ap some (pending_of q.status e))

pending_status :
    (d : MemoryOutbox)
    → IsOutbox d
    → All (λ r. memory_status r.id d ≡ some OutboxStatus.pending) (all_pending d)
unfolding all_pending
pending_status [] v = tt
pending_status ((j, q) ∷ d) ((fresh, u), (e, k)) =
    let rest =
      behind_first j q d (all_pending d) (pending_other j d fresh k) (pending_status d (u, k)) in
    elim (Bool-cases (is_pending q.status)) [
      | inl t ↦ rw t (
        subst (λ x. memory_status q.id ((x, q) ∷ d) ≡ some OutboxStatus.pending) (sym e)
            (own_status q d t),
        rest,
      )
      | inr t ↦ rw t rest
    ]

-- Where each record stands under its id and no id twice, the repository in memory keeps the laws.
pub memory_laws : {X : Type 0} → RepositoryLaws (memory_outbox {X = X})
unfolding memory_outbox
memory_laws = record {
  IsValid = IsOutbox;
  status_at = memory_status;
  pending_records = λ limit d. take limit (all_pending d);
  get_pending_lem = λ limit d. refl;
  pending_records-pending = λ limit d v. All-take _ limit (all_pending d) (pending_status d v);
  pending_records_bounded = λ limit d. omega (arith, length-take limit (all_pending d));
  pending_records-Distinct = λ limit d v.
      subst Distinct (sym (ids-take limit (all_pending d)))
        (take-Distinct limit (ids (all_pending d)) (pending-Distinct d v));
  dispatched_returns = λ id d. refl;
  dispatched-IsValid = λ id d v. mark-IsOutbox OutboxStatus.dispatched id d (lookup id d) refl v;
  dispatched_self = λ id d h. mark_self OutboxStatus.dispatched id d (lookup id d) h;
  dispatched_ne = λ id other d h. mark_ne OutboxStatus.dispatched id other d (lookup id d) h;
  failed_returns = λ id error d. refl;
  failed-IsValid = λ id error d v. mark-IsOutbox OutboxStatus.failed id d (lookup id d) refl v;
  failed_self = λ id error d h. mark_self OutboxStatus.failed id d (lookup id d) h;
  failed_ne = λ id error other d h. mark_ne OutboxStatus.failed id other d (lookup id d) h;
}

pub memory-IsValid : (X : Type 0) (d : MemoryOutbox) → IsOutbox d → (memory_laws {X = X}).IsValid d
unfolding memory_laws
memory-IsValid X d v = v
