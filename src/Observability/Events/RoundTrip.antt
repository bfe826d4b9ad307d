-- ===== src/Observability/Events/RoundTrip.antt =====
-- What reading an event gives back of what was written.
use python_commons.Base.{
  ℕ, ◌≤◌, ◌≡◌, ◌≢◌, refl, sym, ap, ◌∙◌, subst, String, string_eq, ◌=?◌, true, false, Bool-cases,
  Option, none, some, [], ◌∷◌, ◌++◌, arith, inl, inr,
}
use mathlib.Core.Bool.{false≢true}
use mathlib.Core.List.{append_assoc, append-nil}
use python_commons.Dict.{Dict, lookup, IsUnique}
use python_commons.Dict.Order.{insert_absent, lookup-append_one}
use python_commons.Outcome.{returned}
use python_commons.Observability.Events.{
  Any, StructuredEvent, Python, is_reserved, merge, unreserved, get_or, iso, dict_of, to_dict, int,
  timestamp_of, event_of, versioned, from_dict,
}

module _ {T V : Type 0} where
  -- no key of the second dict is in the first
  abbrev Absent : Dict String (Any T V) → Dict String (Any T V) → Type 0
  Absent base [] = Unit
  Absent base ((k, v) ∷ fields) = (lookup k base ≡ none) × Absent base fields

  Absent-append :
      (base fields : Dict String (Any T V)) (k : String) (v : Any T V)
      → Absent base fields
      → lookup k fields ≡ none
      → Absent (base ++ (k, v) ∷ []) fields
  Absent-append base [] k v a n = tt
  Absent-append base ((j, w) ∷ fields) k v a n = (
    ground (arith, lookup-append_one j k v base, string_eq.beq_iff j k, string_eq.beq_iff k j),
    Absent-append base fields k v a.1 (ground arith),
  )

  merge-Absent :
      (base fields : Dict String (Any T V))
      → Absent base fields
      → IsUnique fields
      → merge base fields ≡ base ++ fields
  unfolding merge
  merge-Absent base [] a u = sym (append-nil base)
  merge-Absent base ((k, v) ∷ fields) a u =
      ap (λ b. merge b fields) (insert_absent k v base a.0)
      ∙ merge-Absent (base ++ (k, v) ∷ []) fields (Absent-append base fields k v a.1 u.0) u.1
      ∙ append_assoc base ((k, v) ∷ []) fields

  -- no key of the fields is reserved
  abbrev pub Free : Dict String (Any T V) → Type 0
  Free [] = Unit
  Free ((k, v) ∷ fields) = (is_reserved k ≡ false) × Free fields

  unreserved-Free : (fields : Dict String (Any T V)) → Free fields → unreserved fields ≡ fields
  unfolding unreserved
  unreserved-Free [] f = refl
  unreserved-Free ((k, v) ∷ fields) f = rw f.0 (ap (λ d. (k, v) ∷ d) (unreserved-Free fields f.1))

  Free-unreserved : (d : Dict String (Any T V)) → Free (unreserved d)
  unfolding unreserved
  Free-unreserved [] = tt
  Free-unreserved ((k, v) ∷ d) = elim (Bool-cases (is_reserved k)) [
    | inl e ↦ rw e (Free-unreserved d)
    | inr e ↦ rw e (e, Free-unreserved d)
  ]

lookup-Free :
    {T V : Type 0} (k : String) (fields : Dict String (Any T V))
    → Free fields
    → is_reserved k ≡ true
    → lookup k fields ≡ none
lookup-Free k [] f r = refl
lookup-Free k ((j, w) ∷ fields) f r = elim (Bool-cases (j =? k)) [
  | inl e ↦ absurd (false≢true (sym f.0 ∙ ap is_reserved ((string_eq.beq_iff j k).0 e) ∙ r))
  | inr e ↦ rw e (lookup-Free k fields f.1 r)
]

module _ {T V : Type 0} (py : Python T V) where
  -- the entries that `to_dict` begins with
  abbrev header : StructuredEvent T V → Any T V → Dict String (Any T V)
  header e timestamp =
      ("schema_version", Any.num e.schema_version)
      ∷ ("name", e.name)
      ∷ ("service", e.service)
      ∷ ("timestamp", timestamp)
      ∷ ("trace_id", e.trace_id)
      ∷ ("duration_ms", e.duration_ms)
      ∷ []

  header-Absent :
      (e : StructuredEvent T V) (timestamp : Any T V) (fields : Dict String (Any T V))
      → Free fields
      → Absent (header e timestamp) fields
  header-Absent e timestamp [] f = tt
  header-Absent e timestamp ((k, v) ∷ fields) f =
      (ground (arith, f.0), header-Absent e timestamp fields f.1)

  -- An event with a time, of a version that the library knows, whose fields have no reserved and no
  -- repeated key, is written, and what was written is read as the same event, at any time, if
  -- fromisoformat reads what isoformat writes.
  pub from_dict-to_dict :
      (e : StructuredEvent T V) (t now : T)
      → ((u : T) → py.fromisoformat (py.isoformat u) ≡ some u)
      → e.timestamp ≡ Any.time t
      → e.schema_version ≤ 1
      → IsUnique e.fields
      → Free e.fields
      → (d : Dict String (Any T V)) × (to_dict py e ≡ returned d)
        × (from_dict py now d ≡ returned e)
  unfolding to_dict iso dict_of from_dict int versioned event_of timestamp_of get_or unreserved
  from_dict-to_dict e t now law timed known unique free =
      let stamp : Any T V = Any.text (py.isoformat t) in
      let written =
        merge-Absent (header e stamp) e.fields (header-Absent e stamp e.fields free) unique in
      (
        header e stamp ++ e.fields,
        ap (λ v. dict_of py e (iso py v)) timed ∙ ap returned written,
        ground (arith, law t, unreserved-Free e.fields free, timed, known),
      )

  event_of-fields :
      (d : Dict String (Any T V)) (version : ℕ) (t name service : Option (Any T V))
      (e : StructuredEvent T V)
      → event_of py d version t name service ≡ returned e
      → e.fields ≡ unreserved d
  unfolding event_of
  event_of-fields d version none name service e h = cc
  event_of-fields d version (some t) none service e h = cc
  event_of-fields d version (some t) (some name) none e h = cc
  event_of-fields d version (some t) (some name) (some service) e h = ground (arith, h)

  versioned-fields :
      (now : T) (d : Dict String (Any T V)) (o : Option ℕ) (e : StructuredEvent T V)
      → versioned py now d o ≡ returned e
      → e.fields ≡ unreserved d
  unfolding versioned
  versioned-fields now d none e h = cc
  versioned-fields now d (some n) e h = ground (
    arith,
    h,
    event_of-fields d n (timestamp_of py now (get_or Any.null (lookup "timestamp" d)))
        (lookup "name" d) (lookup "service" d) e,
  )

  from_dict-fields :
      (now : T) (d : Dict String (Any T V)) (e : StructuredEvent T V)
      → from_dict py now d ≡ returned e
      → e.fields ≡ unreserved d
  unfolding from_dict
  from_dict-fields now d e h =
      versioned-fields now d (int py (get_or (Any.num 1) (lookup "schema_version" d))) e h

  -- What is read of an event with a reserved key among its fields, from whatever dict, is not that
  -- event: such a key is never read as a field.
  pub from_dict_reserved :
      (e : StructuredEvent T V) (now : T) (d : Dict String (Any T V)) (k : String) (v : Any T V)
      → lookup k e.fields ≡ some v
      → is_reserved k ≡ true
      → from_dict py now d ≢ returned e
  from_dict_reserved e now d k v found res read =
      let same = from_dict-fields now d e read in
      let gone = lookup-Free k e.fields (subst Free (sym same) (Free-unreserved d)) res in cc
