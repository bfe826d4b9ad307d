-- ===== src/Application/Pipeline/Idempotency/Replay.antt =====
-- The in-memory store as a function from keys to records.
use python_commons.Base.{
  ◌≡◌, refl, ap, ◌∙◌, sym, String, string_eq, ◌=?◌, Bool-cases, inl, inr, Option, none, some, List,
  [], ◌∷◌, if◌then◌else◌,
}
use python_commons.Dict.{Dict, lookup, insert, lookup-insert}
use python_commons.Application.Pipeline.Idempotency.{
  IdempotencyRecord, with_response, complete_in, in_memory,
}

-- a call that writes
pub data Write (B : Type 0) : Type 0 where
  saved : String → IdempotencyRecord B → Write B
  completed_with : String → B → Write B

module _ {B : Type 0} where
  -- the writes on the store
  abbrev pub write_all :
      List (Write B) → Dict String (IdempotencyRecord B) → Dict String (IdempotencyRecord B)
  write_all [] records = records
  write_all (saved k r ∷ ws) records = write_all ws (in_memory.save k r records)
  write_all (completed_with k b ∷ ws) records = write_all ws (in_memory.complete k b records)

  abbrev pub completed_record : B → Option (IdempotencyRecord B) → Option (IdempotencyRecord B)
  completed_record b none = none
  completed_record b (some r) = some (with_response r b)

  -- what the writes make of the record of a key
  abbrev pub replay :
      List (Write B) → String → Option (IdempotencyRecord B) → Option (IdempotencyRecord B)
  replay [] j o = o
  replay (saved k r ∷ ws) j o = replay ws j (if k =? j then some r else o)
  replay (completed_with k b ∷ ws) j o = replay ws j (if k =? j then completed_record b o else o)

  -- what stands under `k`, seen from a key that is tested against it
  if_found :
      (k j : String) (b : B) (records : Dict String (IdempotencyRecord B))
      (o : Option (IdempotencyRecord B))
      → lookup k records ≡ o
      → (if k =? j then completed_record b o else lookup j records)
        ≡ (if k =? j then completed_record b (lookup j records) else lookup j records)
  if_found k j b records o e = elim (Bool-cases (k =? j)) [
    | inl t ↦
        let found = sym e ∙ ap (λ i. lookup i records) ((string_eq.beq_iff k j).0 t) in
        rw t (ap (completed_record b) found)
    | inr t ↦ rw t refl
  ]

  lookup-complete_in :
      (k j : String) (b : B) (records : Dict String (IdempotencyRecord B))
      (o : Option (IdempotencyRecord B))
      → lookup k records ≡ o
      → lookup j (complete_in o k b records)
        ≡ (if k =? j then completed_record b o else lookup j records)
  unfolding complete_in
  lookup-complete_in k j b records none e = elim (Bool-cases (k =? j)) [
    | inl t ↦ rw t (ap (λ i. lookup i records) (sym ((string_eq.beq_iff k j).0 t)) ∙ e)
    | inr t ↦ rw t refl
  ]
  lookup-complete_in k j b records (some r) e = lookup-insert k j (with_response r b) records

  lookup_complete :
      (k j : String) (b : B) (records : Dict String (IdempotencyRecord B))
      → lookup j (complete_in (lookup k records) k b records)
        ≡ (if k =? j then completed_record b (lookup j records) else lookup j records)
  lookup_complete k j b records =
      lookup-complete_in k j b records (lookup k records) refl
      ∙ if_found k j b records (lookup k records) refl

  pub in_memory-replays :
      (ws : List (Write B)) (j : String) (records : Dict String (IdempotencyRecord B))
      → in_memory.get j (write_all ws records) ≡ replay ws j (in_memory.get j records)
  unfolding in_memory
  in_memory-replays [] j records = refl
  in_memory-replays (saved k r ∷ ws) j records =
      in_memory-replays ws j (insert k r records) ∙ ap (replay ws j) (lookup-insert k j r records)
  in_memory-replays (completed_with k b ∷ ws) j records =
      in_memory-replays ws j (complete_in (lookup k records) k b records)
      ∙ ap (replay ws j) (lookup_complete k j b records)
