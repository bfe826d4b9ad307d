-- ===== src/Security/ApiKeys/Revocation.antt =====
-- What becomes of a revoked key.
use python_commons.Base.{ℕ, ◌≡◌, refl, sym, subst, String, string_eq, true, Option, none, some}
use python_commons.Dict.{Dict, lookup, insert, lookup-insert_self}
use python_commons.Outcome.{returned}
use python_commons.Security.ApiKeys.{
  ApiKey, is_valid, prefix, Hashers, with_record, with_key_id, verify_and_upgrade, in_memory,
  revoke, verify_record, verify_key_id, verify,
}

-- no record, or a revoked one
abbrev Revoked : Option ApiKey → Type 0
Revoked none = Unit
Revoked (some k) = k.revoked ≡ true

revoke_missing :
    (key_id : String) (w : Dict String ApiKey) → lookup key_id w ≡ none → revoke key_id w ≡ w
unfolding revoke
revoke_missing key_id w e = rw (revoke, e) refl

revoke_present :
    (key_id : String) (w : Dict String ApiKey) (k : ApiKey)
    → lookup key_id w ≡ some k
    → revoke key_id w ≡ insert key_id (record k { revoked = true }) w
unfolding revoke
revoke_present key_id w k e = rw (revoke, e) refl

revoke-Revoked :
    (key_id : String) (w : Dict String ApiKey) (o : Option ApiKey)
    → lookup key_id w ≡ o
    → Revoked (lookup key_id (revoke key_id w))
revoke-Revoked key_id w none e =
    subst (λ v. Revoked (lookup key_id v)) (sym (revoke_missing key_id w e)) (rw (Revoked, e) tt)
revoke-Revoked key_id w (some k) e =
    let revoked = record k { revoked = true } in
    subst (λ v. Revoked (lookup key_id v)) (sym (revoke_present key_id w k e))
      (subst Revoked (sym (lookup-insert_self key_id revoked w)) refl)

module _ {X : Type 0} (h : Hashers X) where
  with_record-Revoked :
      (now : ℕ) (raw_key : String) (o : Option ApiKey) (w : Dict String ApiKey)
      → Revoked o
      → with_record in_memory h now raw_key o w ≡ (w, returned none)
  unfolding with_record is_valid
  with_record-Revoked now raw_key none w e = refl
  with_record-Revoked now raw_key (some k) w e = rw e refl

  verify_record-Revoked :
      (now : ℕ) (raw_key : String) (o : Option ApiKey)
      → Revoked o
      → verify_record {W = Dict String ApiKey} in_memory h.checkpw now raw_key o ≡ returned none
  unfolding verify_record is_valid
  verify_record-Revoked now raw_key none e = refl
  verify_record-Revoked now raw_key (some k) e = rw e refl

  -- After a key is revoked in the in-memory store, neither the verifier nor the upgrade accepts, at
  -- any time, any raw key that begins with its id, and the store stays as it is.
  pub revoke-refused :
      (now : ℕ) (raw_key key_id : String) (w : Dict String ApiKey)
      → prefix 8 raw_key ≡ some key_id
      → (verify_and_upgrade in_memory h now raw_key (revoke key_id w)
          ≡ (revoke key_id w, returned none))
        × (verify in_memory h.checkpw now raw_key (revoke key_id w) ≡ returned none)
  unfolding verify_and_upgrade with_key_id verify verify_key_id in_memory
  revoke-refused now raw_key key_id w e =
      let revoked = revoke-Revoked key_id w (lookup key_id w) refl in
      rw e (
        with_record-Revoked now raw_key (lookup key_id (revoke key_id w)) (revoke key_id w) revoked,
        verify_record-Revoked now raw_key (lookup key_id (revoke key_id w)) revoked,
      )
