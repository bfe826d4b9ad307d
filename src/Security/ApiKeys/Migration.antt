-- ===== src/Security/ApiKeys/Migration.antt =====
-- What a verification makes of a key that it accepts.
use python_commons.Base.{
  ℕ, ◌≡◌, ◌≢◌, refl, sym, subst, String, string_eq, Bool, true, false, Bool-cases, inl, inr, Option,
  none, some,
}
use python_commons.Dict.{Dict, lookup, lookup-insert_self, lookup-insert_ne}
use python_commons.Outcome.{Outcome, returned, raised, cancelled}
use python_commons.Security.ApiKeys.{
  ApiKey, is_valid, prefix, is_bcrypt, is_argon2, Hashers, with_hash, saved, unless_raised,
  checked_unknown, upgrade_to, upgrade_bcrypt, rehash, verified, verify_hash, with_record,
  with_key_id, verify_and_upgrade, in_memory,
}

module _ {X : Type 0} (h : Hashers X) where
  -- the check of a key that belongs to the format of its hash
  abbrev pub AcceptsIn : (bcrypt argon2 : Bool) → String → String → Type 0
  AcceptsIn true _ raw_key key_hash = h.checkpw raw_key key_hash ≡ returned true
  AcceptsIn false true raw_key key_hash = h.verify key_hash raw_key ≡ returned tt
  AcceptsIn false false raw_key key_hash = h.checkpw raw_key key_hash ≡ returned true

  -- the hash accepts the key
  abbrev pub Accepts : String → String → Type 0
  Accepts raw_key key_hash = AcceptsIn (is_bcrypt key_hash) (is_argon2 key_hash) raw_key key_hash

  -- What argon2 documents: a hash has its prefix, and verifies the key it was made of; the
  -- parameters of a hash that has verified a key can be read, as only those of an invalid hash
  -- cannot, which verifies none.
  pub record IsArgon2 : Type 0 where
    pub hashes :
        (raw_key : String)
        → (c : String) × (h.hash raw_key ≡ returned c)
          × (is_bcrypt c ≡ false)
          × (is_argon2 c ≡ true)
          × (h.verify c raw_key ≡ returned tt)
    pub reads :
        (c raw_key : String)
        → h.verify c raw_key ≡ returned tt
        → (b : Bool) × (h.check_needs_rehash c ≡ returned b)

  -- The record in the store is the one that was returned, the old one but for its hash, which is
  -- none of bcrypt and accepts the key; the other records are as they were.
  abbrev pub Kept :
      String → ApiKey → Dict String ApiKey → Dict String ApiKey × Outcome (Option ApiKey) X → Type 0
  Kept raw_key r w (w', returned (some k)) =
      (k ≡ with_hash r k.key_hash)
      × (lookup r.key_id w' ≡ some k)
      × (is_bcrypt k.key_hash ≡ false)
      × Accepts raw_key k.key_hash
      × ((j : String) → r.key_id ≢ j → lookup j w' ≡ lookup j w)
  Kept raw_key r w (w', returned none) = ⊥
  Kept raw_key r w (w', raised x) = ⊥
  Kept raw_key r w (w', cancelled) = ⊥

  upgrade-Kept :
      (raw_key : String) (r : ApiKey) (w : Dict String ApiKey) (fallback : Option ApiKey)
      → IsArgon2
      → Kept raw_key r w (unless_raised fallback (upgrade_to in_memory r (h.hash raw_key) w))
  unfolding unless_raised upgrade_to saved in_memory with_hash
  upgrade-Kept raw_key r w fallback l =
      let (c, e, other, format, accepts) = l.hashes raw_key in
      subst (λ o. Kept raw_key r w (unless_raised fallback (upgrade_to in_memory r o w))) (sym e)
        (
          refl,
          lookup-insert_self r.key_id (with_hash r c) w,
          other,
          rw other (rw format accepts),
          λ j ne. lookup-insert_ne r.key_id j (with_hash r c) w ne,
        )

  rehash-Kept :
      (raw_key : String) (r : ApiKey) (w : Dict String ApiKey) (b : Bool)
      → IsArgon2
      → lookup r.key_id w ≡ some r
      → is_bcrypt r.key_hash ≡ false
      → Accepts raw_key r.key_hash
      → Kept raw_key r w (unless_raised none (rehash in_memory h raw_key r (returned b) w))
  unfolding rehash unless_raised with_hash
  rehash-Kept raw_key r w true l found other accepts = upgrade-Kept raw_key r w none l
  rehash-Kept raw_key r w false l found other accepts = (refl, found, other, accepts, λ j ne. refl)

  verified-Kept :
      (raw_key : String) (r : ApiKey) (w : Dict String ApiKey)
      → IsArgon2
      → lookup r.key_id w ≡ some r
      → is_bcrypt r.key_hash ≡ false
      → is_argon2 r.key_hash ≡ true
      → h.verify r.key_hash raw_key ≡ returned tt
      → Kept raw_key r w
          (unless_raised none (verified in_memory h raw_key r (h.verify r.key_hash raw_key) w))
  unfolding verified
  verified-Kept raw_key r w l found other format accepts =
      let (b, e) = l.reads r.key_hash raw_key accepts in
      subst (λ o. Kept raw_key r w (unless_raised none (verified in_memory h raw_key r o w)))
        (sym accepts)
        (subst (λ o. Kept raw_key r w (unless_raised none (rehash in_memory h raw_key r o w)))
          (sym e) (rehash-Kept raw_key r w b l found other (rw other (rw format accepts))))

  verify_hash-Kept :
      (raw_key : String) (r : ApiKey) (w : Dict String ApiKey)
      → IsArgon2
      → lookup r.key_id w ≡ some r
      → Accepts raw_key r.key_hash
      → Kept raw_key r w (verify_hash in_memory h raw_key r w)
  unfolding verify_hash upgrade_bcrypt checked_unknown with_hash
  verify_hash-Kept raw_key r w l found accepts = elim (Bool-cases (is_bcrypt r.key_hash)) [
    | inl b ↦ rw b (
        subst (λ o. Kept raw_key r w (upgrade_bcrypt in_memory h raw_key r o w))
          (sym (subst (λ x. AcceptsIn x (is_argon2 r.key_hash) raw_key r.key_hash) b accepts))
          (upgrade-Kept raw_key r w (some r) l))
    | inr b ↦
        let checked =
          subst (λ x. AcceptsIn x (is_argon2 r.key_hash) raw_key r.key_hash) b accepts in
        elim (Bool-cases (is_argon2 r.key_hash)) [
          | inl a ↦ rw b (
              rw a (
                verified-Kept raw_key r w l found b a
                  (subst (λ x. AcceptsIn false x raw_key r.key_hash) a checked)))
          | inr a ↦ rw b (
              rw a (
                subst (λ o. Kept raw_key r w (w, checked_unknown r o))
                  (sym (subst (λ x. AcceptsIn false x raw_key r.key_hash) a checked))
                  (refl, found, b, accepts, λ j ne. refl)))
        ]
  ]

  -- The key of a record in the in-memory store that is neither revoked nor expired, and whose hash
  -- accepts it, is accepted, if argon2 does what it documents: the call returns the record with a
  -- hash that is none of bcrypt and accepts the key again, and that record alone has changed in the
  -- store.
  pub verify_and_upgrade-Kept :
      (now : ℕ) (raw_key : String) (r : ApiKey) (w : Dict String ApiKey)
      → IsArgon2
      → prefix 8 raw_key ≡ some r.key_id
      → lookup r.key_id w ≡ some r
      → is_valid now r ≡ true
      → Accepts raw_key r.key_hash
      → Kept raw_key r w (verify_and_upgrade in_memory h now raw_key w)
  unfolding verify_and_upgrade with_key_id with_record in_memory
  verify_and_upgrade-Kept now raw_key r w l id found valid accepts =
      rw id (rw found (rw valid (verify_hash-Kept raw_key r w l found accepts)))
