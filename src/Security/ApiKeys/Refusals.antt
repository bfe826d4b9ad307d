-- ===== src/Security/ApiKeys/Refusals.antt =====
-- Which keys a verification accepts.
use python_commons.Base.{
  ℕ, ◌≡◌, refl, String, Bool, true, false, Bool-cases, inl, inr, Option, none, some,
}
use python_commons.Outcome.{Outcome, returned, raised, cancelled}
use python_commons.Security.ApiKeys.{
  ApiKey, is_valid, prefix, is_bcrypt, is_argon2, ApiKeyStore, Hashers, with_hash, saved,
  unless_raised, checked_unknown, upgrade_to, upgrade_bcrypt, rehash, verified, verify_hash,
  with_record, with_key_id, verify_and_upgrade,
}
use python_commons.Security.ApiKeys.Migration.{Accepts}

-- a returned key is the record but for its hash, and `A` holds
abbrev Accepted : {W X : Type 0} → Type 0 → ApiKey → W × Outcome (Option ApiKey) X → Type 0
Accepted A r (w, returned (some k)) = A × (k ≡ with_hash r k.key_hash)
Accepted A r (w, returned none) = Unit
Accepted A r (w, raised x) = Unit
Accepted A r (w, cancelled) = Unit

module _ {W X : Type 0} (s : ApiKeyStore W X) (h : Hashers X) where
  saved-Accepted :
      {A : Type 0} (r : ApiKey) (c : String) (fallback : Option ApiKey)
      (p : W × Outcome (Unit {0}) X)
      → ((w : W) → Accepted {X = X} A r (w, returned fallback))
      → A
      → Accepted A r (unless_raised fallback (saved (with_hash r c) p))
  unfolding saved unless_raised with_hash
  saved-Accepted r c fallback (w, returned _) f a = (a, refl)
  saved-Accepted r c fallback (w, raised x) f a = f w
  saved-Accepted r c fallback (w, cancelled) f a = tt

  upgrade-Accepted :
      {A : Type 0} (r : ApiKey) (fallback : Option ApiKey) (o : Outcome String X) (w : W)
      → ((w : W) → Accepted {X = X} A r (w, returned fallback))
      → A
      → Accepted A r (unless_raised fallback (upgrade_to s r o w))
  unfolding upgrade_to unless_raised
  upgrade-Accepted r fallback (returned c) w f a =
      saved-Accepted r c fallback (s.save (with_hash r c) w) f a
  upgrade-Accepted r fallback (raised x) w f a = f w
  upgrade-Accepted r fallback cancelled w f a = tt

  bcrypt-Accepted :
      (raw_key : String) (r : ApiKey) (o : Outcome Bool X) (w : W)
      → Accepted (o ≡ returned true) r (upgrade_bcrypt s h raw_key r o w)
  unfolding upgrade_bcrypt with_hash
  bcrypt-Accepted raw_key r (returned true) w =
      upgrade-Accepted r (some r) (h.hash raw_key) w (λ v. (refl, refl)) refl
  bcrypt-Accepted raw_key r (returned false) w = tt
  bcrypt-Accepted raw_key r (raised x) w = tt
  bcrypt-Accepted raw_key r cancelled w = tt

  rehash-Accepted :
      {A : Type 0} (raw_key : String) (r : ApiKey) (o : Outcome Bool X) (w : W)
      → A
      → Accepted A r (unless_raised none (rehash s h raw_key r o w))
  unfolding rehash unless_raised with_hash
  rehash-Accepted raw_key r (returned true) w a =
      upgrade-Accepted r none (h.hash raw_key) w (λ v. tt) a
  rehash-Accepted raw_key r (returned false) w a = (a, refl)
  rehash-Accepted raw_key r (raised x) w a = tt
  rehash-Accepted raw_key r cancelled w a = tt

  verified-Accepted :
      (raw_key : String) (r : ApiKey) (o : Outcome (Unit {0}) X) (w : W)
      → Accepted (o ≡ returned tt) r (unless_raised none (verified s h raw_key r o w))
  unfolding verified unless_raised
  verified-Accepted raw_key r (returned _) w =
      rehash-Accepted raw_key r (h.check_needs_rehash r.key_hash) w refl
  verified-Accepted raw_key r (raised x) w = tt
  verified-Accepted raw_key r cancelled w = tt

  unknown-Accepted :
      (r : ApiKey) (o : Outcome Bool X) (w : W)
      → Accepted (o ≡ returned true) r (w, checked_unknown r o)
  unfolding checked_unknown with_hash
  unknown-Accepted r (returned true) w = (refl, refl)
  unknown-Accepted r (returned false) w = tt
  unknown-Accepted r (raised x) w = tt
  unknown-Accepted r cancelled w = tt

  verify_hash-Accepted :
      (raw_key : String) (r : ApiKey) (w : W)
      → Accepted (Accepts h raw_key r.key_hash) r (verify_hash s h raw_key r w)
  unfolding verify_hash
  verify_hash-Accepted raw_key r w = elim (Bool-cases (is_bcrypt r.key_hash)) [
    | inl b ↦ rw b (bcrypt-Accepted raw_key r (h.checkpw raw_key r.key_hash) w)
    | inr b ↦ elim (Bool-cases (is_argon2 r.key_hash)) [
      | inl a ↦ rw b (rw a (verified-Accepted raw_key r (h.verify r.key_hash raw_key) w))
      | inr a ↦ rw b (rw a (unknown-Accepted r (h.checkpw raw_key r.key_hash) w))
    ]
  ]

  -- A returned key is, but for its hash, a record that the store has for the first 8 characters of
  -- the raw key, is neither revoked nor expired, and has a hash that accepts the raw key.
  abbrev pub Sound : ℕ → String → W → W × Outcome (Option ApiKey) X → Type 0
  Sound now raw_key w (w', returned (some k)) =
      (key_id : String) × (r : ApiKey) × (prefix 8 raw_key ≡ some key_id)
      × (s.find_by_id key_id w ≡ some r)
      × (is_valid now r ≡ true)
      × Accepts h raw_key r.key_hash
      × (k ≡ with_hash r k.key_hash)
  Sound now raw_key w (w', returned none) = Unit
  Sound now raw_key w (w', raised x) = Unit
  Sound now raw_key w (w', cancelled) = Unit

  Accepted-Sound :
      (now : ℕ) (raw_key key_id : String) (r : ApiKey) (w : W) (p : W × Outcome (Option ApiKey) X)
      → prefix 8 raw_key ≡ some key_id
      → s.find_by_id key_id w ≡ some r
      → is_valid now r ≡ true
      → Accepted (Accepts h raw_key r.key_hash) r p
      → Sound now raw_key w p
  Accepted-Sound now raw_key key_id r w (w', returned (some k)) id found valid (accepts, same) =
      (key_id, r, id, found, valid, accepts, same)
  Accepted-Sound now raw_key key_id r w (w', returned none) id found valid a = tt
  Accepted-Sound now raw_key key_id r w (w', raised x) id found valid a = tt
  Accepted-Sound now raw_key key_id r w (w', cancelled) id found valid a = tt

  record-Sound :
      (now : ℕ) (raw_key key_id : String) (o : Option ApiKey) (w : W)
      → prefix 8 raw_key ≡ some key_id
      → s.find_by_id key_id w ≡ o
      → Sound now raw_key w (with_record s h now raw_key o w)
  unfolding with_record
  record-Sound now raw_key key_id none w id found = tt
  record-Sound now raw_key key_id (some r) w id found = elim (Bool-cases (is_valid now r)) [
    | inl v ↦ rw v (
        Accepted-Sound now raw_key key_id r w (verify_hash s h raw_key r w) id found v
          (verify_hash-Accepted raw_key r w))
    | inr v ↦ rw v tt
  ]

  key_id-Sound :
      (now : ℕ) (raw_key : String) (o : Option String) (w : W)
      → prefix 8 raw_key ≡ o
      → Sound now raw_key w (with_key_id s h now raw_key o w)
  unfolding with_key_id
  key_id-Sound now raw_key none w id = tt
  key_id-Sound now raw_key (some key_id) w id =
      record-Sound now raw_key key_id (s.find_by_id key_id w) w id refl

  -- With any store and any hash functions, whichever of them raise, a verification returns a key
  -- only for a raw key of at least 8 characters whose first 8 the store has a record for, which is
  -- neither revoked nor expired and has a hash that accepts the raw key; the key is that record but
  -- for its hash.
  pub verify_and_upgrade-Sound :
      (now : ℕ) (raw_key : String) (w : W)
      → Sound now raw_key w (verify_and_upgrade s h now raw_key w)
  unfolding verify_and_upgrade
  verify_and_upgrade-Sound now raw_key w = key_id-Sound now raw_key (prefix 8 raw_key) w refl
