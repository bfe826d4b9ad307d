-- ===== src/Security/ApiKeys.antt =====
-- src/mp_commons/security/apikeys: `ApiKey`, the in-memory store and the verifier of generator.py,
-- and `ApiKeyHashUpgrade` of hash_upgrade.py. bcrypt and argon2 are arguments; a random salt is part
-- of what `hash` does. Bytes are texts.
pub mod Migration
pub mod Refusals
pub mod Revocation
mod Tests
use Prim.Native.String.{[] as empty, ◌∷◌ as prepend}
use text.Mathlib.Text.{starts_with}
use python_commons.Base.{
  ℕ, zero, suc, leb, String, string_eq, Bool, true, false, not, ◌&&◌, Option, none, some, List,
  if◌then◌else◌,
}
use python_commons.Dict.{Dict, lookup, insert}
use python_commons.Outcome.{Outcome, returned, raised, cancelled}

pub record ApiKey : Type 0 where
  pub key_id : String
  pub key_hash : String
  pub principal_id : String
  pub scopes : List String
  pub expires_at : Option ℕ
  pub revoked : Bool

pub is_expired_at : Option ℕ → ℕ → Bool
is_expired_at none now = false
is_expired_at (some t) now = leb t now

-- `is_valid`
unfoldable pub is_valid : ℕ → ApiKey → Bool
unfolding is_expired_at
is_valid now k = not k.revoked && not (is_expired_at k.expires_at now)

-- `raw_key[:n]`; `none` if the key is shorter
unfoldable pub prefix : ℕ → String → Option String
prefix zero s = some ""
prefix (suc n) s = elim s [
  | empty ↦ none
  | prepend c rest ↦ elim (prefix n rest) [ none ↦ none | some p ↦ some (prepend c p) ]
]

pub is_bcrypt : String → Bool
is_bcrypt key_hash = starts_with key_hash "$2"

pub is_argon2 : String → Bool
is_argon2 key_hash = starts_with key_hash "$argon2"

-- `find_by_id` and `save`
pub record ApiKeyStore (W X : Type 0) : Type 0 where
  pub find_by_id : String → W → Option ApiKey
  pub save : ApiKey → W → W × Outcome (Unit {0}) X

-- `checkpw` of bcrypt, and `hash`, `verify` and `check_needs_rehash` of argon2
pub record Hashers (X : Type 0) : Type 0 where
  pub checkpw : String → String → Outcome Bool X
  pub hash : String → Outcome String X
  pub verify : String → String → Outcome (Unit {0}) X
  pub check_needs_rehash : String → Outcome Bool X

-- the record that is saved in place of `record`
pub with_hash : ApiKey → String → ApiKey
with_hash record_ key_hash = record record_ { key_hash = key_hash }

module _ {X : Type 0} where
  -- what the check of an unknown format ends with
  checked_unknown : ApiKey → Outcome Bool X → Outcome (Option ApiKey) X
  checked_unknown k (returned ok) = returned (if ok then some k else none)
  checked_unknown k (raised x) = returned none
  checked_unknown k cancelled = cancelled

module _ {W X : Type 0} where
  -- what `save` of the new record ends with
  saved : ApiKey → W × Outcome (Unit {0}) X → W × Outcome ApiKey X
  saved k (w, returned _) = (w, returned k)
  saved k (w, raised x) = (w, raised x)
  saved k (w, cancelled) = (w, cancelled)

  -- `except Exception: return fallback`
  unless_raised : Option ApiKey → W × Outcome ApiKey X → W × Outcome (Option ApiKey) X
  unless_raised fallback (w, returned k) = (w, returned (some k))
  unless_raised fallback (w, raised x) = (w, returned fallback)
  unless_raised fallback (w, cancelled) = (w, cancelled)

module _ {W X : Type 0} (s : ApiKeyStore W X) where
  -- the new hash in a new record, which is saved
  upgrade_to : ApiKey → Outcome String X → W → W × Outcome ApiKey X
  unfolding saved with_hash
  upgrade_to k (returned h) w = saved (with_hash k h) (s.save (with_hash k h) w)
  upgrade_to k (raised x) w = (w, raised x)
  upgrade_to k cancelled w = (w, cancelled)

module _ {W X : Type 0} (s : ApiKeyStore W X) (h : Hashers X) where
  -- behind `checkpw` of a bcrypt hash
  upgrade_bcrypt : String → ApiKey → Outcome Bool X → W → W × Outcome (Option ApiKey) X
  unfolding upgrade_to unless_raised
  upgrade_bcrypt raw_key k (returned ok) w =
      if ok then unless_raised (some k) (upgrade_to s k (h.hash raw_key) w) else (w, returned none)
  upgrade_bcrypt raw_key k (raised x) w = (w, raised x)
  upgrade_bcrypt raw_key k cancelled w = (w, cancelled)

  -- behind `check_needs_rehash`
  rehash : String → ApiKey → Outcome Bool X → W → W × Outcome ApiKey X
  unfolding upgrade_to
  rehash raw_key k (returned needed) w =
      if needed then upgrade_to s k (h.hash raw_key) w else (w, returned k)
  rehash raw_key k (raised x) w = (w, raised x)
  rehash raw_key k cancelled w = (w, cancelled)

  -- behind `verify` of an argon2 hash
  verified : String → ApiKey → Outcome (Unit {0}) X → W → W × Outcome ApiKey X
  unfolding rehash
  verified raw_key k (returned _) w = rehash raw_key k (h.check_needs_rehash k.key_hash) w
  verified raw_key k (raised x) w = (w, raised x)
  verified raw_key k cancelled w = (w, cancelled)

  -- the three branches on the format of the hash
  unfoldable pub verify_hash : String → ApiKey → W → W × Outcome (Option ApiKey) X
  unfolding upgrade_bcrypt verified unless_raised checked_unknown
  verify_hash raw_key k w =
      if is_bcrypt k.key_hash
      then upgrade_bcrypt raw_key k (h.checkpw raw_key k.key_hash) w
      else if is_argon2 k.key_hash
      then unless_raised none (verified raw_key k (h.verify k.key_hash raw_key) w)
      else (w, checked_unknown k (h.checkpw raw_key k.key_hash))

  -- `record is None or not record.is_valid()`
  with_record : ℕ → String → Option ApiKey → W → W × Outcome (Option ApiKey) X
  with_record now raw_key none w = (w, returned none)
  with_record now raw_key (some k) w =
      if is_valid now k then verify_hash raw_key k w else (w, returned none)

  with_key_id : ℕ → String → Option String → W → W × Outcome (Option ApiKey) X
  unfolding with_record
  with_key_id now raw_key none w = (w, returned none)
  with_key_id now raw_key (some key_id) w = with_record now raw_key (s.find_by_id key_id w) w

  unfoldable pub verify_and_upgrade : ℕ → String → W → W × Outcome (Option ApiKey) X
  unfolding with_key_id
  verify_and_upgrade now raw_key w = with_key_id now raw_key (prefix 8 raw_key) w

-- `InMemoryApiKeyStore`
module _ {X : Type 0} where
  unfoldable pub in_memory : ApiKeyStore (Dict String ApiKey) X
  in_memory = record {
    find_by_id = λ key_id w. lookup key_id w;
    save = λ k w. (insert k.key_id k w, returned tt);
  }

-- `InMemoryApiKeyStore.revoke`
unfoldable pub revoke : String → Dict String ApiKey → Dict String ApiKey
revoke key_id w = elim (lookup key_id w) [
  | none ↦ w
  | some k ↦ insert key_id (record k { revoked = true }) w
]

-- `ApiKeyVerifier`, over `checkpw`
module _ {W X : Type 0} (s : ApiKeyStore W X) (checkpw : String → String → Outcome Bool X) where
  verify_record : ℕ → String → Option ApiKey → Outcome (Option ApiKey) X
  verify_record now raw_key none = returned none
  verify_record now raw_key (some k) =
      if is_valid now k
      then elim (checkpw raw_key k.key_hash) [
        | returned ok ↦ returned (if ok then some k else none)
        | raised x ↦ raised x
        | cancelled ↦ cancelled
      ]
      else returned none

  verify_key_id : ℕ → String → Option String → W → Outcome (Option ApiKey) X
  unfolding verify_record
  verify_key_id now raw_key none w = returned none
  verify_key_id now raw_key (some key_id) w = verify_record now raw_key (s.find_by_id key_id w)

  unfoldable pub verify : ℕ → String → W → Outcome (Option ApiKey) X
  unfolding verify_key_id
  verify now raw_key w = verify_key_id now raw_key (prefix 8 raw_key) w
