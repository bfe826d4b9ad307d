-- ===== src/Security/ApiKeys/Tests.antt =====
-- Verifications of concrete keys, and the theorems there.
use Prim.Native.String.{◌++◌ as string_append, compare}
use text.Mathlib.Text.{starts_with, is_eq}
use text.Mathlib.TextLemmas.{append_assoc}
use text.Mathlib.TextPositions.{starts_with-append, slice-append_left}
use python_commons.Base.{
  ℕ, ◌≡◌, refl, ap, ◌∙◌, String, string_eq, ◌=?◌, true, false, none, some, List, [], ◌∷◌,
  if◌then◌else◌,
}
use python_commons.Dict.{Dict}
use python_commons.Outcome.{returned, raised}
use python_commons.Security.ApiKeys.{
  ApiKey, ApiKeyStore, Hashers, prefix, is_bcrypt, is_argon2, is_valid, verify_hash,
  verify_and_upgrade, in_memory, revoke, verify,
}
use python_commons.Security.ApiKeys.Migration.{IsArgon2, Kept, verify_and_upgrade-Kept}
use python_commons.Security.ApiKeys.Revocation.{revoke-refused}
use python_commons.Security.ApiKeys.Refusals.{Sound, verify_and_upgrade-Sound}

-- hashes that show the key behind the prefix of their format
abbrev hashers : Hashers ℕ
hashers = record {
  checkpw = λ raw_key c. returned (c =? string_append "$2" raw_key);
  hash = λ raw_key. returned (string_append "$argon2" raw_key);
  verify = λ c raw_key. if c =? string_append "$argon2" raw_key then returned tt else raised 1;
  check_needs_rehash = λ c. returned true;
}

argon2-is_bcrypt : (raw_key : String) → is_bcrypt (string_append "$argon2" raw_key) ≡ false
unfolding is_bcrypt
argon2-is_bcrypt raw_key =
    ap (λ s. starts_with s "$2") (append_assoc "$a" "rgon2" raw_key)
    ∙ ap (λ s. is_eq (compare s "$2")) (slice-append_left "$a" (string_append "rgon2" raw_key))

hashers-IsArgon2 : IsArgon2 hashers
unfolding is_bcrypt is_argon2
hashers-IsArgon2 = record {
  hashes = λ raw_key. (
    string_append "$argon2" raw_key,
    refl,
    argon2-is_bcrypt raw_key,
    starts_with-append "$argon2" raw_key,
    rw
        ((string_eq.beq_iff (string_append "$argon2" raw_key) (string_append "$argon2" raw_key)).1
          refl)
        refl,
  );
  reads = λ c raw_key verified. (true, refl);
}

abbrev old : ApiKey
old = record {
  key_id = "12345678";
  key_hash = "$2123456789";
  principal_id = "u";
  scopes = [];
  expires_at = some 100;
  revoked = false;
}

abbrev store : Dict String ApiKey
store = ("12345678", old) ∷ []

-- The first verification replaces the hash of bcrypt.
verify_upgrades : verify_and_upgrade in_memory hashers 5 "123456789" store ≡ (
  ("12345678", record old { key_hash = "$argon2123456789" }) ∷ [],
  returned (some (record old { key_hash = "$argon2123456789" })),
)
unfolding verify_and_upgrade verify_hash in_memory prefix is_bcrypt is_argon2 is_valid
verify_upgrades = refl

-- an argon2 hash of old parameters
abbrev outdated : ApiKey
outdated = record old { key_hash = "$argon2123456789" }

-- a store in which no save succeeds
abbrev read_only : ApiKey → ApiKeyStore (List ℕ) ℕ
read_only k = record { find_by_id = λ key_id w. some k; save = λ k w. (w, raised 1) }

-- If the save fails, a key with a hash of bcrypt is accepted, and one whose argon2 hash is to be
-- made anew is not.
unsaved_bcrypt_accepted :
    verify_and_upgrade (read_only old) hashers 5 "123456789" [] ≡ ([], returned (some old))
unfolding verify_and_upgrade verify_hash prefix is_bcrypt is_argon2 is_valid
unsaved_bcrypt_accepted = refl

unsaved_argon2_refused :
    verify_and_upgrade (read_only outdated) hashers 5 "123456789" [] ≡ ([], returned none)
unfolding verify_and_upgrade verify_hash prefix is_bcrypt is_argon2 is_valid
unsaved_argon2_refused = refl

verify_and_upgrade-Kept_example :
    Kept hashers "123456789" old store (verify_and_upgrade in_memory hashers 5 "123456789" store)
unfolding prefix is_valid is_bcrypt
verify_and_upgrade-Kept_example =
    verify_and_upgrade-Kept hashers 5 "123456789" old store hashers-IsArgon2 refl refl refl refl

verify_and_upgrade-Sound_example :
    Sound in_memory hashers 5 "123456789" store
      (verify_and_upgrade in_memory hashers 5 "123456789" store)
verify_and_upgrade-Sound_example = verify_and_upgrade-Sound in_memory hashers 5 "123456789" store

revoke-refused_example :
    (verify_and_upgrade in_memory hashers 5 "123456789" (revoke "12345678" store)
      ≡ (revoke "12345678" store, returned none))
    × (verify in_memory hashers.checkpw 5 "123456789" (revoke "12345678" store) ≡ returned none)
unfolding prefix
revoke-refused_example = revoke-refused hashers 5 "123456789" "12345678" store refl
