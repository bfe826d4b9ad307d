-- ===== src/Application/LruCache/Tests.antt =====
-- Runs of the cache at concrete inputs, and the theorems there.
use python_commons.Base.{string_eq, ℕ, String, ◌≡◌, refl, true, none, some, List, [], ◌∷◌, arith}
use python_commons.Outcome.{returned}
use python_commons.Application.LruCache.{
  AsyncLruCache, Entry, init, expiry, is_expired, move_to_end, get, get_or_load,
}
use python_commons.Application.LruCache.Invariant.{
  IsValid, Call, getting, setting, deleting, clearing,
}

abbrev two : AsyncLruCache String ℕ
two = record {
  maxsize = 2;
  ttl = some 60;
  hits = 0;
  misses = 0;
  store = ("a", (some 1, some 160)) ∷ ("b", (none, some 170)) ∷ [];
}

abbrev calls : List (Call String ℕ)
calls =
    getting "a" 120 ∷ setting "c" (some 3) none 130 ∷ deleting "b" ∷ getting "a" 200 ∷ clearing ∷ []

get_live : get two "a" 160 ≡ (
  record two { store = ("b", (none, some 170)) ∷ ("a", (some 1, some 160)) ∷ []; hits = 1 },
  some 1,
)
unfolding get move_to_end is_expired
get_live = refl

get_expired :
    get two "a" 161 ≡ (record two { store = ("b", (none, some 170)) ∷ []; misses = 1 }, none)
unfolding get is_expired
get_expired = refl

-- A stored `None` is a hit of `get`, and a miss of `get_or_load`.
get_or_load_misses : (get_or_load {E = ℕ} two "b" 150 (returned (some 5)) none 151).2 ≡ true
unfolding get_or_load move_to_end is_expired
get_or_load_misses = refl

init-zero : init {K = String} {V = ℕ} 0 none ≡ none
unfolding init
init-zero = refl

two-IsValid : IsValid two
two-IsValid = record { positive = omega arith; bounded = omega arith; unique = (refl, (refl, tt)) }

abbrev fresh : Entry ℕ
fresh = (some 3, expiry none (some 60) 130)
