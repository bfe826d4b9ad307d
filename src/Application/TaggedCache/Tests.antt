-- ===== src/Application/TaggedCache/Tests.antt =====
-- Runs of the store at concrete inputs, and the theorem there.
use python_commons.Base.{ℕ, ◌≡◌, refl, string_eq, [], ◌∷◌}
use python_commons.Application.TaggedCache.{
  TaggedCacheStore, entry, discard_in, tag_key, set, delete, invalidate_tag,
}

abbrev empty : TaggedCacheStore ℕ
empty = record { data_ = []; tags = []; key_tags = [] }

abbrev store : TaggedCacheStore ℕ
store = record {
  data_ = ("k", 1) ∷ [];
  tags = ("a", "k" ∷ []) ∷ [];
  key_tags = ("k", "a" ∷ []) ∷ [];
}

set_runs : set "k" 1 ("a" ∷ []) empty ≡ store
unfolding set tag_key entry
set_runs = refl

delete_runs : (delete "k" store).tags ≡ ("a", []) ∷ []
unfolding delete entry discard_in
delete_runs = refl

-- The value is gone with the first tag, and counted again with the second.
invalidate_counts :
    (invalidate_tag "b" (invalidate_tag "a" (set "k" 1 ("a" ∷ "b" ∷ []) empty)).0).1 ≡ 1
unfolding set tag_key entry invalidate_tag discard_in
invalidate_counts = refl
