-- ===== src/Application/TaggedCache.antt =====
-- src/mp_commons/application/cache/tags.py: `InMemoryTaggedCacheStore`. A set is a list of its
-- members, and `ttl` is not read.
pub mod Tags
mod Tests
use python_commons.Base.{
  ℕ, String, string_eq, ◌=?◌, Bool, true, false, not, Option, none, some, List, [], ◌∷◌, length,
  any, if◌then◌else◌,
}
use python_commons.Dict.{Dict, lookup, insert, erase}

-- a set: `add`, `discard` and `in`
abbrev pub member : String → List String → Bool
member x xs = any (λ y. y =? x) xs

abbrev pub add : String → List String → List String
add x xs = if member x xs then xs else x ∷ xs

abbrev pub discard : String → List String → List String
discard x [] = []
discard x (y ∷ xs) = if y =? x then discard x xs else y ∷ discard x xs

pub record TaggedCacheStore (V : Type 0) : Type 0 where
  pub data_ : Dict String V
  pub tags : Dict String (List String)
  pub key_tags : Dict String (List String)

-- `index.get(k, set())`
unfoldable pub entry : String → Dict String (List String) → List String
entry k index = elim (lookup k index) [ none ↦ [] | some xs ↦ xs ]

-- `index.get(k, set()).discard(x)`: a missing set stays missing.
unfoldable pub discard_in : String → String → Dict String (List String) → Dict String (List String)
discard_in k x index = elim (lookup k index) [
  | none ↦ index
  | some xs ↦ insert k (discard x xs) index
]

-- the loop of `delete`
untag_all : String → List String → Dict String (List String) → Dict String (List String)
untag_all key [] index = index
untag_all key (tag ∷ tags) index = untag_all key tags (discard_in tag key index)

module _ {V : Type 0} where
  unfoldable pub tag_key : String → String → TaggedCacheStore V → TaggedCacheStore V
  tag_key key tag s = record s {
    tags = insert tag (add key (entry tag s.tags)) s.tags;
    key_tags = insert key (add tag (entry key s.key_tags)) s.key_tags;
  }

  tag_all : String → List String → TaggedCacheStore V → TaggedCacheStore V
  tag_all key [] s = s
  tag_all key (tag ∷ tags) s = tag_all key tags (tag_key key tag s)

  pub set : String → V → List String → TaggedCacheStore V → TaggedCacheStore V
  unfolding tag_all
  set key value tags s = tag_all key tags (record s { data_ = insert key value s.data_ })

  unfoldable pub get : String → TaggedCacheStore V → Option V
  get key s = lookup key s.data_

  pub delete : String → TaggedCacheStore V → TaggedCacheStore V
  unfolding untag_all
  delete key s = record {
    data_ = erase key s.data_;
    tags = untag_all key (entry key s.key_tags) s.tags;
    key_tags = erase key s.key_tags;
  }

  -- the loop of `invalidate_tag`
  remove_all : String → List String → TaggedCacheStore V → TaggedCacheStore V
  remove_all tag [] s = s
  remove_all tag (key ∷ keys) s =
      remove_all tag keys
        (record s { data_ = erase key s.data_; key_tags = discard_in key tag s.key_tags })

  -- The store, and the number that is returned.
  pub invalidate_tag : String → TaggedCacheStore V → TaggedCacheStore V × ℕ
  unfolding remove_all
  invalidate_tag tag s =
      let keys = entry tag s.tags in
      (remove_all tag keys (record s { tags = erase tag s.tags }), length keys)
