-- ===== src/Application/TaggedCache/Tags.antt =====
-- What is left of a key when one of its tags is invalidated.
use text.Mathlib.TextEquality.{eq_iff}
use python_commons.Base.{
  ◌≡◌, refl, sym, subst, ◌∙◌, ap, String, string_eq, ◌=?◌, ne_of_test, true, ◌||◌, none, some, List,
  [], ◌∷◌, Bool-cases, inl, inr, arith, if◌then◌else◌,
}
use python_commons.Dict.{
  Dict, lookup, insert, erase, IsUnique, insert-IsUnique, erase-IsUnique, lookup-insert,
  lookup-insert_self, lookup-erase_ne, lookup-erase_self,
}
use python_commons.Application.TaggedCache.{
  member, add, TaggedCacheStore, entry, discard_in, tag_key, tag_all, set, get, remove_all,
  invalidate_tag,
}

member-add : (x y : String) (xs : List String) → member y (add x xs) ≡ ((x =? y) || member y xs)
member-add x y xs = elim (Bool-cases (member x xs)) [
  | inr absent ↦ rw absent refl
  | inl present ↦ elim (Bool-cases (x =? y)) [
    | inl same ↦ rw (present, same) (subst (λ z. member z xs ≡ true) ((eq_iff x y).0 same) present)
    | inr other ↦ rw (present, other) refl
  ]
]

entry-insert :
    (k j : String) (xs : List String) (index : Dict String (List String))
    → entry j (insert k xs index) ≡ (if k =? j then xs else entry j index)
unfolding entry
entry-insert k j xs index = elim (Bool-cases (k =? j)) [
  | inl same ↦ rw (entry, lookup-insert k j xs index, same) refl
  | inr other ↦ rw (entry, lookup-insert k j xs index, other) refl
]

module _ {V : Type 0} where
  tag_key-entry :
      (key tag t : String) (s : TaggedCacheStore V)
      → member key (entry t (tag_key key tag s).tags) ≡ ((tag =? t) || member key (entry t s.tags))
  unfolding tag_key
  tag_key-entry key tag t s = elim (Bool-cases (tag =? t)) [
    | inl same ↦
        rw (entry-insert tag t (add key (entry tag s.tags)) s.tags, same)
          (rw (member-add key key (entry tag s.tags)) (ground (arith, (eq_iff key key).1 refl)))
    | inr other ↦ rw (entry-insert tag t (add key (entry tag s.tags)) s.tags, other) refl
  ]

  tag_all-entry :
      (key : String) (ts : List String) (t : String) (s : TaggedCacheStore V)
      → member key (entry t (tag_all key ts s).tags) ≡ (member t ts || member key (entry t s.tags))
  unfolding tag_all
  tag_all-entry key [] t s = refl
  tag_all-entry key (tag ∷ ts) t s =
      ground (arith, tag_all-entry key ts t (tag_key key tag s), tag_key-entry key tag t s)

  tag_all-data :
      (key : String) (ts : List String) (s : TaggedCacheStore V)
      → (tag_all key ts s).data_ ≡ s.data_
  unfolding tag_all tag_key
  tag_all-data key [] s = refl
  tag_all-data key (tag ∷ ts) s = tag_all-data key ts (tag_key key tag s)

  get-remove_all :
      (tag : String) (keys : List String) (k : String) (s : TaggedCacheStore V)
      → IsUnique s.data_
      → get k (remove_all tag keys s) ≡ (if member k keys then none else get k s)
  unfolding remove_all get
  get-remove_all tag [] k s u = refl
  get-remove_all tag (key ∷ keys) k s u = elim (Bool-cases (key =? k)) [
    | inl same ↦
        let gone : lookup k (erase key s.data_) ≡ none =
          subst (λ j. lookup j (erase key s.data_) ≡ none) ((eq_iff key k).0 same)
            (lookup-erase_self key s.data_ u) in
        get-remove_all tag keys k
          (record s { data_ = erase key s.data_; key_tags = discard_in key tag s.key_tags })
          (erase-IsUnique key s.data_ u)
        ∙ ground (arith, gone, same)
    | inr other ↦
        get-remove_all tag keys k
          (record s { data_ = erase key s.data_; key_tags = discard_in key tag s.key_tags })
          (erase-IsUnique key s.data_ u)
        ∙ ground (arith, other, lookup-erase_ne key k s.data_ (ne_of_test key k other))
  ]

  -- After a `set` of a key with tags, in a store whose data has no key twice, invalidating a tag
  -- removes the value exactly if the tag is one of them, or the key has had it from before; if not,
  -- a `get` returns the value.
  pub set-invalidate_tag :
      (key : String) (value : V) (ts : List String) (t : String) (s : TaggedCacheStore V)
      → IsUnique s.data_
      → get key (invalidate_tag t (set key value ts s)).0
        ≡ (if member t ts || member key (entry t s.tags) then none else some value)
  unfolding invalidate_tag set get
  set-invalidate_tag key value ts t s u =
      let stored = tag_all key ts (record s { data_ = insert key value s.data_ }) in
      let same : stored.data_ ≡ insert key value s.data_ =
        tag_all-data key ts (record s { data_ = insert key value s.data_ }) in
      let found : lookup key stored.data_ ≡ some value =
        ap (lookup key) same ∙ lookup-insert_self key value s.data_ in
      get-remove_all t (entry t stored.tags) key (record stored { tags = erase t stored.tags })
        (subst IsUnique (sym same) (insert-IsUnique key value s.data_ u))
      ∙ ground
          (arith, found, tag_all-entry key ts t (record s { data_ = insert key value s.data_ }))
