-- ===== src/Application/EventSourcing/Saving.antt =====
-- What saving an aggregate leaves in the store.
use python_commons.Base.{
  ℕ, suc, ◌+◌, ◌-◌, ◌<◌, ◌≡◌, ◌≢◌, refl, sym, ap, subst, ◌∙◌, String, string_eq, nat_eq, ◌=?◌, Bool,
  true, false, List, [], ◌∷◌, ◌++◌, length, arith, length-append, Bool-cases, inl, inr, ◌⊎◌,
  ne_of_test,
}
use mathlib.Core.List.{append-nil}
use python_commons.Dict.{Dict}
use python_commons.Application.EventSourcing.{
  StoredEvent, DomainEvent, Aggregate, stream, stream_version, stored, pull_events, append_pulled,
  save,
}
use python_commons.Application.EventSourcing.Streams.{IsNumbered, append-IsNumbered, append_guarded}

pub length-pos {ℓ} : {A : Type ℓ} (xs : List A) → xs ≢ [] → 0 < length xs
length-pos [] h = absurd (h refl)
length-pos (x ∷ xs) h = omega arith

module _ {D S P M : Type 0} (serialise : DomainEvent D → P) (metadata_factory : DomainEvent D → M)
    (apply_stored_event : StoredEvent P M → S → S) (create_empty : S) where
  abbrev pub to_stored : String → ℕ → List (DomainEvent D) → List (StoredEvent P M)
  to_stored = stored serialise metadata_factory apply_stored_event create_empty

  abbrev pub saving :
      String
      → Aggregate D S
      → Dict String (List (StoredEvent P M))
      → Dict String (List (StoredEvent P M)) × Aggregate D S × Bool
  saving = save serialise metadata_factory apply_stored_event create_empty

  stored-IsNumbered :
      (id : String) (n : ℕ) (des : List (DomainEvent D)) → IsNumbered n (to_stored id n des)
  unfolding stored
  stored-IsNumbered id n [] = tt
  stored-IsNumbered id n (de ∷ des) = (refl, stored-IsNumbered id (n + 1) des)

  length-stored :
      (id : String) (n : ℕ) (des : List (DomainEvent D)) → length (to_stored id n des) ≡ length des
  unfolding stored
  length-stored id n [] = refl
  length-stored id n (de ∷ des) = ap suc (length-stored id (n + 1) des)

  -- Every stream of the store is numbered 1, 2 and so on.
  abbrev pub IsOrdered : Dict String (List (StoredEvent P M)) → Type 0
  IsOrdered streams = (j : String) → IsNumbered 0 (stream j streams)

  -- How the store `streams` has become `streams'` for an aggregate of some version with pending
  -- events: they stand behind the stream, whose length was the version that they start from, or
  -- it was another and the stream is as before. Every other stream is as before.
  abbrev pub Appended :
      String
      → ℕ
      → List (DomainEvent D)
      → Dict String (List (StoredEvent P M))
      → Dict String (List (StoredEvent P M)) × Bool
      → Type 0
  Appended id version des streams (streams', done) =
      ((done ≡ true)
          × (stream id streams' ≡ stream id streams ++ to_stored id (version - length des) des)
          × ((des ≡ []) ⊎ (stream_version id streams ≡ version - length des))
        ⊎ (done ≡ false)
          × (stream_version id streams ≢ version - length des)
          × (stream id streams' ≡ stream id streams))
      × ((j : String) → id ≢ j → stream j streams' ≡ stream j streams)

  append_pulled-Appended :
      (id : String) (version : ℕ) (des : List (DomainEvent D))
      (streams : Dict String (List (StoredEvent P M)))
      → Appended id version des streams (
          append_pulled serialise metadata_factory apply_stored_event create_empty id version des
            streams)
  unfolding append_pulled
  append_pulled-Appended id version [] streams =
      (inl (refl, sym (append-nil (stream id streams)), inl refl), λ j h. refl)
  append_pulled-Appended id version (de ∷ des) streams =
      let prior = version - length (de ∷ des) in
      let (here, others) = append_guarded id (to_stored id prior (de ∷ des)) prior streams in
      (
        elim here [
          | inl (done, was, now) ↦ inl (done, now, inr was)
          | inr (done, was, now) ↦ inr (done, was, now)
        ],
        others,
      )

  pub save-Appended :
      (id : String) (agg : Aggregate D S) (streams : Dict String (List (StoredEvent P M)))
      → let (streams', agg', done) = saving id agg streams in
        (agg' ≡ record agg { events = [] })
        × Appended id agg.version agg.events streams (streams', done)
  unfolding save pull_events
  save-Appended id agg streams = (refl, append_pulled-Appended id agg.version agg.events streams)

  unchanged :
      (id : String) (version : ℕ) (des : List (DomainEvent D))
      (streams streams' : Dict String (List (StoredEvent P M))) (done : Bool)
      → Appended id version des streams (streams', done)
      → done ≡ false
      → (j : String) → stream j streams' ≡ stream j streams
  unchanged id version des streams streams' done (inl (yes_done, _, _), _) h j = cc
  unchanged id version des streams streams' done (inr (_, _, same), others) h j =
      elim (Bool-cases (id =? j)) [
        | inl here ↦
            subst (λ k. stream k streams' ≡ stream k streams) ((string_eq.beq_iff id j).0 here) same
        | inr other ↦ others j (ne_of_test id j other)
      ]

  pub appended :
      (id : String) (version : ℕ) (des : List (DomainEvent D))
      (streams streams' : Dict String (List (StoredEvent P M))) (done : Bool)
      → Appended id version des streams (streams', done)
      → done ≡ true
      → des ≢ []
      → (stream id streams' ≡ stream id streams ++ to_stored id (version - length des) des)
        × (stream_version id streams ≡ version - length des)
  appended id version des streams streams' done (inl (_, now, inl empty), _) h p = absurd (p empty)
  appended id version des streams streams' done (inl (_, now, inr was), _) h p = (now, was)
  appended id version des streams streams' done (inr (not_done, _, _), _) h p = cc

  pub longer :
      (id : String) (version : ℕ) (des : List (DomainEvent D))
      (streams streams' : Dict String (List (StoredEvent P M)))
      → stream id streams' ≡ stream id streams ++ to_stored id (version - length des) des
      → stream_version id streams' ≡ stream_version id streams + length des
  unfolding stream_version
  longer id version des streams streams' now =
      ap length now
      ∙ (length-append (stream id streams) (to_stored id (version - length des) des)
          ∙ ap (λ n. length (stream id streams) + n) (length-stored id (version - length des) des))

  own-IsNumbered :
      (id : String) (version : ℕ) (des : List (DomainEvent D))
      (streams streams' : Dict String (List (StoredEvent P M))) (done : Bool)
      → Appended id version des streams (streams', done)
      → IsNumbered 0 (stream id streams)
      → IsNumbered 0 (stream id streams')
  unfolding stored stream_version
  own-IsNumbered id version des streams streams' done (inr (_, _, same), _) h =
      subst (IsNumbered 0) (sym same) h
  own-IsNumbered id version des streams streams' done (inl (_, now, inl empty), _) h =
      subst (IsNumbered 0) (sym now) (
        append-IsNumbered 0 (stream id streams) (to_stored id (version - length des) des) h (
          subst
            (λ l.
              IsNumbered (0 + length (stream id streams)) (to_stored id (version - length des) l))
            (sym empty) tt))
  own-IsNumbered id version des streams streams' done (inl (_, now, inr was), _) h =
      let z : version - length des ≡ 0 + length (stream id streams) = omega (arith, was) in
      subst (IsNumbered 0) (sym now) (
        append-IsNumbered 0 (stream id streams) (to_stored id (version - length des) des) h (
          subst (λ n. IsNumbered n (to_stored id (version - length des) des)) z
            (stored-IsNumbered id (version - length des) des)))

  -- A `save`, whether it returns or raises, keeps every stream numbered 1, 2 and so on.
  pub save-IsOrdered :
      (id : String) (agg : Aggregate D S) (streams : Dict String (List (StoredEvent P M)))
      → IsOrdered streams
      → IsOrdered (saving id agg streams).0
  save-IsOrdered id agg streams h j =
      let (_, appended) = save-Appended id agg streams in
      let (streams', _, done) = saving id agg streams in
      elim (Bool-cases (id =? j)) [
        | inl same ↦
            subst (λ k. IsNumbered 0 (stream k streams')) ((string_eq.beq_iff id j).0 same)
              (own-IsNumbered id agg.version agg.events streams streams' done appended (h id))
        | inr other ↦ subst (IsNumbered 0) (sym (appended.1 j (ne_of_test id j other))) (h j)
      ]

  -- Of two aggregates of one stream, loaded at the same version and both with pending events,
  -- only the first to be saved is: the second `save` raises, and changes no event of any stream.
  pub save_conflict :
      (id : String) (first second : Aggregate D S) (streams : Dict String (List (StoredEvent P M)))
      → first.events ≢ []
      → second.events ≢ []
      → first.version - length first.events ≡ second.version - length second.events
      → (saving id first streams).2 ≡ true
      → let streams' = (saving id first streams).0 in
        ((saving id second streams').2 ≡ false)
        × ((j : String) → stream j (saving id second streams').0 ≡ stream j streams')
  save_conflict id first second streams p q same done =
      let (_, how) = save-Appended id first streams in
      let streams' = (saving id first streams).0 in
      let (now, was) =
        appended id first.version first.events streams streams' (saving id first streams).2 how done
          p in
      let more = longer id first.version first.events streams streams' now in
      let some_events = length-pos first.events p in
      let (_, how') = save-Appended id second streams' in
      let (streams'', _, ok) = saving id second streams' in
      elim (Bool-cases ok) [
        | inl saved ↦
            let (_, was') =
              appended id second.version second.events streams' streams'' ok how' saved q in
            absurd (omega (arith, was, was', more, same, some_events))
        | inr refused ↦
            (refused, unchanged id second.version second.events streams' streams'' ok how' refused)
      ]

  -- After a `save` that raised the pending events are lost: no event of any stream has changed,
  -- and saving the aggregate again returns without storing anything.
  pub save_again :
      (id : String) (agg : Aggregate D S) (streams : Dict String (List (StoredEvent P M)))
      → (saving id agg streams).2 ≡ false
      → let (streams', agg', _) = saving id agg streams in
        ((j : String) → stream j streams' ≡ stream j streams)
        × (saving id agg' streams' ≡ (streams', agg', true))
  unfolding save append_pulled pull_events
  save_again id agg streams h =
      let (_, how) = save-Appended id agg streams in
      (
        unchanged id agg.version agg.events streams (saving id agg streams).0
            (saving id agg streams).2 how h,
        refl,
      )
