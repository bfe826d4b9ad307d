-- ===== src/Application/EventSourcing/Repository.antt =====
-- Loading an aggregate, and loading it back after a save.
use python_commons.Base.{
  ℕ, ◌+◌, ◌-◌, ◌≤◌, ◌<◌, ◌≡◌, ◌≢◌, refl, sym, ap, ◌∙◌, String, string_eq, nat_eq, true, Option,
  none, some, List, [], ◌∷◌, ◌++◌, length, arith, inl, inr, ◌⊎◌, foldl,
}
use python_commons.Dict.{Dict}
use python_commons.Application.EventSourcing.{
  StoredEvent, DomainEvent, Aggregate, stream, stream_version, replay, replay_all, load_aggregate,
}
use python_commons.Application.EventSourcing.Streams.{IsNumbered, load_all}
use python_commons.Application.EventSourcing.Saving.{
  IsOrdered, save-IsOrdered, save-Appended, appended, longer, saving, to_stored, length-pos,
}

length-stream :
    {P M : Type 0} (id : String) (streams : Dict String (List (StoredEvent P M)))
    → stream id streams ≡ []
    → stream_version id streams ≡ 0
unfolding stream_version
length-stream id streams h = ap length h

module _ {D S P M : Type 0} (serialise : DomainEvent D → P) (metadata_factory : DomainEvent D → M)
    (apply_stored_event : StoredEvent P M → S → S) (create_empty : S) where
  -- The state that the events build up.
  abbrev pub rebuild : S → List (StoredEvent P M) → S
  rebuild s es = foldl (λ t e. apply_stored_event e t) s es

  replay_numbered :
      (n : ℕ) (es : List (StoredEvent P M)) (agg : Aggregate D S)
      → agg.version ≡ n
      → IsNumbered n es
      → replay serialise metadata_factory apply_stored_event create_empty es agg
        ≡ record agg { version = n + length es; state = rebuild agg.state es }
  unfolding replay
  replay_numbered n [] agg v h = ap (λ k. record agg { version = k }) (omega arith)
  replay_numbered n (e ∷ es) agg v h =
      replay_numbered (n + 1) es
        (record agg { version = e.version; state = apply_stored_event e agg.state }) h.0 h.1
      ∙ ap (λ k. record agg { version = k; state = rebuild (apply_stored_event e agg.state) es })
          (omega arith)

  abbrev loading : String → Dict String (List (StoredEvent P M)) → Option (Aggregate D S)
  loading = load_aggregate serialise metadata_factory apply_stored_event create_empty

  replay_all_numbered :
      (es : List (StoredEvent P M))
      → IsNumbered 0 es
      → 0 < length es
      → replay_all serialise metadata_factory apply_stored_event create_empty es
        ≡ some (record { version = length es; events = []; state = rebuild create_empty es })
  unfolding replay_all
  replay_all_numbered [] h pos = absurd (omega arith)
  replay_all_numbered (e ∷ es) h pos = ap some (
      replay_numbered 0 (e ∷ es) (record { version = 0; events = []; state = create_empty }) refl h
      ∙ ap (λ k. record { version = k; events = []; state = rebuild create_empty (e ∷ es) })
          (omega arith))

  -- From a store whose streams are numbered, `load` returns no aggregate exactly if the stream is
  -- empty, and otherwise one whose version is the number of its events, whose state they build up
  -- from the empty aggregate, and which has no pending events.
  pub load_aggregate_lem :
      (id : String) (streams : Dict String (List (StoredEvent P M)))
      → IsOrdered serialise metadata_factory apply_stored_event create_empty streams
      → ((stream id streams ≡ []) × (loading id streams ≡ none))
        ⊎ ((stream id streams ≢ [])
            × (loading id streams
                ≡ some (record {
                  version = stream_version id streams;
                  events = [];
                  state = rebuild create_empty (stream id streams);
                })))
  unfolding load_aggregate stream_version
  load_aggregate_lem id streams h =
      rw (load_all id streams (h id)) (by_length (stream id streams) (h id))
    where
      by_length :
          (es : List (StoredEvent P M))
          → IsNumbered 0 es
          → ((es ≡ [])
              × (replay_all serialise metadata_factory apply_stored_event create_empty es ≡ none))
            ⊎ ((es ≢ [])
                × (replay_all serialise metadata_factory apply_stored_event create_empty es
                    ≡ some (record {
                      version = length es;
                      events = [];
                      state = rebuild create_empty es;
                    })))
      by_length [] n = inl (refl, refl)
      by_length (e ∷ es) n =
          inr
            (λ q. absurd (omega (arith, ap length q)), replay_all_numbered (e ∷ es) n (omega arith))

  -- An aggregate whose state its stored and pending events build up, and which has pending
  -- events, is loaded back as it is, with no pending events, after a `save` that returned.
  pub save-load :
      (id : String) (agg : Aggregate D S) (streams : Dict String (List (StoredEvent P M)))
      → IsOrdered serialise metadata_factory apply_stored_event create_empty streams
      → length agg.events ≤ agg.version
      → agg.events ≢ []
      → agg.state
        ≡ rebuild create_empty (
            stream id streams
            ++ to_stored serialise metadata_factory apply_stored_event create_empty id
                (agg.version - length agg.events)
                agg.events)
      → (saving serialise metadata_factory apply_stored_event create_empty id agg streams).2 ≡ true
      → loading id
          (saving serialise metadata_factory apply_stored_event create_empty id agg streams).0
        ≡ some (saving serialise metadata_factory apply_stored_event create_empty id agg streams).1
  save-load id agg streams h fits pending synced done =
      let (rest, how) =
        save-Appended serialise metadata_factory apply_stored_event create_empty id agg streams in
      let (streams', agg', ok) =
        saving serialise metadata_factory apply_stored_event create_empty id agg streams in
      let (now, was) =
        appended serialise metadata_factory apply_stored_event create_empty id agg.version
          agg.events streams streams' ok how done pending in
      let more =
        longer serialise metadata_factory apply_stored_event create_empty id agg.version agg.events
          streams streams' now in
      let some_events = length-pos agg.events pending in
      elim (load_aggregate_lem id streams' (
        save-IsOrdered serialise metadata_factory apply_stored_event create_empty id agg streams
          h)) [
            | inl (empty, _) ↦
                absurd (omega (arith, more, length-stream id streams' empty, some_events))
            | inr (_, loaded) ↦
                let v : stream_version id streams' ≡ agg.version = omega (arith, more, was, fits) in
                let s : rebuild create_empty (stream id streams') ≡ agg.state =
                  ap (rebuild create_empty) now ∙ sym synced in
                loaded
                ∙ (ap some (λ i. record { version = v i; events = []; state = s i })
                    ∙ ap some (sym rest))
          ]
