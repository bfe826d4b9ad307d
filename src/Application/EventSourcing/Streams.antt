-- ===== src/Application/EventSourcing/Streams.antt =====
-- The numbering of the events in a stream, and optimistic concurrency.
use python_commons.Base.{
  ℕ, suc, ◌+◌, ◌≤◌, ◌≡◌, ◌≢◌, refl, subst, ◌⊎◌, String, string_eq, nat_eq, ne_of_test, true, false,
  List, [], ◌∷◌, ◌++◌, length, ◌==◌, arith, Bool-cases, inl, inr, ==_iff,
}
use python_commons.Dict.{Dict, insert, lookup-insert_self, lookup-insert_ne}
use python_commons.Application.EventSourcing.{
  StoredEvent, stream, append, since, load, stream_version,
}

module _ {P M : Type 0} where
  -- The versions are `n + 1`, `n + 2` and so on.
  abbrev pub IsNumbered : ℕ → List (StoredEvent P M) → Type 0
  IsNumbered n [] = Unit
  IsNumbered n (e ∷ es) = (e.version ≡ n + 1) × IsNumbered (n + 1) es

  pub append-IsNumbered :
      (n : ℕ) (es fs : List (StoredEvent P M))
      → IsNumbered n es
      → IsNumbered (n + length es) fs
      → IsNumbered n (es ++ fs)
  append-IsNumbered n [] fs h k =
      let z : n + 0 ≡ n = omega arith in subst (λ m. IsNumbered m fs) z k
  append-IsNumbered n (e ∷ es) fs h k =
      let z : n + suc (length es) ≡ n + 1 + length es = omega arith in
      (h.0, append-IsNumbered (n + 1) es fs h.1 (subst (λ m. IsNumbered m fs) z k))

  since_all : (m n : ℕ) (es : List (StoredEvent P M)) → m ≤ n → IsNumbered n es → since m es ≡ es
  unfolding since
  since_all m n [] h k = refl
  since_all m n (e ∷ es) h k = ground (arith, since_all m (n + 1) es, k.0)

  pub load_all :
      (id : String) (streams : Dict String (List (StoredEvent P M)))
      → IsNumbered 0 (stream id streams)
      → load id 0 streams ≡ stream id streams
  unfolding load
  load_all id streams h = since_all 0 0 (stream id streams) (omega arith) h

  pub stream-insert_self :
      (id : String) (es : List (StoredEvent P M)) (streams : Dict String (List (StoredEvent P M)))
      → stream id (insert id es streams) ≡ es
  unfolding stream
  stream-insert_self id es streams = rw (lookup-insert_self id es streams, stream)

  pub stream-insert_ne :
      (id j : String) (es : List (StoredEvent P M)) (streams : Dict String (List (StoredEvent P M)))
      → id ≢ j
      → stream j (insert id es streams) ≡ stream j streams
  unfolding stream
  stream-insert_ne id j es streams h = rw (lookup-insert_ne id j es streams h, stream)

  -- `append` puts the events behind the stream exactly if its length is the expected version;
  -- a refused `append` leaves the events of the stream as they are, and neither touches another
  -- stream.
  pub append_guarded :
      (id : String) (es : List (StoredEvent P M)) (expected : ℕ)
      (streams : Dict String (List (StoredEvent P M)))
      → let (streams', done) = append id es expected streams in
        ((done ≡ true)
            × (stream_version id streams ≡ expected)
            × (stream id streams' ≡ stream id streams ++ es)
          ⊎ (done ≡ false)
            × (stream_version id streams ≢ expected)
            × (stream id streams' ≡ stream id streams))
        × ((j : String) → id ≢ j → stream j streams' ≡ stream j streams)
  unfolding append stream_version
  append_guarded id es expected streams =
      elim (Bool-cases (length (stream id streams) == expected)) [
        | inl fits ↦ rw fits (
          inl (
            refl,
            (==_iff (length (stream id streams)) expected).0 fits,
            stream-insert_self id (stream id streams ++ es) streams,
          ),
          λ j h. stream-insert_ne id j (stream id streams ++ es) streams h,
        )
        | inr other ↦ rw other (
          inr (
            refl,
            ne_of_test (length (stream id streams)) expected other,
            stream-insert_self id (stream id streams) streams,
          ),
          λ j h. stream-insert_ne id j (stream id streams) streams h,
        )
      ]
