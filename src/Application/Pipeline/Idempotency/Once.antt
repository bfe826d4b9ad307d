-- ===== src/Application/Pipeline/Idempotency/Once.antt =====
-- How often the handler behind the idempotency middlewares runs.
use python_commons.Base.{◌≡◌, refl, ap, ◌∙◌, String, none, some}
use python_commons.Outcome.{Outcome, returned, raised, cancelled}
use python_commons.Application.Pipeline.{Kind, Request, Reply, response, Failure, conflict, Handler}
use python_commons.Application.Pipeline.Idempotency.{
  Status, IdempotencyRecord, IdempotencyStore, IsStore, idempotency_key_str, client_key, finish,
  begin_, run_recorded, resume_as, resume, idempotent_on, idempotency, reject_as, reject,
  deduplicate_on, by_kind, deduplication,
}

module _ {R B X : Type 0} (encode : Reply R B → B) where
  -- the record of the key after a run of the handler that leaves it alone
  after : String → Outcome (Reply R B) (Failure X) → IdempotencyRecord B
  after k (returned r) = record { key = k; response_ = some (encode r); status = Status.completed }
  after k _ = record { key = k; response_ = none; status = Status.processing }

  -- what a later request with the key gets, by how the first one ended
  pub rejected : String → String → Outcome (Reply R B) (Failure X) → Outcome (Reply R B) (Failure X)
  rejected operation c (returned r) = returned (response (some (encode r)))
  rejected operation c _ = raised (conflict operation c)

  get-finish :
      {W : Type 0} (s : IdempotencyStore B W) (k : String) (p : W × Outcome (Reply R B) (Failure X))
      → IsStore s
      → s.get k p.0 ≡ some (record { key = k; response_ = none; status = Status.processing })
      → s.get k (finish s encode k p).0 ≡ some (after k p.1)
  unfolding finish after
  get-finish s k (w, returned r) st h = st.get-complete k (encode r) _ w h
  get-finish s k (w, raised x) st h = h
  get-finish s k (w, cancelled) st h = h

module _ {P R B X W : Type 0} (s : IdempotencyStore B W) (encode : Reply R B → B) where
  -- the handler does not touch the record
  abbrev pub Leaves : String → Request P → Handler P R B X W → Type 0
  Leaves k q h = (w : W) → s.get k (h q w).0 ≡ s.get k w

  get-run_recorded :
      (k : String) (q : Request P) (h : Handler P R B X W) (w : W)
      → IsStore s
      → Leaves k q h
      → s.get k (run_recorded s encode k q h w).0 ≡ some (after encode k (h q (begin_ s k w)).1)
  unfolding run_recorded begin_
  get-run_recorded k q h w st l =
      get-finish encode s k (h q (begin_ s k w)) st (l (begin_ s k w) ∙ st.get-save k _ w)

  pub resumed :
      String
      → Request P
      → Outcome (Reply R B) (Failure X)
      → Handler P R B X W
      → W
      → W × Outcome (Reply R B) (Failure X)
  resumed k q (returned r) g v = (v, returned (response (some (encode r))))
  resumed k q _ g v = run_recorded s encode k q g v

  reject-after :
      (k c : String) (o : Outcome (Reply R B) (Failure X)) (q : Request P) (g : Handler P R B X W)
      (v : W)
      → reject s encode (some (after encode k o)) k c q g v ≡ (v, rejected encode q.name c o)
  unfolding reject reject_as after rejected
  reject-after k c (returned r) q g v = refl
  reject-after k c (raised x) q g v = refl
  reject-after k c cancelled q g v = refl

  resume-after :
      (k : String) (o : Outcome (Reply R B) (Failure X)) (q : Request P) (g : Handler P R B X W)
      (v : W)
      → resume s encode (some (after encode k o)) k q g v ≡ resumed k q o g v
  unfolding resume resume_as after resumed
  resume-after k (returned r) q g v = refl
  resume-after k (raised x) q g v = refl
  resume-after k cancelled q g v = refl

  deduplication-reject :
      (q : Request P) (c : String) (g : Handler P R B X W) (v : W)
      → q.kind ≡ Kind.command
      → client_key q ≡ some c
      → deduplication s encode q g v
        ≡ reject s encode
            (s.get (idempotency_key_str c q.name) v)
            (idempotency_key_str c q.name)
            c
            q
            g
            v
  unfolding deduplication by_kind deduplicate_on
  deduplication-reject q c g v kind key =
      ap (λ t. by_kind s encode t q g v) kind ∙ ap (λ o. deduplicate_on s encode o q g v) key

  idempotency-resume :
      (q : Request P) (c : String) (g : Handler P R B X W) (v : W)
      → q.idempotency_key ≡ some c
      → idempotency s encode q g v
        ≡ resume s encode
            (s.get (idempotency_key_str c q.name) v)
            (idempotency_key_str c q.name)
            q
            g
            v
  unfolding idempotency idempotent_on
  idempotency-resume q c g v key = ap (λ o. idempotent_on s encode o q g v) key

  -- A command whose key has no record runs its handler, on a world in which it is recorded as
  -- processing. If the handler leaves that record alone, then any later dispatch of a command of
  -- that name with that key runs no handler and changes nothing, as long as the record stays: it
  -- gets the encoded response if the handler has returned, and ConflictError if it has raised or
  -- was cancelled.
  pub deduplication-once :
      (q q' : Request P) (c : String) (h g : Handler P R B X W) (w v : W)
      → IsStore s
      → q.kind ≡ Kind.command
      → client_key q ≡ some c
      → q'.name ≡ q.name
      → q'.kind ≡ Kind.command
      → client_key q' ≡ some c
      → Leaves (idempotency_key_str c q.name) q h
      → s.get (idempotency_key_str c q.name) w ≡ none
      → s.get (idempotency_key_str c q.name) v
        ≡ s.get (idempotency_key_str c q.name) (deduplication s encode q h w).0
      → ((deduplication s encode q h w)
          ≡ run_recorded s encode (idempotency_key_str c q.name) q h w)
        × (deduplication s encode q' g v
            ≡ (v, rejected encode q.name c (h q (begin_ s (idempotency_key_str c q.name) w)).1))
  unfolding reject
  deduplication-once q q' c h g w v st kind key name kind' key' l fresh kept =
      let k = idempotency_key_str c q.name in
      let first : deduplication s encode q h w ≡ run_recorded s encode k q h w =
        deduplication-reject q c h w kind key ∙ ap (λ o. reject s encode o k c q h w) fresh in
      let kept' = kept ∙ ap (λ p. s.get k p.0) first ∙ get-run_recorded k q h w st l in
      (
        first,
        deduplication-reject q' c g v kind' key'
            ∙ ap
                (λ n.
                  reject s encode (s.get (idempotency_key_str c n) v) (idempotency_key_str c n) c q'
                    g v)
                name
            ∙ ap (λ o. reject s encode o k c q' g v) kept'
            ∙ reject-after k c _ q' g v
            ∙ ap (λ n. (v, rejected encode n c (h q (begin_ s k w)).1)) name,
      )

  -- A request with an idempotency key that has no record runs its handler, on a world in which it
  -- is recorded as processing. If the handler leaves that record alone, then as long as the record
  -- stays a later request with the key runs no handler and changes nothing if the handler has
  -- returned, and gets the encoded response; if it has raised or was cancelled, the later request
  -- runs its own handler like a first one.
  pub idempotency-once :
      (q : Request P) (c : String) (h g : Handler P R B X W) (w v : W)
      → IsStore s
      → q.idempotency_key ≡ some c
      → Leaves (idempotency_key_str c q.name) q h
      → s.get (idempotency_key_str c q.name) w ≡ none
      → s.get (idempotency_key_str c q.name) v
        ≡ s.get (idempotency_key_str c q.name) (idempotency s encode q h w).0
      → (idempotency s encode q h w ≡ run_recorded s encode (idempotency_key_str c q.name) q h w)
        × (idempotency s encode q g v
            ≡ resumed
                (idempotency_key_str c q.name)
                q
                (h q (begin_ s (idempotency_key_str c q.name) w)).1
                g
                v)
  unfolding resume
  idempotency-once q c h g w v st key l fresh kept =
      let k = idempotency_key_str c q.name in
      let first : idempotency s encode q h w ≡ run_recorded s encode k q h w =
        idempotency-resume q c h w key ∙ ap (λ o. resume s encode o k q h w) fresh in
      let kept' = kept ∙ ap (λ p. s.get k p.0) first ∙ get-run_recorded k q h w st l in
      (
        first,
        idempotency-resume q c g v key
            ∙ ap (λ o. resume s encode o k q g v) kept'
            ∙ resume-after k _ q g v,
      )
