-- ===== src/Application/Cqrs/Redelivery.antt =====
-- A command bus whose pipeline deduplicates, when a command is dispatched again and again.
use python_commons.Base.{
  ℕ, zero, suc, ◌≡◌, refl, sym, ap, ◌∙◌, subst, String, string_eq, none, some, List, ◌∷◌,
}
use python_commons.Dict.{lookup}
use python_commons.Application.Pipeline.{Kind, Request, Reply, Handler, Middleware}
use python_commons.Application.Pipeline.Chain.{nested, execute-nested}
use python_commons.Application.Pipeline.Idempotency.{
  IdempotencyStore, IsStore, idempotency_key_str, begin_, run_recorded, client_key, deduplication,
}
use python_commons.Application.Pipeline.Idempotency.Once.{Leaves, rejected, deduplication-once}
use python_commons.Application.Cqrs.{Handlers, handle_through, dispatch_through}

-- the world after `n` dispatches of a request
unfoldable pub dispatches :
    {P R B X W : Type 0} → List (Middleware P R B X W) → Handlers P R B X W → ℕ → Request P → W → W
dispatches ms handlers zero q w = w
dispatches ms handlers (suc n) q w = dispatches ms handlers n q (dispatch_through ms handlers q w).0

module _ {P R B X W : Type 0} (s : IdempotencyStore B W) (encode : Reply R B → B) where
  dispatch_through-found :
      (ms : List (Middleware P R B X W)) (handlers : Handlers P R B X W) (h : Handler P R B X W)
      → (q : Request P) (w : W) → lookup q.name handlers ≡ some h
      → dispatch_through (deduplication s encode ∷ ms) handlers q w
        ≡ deduplication s encode q (nested ms h) w
  unfolding dispatch_through handle_through
  dispatch_through-found ms handlers h q w e =
      ap (λ o. handle_through (deduplication s encode ∷ ms) o q w) e
      ∙ execute-nested (deduplication s encode ∷ ms) q h w

  dispatches-same :
      (ms : List (Middleware P R B X W)) (handlers : Handlers P R B X W) (n : ℕ) (q : Request P)
      (v : W)
      → (dispatch_through ms handlers q v).0 ≡ v
      → dispatches ms handlers n q v ≡ v
  unfolding dispatches
  dispatches-same ms handlers zero q v e = refl
  dispatches-same ms handlers (suc n) q v e =
      ap (dispatches ms handlers n q) e ∙ dispatches-same ms handlers n q v e

  -- On a bus whose outermost middleware deduplicates, a command with a handler and no record of
  -- its key runs the rest of the pipeline around the handler once: if that leaves the record
  -- alone, then after the first dispatch no number of further dispatches changes the world, and
  -- each of them gets the encoded response if the first has returned, and ConflictError if not.
  pub dispatch_once :
      (ms : List (Middleware P R B X W)) (handlers : Handlers P R B X W) (h : Handler P R B X W)
      → (q : Request P) (c : String) (n : ℕ) (w : W) → IsStore s
      → lookup q.name handlers ≡ some h
      → q.kind ≡ Kind.command
      → client_key q ≡ some c
      → Leaves s encode (idempotency_key_str c q.name) q (nested ms h)
      → s.get (idempotency_key_str c q.name) w ≡ none
      → (dispatches (deduplication s encode ∷ ms) handlers (suc n) q w
          ≡ (run_recorded s encode (idempotency_key_str c q.name) q (nested ms h) w).0)
        × (dispatch_through
              (deduplication s encode ∷ ms)
              handlers
              q
              (dispatches (deduplication s encode ∷ ms) handlers (suc n) q w)
            ≡ (
              dispatches (deduplication s encode ∷ ms) handlers (suc n) q w,
              rejected encode q.name c
                  (nested ms h q (begin_ s (idempotency_key_str c q.name) w)).1,
            ))
  unfolding dispatches
  dispatch_once ms handlers h q c n w st found kind key leaves fresh =
      let g = nested ms h in
      let ds = deduplication s encode ∷ ms in
      let w' = (deduplication s encode q g w).0 in
      let (first, again) =
        deduplication-once s encode q q c g g w w' st kind key refl kind key leaves fresh refl in
      let second = dispatch_through-found ms handlers h q w' found ∙ again in
      let rest : dispatches ds handlers n q (dispatch_through ds handlers q w).0 ≡ w' =
        ap (λ p. dispatches ds handlers n q p.0) (dispatch_through-found ms handlers h q w found)
        ∙ dispatches-same ds handlers n q w' (ap (λ p. p.0) second) in
      (
        rest ∙ ap (λ p. p.0) first,
        subst
            (λ x.
              dispatch_through ds handlers q x
              ≡ (x, rejected encode q.name c (g q (begin_ s (idempotency_key_str c q.name) w)).1))
            (sym rest) second,
      )
