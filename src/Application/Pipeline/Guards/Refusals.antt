-- ===== src/Application/Pipeline/Guards/Refusals.antt =====
-- What lies behind a guard that refuses is not reached.
use mathlib.Core.Bool.{false≢true}
use python_commons.Base.{
  ◌≡◌, refl, sym, ap, ◌∙◌, fun_ext, Bool, true, false, Option, none, some, List, ◌∷◌, ◌++◌,
}
use python_commons.Application.Pipeline.{Request, Handler, Middleware, execute}
use python_commons.Application.Pipeline.Chain.{nested, execute-nested, nested-append}
use python_commons.Application.Pipeline.Guards.{
  PolicyDecision, PolicyContext, context_of, enforce, authorize_as, authorize,
}

module _ {P R B X W : Type 0} where
  -- a middleware whose result does not depend on the rest of the chain
  Refuses : Middleware P R B X W → Type 0
  Refuses m = (q : Request P) (g h : Handler P R B X W) (w : W) → m q g w ≡ m q h w

  execute-refused :
      (ms ns ns' : List (Middleware P R B X W)) (m : Middleware P R B X W) (q : Request P)
      → (g h : Handler P R B X W) (w : W) → Refuses m
      → execute (ms ++ (m ∷ ns)) q g w ≡ execute (ms ++ (m ∷ ns')) q h w
  unfolding Refuses
  execute-refused ms ns ns' m q g h w r =
      execute-nested (ms ++ (m ∷ ns)) q g w
      ∙ ap (λ k. k q w) (nested-append ms (m ∷ ns) g)
      ∙ ap (λ k. nested ms k q w)
          (fun_ext (λ q'. fun_ext (λ w'. r q' (nested ns g) (nested ns' h) w')))
      ∙ sym (ap (λ k. k q w) (nested-append ms (m ∷ ns') h))
      ∙ sym (execute-nested (ms ++ (m ∷ ns')) q h w)

is_deny : PolicyDecision → Bool
is_deny PolicyDecision.deny = true
is_deny PolicyDecision.allow = false

module _ {P W Pr : Type 0} (evaluate : PolicyContext Pr → W → W × PolicyDecision) where
  -- whether authorization refuses a request for the principal of the context
  unfoldable pub is_denied : Option Pr → Bool → Request P → W → Bool
  unfolding is_deny
  is_denied none require_auth q w = require_auth
  is_denied (some p) require_auth q w = is_deny (evaluate (context_of p q) w).1

module _ {P R B X W Pr : Type 0} (evaluate : PolicyContext Pr → W → W × PolicyDecision) where
  enforce-deny :
      (c : PolicyContext Pr) (d : PolicyDecision) (q : Request P) (g h : Handler P R B X W) (w : W)
      → is_deny d ≡ true
      → enforce evaluate c d q g w ≡ enforce evaluate c d q h w
  unfolding is_deny enforce
  enforce-deny c PolicyDecision.deny q g h w e = refl
  enforce-deny c PolicyDecision.allow q g h w e = absurd (false≢true e)

  authorize_as-denied :
      (o : Option Pr) (b : Bool) (q : Request P) (g h : Handler P R B X W) (w : W)
      → is_denied evaluate o b q w ≡ true
      → authorize_as evaluate o b q g w ≡ authorize_as evaluate o b q h w
  unfolding is_denied authorize_as
  authorize_as-denied none true q g h w e = refl
  authorize_as-denied none false q g h w e = absurd (false≢true e)
  authorize_as-denied (some p) b q g h w e =
      enforce-deny (context_of p q) (evaluate (context_of p q) w).1 q g h _ e

  -- If authorization refuses every request in every world, then a pipeline with the authorization
  -- middleware in any place ends with the same world and result whatever middlewares stand behind
  -- it and whatever the handler is.
  pub execute-denied :
      (get_current : W → Option Pr) (require_auth : Bool) (ms ns ns' : List (Middleware P R B X W))
      → (q : Request P) (g h : Handler P R B X W) (w : W)
      → ((r : Request P) (v : W) → is_denied evaluate (get_current v) require_auth r v ≡ true)
      → execute (ms ++ (authorize evaluate get_current require_auth ∷ ns)) q g w
        ≡ execute (ms ++ (authorize evaluate get_current require_auth ∷ ns')) q h w
  unfolding Refuses authorize
  execute-denied get_current b ms ns ns' q g h w denied =
      execute-refused ms ns ns' (authorize evaluate get_current b) q g h w
        (λ q' g' h' v. authorize_as-denied (get_current v) b q' g' h' v (denied q' v))
