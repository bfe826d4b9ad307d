-- ===== src/Application/Pipeline/Observers/Silent.antt =====
-- Observers do not change what they observe.
use python_commons.Base.{◌≡◌, refl, ap, ◌∙◌, String, Option, List, [], ◌∷◌, map}
use python_commons.Application.Pipeline.{Request, Handler, Middleware, execute}
use python_commons.Application.Pipeline.Chain.{nested, execute-nested}
use python_commons.Application.Pipeline.Observers.{Audit, Metrics, audit, measure}

-- an audit with its configuration, or metrics
pub data Observer (P W : Type 0) : Type 0 where
  audits : Audit W → (Request P → Option String) → Observer P W
  measures : Metrics W → Observer P W

module _ {P R B X W : Type 0} where
  pub observe : Observer P W → Middleware P R B X W
  observe (audits a id) = audit a id
  observe (measures m) = measure m

  observe-silent :
      (o : Observer P W) (q : Request P) (h : Handler P R B X W) (w : W)
      → (observe o q h w).1 ≡ (h q w).1
  unfolding observe audit measure
  observe-silent (audits a id) q h w = refl
  observe-silent (measures m) q h w = refl

  nested-silent :
      (os : List (Observer P W)) (q : Request P) (h : Handler P R B X W) (w : W)
      → (nested (map observe os) h q w).1 ≡ (h q w).1
  nested-silent [] q h w = refl
  nested-silent (o ∷ os) q h w =
      observe-silent o q (nested (map observe os) h) w ∙ nested-silent os q h w

  -- A pipeline of audits and metrics ends the way its handler ends when it is called directly.
  pub execute-silent :
      (os : List (Observer P W)) (q : Request P) (h : Handler P R B X W) (w : W)
      → (execute (map observe os) q h w).1 ≡ (h q w).1
  execute-silent os q h w =
      ap (λ p. p.1) (execute-nested (map observe os) q h w) ∙ nested-silent os q h w
