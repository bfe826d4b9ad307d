-- ===== src/Application/Pipeline/Guards.antt =====
-- The middlewares that can refuse a request or change it before the rest of the chain runs, with
-- the policy port of src/mp_commons/kernel/security/policy.py. What they ask the world for is an
-- argument: the principal in the context, the policy engine, the request's own `validate` (what
-- it raises), the generator of ids.
pub mod Refusals
use python_commons.Base.{
  String, string_eq, Bool, true, false, Option, none, some, ◌=?◌, if◌then◌else◌,
}
use python_commons.Outcome.{Outcome, raised}
use python_commons.Application.Pipeline.{
  Request, Reply, Failure, unauthorized, forbidden, Handler, Middleware,
}

pub data PolicyDecision : Type 0 where
  allow deny : PolicyDecision

pub record PolicyContext (Pr : Type 0) : Type 0 where
  pub principal : Pr
  pub resource : String
  pub action : String

-- `getattr(request, attribute, default)`
abbrev pub attribute_or : Option String → String → String
attribute_or none default = default
attribute_or (some s) default = s

module _ {P : Type 0} {Pr : Type 0} where
  pub context_of : Pr → Request P → PolicyContext Pr
  context_of principal q = record {
    principal = principal;
    resource = attribute_or q.resource q.name;
    action = attribute_or q.action "execute";
  }

module _ {P R B X W Pr : Type 0} (evaluate : PolicyContext Pr → W → W × PolicyDecision) where
  enforce : PolicyContext Pr → PolicyDecision → Middleware P R B X W
  enforce c PolicyDecision.deny q next_ w = (w, raised (forbidden c.resource c.action))
  enforce c PolicyDecision.allow q next_ w = next_ q w

  authorize_as : Option Pr → Bool → Middleware P R B X W
  unfolding enforce
  authorize_as none true q next_ w = (w, raised unauthorized)
  authorize_as none false q next_ w = next_ q w
  authorize_as (some p) require_auth q next_ w =
      let c = context_of p q in let (w', decision) = evaluate c w in enforce c decision q next_ w'

  -- `AuthzMiddleware`
  unfoldable pub authorize : (W → Option Pr) → Bool → Middleware P R B X W
  unfolding authorize_as
  authorize get_current require_auth q next_ w = authorize_as (get_current w) require_auth q next_ w

-- `not getattr(request, "correlation_id", None)`
is_missing : Option String → Bool
is_missing none = true
is_missing (some s) = s =? ""

stamp : {P : Type 0} → String → Request P → Request P
stamp id q = if q.is_stampable then record q { correlation_id = some id } else q

-- how a `TimeoutError` of the rest of the chain leaves the timeout
relabel :
    {R B X W : Type 0} → W × Outcome (Reply R B) (Failure X) → W × Outcome (Reply R B) (Failure X)
relabel (w, raised Failure.timeout_error) = (w, raised Failure.timed_out)
relabel p = p

module _ {P R B X W : Type 0} where
  validated : Option (Failure X) → Middleware P R B X W
  validated none q next_ w = next_ q w
  validated (some x) q next_ w = (w, raised x)

  -- `ValidationMiddleware`
  unfoldable pub validate : (Request P → Option (Failure X)) → Middleware P R B X W
  unfolding validated
  validate raises q next_ w = validated (raises q) q next_ w

  -- `CorrelationMiddleware`
  unfoldable pub correlate : (W → W × String) → Middleware P R B X W
  unfolding is_missing stamp
  correlate uuid4 q next_ w =
      if is_missing q.correlation_id
      then (let (w', id) = uuid4 w in next_ (stamp id q) w')
      else next_ q w

  -- `TimeoutMiddleware`: `asyncio.wait_for` is the argument, and raises Python's `TimeoutError`.
  unfoldable pub timeout : (Handler P R B X W → Handler P R B X W) → Middleware P R B X W
  unfolding relabel
  timeout wait_for q next_ w = relabel (wait_for next_ q w)
