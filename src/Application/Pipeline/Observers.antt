-- ===== src/Application/Pipeline/Observers.antt =====
-- The middlewares that only observe: `AuditMiddleware`, with the event of
-- src/mp_commons/kernel/security/audit.py, and `MetricsMiddleware`. The stores that they write to
-- are part of the world.
use python_commons.Base.{
  String, string_eq, Bool, true, false, Option, none, some, ◌=?◌, if◌then◌else◌,
}
use python_commons.Outcome.{Outcome, returned, raised, cancelled}
use python_commons.Application.Pipeline.{Request, Reply, Failure, Middleware}
use python_commons.Application.Pipeline.Guards.{attribute_or}
pub mod Silent

-- The audit record, without its id and time.
pub record AuditEvent : Type 0 where
  pub principal_id : String
  pub action : String
  pub resource_type : String
  pub resource_id : String
  pub allowed : Bool

-- The metrics that a call adds to
pub record Metrics (W : Type 0) : Type 0 where
  pub count_call : String → W → W
  pub record_latency : String → W → W
  pub count_error : String → W → W

-- `self._action or type(request).__name__`
unfoldable pub named_or : Option String → String → String
named_or none name = name
named_or (some s) name = if s =? "" then name else s

-- the outcome that is audited, if the `except Exception` is not passed by
audited : {R X : Type 0} → Outcome R X → Option Bool
audited (returned _) = some true
audited (raised _) = some false
audited cancelled = none

-- what `MetricsMiddleware` adds
pub measured : {R X W : Type 0} → Metrics W → String → Outcome R X → W → W
measured m name (returned _) w = m.record_latency name (m.count_call name w)
measured m name (raised _) w = m.count_error name w
measured m name cancelled w = w

-- What the audit reads and writes: the subject of the principal in the context, and the store.
pub record Audit (W : Type 0) : Type 0 where
  pub subject : W → Option String
  pub record_event : AuditEvent → W → W
  pub action : Option String
  pub resource_type : Option String

pub audit_event :
    {P W : Type 0} → Audit W → (Request P → Option String) → Request P → W → Bool → AuditEvent
unfolding named_or
audit_event a id q w allowed = record {
  principal_id = attribute_or (a.subject w) "anonymous";
  action = named_or a.action q.name;
  resource_type = named_or a.resource_type q.name;
  resource_id = attribute_or (id q) "-";
  allowed = allowed;
}

record_outcome : {W : Type 0} → Audit W → (Bool → AuditEvent) → Option Bool → W → W
record_outcome a event none w = w
record_outcome a event (some allowed) w = a.record_event (event allowed) w

module _ {P R B X W : Type 0} where
  -- `AuditMiddleware`
  unfoldable pub audit : Audit W → (Request P → Option String) → Middleware P R B X W
  unfolding record_outcome audited
  audit a id q next_ w =
      let (w', o) = next_ q w in (record_outcome a (audit_event a id q w) (audited o) w', o)

  -- `MetricsMiddleware`
  unfoldable pub measure : Metrics W → Middleware P R B X W
  unfolding measured
  measure m q next_ w = let (w', o) = next_ q w in (measured m q.name o w', o)
