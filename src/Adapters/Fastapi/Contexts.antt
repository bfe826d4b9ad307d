-- ===== src/Adapters/Fastapi/Contexts.antt =====
-- src/mp_commons/adapters/fastapi/middleware.py: the middlewares that fill the context variables,
-- `FastAPICorrelationIdMiddleware`, `FastAPITenantMiddleware`, `FastAPISecurityMiddleware` and
-- `FastAPIRequestContextMiddleware`, and the one that adds headers to the responses. `uuid` is what
-- `uuid4` draws.
pub mod Hardening
pub mod Correlation
pub mod Access
use python_commons.Base.{
  ℕ, String, string_eq, ◌=?◌, Bool, true, false, ◌&&◌, Option, none, some, List, [], ◌∷◌, ◌++◌, map,
  if◌then◌else◌,
}
use python_commons.Outcome.{Outcome, returned, raised, cancelled}
use python_commons.Adapters.Fastapi.{
  ScopeType, Headers, Scope, Received, Body, Value, Message, RequestContext, State, Response, App,
  header, decoded, through,
}
use python_commons.Adapters.Fastapi.Text.{strip, has_dash, second_part, skip, lower_starts_with}

-- an empty text is falsy
abbrev pub or_else : String → String → String
or_else s t = if s =? "" then t else s

abbrev optional : String → Option String
optional s = if s =? "" then none else some s

abbrev pub is_http : ScopeType → Bool
is_http ScopeType.http = true
is_http _ = false

-- `scope["type"] in ("http", "websocket")`
abbrev pub is_served : ScopeType → Bool
is_served ScopeType.other = false
is_served _ = true

-- `headers_list` with more headers, for the message that starts a response
unfoldable pub with_headers : List (String × Value) → Message → Message
with_headers extra (Message.start status headers) = Message.start status (headers ++ extra)
with_headers extra m = m

second_or_empty : Option String → String
second_or_empty none = ""
second_or_empty (some s) = s

-- the value of a header that is not empty
id_of : String → String → String
unfolding second_or_empty
id_of name value =
    if (name =? "traceparent") && has_dash value then second_or_empty (second_part value) else value

-- one header, in front of the loop over the others
unless_blank : String → Option String → Option String → Option String
unfolding id_of
unless_blank name none rest = none
unless_blank name (some raw) rest = if strip raw =? "" then rest else some (id_of name (strip raw))

-- the loop over `_request_headers`; an empty text stands for `None`, and there is nothing if a header
-- that is looked at cannot be decoded
unfoldable pub find_id : List String → Headers → Option String
unfolding unless_blank
find_id [] headers = some ""
find_id (name ∷ names) headers = unless_blank name (header name headers) (find_id names headers)

module _ {P X W : Type 0} where
  -- `FastAPICorrelationIdMiddleware.__call__`, for the id that was found or drawn
  unfoldable pub run_correlated : String → String → App P X W → App P X W
  run_correlated response_header id app scope received s =
      through (with_headers ((response_header, Value.text id) ∷ [])) (
        app scope received
          (record s { request = some (record { correlation_id = id; tenant_id = none }) }))

  unfoldable pub correlate : X → String → List String → String → App P X W → App P X W
  correlate decode_error response_header request_headers uuid app scope received s =
      if is_served scope.type
      then decoded decode_error (find_id request_headers scope.headers)
          (λ id. run_correlated response_header (or_else id uuid) app) scope received s
      else app scope received s

  -- `send` of an error, in place of a call of the application
  unfoldable pub refuse : ℕ → Body → State P W → Response P X W
  refuse status b s = record {
    sent =
        Message.start status (
          ("content-type", Value.text "application/json")
          ∷ ("content-length", Value.length_of b)
          ∷ [])
        ∷ Message.body b
        ∷ [];
    state = s;
    ended = returned tt;
  }

  -- `FastAPITenantMiddleware.__call__`, for the tenant of the headers
  tenant_of : Bool → String → App P X W → App P X W
  unfolding refuse
  tenant_of require_tenant raw app scope received s =
      if raw =? ""
      then if require_tenant
        then refuse 400 (Body.raw "{\"detail\":\"X-Tenant-ID header is required\"}") s
        else app scope received s
      else app scope received (record s { tenant = some raw })

  unfoldable pub set_tenant : X → String → Bool → App P X W → App P X W
  unfolding tenant_of
  set_tenant decode_error name require_tenant app scope received s =
      if is_http scope.type
      then decoded decode_error (header name scope.headers)
          (λ raw. tenant_of require_tenant (strip raw) app) scope received s
      else app scope received s

  -- `FastAPIRequestContextMiddleware.__call__`
  run_in_context : RequestContext → App P X W → App P X W
  run_in_context context app scope received s =
      app scope received (record s { request = some context })

  unfoldable pub set_request_context : X → String → String → String → App P X W → App P X W
  unfolding run_in_context
  set_request_context decode_error correlation_h tenant_h uuid app scope received s =
      if is_http scope.type
      then decoded decode_error (header correlation_h scope.headers)
          (λ id. decoded decode_error (header tenant_h scope.headers) (λ tenant.
            run_in_context
              (record {
                correlation_id = or_else (strip id) uuid;
                tenant_id = optional (strip tenant);
              })
              app))
          scope received s
      else app scope received s

  -- `FastAPISecurityHeadersMiddleware.__call__`
  unfoldable pub add_security_headers : List (String × String) → App P X W → App P X W
  unfolding with_headers
  add_security_headers extra app scope received s =
      if is_served scope.type
      then through (with_headers (map (λ (k, v). (k, Value.text v)) extra)) (app scope received s)
      else app scope received s

-- `FastAPISecurityHeadersMiddleware.__init__`: the headers whose value is not `None`
unfoldable pub init_headers : List (String × Option String) → List (String × String)
init_headers [] = []
init_headers ((k, none) ∷ pairs) = init_headers pairs
init_headers ((k, some v) ∷ pairs) = (k, v) ∷ init_headers pairs

-- the token of an authorization header, which is empty if it has none
unfoldable pub bearer_token : String → String
bearer_token auth_value =
    if lower_starts_with auth_value "bearer " then strip (skip 7 auth_value) else ""

module _ {P X W : Type 0} where
  -- what is done with the principal
  authorized : Bool → Option P → App P X W → App P X W
  unfolding refuse
  authorized require_auth (some p) app scope received s =
      app scope received (record s { principal = some p })
  authorized true none app scope received s = refuse 401 Body.unauthorized s
  authorized false none app scope received s = app scope received s

  -- the `try` around the verifier, which leaves a world
  verified : Bool → W × Outcome (Option P) X → App P X W → App P X W
  unfolding authorized
  verified require_auth (w, returned p) app scope received s =
      authorized require_auth p app scope received (record s { world = w })
  verified require_auth (w, raised x) app scope received s =
      authorized require_auth none app scope received (record s { world = w })
  verified require_auth (w, cancelled) app scope received s = record {
    sent = [];
    state = record s { world = w };
    ended = cancelled;
  }

  authenticate :
      Bool → Option (String → W → W × Outcome (Option P) X) → String → App P X W → App P X W
  unfolding verified
  authenticate require_auth none token app scope received s =
      authorized require_auth none app scope received s
  authenticate require_auth (some verifier) token app scope received s =
      if token =? ""
      then authorized require_auth none app scope received s
      else verified require_auth (verifier token s.world) app scope received s

  -- `FastAPISecurityMiddleware.__call__`
  unfoldable pub secure :
      X → Bool → Option (String → W → W × Outcome (Option P) X) → App P X W → App P X W
  unfolding authenticate
  secure decode_error require_auth verifier app scope received s =
      if is_http scope.type
      then decoded decode_error (header "authorization" scope.headers)
          (λ raw. authenticate require_auth verifier (bearer_token (strip raw)) app) scope received
          s
      else app scope received s
