-- ===== src/Adapters/Fastapi.antt =====
-- src/mp_commons/adapters/fastapi/middleware.py: the ASGI application that the middlewares wrap, and
-- what they see of it. An application is a function of the scope, of the messages that `receive` will
-- give and of the state, which is the context variables of the library with the rest of the world;
-- it leaves the messages that it has sent and a state, and ends as an awaited callable does. A send
-- function that a middleware passes on in place of `send` is a function on messages. Bytes are texts,
-- but the value of a header is what `bytes.decode()` makes of it, or nothing if it is not UTF-8;
-- `decode_error` is the `UnicodeDecodeError`. The names of headers have lower case, as ASGI wants.
pub mod Text
pub mod Contexts
pub mod Limits
pub mod Signatures
mod Tests
use python_commons.Base.{
  ℕ, String, string_eq, ◌=?◌, Bool, true, false, Option, none, some, List, [], ◌∷◌, ◌++◌, map,
  if◌then◌else◌,
}
use python_commons.Outcome.{Outcome, raised}

pub data ScopeType : Type 0 where
  http websocket other : ScopeType

abbrev pub Headers : Type 0
Headers = List (String × Option String)

pub record Scope : Type 0 where
  pub type : ScopeType
  pub method : String
  pub path : String
  pub headers : Headers
  pub client : Option String

-- what `receive` gives; a disconnection has no body and nothing more
pub record Received : Type 0 where
  pub body : String
  pub more_body : Bool

-- A body of an error that a middleware sends itself, as a text or by its code.
pub data Body : Type 0 where
  raw : String → Body
  unauthorized : Body
  rate_limit_exceeded : (retry_after : ℕ) → Body

-- A header's value as a text, as a number in decimals, or as the length of a body.
pub data Value : Type 0 where
  text : String → Value
  decimal : ℕ → Value
  length_of : Body → Value

pub data Message : Type 0 where
  start : (status : ℕ) → List (String × Value) → Message
  body : Body → Message
  other : Message

-- `RequestContext`
pub record RequestContext : Type 0 where
  pub correlation_id : String
  pub tenant_id : Option String

-- The variables of `TenantContext`, `SecurityContext` and `CorrelationContext`, and the world.
pub record State (P W : Type 0) : Type 0 where
  pub tenant : Option String
  pub principal : Option P
  pub request : Option RequestContext
  pub world : W

pub record Response (P X W : Type 0) : Type 0 where
  pub sent : List Message
  pub state : State P W
  pub ended : Outcome (Unit {0}) X

module _ (P X W : Type 0) where
  abbrev pub App : Type 0
  App = Scope → List Received → State P W → Response P X W

-- `dict(headers).get(name, b"")`: of two headers of a name the last counts
abbrev pub header_or : Option String → String → Headers → Option String
header_or found name [] = found
header_or found name ((k, v) ∷ headers) = header_or (if k =? name then v else found) name headers

abbrev pub header : String → Headers → Option String
header name headers = header_or (some "") name headers

module _ {P X W : Type 0} where
  -- what an application sends through a send function of a middleware
  abbrev pub through : (Message → Message) → Response P X W → Response P X W
  through f r = record r { sent = map f r.sent }

  -- what a middleware does with a text that it has decoded
  abbrev pub decoded : X → Option String → (String → App P X W) → App P X W
  decoded decode_error none run scope received s = record {
    sent = [];
    state = s;
    ended = raised decode_error;
  }
  decoded decode_error (some value) run scope received s = run value scope received s
