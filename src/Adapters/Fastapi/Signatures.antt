-- ===== src/Adapters/Fastapi/Signatures.antt =====
-- src/mp_commons/adapters/fastapi/middleware.py: `FastAPIIncomingWebhookMiddleware`. `hmac` is the
-- hex digest of a body under the secret. After the messages of the list `receive` gives a
-- disconnection, which ends the loop.
pub mod Bodies
use Prim.Native.Char.{code}
use Prim.Native.String.{[] as empty, ◌∷◌ as prepend, ◌++◌ as string_append}
use text.Mathlib.Text.{starts_with}
use python_commons.Base.{
  ℕ, String, string_eq, ◌=?◌, Bool, true, false, ◌&&◌, ltb, Option, List, [], ◌∷◌, if◌then◌else◌,
}
use python_commons.Outcome.{Outcome, returned, raised, cancelled}
use python_commons.Adapters.Fastapi.{
  ScopeType, Scope, Received, Body, Message, State, Response, App, header, decoded,
}
use python_commons.Adapters.Fastapi.Text.{strip}
use python_commons.Adapters.Fastapi.Contexts.{is_http, refuse}

-- The loop that buffers the body: the body, and what `receive` has left.
unfoldable pub buffer : String → List Received → String × List Received
buffer buffered [] = (buffered, [])
buffer buffered (m ∷ received) =
    let rest = buffer (string_append buffered m.body) received in
    if m.more_body then rest else (string_append buffered m.body, received)

unfoldable pub is_ascii : String → Bool
is_ascii empty = true
is_ascii (prepend c s) = ltb (code c) 128 && is_ascii s

module _ {X : Type 0} (hmac : String → String) (type_error : X) where
  -- `_verify`; `hmac.compare_digest` raises a `TypeError` for a text that is not ASCII
  unfoldable pub verify : String → String → Outcome Bool X
  verify body_ signature =
      if starts_with signature "sha256="
      then if is_ascii signature
        then returned (string_append "sha256=" (hmac body_) =? signature)
        else raised type_error
      else returned false

module _ {P X W : Type 0} where
  -- what the verification has ended with
  verified : Outcome Bool X → App P X W → App P X W
  verified (returned ok) app scope received s =
      if ok
      then app scope received s
      else refuse 401 (Body.raw "{\"detail\":\"Invalid or missing webhook signature\"}") s
  verified (raised x) app scope received s = record { sent = []; state = s; ended = raised x }
  verified cancelled app scope received s = record { sent = []; state = s; ended = cancelled }

module _ {P X W : Type 0} (hmac : String → String) (type_error decode_error : X) where
  -- behind the loop, with the body replayed
  replayed : Option String → String × List Received → App P X W → Scope → State P W → Response P X W
  unfolding verified
  replayed signature (body_, received) app scope s =
      decoded decode_error signature
        (λ raw. verified (verify hmac type_error body_ (strip raw)) app) scope
        (record { body = body_; more_body = false } ∷ received) s

  -- `FastAPIIncomingWebhookMiddleware.__call__`
  unfoldable pub guard_webhooks : (path_prefix name : String) → App P X W → App P X W
  unfolding replayed
  guard_webhooks path_prefix name app scope received s =
      if is_http scope.type
      then if starts_with scope.path path_prefix
        then replayed (header name scope.headers) (buffer "" received) app scope s
        else app scope received s
      else app scope received s
