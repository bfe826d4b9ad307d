-- ===== src/Adapters/Fastapi/Signatures/Bodies.antt =====
-- What the guard of incoming webhooks makes of a body that comes in parts.
use Prim.Native.String.{◌++◌ as string_append}
use text.Mathlib.Text.{starts_with}
use text.Mathlib.TextLemmas.{append_assoc, nil-append}
use text.Mathlib.TextPositions.{starts_with-append}
use mathlib.Core.Bool.{false≢true}
use python_commons.Base.{
  some, ◌≡◌, inl, inr, arith, Bool-cases, refl, sym, ap, ◌∙◌, String, string_eq, ◌=?◌, true, false,
  List, [], ◌∷◌, ◌++◌, if◌then◌else◌,
}
use python_commons.Outcome.{returned, raised}
use python_commons.Adapters.Fastapi.{Scope, Received, Body, State, App, header}
use python_commons.Adapters.Fastapi.Text.{strip}
use python_commons.Adapters.Fastapi.Contexts.{is_http, refuse}
use python_commons.Adapters.Fastapi.Signatures.{
  buffer, is_ascii, verify, verified, replayed, guard_webhooks,
}

-- a body in parts, and what `receive` gives for it
abbrev pub messages : List String → String → List Received
messages [] last = record { body = last; more_body = false } ∷ []
messages (part ∷ parts) last = record { body = part; more_body = true } ∷ messages parts last

abbrev pub joined : List String → String → String
joined [] last = last
joined (part ∷ parts) last = string_append part (joined parts last)

buffer-messages :
    (buffered : String) (parts : List String) (last : String) (rest : List Received)
    → buffer buffered (messages parts last ++ rest)
      ≡ (string_append buffered (joined parts last), rest)
unfolding buffer
buffer-messages buffered [] last rest = refl
buffer-messages buffered (part ∷ parts) last rest =
    buffer-messages (string_append buffered part) parts last rest
    ∙ ap (λ s. (s, rest)) (append_assoc buffered part (joined parts last))

=?_sym : (s t : String) → (s =? t) ≡ (t =? s)
=?_sym s t = ground (arith, string_eq.beq_iff s t, string_eq.beq_iff t s)

-- a text that is no signature differs from all that are
unsigned_ne :
    (signature d : String)
    → starts_with signature "sha256=" ≡ false
    → (signature =? string_append "sha256=" d) ≡ false
unsigned_ne signature d e = elim (Bool-cases (signature =? string_append "sha256=" d)) [
  | inl same ↦ absurd (
      false≢true (
        sym e
        ∙ ap (λ t. starts_with t "sha256=")
            ((string_eq.beq_iff signature (string_append "sha256=" d)).0 same)
        ∙ starts_with-append "sha256=" d))
  | inr ne ↦ ne
]

verify_ascii :
    {X : Type 0} (hmac : String → String) (type_error : X) (body_ signature : String)
    → is_ascii signature ≡ true
    → verify hmac type_error body_ signature
      ≡ returned (signature =? string_append "sha256=" (hmac body_))
unfolding verify
verify_ascii hmac type_error body_ signature ascii =
    elim (Bool-cases (starts_with signature "sha256=")) [
      | inl p ↦
          rw p (rw ascii (ap returned (=?_sym (string_append "sha256=" (hmac body_)) signature)))
      | inr p ↦ rw p (ap returned (sym (unsigned_ne signature (hmac body_) p)))
    ]

module _ {P X W : Type 0} (hmac : String → String) (type_error decode_error : X)
    (app : App P X W) where
  -- A request over HTTP under the prefix, whose body comes in any parts, whose signature header is
  -- UTF-8 and its value, without the space around it, ASCII: if
  -- that value is `sha256=` with the digest of the whole body, the application is called, and
  -- `receive` gives it the whole body as one message and then what comes behind; if not, the answer
  -- is 401 and the state stays as it is.
  pub guard_webhooks-joined :
      (path_prefix name last raw : String) (parts : List String) (rest : List Received)
      (scope : Scope) (s : State P W)
      → is_http scope.type ≡ true
      → starts_with scope.path path_prefix ≡ true
      → header name scope.headers ≡ some raw
      → is_ascii (strip raw) ≡ true
      → guard_webhooks hmac type_error decode_error path_prefix name app scope
          (messages parts last ++ rest)
          s
        ≡ (if strip raw =? string_append "sha256=" (hmac (joined parts last))
            then app scope (record { body = joined parts last; more_body = false } ∷ rest) s
            else refuse 401 (Body.raw "{\"detail\":\"Invalid or missing webhook signature\"}") s)
  unfolding guard_webhooks replayed verified
  guard_webhooks-joined path_prefix name last raw parts rest scope s http prefix found ascii =
      rw (http, guard_webhooks)
        (rw prefix (
          rw (buffer-messages "" parts last rest) (
            rw (nil-append (joined parts last)) (
              rw found (rw (verify_ascii hmac type_error (joined parts last) (strip raw) ascii))))))

  -- A request over HTTP under the prefix whose header begins as a signature and has a character
  -- outside ASCII is not answered with 401: the comparison raises a `TypeError`.
  pub guard_webhooks_non_ascii :
      (path_prefix name raw : String) (received : List Received) (scope : Scope) (s : State P W)
      → is_http scope.type ≡ true
      → starts_with scope.path path_prefix ≡ true
      → header name scope.headers ≡ some raw
      → starts_with (strip raw) "sha256=" ≡ true
      → is_ascii (strip raw) ≡ false
      → guard_webhooks hmac type_error decode_error path_prefix name app scope received s
        ≡ record { sent = []; state = s; ended = raised type_error }
  unfolding guard_webhooks replayed verified verify
  guard_webhooks_non_ascii path_prefix name raw received scope s http prefix found signed ascii =
      rw (http, guard_webhooks) (rw prefix (rw found (rw signed (rw ascii refl))))
