-- ===== src/Adapters/Fastapi/Contexts/Correlation.antt =====
-- The id under which a request is correlated.
use python_commons.Base.{
  ◌≡◌, ◌≢◌, refl, sym, ap, ◌∙◌, String, string_eq, ◌=?◌, ne_of_test, true, false, Bool-cases, some,
  none, List, [], ◌∷◌, inl, inr, ◌⊎◌, Option, All,
}
use python_commons.Adapters.Fastapi.{Headers, Scope, Received, Value, State, Response, App, header}
use mathlib.Core.Option.{some-injective}
use python_commons.Adapters.Fastapi.Contexts.Hardening.{AllExtend, with_headers-AllExtend}
use python_commons.Adapters.Fastapi.Text.{strip}
use python_commons.Adapters.Fastapi.Contexts.{
  is_served, or_else, find_id, unless_blank, id_of, run_correlated, correlate,
}

or_else_ne : (s t : String) → t ≢ "" → or_else s t ≢ ""
or_else_ne s t ne e = elim (Bool-cases (s =? "")) [
  | inl b ↦ ne (sym (rw b refl) ∙ e)
  | inr b ↦ ne_of_test s "" b (sym (rw b refl) ∙ e)
]

test_of_ne : (s t : String) → s ≢ t → (s =? t) ≡ false
test_of_ne s t ne = elim (Bool-cases (s =? t)) [
  | inl e ↦ absurd (ne ((string_eq.beq_iff s t).0 e))
  | inr e ↦ e
]

-- the headers of these names can be decoded
abbrev pub Decodable : List String → Headers → Type 0
Decodable names headers = All (λ n. (raw : String) × (header n headers ≡ some raw)) names

unless_blank-some :
    (name : String) (o p : Option String)
    → (raw : String) × (o ≡ some raw)
    → (id : String) × (p ≡ some id)
    → (id : String) × (unless_blank name o p ≡ some id)
unfolding unless_blank
unless_blank-some name o p (raw, e) (id, f) = elim (Bool-cases (strip raw =? "")) [
  | inl b ↦ (id, ap (λ q. unless_blank name q p) e ∙ rw b f)
  | inr b ↦ (id_of name (strip raw), ap (λ q. unless_blank name q p) e ∙ rw b refl)
]

find_id-some :
    (names : List String) (headers : Headers)
    → Decodable names headers
    → (id : String) × (find_id names headers ≡ some id)
unfolding find_id
find_id-some [] headers d = ("", refl)
find_id-some (name ∷ names) headers (r, d) =
    unless_blank-some name (header name headers) (find_id names headers) r
      (find_id-some names headers d)

find_id_first :
    (name raw : String) (names : List String) (headers : Headers)
    → name ≢ "traceparent"
    → header name headers ≡ some raw
    → (strip raw =? "") ≡ false
    → find_id (name ∷ names) headers ≡ some (strip raw)
unfolding find_id unless_blank id_of
find_id_first name raw names headers other found b =
    ap (λ o. unless_blank name o (find_id names headers)) found
    ∙ rw b (rw (test_of_ne name "traceparent" other) refl)

first_or_blank :
    (name raw id : String) (names : List String) (uuid : String) (headers : Headers)
    → name ≢ "traceparent"
    → header name headers ≡ some raw
    → find_id (name ∷ names) headers ≡ some id
    → (strip raw ≡ "") ⊎ (or_else id uuid ≡ strip raw)
first_or_blank name raw id names uuid headers other found e = elim (Bool-cases (strip raw =? "")) [
  | inl b ↦ inl ((string_eq.beq_iff (strip raw) "").0 b)
  | inr b ↦
      let same = some-injective _ _ (sym e ∙ find_id_first name raw names headers other found b) in
      inr (ap (λ t. or_else t uuid) same ∙ rw b refl)
]

module _ {P X W : Type 0} (app : App P X W) where
  -- The request is served under the id: the application runs with it in the request context, every
  -- start of a response has it in the response header behind its own headers, and nothing else of
  -- what is sent changes, nor does the state or the end.
  pub record IsServedAs (id response_header : String) (scope : Scope) (received : List Received)
      (s : State P W) (r : Response P X W) : Type 0 where
    pub sent :
        AllExtend
          ((response_header, Value.text id) ∷ [])
          (app scope received
            (record s { request = some (record { correlation_id = id; tenant_id = none }) })).sent
          r.sent
    pub state :
        r.state
        ≡ (app scope received
            (record s { request = some (record { correlation_id = id; tenant_id = none }) })).state
    pub ended :
        r.ended
        ≡ (app scope received
            (record s { request = some (record { correlation_id = id; tenant_id = none }) })).ended

  run_correlated-IsServedAs :
      (response_header id : String) (scope : Scope) (received : List Received) (s : State P W)
      → IsServedAs id response_header scope received s
          (run_correlated response_header id app scope received s)
  unfolding run_correlated
  run_correlated-IsServedAs response_header id scope received s = record {
    sent = with_headers-AllExtend _ _;
    state = refl;
    ended = refl;
  }

  -- A request over HTTP or a websocket whose request headers are UTF-8 is served, the generated id
  -- not being empty, under an id that is not empty: the application runs with it in the request
  -- context, and every response that it starts has it as the last header, under the name of the
  -- response header. It is the value of the first request header, without the space around it, if
  -- that header is not `traceparent` and its value is not blank.
  pub correlate-Correlated :
      (decode_error : X) (response_header name raw : String) (names : List String) (uuid : String)
      (scope : Scope) (received : List Received) (s : State P W)
      → is_served scope.type ≡ true
      → uuid ≢ ""
      → header name scope.headers ≡ some raw
      → Decodable names scope.headers
      → (id : String) × (id ≢ "")
        × ((name ≡ "traceparent") ⊎ (strip raw ≡ "") ⊎ (id ≡ strip raw))
        × IsServedAs id response_header scope received s
            (correlate decode_error response_header (name ∷ names) uuid app scope received s)
  unfolding correlate
  correlate-Correlated decode_error response_header name raw names uuid scope received s served ne
        found d =
      let (id, e) = find_id-some (name ∷ names) scope.headers ((raw, found), d) in
      (
        or_else id uuid,
        or_else_ne id uuid ne,
        elim (Bool-cases (name =? "traceparent")) [
          | inl t ↦ inl ((string_eq.beq_iff name "traceparent").0 t)
          | inr t ↦ inr (
              first_or_blank name raw id names uuid scope.headers (ne_of_test name "traceparent" t)
                found e)
        ],
        rw (served, correlate)
            (rw e (run_correlated-IsServedAs response_header (or_else id uuid) scope received s)),
      )
