-- ===== src/Adapters/Fastapi/Tests.antt =====
-- The middlewares around a concrete application, and the theorems there.
use Prim.Native.String.{◌++◌ as string_append}
use python_commons.Base.{
  ℕ, ◌+◌, ◌*◌, ◌≤◌, ◌≡◌, ◌≢◌, ◌=?◌, ne_of_test, refl, String, string_eq, true, false, Option, none,
  some, List, [], ◌∷◌, ◌++◌, arith, if◌then◌else◌, ◌⊎◌,
}
use python_commons.Outcome.{Outcome, returned, raised}
use python_commons.Application.RateLimit.{Quota, bucket_key}
use python_commons.Adapters.Fastapi.{ScopeType, Scope, Received, Body, Value, Message, State, App}
use python_commons.Adapters.Fastapi.Text.{strip, lower_starts_with, skip, second_part, has_dash}
use python_commons.Adapters.Fastapi.Contexts.{
  with_headers, find_id, correlate, run_correlated, secure, bearer_token, set_tenant, refuse,
  set_request_context, init_headers,
}
use python_commons.Adapters.Fastapi.Contexts.Correlation.{IsServedAs, correlate-Correlated}
use python_commons.Adapters.Fastapi.Contexts.Access.{Secured, secure-Secured}
use python_commons.Adapters.Fastapi.Limits.{Metrics, meter, captured}
use python_commons.Adapters.Fastapi.Limits.Limited.{World, Request, serve, calls_bounded}
use python_commons.Adapters.Fastapi.Signatures.{buffer, is_ascii, verify, guard_webhooks}
use python_commons.Adapters.Fastapi.Signatures.Bodies.{messages, joined, guard_webhooks-joined}

-- The world counts the calls; the application answers 200 with the first body that it receives.
first_body : List Received → String
first_body [] = ""
first_body (m ∷ received) = m.body

abbrev answers : App ℕ ℕ ℕ
answers scope received s = record {
  sent = Message.start 200 [] ∷ Message.body (Body.raw (first_body received)) ∷ [];
  state = record s { world = s.world + 1 };
  ended = returned tt;
}

abbrev fails : App ℕ ℕ ℕ
fails scope received s = record { sent = []; state = s; ended = raised 7 }

abbrev idle : State ℕ ℕ
idle = record { tenant = none; principal = none; request = none; world = 0 }

abbrev hook : Scope
hook = record {
  type = ScopeType.http;
  method = "POST";
  path = "/webhooks/paid";
  headers =
      ("x-hub-signature-256", some " sha256=aXb ")
      ∷ ("authorization", some "Bearer  t1 ")
      ∷ ("x-request-id", some "r-1")
      ∷ ("traceparent", some "00-abc-def-01")
      ∷ [];
  client = none;
}

-- a digest that shows the body
abbrev digest : String → String
digest body_ = string_append "a" (string_append body_ "b")

text_examples :
    (strip "\t a b \n" ≡ "a b")
    × (lower_starts_with "BeaRer x" "bearer " ≡ true)
    × (second_part "00-abc-def" ≡ some "abc")
    × (has_dash "abc" ≡ false)
unfolding strip lower_starts_with second_part has_dash
text_examples = (refl, refl, refl, refl)

correlates :
    correlate 3 "x-correlation-id"
      ("x-correlation-id" ∷ "traceparent" ∷ [])
      "u"
      answers
      hook
      []
      idle
    ≡ record {
      sent =
          Message.start 200 (("x-correlation-id", Value.text "abc") ∷ [])
          ∷ Message.body (Body.raw "")
          ∷ [];
      state = record idle {
        request = some (record { correlation_id = "abc"; tenant_id = none });
        world = 1;
      };
      ended = returned tt;
    }
unfolding correlate run_correlated find_id with_headers strip has_dash second_part first_body
correlates = refl

-- a verifier of one token
abbrev verify_token : String → ℕ → ℕ × Outcome (Option ℕ) ℕ
verify_token token w = (w, returned (if token =? "t1" then some 3 else none))

secures : (secure 3 true (some verify_token) answers hook [] idle).state.principal ≡ some 3
unfolding secure bearer_token strip lower_starts_with skip
secures = refl

tenant_required :
    set_tenant 3 "x-tenant-id" true answers hook [] idle
    ≡ refuse 400 (Body.raw "{\"detail\":\"X-Tenant-ID header is required\"}") idle
unfolding set_tenant strip
tenant_required = refl

context_set :
    (set_request_context 3 "x-correlation-id" "x-tenant-id" "u" answers hook [] idle).state.request
    ≡ some (record { correlation_id = "u"; tenant_id = none })
unfolding set_request_context strip
context_set = refl

some_headers : init_headers (("a", none) ∷ ("b", some "1") ∷ []) ≡ (("b", "1") ∷ [])
unfolding init_headers
some_headers = refl

correlate-Correlated_example :
    (id : String) × (id ≢ "")
    × ((◌≡◌ {A = String} "x-request-id" "traceparent") ⊎ (strip "r-1" ≡ "") ⊎ (id ≡ strip "r-1"))
    × IsServedAs answers id "x-correlation-id" hook [] idle
        (correlate 3 "x-correlation-id" ("x-request-id" ∷ []) "u" answers hook [] idle)
correlate-Correlated_example =
    correlate-Correlated answers 3 "x-correlation-id" "x-request-id" "r-1" [] "u" hook [] idle refl
      (ne_of_test "u" "" refl) refl tt

secure-Secured_example :
    Secured answers 3
      (some verify_token)
      hook
      []
      idle
      (secure 3 true (some verify_token) answers hook [] idle)
secure-Secured_example = secure-Secured answers 3 (some verify_token) hook [] idle refl

undecoded :
    secure 3 true
      (some verify_token)
      answers
      (record hook { headers = ("authorization", none) ∷ [] })
      []
      idle
    ≡ record { sent = []; state = idle; ended = raised 3 }
unfolding secure
undecoded = refl

abbrev extra : List (String × String)
extra = ("x-frame-options", "DENY") ∷ []

-- The world counts requests as ones, latencies as tens and errors as hundreds.
abbrev metrics : Metrics ℕ
metrics = record {
  add_request = λ method path status w. w + 1;
  record_latency = λ method path w. w + 10;
  add_error = λ method path w. w + 100;
}

abbrev breaks : App ℕ ℕ ℕ
breaks scope received s = record {
  sent = Message.start 503 [] ∷ [];
  state = s;
  ended = returned tt;
}

metered :
    ((meter metrics answers hook [] idle).state.world ≡ 12)
    × ((meter metrics breaks hook [] idle).state.world ≡ 111)
    × ((meter metrics fails hook [] idle).state.world ≡ 11)
unfolding meter captured
metered = (refl, refl, refl)

abbrev quota : Quota
quota = record { key = "q"; limit = 1; window_seconds = 10 }

-- an application of which only the calls count
abbrev silent : App ℕ ℕ (World (Unit {0}))
silent scope received s = record { sent = []; state = s; ended = returned tt }

abbrev counted : State ℕ (World (Unit {0}))
counted = record {
  tenant = none;
  principal = none;
  request = none;
  world = record { buckets = ("q:c", (0, 5)) ∷ []; calls = 0; rest = tt };
}

abbrev same_client : Scope → String
same_client scope = "c"

abbrev requests : List Request
requests = (6, hook, []) ∷ (7, hook, []) ∷ (16, hook, []) ∷ []

calls_bounded_example :
    (serve 1 quota same_client silent requests counted).world.calls + 0
    ≤ 2 * quota.limit + counted.world.calls
unfolding bucket_key
calls_bounded_example =
    calls_bounded 1 quota same_client "c" silent requests counted 2 0 5 20
      (λ scope received s. (refl, refl)) (refl, refl, (refl, refl, (refl, refl, tt))) (omega arith)
      (omega arith) (omega arith) refl

guard_webhooks-joined_example :
    guard_webhooks digest 9 3 "/webhooks" "x-hub-signature-256" answers hook
      (messages ("" ∷ "X" ∷ []) "" ++ [])
      idle
    ≡ (if strip " sha256=aXb " =? string_append "sha256=" (digest (joined ("" ∷ "X" ∷ []) ""))
        then answers hook (record { body = joined ("" ∷ "X" ∷ []) ""; more_body = false } ∷ []) idle
        else refuse 401 (Body.raw "{\"detail\":\"Invalid or missing webhook signature\"}") idle)
unfolding strip is_ascii
guard_webhooks-joined_example =
    guard_webhooks-joined digest 9 3 answers "/webhooks" "x-hub-signature-256" "" " sha256=aXb "
      ("" ∷ "X" ∷ []) [] hook idle refl refl refl refl

abbrev foreign : Scope
foreign = record hook { headers = ("x-hub-signature-256", none) ∷ [] }

webhook_passes :
    guard_webhooks digest 9 3 "/webhooks" "x-hub-signature-256" answers hook
      (messages ("X" ∷ []) "")
      idle
    ≡ record {
      sent = Message.start 200 [] ∷ Message.body (Body.raw "X") ∷ [];
      state = record idle { world = 1 };
      ended = returned tt;
    }
unfolding guard_webhooks buffer verify strip is_ascii first_body
webhook_passes = refl
