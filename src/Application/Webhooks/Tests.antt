-- ===== src/Application/Webhooks/Tests.antt =====
-- Deliveries at concrete answers, and the theorem there.
use python_commons.Base.{ℕ, zero, suc, ◌≡◌, ◌≢◌, refl, string_eq, true, false, none, some, [], ◌∷◌}
use python_commons.Outcome.{Outcome, returned, raised, cancelled}
use python_commons.Application.Webhooks.{
  WebhookEndpoint, WebhookDispatcher, matches, find_by_event, deliver, deliver_from,
}
use python_commons.Application.Webhooks.Deliveries.{Delivers, deliver-Delivers}

abbrev shop : WebhookEndpoint
shop = record { url = "https://shop"; events = "paid" ∷ []; enabled = true; id = "1" }

abbrev audit : WebhookEndpoint
audit = record { url = "https://audit"; events = []; enabled = true; id = "2" }

abbrev off : WebhookEndpoint
off = record audit { enabled = false; id = "3" }

find_runs : find_by_event "sent" (("1", shop) ∷ ("2", audit) ∷ ("3", off) ∷ []) ≡ audit ∷ []
unfolding find_by_event matches
find_runs = refl

abbrev dispatcher : WebhookDispatcher ℕ
dispatcher = record { max_retries = 3; retry_on = 500 ∷ 503 ∷ []; http_error = λ s. s }

-- the first attempt times out, and the second is answered
abbrev post : ℕ → Outcome ℕ ℕ
post (suc zero) = raised 7
post _ = returned 200

deliver_runs :
    deliver dispatcher post shop "paid"
    ≡ some (record {
      endpoint_id = "1";
      event_type = "paid";
      http_status = some 200;
      attempts = 2;
      last_error = none;
    })
unfolding deliver deliver_from
deliver_runs = refl

-- With no retries nothing is sent, and the record has no error.
never_sent :
    deliver (record dispatcher { max_retries = 0 }) post shop "paid"
    ≡ some (record {
      endpoint_id = "1";
      event_type = "paid";
      http_status = none;
      attempts = 0;
      last_error = none;
    })
unfolding deliver deliver_from
never_sent = refl

post_ends : (i : ℕ) → post i ≢ cancelled
post_ends zero e = cc
post_ends (suc zero) e = cc
post_ends (suc (suc i)) e = cc

deliver-Delivers_example : Delivers dispatcher post 1 3 (deliver dispatcher post shop "paid")
deliver-Delivers_example = deliver-Delivers dispatcher post shop "paid" 2 refl post_ends
