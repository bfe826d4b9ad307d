-- ===== src/Application/Webhooks.antt =====
-- src/mp_commons/application/webhooks: `WebhookEndpoint`, `InMemoryWebhookEndpointStore` and
-- `WebhookDispatcher`. An attempt of a delivery is what `client.post` ends with, a status or an
-- exception; the signed body, which is the same in all attempts, is part of that argument.
-- Durations are left out.
pub mod Deliveries
mod Tests
use python_commons.Base.{
  ℕ, zero, suc, ◌+◌, String, string_eq, nat_eq, ◌=?◌, Bool, true, false, not, ◌&&◌, ◌||◌, Option,
  none, some, List, [], ◌∷◌, ◌++◌, any, if◌then◌else◌,
}
use python_commons.Dict.{Dict, insert, erase}
use python_commons.Outcome.{Outcome, returned, raised, cancelled}

pub record WebhookEndpoint : Type 0 where
  pub url : String
  pub events : List String
  pub enabled : Bool
  pub id : String

abbrev is_empty : List String → Bool
is_empty [] = true
is_empty (_ ∷ _) = false

-- `matches`
unfoldable pub matches : String → WebhookEndpoint → Bool
matches event_type ep =
    if not ep.enabled then false else is_empty ep.events || any (λ e. e =? event_type) ep.events

-- `InMemoryWebhookEndpointStore`
abbrev pub Endpoints : Type 0
Endpoints = Dict String WebhookEndpoint

matching : String → Endpoints → List WebhookEndpoint
matching event_type [] = []
matching event_type ((_, ep) ∷ rest) =
    if matches event_type ep then ep ∷ matching event_type rest else matching event_type rest

unfoldable pub find_by_event : String → Endpoints → List WebhookEndpoint
unfolding matching
find_by_event event_type endpoints = matching event_type endpoints

unfoldable pub save : WebhookEndpoint → Endpoints → Endpoints
save ep endpoints = insert ep.id ep endpoints

unfoldable pub remove : String → Endpoints → Endpoints
remove id endpoints = erase id endpoints

-- `E` is the text of an exception or of a status.
pub record WebhookDeliveryRecord (E : Type 0) : Type 0 where
  pub endpoint_id : String
  pub event_type : String
  pub http_status : Option ℕ
  pub attempts : ℕ
  pub last_error : Option E

pub record WebhookDispatcher (E : Type 0) : Type 0 where
  pub max_retries : ℕ
  pub retry_on : List ℕ
  pub http_error : ℕ → E  -- `f"HTTP {status}"`

module _ {E : Type 0} (d : WebhookDispatcher E) where
  -- `resp.status_code not in self._retry_on`
  pub is_final : ℕ → Bool
  is_final status = not (any (λ s. s =? status) d.retry_on)

-- how the loop goes on behind an attempt
pub data Attempted (E : Type 0) : Type 0 where
  delivered : WebhookDeliveryRecord E → Attempted E
  retries : WebhookDeliveryRecord E → E → Attempted E
  aborted : Attempted E

module _ {E : Type 0} (d : WebhookDispatcher E) where
  -- the body of the loop, of the record with its attempt counted
  attempt_once : WebhookDeliveryRecord E → Outcome ℕ E → Attempted E
  unfolding is_final
  attempt_once r (returned status) =
      if is_final d status
      then delivered (record r { http_status = some status; last_error = none })
      else retries (record r { http_status = some status }) (d.http_error status)
  attempt_once r (raised e) = retries r e
  attempt_once r cancelled = aborted

module _ {E : Type 0} where
  loop_on :
      Attempted E
      → (WebhookDeliveryRecord E → Option E → Option (WebhookDeliveryRecord E))
      → Option (WebhookDeliveryRecord E)
  loop_on (delivered r) rest = some r
  loop_on (retries r last_error) rest = rest r (some last_error)
  loop_on aborted rest = none

module _ {E : Type 0} (d : WebhookDispatcher E) (post : ℕ → Outcome ℕ E) where
  -- The loop of `_deliver`, with the attempts that are left and the next one; `none` is a
  -- cancellation.
  unfoldable pub deliver_from :
      ℕ → ℕ → WebhookDeliveryRecord E → Option E → Option (WebhookDeliveryRecord E)
  unfolding attempt_once loop_on
  deliver_from zero attempt r last_error = some (record r { last_error = last_error })
  deliver_from (suc left) attempt r last_error =
      loop_on (attempt_once d (record r { attempts = attempt }) (post attempt))
        (deliver_from left (suc attempt))

  -- `_deliver`
  unfoldable pub deliver : WebhookEndpoint → String → Option (WebhookDeliveryRecord E)
  deliver ep event_type =
      deliver_from d.max_retries 1
        (record {
          endpoint_id = ep.id;
          event_type = event_type;
          http_status = none;
          attempts = 0;
          last_error = none;
        })
        none

module _ {E : Type 0} (d : WebhookDispatcher E) (post : WebhookEndpoint → ℕ → Outcome ℕ E) where
  -- The loop of `dispatch`: the records, and whether it ran to its end. Each record goes into
  -- `delivery_log` and into the result.
  dispatch_to : String → List WebhookEndpoint → List (WebhookDeliveryRecord E) × Bool
  dispatch_to event_type [] = ([], true)
  dispatch_to event_type (ep ∷ eps) =
      let rest = dispatch_to event_type eps in
      elim (deliver d (post ep) ep event_type) [
        | none ↦ ([], false)
        | some r ↦ (r ∷ rest.0, rest.1)
      ]

  -- `dispatch`
  unfoldable pub dispatch : String → Endpoints → List (WebhookDeliveryRecord E) × Bool
  unfolding dispatch_to
  dispatch event_type endpoints = dispatch_to event_type (find_by_event event_type endpoints)
