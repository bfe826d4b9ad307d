-- ===== src/Application/Inbox/Tests.antt =====
-- Runs of the processor at concrete inputs, and the theorems there.
use python_commons.Base.{ℕ, ◌≡◌, refl, String, string_eq, none, some, []}
use python_commons.Outcome.{returned, raised}
use python_commons.Application.Inbox.{InboxStatus, InboxRecord, load, is_duplicate, process, save}
use python_commons.Application.Inbox.Deliveries.{Delivery}

abbrev message : String → InboxRecord ℕ
message i = record {
  source = "kafka";
  event_type = "paid";
  payload = 7;
  id = i;
  received_at = 5;
  processed_at = none;
  status = InboxStatus.pending;
  error = none;
}

abbrev str : String → String
str x = x

abbrev done : Delivery ℕ String
done = (returned tt, 6, message "m1")

abbrev broken : Delivery ℕ String
broken = (raised "no handler", 6, message "m1")

process_saves :
    load "m1" (process str (returned tt) 6 (message "m1") []).records
    ≡ some (record (message "m1") { status = InboxStatus.processed; processed_at = some 6 })
unfolding process load save is_duplicate
process_saves = refl
