-- ===== src/Observability/Events/Tests.antt =====
-- Concrete events, and the theorems there.
use python_commons.Base.{ℕ, ◌+◌, ◌≡◌, refl, String, string_eq, false, none, some, [], ◌∷◌, arith}
use python_commons.Dict.{Dict}
use python_commons.Outcome.{returned, raised}
use python_commons.Observability.Events.{
  Any, StructuredEvent, EventError, Python, to_dict, from_dict, emit, flush, instrument, int, merge,
  unreserved, versioned, event_of, iso, dict_of, timestamp_of, get_or,
}
use python_commons.Observability.Events.RoundTrip.{from_dict-to_dict}

-- a time is its own text
abbrev py : Python String ℕ
py = record {
  isoformat = λ t. t;
  fromisoformat = λ s. some s;
  int_of_text = λ s. none;
  int_of_other = λ v. none;
  is_falsy = λ v. false;
}

abbrev event : StructuredEvent String ℕ
event = record {
  name = Any.text "paid";
  service = Any.text "shop";
  timestamp = Any.time "2024";
  trace_id = Any.null;
  duration_ms = Any.num 3;
  fields = ("amount", Any.other 5) ∷ [];
  schema_version = 1;
}

-- the same with a field that takes the place of the name
abbrev renamed : StructuredEvent String ℕ
renamed = record event { fields = ("name", Any.text "sold") ∷ [] }

abbrev renamed_dict : Dict String (Any String ℕ)
renamed_dict =
    ("schema_version", Any.num 1)
    ∷ ("name", Any.text "sold")
    ∷ ("service", Any.text "shop")
    ∷ ("timestamp", Any.text "2024")
    ∷ ("trace_id", Any.null)
    ∷ ("duration_ms", Any.num 3)
    ∷ []

name_lost :
    (to_dict py renamed ≡ returned renamed_dict)
    × (from_dict py "now" renamed_dict
        ≡ returned (record event { name = Any.text "sold"; fields = [] }))
unfolding to_dict from_dict iso dict_of merge int versioned event_of timestamp_of get_or unreserved
name_lost = (refl, refl)

newer_refused :
    from_dict py "now" (("schema_version", Any.num 2) ∷ []) ≡ raised (EventError.schema_version 2)
unfolding from_dict int versioned get_or
newer_refused = refl

flushed : flush {A = ℕ} (emit 2 (1 ∷ [])) ≡ ([], 2)
unfolding flush emit
flushed = refl

instrumented :
    (instrument {T = String} {V = ℕ} {R = ℕ} {X = ℕ}
      (Any.text "f")
      (Any.text "s")
      "now"
      (Any.num 1)
      (λ (w : ℕ). (w + 1, raised 9))
      0
      []).1
    ≡ raised 9
unfolding instrument
instrumented = refl

from_dict-to_dict_example :
    (d : Dict String (Any String ℕ)) × (to_dict py event ≡ returned d)
    × (from_dict py "now" d ≡ returned event)
from_dict-to_dict_example =
    from_dict-to_dict py event "2024" "now" (λ u. refl) refl (omega arith) (refl, tt) (refl, tt)
