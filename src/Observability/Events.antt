-- ===== src/Observability/Events.antt =====
-- src/mp_commons/observability/events/emitter.py: `StructuredEvent`, `EventEmitter` and the wrapper of
-- `instrument`. A value of a plain dict is of one of the kinds that the code tells apart; `T` is
-- `datetime`, with its ISO texts as an argument. A duration is a value, and not looked into.
pub mod RoundTrip
mod Tests
use python_commons.Base.{
  ℕ, zero, suc, ltb, String, string_eq, ◌=?◌, Bool, true, false, Option, none, some, List, [], ◌∷◌,
  ◌++◌, any, length, if◌then◌else◌,
}
use python_commons.Dict.{Dict, lookup, insert}
use python_commons.Outcome.{Outcome, returned, raised, cancelled}

pub data Any (T V : Type 0) : Type 0 where
  null : Any T V
  num : ℕ → Any T V
  text : String → Any T V
  time : T → Any T V
  other : V → Any T V

pub record StructuredEvent (T V : Type 0) : Type 0 where
  pub name : Any T V
  pub service : Any T V
  pub timestamp : Any T V
  pub trace_id : Any T V
  pub duration_ms : Any T V
  pub fields : Dict String (Any T V)
  pub schema_version : ℕ

pub data EventError : Type 0 where
  schema_version : ℕ → EventError
  key : String → EventError
  value_error : EventError

-- What the code uses of Python: `isoformat` and `fromisoformat` of a time, `int` of a text or of
-- another value, and whether another value is falsy.
pub record Python (T V : Type 0) : Type 0 where
  pub isoformat : T → String
  pub fromisoformat : String → Option T
  pub int_of_text : String → Option ℕ
  pub int_of_other : V → Option ℕ
  pub is_falsy : V → Bool

abbrev pub current_schema_version : ℕ
current_schema_version = 1

abbrev pub reserved : List String
reserved = "schema_version" ∷ "name" ∷ "service" ∷ "timestamp" ∷ "trace_id" ∷ "duration_ms" ∷ []

abbrev pub is_reserved : String → Bool
is_reserved k = any (λ r. r =? k) reserved

module _ {T V : Type 0} where
  -- `{**base, **fields}`
  pub merge : Dict String (Any T V) → Dict String (Any T V) → Dict String (Any T V)
  merge base [] = base
  merge base ((k, v) ∷ fields) = merge (insert k v base) fields

  -- `fields` of `from_dict`
  pub unreserved : Dict String (Any T V) → Dict String (Any T V)
  unreserved [] = []
  unreserved ((k, v) ∷ d) = if is_reserved k then unreserved d else (k, v) ∷ unreserved d

  get_or : Any T V → Option (Any T V) → Any T V
  get_or v none = v
  get_or v (some w) = w

module _ {T V : Type 0} (py : Python T V) where
  -- `self.timestamp.isoformat()`; only a time has that method
  iso : Any T V → Option (Any T V)
  iso (time t) = some (text (py.isoformat t))
  iso v = none

  dict_of : StructuredEvent T V → Option (Any T V) → Outcome (Dict String (Any T V)) EventError
  unfolding merge
  dict_of e none = raised value_error
  dict_of e (some timestamp) = returned (
      merge
        (("schema_version", num e.schema_version)
          ∷ ("name", e.name)
          ∷ ("service", e.service)
          ∷ ("timestamp", timestamp)
          ∷ ("trace_id", e.trace_id)
          ∷ ("duration_ms", e.duration_ms)
          ∷ [])
        e.fields)

  unfoldable pub to_dict : StructuredEvent T V → Outcome (Dict String (Any T V)) EventError
  unfolding iso dict_of
  to_dict e = dict_of e (iso e.timestamp)

  -- `int`
  int : Any T V → Option ℕ
  int null = none
  int (num n) = some n
  int (text s) = py.int_of_text s
  int (time t) = none
  int (other v) = py.int_of_other v

  -- the timestamp of `from_dict`, with the time that it is now
  timestamp_of : T → Any T V → Option (Any T V)
  timestamp_of now null = some (time now)
  timestamp_of now (num zero) = some (time now)
  timestamp_of now (num (suc n)) = some (num (suc n))
  timestamp_of now (text s) = elim (py.fromisoformat s) [ none ↦ none | some t ↦ some (time t) ]
  timestamp_of now (time t) = some (time t)
  timestamp_of now (other v) = some (if py.is_falsy v then time now else other v)

  -- `cls(...)`, which fails if a key is missing
  event_of :
      Dict String (Any T V)
      → ℕ
      → Option (Any T V)
      → Option (Any T V)
      → Option (Any T V)
      → Outcome (StructuredEvent T V) EventError
  unfolding get_or unreserved
  event_of d version none name service = raised value_error
  event_of d version (some t) none service = raised (key "name")
  event_of d version (some t) (some name) none = raised (key "service")
  event_of d version (some t) (some name) (some service) = returned (record {
    name = name;
    service = service;
    timestamp = t;
    trace_id = get_or null (lookup "trace_id" d);
    duration_ms = get_or null (lookup "duration_ms" d);
    fields = unreserved d;
    schema_version = version;
  })

  versioned : T → Dict String (Any T V) → Option ℕ → Outcome (StructuredEvent T V) EventError
  unfolding event_of timestamp_of
  versioned now d none = raised value_error
  versioned now d (some version) =
      if ltb current_schema_version version
      then raised (EventError.schema_version version)
      else event_of d version (timestamp_of now (get_or null (lookup "timestamp" d)))
          (lookup "name" d) (lookup "service" d)

  unfoldable pub from_dict : T → Dict String (Any T V) → Outcome (StructuredEvent T V) EventError
  unfolding int versioned
  from_dict now d = versioned now d (int (get_or (num 1) (lookup "schema_version" d)))

-- `EventEmitter`: the buffer
module _ {A : Type 0} where
  unfoldable pub emit : A → List A → List A
  emit event buffer = buffer ++ (event ∷ [])

  unfoldable pub flush : List A → List A × ℕ
  flush buffer = ([], length buffer)

module _ {T V R X W : Type 0} where
  -- The wrapper of `instrument`, of a function that changes the world, between two readings of the
  -- clock whose difference is the duration.
  unfoldable pub instrument :
      (event_name service : Any T V) (now : T) (duration : Any T V)
      → (W → W × Outcome R X)
      → W
      → List (StructuredEvent T V)
      → W × Outcome R X × List (StructuredEvent T V)
  unfolding emit
  instrument event_name service now duration fn w buffer =
      let (w', o) = fn w in
      (
        w',
        o,
        emit
            (record {
              name = event_name;
              service = service;
              timestamp = time now;
              trace_id = null;
              duration_ms = duration;
              fields = [];
              schema_version = current_schema_version;
            })
            buffer,
      )
