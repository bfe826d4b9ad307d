-- ===== src/Resilience/RedisBreaker/Tests.antt =====
-- The breaker on a store in memory, and the theorems there.
use python_commons.Base.{
  ℕ, ◌+◌, refl, ltb, Bool, true, false, Option, none, some, List, [], ◌∷◌, arith, if◌then◌else◌,
  ◌==◌,
}
use python_commons.Outcome.{Outcome, returned}
use python_commons.Resilience.CircuitBreaker.{CircuitBreakerPolicy}
use python_commons.Resilience.RedisBreaker.{Keys}
use python_commons.Resilience.RedisBreaker.Automaton.{
  View, IsRedis, with_state, with_failures, with_opened_at, Command, fails, half_opens, locks,
  unlocks,
}
use python_commons.Resilience.RedisBreaker.Opening.{opened_with}

-- the values of the keys, and when the lock expires
abbrev Store : Type 0
Store = View × Option ℕ

abbrev free_at : Option ℕ → ℕ → Bool
free_at none now = true
free_at (some t) now = if ltb now t then false else true

abbrev keys : Keys Store
keys = record {
  state = record {
    get = λ r. r.0.state;
    set = λ s r. (with_state s r.0, r.1);
    delete = λ r. (record r.0 { state = none }, r.1);
  };
  failures = record {
    get = λ r. r.0.failures;
    set = λ n r. (with_failures n r.0, r.1);
    delete = λ r. (record r.0 { failures = none }, r.1);
  };
  opened_at = record {
    get = λ r. r.0.opened_at;
    set = λ t r. (with_opened_at (some t) r.0, r.1);
    delete = λ r. (with_opened_at none r.0, r.1);
  };
  set_probe_lock =
      λ ttl now r. if free_at r.1 now then ((r.0, some (now + ttl)), true) else (r, false);
  delete_probe_lock = λ r. (r.0, none);
}

keys-IsRedis : IsRedis keys
keys-IsRedis = record {
  set_state = λ s r. refl;
  set_failures = λ n r. refl;
  set_opened_at = λ t r. refl;
  delete_opened_at = λ r. refl;
  set_lock = λ ttl now r. ground arith;
  delete_lock = λ r. refl;
}

abbrev empty : Store
empty = (record { state = none; failures = none; opened_at = none }, none)

abbrev policy : CircuitBreakerPolicy ℕ
policy = record {
  failure_threshold = 3;
  success_threshold = 2;
  timeout_seconds = 30;
  window_seconds = 60;
  excluded_exceptions = λ e. e == 0;
}

abbrev answer : Outcome ℕ ℕ
answer = returned 8

abbrev opened : Store
opened = (opened_with 3 12, none)

commands : List Command
commands = fails 1 ∷ fails 2 ∷ fails 3 ∷ half_opens ∷ locks 5 40 ∷ fails 41 ∷ unlocks ∷ []
