-- ===== src/Application/RateLimit.antt =====
-- src/mp_commons/application/rate_limit: `Quota`, `RateLimitResult` and
-- `LocalTokenBucketRateLimiter`, which in spite of its name counts requests in fixed windows.
pub mod Windows
mod Tests
use Prim.Native.String.{◌++◌}
use python_commons.Base.{
  ℕ, ◌+◌, ◌-◌, String, string_eq, Bool, true, false, Option, none, some, leb, ltb, if◌then◌else◌,
}
use python_commons.Dict.{Dict, lookup, insert, erase}

pub record Quota : Type 0 where
  pub key : String
  pub limit : ℕ
  pub window_seconds : ℕ

pub data RateLimitDecision : Type 0 where
  allowed denied : RateLimitDecision

pub record RateLimitResult : Type 0 where
  pub decision : RateLimitDecision
  pub remaining : ℕ
  pub reset_at : ℕ
  pub quota : Quota

unfoldable pub is_allowed : RateLimitResult → Bool
is_allowed r = elim r.decision [ allowed ↦ true | denied ↦ false ]

unfoldable pub retry_after_seconds : RateLimitResult → ℕ → ℕ
retry_after_seconds r now = r.reset_at - now

-- the requests counted, and the start of the window
abbrev pub Window : Type 0
Window = ℕ × ℕ

abbrev pub Buckets : Type 0
Buckets = Dict String Window

unfoldable pub bucket_key : Quota → String → String
bucket_key quota identifier = quota.key ++ (":" ++ identifier)

-- `self._buckets.get(key, (0, now))`
unfoldable pub window : String → ℕ → Buckets → Window
window key now buckets = elim (lookup key buckets) [ none ↦ (0, now) | some w ↦ w ]

-- the reset of an expired window
unfoldable pub current : Quota → ℕ → Window → Window
current quota now (count, start) =
    if leb quota.window_seconds (now - start) then (0, now) else (count, start)

-- the decision in a window
unfoldable pub decide : Quota → Window → RateLimitResult
decide quota (count, start) =
    if ltb count quota.limit
    then record {
      decision = RateLimitDecision.allowed;
      remaining = quota.limit - count - 1;
      reset_at = start + quota.window_seconds;
      quota = quota;
    }
    else record {
      decision = RateLimitDecision.denied;
      remaining = 0;
      reset_at = start + quota.window_seconds;
      quota = quota;
    }

-- what `check` writes for the key: nothing on a denial, even if the window was reset
counted : Quota → String → Window → Buckets → Buckets
counted quota key (count, start) buckets =
    if ltb count quota.limit then insert key (count + 1, start) buckets else buckets

unfoldable pub check : Quota → String → ℕ → Buckets → Buckets × RateLimitResult
unfolding counted
check quota identifier now buckets =
    let key = bucket_key quota identifier in
    let w = current quota now (window key now buckets) in
    (counted quota key w buckets, decide quota w)

unfoldable pub reset : Quota → String → Buckets → Buckets
reset quota identifier buckets = erase (bucket_key quota identifier) buckets
