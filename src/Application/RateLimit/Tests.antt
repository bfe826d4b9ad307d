-- ===== src/Application/RateLimit/Tests.antt =====
-- Runs of the limiter at concrete inputs, and the theorems there.
use python_commons.Base.{◌≡◌, refl, true, [], ◌∷◌}
use python_commons.Application.RateLimit.{
  Quota, Buckets, bucket_key, window, current, decide, check, reset, is_allowed,
  retry_after_seconds,
}

abbrev quota : Quota
quota = record { key = "search"; limit = 2; window_seconds = 10 }

-- "ann" has used one of her two requests in the window that began at 100.
abbrev buckets : Buckets
buckets = ("search:bob", (2, 95)) ∷ ("search:ann", (1, 100)) ∷ []

check_runs : is_allowed (check quota "ann" 104 buckets).1 ≡ true
unfolding check decide current window bucket_key is_allowed
check_runs = refl

retry_after_runs : retry_after_seconds (check quota "bob" 101 buckets).1 101 ≡ 4
unfolding check decide current window bucket_key retry_after_seconds
retry_after_runs = refl

reset_runs : is_allowed (check quota "bob" 101 (reset quota "bob" buckets)).1 ≡ true
unfolding check decide current window bucket_key is_allowed reset
reset_runs = refl
