-- ===== src/Adapters/Fastapi/Limits/Limited.antt =====
-- How many calls the rate limit lets through to an application.
use python_commons.Base.{
  ℕ, ◌+◌, ◌*◌, ◌≤◌, ◌<◌, ◌≡◌, refl, ap, String, string_eq, true, Bool-cases, inl, inr, some, List,
  [], ◌∷◌, map, arith, if◌then◌else◌,
}
use python_commons.Dict.{lookup}
use python_commons.Outcome.{Outcome, returned}
use python_commons.Application.RateLimit.{
  Quota, Buckets, RateLimitResult, bucket_key, check, is_allowed,
}
use python_commons.Application.RateLimit.Windows.{IsOrdered, checks, checks_bounded}
use python_commons.Adapters.Fastapi.{Scope, Received, State, App}
use python_commons.Adapters.Fastapi.Contexts.{is_http}
use python_commons.Adapters.Fastapi.Limits.{limited, checked, limit}

-- the limiter's buckets, the number of calls of the application, and the rest
pub record World (V : Type 0) : Type 0 where
  pub buckets : Buckets
  pub calls : ℕ
  pub rest : V

-- a request with its time
abbrev pub Request : Type 0
Request = ℕ × Scope × List Received

local_check : {V X : Type 0} → Quota → ℕ → String → World V → World V × Outcome RateLimitResult X
local_check quota now i w =
    let (buckets', result) = check quota i now w.buckets in
    (record w { buckets = buckets' }, returned result)

-- requests over HTTP of one client
abbrev pub FromClient : (Scope → String) → String → List Request → Type 0
FromClient identifier_fn i [] = Unit
FromClient identifier_fn i ((now, scope, received) ∷ rs) =
    (is_http scope.type ≡ true) × (identifier_fn scope ≡ i) × FromClient identifier_fn i rs

abbrev pub times : List Request → List ℕ
times rs = map (λ (now, scope, received). now) rs

module _ {P X V : Type 0} where
  -- the application that counts its calls
  counting : App P X (World V) → App P X (World V)
  counting app scope received s =
      app scope received (record s { world = record s.world { calls = s.world.calls + 1 } })

  -- An application that leaves the buckets and the counter alone.
  abbrev pub Leaves : App P X (World V) → Type 0
  Leaves app =
      (scope : Scope) (received : List Received) (s : State P (World V))
      → ((app scope received s).state.world.buckets ≡ s.world.buckets)
        × ((app scope received s).state.world.calls ≡ s.world.calls)

  module _ (second : ℕ) (quota : Quota) (identifier_fn : Scope → String) where
    -- a request behind the local limiter
    pub serve_one : App P X (World V) → Request → State P (World V) → State P (World V)
    unfolding local_check counting
    serve_one app (now, scope, received) s =
        (limit second now identifier_fn (local_check quota now) (counting app) scope received
          s).state

    -- requests one after another
    pub serve : App P X (World V) → List Request → State P (World V) → State P (World V)
    serve app [] s = s
    serve app (r ∷ rs) s = serve app rs (serve_one app r s)

    checked-counts :
        (app : App P X (World V)) (now : ℕ) (scope : Scope) (received : List Received)
        (s : State P (World V)) (buckets : Buckets) (result : RateLimitResult)
        → Leaves app
        → let p =
            checked second now
              (record s.world { buckets = buckets }, returned result)
              (counting app)
              scope
              received
              s in
          (p.state.world.buckets ≡ buckets)
          × (p.state.world.calls ≡ (if is_allowed result then 1 else 0) + s.world.calls)
    unfolding checked limited counting
    checked-counts app now scope received s buckets result leaves =
        elim (Bool-cases (is_allowed result)) [
          | inl e ↦
              let kept = leaves scope received (record s {
                world = record s.world { buckets = buckets; calls = s.world.calls + 1 };
              }) in
              rw e (kept.0, omega (arith, kept.1))
          | inr e ↦ rw e (refl, omega arith)
        ]

    serve_one-counts :
        (i : String) (app : App P X (World V)) (now : ℕ) (scope : Scope) (received : List Received)
        (s : State P (World V))
        → Leaves app
        → is_http scope.type ≡ true
        → identifier_fn scope ≡ i
        → let p = serve_one app (now, scope, received) s in
          let c = check quota i now s.world.buckets in
          (p.world.buckets ≡ c.0)
          × (p.world.calls ≡ (if is_allowed c.1 then 1 else 0) + s.world.calls)
    unfolding serve_one limit local_check
    serve_one-counts i app now scope received s leaves http same =
        let c = check quota i now s.world.buckets in
        rw (http, serve_one)
          (rw (same, serve_one) (checked-counts app now scope received s c.0 c.1 leaves))

    serve-counts :
        (i : String) (app : App P X (World V)) (rs : List Request) (s : State P (World V))
        → Leaves app
        → FromClient identifier_fn i rs
        → (serve app rs s).world.calls
          ≡ (checks quota i (times rs) s.world.buckets).0 + s.world.calls
    unfolding serve checks
    serve-counts i app [] s leaves from = omega arith
    serve-counts i app ((now, scope, received) ∷ rs) s leaves (http, same, from) =
        let (b, c) = serve_one-counts i app now scope received s leaves http same in
        let ih = serve-counts i app rs (serve_one app (now, scope, received) s) leaves from in
        let next = ap (λ buckets. (checks quota i (times rs) buckets).0) b in
        omega (arith, ih, next, c)

    -- Over any ordered requests over HTTP of a client, which end within `n` times `window_seconds` of
    -- the start of its window, a rate limit by the local limiter lets at most `n` times `limit` calls
    -- through to the application, the requests counted before included, if the window had counted no
    -- more than `limit` and the application leaves the buckets alone.
    pub calls_bounded :
        (i : String) (app : App P X (World V)) (rs : List Request) (s : State P (World V))
        (n count start until : ℕ)
        → Leaves app
        → FromClient identifier_fn i rs
        → IsOrdered start until (times rs)
        → until < start + n * quota.window_seconds
        → count ≤ quota.limit
        → lookup (bucket_key quota i) s.world.buckets ≡ some (count, start)
        → (serve app rs s).world.calls + count ≤ n * quota.limit + s.world.calls
    calls_bounded i app rs s n count start until leaves from o l c e =
        let bound = checks_bounded quota i (times rs) n count start until s.world.buckets o l c e in
        omega (arith, bound, serve-counts i app rs s leaves from)
