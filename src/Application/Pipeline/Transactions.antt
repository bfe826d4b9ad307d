-- ===== src/Application/Pipeline/Transactions.antt =====
-- The middlewares that act when the rest of the chain has ended: the unit of work, with
-- src/mp_commons/kernel/ddd/unit_of_work.py and the decorator of
-- src/mp_commons/application/uow/decorators.py, and the cache of queries.
pub mod Endings
use Prim.Native.String.{◌++◌}
use python_commons.Base.{ℕ, String, string_eq, Option, none, some}
use python_commons.Dict.{Dict, lookup}
use python_commons.Outcome.{Outcome, returned, raised, cancelled}
use python_commons.Application.Pipeline.{Kind, Request, Reply, Failure, Middleware}

-- `UnitOfWork`: a subclass gives `commit` and `rollback`, which can raise.
pub record UnitOfWork (X W : Type 0) : Type 0 where
  pub begin : W → W
  pub commit : W → W × Outcome (Unit {0}) (Failure X)
  pub rollback : W → W × Outcome (Unit {0}) (Failure X)

module _ {T X W : Type 0} where
  -- An `__aexit__` that returns leaves the end of the block as it is; one that does not replaces it.
  unless_failed :
      W × Outcome (Unit {0}) (Failure X) → Outcome T (Failure X) → W × Outcome T (Failure X)
  unless_failed (w, returned _) o = (w, o)
  unless_failed (w, raised x) o = (w, raised x)
  unless_failed (w, cancelled) o = (w, cancelled)

  -- `__aexit__`
  pub aexit : UnitOfWork X W → W × Outcome T (Failure X) → W × Outcome T (Failure X)
  unfolding unless_failed
  aexit u (w, returned r) = unless_failed (u.commit w) (returned r)
  aexit u (w, raised x) = unless_failed (u.rollback w) (raised x)
  aexit u (w, cancelled) = unless_failed (u.rollback w) cancelled

  -- `transactional`: the attribute may be missing
  unfoldable pub transactional :
      Option (UnitOfWork X W) → (W → W × Outcome T (Failure X)) → W → W × Outcome T (Failure X)
  unfolding aexit
  transactional none func w = func w
  transactional (some u) func w = aexit u (func (u.begin w))

-- `QueryCache`, and how results are pickled
pub record Cache (T B W : Type 0) : Type 0 where
  pub get : String → W → Option B
  pub set : String → B → ℕ → W → W
  pub dumps : T → B
  pub loads : B → T

-- `self._ttl_map.get(type(request), self._default_ttl)`
ttl_of : Dict String ℕ → ℕ → String → ℕ
ttl_of ttl_map default_ttl name = or_default (lookup name ttl_map)
  where
    or_default : Option ℕ → ℕ
    or_default none = default_ttl
    or_default (some t) = t

-- what `CachingMiddleware` does with a miss
fill :
    {R B X W : Type 0}
    → Cache (Reply R B) B W
    → String
    → ℕ
    → W × Outcome (Reply R B) (Failure X)
    → W × Outcome (Reply R B) (Failure X)
fill c key ttl (w, returned r) = (c.set key (c.dumps r) ttl w, returned r)
fill c key ttl p = p

-- the key of `CachingMiddleware`; `digest` is the hash of the request's fields
unfoldable pub cache_key : {P : Type 0} → (Request P → String) → Request P → String
cache_key digest q = "query:" ++ (q.name ++ (":" ++ digest q))

module _ {P R B X W : Type 0} where
  -- `UnitOfWorkMiddleware`: the handler finds the unit of work in the world
  unfoldable pub unit_of_work : UnitOfWork X W → Middleware P R B X W
  unfolding transactional
  unit_of_work u q next_ w = transactional (some u) (next_ q) w

  look_up : Cache (Reply R B) B W → String → ℕ → Option B → Middleware P R B X W
  unfolding fill
  look_up c key ttl (some b) q next_ w = (w, returned (c.loads b))
  look_up c key ttl none q next_ w = fill c key ttl (next_ q w)

  cache_by_kind : Cache (Reply R B) B W → String → ℕ → Kind → Middleware P R B X W
  unfolding look_up
  cache_by_kind c key ttl Kind.query q next_ w = look_up c key ttl (c.get key w) q next_ w
  cache_by_kind c key ttl _ q next_ w = next_ q w

  -- `CachingMiddleware`
  unfoldable pub caching :
      Cache (Reply R B) B W → (Request P → String) → Dict String ℕ → ℕ → Middleware P R B X W
  unfolding cache_by_kind ttl_of
  caching c digest ttl_map default_ttl q next_ w =
      cache_by_kind c (cache_key digest q) (ttl_of ttl_map default_ttl q.name) q.kind q next_ w
