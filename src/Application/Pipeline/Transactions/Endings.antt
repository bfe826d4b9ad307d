-- ===== src/Application/Pipeline/Transactions/Endings.antt =====
-- What is committed and what is cached.
use python_commons.Base.{◌≡◌, refl, ap, ◌∙◌, String, none, some, ℕ}
use python_commons.Dict.{Dict}
use python_commons.Outcome.{Outcome, returned, raised, cancelled}
use python_commons.Application.Pipeline.{Kind, Request, Reply, Failure, Handler}
use python_commons.Application.Pipeline.Transactions.{
  UnitOfWork, unless_failed, aexit, transactional, unit_of_work, Cache, cache_key, ttl_of, fill,
  look_up, cache_by_kind, caching,
}

-- the view of the world is what it was, unless the call returned
abbrev pub KeptUnlessReturned : {T X W C : Type 0} → (W → C) → W → W × Outcome T X → Type 0
KeptUnlessReturned view w (w', returned _) = Unit
KeptUnlessReturned view w (w', raised _) = view w' ≡ view w
KeptUnlessReturned view w (w', cancelled) = view w' ≡ view w

-- what a unit of work promises of the committed part of the world: only a commit that returns
-- changes it
pub record IsTransactional {X W C : Type 0} (committed : W → C) (u : UnitOfWork X W) : Type 0 where
  pub begin_keeps : (w : W) → committed (u.begin w) ≡ committed w
  pub rollback_keeps : (w : W) → committed (u.rollback w).0 ≡ committed w
  pub commit_keeps : (w : W) → KeptUnlessReturned committed w (u.commit w)

-- The end of a block: if it returned, the handler had returned the same and the commit has
-- returned; if it did not, nothing is committed.
abbrev pub IsAtomic :
    {T X W C : Type 0}
    → (W → C)
    → UnitOfWork X W
    → W
    → W × Outcome T (Failure X)
    → W × Outcome T (Failure X)
    → Type 0
IsAtomic committed u w (v, o) (w', returned r) = (o ≡ returned r) × (u.commit v ≡ (w', returned tt))
IsAtomic committed u w p (w', raised _) = committed w' ≡ committed w
IsAtomic committed u w p (w', cancelled) = committed w' ≡ committed w

module _ {X W C : Type 0} (committed : W → C) (u : UnitOfWork X W) where
  aexit-returned :
      {T : Type 0} (w v : W) (r : T) (p : W × Outcome (Unit {0}) (Failure X))
      → u.commit v ≡ p
      → committed v ≡ committed w
      → KeptUnlessReturned committed v p
      → IsAtomic committed u w (v, returned r) (unless_failed p (returned r))
  unfolding unless_failed
  aexit-returned w v r (w', returned tt) e kept k = (refl, e)
  aexit-returned w v r (w', raised x) e kept k = k ∙ kept
  aexit-returned w v r (w', cancelled) e kept k = k ∙ kept

  aexit-raised :
      (T : Type 0) (w v : W) (x : Failure X) (p : W × Outcome (Unit {0}) (Failure X))
      → committed p.0 ≡ committed w
      → IsAtomic {T = T} committed u w (v, raised x) (unless_failed p (raised x))
  unfolding unless_failed
  aexit-raised T w v x (w', returned _) k = k
  aexit-raised T w v x (w', raised _) k = k
  aexit-raised T w v x (w', cancelled) k = k

  aexit-cancelled :
      (T : Type 0) (w v : W) (p : W × Outcome (Unit {0}) (Failure X))
      → committed p.0 ≡ committed w
      → IsAtomic {T = T} committed u w (v, cancelled) (unless_failed p cancelled)
  unfolding unless_failed
  aexit-cancelled T w v (w', returned _) k = k
  aexit-cancelled T w v (w', raised _) k = k
  aexit-cancelled T w v (w', cancelled) k = k

  aexit-IsAtomic :
      {T : Type 0} (w : W) (p : W × Outcome T (Failure X))
      → IsTransactional committed u
      → committed p.0 ≡ committed w
      → IsAtomic committed u w p (aexit u p)
  unfolding aexit
  aexit-IsAtomic w (v, returned r) t k = aexit-returned w v r (u.commit v) refl k (t.commit_keeps v)
  aexit-IsAtomic w (v, raised x) t k = aexit-raised _ w v x (u.rollback v) (t.rollback_keeps v ∙ k)
  aexit-IsAtomic w (v, cancelled) t k =
      aexit-cancelled _ w v (u.rollback v) (t.rollback_keeps v ∙ k)

module _ {P R B X W C : Type 0} (committed : W → C) (u : UnitOfWork X W) where
  -- If only a commit that returns changes what is committed, and the handler itself does not, then
  -- a request in a unit of work that returns has returned from the handler and been committed after
  -- it, and one that raises or is cancelled leaves what is committed as it was, also when the
  -- commit or the rollback raises.
  pub unit_of_work-IsAtomic :
      (q : Request P) (h : Handler P R B X W) (w : W)
      → IsTransactional committed u
      → ((v : W) → committed (h q v).0 ≡ committed v)
      → IsAtomic committed u w (h q (u.begin w)) (unit_of_work u q h w)
  unfolding unit_of_work transactional
  unit_of_work-IsAtomic q h w t keeps =
      aexit-IsAtomic committed u w (h q (u.begin w)) t (keeps (u.begin w) ∙ t.begin_keeps w)

-- what a cache is to do for the entry of a key, until it expires
pub record IsCache {T B W : Type 0} (c : Cache T B W) : Type 0 where
  pub get-set : (k : String) (b : B) (ttl : ℕ) (w : W) → c.get k (c.set k b ttl w) ≡ some b
  pub loads-dumps : (r : T) → c.loads (c.dumps r) ≡ r

module _ {P R B X W : Type 0} (c : Cache (Reply R B) B W) (digest : Request P → String) where
  get-fill :
      (k : String) (ttl : ℕ) (r : Reply R B) (p : W × Outcome (Reply R B) (Failure X))
      → IsCache c
      → p.1 ≡ returned r
      → (c.get k (fill c k ttl p).0 ≡ some (c.dumps r)) × ((fill c k ttl p).1 ≡ returned r)
  unfolding fill
  get-fill k ttl r (w, o) l e = rw (e, fill) (l.get-set k (c.dumps r) ttl w, refl)

  -- While the cache keeps the entry, a query whose key was not cached and whose handler has
  -- returned is answered with the same result without running a handler, for every request of
  -- the key.
  pub caching-hit :
      (ttl_map : Dict String ℕ) (ttl : ℕ) (q q' : Request P) (g h : Handler P R B X W) (w v : W)
      → (r : Reply R B) → IsCache c
      → q.kind ≡ Kind.query
      → q'.kind ≡ Kind.query
      → cache_key digest q' ≡ cache_key digest q
      → c.get (cache_key digest q) w ≡ none
      → (h q w).1 ≡ returned r
      → c.get (cache_key digest q) v
        ≡ c.get (cache_key digest q) (caching c digest ttl_map ttl q h w).0
      → ((caching c digest ttl_map ttl q h w).1 ≡ returned r)
        × (caching c digest ttl_map ttl q' g v ≡ (v, returned r))
  unfolding caching cache_by_kind look_up
  caching-hit ttl_map ttl q q' g h w v r l kind kind' same fresh ret kept =
      let k = cache_key digest q in
      let t = ttl_of ttl_map ttl q.name in
      let first : caching c digest ttl_map ttl q h w ≡ fill c k t (h q w) =
        ap (λ i. cache_by_kind c k t i q h w) kind ∙ ap (λ o. look_up c k t o q h w) fresh in
      let filled = get-fill k t r (h q w) l ret in
      let hit = ap (λ j. c.get j v) same ∙ kept ∙ ap (λ p. c.get k p.0) first ∙ filled.0 in
      (
        ap (λ p. p.1) first ∙ filled.1,
        ap (λ i. cache_by_kind c (cache_key digest q') (ttl_of ttl_map ttl q'.name) i q' g v) kind'
            ∙ ap (λ o. look_up c (cache_key digest q') (ttl_of ttl_map ttl q'.name) o q' g v) hit
            ∙ ap (λ x. (v, returned x)) (l.loads-dumps r),
      )
