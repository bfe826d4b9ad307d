-- ===== src/Adapters/Dispatch/Delivery.antt =====
-- What a dispatcher leaves in a repository that keeps the laws.
use mathlib.Core.Bool.{false≢true}
use python_commons.Base.{
  suc, ap, refl, length, ◌≤◌, ◌≡◌, ◌≢◌, sym, ◌∙◌, ap, subst, String, string_eq, Bool, true, false,
  Option, some, List, [], ◌∷◌, All, arith,
}
use mathlib.Core.Option.{some-ne-none, some-injective}
use python_commons.Outcome.{Outcome, returned, cancelled}
use python_commons.Kernel.Outbox.{OutboxStatus, OutboxRecord, OutboxRepository, ids, RepositoryLaws}
use python_commons.Adapters.Dispatch.{fetched, dispatch_pending}
use python_commons.Adapters.Dispatch.Settling.{
  publish_all, taken, status_for, Settled, Known, dispatch_each-Settled,
}

length-publish_all :
    {M W X : Type 0} (publish : M → W → W × Outcome (Unit {0}) X) (message : OutboxRecord → M)
    (rs : List OutboxRecord) (w : W)
    → length (publish_all publish message rs w).1 ≡ length rs
length-publish_all publish message [] w = refl
length-publish_all publish message (r ∷ rs) w =
    ap suc (length-publish_all publish message rs (publish (message r) w).0)

abbrev is_pending_status : OutboxStatus → Bool
is_pending_status OutboxStatus.pending = true
is_pending_status OutboxStatus.dispatched = false
is_pending_status OutboxStatus.failed = false

done-ne-pending : OutboxStatus.dispatched ≢ OutboxStatus.pending
done-ne-pending e = false≢true (ap is_pending_status e)

failed-ne-pending : OutboxStatus.failed ≢ OutboxStatus.pending
failed-ne-pending e = false≢true (ap is_pending_status e)

module _ {M S W X : Type 0} (repository : OutboxRepository S X) (laws : RepositoryLaws repository)
    (publish : M → W → W × Outcome (Unit {0}) X)
    (never : (m : M) (w : W) → (publish m w).1 ≢ cancelled) (message : OutboxRecord → M)
    (error_text : X → String) where
  pending-Known :
      (rs : List OutboxRecord) (s : S)
      → All (λ r. laws.status_at r.id s ≡ some OutboxStatus.pending) rs
      → Known repository laws publish never message error_text rs s
  pending-Known [] s a = tt
  pending-Known (r ∷ rs) s (e, a) =
      ((λ n. some-ne-none OutboxStatus.pending (sym e ∙ n)), pending-Known rs s a)

  dispatch_pending-Settled :
      (s : S) (w : W)
      → laws.IsValid s
      → (let rs = laws.pending_records 100 s in
          Settled repository laws publish never message error_text
            (ids rs)
            0
            s
            (dispatch_pending repository publish message error_text s w)
            (publish_all publish message rs w).0
            (publish_all publish message rs w).1)
  unfolding dispatch_pending fetched
  dispatch_pending-Settled s w v =
      let rs = laws.pending_records 100 s in
      subst
        (λ p.
          Settled repository laws publish never message error_text (ids rs) 0 s
            (fetched repository publish message error_text w p) (publish_all publish message rs w).0
            (publish_all publish message rs w).1)
        (sym (laws.get_pending_lem 100 s))
        (dispatch_each-Settled repository laws publish never message error_text rs 0 s w v
          (pending-Known rs s (laws.pending_records-pending 100 s v))
          (laws.pending_records-Distinct 100 s v))

  -- Over a repository that keeps the laws and a broker that is never cancelled, a dispatch
  -- publishes each of the at most 100 pending records once, in order, whichever fail, returns how
  -- many messages the broker has taken, and leaves those records dispatched and the others that
  -- were pending failed.
  pub dispatch_pending-Delivered :
      (s : S) (w : W)
      → laws.IsValid s
      → (let sent = publish_all publish message (laws.pending_records 100 s) w in
          let run = dispatch_pending repository publish message error_text s w in
          (length sent.1 ≤ 100)
          × (run.1 ≡ returned (taken sent.1))
          × (run.0.1 ≡ sent.0)
          × All (λ e. laws.status_at e.0 run.0.0 ≡ some (status_for e.1)) sent.1)
  dispatch_pending-Delivered s w v =
      let settled = dispatch_pending-Settled s w v in
      (
        subst (λ n. n ≤ 100)
            (sym (length-publish_all publish message (laws.pending_records 100 s) w))
            (laws.pending_records_bounded 100 s),
        settled.ends ∙ ap returned (omega arith),
        settled.world,
        settled.statuses,
      )

  -- A dispatch changes the status of no record that it has not fetched.
  pub dispatch_pending_others :
      (s : S) (w : W) (id : String)
      → laws.IsValid s
      → All (λ x. id ≢ x) (ids (laws.pending_records 100 s))
      → laws.status_at id (dispatch_pending repository publish message error_text s w).0.0
        ≡ laws.status_at id s
  dispatch_pending_others s w id v h = (dispatch_pending-Settled s w v).others id h

  not_pending :
      (b : Bool) (o : Option OutboxStatus) → o ≡ some (status_for b) → o ≢ some OutboxStatus.pending
  not_pending true o e h = done-ne-pending (some-injective _ _ (sym e ∙ h))
  not_pending false o e h = failed-ne-pending (some-injective _ _ (sym e ∙ h))

  id_apart :
      (id : String) (b : Bool) (s : S) (rs : List OutboxRecord)
      → laws.status_at id s ≡ some (status_for b)
      → All (λ r. laws.status_at r.id s ≡ some OutboxStatus.pending) rs
      → All (λ r. id ≢ r.id) rs
  id_apart id b s [] e a = tt
  id_apart id b s (r ∷ rs) e (p, a) = (
    (λ q.
        not_pending b (laws.status_at id s) e
          (subst (λ x. laws.status_at x s ≡ some OutboxStatus.pending) (sym q) p)),
    id_apart id b s rs e a,
  )

  ids_apart :
      (s : S) (rs : List OutboxRecord) (es : List (String × Bool))
      → All (λ r. laws.status_at r.id s ≡ some OutboxStatus.pending) rs
      → All (λ e. laws.status_at e.0 s ≡ some (status_for e.1)) es
      → All (λ e. All (λ r. e.0 ≢ r.id) rs) es
  ids_apart s rs [] a h = tt
  ids_apart s rs ((id, b) ∷ es) a (e, h) = (id_apart id b s rs e a, ids_apart s rs es a h)

  -- What a dispatch has published, whether the broker has taken it or not, is not published by a
  -- dispatch that follows.
  pub dispatch_pending-dispatch_pending :
      (s : S) (w : W)
      → laws.IsValid s
      → (let sent = publish_all publish message (laws.pending_records 100 s) w in
          let run = dispatch_pending repository publish message error_text s w in
          All (λ e. All (λ r. e.0 ≢ r.id) (laws.pending_records 100 run.0.0)) sent.1)
  dispatch_pending-dispatch_pending s w v =
      let settled = dispatch_pending-Settled s w v in
      let after = (dispatch_pending repository publish message error_text s w).0.0 in
      ids_apart after (laws.pending_records 100 after) _
        (laws.pending_records-pending 100 after settled.valid) settled.statuses
