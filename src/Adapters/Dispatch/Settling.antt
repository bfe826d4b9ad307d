-- ===== src/Adapters/Dispatch/Settling.antt =====
-- The loop of a dispatcher over a repository that keeps the laws.
use python_commons.Base.{
  ℕ, suc, ◌+◌, ◌≡◌, ◌≢◌, refl, sym, ◌∙◌, ap, subst, String, string_eq, Bool, true, false, none,
  some, List, [], ◌∷◌, All, if◌then◌else◌, arith,
}
use python_commons.Outcome.{Outcome, returned, raised, cancelled}
use python_commons.Kernel.Outbox.{
  OutboxStatus, OutboxRecord, OutboxRepository, Distinct, ids, RepositoryLaws,
}
use python_commons.Adapters.Dispatch.{
  Dispatched, resume, on_error, marked, published, dispatch_each,
}

-- The broker alone: each message is published once, in order. What is left is the broker and of
-- each record its id and whether the broker took its message.
abbrev pub is_taken : {T X : Type 0} → Outcome T X → Bool
is_taken (returned u) = true
is_taken (raised x) = false
is_taken cancelled = false

abbrev pub publish_all :
    {M W X : Type 0}
    → (M → W → W × Outcome (Unit {0}) X)
    → (OutboxRecord → M)
    → List OutboxRecord
    → W
    → W × List (String × Bool)
publish_all publish message [] w = (w, [])
publish_all publish message (r ∷ rs) w =
    let sent = publish (message r) w in
    let rest = publish_all publish message rs sent.0 in (rest.0, (r.id, is_taken sent.1) ∷ rest.1)

abbrev pub taken : List (String × Bool) → ℕ
taken [] = 0
taken ((id, b) ∷ es) = if b then suc (taken es) else taken es

count_one :
    (b : Bool) (count n : ℕ)
    → (if b then suc count else count) + n ≡ count + (if b then suc n else n)
count_one true count n = omega arith
count_one false count n = refl

abbrev pub status_for : Bool → OutboxStatus
status_for true = OutboxStatus.dispatched
status_for false = OutboxStatus.failed

module _ {M S W X : Type 0} (repository : OutboxRepository S X) (laws : RepositoryLaws repository)
    (publish : M → W → W × Outcome (Unit {0}) X)
    (never : (m : M) (w : W) → (publish m w).1 ≢ cancelled) (message : OutboxRecord → M)
    (error_text : X → String) where
  -- A run that returns, adding to the count the records that the broker took, and leaves the
  -- records of `results` with the statuses that say which those are, and no other changed.
  pub record Settled (names : List String) (count : ℕ) (s : S) (run : Dispatched S W X) (w : W)
      (results : List (String × Bool)) : Type 0 where
    pub ends : run.1 ≡ returned (count + taken results)
    pub world : run.0.1 ≡ w
    pub valid : laws.IsValid run.0.0
    pub statuses : All (λ e. laws.status_at e.0 run.0.0 ≡ some (status_for e.1)) results
    pub others :
        (id : String) → All (λ x. id ≢ x) names → laws.status_at id run.0.0 ≡ laws.status_at id s

  -- The records are known.
  abbrev pub Known : List OutboxRecord → S → Type 0
  Known rs s = All (λ r. laws.status_at r.id s ≢ none) rs

  mark-Known :
      (rs : List OutboxRecord) (s s' : S) (id : String)
      → All (λ x. id ≢ x) (ids rs)
      → ((other : String) → id ≢ other → laws.status_at other s' ≡ laws.status_at other s)
      → Known rs s
      → Known rs s'
  mark-Known [] s s' id d h k = tt
  mark-Known (r ∷ rs) s s' id (n, d) h (k, ks) =
      (subst (λ o. o ≢ none) (sym (h r.id n)) k, mark-Known rs s s' id d h ks)

  -- one record, marked, in front of the others
  settle_one :
      (id : String) (b : Bool) (names : List String) (count : ℕ) (s s' : S) (run : Dispatched S W X)
      (w : W) (results : List (String × Bool))
      → All (λ x. id ≢ x) names
      → laws.status_at id s' ≡ some (status_for b)
      → ((other : String) → id ≢ other → laws.status_at other s' ≡ laws.status_at other s)
      → Settled names (if b then suc count else count) s' run w results
      → Settled (id ∷ names) count s run w ((id, b) ∷ results)
  settle_one id b names count s s' run w results fresh own ne rest = record {
    ends = rest.ends ∙ ap returned (count_one b count (taken results));
    world = rest.world;
    valid = rest.valid;
    statuses = (rest.others id fresh ∙ own, rest.statuses);
    others = λ other h. rest.others other h.1 ∙ ne other (λ e. h.0 (sym e));
  }

  module _ (id : String) (names : List String) (continue : ℕ → S → W → Dispatched S W X) (count : ℕ)
      (s : S) (w w' : W) (results : List (String × Bool)) (fresh : All (λ x. id ≢ x) names)
      (known : laws.status_at id s ≢ none) where
    -- where the broker has refused the message
    on_error-Settled :
        (x : X)
        → (let s' = (repository.mark_failed id (error_text x) s).0 in
            Settled names count s' (continue count s' w) w' results)
        → Settled
            (id ∷ names)
            count
            s
            (on_error repository publish message error_text continue id count x s w)
            w'
            ((id, false) ∷ results)
    unfolding on_error resume
    on_error-Settled x rest =
        let marking = repository.mark_failed id (error_text x) s in
        subst
          (λ o.
            Settled (id ∷ names) count s
              (resume repository publish message error_text continue count w (marking.0, o)) w'
              ((id, false) ∷ results))
          (sym (laws.failed_returns id (error_text x) s))
          (settle_one id false names count s marking.0 (continue count marking.0 w) w' results fresh
            (laws.failed_self id (error_text x) s known)
            (λ other n. laws.failed_ne id (error_text x) other s n) rest)

    -- where it has taken the message
    marked-Settled :
        (let s' = (repository.mark_dispatched id s).0 in
          Settled names (suc count) s' (continue (suc count) s' w) w' results)
        → Settled
            (id ∷ names)
            count
            s
            (marked repository publish message error_text continue id count w
              (repository.mark_dispatched id s))
            w'
            ((id, true) ∷ results)
    unfolding marked
    marked-Settled rest =
        let marking = repository.mark_dispatched id s in
        subst
          (λ o.
            Settled (id ∷ names) count s
              (marked repository publish message error_text continue id count w (marking.0, o)) w'
              ((id, true) ∷ results))
          (sym (laws.dispatched_returns id s))
          (settle_one id true names count s marking.0 (continue (suc count) marking.0 w) w' results
            fresh (laws.dispatched_self id s known) (λ other n. laws.dispatched_ne id other s n)
            rest)

  -- One record: the rest of the loop is settled from wherever it goes on.
  published-Settled :
      (r : OutboxRecord) (rs : List OutboxRecord) (count : ℕ) (s : S)
      (sent : W × Outcome (Unit {0}) X)
      → sent.1 ≢ cancelled
      → laws.status_at r.id s ≢ none
      → laws.IsValid s
      → Known rs s
      → Distinct (r.id ∷ ids rs)
      → ((n : ℕ) (t : S)
          → laws.IsValid t
          → Known rs t
          → Settled
              (ids rs)
              n
              t
              (dispatch_each repository publish message error_text rs n t sent.0)
              (publish_all publish message rs sent.0).0
              (publish_all publish message rs sent.0).1)
      → Settled
          (r.id ∷ ids rs)
          count
          s
          (published repository publish message error_text
            (dispatch_each repository publish message error_text rs)
            r.id
            count
            s
            sent)
          (publish_all publish message rs sent.0).0
          ((r.id, is_taken sent.1) ∷ (publish_all publish message rs sent.0).1)
  unfolding published
  published-Settled r rs count s (w, returned tt) ne known v ks (fresh, d) rest =
      let t = (repository.mark_dispatched r.id s).0 in
      let loop = dispatch_each repository publish message error_text rs in
      marked-Settled r.id (ids rs) loop count s w _ _ fresh known (
        rest (suc count) t (laws.dispatched-IsValid r.id s v)
          (mark-Known rs s t r.id fresh (λ other n. laws.dispatched_ne r.id other s n) ks))
  published-Settled r rs count s (w, raised x) ne known v ks (fresh, d) rest =
      let t = (repository.mark_failed r.id (error_text x) s).0 in
      let loop = dispatch_each repository publish message error_text rs in
      on_error-Settled r.id (ids rs) loop count s w _ _ fresh known x (
        rest count t (laws.failed-IsValid r.id (error_text x) s v) (
          mark-Known rs s t r.id fresh (λ other n. laws.failed_ne r.id (error_text x) other s n)
            ks))
  published-Settled r rs count s (w, cancelled) ne known v ks d rest = absurd (ne refl)

  pub dispatch_each-Settled :
      (rs : List OutboxRecord) (count : ℕ) (s : S) (w : W)
      → laws.IsValid s
      → Known rs s
      → Distinct (ids rs)
      → Settled
          (ids rs)
          count
          s
          (dispatch_each repository publish message error_text rs count s w)
          (publish_all publish message rs w).0
          (publish_all publish message rs w).1
  unfolding dispatch_each
  dispatch_each-Settled [] count s w v ks d = record {
    ends = ap returned (omega arith);
    world = refl;
    valid = v;
    statuses = tt;
    others = λ id h. refl;
  }
  dispatch_each-Settled (r ∷ rs) count s w v (k, ks) (fresh, d) =
      let sent = publish (message r) w in
      published-Settled r rs count s sent (never (message r) w) k v ks (fresh, d)
        (λ n t vt kt. dispatch_each-Settled rs n t sent.0 vt kt d)
