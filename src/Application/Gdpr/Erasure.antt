-- ===== src/Application/Gdpr/Erasure.antt =====
-- An erasure asks every handler.
use python_commons.Base.{◌≡◌, ◌≢◌, refl, String, false, Option, none, some, List, [], ◌∷◌, ◌++◌}
use python_commons.Outcome.{Outcome, returned, raised, cancelled}
use python_commons.Application.Gdpr.{
  ErasureResult, DataErasedEvent, Erasable, reported, cons_report, erase_loop, logged, erase,
}

module _ {W X : Type 0} (str : X → String) where
  -- the report of a handler that has ended this way
  abbrev pub Reported : Erasable W X → Outcome ErasureResult X → ErasureResult → Type 0
  Reported h (returned r') r = r ≡ r'
  Reported h (raised x) r = r ≡ record { scope = h.scope; success = false; detail = some (str x) }
  Reported h cancelled r = ⊥

  -- The handlers were asked one after another, from one world to the other, and each has its
  -- report.
  abbrev pub Reports : String → List (Erasable W X) → W → List ErasureResult → W → Type 0
  Reports subject_id [] w [] w' = w' ≡ w
  Reports subject_id [] w (r ∷ rs) w' = ⊥
  Reports subject_id (h ∷ hs) w [] w' = ⊥
  Reports subject_id (h ∷ hs) w (r ∷ rs) w' =
      Reported h (h.erase subject_id w).1 r × Reports subject_id hs (h.erase subject_id w).0 rs w'

  -- no handler is cancelled
  abbrev pub Uncancelled : String → List (Erasable W X) → Type 0
  Uncancelled subject_id [] = Unit
  Uncancelled subject_id (h ∷ hs) =
      ((w : W) → (h.erase subject_id w).1 ≢ cancelled) × Uncancelled subject_id hs

  abbrev EndsWith : String → List (Erasable W X) → W → W × Option (List ErasureResult) → Type 0
  EndsWith subject_id hs w (w', none) = ⊥
  EndsWith subject_id hs w (w', some rs) = Reports subject_id hs w rs w'

  cons_report-EndsWith :
      (subject_id : String) (h : Erasable W X) (hs : List (Erasable W X)) (w w' : W)
      (o : Outcome ErasureResult X)
      → (p : W × Option (List ErasureResult)) → h.erase subject_id w ≡ (w', o)
      → o ≢ cancelled
      → EndsWith subject_id hs w' p
      → EndsWith subject_id (h ∷ hs) w (cons_report w' (reported str h o) p)
  unfolding cons_report reported
  cons_report-EndsWith subject_id h hs w w' (returned r) (v, some rs) e u k = rw e (refl, k)
  cons_report-EndsWith subject_id h hs w w' (raised x) (v, some rs) e u k = rw e (refl, k)
  cons_report-EndsWith subject_id h hs w w' cancelled p e u k = absurd (u refl)
  cons_report-EndsWith subject_id h hs w w' (returned r) (v, none) e u k = k
  cons_report-EndsWith subject_id h hs w w' (raised x) (v, none) e u k = k

  erase_loop-EndsWith :
      (subject_id : String) (hs : List (Erasable W X)) (w : W)
      → Uncancelled subject_id hs
      → EndsWith subject_id hs w (erase_loop str hs subject_id w)
  unfolding erase_loop
  erase_loop-EndsWith subject_id [] w u = refl
  erase_loop-EndsWith subject_id (h ∷ hs) w u =
      let (w', o) = h.erase subject_id w in
      cons_report-EndsWith subject_id h hs w w' o (erase_loop str hs subject_id w') refl (u.0 w)
        (erase_loop-EndsWith subject_id hs w' u.1)

  logged-Reports :
      (subject_id : String) (hs : List (Erasable W X)) (events : List DataErasedEvent) (w : W)
      (p : W × Option (List ErasureResult))
      → EndsWith subject_id hs w p
      → (rs : List ErasureResult) × Reports subject_id hs w rs (logged subject_id p events).0
        × ((logged subject_id p events).1
            ≡ (events ++ (record { subject_id = subject_id; results = rs } ∷ [])))
  unfolding logged
  logged-Reports subject_id hs events w (w', some rs) k = (rs, k, refl)
  logged-Reports subject_id hs events w (w', none) k = absurd k

  -- If no handler is cancelled, an erasure asks every handler once, in the order of their
  -- registration, whether earlier ones raise or not, and appends one event with a report of each:
  -- what it has returned, or a failure in its scope if it has raised.
  pub erase-Reports :
      (hs : List (Erasable W X)) (subject_id : String) (events : List DataErasedEvent) (w : W)
      → Uncancelled subject_id hs
      → (rs : List ErasureResult) × Reports subject_id hs w rs (erase str hs subject_id events w).0
        × ((erase str hs subject_id events w).1
            ≡ (events ++ (record { subject_id = subject_id; results = rs } ∷ [])))
  unfolding erase
  erase-Reports hs subject_id events w u =
      logged-Reports subject_id hs events w (erase_loop str hs subject_id w)
        (erase_loop-EndsWith subject_id hs w u)
