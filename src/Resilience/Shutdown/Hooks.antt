-- ===== src/Resilience/Shutdown/Hooks.antt =====
-- Which hooks a shutdown calls.
use mathlib.Core.List.{append_assoc}
use python_commons.Base.{
  ℕ, ◌+◌, ◌≤◌, ◌≡◌, subst, ◌-◌, refl, leb, leb→le, true, Bool-cases, ◌⊎◌, inl, inr, List, [], ◌∷◌,
  ◌++◌, map, reverse,
}
use python_commons.Outcome.{Outcome, returned, raised, cancelled}
use python_commons.Resilience.Shutdown.{Hook, GracefulShutdown, Drained, go_on, drain, run_hooks}

-- Of the hooks with these names those up to some one were called, and there is a reason for
-- the rest.
abbrev pub Drains : {W : Type 0} → (W → ℕ) → ℕ → List ℕ → Drained W → Type 0
Drains time deadline names d =
    (skipped : List ℕ) × (d.called ++ skipped ≡ names)
    × ((skipped ≡ []) ⊎ (d.was_cancelled ≡ true) ⊎ (deadline ≤ time d.world))

module _ {W X : Type 0} (time : W → ℕ) where
  go_on-Drains :
      (deadline : ℕ) (names : List ℕ) (o : Outcome (Unit {0}) X) (called rest : List ℕ) (w' : W)
      (d : Drained W)
      → called ++ rest ≡ names
      → Drains time deadline names d
      → Drains time deadline names
          (go_on o (record { world = w'; called = called; was_cancelled = true }) d)
  unfolding go_on
  go_on-Drains deadline names (returned _) called rest w' d e h = h
  go_on-Drains deadline names (raised _) called rest w' d e h = h
  go_on-Drains deadline names cancelled called rest w' d e h = (rest, e, inr (inl refl))

  drain-Drains :
      (deadline : ℕ) (hooks : List (Hook W X)) (called : List ℕ) (w : W)
      → Drains time deadline
          (called ++ map (λ h. h.name) hooks)
          (drain time deadline hooks called w)
  unfolding drain
  drain-Drains deadline [] called w = ([], refl, inl refl)
  drain-Drains deadline (hook ∷ hooks) called w =
      let names = map (λ h. h.name) hooks in
      let (w', o) = hook.call (deadline - time w) w in
      let split = append_assoc called (hook.name ∷ []) names in
      elim (Bool-cases (leb deadline (time w))) [
        | inl e ↦ rw e (hook.name ∷ names, refl, inr (inr (leb→le _ _ e)))
        | inr e ↦ rw e (
            go_on-Drains deadline (called ++ (hook.name ∷ names)) o (called ++ (hook.name ∷ []))
              names w' (drain time deadline hooks (called ++ (hook.name ∷ [])) w') split
              (subst
                (λ ns.
                  Drains time deadline ns
                    (drain time deadline hooks (called ++ (hook.name ∷ [])) w'))
                split (drain-Drains deadline hooks (called ++ (hook.name ∷ [])) w')))
      ]

  pub run_hooks-Drains :
      (s : GracefulShutdown W X) (w : W)
      → Drains time
          (time w + s.drain_timeout)
          (map (λ h. h.name) (reverse s.hooks))
          (run_hooks time s w)
  unfolding run_hooks
  run_hooks-Drains s w = drain-Drains (time w + s.drain_timeout) (reverse s.hooks) [] w
