-- ===== src/Application/Gdpr/Tests.antt =====
-- An erasure at concrete handlers, and the theorem there.
use python_commons.Base.{ℕ, ◌≡◌, refl, string_eq, true, false, none, some, List, [], ◌∷◌, ◌++◌}
use python_commons.Outcome.{returned, raised}
use python_commons.Application.Gdpr.{
  ErasureResult, Erasable, erase_loop, erase, consent_key, save, find,
}
use python_commons.Application.Gdpr.Erasure.{Reports, erase-Reports}

-- the world lists who has erased
abbrev fails : Erasable (List ℕ) ℕ
fails = record { scope = "mail"; erase = λ s w. (w, raised 1) }

abbrev erases : Erasable (List ℕ) ℕ
erases = record {
  scope = "orders";
  erase = λ s w. (2 ∷ w, returned (record { scope = "orders"; success = true; detail = none }));
}

erase_runs : erase (λ x. "error") (fails ∷ erases ∷ []) "u" [] [] ≡ (
  2 ∷ [],
  record {
    subject_id = "u";
    results =
        record { scope = "mail"; success = false; detail = some "error" }
        ∷ record { scope = "orders"; success = true; detail = none }
        ∷ [];
  }
      ∷ [],
)
unfolding erase erase_loop
erase_runs = refl

-- A consent of one subject is found for another whose id goes on where the first ends.
consent_shared :
    find "user" "7:mail"
      (save (record { subject_id = "user:7"; purpose = "mail"; granted = true }) [])
    ≡ some (record { subject_id = "user:7"; purpose = "mail"; granted = true })
unfolding find save consent_key
consent_shared = refl

erase-Reports_example :
    (rs : List ErasureResult) × Reports
      (λ x. "error")
      "u"
      (fails ∷ erases ∷ [])
      []
      rs
      (erase (λ x. "error") (fails ∷ erases ∷ []) "u" [] []).0
    × ((erase (λ x. "error") (fails ∷ erases ∷ []) "u" [] []).1
        ≡ ([] ++ (record { subject_id = "u"; results = rs } ∷ [])))
erase-Reports_example =
    erase-Reports (λ x. "error") (fails ∷ erases ∷ []) "u" [] [] ((λ w e. cc), ((λ w e. cc), tt))
