-- ===== src/Application/I18n/Locale/Captures.antt =====
-- What the expression of a locale captures.
use python_commons.Base.{
  ℕ, ◌≡◌, refl, sym, subst, Bool, true, ◌&&◌, Bool-cases, Option, none, some, [], ◌∷◌, ◌⊎◌, inl,
  inr, if◌then◌else◌, length, drop, leb, leb→le,
}
use mathlib.Core.Option.{some-injective, some-ne-none}
use python_commons.Application.I18n.Text.{Text, is_letter}
use python_commons.Application.I18n.Locale.{
  leading_letters, is_separator, matches_rest, two_letters, three_digits, territory_of, captured,
  match_tag,
}
use python_commons.Application.I18n.Locale.Letters.{
  IsLanguage, and_left, and_right, leading_letters-IsLetter, length-leading_letters,
}

module _ (is_decimal : ℕ → Bool) where
  -- two letters or three decimals
  abbrev pub IsTerritory : Text → Type 0
  IsTerritory t =
      ((a b : ℕ) × (t ≡ (a ∷ b ∷ [])) × (is_letter a ≡ true) × (is_letter b ≡ true))
      ⊎ ((a b c : ℕ) × (t ≡ (a ∷ b ∷ c ∷ []))
          × (is_decimal a ≡ true)
          × (is_decimal b ≡ true)
          × (is_decimal c ≡ true))

  -- an option that holds a territory if it holds a text
  abbrev Found : Option Text → Type 0
  Found o = (o ≡ none) ⊎ ((t : Text) × (o ≡ some t) × IsTerritory t)

  two_letters-Found : (s : Text) → Found (two_letters is_decimal s)
  unfolding two_letters
  two_letters-Found [] = inl refl
  two_letters-Found (a ∷ []) = inl refl
  two_letters-Found (a ∷ b ∷ s) = elim (Bool-cases (is_letter a && is_letter b && matches_rest s)) [
    | inl e ↦ inr (
      a ∷ b ∷ [],
      rw e refl,
      let letters = and_left _ _ e in inl (a, b, refl, and_left _ _ letters, and_right _ _ letters),
    )
    | inr e ↦ inl (rw e refl)
  ]

  three_digits-Found : (s : Text) → Found (three_digits is_decimal s)
  unfolding three_digits
  three_digits-Found [] = inl refl
  three_digits-Found (a ∷ []) = inl refl
  three_digits-Found (a ∷ b ∷ []) = inl refl
  three_digits-Found (a ∷ b ∷ c ∷ s) =
      elim (Bool-cases (is_decimal a && is_decimal b && is_decimal c && matches_rest s)) [
        | inl e ↦
            let digits = and_left _ _ e in
            inr (
              a ∷ b ∷ c ∷ [],
              rw e refl,
              inr (
                a,
                b,
                c,
                refl,
                and_left _ _ (and_left _ _ digits),
                and_right _ _ (and_left _ _ digits),
                and_right _ _ digits,
              ),
            )
        | inr e ↦ inl (rw e refl)
      ]

  or_digits-Found :
      (s : Text) (o : Option Text)
      → Found o
      → Found (elim o [ some t ↦ some t | none ↦ three_digits is_decimal s ])
  or_digits-Found s none f = three_digits-Found s
  or_digits-Found s (some t) f = f

  territory_of-Found : (s : Text) → Found (territory_of is_decimal s)
  unfolding territory_of
  territory_of-Found [] = inl refl
  territory_of-Found (c ∷ s) = elim (Bool-cases (is_separator c)) [
    | inl e ↦ rw e (or_digits-Found s (two_letters is_decimal s) (two_letters-Found s))
    | inr e ↦ inl (rw e refl)
  ]

  -- what holds of every tag that is matched
  abbrev pub Matched : Option (Text × Option Text) → Type 0
  Matched none = Unit
  Matched (some (w, none)) = IsLanguage w
  Matched (some (w, some t)) = IsLanguage w × IsTerritory t

  captured-Matched :
      (w behind : Text) (o : Option Text)
      → IsLanguage w
      → Found o
      → Matched (elim o [
        | some t ↦ some (w, some t)
        | none ↦ if matches_rest behind then some (w, none) else none
      ])
  captured-Matched w behind none l f = elim (Bool-cases (matches_rest behind)) [
    | inl e ↦ rw e l
    | inr e ↦ rw e tt
  ]
  captured-Matched w behind (some t) l (inl e) = absurd (some-ne-none t e)
  captured-Matched w behind (some t) l (inr (u, e, i)) =
      (l, subst IsTerritory (sym (some-injective _ _ e)) i)

  pub match_tag-Matched : (s : Text) → Matched (match_tag is_decimal s)
  unfolding match_tag captured
  match_tag-Matched s = elim (Bool-cases (leb 2 (length (leading_letters 8 s)))) [
    | inl e ↦ rw e (
        captured-Matched (leading_letters 8 s) (drop (length (leading_letters 8 s)) s) _
          (leading_letters-IsLetter 8 s, leb→le _ _ e, length-leading_letters 8 s)
          (territory_of-Found (drop (length (leading_letters 8 s)) s)))
    | inr e ↦ rw e tt
  ]
