-- ===== src/Application/I18n/Locale/RoundTrip.antt =====
-- Printing a locale that was read and reading it again.
use python_commons.Base.{
  ℕ, ◌≤◌, ◌≡◌, refl, sym, ◌∙◌, subst, ap, Bool, true, false, Option, none, some, [], ◌∷◌, ◌++◌, All,
  inl, inr, map, length, drop, le→leb, All-append,
}
use python_commons.Adapters.Fastapi.Text.{is_space}
use python_commons.Application.I18n.Text.{Text, strip, is_letter, to_lower, to_upper}
use python_commons.Application.I18n.Text.Strip.{IsSolid, strip_solid}
use python_commons.Application.I18n.Locale.{
  Locale, print_locale, parse, is_separator, matches_rest, two_letters, three_digits, territory_of,
  captured, match_tag, located,
}
use python_commons.Application.I18n.Locale.Letters.{
  IsLetter, IsLanguage, letter-IsSolid, upper-IsLetter, upper_idem, upper_other, dash-IsSolid,
  dash-letter, drop-leading_letters, leading_letters_whole, drop-append, drop-length, length-map,
  map_lower_idem, map_lower-IsLetter,
}
use python_commons.Application.I18n.Locale.Captures.{IsTerritory, Matched, match_tag-Matched}

module _ (is_decimal : ℕ → Bool) (plain : (c : ℕ) → is_decimal c ≡ true → is_letter c ≡ false)
    (solid : (c : ℕ) → is_decimal c ≡ true → is_space c ≡ false) where
  letters-IsSolid : (w : Text) → All IsLetter w → All IsSolid w
  letters-IsSolid [] a = tt
  letters-IsSolid (c ∷ w) (e, a) = (letter-IsSolid c e, letters-IsSolid w a)

  territory-IsSolid : (t : Text) → IsTerritory is_decimal t → All IsSolid t
  territory-IsSolid t (inl (a, b, e, i, j)) =
      subst (All IsSolid) (sym e) (letter-IsSolid a i, (letter-IsSolid b j, tt))
  territory-IsSolid t (inr (a, b, c, e, i, j, k)) =
      subst (All IsSolid) (sym e) (solid a i, (solid b j, (solid c k, tt)))

  upper-IsTerritory :
      (t : Text) → IsTerritory is_decimal t → IsTerritory is_decimal (map to_upper t)
  upper-IsTerritory t (inl (a, b, e, i, j)) =
      inl (to_upper a, to_upper b, ap (map to_upper) e, upper-IsLetter a i, upper-IsLetter b j)
  upper-IsTerritory t (inr (a, b, c, e, i, j, k)) = inr (
    a,
    b,
    c,
    rw e
        (rw (upper_other a (plain a i), upper_other b (plain b j), upper_other c (plain c k)) refl),
    i,
    j,
    k,
  )

  map_upper_idem : (t : Text) → map to_upper (map to_upper t) ≡ map to_upper t
  map_upper_idem [] = refl
  map_upper_idem (c ∷ t) = rw (upper_idem c, map_upper_idem t) refl

  digits_dash :
      (a b c : ℕ)
      → is_decimal a ≡ true
      → is_decimal b ≡ true
      → is_decimal c ≡ true
      → territory_of is_decimal (b'-' ∷ a ∷ b ∷ c ∷ []) ≡ some (a ∷ b ∷ c ∷ [])
  unfolding territory_of two_letters three_digits is_separator matches_rest
  digits_dash a b c i j k = rw (plain a i) (rw (i, j, k) refl)

  letters_dash :
      (a b : ℕ)
      → is_letter a ≡ true
      → is_letter b ≡ true
      → territory_of is_decimal (b'-' ∷ a ∷ b ∷ []) ≡ some (a ∷ b ∷ [])
  unfolding territory_of two_letters is_separator matches_rest
  letters_dash a b i j = rw (i, j) refl

  territory_of_dash :
      (t : Text) → IsTerritory is_decimal t → territory_of is_decimal (b'-' ∷ t) ≡ some t
  territory_of_dash t (inl (a, b, e, i, j)) =
      subst (λ u. territory_of is_decimal (b'-' ∷ u) ≡ some u) (sym e) (letters_dash a b i j)
  territory_of_dash t (inr (a, b, c, e, i, j, k)) =
      subst (λ u. territory_of is_decimal (b'-' ∷ u) ≡ some u) (sym e) (digits_dash a b c i j k)

  captured_nothing : (w : Text) → 2 ≤ length w → captured is_decimal w [] ≡ some (w, none)
  unfolding captured matches_rest territory_of
  captured_nothing w l = rw (le→leb _ _ l) refl

  captured_territory :
      (w t : Text)
      → 2 ≤ length w
      → IsTerritory is_decimal t
      → captured is_decimal w (b'-' ∷ t) ≡ some (w, some t)
  unfolding captured
  captured_territory w t l i = rw (le→leb _ _ l) (rw (territory_of_dash t i) refl)

  match_language : (w : Text) → IsLanguage w → match_tag is_decimal w ≡ some (w, none)
  unfolding match_tag
  match_language w (a, l, m) =
      ap (λ v. captured is_decimal v (drop (length v) w)) (leading_letters_whole 8 w a m)
      ∙ ap (captured is_decimal w) (drop-length w)
      ∙ captured_nothing w l

  match_territory :
      (w t : Text)
      → IsLanguage w
      → IsTerritory is_decimal t
      → match_tag is_decimal (w ++ (b'-' ∷ t)) ≡ some (w, some t)
  unfolding match_tag
  match_territory w t (a, l, m) i =
      ap (λ v. captured is_decimal v (drop (length v) (w ++ (b'-' ∷ t))))
        (drop-leading_letters 8 w t a m b'-' dash-letter)
      ∙ ap (captured is_decimal w) (drop-append w (b'-' ∷ t))
      ∙ captured_territory w t l i

  parse_language :
      (w : Text)
      → IsLanguage w
      → parse is_decimal w ≡ some (record { language = map to_lower w; territory = none })
  unfolding parse located
  parse_language w l =
      ap (λ s. located is_decimal (match_tag is_decimal s)) (strip_solid w (letters-IsSolid w l.0))
      ∙ ap (located is_decimal) (match_language w l)

  parse_territory :
      (w t : Text)
      → IsLanguage w
      → IsTerritory is_decimal t
      → parse is_decimal (w ++ (b'-' ∷ t))
        ≡ some (record { language = map to_lower w; territory = some (map to_upper t) })
  unfolding parse located
  parse_territory w t l i =
      ap (λ s. located is_decimal (match_tag is_decimal s))
        (strip_solid (w ++ (b'-' ∷ t)) (
          All-append IsSolid w (b'-' ∷ t) (letters-IsSolid w l.0)
            (dash-IsSolid, territory-IsSolid t i)))
      ∙ ap (located is_decimal) (match_territory w t l i)

  lower-IsLanguage : (w : Text) → IsLanguage w → IsLanguage (map to_lower w)
  lower-IsLanguage w (a, l, m) =
      (map_lower-IsLetter w a, rw (length-map to_lower w) l, rw (length-map to_lower w) m)

  -- what the locale prints is read as it
  abbrev ReadBack : Option Locale → Type 0
  ReadBack none = Unit
  ReadBack (some l) = parse is_decimal (print_locale l) ≡ some l

  located-ReadBack :
      (o : Option (Text × Option Text)) → Matched is_decimal o → ReadBack (located is_decimal o)
  unfolding located print_locale
  located-ReadBack none m = tt
  located-ReadBack (some (w, none)) m =
      parse_language (map to_lower w) (lower-IsLanguage w m) ∙ rw (map_lower_idem w) refl
  located-ReadBack (some (w, some t)) (m, i) =
      parse_territory (map to_lower w) (map to_upper t) (lower-IsLanguage w m)
        (upper-IsTerritory t i)
      ∙ rw (map_lower_idem w, map_upper_idem t) refl

  -- A locale that was read from a tag is printed as a tag from which it is read again, if decimals
  -- are neither letters nor spaces.
  pub parse-print_locale :
      (tag : Text) (l : Locale)
      → parse is_decimal tag ≡ some l
      → parse is_decimal (print_locale l) ≡ some l
  unfolding parse
  parse-print_locale tag l e = subst ReadBack e (
      located-ReadBack (match_tag is_decimal (strip tag))
        (match_tag-Matched is_decimal (strip tag)))
