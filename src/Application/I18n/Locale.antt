-- ===== src/Application/I18n/Locale.antt =====
-- `Locale` and `LocaleContext`. `is_decimal` is what `\d` matches in a text, the characters of
-- Unicode's category Nd, a table of the interpreter.
mod Letters
mod Captures
pub mod RoundTrip
use python_commons.Base.{
  ℕ, zero, suc, Bool, true, false, ◌&&◌, ◌||◌, not, Option, none, some, List, [], ◌∷◌, ◌++◌, map,
  ◌==◌, leb, if◌then◌else◌, length, drop,
}
use python_commons.Application.I18n.Text.{Text, strip, is_letter, to_lower, to_upper, same_text}

pub record Locale : Type 0 where
  pub language : Text
  pub territory : Option Text

-- `str(locale)`
unfoldable pub print_locale : Locale → Text
print_locale l = elim l.territory [ none ↦ l.language | some t ↦ l.language ++ (b'-' ∷ t) ]

unfoldable pub default_locale : Locale
default_locale = record { language = b'e' ∷ b'n' ∷ []; territory = none }

unfoldable pub babel_str : Locale → Text
babel_str l = elim l.territory [ none ↦ l.language | some t ↦ l.language ++ (b'_' ∷ t) ]

-- The letters that `[a-zA-Z]{2,8}` takes, at most `n`; it cannot give one back, since no letter
-- may stand behind it.
unfoldable pub leading_letters : ℕ → Text → Text
unfolding is_letter
leading_letters zero s = []
leading_letters (suc n) [] = []
leading_letters (suc n) (c ∷ s) =
    let rest = c ∷ leading_letters n s in if is_letter c then rest else []

-- `[_-]`
unfoldable pub is_separator : ℕ → Bool
is_separator c = (c == b'_') || (c == b'-')

-- `.+$` at the end of a stripped text: `.` matches no line feed
one_line : Text → Bool
one_line [] = true
one_line (c ∷ s) = not (c == 10) && one_line s

-- `(?:[_-].+)?$`
unfoldable pub matches_rest : Text → Bool
unfolding is_separator one_line
matches_rest [] = true
matches_rest (c ∷ []) = false
matches_rest (c ∷ d ∷ s) = is_separator c && one_line (d ∷ s)

-- `value or d`, where no value is false
unfoldable pub value_or {ℓ} : {A : Type ℓ} → A → Option A → A
value_or d none = d
value_or d (some a) = a

module _ (is_decimal : ℕ → Bool) where
  -- `[a-zA-Z]{2}` with what must stand behind it
  two_letters : Text → Option Text
  unfolding is_letter matches_rest
  two_letters (a ∷ b ∷ s) =
      if is_letter a && is_letter b && matches_rest s then some (a ∷ b ∷ []) else none
  two_letters _ = none

  -- `\d{3}`
  three_digits : Text → Option Text
  unfolding matches_rest
  three_digits (a ∷ b ∷ c ∷ s) =
      if is_decimal a && is_decimal b && is_decimal c && matches_rest s
      then some (a ∷ b ∷ c ∷ [])
      else none
  three_digits _ = none

  -- the territory, if there is one, of what stands behind the language
  unfoldable pub territory_of : Text → Option Text
  unfolding two_letters three_digits is_separator
  territory_of [] = none
  territory_of (c ∷ s) =
      if is_separator c
      then elim (two_letters s) [ some t ↦ some t | none ↦ three_digits s ]
      else none

  -- the groups that the expression captures, from the letters and what stands behind them
  captured : Text → Text → Option (Text × Option Text)
  unfolding territory_of matches_rest
  captured language behind =
      if leb 2 (length language)
      then elim (territory_of behind) [
        | some t ↦ some (language, some t)
        | none ↦ if matches_rest behind then some (language, none) else none
      ]
      else none

  unfoldable pub match_tag : Text → Option (Text × Option Text)
  unfolding leading_letters captured
  match_tag s = let language = leading_letters 8 s in captured language (drop (length language) s)

  located : Option (Text × Option Text) → Option Locale
  unfolding to_lower to_upper
  located none = none
  located (some (language, none)) =
      some (record { language = map to_lower language; territory = none })
  located (some (language, some t)) =
      some (record { language = map to_lower language; territory = some (map to_upper t) })

  -- `Locale.parse`, with nothing where it raises `ValueError`
  unfoldable pub parse : Text → Option Locale
  unfolding strip match_tag located
  parse tag = located (match_tag (strip tag))

same_territory : Option Text → Option Text → Bool
unfolding same_text
same_territory none none = true
same_territory none (some t) = false
same_territory (some s) none = false
same_territory (some s) (some t) = same_text s t

-- `==` of the dataclass
unfoldable pub same_locale : Locale → Locale → Bool
unfolding same_text same_territory
same_locale l m = same_text l.language m.language && same_territory l.territory m.territory
