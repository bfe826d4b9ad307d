-- ===== src/Application/I18n/Tests.antt =====
-- Concrete tags, headers and catalogues, and the theorems there.
use Prim.Native.String.{[] as empty, ◌∷◌ as prepend}
use Prim.Native.Char.{code}
use python_commons.Base.{
  ℕ, ◌+◌, ◌-◌, ◌*◌, ◌≡◌, refl, Bool, true, false, ◌&&◌, Option, none, some, List, [], ◌∷◌, String,
  leb, arith, ◌⊎◌, inl, inr, Bool-cases,
}
use python_commons.Outcome.{Outcome, returned}
use python_commons.Adapters.Fastapi.Text.{is_space}
use python_commons.Application.I18n.Text.{Text, is_letter}
use python_commons.Application.I18n.Text.Equality.{text_eq}
use python_commons.Application.I18n.Locale.{Locale, parse, print_locale, babel_str, value_or}
use python_commons.Application.I18n.Locale.RoundTrip.{parse-print_locale}
use python_commons.Application.I18n.Negotiation.{negotiate, served, candidates, serve_localised}
use python_commons.Application.I18n.Negotiation.Choice.{Optimal, negotiate-Optimal}
use python_commons.Application.I18n.Catalogues.{
  Files, Translator, key_or_value_error, get_translations, translate,
}

abbrev codes : String → Text
codes empty = []
codes (prepend c s) = code c ∷ codes s

-- the decimals of ASCII
abbrev ascii_decimal : ℕ → Bool
ascii_decimal c = leb b'0' c && leb c b'9'

abbrev locale : String → Locale
locale language = record { language = codes language; territory = none }

abbrev brazilian : Locale
brazilian = record { language = codes "pt"; territory = some (codes "BR") }

abbrev region : Locale
region = record { language = codes "es"; territory = some (codes "419") }

-- quality in tenths: `float` of the texts that stand here
abbrev read_tenths : Text → Option ℕ
read_tenths (a ∷ b ∷ c ∷ []) = some (c - b'0')
read_tenths (a ∷ []) = some ((a - b'0') * 10)
read_tenths _ = none

abbrev chosen : List Locale → String → Locale
chosen supported header =
    negotiate ascii_decimal leb read_tenths 0 10 supported (codes header) (locale "en")

parsed : parse ascii_decimal (codes " PT_br ") ≡ some brazilian
unfolding parse
parsed = refl

parsed_digits : parse ascii_decimal (codes "es-419-x") ≡ some region
unfolding parse
parsed_digits = refl

parsed_long : parse ascii_decimal (codes "en-USA") ≡ some (locale "en")
unfolding parse
parsed_long = refl

refused : parse ascii_decimal (codes "e") ≡ none
unfolding parse
refused = refl

refused_open : parse ascii_decimal (codes "en-") ≡ none
unfolding parse
refused_open = refl

by_quality : chosen (locale "en" ∷ locale "pt" ∷ []) "en;q=0.5,pt-BR;q=0.9" ≡ locale "pt"
unfolding negotiate
by_quality = refl

-- Of two candidates of one quality the later one of the alphabet comes first, not the first of the
-- header.
by_alphabet : chosen (locale "en" ∷ locale "fr" ∷ []) "en,fr" ≡ locale "fr"
unfolding negotiate
by_alphabet = refl

-- A locale of quality 0 is served before the default.
not_acceptable : chosen (locale "en" ∷ locale "fr" ∷ []) "fr;q=0,de" ≡ locale "fr"
unfolding negotiate
not_acceptable = refl

abbrev done : Outcome ℕ ℕ
done = returned 0

localised :
    serve_localised ascii_decimal leb read_tenths 0 10
      (locale "en" ∷ locale "fr" ∷ [])
      (λ l (w : List Locale). (locale "xx", l ∷ w, done))
      "http"
      (codes "fr")
      (locale "en")
      []
    ≡ (locale "en", locale "fr" ∷ [], done)
unfolding serve_localised
localised = refl

digit_not_letter : (c : ℕ) → ascii_decimal c ≡ true → is_letter c ≡ false
unfolding is_letter
digit_not_letter c e = ground (arith, e)

digit_not_space : (c : ℕ) → ascii_decimal c ≡ true → is_space c ≡ false
unfolding is_space
digit_not_space c e = ground (arith, e)

parse-print_locale_example : parse ascii_decimal (print_locale region) ≡ some region
unfolding parse
parse-print_locale_example =
    parse-print_locale ascii_decimal digit_not_letter digit_not_space (codes "es-419-x") region refl

leb_total : (q r : ℕ) → (leb q r ≡ true) ⊎ (leb r q ≡ true)
leb_total q r = elim (Bool-cases (leb q r)) [ inl e ↦ inl e | inr e ↦ inr (ground (arith, e)) ]

leb_trans : (q r s : ℕ) → leb q r ≡ true → leb r s ≡ true → leb q s ≡ true
leb_trans q r s e f = ground (arith, e, f)

negotiate-Optimal_example :
    (o : Option Locale) × (chosen (locale "en" ∷ locale "pt" ∷ []) "en;q=0.5,pt-BR;q=0.9"
      ≡ value_or (locale "en") o)
    × Optimal leb
        (served ascii_decimal (locale "en" ∷ locale "pt" ∷ []))
        (candidates read_tenths 0 10 (codes "en;q=0.5,pt-BR;q=0.9"))
        o
negotiate-Optimal_example =
    negotiate-Optimal leb leb_total leb_trans ascii_decimal read_tenths 0 10 (locale "en")
      (locale "pt" ∷ []) (codes "en;q=0.5,pt-BR;q=0.9") (locale "en")

-- files that count the questions; none has a catalogue
abbrev files : Files ℕ ℕ
files = record { has_file = λ l w. (w + 1, false); load = λ l w. (w + 1, 7) }

abbrev translator : Translator ℕ ℕ
translator = record { files = some files; cache = [] }

abbrev asked : Translator ℕ ℕ
asked = record { files = some files; cache = (codes "pt_BR", none) ∷ [] }

first_answer : get_translations brazilian translator 0 ≡ (asked, 2, none)
unfolding get_translations babel_str
first_answer = refl

untranslated :
    (translate {X = ℕ}
      (λ c s. s)
      (some (λ s. key_or_value_error))
      (codes "hi")
      (some brazilian)
      (locale "en")
      translator
      0).2
    ≡ inl (codes "hi")
unfolding translate babel_str
untranslated = refl
