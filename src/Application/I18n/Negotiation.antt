-- ===== src/Application/I18n/Negotiation.antt =====
-- `Translator.negotiate` and `LocaleMiddleware`. `Q` are the floats without nan, `leb_q` is their
-- `<=`, and `read` is `float` of a text. The context variable is a locale that is passed on.
mod Order
pub mod Choice
pub mod Membership
use python_commons.Base.{
  ℕ, Bool, true, false, ◌&&◌, ◌||◌, not, String, string_eq, ◌=?◌, Option, none, some, List, [], ◌∷◌,
  map, if◌then◌else◌,
}
use python_commons.Outcome.{Outcome}
use python_commons.Application.I18n.Text.{Text, strip, split_commas, split_once, text_gt, same_text}
use python_commons.Application.I18n.Locale.{Locale, default_locale, parse, same_locale, value_or}

unfoldable pub exact_match : Locale → List Locale → Option Locale
unfolding same_locale
exact_match requested [] = none
exact_match requested (l ∷ ls) =
    let rest = exact_match requested ls in if same_locale l requested then some l else rest

unfoldable pub language_match : Locale → List Locale → Option Locale
unfolding same_text
language_match requested [] = none
language_match requested (l ∷ ls) =
    let rest = language_match requested ls in
    if same_text l.language requested.language then some l else rest

unfoldable pub or_else {ℓ} : {A : Type ℓ} → Option A → Option A → Option A
or_else none o = o
or_else (some a) o = some a

module _ (is_decimal : ℕ → Bool) (supported : List Locale) where
  match_locale : Option Locale → Option Locale
  unfolding or_else exact_match language_match
  match_locale none = none
  match_locale (some requested) =
      or_else (exact_match requested supported) (language_match requested supported)

  -- the body of the loop over the candidates: the locale that it returns, if it does
  unfoldable pub served : Text → Option Locale
  unfolding parse match_locale
  served tag = match_locale (parse is_decimal tag)

module _ {Q : Type 0} (leb_q : Q → Q → Bool) where
  -- `(q, lang) > (q', lang')`
  unfoldable pub candidate_gt : Q × Text → Q × Text → Bool
  unfolding text_gt
  candidate_gt (q, s) (r, t) = not (leb_q q r) || (leb_q r q && text_gt s t)

  unfoldable pub place : Q × Text → List (Q × Text) → List (Q × Text)
  unfolding candidate_gt
  place c [] = c ∷ []
  place c (d ∷ ds) = let rest = d ∷ place c ds in if candidate_gt d c then rest else c ∷ d ∷ ds

  -- `candidates.sort(reverse=True)`
  unfoldable pub descending : List (Q × Text) → List (Q × Text)
  unfolding place
  descending [] = []
  descending (c ∷ cs) = place c (descending cs)

module _ {Q : Type 0} (read : Text → Option Q) (no_quality full_quality : Q) where
  weighted : Text → Option (Text × Text) → Q × Text
  unfolding strip value_or
  weighted part none = (full_quality, strip part)
  weighted part (some (lang, q_str)) = (value_or no_quality (read q_str), strip lang)

  candidate : Text → Q × Text
  unfolding strip split_once weighted
  candidate raw_part =
      let part = strip raw_part in weighted part (split_once (b';' ∷ b'q' ∷ b'=' ∷ []) part)

  unfoldable pub candidates : Text → List (Q × Text)
  unfolding split_commas candidate
  candidates accept_language = map candidate (split_commas accept_language)

-- the loop over the sorted candidates
unfoldable pub first_served :
    {Q : Type 0} → (Text → Option Locale) → List (Q × Text) → Option Locale
unfolding or_else
first_served serve [] = none
first_served serve ((q, tag) ∷ cs) = or_else (serve tag) (first_served serve cs)

-- `LocaleContext.reset` in the `finally` block
restored : {W X T : Type 0} → Locale → Locale × W × Outcome T X → Locale × W × Outcome T X
restored context (l, w, o) = (context, w, o)

module _ (is_decimal : ℕ → Bool) {Q : Type 0} (leb_q : Q → Q → Bool) (read : Text → Option Q)
    (no_quality full_quality : Q) where
  unfoldable pub negotiate : List Locale → Text → Locale → Locale
  unfolding value_or first_served served descending candidates
  negotiate [] accept_language context = context
  negotiate (l ∷ ls) accept_language context = value_or l (
      first_served (served is_decimal (l ∷ ls))
        (descending leb_q (candidates read no_quality full_quality accept_language)))

  -- `accept` is the header of the request, empty if there is none; `app` runs in a locale and
  -- leaves one.
  unfoldable pub serve_localised :
      {W X T : Type 0}
      → List Locale
      → (Locale → W → Locale × W × Outcome T X)
      → String
      → Text
      → Locale
      → W
      → Locale × W × Outcome T X
  unfolding negotiate default_locale restored
  serve_localised supported app kind [] context w =
      if kind =? "http" then restored context (app default_locale w) else app context w
  serve_localised supported app kind (c ∷ accept) context w =
      if kind =? "http"
      then restored context (app (negotiate supported (c ∷ accept) context) w)
      else app context w
