-- ===== src/Application/I18n/Negotiation/Membership.antt =====
-- A client gets a supported locale.
use python_commons.Base.{
  ℕ, ◌≡◌, refl, sym, subst, ap, Bool, Bool-cases, Option, none, some, List, [], ◌∷◌, Any, ◌⊎◌, inl,
  inr,
}
use python_commons.Application.I18n.Text.{Text, same_text}
use python_commons.Application.I18n.Locale.{Locale, parse, same_locale, value_or}
use python_commons.Application.I18n.Negotiation.{
  or_else, exact_match, language_match, match_locale, served, descending, candidates, first_served,
  negotiate,
}

-- `Supported ls m`: `m` is one of `ls`.
abbrev pub Supported : List Locale → Locale → Type 0
Supported ls m = Any (λ l. l ≡ m) ls

-- an option that holds one of `ls` if it holds a locale
abbrev AllIn : List Locale → Option Locale → Type 0
AllIn ls o = (o ≡ none) ⊎ ((m : Locale) × (o ≡ some m) × Supported ls m)

add_supported : (l : Locale) (ls : List Locale) (o : Option Locale) → AllIn ls o → AllIn (l ∷ ls) o
add_supported l ls o (inl e) = inl e
add_supported l ls o (inr (m, e, a)) = inr (m, e, inr a)

exact_match-AllIn : (requested : Locale) (ls : List Locale) → AllIn ls (exact_match requested ls)
unfolding exact_match
exact_match-AllIn requested [] = inl refl
exact_match-AllIn requested (l ∷ ls) = elim (Bool-cases (same_locale l requested)) [
  | inl e ↦ rw e (inr (l, refl, inl refl))
  | inr e ↦ rw e (add_supported l ls _ (exact_match-AllIn requested ls))
]

language_match-AllIn :
    (requested : Locale) (ls : List Locale) → AllIn ls (language_match requested ls)
unfolding language_match
language_match-AllIn requested [] = inl refl
language_match-AllIn requested (l ∷ ls) =
    elim (Bool-cases (same_text l.language requested.language)) [
      | inl e ↦ rw e (inr (l, refl, inl refl))
      | inr e ↦ rw e (add_supported l ls _ (language_match-AllIn requested ls))
    ]

or_else-AllIn :
    (ls : List Locale) (o p : Option Locale) → AllIn ls o → AllIn ls p → AllIn ls (or_else o p)
unfolding or_else
or_else-AllIn ls none p i j = j
or_else-AllIn ls (some m) p i j = i

match_locale-AllIn :
    (is_decimal : ℕ → Bool) (ls : List Locale) (o : Option Locale)
    → AllIn ls (match_locale is_decimal ls o)
unfolding match_locale
match_locale-AllIn is_decimal ls none = inl refl
match_locale-AllIn is_decimal ls (some requested) =
    or_else-AllIn ls (exact_match requested ls) (language_match requested ls)
      (exact_match-AllIn requested ls) (language_match-AllIn requested ls)

first_served-AllIn :
    {Q : Type 0} (is_decimal : ℕ → Bool) (ls : List Locale) (cs : List (Q × Text))
    → AllIn ls (first_served (served is_decimal ls) cs)
unfolding first_served served
first_served-AllIn is_decimal ls [] = inl refl
first_served-AllIn is_decimal ls ((q, tag) ∷ cs) =
    or_else-AllIn ls (match_locale is_decimal ls (parse is_decimal tag))
      (first_served (served is_decimal ls) cs)
      (match_locale-AllIn is_decimal ls (parse is_decimal tag))
      (first_served-AllIn is_decimal ls cs)

value_or-Supported :
    (l : Locale) (ls : List Locale) (o : Option Locale)
    → AllIn (l ∷ ls) o
    → Supported (l ∷ ls) (value_or l o)
unfolding value_or
value_or-Supported l ls none i = inl refl
value_or-Supported l ls (some m) (inl e) = inl (ap (value_or l) (sym e))
value_or-Supported l ls (some m) (inr (n, e, a)) =
    subst (λ o. Supported (l ∷ ls) (value_or l o)) (sym e) a

-- Where there are supported locales, a client gets one of them, whatever the header is and
-- whatever the order of the floats.
pub negotiate-Supported :
    {Q : Type 0} (is_decimal : ℕ → Bool) (leb_q : Q → Q → Bool) (read : Text → Option Q)
    (no_quality full_quality : Q) (l : Locale) (ls : List Locale) (accept : Text) (context : Locale)
    → Supported
        (l ∷ ls)
        (negotiate is_decimal leb_q read no_quality full_quality (l ∷ ls) accept context)
unfolding negotiate
negotiate-Supported is_decimal leb_q read no_quality full_quality l ls accept context =
    value_or-Supported l ls _ (
      first_served-AllIn is_decimal (l ∷ ls)
        (descending leb_q (candidates read no_quality full_quality accept)))
