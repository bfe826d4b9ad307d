-- ===== src/Application/I18n/Text.antt =====
-- What the translator uses of Python's `str`.
pub mod Strip
pub mod Equality
use python_commons.Base.{
  ℕ, zero, suc, ◌+◌, ◌-◌, Bool, true, false, ◌&&◌, ◌||◌, not, Option, none, some, List, [], ◌∷◌,
  ◌==◌, ltb, leb, if◌then◌else◌, Eq, ◌≡◌, refl, ==_iff, arith, ◌↔◌,
}
use python_commons.Adapters.Fastapi.Text.{is_space}

abbrev pub Text : Type 0
Text = List ℕ

is_blank : Text → Bool
unfolding is_space
is_blank [] = true
is_blank (c ∷ s) = is_space c && is_blank s

strip_end : Text → Text
unfolding is_blank
strip_end [] = []
strip_end (c ∷ s) = let rest = c ∷ strip_end s in if is_blank (c ∷ s) then [] else rest

strip_start : Text → Text
unfolding is_space
strip_start [] = []
strip_start (c ∷ s) = let rest = strip_start s in if is_space c then rest else c ∷ s

-- `s.strip()`
unfoldable pub strip : Text → Text
unfolding strip_start strip_end
strip s = strip_end (strip_start s)

unfoldable pub is_letter : ℕ → Bool
is_letter c = (leb b'a' c && leb c b'z') || (leb b'A' c && leb c b'Z')

-- `lower` and `upper` of an ASCII letter or a decimal
unfoldable pub to_lower : ℕ → ℕ
to_lower c = if leb b'A' c && leb c b'Z' then c + 32 else c

unfoldable pub to_upper : ℕ → ℕ
to_upper c = if leb b'a' c && leb c b'z' then c - 32 else c

-- the first part in front of the rest of `s.split(",")`
onto_first : ℕ → List Text → List Text
onto_first c [] = (c ∷ []) ∷ []
onto_first c (p ∷ ps) = (c ∷ p) ∷ ps

-- `s.split(",")`
unfoldable pub split_commas : Text → List Text
unfolding onto_first
split_commas [] = [] ∷ []
split_commas (c ∷ s) =
    let rest = split_commas s in if c == b',' then [] ∷ rest else onto_first c rest

unfoldable pub starts_with : Text → Text → Bool
starts_with [] s = true
starts_with (c ∷ p) [] = false
starts_with (c ∷ p) (d ∷ s) = (c == d) && starts_with p s

onto_left : ℕ → Option (Text × Text) → Option (Text × Text)
onto_left c none = none
onto_left c (some (left, right)) = some (c ∷ left, right)

drop_text : Text → Text → Text
drop_text [] s = s
drop_text (c ∷ p) [] = []
drop_text (c ∷ p) (d ∷ s) = drop_text p s

-- `s.split(mark, 1)`, or nothing if `mark` does not occur in `s`
unfoldable pub split_once : Text → Text → Option (Text × Text)
unfolding starts_with onto_left drop_text
split_once mark [] = none
split_once mark (c ∷ s) =
    let rest = onto_left c (split_once mark s) in
    if starts_with mark (c ∷ s) then some ([], drop_text mark (c ∷ s)) else rest

-- Python's `s > t`
unfoldable pub text_gt : Text → Text → Bool
text_gt [] t = false
text_gt (c ∷ s) [] = true
text_gt (c ∷ s) (d ∷ t) = ltb d c || ((c == d) && text_gt s t)

-- `s == t`
unfoldable pub same_text : Text → Text → Bool
same_text [] [] = true
same_text [] (d ∷ t) = false
same_text (c ∷ s) [] = false
same_text (c ∷ s) (d ∷ t) = (c == d) && same_text s t
