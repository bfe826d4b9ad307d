-- ===== src/Application/I18n/Text/Strip.antt =====
-- A text without spaces is stripped already.
use python_commons.Base.{ℕ, ◌≡◌, refl, ap, ◌∙◌, false, [], ◌∷◌, All}
use python_commons.Adapters.Fastapi.Text.{is_space}
use python_commons.Application.I18n.Text.{Text, is_blank, strip_end, strip_start, strip}

abbrev pub IsSolid : ℕ → Type 0
IsSolid c = is_space c ≡ false

is_blank_solid : (c : ℕ) (s : Text) → is_space c ≡ false → is_blank (c ∷ s) ≡ false
unfolding is_blank
is_blank_solid c s e = rw e refl

strip_end_solid : (s : Text) → All IsSolid s → strip_end s ≡ s
unfolding strip_end
strip_end_solid [] a = refl
strip_end_solid (c ∷ s) (e, a) = rw (is_blank_solid c s e) (ap (λ t. c ∷ t) (strip_end_solid s a))

strip_start_solid : (s : Text) → All IsSolid s → strip_start s ≡ s
unfolding strip_start
strip_start_solid [] a = refl
strip_start_solid (c ∷ s) (e, a) = rw e refl

pub strip_solid : (s : Text) → All IsSolid s → strip s ≡ s
unfolding strip
strip_solid s a = ap strip_end (strip_start_solid s a) ∙ strip_end_solid s a
