-- ===== src/Application/I18n/Locale/Letters.antt =====
-- Letters, and the letters that lead a text.
use python_commons.Base.{
  ℕ, zero, suc, ◌≤◌, ◌≡◌, refl, ap, Bool, true, false, ◌&&◌, Bool-cases, [], ◌∷◌, ◌++◌, All, inl,
  inr, arith, map, length, drop,
}
use python_commons.Adapters.Fastapi.Text.{is_space}
use python_commons.Application.I18n.Text.{Text, is_letter, to_lower, to_upper}
use python_commons.Application.I18n.Locale.{leading_letters}

pub and_left : (a b : Bool) → (a && b) ≡ true → a ≡ true
and_left a b e = ground (arith, e)

pub and_right : (a b : Bool) → (a && b) ≡ true → b ≡ true
and_right a b e = ground (arith, e)

abbrev pub IsLetter : ℕ → Type 0
IsLetter c = is_letter c ≡ true

pub letter-IsSolid : (c : ℕ) → is_letter c ≡ true → is_space c ≡ false
unfolding is_letter is_space
letter-IsSolid c e = ground (arith, e)

pub lower-IsLetter : (c : ℕ) → is_letter c ≡ true → is_letter (to_lower c) ≡ true
unfolding is_letter to_lower
lower-IsLetter c e = ground (arith, e)

pub lower_idem : (c : ℕ) → to_lower (to_lower c) ≡ to_lower c
unfolding to_lower
lower_idem c = ground arith

pub upper-IsLetter : (c : ℕ) → is_letter c ≡ true → is_letter (to_upper c) ≡ true
unfolding is_letter to_upper
upper-IsLetter c e = ground (arith, e)

pub upper_idem : (c : ℕ) → to_upper (to_upper c) ≡ to_upper c
unfolding to_upper
upper_idem c = ground arith

pub upper_other : (c : ℕ) → is_letter c ≡ false → to_upper c ≡ c
unfolding to_upper is_letter
upper_other c e = ground (arith, e)

pub dash-IsSolid : is_space b'-' ≡ false
unfolding is_space
dash-IsSolid = refl

pub leading_letters-IsLetter : (n : ℕ) (s : Text) → All IsLetter (leading_letters n s)
unfolding leading_letters
leading_letters-IsLetter zero s = tt
leading_letters-IsLetter (suc n) [] = tt
leading_letters-IsLetter (suc n) (c ∷ s) = elim (Bool-cases (is_letter c)) [
  | inl e ↦ rw e (e, leading_letters-IsLetter n s)
  | inr e ↦ rw e tt
]

pub length-leading_letters : (n : ℕ) (s : Text) → length (leading_letters n s) ≤ n
unfolding leading_letters
length-leading_letters zero s = omega arith
length-leading_letters (suc n) [] = omega arith
length-leading_letters (suc n) (c ∷ s) = ground (arith, length-leading_letters n s)

pub dash-letter : is_letter b'-' ≡ false
unfolding is_letter
dash-letter = refl

-- Behind the letters stands no letter, or the bound is met.
pub drop-leading_letters :
    (n : ℕ) (w s : Text)
    → All IsLetter w
    → length w ≤ n
    → (c : ℕ) → is_letter c ≡ false
    → leading_letters n (w ++ (c ∷ s)) ≡ w
unfolding leading_letters
drop-leading_letters zero [] s a l c e = refl
drop-leading_letters (suc n) [] s a l c e = rw e refl
drop-leading_letters zero (d ∷ w) s a l c e = absurd (omega (arith, l))
drop-leading_letters (suc n) (d ∷ w) s (f, a) l c e =
    rw f (ap (λ t. d ∷ t) (drop-leading_letters n w s a (omega (arith, l)) c e))

pub leading_letters_whole :
    (n : ℕ) (w : Text) → All IsLetter w → length w ≤ n → leading_letters n w ≡ w
unfolding leading_letters
leading_letters_whole zero [] a l = refl
leading_letters_whole (suc n) [] a l = refl
leading_letters_whole zero (d ∷ w) a l = absurd (omega (arith, l))
leading_letters_whole (suc n) (d ∷ w) (f, a) l =
    rw f (ap (λ t. d ∷ t) (leading_letters_whole n w a (omega (arith, l))))

pub drop-append : (w s : Text) → drop (length w) (w ++ s) ≡ s
drop-append [] s = refl
drop-append (c ∷ w) s = drop-append w s

pub drop-length : (w : Text) → drop (length w) w ≡ []
drop-length [] = refl
drop-length (c ∷ w) = drop-length w

pub length-map : (f : ℕ → ℕ) (w : Text) → length (map f w) ≡ length w
length-map f [] = refl
length-map f (c ∷ w) = ap suc (length-map f w)

pub map_lower_idem : (w : Text) → map to_lower (map to_lower w) ≡ map to_lower w
map_lower_idem [] = refl
map_lower_idem (c ∷ w) = rw (lower_idem c, map_lower_idem w) refl

pub map_lower-IsLetter : (w : Text) → All IsLetter w → All IsLetter (map to_lower w)
map_lower-IsLetter [] a = tt
map_lower-IsLetter (c ∷ w) (e, a) = (lower-IsLetter c e, map_lower-IsLetter w a)

-- a language as the expression captures it
abbrev pub IsLanguage : Text → Type 0
IsLanguage w = All IsLetter w × (2 ≤ length w) × (length w ≤ 8)
