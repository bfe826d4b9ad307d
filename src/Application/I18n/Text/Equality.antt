-- ===== src/Application/I18n/Text/Equality.antt =====
-- Equality of texts is decided by `same_text`.
use python_commons.Base.{◌≡◌, refl, ap, subst, true, [], ◌∷◌, ==_iff, Eq, arith}
use python_commons.Application.I18n.Text.{Text, same_text}

pub same_text_self : (s : Text) → same_text s s ≡ true
unfolding same_text
same_text_self [] = refl
same_text_self (c ∷ s) = ground (arith, same_text_self s)

pub same_text-equal : (s t : Text) → same_text s t ≡ true → s ≡ t
unfolding same_text
same_text-equal [] [] e = refl
same_text-equal [] (d ∷ t) e = ground (arith, e)
same_text-equal (c ∷ s) [] e = ground (arith, e)
same_text-equal (c ∷ s) (d ∷ t) e =
    let heads = (==_iff c d).0 (ground (arith, e)) in
    rw heads (ap (λ u. d ∷ u) (same_text-equal s t (ground (arith, e))))

instance abbrev pub text_eq : Eq Text
text_eq = record {
  beq = same_text;
  beq_iff =
      λ s t. (same_text-equal s t, λ e. subst (λ u. same_text s u ≡ true) e (same_text_self s));
}
