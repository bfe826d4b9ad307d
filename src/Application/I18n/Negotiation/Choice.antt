-- ===== src/Application/I18n/Negotiation/Choice.antt =====
-- Which of the supported locales a client gets.
use python_commons.Base.{
  Any-map, All-map, ℕ, ◌≡◌, refl, sym, subst, Bool, true, false, Bool-cases, Option, none, some,
  Option-cases, List, [], ◌∷◌, All, Any, ◌⊎◌, inl, inr, arith,
}
use python_commons.Application.I18n.Text.{Text}
use python_commons.Application.I18n.Locale.{Locale, value_or}
use python_commons.Application.I18n.Negotiation.{
  or_else, served, candidate_gt, place, descending, candidates, first_served, negotiate,
}
use python_commons.Application.I18n.Negotiation.Order.{
  Falling, All-place, descending-All, descending-Any,
}

module _ {Q : Type 0} (leb_q : Q → Q → Bool) where
  -- Nothing is served and no candidate is, or what is served is so for a candidate of the highest
  -- quality among those that are.
  abbrev pub Optimal : (Text → Option Locale) → List (Q × Text) → Option Locale → Type 0
  Optimal serve cs o =
      ((o ≡ none) × All (λ c. serve c.1 ≡ none) cs)
      ⊎ ((m : Locale) × (o ≡ some m)
          × Any
              (λ c.
                (serve c.1 ≡ some m) × All (λ d. (serve d.1 ≡ none) ⊎ (leb_q d.0 c.0 ≡ true)) cs)
              cs)

module _ {Q : Type 0} (leb_q : Q → Q → Bool)
    (total : (q r : Q) → (leb_q q r ≡ true) ⊎ (leb_q r q ≡ true))
    (trans : (q r s : Q) → leb_q q r ≡ true → leb_q r s ≡ true → leb_q q s ≡ true) where
  gt-leb : (d c : Q × Text) → candidate_gt leb_q d c ≡ true → leb_q c.0 d.0 ≡ true
  unfolding candidate_gt
  gt-leb (q, s) (r, t) e = elim (total q r) [ inl l ↦ ground (arith, e, l) | inr l ↦ l ]

  not_gt-leb : (d c : Q × Text) → candidate_gt leb_q d c ≡ false → leb_q d.0 c.0 ≡ true
  unfolding candidate_gt
  not_gt-leb (q, s) (r, t) e = ground (arith, e)

  place-Falling :
      (c : Q × Text) (ds : List (Q × Text)) → Falling leb_q ds → Falling leb_q (place leb_q c ds)
  unfolding place
  place-Falling c [] f = (tt, tt)
  place-Falling c (d ∷ ds) f = elim (Bool-cases (candidate_gt leb_q d c)) [
    | inl e ↦ rw e (
      All-place leb_q (λ x. leb_q x.0 d.0 ≡ true) c ds (gt-leb d c e) f.0,
      place-Falling c ds f.1,
    )
    | inr e ↦
        rw e ((not_gt-leb d c e, All-map ds (λ x l. trans x.0 d.0 c.0 l (not_gt-leb d c e)) f.0), f)
  ]

  descending-Falling : (cs : List (Q × Text)) → Falling leb_q (descending leb_q cs)
  unfolding descending
  descending-Falling [] = tt
  descending-Falling (c ∷ cs) = place-Falling c (descending leb_q cs) (descending-Falling cs)

  refl_leb : (q : Q) → leb_q q q ≡ true
  refl_leb q = elim (total q q) [ inl l ↦ l | inr l ↦ l ]

  add_unserved :
      (serve : Text → Option Locale) (c : Q × Text) (cs : List (Q × Text)) (o : Option Locale)
      → serve c.1 ≡ none
      → Optimal leb_q serve cs o
      → Optimal leb_q serve (c ∷ cs) o
  add_unserved serve c cs o e (inl (n, ns)) = inl (n, (e, ns))
  add_unserved serve c cs o e (inr (m, s, a)) =
      inr (m, s, inr (Any-map cs (λ d b. (b.0, (inl e, b.1))) a))

  first_served_skip :
      (serve : Text → Option Locale) (c : Q × Text) (cs : List (Q × Text))
      → serve c.1 ≡ none
      → first_served serve (c ∷ cs) ≡ first_served serve cs
  unfolding first_served or_else
  first_served_skip serve c cs e = rw e refl

  first_served_stop :
      (serve : Text → Option Locale) (c : Q × Text) (cs : List (Q × Text)) (m : Locale)
      → serve c.1 ≡ some m
      → first_served serve (c ∷ cs) ≡ some m
  unfolding first_served or_else
  first_served_stop serve c cs m e = rw e refl

  first_served-Optimal :
      (serve : Text → Option Locale) (cs : List (Q × Text))
      → Falling leb_q cs
      → Optimal leb_q serve cs (first_served serve cs)
  unfolding first_served
  first_served-Optimal serve [] f = inl (refl, tt)
  first_served-Optimal serve (c ∷ cs) f = elim (Option-cases (serve c.1)) [
    | inl e ↦
        subst (Optimal leb_q serve (c ∷ cs)) (sym (first_served_skip serve c cs e))
          (add_unserved serve c cs (first_served serve cs) e (first_served-Optimal serve cs f.1))
    | inr (m, e) ↦ inr (
      m,
      first_served_stop serve c cs m e,
      inl (e, (inr (refl_leb c.0), All-map cs (λ d l. inr l) f.0)),
    )
  ]

  descending-Optimal :
      (serve : Text → Option Locale) (cs : List (Q × Text)) (o : Option Locale)
      → Optimal leb_q serve (descending leb_q cs) o
      → Optimal leb_q serve cs o
  descending-Optimal serve cs o (inl (n, ns)) = inl (n, descending-All leb_q _ cs ns)
  descending-Optimal serve cs o (inr (m, s, a)) =
      inr (
        m,
        s,
        Any-map cs (λ c b. (b.0, descending-All leb_q _ cs b.1)) (descending-Any leb_q _ cs a),
      )

  -- A client gets, where there are supported locales, the one that is served for a candidate of the
  -- highest quality among the candidates for which one is, or the first of them if no candidate
  -- has one.
  pub negotiate-Optimal :
      (is_decimal : ℕ → Bool) (read : Text → Option Q) (no_quality full_quality : Q) (l : Locale)
      (ls : List Locale) (accept : Text) (context : Locale)
      → (o : Option Locale) × (negotiate is_decimal leb_q read no_quality full_quality
            (l ∷ ls)
            accept
            context
          ≡ value_or l o)
        × Optimal leb_q
            (served is_decimal (l ∷ ls))
            (candidates read no_quality full_quality accept)
            o
  unfolding negotiate
  negotiate-Optimal is_decimal read no_quality full_quality l ls accept context =
      let cs = candidates read no_quality full_quality accept in
      (
        first_served (served is_decimal (l ∷ ls)) (descending leb_q cs),
        refl,
        descending-Optimal (served is_decimal (l ∷ ls)) cs _ (
            first_served-Optimal (served is_decimal (l ∷ ls)) (descending leb_q cs)
              (descending-Falling cs)),
      )
