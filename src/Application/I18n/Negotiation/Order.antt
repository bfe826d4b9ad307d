-- ===== src/Application/I18n/Negotiation/Order.antt =====
-- Sorting the candidates keeps them, and which lists are sorted.
use python_commons.Base.{◌≡◌, Bool, true, Bool-cases, List, [], ◌∷◌, All, Any, inl, inr}
use python_commons.Application.I18n.Text.{Text}
use python_commons.Application.I18n.Negotiation.{candidate_gt, place, descending}

module _ {Q : Type 0} (leb_q : Q → Q → Bool) where
  abbrev pub Falling : List (Q × Text) → Type 0
  Falling [] = Unit
  Falling (c ∷ cs) = All (λ d. leb_q d.0 c.0 ≡ true) cs × Falling cs

  pub All-place :
      (P : Q × Text → Type 0) (c : Q × Text) (ds : List (Q × Text))
      → P c
      → All P ds
      → All P (place leb_q c ds)
  unfolding place
  All-place P c [] p ps = (p, tt)
  All-place P c (d ∷ ds) p ps = elim (Bool-cases (candidate_gt leb_q d c)) [
    | inl e ↦ rw e (ps.0, All-place P c ds p ps.1)
    | inr e ↦ rw e (p, ps)
  ]

  place-All :
      (P : Q × Text → Type 0) (c : Q × Text) (ds : List (Q × Text))
      → All P (place leb_q c ds)
      → P c × All P ds
  unfolding place
  place-All P c [] = λ ps. ps
  place-All P c (d ∷ ds) = elim (Bool-cases (candidate_gt leb_q d c)) [
    | inl e ↦ rw e (λ ps. let rest = place-All P c ds ps.1 in (rest.0, (ps.0, rest.1)))
    | inr e ↦ rw e (λ ps. ps)
  ]

  place-Any :
      (P : Q × Text → Type 0) (c : Q × Text) (ds : List (Q × Text))
      → Any P (place leb_q c ds)
      → Any P (c ∷ ds)
  unfolding place
  place-Any P c [] = λ ps. ps
  place-Any P c (d ∷ ds) = elim (Bool-cases (candidate_gt leb_q d c)) [
    | inl e ↦ rw e (elim [
      | inl p ↦ inr (inl p)
      | inr ps ↦ elim (place-Any P c ds ps) [ inl p ↦ inl p | inr qs ↦ inr (inr qs) ]
    ])
    | inr e ↦ rw e (λ ps. ps)
  ]

  pub descending-All :
      (P : Q × Text → Type 0) (cs : List (Q × Text)) → All P (descending leb_q cs) → All P cs
  unfolding descending
  descending-All P [] ps = tt
  descending-All P (c ∷ cs) ps =
      let rest = place-All P c (descending leb_q cs) ps in (rest.0, descending-All P cs rest.1)

  pub descending-Any :
      (P : Q × Text → Type 0) (cs : List (Q × Text)) → Any P (descending leb_q cs) → Any P cs
  unfolding descending
  descending-Any P [] ps = ps
  descending-Any P (c ∷ cs) ps = elim (place-Any P c (descending leb_q cs) ps) [
    | inl p ↦ inl p
    | inr qs ↦ inr (descending-Any P cs qs)
  ]
