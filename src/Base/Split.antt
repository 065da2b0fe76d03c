-- ===== src/Base/Split.antt =====
-- Splitting a text at a separator, and joining the parts.
use lar.Base.{
  ℕ, true, List, [], ◌∷◌, ◌++◌, ◌≡◌, refl, ap, sym, ◌∙◌, ◌≢◌, arith, nat_eq, All, split, extend,
  ends_with, Bool-cases, inl, inr,
}

-- `parts.join(sep)`
abbrev pub join : ℕ → List (List ℕ) → List ℕ
join sep [] = []
join sep (part ∷ []) = part
join sep (part ∷ next ∷ parts) = part ++ sep ∷ join sep (next ∷ parts)

split-cases :
    (sep : ℕ) (s : List ℕ)
    → (part : List ℕ) × (parts : List (List ℕ)) × (split sep s ≡ part ∷ parts)
unfolding split
split-cases sep [] = ([], [], refl)
split-cases sep (c ∷ s) =
    let (part, parts, e) = split-cases sep s in
    elim (Bool-cases (nat_eq c sep)) [
      | inl t ↦ ([], split sep s, rw t)
      | inr t ↦ (c ∷ part, parts, rw (t, e))
    ]

join-extend :
    (sep c : ℕ) (part : List ℕ) (parts : List (List ℕ))
    → join sep ((c ∷ part) ∷ parts) ≡ c ∷ join sep (part ∷ parts)
join-extend sep c part [] = refl
join-extend sep c part (next ∷ parts) = refl

-- The parts joined again are the text.
pub join-split : (sep : ℕ) (s : List ℕ) → join sep (split sep s) ≡ s
unfolding split
join-split sep [] = refl
join-split sep (c ∷ s) =
    let (part, parts, e) = split-cases sep s in
    let ih : join sep (part ∷ parts) ≡ s = rw e at (join-split sep s) in
    elim (Bool-cases (nat_eq c sep)) [
      | inl t ↦
          let same : c ≡ sep = ground arith in
          rw (t, e) (ap (λ z. z ∷ join sep (part ∷ parts)) (sym same) ∙ ap (λ z. c ∷ z) ih)
      | inr t ↦ rw (t, e) (join-extend sep c part parts ∙ ap (λ z. c ∷ z) ih)
    ]

abbrev pub Without : ℕ → List ℕ → Type 0
Without sep = All (λ c. c ≢ sep)

split-Without : (sep : ℕ) (s : List ℕ) → Without sep s → split sep s ≡ s ∷ []
unfolding split
split-Without sep [] w = refl
split-Without sep (c ∷ s) w = ground (arith, split-Without sep s)

split-append : (sep : ℕ) (s t : List ℕ) → Without sep s → split sep (s ++ sep ∷ t) ≡ s ∷ split sep t
unfolding split
split-append sep [] t w = ground arith
split-append sep (c ∷ s) t w = ground (arith, split-append sep s t)

-- Parts without the separator come back.
pub split-join :
    (sep : ℕ) (part : List ℕ) (parts : List (List ℕ))
    → All (Without sep) (part ∷ parts)
    → split sep (join sep (part ∷ parts)) ≡ part ∷ parts
split-join sep part [] w = split-Without sep part w.0
split-join sep part (next ∷ parts) w =
    split-append sep part _ w.0 ∙ ap (λ z. part ∷ z) (split-join sep next parts w.1)

pub ends_with-append : (s : List ℕ) (c : ℕ) → ends_with (s ++ c ∷ []) c ≡ true
unfolding ends_with
ends_with-append [] c = ground arith
ends_with-append (x ∷ []) c = ground arith
ends_with-append (x ∷ y ∷ s) c = ends_with-append (y ∷ s) c

pub ends_with-some : (s : List ℕ) (c : ℕ) → ends_with s c ≡ true → (p : List ℕ) × (s ≡ p ++ c ∷ [])
unfolding ends_with
ends_with-some [] c h = cc
ends_with-some (x ∷ []) c h = ([], ground arith)
ends_with-some (x ∷ y ∷ s) c h =
    let (p, e) = ends_with-some (y ∷ s) c h in (x ∷ p, ap (λ z. x ∷ z) e)

extend-All :
    (sep c : ℕ) (parts : List (List ℕ))
    → c ≢ sep
    → All (Without sep) parts
    → All (Without sep) (extend c parts)
extend-All sep c [] h w = ((h, tt), tt)
extend-All sep c (part ∷ parts) h w = ((h, w.0), w.1)

-- No part holds the separator.
pub split-All : (sep : ℕ) (s : List ℕ) → All (Without sep) (split sep s)
unfolding split
split-All sep [] = (tt, tt)
split-All sep (c ∷ s) = elim (Bool-cases (nat_eq c sep)) [
  | inl t ↦ rw t (tt, split-All sep s)
  | inr t ↦ rw t (extend-All sep c (split sep s) (ground arith) (split-All sep s))
]
