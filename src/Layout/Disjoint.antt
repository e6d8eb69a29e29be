-- ===== src/Layout/Disjoint.antt =====
-- What the absence of warnings means.
use kvmshare.Prelude.{
  Bool, Bool-cases, List, [], arith, false, inl, inr, refl, true, ◌&&◌, ◌++◌, ◌∷◌, ◌≡◌,
}
use kvmshare.Layout.{Layout, has_no_size, issues, issues_of, overlap_issues, overlaps}
use kvmshare.Prelude.Int.{leb_ℤ, ltb_ℤ, pos, ℤ, ◌≤ℤ◌}
use kvmshare.Protocol.Geometry.{Rect, Screen, bottom, contains, left, right, top}

abbrev pub IsSized : Rect → Type 0
IsSized r = (pos 1 ≤ℤ r.w) × (pos 1 ≤ℤ r.h)

-- No position lies on both.
abbrev pub IsApart : Rect → Rect → Type 0
IsApart a b = (x y : ℤ) → contains a x y ≡ true → contains b x y ≡ false

abbrev pub ApartFrom : Screen → List Screen → Type 0
ApartFrom a [] = Unit {0}
ApartFrom a (b ∷ bs) = IsApart a.rect b.rect × ApartFrom a bs

abbrev pub IsUnambiguous : List Screen → Type 0
IsUnambiguous [] = Unit {0}
IsUnambiguous (s ∷ ss) = IsSized s.rect × ApartFrom s ss × IsUnambiguous ss

and_parts :
    (a b c d : Bool) → (a && b && c && d) ≡ true → (a ≡ true) × (b ≡ true) × (c ≡ true) × (d ≡ true)
and_parts true true true true e = (refl, refl, refl, refl)
and_parts true true true false e = cc
and_parts true true false d e = cc
and_parts true false c d e = cc
and_parts false b c d e = cc

-- Two spans with a common point meet.
spans_meet :
    (a_lo a_hi b_lo b_hi x : ℤ)
    → leb_ℤ a_lo x ≡ true
    → ltb_ℤ x a_hi ≡ true
    → leb_ℤ b_lo x ≡ true
    → ltb_ℤ x b_hi ≡ true
    → (ltb_ℤ a_lo b_hi && ltb_ℤ b_lo a_hi) ≡ true
spans_meet a_lo a_hi b_lo b_hi x p q r s = ground arith

overlaps-IsApart : (a b : Rect) → overlaps a b ≡ false → IsApart a b
overlaps-IsApart a b e x y h = elim (Bool-cases (contains b x y)) [
  | inl k ↦
      unfold contains in
      (let (p, q, r, s) = and_parts _ _ _ _ h in
        let (p', q', r', s') = and_parts _ _ _ _ k in
        let wide = spans_meet (left a) (right a) (left b) (right b) x p q p' q' in
        let tall = spans_meet (top a) (bottom a) (top b) (bottom b) y r s r' s' in
        let bad : true ≡ false = rw (wide, tall) at e in cc)
  | inr k ↦ k
]

append_empty : {A : Type 0} (xs ys : List A) → xs ++ ys ≡ [] → (xs ≡ []) × (ys ≡ [])
append_empty [] ys e = (refl, e)
append_empty (x ∷ xs) ys e = cc

overlap_issues-ApartFrom :
    (a : Screen) (ss : List Screen) → overlap_issues a ss ≡ [] → ApartFrom a ss
unfolding overlap_issues
overlap_issues-ApartFrom a [] e = tt
overlap_issues-ApartFrom a (b ∷ bs) e = elim (Bool-cases (overlaps a.rect b.rect)) [
  | inl meet ↦ absurd (let e' = rw meet at e in cc)
  | inr apart ↦
      (overlaps-IsApart a.rect b.rect apart, overlap_issues-ApartFrom a bs (rw apart at e))
]

issues_of-IsUnambiguous : (ss : List Screen) → issues_of ss ≡ [] → IsUnambiguous ss
unfolding issues_of
issues_of-IsUnambiguous [] e = tt
issues_of-IsUnambiguous (s ∷ ss) e =
    let (first, rest) = append_empty _ (issues_of ss) e in
    elim (Bool-cases (has_no_size s.rect)) [
      | inl bad ↦ absurd (let f = rw bad at first in cc)
      | inr good ↦ (
        ground arith,
        overlap_issues-ApartFrom s ss (rw good at first),
        issues_of-IsUnambiguous ss rest,
      )
    ]

-- When `issues` warns of nothing, every screen has a size and no position lies on two screens.
pub issues-IsUnambiguous : (l : Layout) → issues l ≡ [] → IsUnambiguous l.screens
unfolding issues
issues-IsUnambiguous l e = issues_of-IsUnambiguous l.screens e
