-- ===== src/Layout/Shape.antt =====
-- `normalized` moves screens and changes nothing else.
use kvmshare.Prelude.{
  Bool, Bool-cases, List, Option, [], ap, arith, false, get_elem?, if◌then◌else◌, inl, inr, length,
  map, none, refl, set, some, suc, sym, true, zero, ℕ, ◌&&◌, ◌+◌, ◌==◌, ◌||◌, ◌∙◌, ◌∷◌, ◌≡◌,
}
use kvmshare.Layout.{Layout, edge_tolerance, near}
use kvmshare.Layout.Normalize.{
  align_x, align_y, columns_meet, inner_from, inner_loop, normalized, outer_loop, pass, passes,
  rows_meet, same_rect, set_rect, snap, snap_at, snap_beside, snap_stacked,
}
use kvmshare.Prelude.Int.{leb_ℤ, ℤ}
use kvmshare.Protocol.Geometry.{Rect, Screen, bottom, left, right, top}
use kvmshare.Session.Motion.{rounds}
use kvmshare.Prelude.I32

-- What of a screen is no position.
abbrev pub shape : Screen → ℕ × List ℕ × ℤ × ℤ
shape s = (s.id, s.name, s.rect.w, s.rect.h)

abbrev SameSize : Rect → Rect → Type 0
SameSize a b = (a.w ≡ b.w) × (a.h ≡ b.h)

align_y-SameSize : (a nb : Rect) → SameSize (align_y a nb) nb
align_y-SameSize a nb = elim (Bool-cases (leb_ℤ (I32.abs (I32.sub nb.y a.y)) edge_tolerance)) [
  | inl e ↦ rw e (refl, refl)
  | inr e ↦ rw e (refl, refl)
]

align_x-SameSize : (a nb : Rect) → SameSize (align_x a nb) nb
align_x-SameSize a nb = elim (Bool-cases (leb_ℤ (I32.abs (I32.sub nb.x a.x)) edge_tolerance)) [
  | inl e ↦ rw e (refl, refl)
  | inr e ↦ rw e (refl, refl)
]

if-SameSize :
    (c : Bool) (a b r : Rect) → SameSize a r → SameSize b r → SameSize (if c then a else b) r
if-SameSize true a b r p q = p
if-SameSize false a b r p q = q

snap_beside-SameSize : (a b : Rect) → SameSize (snap_beside a b) b
unfolding snap_beside
snap_beside-SameSize a b =
    if-SameSize (near (right a) (left b) edge_tolerance && rows_meet a b) _ _ b
      (align_y-SameSize a (record b { x = right a }))
      (if-SameSize (near (right b) (left a) edge_tolerance && rows_meet a b) _ _ b
        (align_y-SameSize a (record b { x = I32.sub (left a) b.w })) (refl, refl))

snap_stacked-SameSize : (a b nb : Rect) → SameSize nb b → SameSize (snap_stacked a b nb) b
unfolding snap_stacked
snap_stacked-SameSize a b nb v =
    if-SameSize (near (bottom a) (top b) edge_tolerance && columns_meet a b) _ _ b
      (chain (record nb { y = bottom a }) v)
      (if-SameSize (near (bottom b) (top a) edge_tolerance && columns_meet a b) _ _ b
        (chain (record nb { y = I32.sub (top a) b.h }) v) v)
  where
    chain : (r : Rect) → SameSize r b → SameSize (align_x a r) b
    chain r v = let (p, q) = align_x-SameSize a r in (p ∙ v.0, q ∙ v.1)

snap-SameSize : (a b : Rect) → SameSize (snap a b) b
unfolding snap
snap-SameSize a b = snap_stacked-SameSize a b (snap_beside a b) (snap_beside-SameSize a b)

shapes-set :
    (ss : List Screen) (j : ℕ) (s t : Screen)
    → get_elem? ss j ≡ some s
    → shape t ≡ shape s
    → map shape (set ss j t) ≡ map shape ss
shapes-set [] j s t e p = refl
shapes-set (x ∷ ss) zero s t e p =
    let q : x ≡ s = ground arith in ap (λ u. u ∷ map shape ss) (p ∙ ap shape (sym q))
shapes-set (x ∷ ss) (suc j) s t e p = ap (λ u. shape x ∷ u) (shapes-set ss j s t e p)

-- `st` holds the screens `ss`, moved; and if the flag is down, not even moved.
record Moved (ss : List Screen) (st : List Screen × Bool) : Type 0 where
  shapes : map shape st.0 ≡ map shape ss
  still : st.1 ≡ false → st.0 ≡ ss

snap_at-Moved :
    (i j : ℕ) (a : Rect) (o : Option Screen) (ss cur : List Screen) (c : Bool)
    → get_elem? cur j ≡ o
    → Moved ss (cur, c)
    → Moved ss (snap_at i j a o (cur, c))
unfolding snap_at
snap_at-Moved i j a none ss cur c e v = v
snap_at-Moved i j a (some s) ss cur c e v =
    elim (Bool-cases ((i == j) || same_rect (snap a s.rect) s.rect)) [
      | inl same ↦ rw same v
      | inr other ↦ rw other (record {
        shapes =
            shapes-set cur j s (set_rect s (snap a s.rect)) e
              (let (p, q) = snap-SameSize a s.rect in λ k. (s.id, s.name, p k, q k))
            ∙ v.shapes;
        still = λ f. cc;
      })
    ]

inner_loop-Moved :
    (rounds i j : ℕ) (a : Rect) (ss cur : List Screen) (c : Bool)
    → Moved ss (cur, c)
    → Moved ss (inner_loop rounds i j a (cur, c))
unfolding inner_loop
inner_loop-Moved zero i j a ss cur c v = v
inner_loop-Moved (suc rounds) i j a ss cur c v =
    let next = snap_at i j a (get_elem? cur j) (cur, c) in
    inner_loop-Moved rounds i (j + 1) a ss next.0 next.1
      (snap_at-Moved i j a (get_elem? cur j) ss cur c refl v)

inner_from-Moved :
    (i : ℕ) (o : Option Screen) (ss cur : List Screen) (c : Bool)
    → Moved ss (cur, c)
    → Moved ss (inner_from i o (cur, c))
inner_from-Moved i none ss cur c v = v
inner_from-Moved i (some s) ss cur c v = inner_loop-Moved (length cur) i 0 s.rect ss cur c v

outer_loop-Moved :
    (rounds i : ℕ) (ss cur : List Screen) (c : Bool)
    → Moved ss (cur, c)
    → Moved ss (outer_loop rounds i (cur, c))
unfolding outer_loop
outer_loop-Moved zero i ss cur c v = v
outer_loop-Moved (suc rounds) i ss cur c v =
    let next = inner_from i (get_elem? cur i) (cur, c) in
    outer_loop-Moved rounds (i + 1) ss next.0 next.1
      (inner_from-Moved i (get_elem? cur i) ss cur c v)

pass-Moved : (ss : List Screen) → Moved ss (pass ss)
unfolding pass
pass-Moved ss =
    outer_loop-Moved (length ss) 0 ss ss false (record { shapes = refl; still = λ e. refl })

passes-shapes : (n : ℕ) (ss : List Screen) → map shape (passes n ss) ≡ map shape ss
unfolding passes
passes-shapes zero ss = refl
passes-shapes (suc n) ss = go (pass ss).1 refl (passes-shapes n (pass ss).0)
  where
    go :
        (c : Bool)
        → (pass ss).1 ≡ c
        → map shape (passes n (pass ss).0) ≡ map shape (pass ss).0
        → map shape (passes (suc n) ss) ≡ map shape ss
    go true e ih = rw (e, passes) (ih ∙ (pass-Moved ss).shapes)
    go false e ih = rw (e, passes) (pass-Moved ss).shapes

-- Normalising keeps the screens, their order, ids, names and sizes; only positions change.
pub normalized-shapes : (l : Layout) → map shape (normalized l).screens ≡ map shape l.screens
unfolding normalized
normalized-shapes l = passes-shapes 8 l.screens

-- A layout in which one pass finds nothing to move is left as it is, position by position.
pub normalized_fixed : (l : Layout) → (pass l.screens).1 ≡ false → normalized l ≡ l
unfolding normalized passes
normalized_fixed l e =
    rw (e, passes) (ap (λ s. record { screens = s }) ((pass-Moved l.screens).still e))
