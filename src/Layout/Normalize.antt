-- ===== src/Layout/Normalize.antt =====
-- `Layout::normalized`: snapping screens that almost touch.
use kvmshare.Prelude.{
  Bool, List, Option, false, get_elem?, if◌then◌else◌, length, none, set, some, suc, true, zero, ℕ,
  ◌&&◌, ◌+◌, ◌==◌, ◌||◌,
}
use kvmshare.Layout.{Layout, edge_tolerance, near, spans_overlap}
use kvmshare.Prelude.Int.{eqb_ℤ, leb_ℤ}
use kvmshare.Protocol.Geometry.{Rect, Screen, bottom, left, right, top}
use kvmshare.Prelude.I32

-- The snap of a rectangle `b` to its neighbour `a`, in the order of the source: first the sides,
-- then above and below, each on what the step before has left in `nb`.
abbrev pub align_y : Rect → Rect → Rect
align_y a nb =
    if leb_ℤ (I32.abs (I32.sub nb.y a.y)) edge_tolerance then record nb { y = a.y } else nb

abbrev pub align_x : Rect → Rect → Rect
align_x a nb =
    if leb_ℤ (I32.abs (I32.sub nb.x a.x)) edge_tolerance then record nb { x = a.x } else nb

abbrev pub rows_meet : Rect → Rect → Bool
rows_meet a b = spans_overlap (top a) (bottom a) (top b) (bottom b) edge_tolerance

abbrev pub columns_meet : Rect → Rect → Bool
columns_meet a b = spans_overlap (left a) (right a) (left b) (right b) edge_tolerance

unfoldable pub snap_beside : Rect → Rect → Rect
unfolding near spans_overlap
snap_beside a b =
    if near (right a) (left b) edge_tolerance && rows_meet a b
    then align_y a (record b { x = right a })
    else if near (right b) (left a) edge_tolerance && rows_meet a b
    then align_y a (record b { x = I32.sub (left a) b.w })
    else b

unfoldable pub snap_stacked : Rect → Rect → Rect → Rect
unfolding near spans_overlap
snap_stacked a b nb =
    if near (bottom a) (top b) edge_tolerance && columns_meet a b
    then align_x a (record nb { y = bottom a })
    else if near (bottom b) (top a) edge_tolerance && columns_meet a b
    then align_x a (record nb { y = I32.sub (top a) b.h })
    else nb

unfoldable pub snap : Rect → Rect → Rect
unfolding snap_beside snap_stacked
snap a b = snap_stacked a b (snap_beside a b)

abbrev pub same_rect : Rect → Rect → Bool
same_rect a b = eqb_ℤ a.x b.x && eqb_ℤ a.y b.y && eqb_ℤ a.w b.w && eqb_ℤ a.h b.h

abbrev pub set_rect : Screen → Rect → Screen
set_rect s r = record s { rect = r }

-- The body of the inner loop at the screen `j`, which is there as `j < screens.len()`.
unfoldable pub snap_at : ℕ → ℕ → Rect → Option Screen → List Screen × Bool → List Screen × Bool
unfolding snap
snap_at i j a none st = st
snap_at i j a (some s) (screens, changed) =
    let nb = snap a s.rect in
    if (i == j) || same_rect nb s.rect
    then (screens, changed)
    else (set screens j (set_rect s nb), true)

-- `for j in 0..screens.len()`, with the rounds left.
unfoldable pub inner_loop : ℕ → ℕ → ℕ → Rect → List Screen × Bool → List Screen × Bool
unfolding snap_at
inner_loop zero i j a st = st
inner_loop (suc rounds) i j a st =
    inner_loop rounds i (j + 1) a (snap_at i j a (get_elem? st.0 j) st)

abbrev pub inner_from : ℕ → Option Screen → List Screen × Bool → List Screen × Bool
inner_from i none st = st
inner_from i (some s) st = inner_loop (length st.0) i 0 s.rect st

-- `for i in 0..screens.len()`.
unfoldable pub outer_loop : ℕ → ℕ → List Screen × Bool → List Screen × Bool
unfolding inner_loop
outer_loop zero i st = st
outer_loop (suc rounds) i st = outer_loop rounds (i + 1) (inner_from i (get_elem? st.0 i) st)

unfoldable pub pass : List Screen → List Screen × Bool
unfolding outer_loop
pass screens = outer_loop (length screens) 0 (screens, false)

-- `for _ in 0..8`, which stops after a pass that changed nothing.
unfoldable pub passes : ℕ → List Screen → List Screen
unfolding pass
passes zero screens = screens
passes (suc rounds) screens =
    let next = pass screens in elim (next.1) [ true ↦ passes rounds next.0 | false ↦ next.0 ]

unfoldable pub normalized : Layout → Layout
unfolding passes
normalized l = record { screens = passes 8 l.screens }
