-- ===== src/Layout/Ray.antt =====
-- `Layout::neighbor`: the first screen that a ray through an edge reaches.
use kvmshare.Prelude.{
  Bool, List, Option, [], if◌then◌else◌, none, not, some, true, ℕ, ◌&&◌, ◌==◌, ◌||◌, ◌∷◌,
}
use kvmshare.Layout.{Direction, Layout, edge_tolerance, find_id}
use kvmshare.Prelude.Int.{eqb_ℤ, leb_ℤ, ltb_ℤ, pos, ℤ}
use kvmshare.Prelude.Run.{Run, done, ◌>>=◌}
use kvmshare.Protocol.Geometry.{Rect, Screen, bottom, from_id, left, right, top}
use kvmshare.Prelude.I32

-- The coordinate across the span, and the ray's geometry for each direction.
abbrev pub across : Direction → ℤ → ℤ → ℤ
across Direction.left at_x at_y = at_y
across Direction.right at_x at_y = at_y
across Direction.top at_x at_y = at_x
across Direction.bottom at_x at_y = at_x

abbrev pub span_lo : Direction → Rect → ℤ
span_lo Direction.left r = top r
span_lo Direction.right r = top r
span_lo Direction.top r = left r
span_lo Direction.bottom r = left r

abbrev pub span_hi : Direction → Rect → ℤ
span_hi Direction.left r = bottom r
span_hi Direction.right r = bottom r
span_hi Direction.top r = right r
span_hi Direction.bottom r = right r

abbrev pub facing_edge : Direction → Rect → ℤ
facing_edge Direction.left r = right r
facing_edge Direction.right r = left r
facing_edge Direction.top r = bottom r
facing_edge Direction.bottom r = top r

unfoldable pub past : Direction → Rect → Rect → Bool
past Direction.left from r = leb_ℤ (right r) (I32.add (left from) edge_tolerance)
past Direction.right from r = leb_ℤ (I32.sub (right from) edge_tolerance) (left r)
past Direction.top from r = leb_ℤ (bottom r) (I32.add (top from) edge_tolerance)
past Direction.bottom from r = leb_ℤ (I32.sub (bottom from) edge_tolerance) (top r)

unfoldable pub perp : Direction → ℤ → Rect → ℤ
perp dir exit_perp r =
    if ltb_ℤ exit_perp (span_lo dir r)
    then I32.sub (span_lo dir r) exit_perp
    else if leb_ℤ (span_hi dir r) exit_perp
    then I32.sub exit_perp (I32.max (I32.sub (span_hi dir r) (pos 1)) (span_lo dir r))
    else pos 0

unfoldable pub parallel : Direction → Rect → ℤ → ℤ
parallel Direction.left from s_edge = I32.max (I32.sub (left from) s_edge) (pos 0)
parallel Direction.right from s_edge = I32.max (I32.sub s_edge (right from)) (pos 0)
parallel Direction.top from s_edge = I32.max (I32.sub (top from) s_edge) (pos 0)
parallel Direction.bottom from s_edge = I32.max (I32.sub s_edge (bottom from)) (pos 0)

pub record Best : Type 0 where
  pub perp_score : ℤ
  pub parallel_score : ℤ
  pub screen : Screen

-- `(perp, parallel) < (best.0, best.1)` on tuples.
abbrev pub lex_lt : ℤ → ℤ → ℤ → ℤ → Bool
lex_lt a b c d = ltb_ℤ a c || (eqb_ℤ a c && ltb_ℤ b d)

abbrev pub beats : Best → Option Best → Bool
beats s none = true
beats s (some b) = lex_lt s.perp_score s.parallel_score b.perp_score b.parallel_score

unfoldable pub score : Direction → ℤ → Rect → Screen → Best
unfolding perp parallel
score dir exit_perp from s = record {
  perp_score = perp dir exit_perp s.rect;
  parallel_score = parallel dir from (facing_edge dir s.rect);
  screen = s;
}

-- The screens that the loop does not skip.
unfoldable pub is_candidate : Direction → Screen → Screen → Bool
unfolding past
is_candidate dir from s = not (s.id == from.id) && past dir from.rect s.rect

unfoldable pub consider : Direction → ℤ → Screen → Screen → Option Best → Option Best
consider dir exit_perp from s best =
    if is_candidate dir from s && beats (score dir exit_perp from.rect s) best
    then some (score dir exit_perp from.rect s)
    else best

unfoldable pub scan : Direction → ℤ → Screen → List Screen → Option Best → Option Best
unfolding consider
scan dir exit_perp from [] best = best
scan dir exit_perp from (s ∷ ss) best =
    scan dir exit_perp from ss (consider dir exit_perp from s best)

-- `(d - 1).max(0)`, the last pixel of a side of length `d`.
abbrev pub last_pixel : ℤ → ℤ
last_pixel d = I32.max (I32.sub d (pos 1)) (pos 0)

unfoldable pub entry_point : Direction → Rect → ℤ → ℤ → Run (ℤ × ℤ)
entry_point Direction.left r at_x at_y = do
  y ← I32.clamp (I32.sub at_y r.y) (pos 0) (last_pixel r.h)
  done (last_pixel r.w, y)
entry_point Direction.right r at_x at_y = do
  y ← I32.clamp (I32.sub at_y r.y) (pos 0) (last_pixel r.h)
  done (pos 0, y)
entry_point Direction.top r at_x at_y = do
  x ← I32.clamp (I32.sub at_x r.x) (pos 0) (last_pixel r.w)
  done (x, last_pixel r.h)
entry_point Direction.bottom r at_x at_y = do
  x ← I32.clamp (I32.sub at_x r.x) (pos 0) (last_pixel r.w)
  done (x, pos 0)

pub record Entry : Type 0 where
  pub id : ℕ
  pub x : ℤ
  pub y : ℤ

abbrev pub entry_of : ℕ → ℤ × ℤ → Option Entry
entry_of id p = some (record { id = id; x = p.0; y = p.1 })

unfoldable pub enter_best : Direction → ℤ → ℤ → Option Best → Run (Option Entry)
unfolding entry_point
enter_best dir at_x at_y none = done none
enter_best dir at_x at_y (some b) = do
  p ← entry_point dir b.screen.rect at_x at_y
  done (entry_of b.screen.id p)

abbrev pub neighbor_of : Direction → ℤ → ℤ → List Screen → Option Screen → Run (Option Entry)
neighbor_of dir at_x at_y screens none = done none
neighbor_of dir at_x at_y screens (some from) =
    enter_best dir at_x at_y (scan dir (across dir at_x at_y) from screens none)

unfoldable pub neighbor : Layout → ℕ → Direction → ℤ → ℤ → Run (Option Entry)
unfolding enter_best scan
neighbor l from_id dir at_x at_y = neighbor_of dir at_x at_y l.screens (find_id from_id l.screens)
