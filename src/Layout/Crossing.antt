-- ===== src/Layout/Crossing.antt =====
-- Where `neighbor` leads, and when a position has left its screen.
use kvmshare.Prelude.{
  All, All-In, In, List, Option-cases, ap, arith, false, find_by-In, inl, inr, none, refl, some,
  subst, true, ℕ, ◌<◌, ◌==◌, ◌↔◌, ◌∙◌, ◌≡◌, ◌≤◌, ◌⊎◌,
}
use kvmshare.Layout.{Layout, exit_direction, exit_of, exit_side, find, find_id}
use kvmshare.Layout.Candidate.{NotBeaten, scan-none, scan_best, scan_from}
use kvmshare.Layout.Distance.{
  IsBeyond, IsDesk, IsNear, ahead, aside, last_pixel_lt, parallel_lem, past_iff, perp_lem,
}
use kvmshare.Layout.Edges.{Direction}
use kvmshare.Layout.Ray.{
  Best, Entry, across, enter_best, entry_of, entry_point, is_candidate, last_pixel, lex_lt,
  neighbor, neighbor_of, past, scan, score,
}
use kvmshare.Prelude.I32.Bounds.{clamp_bounds, max_ge_right}
use kvmshare.Prelude.Int.{pos, ℤ, ◌<ℤ◌, ◌≤ℤ◌}
use kvmshare.Prelude.Run.{done, ◌>>=◌}
use kvmshare.Protocol.Geometry.{Rect, Screen, contains}
use kvmshare.Prelude.I32

-- A position inside a screen, in its local coordinates; on one without pixels, only its origin.
pub record IsInside (r : Rect) (x y : ℤ) : Type 0 where
  pub x_lo : pos 0 ≤ℤ x
  pub x_hi : x ≤ℤ last_pixel r.w
  pub y_lo : pos 0 ≤ℤ y
  pub y_hi : y ≤ℤ last_pixel r.h

entry_point-IsInside :
    (dir : Direction) (r : Rect) (at_x at_y : ℤ)
    → (p : ℤ × ℤ) × (entry_point dir r at_x at_y ≡ done p) × IsInside r p.0 p.1
unfolding entry_point
entry_point-IsInside Direction.left r at_x at_y =
    let w = max_ge_right (I32.sub r.w (pos 1)) (pos 0) in
    let (y, e, lo, hi, k) =
      clamp_bounds (I32.sub at_y r.y) (pos 0) (last_pixel r.h)
        (max_ge_right (I32.sub r.h (pos 1)) (pos 0)) in
    (
      (last_pixel r.w, y),
      rw (e, ◌>>=◌) refl,
      record { x_lo = w; x_hi = omega arith; y_lo = lo; y_hi = hi },
    )
entry_point-IsInside Direction.right r at_x at_y =
    let w = max_ge_right (I32.sub r.w (pos 1)) (pos 0) in
    let (y, e, lo, hi, k) =
      clamp_bounds (I32.sub at_y r.y) (pos 0) (last_pixel r.h)
        (max_ge_right (I32.sub r.h (pos 1)) (pos 0)) in
    ((pos 0, y), rw (e, ◌>>=◌) refl, record { x_lo = omega arith; x_hi = w; y_lo = lo; y_hi = hi })
entry_point-IsInside Direction.top r at_x at_y =
    let h = max_ge_right (I32.sub r.h (pos 1)) (pos 0) in
    let (x, e, lo, hi, k) =
      clamp_bounds (I32.sub at_x r.x) (pos 0) (last_pixel r.w)
        (max_ge_right (I32.sub r.w (pos 1)) (pos 0)) in
    (
      (x, last_pixel r.h),
      rw (e, ◌>>=◌) refl,
      record { x_lo = lo; x_hi = hi; y_lo = h; y_hi = omega arith },
    )
entry_point-IsInside Direction.bottom r at_x at_y =
    let h = max_ge_right (I32.sub r.h (pos 1)) (pos 0) in
    let (x, e, lo, hi, k) =
      clamp_bounds (I32.sub at_x r.x) (pos 0) (last_pixel r.w)
        (max_ge_right (I32.sub r.w (pos 1)) (pos 0)) in
    ((x, pos 0), rw (e, ◌>>=◌) refl, record { x_lo = lo; x_hi = hi; y_lo = omega arith; y_hi = h })

-- No screen passes the tests of the code.
abbrev pub IsPassed : Direction → Screen → List Screen → Type 0
IsPassed dir from ss = (s : Screen) → In s ss → is_candidate dir from s ≡ false

-- `e` enters a candidate of the code that no other one beats.
pub record Chooses (dir : Direction) (exit_perp : ℤ) (from : Screen) (ss : List Screen) (e : Entry)
    : Type 0 where
  pub screen : Screen
  pub listed : In screen ss
  pub beyond : is_candidate dir from screen ≡ true
  pub same_id : e.id ≡ screen.id
  pub inside : IsInside screen.rect e.x e.y
  pub preferred :
      (t : Screen)
      → In t ss
      → is_candidate dir from t ≡ true
      → NotBeaten (score dir exit_perp from.rect screen) (score dir exit_perp from.rect t)

-- The same with the tests and scores of the code, for any screens.
pub neighbor-Chooses :
    (l : Layout) (from : Screen) (dir : Direction) (at_x at_y : ℤ)
    → find_id from.id l.screens ≡ some from
    → ((neighbor l from.id dir at_x at_y ≡ done none) × IsPassed dir from l.screens)
      ⊎ ((e : Entry) × (neighbor l from.id dir at_x at_y ≡ done (some e))
          × Chooses dir (across dir at_x at_y) from l.screens e)
unfolding neighbor score
neighbor-Chooses l from dir at_x at_y f =
    elim (Option-cases (scan dir (across dir at_x at_y) from l.screens none)) [
      | inl e ↦ inl (
        ap (neighbor_of dir at_x at_y l.screens) f ∙ ap (enter_best dir at_x at_y) e,
        (scan-none dir (across dir at_x at_y) from l.screens none e).1,
      )
      | inr (b, e) ↦ elim (scan_from dir (across dir at_x at_y) from l.screens none b e) [
        | inl absent ↦ cc
        | inr (s, i, c, p) ↦
            let (q, r, v) = entry_point-IsInside dir b.screen.rect at_x at_y in
            let same : b.screen ≡ s = ap (λ (t : Best). t.screen) p in
            inr (
              record { id = b.screen.id; x = q.0; y = q.1 },
              ap (neighbor_of dir at_x at_y l.screens) f
                  ∙ (ap (enter_best dir at_x at_y) e
                      ∙ ap (λ m. m >>= λ t. done (entry_of b.screen.id t)) r),
              record {
                screen = s;
                listed = i;
                beyond = c;
                same_id = ap (λ (t : Screen). t.id) same;
                inside = subst (λ (t : Screen). IsInside t.rect q.0 q.1) same v;
                preferred =
                    subst
                      (λ t.
                        (u : Screen)
                        → In u l.screens
                        → is_candidate dir from u ≡ true
                        → NotBeaten t (score dir (across dir at_x at_y) from.rect u))
                      p (scan_best dir (across dir at_x at_y) from l.screens none b e).1;
              },
            )
      ]
    ]

-- The screens that lie beyond an edge of `from`.
abbrev pub Faces : Direction → Screen → Screen → Type 0
Faces dir from s = (¬ s.id ≡ from.id) × IsBeyond dir from.rect s.rect

-- No screen lies beyond the edge.
abbrev pub IsDeadEdge : Direction → Screen → List Screen → Type 0
IsDeadEdge dir from ss = (s : Screen) → In s ss → ¬ Faces dir from s

-- Lexicographic order on pairs of distances.
abbrev pub LexLe : ℕ → ℕ → ℕ → ℕ → Type 0
LexLe a b c d = (a < c) ⊎ ((a ≡ c) × (b ≤ d))

-- `e` enters a screen `s` beyond the edge, at one of its pixels; every other screen there is passed by
-- as far or farther, and if as far, it does not begin nearer to the edge.
pub record Enters (dir : Direction) (at : ℤ) (from : Screen) (ss : List Screen) (e : Entry)
    : Type 0 where
  pub screen : Screen
  pub listed : In screen ss
  pub beyond : Faces dir from screen
  pub same_id : e.id ≡ screen.id
  pub x_lo : pos 0 ≤ℤ e.x
  pub x_hi : e.x <ℤ screen.rect.w
  pub y_lo : pos 0 ≤ℤ e.y
  pub y_hi : e.y <ℤ screen.rect.h
  pub preferred :
      (t : Screen)
      → In t ss
      → Faces dir from t
      → LexLe
          (aside dir at screen.rect)
          (ahead dir from.rect screen.rect)
          (aside dir at t.rect)
          (ahead dir from.rect t.rect)

candidate_iff :
    (dir : Direction) (from s : Screen)
    → IsDesk from.rect
    → IsDesk s.rect
    → (is_candidate dir from s ≡ true) ↔ Faces dir from s
unfolding is_candidate
candidate_iff dir from s f d =
    let (there, back) = past_iff from.rect s.rect f d dir in
    (
      λ e. ((λ same. absurd (ground arith)), there (ground arith)),
      λ h.
          let beyond : past dir from.rect s.rect ≡ true = back h.1 in
          let other : (s.id == from.id) ≡ false = let n = h.0 in ground arith in
          ground (arith, beyond, other),
    )

LexLe-from : (a b c d : ℕ) → lex_lt (pos c) (pos d) (pos a) (pos b) ≡ false → LexLe a b c d
LexLe-from a b c d h = ground arith

preferred_lem :
    (dir : Direction) (at : ℤ) (from s t : Screen)
    → IsNear at
    → IsDesk from.rect
    → IsDesk s.rect
    → IsDesk t.rect
    → NotBeaten (score dir at from.rect s) (score dir at from.rect t)
    → LexLe
        (aside dir at s.rect)
        (ahead dir from.rect s.rect)
        (aside dir at t.rect)
        (ahead dir from.rect t.rect)
unfolding score
preferred_lem dir at from s t n f ds dt h = LexLe-from _ _ _ _ (
    rw
      (
        perp_lem from.rect s.rect f ds dir at n,
        perp_lem from.rect t.rect f dt dir at n,
        parallel_lem from.rect s.rect f ds dir,
        parallel_lem from.rect t.rect f dt dir,
      )
      at h)

-- From a screen of a layout whose screens have pixels, and edges less than 2 ^ 30 from the origin,
-- like the coordinate of the ray, `neighbor` never panics: either no other screen lies beyond the
-- edge, up to an overlap of 16 pixels, and it finds none, or it enters such a screen at one of its
-- pixels, and the ray misses every other such screen by at least as many pixels, and by as many
-- only if that screen's near edge is at least as far ahead.
pub neighbor-Enters :
    (l : Layout) (from : Screen) (dir : Direction) (at_x at_y : ℤ)
    → find_id from.id l.screens ≡ some from
    → All (λ (s : Screen). IsDesk s.rect) l.screens
    → IsNear (across dir at_x at_y)
    → ((neighbor l from.id dir at_x at_y ≡ done none) × IsDeadEdge dir from l.screens)
      ⊎ ((e : Entry) × (neighbor l from.id dir at_x at_y ≡ done (some e))
          × Enters dir (across dir at_x at_y) from l.screens e)
neighbor-Enters l from dir at_x at_y f h n = elim (neighbor-Chooses l from dir at_x at_y f) [
  | inl (q, passed) ↦ inl (
    q,
    λ s i faces.
        let yes = (candidate_iff dir from s home (desk s i)).1 faces in
        let unseen : is_candidate dir from s ≡ false = passed s i in cc,
  )
  | inr (e, q, c) ↦
      let at_s : IsDesk c.screen.rect = desk c.screen c.listed in
      let (wide, tall) = last_pixel_lt from.rect c.screen.rect home at_s in
      let w : IsInside c.screen.rect e.x e.y = c.inside in
      inr (
        e,
        q,
        record {
          screen = c.screen;
          listed = c.listed;
          beyond = (candidate_iff dir from c.screen home at_s).0 c.beyond;
          same_id = c.same_id;
          x_lo = w.x_lo;
          x_hi = let k = w.x_hi in omega (arith, k, wide);
          y_lo = w.y_lo;
          y_hi = let k = w.y_hi in omega (arith, k, tall);
          preferred = λ t j faces.
              preferred_lem dir (across dir at_x at_y) from c.screen t n home at_s (desk t j)
                (c.preferred t j ((candidate_iff dir from t home (desk t j)).1 faces));
        },
      )
]
  where
    desk : (s : Screen) → In s l.screens → IsDesk s.rect
    desk s i = All-In (λ (t : Screen). IsDesk t.rect) l.screens h i

    home : IsDesk from.rect
    home = desk from (find_by-In (λ s. s.id == from.id) l.screens f).1

exit_side_iff : (r : Rect) (x y : ℤ) → (exit_side r x y ≡ none) ↔ (contains r x y ≡ true)
unfolding contains
exit_side_iff r x y = ground arith

-- A position has left a screen of the layout exactly when the screen does not contain it.
pub exit_direction_iff :
    (l : Layout) (id : ℕ) (s : Screen) (x y : ℤ)
    → find l id ≡ some s
    → (exit_direction l id x y ≡ none) ↔ (contains s.rect x y ≡ true)
unfolding exit_direction
exit_direction_iff l id s x y f = rw (f, exit_of) (exit_side_iff s.rect x y)
