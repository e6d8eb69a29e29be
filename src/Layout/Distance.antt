-- ===== src/Layout/Distance.antt =====
-- crates/protocol/src/layout.rs: the geometry of `neighbor` in exact integers.
use kvmshare.Prelude.{
  Bool-cases, ap, arith, if◌then◌else◌, inl, inr, ltb→lt, subst, sym, true, ℕ, ◌+◌, ◌-◌, ◌<◌, ◌^◌,
  ◌↔◌, ◌∙◌, ◌≡◌,
}
use kvmshare.Layout.Edges.{Direction}
use kvmshare.Layout.Ray.{facing_edge, last_pixel, parallel, past, perp}
use kvmshare.Prelude.I32.{IsI32}
use kvmshare.Prelude.I32.Bounds.{add_exact, sub_exact}
use kvmshare.Prelude.Int.{
  +ℤ_parts, -ℤ_parts, eq_of_parts, leb_ℤ, ltb_ℤ, neg_part, negsuc, one_sided, pos, pos_part, ℤ,
  ◌+ℤ◌, ◌-ℤ◌, ◌<ℤ◌, ◌≤ℤ◌,
}
use kvmshare.Protocol.Geometry.{Rect}
use kvmshare.Prelude.I32

-- Far from where an i32 wraps around.
abbrev pub IsNear : ℤ → Type 0
IsNear z = (pos_part z < 2 ^ 30) × (neg_part z < 2 ^ 30)

-- A rectangle with pixels, and with edges far from where an i32 wraps around.
pub record IsDesk (r : Rect) : Type 0 where
  pub wide : pos 1 ≤ℤ r.w
  pub tall : pos 1 ≤ℤ r.h
  pub left_near : IsNear r.x
  pub right_near : IsNear (r.x +ℤ r.w)
  pub top_near : IsNear r.y
  pub bottom_near : IsNear (r.y +ℤ r.h)

-- How far `a` lies above `b`: 0 if it does not.
abbrev pub above : ℤ → ℤ → ℕ
above a b = pos_part a + neg_part b - (pos_part b + neg_part a)

-- `r` begins where `from` ends, or later, but for 16 pixels.
abbrev pub IsBeyond : Direction → Rect → Rect → Type 0
IsBeyond Direction.left from r = r.x +ℤ r.w ≤ℤ from.x +ℤ pos 16
IsBeyond Direction.right from r = from.x +ℤ from.w ≤ℤ r.x +ℤ pos 16
IsBeyond Direction.top from r = r.y +ℤ r.h ≤ℤ from.y +ℤ pos 16
IsBeyond Direction.bottom from r = from.y +ℤ from.h ≤ℤ r.y +ℤ pos 16

-- The pixels between `from` and `r`, in the direction of the ray.
abbrev pub ahead : Direction → Rect → Rect → ℕ
ahead Direction.left from r = above from.x (r.x +ℤ r.w)
ahead Direction.right from r = above r.x (from.x +ℤ from.w)
ahead Direction.top from r = above from.y (r.y +ℤ r.h)
ahead Direction.bottom from r = above r.y (from.y +ℤ from.h)

-- How far a coordinate lies outside the pixels from `lo` to `hi`, the latter excluded.
abbrev pub off_span : ℤ → ℤ → ℤ → ℕ
off_span p lo hi = above lo p + above p (hi -ℤ pos 1)

-- How far the ray passes `r` by.
abbrev pub aside : Direction → ℤ → Rect → ℕ
aside Direction.left p r = off_span p r.y (r.y +ℤ r.h)
aside Direction.right p r = off_span p r.y (r.y +ℤ r.h)
aside Direction.top p r = off_span p r.x (r.x +ℤ r.w)
aside Direction.bottom p r = off_span p r.x (r.x +ℤ r.w)

near-IsI32 : (z : ℤ) → IsNear z → IsI32 z
near-IsI32 z h = (omega (arith, h.0), omega (arith, h.1))

sub_near : (a b : ℤ) → IsNear a → IsNear b → I32.sub a b ≡ a -ℤ b
sub_near a b (p, q) (r, s) = sub_exact a b (
  omega (arith, -ℤ_parts a b, one_sided (a -ℤ b), p, q, r, s),
  omega (arith, -ℤ_parts a b, one_sided (a -ℤ b), p, q, r, s),
)

add_near : (a : ℤ) → IsNear a → I32.add a (pos 16) ≡ a +ℤ pos 16
add_near a (p, q) = add_exact a (pos 16) (
  omega (arith, +ℤ_parts a (pos 16), one_sided (a +ℤ pos 16), p, q),
  omega (arith, +ℤ_parts a (pos 16), one_sided (a +ℤ pos 16), p, q),
)

-- The two forms of the test of `neighbor`.
add_test : (a b : ℤ) → IsNear b → (leb_ℤ a (I32.add b (pos 16)) ≡ true) ↔ (a ≤ℤ b +ℤ pos 16)
add_test a b n = rw (add_near b n) (ground arith)

sub_test : (a b : ℤ) → IsNear a → (leb_ℤ (I32.sub a (pos 16)) b ≡ true) ↔ (a ≤ℤ b +ℤ pos 16)
sub_test a b n =
    rw (sub_near a (pos 16) n (omega arith, omega arith))
      (ground (arith, -ℤ_parts a (pos 16), +ℤ_parts b (pos 16)))

max_zero : (z : ℤ) → I32.max z (pos 0) ≡ pos (pos_part z)
unfolding I32.max
max_zero (pos n) = ground arith
max_zero (negsuc n) = ground arith

gap_lem : (a b : ℤ) → IsNear a → IsNear b → I32.max (I32.sub a b) (pos 0) ≡ pos (above a b)
gap_lem a b p q =
    ap (λ z. I32.max z (pos 0)) (sub_near a b p q)
    ∙ max_zero (a -ℤ b)
    ∙ ap pos (omega (arith, -ℤ_parts a b, one_sided (a -ℤ b)))

max_left : (a b : ℤ) → b ≤ℤ a → I32.max a b ≡ a
unfolding I32.max
max_left a b h = ground arith

last_lem : (lo hi : ℤ) → IsNear hi → lo <ℤ hi → I32.max (I32.sub hi (pos 1)) lo ≡ hi -ℤ pos 1
last_lem lo hi n h =
    ap (λ z. I32.max z lo) (sub_near hi (pos 1) n (omega arith, omega arith))
    ∙ max_left (hi -ℤ pos 1) lo (omega (arith, -ℤ_parts hi (pos 1), h))

module _ (p lo hi : ℤ) (np : IsNear p) (nl : IsNear lo) (nh : IsNear hi) (w : lo <ℤ hi) where
  before_span : p <ℤ lo → I32.sub lo p ≡ pos (off_span p lo hi)
  before_span h =
      sub_near lo p nl np
      ∙ eq_of_parts _ _
          (omega (arith, -ℤ_parts lo p, -ℤ_parts hi (pos 1), one_sided (lo -ℤ p), h, w))

  behind_span : hi ≤ℤ p → I32.sub p (I32.max (I32.sub hi (pos 1)) lo) ≡ pos (off_span p lo hi)
  behind_span h =
      let z : ℤ = hi -ℤ pos 1 in
      let (a, b) = np in
      let (c, d) = nh in
      let exact : IsI32 (p -ℤ z) = (
        omega
            (arith, -ℤ_parts p z, -ℤ_parts hi (pos 1), one_sided (p -ℤ z), one_sided z, a, b, c, d),
        omega
            (arith, -ℤ_parts p z, -ℤ_parts hi (pos 1), one_sided (p -ℤ z), one_sided z, a, b, c, d),
      ) in
      ap (I32.sub p) (last_lem lo hi nh w)
      ∙ sub_exact p z exact
      ∙ eq_of_parts _ _ (omega (arith, -ℤ_parts p z, -ℤ_parts hi (pos 1), one_sided (p -ℤ z), h, w))

  span_lem :
      (if ltb_ℤ p lo
        then I32.sub lo p
        else if leb_ℤ hi p
        then I32.sub p (I32.max (I32.sub hi (pos 1)) lo)
        else pos 0)
      ≡ pos (off_span p lo hi)
  span_lem = elim (Bool-cases (ltb_ℤ p lo)) [
    | inl less ↦ rw less (before_span (ltb→lt _ _ less))
    | inr later ↦ rw later (elim (Bool-cases (leb_ℤ hi p)) [
      | inl more ↦ rw more (behind_span (ground arith))
      | inr inside ↦
          let z : p <ℤ hi = ground arith in
          let y : lo ≤ℤ p = ground arith in
          rw inside (ap pos (omega (arith, -ℤ_parts hi (pos 1), z, y)))
    ])
  ]

-- On a desk `past` tests whether the screen lies beyond the edge, and the two distances are exact.
module _ (from r : Rect) (f : IsDesk from) (d : IsDesk r) where
  pub past_iff : (dir : Direction) → (past dir from r ≡ true) ↔ IsBeyond dir from r
  unfolding past
  past_iff Direction.left =
      rw (add_exact r.x r.w (near-IsI32 _ d.right_near)) (add_test _ from.x f.left_near)
  past_iff Direction.right =
      rw (add_exact from.x from.w (near-IsI32 _ f.right_near)) (sub_test _ r.x f.right_near)
  past_iff Direction.top =
      rw (add_exact r.y r.h (near-IsI32 _ d.bottom_near)) (add_test _ from.y f.top_near)
  past_iff Direction.bottom =
      rw (add_exact from.y from.h (near-IsI32 _ f.bottom_near)) (sub_test _ r.y f.bottom_near)

  pub parallel_lem :
      (dir : Direction) → parallel dir from (facing_edge dir r) ≡ pos (ahead dir from r)
  unfolding parallel
  parallel_lem Direction.left =
      rw (add_exact r.x r.w (near-IsI32 _ d.right_near)) (gap_lem _ _ f.left_near d.right_near)
  parallel_lem Direction.right =
      rw (add_exact from.x from.w (near-IsI32 _ f.right_near))
        (gap_lem _ _ d.left_near f.right_near)
  parallel_lem Direction.top =
      rw (add_exact r.y r.h (near-IsI32 _ d.bottom_near)) (gap_lem _ _ f.top_near d.bottom_near)
  parallel_lem Direction.bottom =
      rw (add_exact from.y from.h (near-IsI32 _ f.bottom_near))
        (gap_lem _ _ d.top_near f.bottom_near)

  wide_lt : r.x <ℤ r.x +ℤ r.w
  wide_lt = let h = d.wide in omega (arith, +ℤ_parts r.x r.w, h)

  tall_lt : r.y <ℤ r.y +ℤ r.h
  tall_lt = let h = d.tall in omega (arith, +ℤ_parts r.y r.h, h)

  pub perp_lem : (dir : Direction) (p : ℤ) → IsNear p → perp dir p r ≡ pos (aside dir p r)
  unfolding perp
  perp_lem Direction.left p n =
      rw (add_exact r.y r.h (near-IsI32 _ d.bottom_near))
        (span_lem p _ _ n d.top_near d.bottom_near tall_lt)
  perp_lem Direction.right p n =
      rw (add_exact r.y r.h (near-IsI32 _ d.bottom_near))
        (span_lem p _ _ n d.top_near d.bottom_near tall_lt)
  perp_lem Direction.top p n =
      rw (add_exact r.x r.w (near-IsI32 _ d.right_near))
        (span_lem p _ _ n d.left_near d.right_near wide_lt)
  perp_lem Direction.bottom p n =
      rw (add_exact r.x r.w (near-IsI32 _ d.right_near))
        (span_lem p _ _ n d.left_near d.right_near wide_lt)

  pub last_pixel_lt : (last_pixel r.w <ℤ r.w) × (last_pixel r.h <ℤ r.h)
  last_pixel_lt = (
    pixel_lt r.x r.w d.wide d.left_near d.right_near,
    pixel_lt r.y r.h d.tall d.top_near d.bottom_near,
  )
    where
      pixel_lt : (x w : ℤ) → pos 1 ≤ℤ w → IsNear x → IsNear (x +ℤ w) → last_pixel w <ℤ w
      pixel_lt x w h (a, b) (c, e) =
          let exact : IsI32 (w -ℤ pos 1) = (
            omega (
              arith,
              -ℤ_parts w (pos 1),
              +ℤ_parts x w,
              one_sided (w -ℤ pos 1),
              one_sided w,
              one_sided (x +ℤ w),
              h,
              a,
              b,
              c,
              e,
            ),
            omega (arith, -ℤ_parts w (pos 1), +ℤ_parts x w, one_sided (w -ℤ pos 1), h),
          ) in
          let same : last_pixel w ≡ pos (pos_part (w -ℤ pos 1)) =
            ap (λ z. I32.max z (pos 0)) (sub_exact w (pos 1) exact) ∙ max_zero (w -ℤ pos 1) in
          subst (λ z. z <ℤ w) (sym same)
            (omega (arith, -ℤ_parts w (pos 1), one_sided (w -ℤ pos 1), h))
