-- ===== src/Session/Entry.antt =====
-- crates/core/src/session/motion.rs: where a crossing puts the cursor.
use kvmshare.Prelude.{
  Bool, ap, arith, false, refl, some, subst, sym, true, ℕ, ◌&&◌, ◌-◌, ◌<◌, ◌^◌, ◌∙◌, ◌≡◌, ◌≤◌,
}
use kvmshare.Layout.{find}
use kvmshare.Layout.Edges.{Direction}
use kvmshare.Layout.Ray.{entry_point, last_pixel}
use kvmshare.Prelude.I32.{IsI32, saturate, saturating_add, saturating_sub}
use kvmshare.Prelude.I32.Bounds.{max_ge_right, sub_exact}
use kvmshare.Prelude.Int.{
  -ℤ_parts, eq_of_parts, int_laws, leb_ℤ, ltb_ℤ, negsuc, one_sided, pos, ℤ, ◌+ℤ◌, ◌-ℤ◌,
}
use kvmshare.Prelude.Run.{Ensures, Ensures->>=, done, expect, ◌>>=◌}
use kvmshare.Protocol.Geometry.{Rect, Screen}
use kvmshare.Session.Boundary.{at_bit, edge_band, entry_inset, wall_bits}
use kvmshare.Session.Crossing.{inset_entry, inset_in}
use kvmshare.Session.Placed.{clamp_total}
use kvmshare.Session.State.{Session}
use kvmshare.Prelude.I32

abbrev pub opposite : Direction → Direction
opposite Direction.left = Direction.right
opposite Direction.right = Direction.left
opposite Direction.top = Direction.bottom
opposite Direction.bottom = Direction.top

sub_pos : (n k : ℕ) → n < 2 ^ 31 → k ≤ n → I32.sub (pos n) (pos k) ≡ pos (n - k)
sub_pos n k h l =
    sub_exact (pos n) (pos k)
      (omega (arith, int_laws, -ℤ_parts (pos n) (pos k), one_sided (pos n -ℤ pos k)))
    ∙ eq_of_parts (pos n -ℤ pos k) (pos (n - k)) (omega (arith, -ℤ_parts (pos n) (pos k)))

last_pixel_pos : (n : ℕ) → n < 2 ^ 31 → 0 < n → last_pixel (pos n) ≡ pos (n - 1)
unfolding I32.max
last_pixel_pos n h l = ap (λ z. I32.max z (pos 0)) (sub_pos n 1 h l) ∙ ground arith

-- From the first pixel of a span, the inset leaves the band of the edge there, if the span is longer
-- than two bands.
low_inset :
    (n : ℕ)
    → n < 2 ^ 31
    → 4 < n
    → ltb_ℤ (I32.min (I32.saturating_add (pos 0) entry_inset) (I32.sub (pos n) (pos 1))) edge_band
      ≡ false
unfolding I32.min I32.saturate I32.max ◌+ℤ◌ ◌-ℤ◌
low_inset n h p =
    ap (λ z. ltb_ℤ (I32.min (I32.saturating_add (pos 0) entry_inset) z) edge_band)
      (sub_pos n 1 h (omega arith))
    ∙ ground arith

high_inset :
    (n : ℕ)
    → n < 2 ^ 31
    → 4 < n
    → leb_ℤ
        (I32.sub (pos n) edge_band)
        (I32.max (I32.saturating_sub (pos (n - 1)) entry_inset) (pos 0))
      ≡ false
unfolding I32.max I32.saturate I32.min ◌-ℤ◌
high_inset n h p =
    ap (λ z. leb_ℤ z (I32.max (I32.saturating_sub (pos (n - 1)) entry_inset) (pos 0)))
      (sub_pos n 2 h (omega arith))
    ∙ ground arith

when_true : (a b : Bool) → (a ≡ true → b ≡ false) → (a && b) ≡ false
when_true true b h = h refl
when_true false b h = refl

low_off :
    (d : ℤ)
    → IsI32 d
    → (ltb_ℤ (pos 4) d
        && ltb_ℤ (I32.min (I32.saturating_add (pos 0) entry_inset) (I32.sub d (pos 1))) edge_band)
      ≡ false
low_off (pos n) h =
    when_true (ltb_ℤ (pos 4) (pos n)) _ (λ p. low_inset n (omega arith) (ground arith))
low_off (negsuc n) h = when_true (ltb_ℤ (pos 4) (negsuc n)) _ (λ p. absurd (ground arith))

high_off :
    (d : ℤ)
    → IsI32 d
    → (ltb_ℤ (pos 4) d
        && leb_ℤ
            (I32.sub d edge_band)
            (I32.max (I32.saturating_sub (last_pixel d) entry_inset) (pos 0)))
      ≡ false
high_off (pos n) h = when_true (ltb_ℤ (pos 4) (pos n)) _ (λ p.
    ap (λ z. leb_ℤ (I32.sub (pos n) edge_band) (I32.max (I32.saturating_sub z entry_inset) (pos 0)))
      (last_pixel_pos n (omega arith) (ground arith))
    ∙ high_inset n (omega arith) (ground arith))
high_off (negsuc n) h = when_true (ltb_ℤ (pos 4) (negsuc n)) _ (λ p. absurd (ground arith))

-- The landing spot is off the wall that the ray came through.
abbrev pub IsOffWall : Direction → Rect → ℤ × ℤ → Type 0
IsOffWall dir r p = at_bit (opposite dir) (wall_bits r p.0 p.1) ≡ false

entry_point-IsOffWall :
    (dir : Direction) (r : Rect) (at_x at_y : ℤ)
    → IsI32 r.w
    → IsI32 r.h
    → Ensures (λ p. IsOffWall dir r (inset_in dir r p.0 p.1)) (entry_point dir r at_x at_y)
unfolding entry_point at_bit wall_bits
entry_point-IsOffWall Direction.left r at_x at_y w h =
    Ensures->>= (λ z. Unit {0}) _ (I32.clamp (I32.sub at_y r.y) (pos 0) (last_pixel r.h)) _
      (clamp_total _ _ _ (max_ge_right _ (pos 0))) (λ z u. high_off r.w w)
entry_point-IsOffWall Direction.right r at_x at_y w h =
    Ensures->>= (λ z. Unit {0}) _ (I32.clamp (I32.sub at_y r.y) (pos 0) (last_pixel r.h)) _
      (clamp_total _ _ _ (max_ge_right _ (pos 0))) (λ z u. low_off r.w w)
entry_point-IsOffWall Direction.top r at_x at_y w h =
    Ensures->>= (λ z. Unit {0}) _ (I32.clamp (I32.sub at_x r.x) (pos 0) (last_pixel r.w)) _
      (clamp_total _ _ _ (max_ge_right _ (pos 0))) (λ z u. high_off r.h h)
entry_point-IsOffWall Direction.bottom r at_x at_y w h =
    Ensures->>= (λ z. Unit {0}) _ (I32.clamp (I32.sub at_x r.x) (pos 0) (last_pixel r.w)) _
      (clamp_total _ _ _ (max_ge_right _ (pos 0))) (λ z u. low_off r.h h)

inset_entry-IsOffWall :
    {F : Type 0} (s : Session F) (id : ℕ) (sc : Screen) (dir : Direction) (p : ℤ × ℤ)
    → find s.layout id ≡ some sc
    → IsOffWall dir sc.rect (inset_in dir sc.rect p.0 p.1)
    → Ensures (IsOffWall dir sc.rect) (inset_entry s id dir p.0 p.1)
unfolding inset_entry
inset_entry-IsOffWall s id sc dir p e h =
    subst
      (λ o. Ensures (IsOffWall dir sc.rect) (expect o >>= λ t. done (inset_in dir t.rect p.0 p.1)))
      (sym e) h

-- The point where a ray enters a screen, after the inset, does not set the bit of the wall that the
-- ray came through. It holds for screens of every i32 size.
pub entry-IsOffWall :
    {F : Type 0} (s : Session F) (id : ℕ) (sc : Screen) (dir : Direction) (at_x at_y : ℤ)
    → find s.layout id ≡ some sc
    → IsI32 sc.rect.w
    → IsI32 sc.rect.h
    → Ensures
        (IsOffWall dir sc.rect)
        (entry_point dir sc.rect at_x at_y >>= λ p. inset_entry s id dir p.0 p.1)
entry-IsOffWall s id sc dir at_x at_y e w h =
    Ensures->>= (λ p. IsOffWall dir sc.rect (inset_in dir sc.rect p.0 p.1)) _
      (entry_point dir sc.rect at_x at_y) _ (entry_point-IsOffWall dir sc.rect at_x at_y w h)
      (λ p q. inset_entry-IsOffWall s id sc dir p e q)
