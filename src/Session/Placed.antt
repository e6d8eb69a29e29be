-- ===== src/Session/Placed.antt =====
-- crates/core/src/session/motion.rs: `clamp_to` on a screen with pixels.
-- The part of a session that only crossings change.
use kvmshare.Prelude.{Bool, List, ap, arith, refl, subst, sym, ℕ, ◌∙◌, ◌≡◌}
use kvmshare.Layout.{Layout}
use kvmshare.Prelude.I32.{IsI32}
use kvmshare.Prelude.I32.Bounds.{add_exact, clamp_bounds, sub_exact}
use kvmshare.Prelude.Int.{+ℤ_parts, -ℤ_parts, one_sided, pos, ℤ, ◌+ℤ◌, ◌-ℤ◌, ◌≤ℤ◌}
use kvmshare.Prelude.Run.{Ensures, Ensures->>=, done}
use kvmshare.Protocol.Geometry.{Rect, bottom, left, right, top}
use kvmshare.Session.Crossing.{clamp_to_rect}
use kvmshare.Session.State.{Mode, Session}
use kvmshare.Prelude.I32

pub record Core : Type 0 where
  pub layout : Layout
  pub local : Rect
  pub connected : List ℕ
  pub mode : Mode
  pub locked : Bool

abbrev pub core : {F : Type 0} → Session F → Core
core s = record {
  layout = s.layout;
  local = s.local;
  connected = s.connected;
  mode = s.cursor.mode;
  locked = s.walls_locked;
}

-- A rectangle with pixels, whose edges are i32 numbers.
pub record IsPlaced (r : Rect) : Type 0 where
  pub wide : pos 1 ≤ℤ r.w
  pub tall : pos 1 ≤ℤ r.h
  pub left_range : IsI32 r.x
  pub right_range : IsI32 (r.x +ℤ r.w)
  pub top_range : IsI32 r.y
  pub bottom_range : IsI32 (r.y +ℤ r.h)

last_exact :
    (x w : ℤ)
    → pos 1 ≤ℤ w
    → IsI32 x
    → IsI32 (x +ℤ w)
    → I32.sub (I32.add x w) (pos 1) ≡ x +ℤ w -ℤ pos 1
last_exact x w p hx hw =
    ap (λ r. I32.sub r (pos 1)) (add_exact x w hw)
    ∙ sub_exact (x +ℤ w) (pos 1) (
        omega (
          arith,
          +ℤ_parts x w,
          -ℤ_parts (x +ℤ w) (pos 1),
          one_sided (x +ℤ w -ℤ pos 1),
          one_sided (x +ℤ w),
        ))

last_ge : (x w : ℤ) → pos 1 ≤ℤ w → IsI32 x → IsI32 (x +ℤ w) → x ≤ℤ I32.sub (I32.add x w) (pos 1)
last_ge x w p hx hw =
    rw (last_exact x w p hx hw) (omega (arith, +ℤ_parts x w, -ℤ_parts (x +ℤ w) (pos 1)))

-- The virtual cursor can always be clamped into a placed rectangle.
pub clamp_total : (v lo hi : ℤ) → lo ≤ℤ hi → Ensures (λ (z : ℤ). Unit {0}) (I32.clamp v lo hi)
clamp_total v lo hi h =
    let (r, e, rest) = clamp_done v lo hi h in subst (Ensures (λ (z : ℤ). Unit {0})) (sym e) tt
  where
    clamp_done : (v lo hi : ℤ) → lo ≤ℤ hi → (r : ℤ) × (I32.clamp v lo hi ≡ done r) × Unit {0}
    clamp_done v lo hi h = let (r, e, a, b, c) = clamp_bounds v lo hi h in (r, e, tt)

pub clamp_to_rect-core :
    {F : Type 0} (s : Session F) (r : Rect)
    → IsPlaced r
    → Ensures (λ (t : Session F). core t ≡ core s) (clamp_to_rect s r)
unfolding clamp_to_rect
clamp_to_rect-core {F} s r p =
    Ensures->>= (λ x. Unit {0}) _ (I32.clamp s.cursor.x (left r) (I32.sub (right r) (pos 1))) _
      (clamp_total _ _ _ (last_ge r.x r.w p.wide p.left_range p.right_range))
      (λ x _.
        Ensures->>= (λ y. Unit {0}) _ (I32.clamp s.cursor.y (top r) (I32.sub (bottom r) (pos 1))) _
          (clamp_total _ _ _ (last_ge r.y r.h p.tall p.top_range p.bottom_range)) (λ y _. refl))
