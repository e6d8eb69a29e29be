-- ===== src/Prelude/I32/Bounds.antt =====
-- Ranges of the i32 operations.
use kvmshare.Prelude.{arith, if◌then◌else◌, ◌≡◌}
use kvmshare.Prelude.I32.{IsI32, wrap_id}
use kvmshare.Prelude.Int.{ltb_ℤ, ℤ, ◌+ℤ◌, ◌-ℤ◌, ◌≤ℤ◌}
use kvmshare.Prelude.Run.{done}
use kvmshare.Prelude.I32

-- A clamp to a range that is not empty returns a number of the range, and keeps one that is inside.
pub clamp_bounds :
    (v lo hi : ℤ)
    → lo ≤ℤ hi
    → (r : ℤ) × (I32.clamp v lo hi ≡ done r) × (lo ≤ℤ r) × (r ≤ℤ hi) × (lo ≤ℤ v → v ≤ℤ hi → r ≡ v)
unfolding I32.clamp
clamp_bounds v lo hi h = (
  if ltb_ℤ v lo then lo else if ltb_ℤ hi v then hi else v,
  ground arith,
  ground arith,
  ground arith,
  ground arith,
)

pub max_ge_right : (a b : ℤ) → b ≤ℤ I32.max a b
unfolding I32.max
max_ge_right a b = ground arith

-- Sums and differences that fit are exact.
pub add_exact : (a b : ℤ) → IsI32 (a +ℤ b) → I32.add a b ≡ a +ℤ b
unfolding I32.add
add_exact a b h = wrap_id (a +ℤ b) h

pub sub_exact : (a b : ℤ) → IsI32 (a -ℤ b) → I32.sub a b ≡ a -ℤ b
unfolding I32.sub
sub_exact a b h = wrap_id (a -ℤ b) h
