-- ===== src/Prelude/I32.antt =====
-- Rust's i32 over the integers: `+`, `-`, `abs` and casts wrap around modulo 2 ^ 32, as they do in a
-- release build; `min`, `max` and comparisons are exact; `clamp` panics on an empty range.
use kvmshare.Prelude.Int.{leb_ℤ, ltb_ℤ, neg_part, negsuc, pos, pos_part, ℤ, ◌+ℤ◌, ◌-ℤ◌}
use kvmshare.Prelude.Run.{Run, done, panic}
use kvmshare.Prelude.Tests.{if◌then◌else◌, ltb}
pub mod Bounds
use Prim.Native.Nat.{ℕ, suc, ◌-◌, ◌/◌, ◌%◌, ◌^◌, ◌≤◌, ◌<◌}
use mathlib.Core.Path.{◌≡◌}
use native.Mathlib.Omega.{arith}

-- The 32 bits of a number in two's complement, as a u32.
unfoldable pub to_bits : ℤ → ℕ
to_bits (pos n) = n % 2 ^ 32
to_bits (negsuc n) = 2 ^ 32 - 1 - n % 2 ^ 32

-- The i32 that 32 bits stand for.
unfoldable pub of_bits : ℕ → ℤ
of_bits b = if ltb b (2 ^ 31) then pos b else negsuc (2 ^ 32 - 1 - b)

abbrev pub IsI32 : ℤ → Type 0
IsI32 z = (pos_part z < 2 ^ 31) × (neg_part z ≤ 2 ^ 31)

unfoldable pub wrap : ℤ → ℤ
unfolding to_bits of_bits
wrap z = of_bits (to_bits z)

pub of_bits-to_bits : (z : ℤ) → IsI32 z → of_bits (to_bits z) ≡ z
unfolding to_bits of_bits
of_bits-to_bits (pos n) h = ground arith
of_bits-to_bits (negsuc n) h = ground arith

pub to_bits-lt : (z : ℤ) → to_bits z < 2 ^ 32
unfolding to_bits
to_bits-lt (pos n) = omega arith
to_bits-lt (negsuc n) = omega arith

-- Where the true value fits, wrapping changes nothing.
pub wrap_id : (z : ℤ) → IsI32 z → wrap z ≡ z
unfolding wrap
wrap_id z h = of_bits-to_bits z h

pub wrap-IsI32 : (z : ℤ) → IsI32 (wrap z)
unfolding wrap
wrap-IsI32 (pos n) = ground arith
wrap-IsI32 (negsuc n) = ground arith

unfoldable pub add : ℤ → ℤ → ℤ
add a b = wrap (a +ℤ b)

unfoldable pub sub : ℤ → ℤ → ℤ
sub a b = wrap (a -ℤ b)

unfoldable pub neg : ℤ → ℤ
neg a = wrap (pos 0 -ℤ a)

unfoldable pub abs : ℤ → ℤ
abs a = if ltb_ℤ a (pos 0) then wrap (pos 0 -ℤ a) else a

-- Division by two, truncated toward zero.
unfoldable pub half : ℤ → ℤ
half (pos n) = pos (n / 2)
half (negsuc n) = pos 0 -ℤ pos (suc n / 2)

unfoldable pub min : ℤ → ℤ → ℤ
min a b = if leb_ℤ a b then a else b

unfoldable pub max : ℤ → ℤ → ℤ
max a b = if leb_ℤ b a then a else b

-- `v.clamp(lo, hi)`; it panics where `hi < lo`.
unfoldable pub clamp : ℤ → ℤ → ℤ → Run ℤ
clamp v lo hi =
    if ltb_ℤ hi lo then panic else done (if ltb_ℤ v lo then lo else if ltb_ℤ hi v then hi else v)

-- `saturating_add` and `saturating_sub`.
unfoldable pub saturate : ℤ → ℤ
saturate z = max (pos 0 -ℤ pos (2 ^ 31)) (min z (pos (2 ^ 31 - 1)))

abbrev pub saturating_add : ℤ → ℤ → ℤ
saturating_add a b = saturate (a +ℤ b)

abbrev pub saturating_sub : ℤ → ℤ → ℤ
saturating_sub a b = saturate (a -ℤ b)
