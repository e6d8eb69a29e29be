-- ===== src/Udp/Newer.antt =====
-- The wrapping order of sequence numbers.
use kvmshare.Prelude.{arith, false, true, ℕ, ◌%◌, ◌+◌, ◌-◌, ◌<◌, ◌^◌, ◌↔◌, ◌≡◌}
use kvmshare.Protocol.Wire.RoundTrip.{IsU32}
use kvmshare.Udp.{is_newer}

-- A 32-bit number is newer than another exactly when it lies 1 to 2 ^ 31 - 1 steps ahead, also
-- across the wrap at 2 ^ 32.
pub is_newer_iff :
    (seq last : ℕ)
    → IsU32 seq
    → IsU32 last
    → (is_newer seq last ≡ true) ↔ ((k : ℕ) × (0 < k) × (k < 2 ^ 31) × (seq ≡ (last + k) % 2 ^ 32))
unfolding is_newer
is_newer_iff seq last hs hl = (forth, back)
  where
    forth :
        is_newer seq last ≡ true → (k : ℕ) × (0 < k) × (k < 2 ^ 31) × (seq ≡ (last + k) % 2 ^ 32)
    forth e = ((seq + 2 ^ 32 - last) % 2 ^ 32, ground arith, ground arith, ground arith)

    back : (k : ℕ) × (0 < k) × (k < 2 ^ 31) × (seq ≡ (last + k) % 2 ^ 32) → is_newer seq last ≡ true
    back (k, lo, hi, e) = ground arith

-- Of two 32-bit sequence numbers at most one is newer than the other.
pub is_newer_asymm : (a b : ℕ) → IsU32 a → IsU32 b → is_newer a b ≡ true → is_newer b a ≡ false
unfolding is_newer
is_newer_asymm a b ha hb e = ground arith
