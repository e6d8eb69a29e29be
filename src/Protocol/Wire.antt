-- ===== src/Protocol/Wire.antt =====
-- crates/protocol/src/wire.rs: writers and readers over byte slices. A byte is a number below 256.
-- A `&mut self` method is a function from the old buffer to the new one.
use kvmshare.Prelude.{
  List, String, [], drop, if◌then◌else◌, length, ltb, take, ℕ, ◌%◌, ◌*◌, ◌++◌, ◌+◌, ◌-◌, ◌/◌, ◌<◌,
  ◌^◌, ◌∷◌,
}
use kvmshare.Prelude.I32.{of_bits, to_bits}
use kvmshare.Prelude.Int.{ℤ}
use kvmshare.Protocol.Wire.Utf8.{utf8_valid}
pub mod Utf8
pub mod Parses
pub mod RoundTrip
use mathlib.Core.List.{foldl}

-- `Result<A, WireError>`; the text is the field `what`.
pub data Result {ℓ} (A : Type ℓ) : Type ℓ where
  ok : A → Result A
  err : String → Result A

abbrev pub IsByte : ℕ → Type 0
IsByte b = b < 256

-- `to_be_bytes` and `from_be_bytes`.
unfoldable pub u16_be : ℕ → List ℕ
u16_be v = (v / 2 ^ 8 % 256) ∷ (v % 256) ∷ []

unfoldable pub u32_be : ℕ → List ℕ
u32_be v = (v / 2 ^ 24 % 256) ∷ (v / 2 ^ 16 % 256) ∷ (v / 2 ^ 8 % 256) ∷ (v % 256) ∷ []

unfoldable pub u64_be : ℕ → List ℕ
unfolding u32_be
u64_be v = u32_be (v / 2 ^ 32) ++ u32_be v

unfoldable pub from_be : List ℕ → ℕ
from_be = foldl (λ acc b. acc * 256 + b) 0

-- `WriteBuf`: the bytes written so far.
abbrev pub WriteBuf : Type 0
WriteBuf = List ℕ

unfoldable pub put_u8 : WriteBuf → ℕ → WriteBuf
put_u8 w v = w ++ v ∷ []

unfoldable pub put_u16 : WriteBuf → ℕ → WriteBuf
put_u16 w v = w ++ u16_be v

unfoldable pub put_u32 : WriteBuf → ℕ → WriteBuf
put_u32 w v = w ++ u32_be v

unfoldable pub put_i32 : WriteBuf → ℤ → WriteBuf
put_i32 w v = w ++ u32_be (to_bits v)

unfoldable pub put_u64 : WriteBuf → ℕ → WriteBuf
put_u64 w v = w ++ u64_be v

unfoldable pub put_bytes : WriteBuf → List ℕ → WriteBuf
put_bytes w b = w ++ b

-- `s.len() as u32` wraps.
unfoldable pub put_str : WriteBuf → List ℕ → WriteBuf
unfolding put_u32
put_str w s = put_u32 w (length s % 2 ^ 32) ++ s

pub record ReadBuf : Type 0 where
  pub bytes : List ℕ
  pub pos : ℕ

unfoldable pub read_buf : List ℕ → ReadBuf
read_buf bytes = record { bytes = bytes; pos = 0 }

abbrev pub Reader : Type 0 → Type 0
Reader A = ReadBuf → Result (A × ReadBuf)

abbrev pub and_then : {A B : Type 0} → (A → Reader B) → Result (A × ReadBuf) → Result (B × ReadBuf)
and_then f (ok (a, r)) = f a r
and_then f (err e) = err e

infixl 5 ◌>>=◌ ◌>>◌
abbrev pub ◌>>=◌ : {A B : Type 0} → Reader A → (A → Reader B) → Reader B
◌>>=◌ m f r = and_then f (m r)

abbrev pub ◌>>◌ : {B : Type 0} → Reader (Unit {0}) → Reader B → Reader B
m >> k = m >>= λ _. k

abbrev pub return : {A : Type 0} → A → Reader A
return a r = ok (a, r)

abbrev pub fail : {A : Type 0} → String → Reader A
fail what r = err what

-- `take`. Where `pos + n` leaves the range of usize it also passes the end of the slice, and both
-- tests of the source give the same error.
unfoldable pub take_bytes : ℕ → String → Reader (List ℕ)
take_bytes n what r =
    if ltb (length r.bytes) (r.pos + n)
    then err what
    else ok (take n (drop r.pos r.bytes), record r { pos = r.pos + n })

unfoldable pub get_u8 : Reader ℕ
unfolding take_bytes from_be
get_u8 = do b ← take_bytes 1 "u8"; return (from_be b)

unfoldable pub get_u16 : Reader ℕ
unfolding take_bytes from_be
get_u16 = do b ← take_bytes 2 "u16"; return (from_be b)

unfoldable pub get_u32 : Reader ℕ
unfolding take_bytes from_be
get_u32 = do b ← take_bytes 4 "u32"; return (from_be b)

unfoldable pub get_i32 : Reader ℤ
unfolding take_bytes from_be
get_i32 = do b ← take_bytes 4 "i32"; return (of_bits (from_be b))

unfoldable pub get_u64 : Reader ℕ
unfolding take_bytes from_be
get_u64 = do b ← take_bytes 8 "u64"; return (from_be b)

unfoldable pub get_bytes : ℕ → String → Reader (List ℕ)
unfolding take_bytes
get_bytes n what = take_bytes n what

unfoldable pub get_str : Reader (List ℕ)
unfolding get_u32 take_bytes
get_str = do
  len ← get_u32
  raw ← if ltb (64 * 1024) len then fail "string too long" else take_bytes len "string"
  if utf8_valid raw then return raw else fail "invalid utf-8 string"

unfoldable pub remaining : ReadBuf → ℕ
remaining r = length r.bytes - r.pos
