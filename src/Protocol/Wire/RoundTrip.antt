-- ===== src/Protocol/Wire/RoundTrip.antt =====
-- Each `get` of wire.rs reads what its `put` appends.
use kvmshare.Prelude.{
  Bool, List, String, [], ap, append-nil, append_assoc, arith, false, if◌then◌else◌, length, ltb,
  subst, sym, true, ℕ, ◌%◌, ◌*◌, ◌++◌, ◌<◌, ◌^◌, ◌∙◌, ◌∷◌, ◌≡◌, ◌≤◌,
}
use kvmshare.Prelude.I32.{IsI32, of_bits, of_bits-to_bits, to_bits, to_bits-lt}
use kvmshare.Prelude.Int.{ℤ}
use kvmshare.Protocol.Wire.{
  Reader, fail, from_be, get_bytes, get_i32, get_str, get_u16, get_u32, get_u64, get_u8, put_str,
  return, take_bytes, u16_be, u32_be, u64_be, ◌>>=◌,
}
use kvmshare.Protocol.Wire.Parses.{Parses, Parses->>=, Parses-return, Parses-take_bytes}
use kvmshare.Protocol.Wire.Utf8.{utf8_valid}

abbrev pub IsU16 : ℕ → Type 0
IsU16 v = v < 2 ^ 16

abbrev pub IsU32 : ℕ → Type 0
IsU32 v = v < 2 ^ 32

-- A Rust string short enough for the wire: its UTF-8 bytes.
pub record IsWireStr (s : List ℕ) : Type 0 where
  pub short : length s ≤ 64 * 1024
  pub valid : utf8_valid s ≡ true

pub Parses-eq :
    {A : Type 0} {m : Reader A} {bs : List ℕ} {a b : A} → a ≡ b → Parses m bs a → Parses m bs b
Parses-eq {m = m} {bs = bs} e p = subst (λ x. Parses m bs x) e p

from_be-u16_be : (v : ℕ) → IsU16 v → from_be (u16_be v) ≡ v
unfolding from_be u16_be
from_be-u16_be v h = omega arith

pub from_be-u32_be : (v : ℕ) → IsU32 v → from_be (u32_be v) ≡ v
unfolding from_be u32_be
from_be-u32_be v h = omega arith

from_be-u64_be : (v : ℕ) → v < 2 ^ 64 → from_be (u64_be v) ≡ v
unfolding from_be u64_be
from_be-u64_be v h = omega arith

pub Parses-u8 : (v : ℕ) → Parses get_u8 (v ∷ []) v
unfolding get_u8
Parses-u8 v =
    Parses->>= (take_bytes 1 "u8") (λ b. return (from_be b)) (Parses-take_bytes (v ∷ []) "u8")
      (Parses-eq (unfold from_be in (omega arith)) (Parses-return (from_be (v ∷ []))))

pub Parses-u16 : (v : ℕ) → IsU16 v → Parses get_u16 (u16_be v) v
unfolding get_u16 u16_be
Parses-u16 v h =
    Parses->>= (take_bytes 2 "u16") (λ b. return (from_be b)) (Parses-take_bytes (u16_be v) "u16")
      (Parses-eq (from_be-u16_be v h) (Parses-return (from_be (u16_be v))))

pub Parses-u32 : (v : ℕ) → IsU32 v → Parses get_u32 (u32_be v) v
unfolding get_u32 u32_be
Parses-u32 v h =
    Parses->>= (take_bytes 4 "u32") (λ b. return (from_be b)) (Parses-take_bytes (u32_be v) "u32")
      (Parses-eq (from_be-u32_be v h) (Parses-return (from_be (u32_be v))))

pub Parses-i32 : (v : ℤ) → IsI32 v → Parses get_i32 (u32_be (to_bits v)) v
unfolding get_i32 u32_be
Parses-i32 v h =
    Parses->>= (take_bytes 4 "i32") (λ b. return (of_bits (from_be b)))
      (Parses-take_bytes (u32_be (to_bits v)) "i32")
      (Parses-eq (ap of_bits (from_be-u32_be (to_bits v) (to_bits-lt v)) ∙ of_bits-to_bits v h)
        (Parses-return (of_bits (from_be (u32_be (to_bits v))))))

pub Parses-u64 : (v : ℕ) → v < 2 ^ 64 → Parses get_u64 (u64_be v) v
unfolding get_u64 u64_be
Parses-u64 v h =
    Parses->>= (take_bytes 8 "u64") (λ b. return (from_be b)) (Parses-take_bytes (u64_be v) "u64")
      (Parses-eq (from_be-u64_be v h) (Parses-return (from_be (u64_be v))))

-- The bytes of a string on the wire: its length, then its text.
unfoldable pub str_bytes : List ℕ → List ℕ
str_bytes s = u32_be (length s) ++ s

pub put_str-append : (w s : List ℕ) → IsWireStr s → put_str w s ≡ w ++ str_bytes s
unfolding put_str str_bytes
put_str-append w s h =
    let e : length s % 2 ^ 32 ≡ length s = omega arith in
    rw e (append_assoc w (u32_be (length s)) s)

pub Parses-then :
    {A : Type 0} {m : Reader A} {bs : List ℕ} {a : A} (c : Bool) (k : Reader A)
    → c ≡ true
    → Parses m bs a
    → Parses (if c then m else k) bs a
Parses-then {m = m} {bs = bs} {a = a} c k e p =
    subst (λ t. Parses (if t then m else k) bs a) (sym e) p

pub Parses-else :
    {A : Type 0} {m : Reader A} {bs : List ℕ} {a : A} (c : Bool) (k : Reader A)
    → c ≡ false
    → Parses m bs a
    → Parses (if c then k else m) bs a
Parses-else {m = m} {bs = bs} {a = a} c k e p =
    subst (λ t. Parses (if t then k else m) bs a) (sym e) p

checked_text : List ℕ → Reader (List ℕ)
checked_text raw = if utf8_valid raw then return raw else fail "invalid utf-8 string"

Parses-checked_text : (s : List ℕ) → IsWireStr s → Parses (checked_text s) [] s
unfolding checked_text
Parses-checked_text s h = Parses-then (utf8_valid s) _ h.valid (Parses-return s)

str_body : ℕ → Reader (List ℕ)
unfolding checked_text
str_body len =
    (if ltb (64 * 1024) len then fail "string too long" else take_bytes len "string")
    >>= checked_text

Parses-str_body : (s : List ℕ) → IsWireStr s → Parses (str_body (length s)) s s
unfolding str_body
Parses-str_body s h =
    subst (λ t. Parses (str_body (length s)) t s) (append-nil s)
      (Parses->>= _ checked_text
        (Parses-else (ltb (64 * 1024) (length s)) _ (ground arith) (Parses-take_bytes s "string"))
        (Parses-checked_text s h))

pub Parses-str : (s : List ℕ) → IsWireStr s → Parses get_str (str_bytes s) s
unfolding get_str str_bytes str_body
Parses-str s h =
    Parses->>= get_u32 str_body (Parses-u32 (length s) (omega arith)) (Parses-str_body s h)

-- A byte string with its length in front of it is read by `get_u32` and `get_bytes`.
pub Parses-bytes : (b : List ℕ) (what : String) → Parses (get_bytes (length b) what) b b
unfolding get_bytes
Parses-bytes b what = Parses-take_bytes b what
