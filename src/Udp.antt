-- ===== src/Udp.antt =====
-- crates/core/src/udp.rs: the datagram envelope, and which datagram is newer.
use kvmshare.Prelude.{
  Bool, List, Option, [], drop, if◌then◌else◌, length, ltb, none, not, some, take, ℕ, ◌%◌, ◌&&◌,
  ◌++◌, ◌+◌, ◌-◌, ◌==◌, ◌^◌, ◌∷◌,
}
use kvmshare.Protocol.Message.{Message, decode_message, encode_message}
use kvmshare.Protocol.Wire.{Result, err, from_be, ok, u32_be}
pub mod Envelope
pub mod Newer

-- `ENVELOPE_LEN`.
abbrev pub envelope_len : ℕ
envelope_len = 5

unfoldable pub pack : ℕ → ℕ → Message → List ℕ
pack id seq msg = id ∷ (u32_be seq ++ encode_message msg)

pub record Datagram : Type 0 where
  pub id : ℕ
  pub seq : ℕ
  pub msg : Message

abbrev pub datagram_of : ℕ → ℕ → Result Message → Option Datagram
datagram_of id seq (ok msg) = some (record { id = id; seq = seq; msg = msg })
datagram_of id seq (err e) = none

unfoldable pub unpack : List ℕ → Option Datagram
unpack [] = none
unpack (id ∷ b) =
    if ltb (length (id ∷ b)) envelope_len
    then none
    else datagram_of id (from_be (take 4 b)) (decode_message (drop 4 b))

-- `seq.wrapping_sub(last)` on u32.
unfoldable pub is_newer : ℕ → ℕ → Bool
is_newer seq last = not (seq == last) && ltb ((seq + 2 ^ 32 - last) % 2 ^ 32) (2 ^ 31)
