-- ===== src/Protocol/Frame.antt =====
-- crates/protocol/src/frame.rs: the frame header, and reading one frame from a stream.
use kvmshare.Prelude.{
  List, Option, [], bytes_eq, drop, if◌then◌else◌, leb, length, ltb, none, not, some, take, ℕ, ◌%◌,
  ◌++◌, ◌-◌, ◌==◌, ◌^◌, ◌∷◌,
}
use kvmshare.Protocol.Ids.{known_flags, magic, max_payload}
use kvmshare.Protocol.Wire.{Result, err, from_be, ok, u32_be}
pub mod Decode
pub mod RoundTrip
use Prim.Native.Nat.{bit_and}

-- `HEADER_LEN` and `LEN_OFFSET`.
abbrev pub header_len : ℕ
header_len = 10

abbrev pub len_offset : ℕ
len_offset = 6

pub record Frame : Type 0 where
  pub msg_type : ℕ
  pub flags : ℕ
  pub payload : List ℕ

unfoldable pub new_frame : ℕ → List ℕ → Frame
new_frame msg_type payload = record { msg_type = msg_type; flags = 0; payload = payload }

unfoldable pub encode_header : ℕ → ℕ → ℕ → List ℕ
encode_header msg_type flags len = magic ++ msg_type ∷ flags ∷ u32_be len

-- `self.payload.len() as u32` wraps.
unfoldable pub encode_frame : Frame → List ℕ
unfolding encode_header
encode_frame f = encode_header f.msg_type f.flags (length f.payload % 2 ^ 32) ++ f.payload

-- What the successive `read` calls of a `Read` can deliver: some bytes, or an error. A call for
-- fewer bytes than stand in the first chunk leaves the others there; no chunk, or an empty one, is
-- the end of the stream.
pub data Chunk : Type 0 where
  bytes : List ℕ → Chunk
  failure : Chunk

-- `ReadStatus`, with the filled buffer and the reader after it; `failed` is an `io::Error`.
pub data ReadStatus : Type 0 where
  eof partial failed : ReadStatus
  full : List ℕ → List Chunk → ReadStatus

abbrev pub stopped : List ℕ → ReadStatus
stopped [] = eof
stopped (b ∷ bs) = partial

-- The loop of `read_full`: `filled` is the part of the buffer that is written, of `want` bytes.
unfoldable pub read_full : ℕ → List ℕ → List Chunk → ReadStatus
read_full want filled [] = if ltb (length filled) want then stopped filled else full filled []
read_full want filled (Chunk.failure ∷ cs) =
    if ltb (length filled) want then failed else full filled (Chunk.failure ∷ cs)
read_full want filled (Chunk.bytes [] ∷ cs) =
    if ltb (length filled) want then stopped filled else full filled (Chunk.bytes [] ∷ cs)
read_full want filled (Chunk.bytes (b ∷ bs) ∷ cs) =
    let room = want - length filled in
    if ltb (length filled) want
    then (if leb (length (b ∷ bs)) room
        then read_full want (filled ++ (b ∷ bs)) cs
        else full (filled ++ take room (b ∷ bs)) (Chunk.bytes (drop room (b ∷ bs)) ∷ cs))
    else full filled (Chunk.bytes (b ∷ bs) ∷ cs)

-- A header is read as ten bytes. `flags & !KNOWN` on a byte.
unfoldable pub decode_header : List ℕ → Result (ℕ × ℕ × ℕ)
decode_header (m0 ∷ m1 ∷ m2 ∷ m3 ∷ msg_type ∷ flags ∷ len_bytes) =
    let len = from_be len_bytes in
    if not (bytes_eq (m0 ∷ m1 ∷ m2 ∷ m3 ∷ []) magic)
    then err "bad magic"
    else if not (bit_and flags (255 - known_flags) == 0)
    then err "unknown frame flags"
    else if ltb max_payload len
    then err "payload too large"
    else ok (msg_type, flags, len)
decode_header _ = err "bad magic"

-- The end of `decode_from`, with the header parsed and the payload read.
abbrev pub after_payload : ℕ → ℕ → ReadStatus → Result (Option (Frame × List Chunk))
after_payload msg_type flags (full payload r) =
    ok (some (record { msg_type = msg_type; flags = flags; payload = payload }, r))
after_payload msg_type flags failed = err "io error"
after_payload msg_type flags eof = err "partial payload"
after_payload msg_type flags partial = err "partial payload"

unfoldable pub decode_payload :
    Result (ℕ × ℕ × ℕ) → List Chunk → Result (Option (Frame × List Chunk))
unfolding read_full
decode_payload (ok (msg_type, flags, len)) r = after_payload msg_type flags (read_full len [] r)
decode_payload (err e) r = err e

abbrev pub after_header : ReadStatus → Result (Option (Frame × List Chunk))
after_header eof = ok none
after_header partial = err "partial header"
after_header failed = err "io error"
after_header (full header r) = decode_payload (decode_header header) r

-- `Frame::decode_from`: the frame and the reader after it, or nothing at a clean end.
unfoldable pub decode_from : List Chunk → Result (Option (Frame × List Chunk))
unfolding decode_header decode_payload read_full
decode_from r = after_header (read_full header_len [] r)
