-- ===== src/Transport.antt =====
-- crates/core/src/transport.rs: finding frames in the bytes that a connection has delivered so far.
-- The socket and its options are outside; the state is the read buffer.
use kvmshare.Prelude.{
  List, Option, String, [], bytes_eq, drop, if◌then◌else◌, length, ltb, map, none, not, some, suc,
  take, ℕ, ◌++◌, ◌+◌, ◌==◌, ◌∷◌,
}
use kvmshare.Prelude.Run.{Run, done, panic, ◌>>=◌}
use kvmshare.Protocol.Frame.{Chunk, Frame, decode_from, header_len, len_offset}
use kvmshare.Protocol.Ids.{magic, max_payload}
use kvmshare.Protocol.Message.{Message, from_frame}
use kvmshare.Protocol.Wire.{Result, err, from_be, ok}
use mathlib.Core.Option
pub mod Delivery
pub mod Stream

-- `windows(MAGIC.len()).position(|w| w == MAGIC)`.
unfoldable pub find_magic : List ℕ → Option ℕ
find_magic [] = none
find_magic (b ∷ bs) =
    if bytes_eq (take 4 (b ∷ bs)) magic then some 0 else Option.map suc (find_magic bs)

-- The buffer after a desync: from the next magic on, or nothing.
abbrev pub resync : List ℕ → Option ℕ → List ℕ
resync buf none = []
resync buf (some at) = drop at buf

abbrev pub decoded : Result Message → Result (Option Message)
decoded (ok m) = ok (some m)
decoded (err e) = err e

-- The buffer and the answer, after a whole frame has been read from the front.
abbrev pub after_frame :
    ℕ → List ℕ → Result (Option (Frame × List Chunk)) → Run (List ℕ × Result (Option Message))
after_frame total buf (ok (some (f, r))) = done (drop total buf, decoded (from_frame f))
after_frame total buf (ok none) = panic
after_frame total buf (err e) = done (buf, err e)

-- `try_decode` from the length field on.
unfoldable pub try_frame : ℕ → List ℕ → Run (List ℕ × Result (Option Message))
try_frame len buf =
    if ltb max_payload len
    then done (buf, err "frame payload too large")
    else if ltb (length buf) (header_len + len)
    then done (buf, ok none)
    else after_frame (header_len + len) buf
        (decode_from (Chunk.bytes (take (header_len + len) buf) ∷ []))

-- `Transport::try_decode`: the buffer after the call, with the message or nothing yet.
unfoldable pub try_decode : List ℕ → Run (List ℕ × Result (Option Message))
try_decode buf =
    if ltb (length buf) header_len
    then done (buf, ok none)
    else if not (bytes_eq (take 4 buf) magic)
    then done (resync buf (find_magic buf), ok none)
    else try_frame (from_be (drop len_offset (take header_len buf))) buf

-- What one `read` of the socket returns: bytes, the end, a timeout, a reset, or another error.
pub data Received : Type 0 where
  bytes : List ℕ → Received
  closed timed_out reset failed : Received

-- `RecvResult`; `waiting` is a call that still blocks when the given reads are used up.
pub data RecvResult : Type 0 where
  msg : Message → RecvResult
  eof no_data waiting : RecvResult
  failure : String → RecvResult

-- A call's result, with the buffer and the reads left.
abbrev pub Outcome : Type 0
Outcome = RecvResult × List ℕ × List Received

-- One read into the buffer, in the loop of `recv`.
abbrev pub take_in : List ℕ → List Received → (List ℕ → Run Outcome) → Received → Run Outcome
take_in buf more next (Received.bytes []) =
    done (if length buf == 0 then RecvResult.eof else RecvResult.failure "eof mid-frame", buf, more)
take_in buf more next (Received.bytes (b ∷ bs)) = next (buf ++ (b ∷ bs))
take_in buf more next Received.closed =
    done (if length buf == 0 then RecvResult.eof else RecvResult.failure "eof mid-frame", buf, more)
take_in buf more next Received.timed_out = done (RecvResult.no_data, buf, more)
take_in buf more next Received.reset = done (RecvResult.eof, buf, more)
take_in buf more next Received.failed = done (RecvResult.failure "io error", buf, more)

-- What follows `try_decode` in the loop.
abbrev pub on_decoded :
    List Received → (List ℕ → Run Outcome) → List ℕ × Result (Option Message) → Run Outcome
on_decoded stream again (buf, ok (some m)) = done (RecvResult.msg m, buf, stream)
on_decoded stream again (buf, ok none) = again buf
on_decoded stream again (buf, err e) = done (RecvResult.failure e, buf, stream)

-- `Transport::recv`, with the buffer and what the reads return.
unfoldable pub recv : List ℕ → List Received → Run Outcome
recv buf [] = try_decode buf >>= on_decoded [] (λ b. done (RecvResult.waiting, b, []))
recv buf (r ∷ stream) =
    try_decode buf >>= on_decoded (r ∷ stream) (λ b. take_in b stream (λ b'. recv b' stream) r)
