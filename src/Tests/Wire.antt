-- ===== src/Tests/Wire.antt =====
-- Messages, frames and datagrams with concrete bytes.
use kvmshare.Prelude.{
  List, [], ap, arith, length, none, refl, some, sym, true, ℕ, ◌%◌, ◌++◌, ◌+◌, ◌<◌, ◌^◌, ◌↔◌, ◌∷◌,
  ◌≡◌,
}
use kvmshare.Prelude.I32.{to_bits}
use kvmshare.Prelude.Int.{negsuc, pos}
use kvmshare.Prelude.Run.{Ensures, done}
use kvmshare.Protocol.Frame.{Chunk, Frame, decode_from, encode_frame, encode_header, new_frame}
use kvmshare.Protocol.Frame.Decode.{Delivers, contents}
use kvmshare.Protocol.Frame.RoundTrip.{
  IsPlain, IsReported, decode_from-encode_frame, decode_from_truncated,
}
use kvmshare.Protocol.Geometry.{ScreenInfo, f32_is_finite, f32_is_nonpositive}
use kvmshare.Protocol.Geometry.Codec.{IsWireInfo}
use kvmshare.Protocol.Message.{
  Message, decode_message, encode_message, from_frame, msg_type, to_frame, write_payload,
}
use kvmshare.Protocol.Message.RoundTrip.{IsWire, from_frame-to_frame}
use kvmshare.Protocol.Message.Whole.{Fits, decode_message-encode_message, decode_message_trailing}
use kvmshare.Protocol.Wire.{err, ok, put_i32, put_u32, u32_be}
use kvmshare.Protocol.Wire.RoundTrip.{IsWireStr}
use kvmshare.Protocol.Wire.Utf8.{utf8_valid}
use kvmshare.Transport.{Received, recv, try_decode}
use kvmshare.Transport.Delivery.{try_decode-encode_message}
use kvmshare.Transport.Stream.{Leaves, arriving, recv-Leaves, try_decode_partial}
use kvmshare.Udp.{is_newer, pack, unpack}
use kvmshare.Udp.Envelope.{unpack-pack}
use kvmshare.Udp.Newer.{is_newer_iff}

abbrev some_info : ScreenInfo
some_info = record { width = 1920; height = 1080; scale = 1065353216 }

-- 0x3f800000 is 1.0.
some_info-IsWireInfo : IsWireInfo some_info
unfolding f32_is_finite f32_is_nonpositive
some_info-IsWireInfo = record {
  width_min = omega arith;
  width_max = omega arith;
  height_min = omega arith;
  height_max = omega arith;
  scale_bits = omega arith;
  finite = refl;
  positive = refl;
}

abbrev name : List ℕ
name = b'p' ∷ b'c' ∷ []

name-IsWireStr : IsWireStr name
unfolding utf8_valid
name-IsWireStr = record { short = omega arith; valid = refl }

abbrev greeting : Message
greeting = Message.hello 13 name name some_info

greeting-IsWire : IsWire greeting
greeting-IsWire = (omega arith, name-IsWireStr, name-IsWireStr, some_info-IsWireInfo)

abbrev pub motion : Message
motion = Message.mouse_move_rel (negsuc 4) (pos 7)

pub motion-IsWire : IsWire motion
motion-IsWire = (omega arith, omega arith)

motion_size : length (write_payload motion) ≡ 8
unfolding write_payload put_i32 put_u32 u32_be to_bits
motion_size = refl

pub motion-Fits : Fits motion
motion-Fits = omega (arith, motion_size)

from_frame-to_frame_example : from_frame (to_frame greeting) ≡ ok greeting
from_frame-to_frame_example = from_frame-to_frame greeting greeting-IsWire

decode_message-encode_message_example : decode_message (encode_message motion) ≡ ok motion
decode_message-encode_message_example =
    decode_message-encode_message motion motion-IsWire motion-Fits

decode_message_trailing_example :
    decode_message (encode_message motion ++ (0 ∷ [])) ≡ err "trailing bytes after frame"
decode_message_trailing_example = decode_message_trailing motion 0 [] motion-Fits

abbrev frame : Frame
frame = record { msg_type = 15; flags = 0; payload = 1 ∷ 2 ∷ [] }

-- The frame in three pieces, with a byte of the next one.
abbrev pieces : List Chunk
pieces =
    Chunk.bytes (75 ∷ 86 ∷ 77 ∷ [])
    ∷ Chunk.bytes (49 ∷ 15 ∷ 0 ∷ 0 ∷ 0 ∷ 0 ∷ 2 ∷ 1 ∷ [])
    ∷ Chunk.bytes (2 ∷ 75 ∷ [])
    ∷ []

frame_bytes : encode_frame frame ≡ 75 ∷ 86 ∷ 77 ∷ 49 ∷ 15 ∷ 0 ∷ 0 ∷ 0 ∷ 0 ∷ 2 ∷ 1 ∷ 2 ∷ []
unfolding encode_frame encode_header u32_be
frame_bytes = refl

frame-IsPlain : IsPlain frame
frame-IsPlain = record { no_flags = refl; capped = omega arith }

decode_from-encode_frame_example :
    (cs' : List Chunk) × (decode_from pieces ≡ ok (some (frame, cs')))
    × (contents cs' ≡ 75 ∷ [])
    × Delivers cs'
decode_from-encode_frame_example =
    decode_from-encode_frame frame pieces (75 ∷ []) frame-IsPlain tt
      (ap (λ bs. bs ++ 75 ∷ []) (sym frame_bytes))

abbrev cut : List Chunk
cut = Chunk.bytes (75 ∷ 86 ∷ 77 ∷ 49 ∷ 15 ∷ 0 ∷ 0 ∷ 0 ∷ 0 ∷ 2 ∷ 1 ∷ []) ∷ []

decode_from_truncated_example : IsReported cut
decode_from_truncated_example = decode_from_truncated frame cut 2 [] frame-IsPlain tt frame_bytes

unpack-pack_example :
    unpack (pack 3 4294967295 motion) ≡ some (record { id = 3; seq = 4294967295; msg = motion })
unpack-pack_example = unpack-pack 3 4294967295 motion (omega arith) motion-IsWire motion-Fits

-- Across the wrap.
is_newer_iff_example :
    (is_newer 1 4294967295 ≡ true)
    ↔ ((k : ℕ) × (0 < k) × (k < 2 ^ 31) × (1 ≡ (4294967295 + k) % 2 ^ 32))
is_newer_iff_example = is_newer_iff 1 4294967295 (omega arith) (omega arith)

try_decode-encode_message_example :
    try_decode (encode_message motion ++ (75 ∷ 86 ∷ [])) ≡ done (75 ∷ 86 ∷ [], ok (some motion))
try_decode-encode_message_example =
    try_decode-encode_message motion (75 ∷ 86 ∷ []) motion-IsWire motion-Fits

-- The same bytes in three reads, with two bytes of the next frame.
abbrev reads : List Received
reads =
    Received.bytes (75 ∷ 86 ∷ 77 ∷ [])
    ∷ Received.bytes (49 ∷ 33 ∷ 0 ∷ 0 ∷ 0 ∷ 0 ∷ 8 ∷ 255 ∷ 255 ∷ 255 ∷ [])
    ∷ Received.bytes (251 ∷ 0 ∷ 0 ∷ 0 ∷ 7 ∷ 75 ∷ 86 ∷ [])
    ∷ []

arrive_whole : arriving reads ≡ encode_message motion ++ (75 ∷ 86 ∷ [])
unfolding encode_message to_frame encode_frame encode_header new_frame u32_be write_payload put_i32
    put_u32 to_bits msg_type
arrive_whole = refl

recv-Leaves_example : Ensures (Leaves motion (75 ∷ 86 ∷ [])) (recv [] reads)
recv-Leaves_example =
    recv-Leaves motion [] reads (75 ∷ 86 ∷ []) motion-IsWire motion-Fits tt arrive_whole

partly :
    encode_message motion
    ≡ 75 ∷ 86 ∷ 77 ∷ 49 ∷ 33 ∷ 0 ∷ 0 ∷ 0 ∷ 0 ∷ 8 ∷ 255 ∷ 255 ∷ 255 ∷ 251 ∷ 0 ∷ 0 ∷ 0 ∷ 7 ∷ []
unfolding encode_message to_frame encode_frame encode_header new_frame u32_be write_payload put_i32
    put_u32 to_bits msg_type
partly = refl

try_decode_partial_example : try_decode (75 ∷ 86 ∷ 77 ∷ []) ≡ done (75 ∷ 86 ∷ 77 ∷ [], ok none)
try_decode_partial_example =
    try_decode_partial motion (75 ∷ 86 ∷ 77 ∷ []) 49
      (33 ∷ 0 ∷ 0 ∷ 0 ∷ 0 ∷ 8 ∷ 255 ∷ 255 ∷ 255 ∷ 251 ∷ 0 ∷ 0 ∷ 0 ∷ 7 ∷ []) motion-Fits partly
