-- ===== src/Udp/Envelope.antt =====
-- Datagrams survive the envelope.
use kvmshare.Prelude.{List, arith, some, ℕ, ◌++◌, ◌∙◌, ◌∷◌, ◌≡◌}
use kvmshare.Protocol.Message.{Message, decode_message, encode_message}
use kvmshare.Protocol.Message.RoundTrip.{IsWire}
use kvmshare.Protocol.Message.Whole.{Fits, decode_message-encode_message}
use kvmshare.Protocol.Wire.{from_be, u32_be}
use kvmshare.Protocol.Wire.RoundTrip.{IsU32, from_be-u32_be}
use kvmshare.Udp.{datagram_of, pack, unpack}
use mathlib.Core.Path.{ap₂}

unpack_long :
    (id seq : ℕ) (frame : List ℕ)
    → unpack (id ∷ (u32_be seq ++ frame))
      ≡ datagram_of id (from_be (u32_be seq)) (decode_message frame)
unfolding unpack u32_be
unpack_long id seq frame = ground arith

-- `unpack` returns the client, the sequence number and the message that `pack` was given, if the
-- message fits the wire and its payload the cap.
pub unpack-pack :
    (id seq : ℕ) (m : Message)
    → IsU32 seq
    → IsWire m
    → Fits m
    → unpack (pack id seq m) ≡ some (record { id = id; seq = seq; msg = m })
unfolding pack
unpack-pack id seq m hs v h =
    unpack_long id seq (encode_message m)
    ∙ ap₂ (datagram_of id) (from_be-u32_be seq hs) (decode_message-encode_message m v h)
