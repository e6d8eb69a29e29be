-- ===== src/Protocol/Message/Whole.antt =====
-- `Message::encode` and `Message::decode` on whole byte strings.
use kvmshare.Prelude.{
  List, [], ap, append-nil, arith, length, refl, some, subst, sym, ℕ, ◌++◌, ◌∙◌, ◌∷◌, ◌≡◌, ◌≤◌,
}
use kvmshare.Protocol.Frame.{Chunk, Frame, encode_frame, encode_header, new_frame}
use kvmshare.Protocol.Frame.Decode.{Delivers, contents}
use kvmshare.Protocol.Frame.RoundTrip.{IsPlain, decode_from-encode_frame}
use kvmshare.Protocol.Ids.{max_payload}
use kvmshare.Protocol.Message.{
  Message, decode_message, encode_message, from_frame, single_frame, to_frame, write_payload,
}
use kvmshare.Protocol.Message.RoundTrip.{IsWire, from_frame-to_frame}
use kvmshare.Protocol.Wire.{err, ok}

-- The payload cap holds for every message that is not a clipboard or a text of many kilobytes; a
-- sender has to keep to it.
abbrev pub Fits : Message → Type 0
Fits m = length (write_payload m) ≤ max_payload

pub to_frame-IsPlain : (m : Message) → Fits m → IsPlain (to_frame m)
unfolding to_frame new_frame
to_frame-IsPlain m h = record { no_flags = refl; capped = h }

pub encode_frame-cons : (f : Frame) → (x : ℕ) × (bs : List ℕ) × (encode_frame f ≡ x ∷ bs)
unfolding encode_frame encode_header
encode_frame-cons f = (b'K', _, refl)

pub single_frame-whole :
    (f : Frame) (cs : List Chunk)
    → contents cs ≡ []
    → single_frame (ok (some (f, cs))) ≡ from_frame f
unfolding single_frame
single_frame-whole f cs c = ground (arith, ap length c)

-- `decode` returns the message of which `encode` wrote the bytes, if the message fits the wire and
-- its payload the cap.
pub decode_message-encode_message :
    (m : Message) → IsWire m → Fits m → decode_message (encode_message m) ≡ ok m
unfolding decode_message encode_message
decode_message-encode_message m v h =
    let (x, bs, e) = encode_frame-cons (to_frame m) in
    let (cs, r, c, d) =
      decode_from-encode_frame (to_frame m) (Chunk.bytes (encode_frame (to_frame m)) ∷ []) []
        (to_frame-IsPlain m h) (subst (λ b. Delivers (Chunk.bytes b ∷ [])) (sym e) tt) refl in
    ap single_frame r ∙ (single_frame-whole (to_frame m) cs c ∙ from_frame-to_frame m v)

-- A single-message buffer may hold nothing behind a message whose payload is within the cap: one
-- byte more is an error.
pub decode_message_trailing :
    (m : Message) (y : ℕ) (more : List ℕ)
    → Fits m
    → decode_message (encode_message m ++ (y ∷ more)) ≡ err "trailing bytes after frame"
unfolding decode_message encode_message
decode_message_trailing m y more h =
    let (x, bs, e) = encode_frame-cons (to_frame m) in
    let whole : List ℕ = encode_frame (to_frame m) ++ (y ∷ more) in
    let (cs, r, c, d) =
      decode_from-encode_frame (to_frame m) (Chunk.bytes whole ∷ []) (y ∷ more)
        (to_frame-IsPlain m h)
        (subst (λ b. Delivers (Chunk.bytes (b ++ (y ∷ more)) ∷ [])) (sym e) tt)
        (append-nil whole) in
    ap single_frame r ∙ single_frame-more (to_frame m) cs y more c
  where
    single_frame-more :
        (f : Frame) (cs : List Chunk) (y : ℕ) (more : List ℕ)
        → contents cs ≡ y ∷ more
        → single_frame (ok (some (f, cs))) ≡ err "trailing bytes after frame"
    single_frame-more f cs y more c = ground (arith, ap length c)
