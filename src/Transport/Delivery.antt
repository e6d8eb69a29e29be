-- ===== src/Transport/Delivery.antt =====
-- What `try_decode` makes of the bytes of a message.
use kvmshare.Prelude.{
  List, [], ap, append_assoc, arith, drop, drop-append, false, length, length-append, ltb, refl,
  some, subst, sym, take, take-append, ℕ, ◌++◌, ◌+◌, ◌∙◌, ◌∷◌, ◌≡◌, ◌≤◌,
}
use kvmshare.Prelude.Run.{done}
use kvmshare.Protocol.Frame.{Chunk, Frame, decode_from, encode_frame, encode_header}
use kvmshare.Protocol.Frame.Decode.{Delivers}
use kvmshare.Protocol.Frame.RoundTrip.{
  IsPlain, decode_from-encode_frame, length-encode_header, plain_bytes,
}
use kvmshare.Protocol.Ids.{max_payload}
use kvmshare.Protocol.Message.{Message, encode_message, from_frame, to_frame}
use kvmshare.Protocol.Message.RoundTrip.{IsWire, from_frame-to_frame}
use kvmshare.Protocol.Message.Whole.{Fits, encode_frame-cons, to_frame-IsPlain}
use kvmshare.Protocol.Wire.{from_be, ok, u32_be}
use kvmshare.Protocol.Wire.RoundTrip.{from_be-u32_be}
use kvmshare.Transport.{after_frame, decoded, try_decode, try_frame}

pub past_header :
    (t len : ℕ) (more : List ℕ)
    → len ≤ max_payload
    → try_decode (encode_header t 0 len ++ more) ≡ try_frame len (encode_header t 0 len ++ more)
unfolding try_decode encode_header u32_be
past_header t len more h =
    let e : from_be (u32_be len) ≡ len = from_be-u32_be len (omega arith) in ground (arith, e)

whole_frame :
    (len : ℕ) (bytes rest : List ℕ)
    → len ≤ max_payload
    → length bytes ≡ 10 + len
    → try_frame len (bytes ++ rest)
      ≡ after_frame (10 + len) (bytes ++ rest) (decode_from (Chunk.bytes bytes ∷ []))
unfolding try_frame
whole_frame len bytes rest h e =
    let long : ltb (length (bytes ++ rest)) (10 + len) ≡ false =
      let l = length-append bytes rest in ground (arith, l, e) in
    let capped : ltb max_payload len ≡ false = ground arith in
    let front : take (10 + len) (bytes ++ rest) ≡ bytes =
      subst (λ n. take n (bytes ++ rest) ≡ bytes) e (take-append bytes rest) in
    rw (capped, long, front) refl

-- The frame at the front of a buffer.
frame_front :
    (f : Frame) (rest : List ℕ)
    → IsPlain f
    → try_decode (encode_frame f ++ rest)
      ≡ after_frame
          (10 + length f.payload)
          (encode_frame f ++ rest)
          (decode_from (Chunk.bytes (encode_frame f) ∷ []))
frame_front f rest v =
    let header : List ℕ = encode_header f.msg_type 0 (length f.payload) in
    let bytes : encode_frame f ≡ header ++ f.payload = plain_bytes f v in
    let size : length (header ++ f.payload) ≡ 10 + length f.payload =
      length-append header f.payload
      ∙ ap (λ n. n + length f.payload) (length-encode_header f.msg_type 0 _) in
    subst
      (λ b.
        try_decode (b ++ rest)
        ≡ after_frame (10 + length f.payload) (b ++ rest) (decode_from (Chunk.bytes b ∷ [])))
      (sym bytes)
      (ap try_decode (append_assoc header f.payload rest)
        ∙ past_header f.msg_type (length f.payload) (f.payload ++ rest) v.capped
        ∙ ap (try_frame (length f.payload)) (sym (append_assoc header f.payload rest))
        ∙ whole_frame (length f.payload) (header ++ f.payload) rest v.capped size)

frame_size : (f : Frame) → IsPlain f → length (encode_frame f) ≡ 10 + length f.payload
frame_size f v =
    ap length (plain_bytes f v)
    ∙ length-append (encode_header f.msg_type 0 (length f.payload)) f.payload
    ∙ ap (λ n. n + length f.payload) (length-encode_header f.msg_type 0 _)

-- A message at the front of the read buffer is decoded, and exactly its bytes are taken out, so
-- that the messages that share a segment with it stay; it has to fit the wire, and its payload the
-- cap.
pub try_decode-encode_message :
    (m : Message) (rest : List ℕ)
    → IsWire m
    → Fits m
    → try_decode (encode_message m ++ rest) ≡ done (rest, ok (some m))
unfolding encode_message
try_decode-encode_message m rest w h =
    let f : Frame = to_frame m in
    let v : IsPlain f = to_frame-IsPlain m h in
    let (b, bs, e) = encode_frame-cons f in
    let d : Delivers (Chunk.bytes (encode_frame f) ∷ []) =
      subst (λ l. Delivers (Chunk.bytes l ∷ [])) (sym e) tt in
    let (cs, q, c, d') =
      decode_from-encode_frame f (Chunk.bytes (encode_frame f) ∷ []) [] v d refl in
    frame_front f rest v
    ∙ ap (after_frame (10 + length f.payload) (encode_frame f ++ rest)) q
    ∙ ap (λ r. done (r, decoded (from_frame f)))
        (subst (λ n. drop n (encode_frame f ++ rest) ≡ rest) (frame_size f v)
          (drop-append (encode_frame f) rest))
    ∙ ap (λ r. done (rest, decoded r)) (from_frame-to_frame m w)
