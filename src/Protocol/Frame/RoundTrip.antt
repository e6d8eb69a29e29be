-- ===== src/Protocol/Frame/RoundTrip.antt =====
-- `Frame::encode` and `Frame::decode_from` are inverse to one another.
use kvmshare.Prelude.{
  Bool-cases, List, [], ap, append_assoc, arith, drop, inl, inr, length, length-append, ltb, ltb→lt,
  none, refl, some, suc, sym, ℕ, ◌%◌, ◌++◌, ◌+◌, ◌<◌, ◌^◌, ◌∙◌, ◌∷◌, ◌≡◌, ◌≤◌, ◌⊎◌,
}
use kvmshare.Protocol.Frame.{
  Chunk, Frame, after_header, after_payload, decode_from, decode_header, decode_payload,
  encode_frame, encode_header, full, header_len, read_full, stopped,
}
use kvmshare.Protocol.Frame.Decode.{
  Delivers, contents, read_full-front, read_full_short, split_short,
}
use kvmshare.Protocol.Ids.{max_payload}
use kvmshare.Protocol.Wire.{err, ok, u32_be}
use kvmshare.Protocol.Wire.RoundTrip.{from_be-u32_be}
use kvmshare.Server.Rest.{rest}

-- A frame that this build writes: no flag, and a payload below the cap.
pub record IsPlain (f : Frame) : Type 0 where
  pub no_flags : f.flags ≡ 0
  pub capped : length f.payload ≤ max_payload

decode_header-encode_header :
    (t len : ℕ) → len ≤ max_payload → decode_header (encode_header t 0 len) ≡ ok (t, 0, len)
unfolding decode_header encode_header u32_be
decode_header-encode_header t len h = ground (arith, from_be-u32_be len (omega arith))

pub length-encode_header : (t g len : ℕ) → length (encode_header t g len) ≡ 10
unfolding encode_header u32_be
length-encode_header t g len = refl

pub plain_bytes :
    (f : Frame)
    → IsPlain f
    → encode_frame f ≡ encode_header f.msg_type 0 (length f.payload) ++ f.payload
unfolding encode_frame
plain_bytes f v =
    let e : length f.payload % 2 ^ 32 ≡ length f.payload = let h = v.capped in omega arith in
    rw (e, v.no_flags) refl

decode_from-parts :
    (cs mid end : List Chunk) (header payload : List ℕ) (t g len : ℕ)
    → read_full header_len [] cs ≡ full header mid
    → decode_header header ≡ ok (t, g, len)
    → read_full len [] mid ≡ full payload end
    → decode_from cs ≡ ok (some (record { msg_type = t; flags = g; payload = payload }, end))
unfolding decode_from decode_payload
decode_from-parts cs mid end header payload t g len p q r =
    ap after_header p ∙ (ap (λ h. decode_payload h mid) q ∙ ap (after_payload t g) r)

-- `decode_from` reads back a frame without flags, and with a payload within the cap, that `encode`
-- wrote, whatever pieces the stream delivers it in, and leaves the bytes that follow it.
pub decode_from-encode_frame :
    (f : Frame) (cs : List Chunk) (rest : List ℕ)
    → IsPlain f
    → Delivers cs
    → contents cs ≡ encode_frame f ++ rest
    → (cs' : List Chunk) × (decode_from cs ≡ ok (some (f, cs')))
      × (contents cs' ≡ rest)
      × Delivers cs'
decode_from-encode_frame f cs rest v d e =
    let header : List ℕ = encode_header f.msg_type 0 (length f.payload) in
    let split : contents cs ≡ header ++ (f.payload ++ rest) =
      e ∙ (ap (λ t. t ++ rest) (plain_bytes f v) ∙ append_assoc header f.payload rest) in
    let (mid, r, c, d') = read_full-front cs header (f.payload ++ rest) d split in
    let (end, r', c', d'') = read_full-front mid f.payload rest d' c in
    (
      end,
      decode_from-parts cs mid end header f.payload f.msg_type 0 (length f.payload)
            (rw (length-encode_header f.msg_type 0 (length f.payload)) at r)
            (decode_header-encode_header f.msg_type (length f.payload) v.capped) r'
          ∙ ap
              (λ g.
                ok (some (record { msg_type = f.msg_type; flags = g; payload = f.payload }, end)))
              (sym v.no_flags),
      c',
      d'',
    )

pub frame_prefix :
    (f : Frame) (front : List ℕ) (x : ℕ) (back : List ℕ)
    → IsPlain f
    → encode_frame f ≡ front ++ (x ∷ back)
    → (length front < 10)
      ⊎ ((part : List ℕ) × (front ≡ encode_header f.msg_type 0 (length f.payload) ++ part)
          × (length part < length f.payload))
frame_prefix f front x back v e = elim (Bool-cases (ltb (length front) 10)) [
  | inl short ↦ inl (ltb→lt _ _ short)
  | inr long ↦
      let header : List ℕ = encode_header f.msg_type 0 (length f.payload) in
      let n : length header ≡ 10 = length-encode_header f.msg_type 0 (length f.payload) in
      let (p, q) =
        split_short header f.payload front (x ∷ back) (ground (arith, n))
          (sym (plain_bytes f v) ∙ e) in
      inr (
        drop (length header) front,
        p,
        omega (arith, ap length q, length-append (drop (length header) front) (x ∷ back)),
      )
]

after_payload-stopped :
    (t g : ℕ) (bs : List ℕ) → after_payload t g (stopped bs) ≡ err "partial payload"
after_payload-stopped t g [] = refl
after_payload-stopped t g (b ∷ bs) = refl

-- What the end of a stream inside a frame is reported as, by the number of bytes that arrived: none,
-- one to nine, or the ten of a header and maybe more.
abbrev pub IsReported : List Chunk → Type 0
IsReported cs =
    ((contents cs ≡ []) × (decode_from cs ≡ ok none))
    ⊎ ((0 < length (contents cs))
        × (length (contents cs) < 10)
        × (decode_from cs ≡ err "partial header"))
    ⊎ ((10 ≤ length (contents cs)) × (decode_from cs ≡ err "partial payload"))

-- A stream that ends inside a frame without flags, and with a payload within the cap, is reported
-- by how much of it arrived: as the clean end of the stream when nothing did, as a partial header
-- after one to nine bytes, and as a partial payload after ten or more.
pub decode_from_truncated :
    (f : Frame) (cs : List Chunk) (x : ℕ) (back : List ℕ)
    → IsPlain f
    → Delivers cs
    → encode_frame f ≡ contents cs ++ (x ∷ back)
    → IsReported cs
unfolding decode_from decode_payload
decode_from_truncated f cs x back v d e = elim (frame_prefix f (contents cs) x back v e) [
  | inl short ↦ cut_header (contents cs) refl (read_full_short cs 10 [] d (omega arith)) short
  | inr (part, p, q) ↦
      let n : length (encode_header f.msg_type 0 (length f.payload)) ≡ 10 =
        length-encode_header f.msg_type 0 (length f.payload) in
      let m : length (contents cs)
          ≡ length (encode_header f.msg_type 0 (length f.payload)) + length part =
        ap length p ∙ length-append (encode_header f.msg_type 0 (length f.payload)) part in
      inr (inr (omega (arith, n, m), cut_payload part p q))
]
  where
    cut_header :
        (bs : List ℕ)
        → contents cs ≡ bs
        → read_full 10 [] cs ≡ stopped bs
        → length bs < 10
        → IsReported cs
    cut_header [] c r lt = inl (c, ap after_header r)
    cut_header (b ∷ bs) c r lt =
        let n : length (contents cs) ≡ suc (length bs) = ap length c in
        let few : suc (length bs) < 10 = lt in
        inr (inl (omega (arith, n), omega (arith, n, few), ap after_header r))

    cut_payload :
        (part : List ℕ)
        → contents cs ≡ encode_header f.msg_type 0 (length f.payload) ++ part
        → length part < length f.payload
        → decode_from cs ≡ err "partial payload"
    cut_payload part p q =
        let header : List ℕ = encode_header f.msg_type 0 (length f.payload) in
        let (mid, r, c, d') = read_full-front cs header part d p in
        let n : length header ≡ 10 = length-encode_header f.msg_type 0 (length f.payload) in
        ap after_header (rw n at r)
        ∙ (ap (λ h. decode_payload h mid)
              (decode_header-encode_header f.msg_type (length f.payload) v.capped)
            ∙ (ap (after_payload f.msg_type 0)
                  (read_full_short mid (length f.payload) [] d' (omega (arith, ap length c)))
                ∙ after_payload-stopped f.msg_type 0 (contents mid)))
