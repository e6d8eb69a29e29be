-- ===== src/Transport/Stream.antt =====
-- `recv` over a stream that is cut into reads anywhere.
use kvmshare.Prelude.{
  List, [], ap, append_assoc, arith, false, inl, inr, length, length-append, ltb, none, refl, subst,
  sym, true, ℕ, ◌++◌, ◌+◌, ◌<◌, ◌∙◌, ◌∷◌, ◌≡◌, ◌≤◌, ◌⊎◌,
}
use kvmshare.Prelude.Run.{Ensures, Run, done, ◌>>=◌}
use kvmshare.Protocol.Frame.{Frame, encode_header}
use kvmshare.Protocol.Frame.RoundTrip.{IsPlain, frame_prefix, length-encode_header}
use kvmshare.Protocol.Ids.{max_payload}
use kvmshare.Protocol.Message.{Message, encode_message, to_frame}
use kvmshare.Protocol.Message.RoundTrip.{IsWire}
use kvmshare.Protocol.Message.Whole.{Fits, to_frame-IsPlain}
use kvmshare.Protocol.Wire.{ok}
use kvmshare.Transport.{Outcome, Received, RecvResult, on_decoded, recv, try_decode, try_frame}
use kvmshare.Transport.Delivery.{past_header, try_decode-encode_message}

-- The bytes of the reads to come, for a connection that neither ends nor fails.
abbrev pub arriving : List Received → List ℕ
arriving [] = []
arriving (Received.bytes b ∷ rs) = b ++ arriving rs
arriving (_ ∷ rs) = []

-- Every read returns at least one byte.
abbrev pub IsFlowing : List Received → Type 0
IsFlowing [] = Unit {0}
IsFlowing (Received.bytes [] ∷ rs) = ⊥
IsFlowing (Received.bytes (b ∷ bs) ∷ rs) = IsFlowing rs
IsFlowing (_ ∷ rs) = ⊥

waits_short : (front : List ℕ) → length front < 10 → try_decode front ≡ done (front, ok none)
unfolding try_decode
waits_short front h = let e : ltb (length front) 10 ≡ true = ground arith in rw e refl

waits_payload :
    (len : ℕ) (front : List ℕ)
    → len ≤ max_payload
    → length front < 10 + len
    → try_frame len front ≡ done (front, ok none)
unfolding try_frame
waits_payload len front c h =
    let capped : ltb max_payload len ≡ false = ground arith in
    let short : ltb (length front) (10 + len) ≡ true = ground arith in rw (capped, short) refl

-- A message that has arrived in part stays in the buffer, byte for byte, if its payload is within
-- the cap.
pub try_decode_partial :
    (m : Message) (front : List ℕ) (x : ℕ) (back : List ℕ)
    → Fits m
    → encode_message m ≡ front ++ (x ∷ back)
    → try_decode front ≡ done (front, ok none)
unfolding encode_message
try_decode_partial m front x back h e =
    let f : Frame = to_frame m in
    let v : IsPlain f = to_frame-IsPlain m h in
    elim (frame_prefix f front x back v e) [
      | inl short ↦ waits_short front short
      | inr (part, q, l) ↦
          let header : List ℕ = encode_header f.msg_type 0 (length f.payload) in
          let n : length (header ++ part) < 10 + length f.payload =
            let a = length-append header part in
            let b = length-encode_header f.msg_type 0 (length f.payload) in
            omega (arith, a, b, l) in
          subst (λ b. try_decode b ≡ done (b, ok none)) (sym q)
            (past_header f.msg_type (length f.payload) part v.capped
              ∙ waits_payload (length f.payload) (header ++ part) v.capped n)
    ]

-- What `recv` leaves when it returns a message in front of `rest`.
abbrev pub Leaves : Message → List ℕ → Outcome → Type 0
Leaves m rest o = (o.0 ≡ RecvResult.msg m) × (o.1 ++ arriving o.2 ≡ rest) × IsFlowing o.2

-- Two ways to cut one list: the second cut lies in the first part, or behind it.
cut :
    (bytes rest buf later : List ℕ)
    → buf ++ later ≡ bytes ++ rest
    → ((tail : List ℕ) × (buf ≡ bytes ++ tail) × (rest ≡ tail ++ later))
      ⊎ ((x : ℕ) × (back : List ℕ) × (bytes ≡ buf ++ (x ∷ back)) × (later ≡ (x ∷ back) ++ rest))
cut [] rest buf later e = inl (buf, refl, sym e)
cut (y ∷ bytes) rest [] later e = inr (y, bytes, refl, e)
cut (y ∷ bytes) rest (z ∷ buf) later e =
    let same : z ≡ y = cc in
    let tails : buf ++ later ≡ bytes ++ rest = cc in
    elim (cut bytes rest buf later tails) [
      | inl (tail, p, q) ↦ inl (tail, ap (λ l. z ∷ l) p ∙ ap (λ n. n ∷ (bytes ++ tail)) same, q)
      | inr (x, back, p, q) ↦
          inr (x, back, ap (λ l. y ∷ l) p ∙ ap (λ n. n ∷ (buf ++ (x ∷ back))) (sym same), q)
    ]

-- The message is whole in the buffer.
takes :
    (m : Message) (buf tail rest : List ℕ) (stream : List Received) (again : List ℕ → Run Outcome)
    → IsWire m
    → Fits m
    → IsFlowing stream
    → buf ≡ encode_message m ++ tail
    → rest ≡ tail ++ arriving stream
    → Ensures (Leaves m rest) (try_decode buf >>= on_decoded stream again)
takes m buf tail rest stream again w h d p q =
    subst (λ t. Ensures (Leaves m rest) (t >>= on_decoded stream again))
      (sym (ap try_decode p ∙ try_decode-encode_message m tail w h)) (refl, sym q, d)

-- A part of the message is still to come.
waits :
    (m : Message) (buf : List ℕ) (x : ℕ) (back rest : List ℕ) (stream : List Received)
    (again : List ℕ → Run Outcome)
    → Fits m
    → encode_message m ≡ buf ++ (x ∷ back)
    → Ensures (Leaves m rest) (again buf)
    → Ensures (Leaves m rest) (try_decode buf >>= on_decoded stream again)
waits m buf x back rest stream again h p k =
    subst (λ t. Ensures (Leaves m rest) (t >>= on_decoded stream again))
      (sym (try_decode_partial m buf x back h p)) k

-- On a connection whose reads each return at least one byte, `recv` returns the message whose bytes
-- come next, however the stream is cut into reads, and loses nothing of what follows, if the
-- message fits the wire and its payload the cap.
pub recv-Leaves :
    (m : Message) (buf : List ℕ) (stream : List Received) (rest : List ℕ)
    → IsWire m
    → Fits m
    → IsFlowing stream
    → buf ++ arriving stream ≡ encode_message m ++ rest
    → Ensures (Leaves m rest) (recv buf stream)
unfolding recv
recv-Leaves m buf [] rest w h d e = elim (cut (encode_message m) rest buf [] e) [
  | inl (tail, p, q) ↦ takes m buf tail rest [] _ w h d p q
  | inr (x, back, p, q) ↦ absurd (let n : [] ≡ x ∷ (back ++ rest) = q in cc)
]
recv-Leaves m buf (Received.bytes [] ∷ stream) rest w h d e = absurd d
recv-Leaves m buf (Received.bytes (b ∷ bs) ∷ stream) rest w h d e =
    let later =
      recv-Leaves m (buf ++ (b ∷ bs)) stream rest w h d
        (append_assoc buf (b ∷ bs) (arriving stream) ∙ e) in
    elim (cut (encode_message m) rest buf ((b ∷ bs) ++ arriving stream) e) [
      | inl (tail, p, q) ↦ takes m buf tail rest (Received.bytes (b ∷ bs) ∷ stream) _ w h d p q
      | inr (x, back, p, q) ↦ waits m buf x back rest _ _ h p later
    ]
recv-Leaves m buf (Received.closed ∷ stream) rest w h d e = absurd d
recv-Leaves m buf (Received.timed_out ∷ stream) rest w h d e = absurd d
recv-Leaves m buf (Received.reset ∷ stream) rest w h d e = absurd d
recv-Leaves m buf (Received.failed ∷ stream) rest w h d e = absurd d
