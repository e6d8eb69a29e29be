-- ===== src/Protocol/Message/RoundTrip.antt =====
-- `from_frame` reads every message back from the frame that `to_frame` makes of it.
use kvmshare.Prelude.{
  List, [], ap, append-nil, append_assoc, arith, false, length, length-append, refl, some, subst,
  sym, true, ℕ, ◌%◌, ◌++◌, ◌^◌, ◌∙◌, ◌∷◌, ◌≡◌,
}
use kvmshare.Prelude.I32.{IsI32, to_bits}
use kvmshare.Prelude.Int.{ℤ}
use kvmshare.Protocol.Frame.{new_frame}
use kvmshare.Protocol.Geometry.{KeyKind, decode_layout, decode_screen_info, from_id, to_id}
use kvmshare.Protocol.Geometry.Codec.{
  IsWireInfo, IsWireLayout, Parses-info, Parses-layout, encode_layout-append,
  encode_screen_info-append, info_bytes, layout_bytes,
}
use kvmshare.Protocol.Message.{
  Message, all_consumed, bool_byte, decode_hello, decode_pair, from_frame, msg_type, ok_or,
  read_payload, to_frame, write_payload,
}
use kvmshare.Protocol.Wire.{
  get_bytes, get_i32, get_str, get_u16, get_u32, get_u8, ok, u16_be, u32_be,
}
use kvmshare.Protocol.Wire.Parses.{Parses, Parses->>=, Parses-return}
use kvmshare.Protocol.Wire.RoundTrip.{
  IsU16, IsU32, IsWireStr, Parses-bytes, Parses-i32, Parses-str, Parses-u16, Parses-u32, Parses-u8,
  put_str-append, str_bytes,
}

-- A message whose fields fit the wire.
abbrev pub IsWire : Message → Type 0
IsWire (Message.hello version id name info) =
    IsU16 version × IsWireStr id × IsWireStr name × IsWireInfo info
IsWire (Message.welcome server_version server_id l own_screen_id) =
    IsU16 server_version × IsWireStr server_id × IsWireLayout l
IsWire (Message.screen_info info) = IsWireInfo info
IsWire (Message.layout l) = IsWireLayout l
IsWire (Message.control command) = Unit {0}
IsWire (Message.enter screen_id x y) = IsI32 x × IsI32 y
IsWire (Message.leave screen_id) = Unit {0}
IsWire (Message.mouse_move_abs x y) = IsI32 x × IsI32 y
IsWire (Message.mouse_move_rel dx dy) = IsI32 dx × IsI32 dy
IsWire (Message.cursor_pos x y) = IsI32 x × IsI32 y
IsWire (Message.mouse_button button pressed) = Unit {0}
IsWire (Message.mouse_wheel dx dy) = IsI32 dx × IsI32 dy
IsWire (Message.key kind usage) = IsU32 usage
IsWire (Message.clipboard mime content) = IsWireStr mime × IsU32 (length content)
IsWire Message.keepalive = Unit {0}
IsWire (Message.error code text) = IsWireStr text
IsWire Message.escape = Unit {0}

-- A payload that parses to the last byte decodes to its message.
from_payload :
    {m : Message} {bs : List ℕ} (t g : ℕ) (payload : List ℕ)
    → payload ≡ bs
    → Parses (read_payload t) bs m
    → from_frame (record { msg_type = t; flags = g; payload = payload }) ≡ ok m
unfolding from_frame
from_payload {m} {bs} t g payload e p =
    subst (λ s. all_consumed (read_payload t (record { bytes = s; pos = 0 })) ≡ ok m)
      (append-nil bs ∙ sym e) (ap all_consumed (p.run [] []) ∙ ground (arith, length-append bs []))

Parses-pair :
    (f : ℤ → ℤ → Message) (x y : ℤ)
    → IsI32 x
    → IsI32 y
    → Parses (decode_pair f) (u32_be (to_bits x) ++ (u32_be (to_bits y) ++ [])) (f x y)
unfolding decode_pair
Parses-pair f x y hx hy =
    Parses->>= get_i32 _ (Parses-i32 x hx)
      (Parses->>= get_i32 _ (Parses-i32 y hy) (Parses-return (f x y)))

-- The bytes of each payload, from left to right.
payload_bytes : Message → List ℕ
payload_bytes (Message.hello version id name info) =
    u16_be version ++ (str_bytes id ++ (str_bytes name ++ (info_bytes info ++ [])))
payload_bytes (Message.welcome server_version server_id l own_screen_id) =
    u16_be server_version ++ (str_bytes server_id ++ (layout_bytes l ++ (own_screen_id ∷ [])))
payload_bytes (Message.screen_info info) = info_bytes info ++ []
payload_bytes (Message.layout l) = layout_bytes l ++ []
payload_bytes (Message.control command) = command ∷ []
payload_bytes (Message.enter screen_id x y) =
    screen_id ∷ (u32_be (to_bits x) ++ (u32_be (to_bits y) ++ []))
payload_bytes (Message.leave screen_id) = screen_id ∷ []
payload_bytes (Message.mouse_move_abs x y) = u32_be (to_bits x) ++ (u32_be (to_bits y) ++ [])
payload_bytes (Message.mouse_move_rel x y) = u32_be (to_bits x) ++ (u32_be (to_bits y) ++ [])
payload_bytes (Message.cursor_pos x y) = u32_be (to_bits x) ++ (u32_be (to_bits y) ++ [])
payload_bytes (Message.mouse_button button pressed) = button ∷ bool_byte pressed ∷ []
payload_bytes (Message.mouse_wheel x y) = u32_be (to_bits x) ++ (u32_be (to_bits y) ++ [])
payload_bytes (Message.key kind usage) = to_id kind ∷ (u32_be usage ++ [])
payload_bytes (Message.clipboard mime content) =
    str_bytes mime ++ (u32_be (length content) ++ (content ++ []))
payload_bytes Message.keepalive = []
payload_bytes (Message.error code text) = code ∷ (str_bytes text ++ [])
payload_bytes Message.escape = []

write_payload-bytes : (m : Message) → IsWire m → write_payload m ≡ payload_bytes m
unfolding write_payload payload_bytes
write_payload-bytes (Message.hello version id name info) v =
    encode_screen_info-append info _
    ∙ (ap (λ w. w ++ info_bytes info)
          (put_str-append _ name v.2
            ∙ ap (λ w. w ++ str_bytes name) (put_str-append (u16_be version) id v.1))
        ∙ simp (append_assoc, append-nil))
write_payload-bytes (Message.welcome server_version server_id l own_screen_id) v =
    ap (λ w. w ++ own_screen_id ∷ [])
      (encode_layout-append l _ v.2
        ∙ ap (λ w. w ++ layout_bytes l) (put_str-append (u16_be server_version) server_id v.1))
    ∙ simp (append_assoc, append-nil)
write_payload-bytes (Message.screen_info info) v =
    encode_screen_info-append info [] ∙ sym (append-nil _)
write_payload-bytes (Message.layout l) v = encode_layout-append l [] v ∙ sym (append-nil _)
write_payload-bytes (Message.clipboard mime content) v =
    let e : length content % 2 ^ 32 ≡ length content = let h = v.1 in omega arith in
    rw (e, put_str-append [] mime v.0) (simp (append_assoc, append-nil))
write_payload-bytes (Message.error code text) v =
    put_str-append (code ∷ []) text v ∙ sym (append-nil _)
write_payload-bytes (Message.control command) v = refl
write_payload-bytes (Message.enter screen_id x y) v = simp (append_assoc, append-nil)
write_payload-bytes (Message.leave screen_id) v = refl
write_payload-bytes (Message.mouse_move_abs x y) v = simp (append_assoc, append-nil)
write_payload-bytes (Message.mouse_move_rel x y) v = simp (append_assoc, append-nil)
write_payload-bytes (Message.cursor_pos x y) v = simp (append_assoc, append-nil)
write_payload-bytes (Message.mouse_button button pressed) v = refl
write_payload-bytes (Message.mouse_wheel x y) v = simp (append_assoc, append-nil)
write_payload-bytes (Message.key kind usage) v = simp (append_assoc, append-nil)
write_payload-bytes Message.keepalive v = refl
write_payload-bytes Message.escape v = refl

IsU32-clipboard :
    (mime content : List ℕ) → IsWire (Message.clipboard mime content) → IsU32 (length content)
IsU32-clipboard mime content v = v.1

from_id-to_id : (k : KeyKind) → from_id (to_id k) ≡ some k
unfolding from_id to_id
from_id-to_id KeyKind.down = refl
from_id-to_id KeyKind.up = refl
from_id-to_id KeyKind.repeat = refl

Parses-payload : (m : Message) → IsWire m → Parses (read_payload (msg_type m)) (payload_bytes m) m
unfolding read_payload msg_type payload_bytes
Parses-payload (Message.hello version id name info) v =
    unfold decode_hello in
    (Parses->>= get_u16 _ (Parses-u16 version v.0) (
      Parses->>= get_str _ (Parses-str id v.1) (
        Parses->>= get_str _ (Parses-str name v.2)
          (Parses->>= decode_screen_info _ (Parses-info info v.3) (Parses-return _)))))
Parses-payload (Message.welcome server_version server_id l own_screen_id) v =
    Parses->>= get_u16 _ (Parses-u16 server_version v.0) (
      Parses->>= get_str _ (Parses-str server_id v.1) (
        Parses->>= decode_layout _ (Parses-layout l v.2)
          (Parses->>= get_u8 _ (Parses-u8 own_screen_id) (Parses-return _))))
Parses-payload (Message.screen_info info) v =
    Parses->>= decode_screen_info _ (Parses-info info v) (Parses-return _)
Parses-payload (Message.layout l) v =
    Parses->>= decode_layout _ (Parses-layout l v) (Parses-return _)
Parses-payload (Message.control command) v =
    Parses->>= get_u8 _ (Parses-u8 command) (Parses-return _)
Parses-payload (Message.enter screen_id x y) v = Parses->>= get_u8 _ (Parses-u8 screen_id) (
    Parses->>= get_i32 _ (Parses-i32 x v.0)
      (Parses->>= get_i32 _ (Parses-i32 y v.1) (Parses-return _)))
Parses-payload (Message.leave screen_id) v =
    Parses->>= get_u8 _ (Parses-u8 screen_id) (Parses-return _)
Parses-payload (Message.mouse_move_abs x y) v = Parses-pair Message.mouse_move_abs x y v.0 v.1
Parses-payload (Message.mouse_move_rel x y) v = Parses-pair Message.mouse_move_rel x y v.0 v.1
Parses-payload (Message.cursor_pos x y) v = Parses-pair Message.cursor_pos x y v.0 v.1
Parses-payload (Message.mouse_button button true) v =
    Parses->>= get_u8 _ (Parses-u8 button) (Parses->>= get_u8 _ (Parses-u8 1) (Parses-return _))
Parses-payload (Message.mouse_button button false) v =
    Parses->>= get_u8 _ (Parses-u8 button) (Parses->>= get_u8 _ (Parses-u8 0) (Parses-return _))
Parses-payload (Message.mouse_wheel x y) v = Parses-pair Message.mouse_wheel x y v.0 v.1
Parses-payload (Message.key kind usage) v = Parses->>= get_u8 _ (Parses-u8 (to_id kind)) (
    Parses->>= (ok_or (from_id (to_id kind)) "bad key kind") _ (known kind)
      (Parses->>= get_u32 _ (Parses-u32 usage v) (Parses-return _)))
  where
    known : (k : KeyKind) → Parses (ok_or (from_id (to_id k)) "bad key kind") [] k
    known k =
        subst (λ o. Parses (ok_or o "bad key kind") [] k) (sym (from_id-to_id k)) (Parses-return k)
Parses-payload (Message.clipboard mime content) v = Parses->>= get_str _ (Parses-str mime v.0) (
    Parses->>= get_u32 _ (Parses-u32 (length content) v.1) (
      Parses->>= (get_bytes (length content) "clipboard data") _
        (Parses-bytes content "clipboard data") (Parses-return _)))
Parses-payload Message.keepalive v = Parses-return _
Parses-payload (Message.error code text) v =
    Parses->>= get_u8 _ (Parses-u8 code)
      (Parses->>= get_str _ (Parses-str text v) (Parses-return _))
Parses-payload Message.escape v = Parses-return _

-- `from_frame` returns the message of which `to_frame` made the frame, for all seventeen kinds, if
-- the fields fit the wire.
pub from_frame-to_frame : (m : Message) → IsWire m → from_frame (to_frame m) ≡ ok m
unfolding to_frame new_frame
from_frame-to_frame m v =
    from_payload (msg_type m) 0 (write_payload m) (write_payload-bytes m v) (Parses-payload m v)
