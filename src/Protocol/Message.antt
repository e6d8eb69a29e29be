-- ===== src/Protocol/Message.antt =====
-- crates/protocol/src/message/mod.rs: the messages, and their payloads.
use kvmshare.Prelude.{
  Bool, List, Option, String, [], false, if◌then◌else◌, length, none, not, some, true, ℕ, ◌%◌, ◌==◌,
  ◌^◌, ◌∷◌,
}
use kvmshare.Prelude.Int.{ℤ}
use kvmshare.Protocol.Frame.{Chunk, Frame, decode_from, encode_frame, new_frame}
use kvmshare.Protocol.Frame.Decode.{contents}
use kvmshare.Protocol.Geometry.{
  KeyKind, ScreenInfo, WireLayout, decode_layout, decode_screen_info, encode_layout,
  encode_screen_info, from_id, to_id,
}
use kvmshare.Protocol.Ids.{
  clipboard_type, control_type, cursor_pos_type, enter_type, error_type, escape_type, hello_type,
  keepalive_type, key_type, layout_type, leave_type, mouse_button_type, mouse_move_abs_type,
  mouse_move_rel_type, mouse_wheel_type, screen_info_type, welcome_type,
}
use kvmshare.Protocol.Wire.{
  ReadBuf, Reader, Result, WriteBuf, err, fail, get_bytes, get_i32, get_str, get_u16, get_u32,
  get_u8, ok, put_bytes, put_i32, put_str, put_u16, put_u32, put_u8, read_buf, remaining, return,
  ◌>>=◌,
}
pub mod RoundTrip
pub mod Whole

-- Strings are their UTF-8 bytes.
pub data Message : Type 0 where
  hello : ℕ → List ℕ → List ℕ → ScreenInfo → Message
  welcome : ℕ → List ℕ → WireLayout → ℕ → Message
  screen_info : ScreenInfo → Message
  layout : WireLayout → Message
  control : ℕ → Message
  enter : ℕ → ℤ → ℤ → Message
  leave : ℕ → Message
  mouse_move_abs : ℤ → ℤ → Message
  mouse_move_rel : ℤ → ℤ → Message
  cursor_pos : ℤ → ℤ → Message
  mouse_button : ℕ → Bool → Message
  mouse_wheel : ℤ → ℤ → Message
  key : KeyKind → ℕ → Message
  clipboard : List ℕ → List ℕ → Message
  keepalive : Message
  error : ℕ → List ℕ → Message
  escape : Message

unfoldable pub msg_type : Message → ℕ
msg_type (Message.hello v i n s) = hello_type
msg_type (Message.welcome v i l o) = welcome_type
msg_type (Message.screen_info s) = screen_info_type
msg_type (Message.layout l) = layout_type
msg_type (Message.control c) = control_type
msg_type (Message.enter i x y) = enter_type
msg_type (Message.leave i) = leave_type
msg_type (Message.mouse_move_abs x y) = mouse_move_abs_type
msg_type (Message.mouse_move_rel x y) = mouse_move_rel_type
msg_type (Message.cursor_pos x y) = cursor_pos_type
msg_type (Message.mouse_button b p) = mouse_button_type
msg_type (Message.mouse_wheel x y) = mouse_wheel_type
msg_type (Message.key k u) = key_type
msg_type (Message.clipboard m d) = clipboard_type
msg_type Message.keepalive = keepalive_type
msg_type (Message.error c t) = error_type
msg_type Message.escape = escape_type

-- `bool as u8`.
abbrev pub bool_byte : Bool → ℕ
bool_byte true = 1
bool_byte false = 0

-- The writer of `to_frame`.
unfoldable pub write_payload : Message → WriteBuf
unfolding put_u8 put_u16 put_u32 put_i32 put_str put_bytes encode_screen_info encode_layout to_id
write_payload (Message.hello version id name info) =
    encode_screen_info info (put_str (put_str (put_u16 [] version) id) name)
write_payload (Message.welcome server_version server_id l own_screen_id) =
    put_u8 (encode_layout l (put_str (put_u16 [] server_version) server_id)) own_screen_id
write_payload (Message.screen_info info) = encode_screen_info info []
write_payload (Message.layout l) = encode_layout l []
write_payload (Message.control command) = put_u8 [] command
write_payload (Message.enter screen_id x y) = put_i32 (put_i32 (put_u8 [] screen_id) x) y
write_payload (Message.leave screen_id) = put_u8 [] screen_id
write_payload (Message.mouse_move_abs x y) = put_i32 (put_i32 [] x) y
write_payload (Message.mouse_move_rel dx dy) = put_i32 (put_i32 [] dx) dy
write_payload (Message.cursor_pos x y) = put_i32 (put_i32 [] x) y
write_payload (Message.mouse_button button pressed) = put_u8 (put_u8 [] button) (bool_byte pressed)
write_payload (Message.mouse_wheel dx dy) = put_i32 (put_i32 [] dx) dy
write_payload (Message.key kind usage) = put_u32 (put_u8 [] (to_id kind)) usage
write_payload (Message.clipboard mime content) =
    put_bytes (put_u32 (put_str [] mime) (length content % 2 ^ 32)) content
write_payload Message.keepalive = []
write_payload (Message.error code text) = put_str (put_u8 [] code) text
write_payload Message.escape = []

unfoldable pub to_frame : Message → Frame
unfolding msg_type write_payload new_frame
to_frame m = new_frame (msg_type m) (write_payload m)

-- `Option::ok_or` under `?`.
abbrev pub ok_or : {A : Type 0} → Option A → String → Reader A
ok_or (some a) what = return a
ok_or none what = fail what

-- The arms of the match in `from_frame`.
unfoldable pub decode_hello : Reader Message
unfolding get_u16 get_str decode_screen_info
decode_hello = do
  version ← get_u16
  id ← get_str
  name ← get_str
  info ← decode_screen_info
  return (Message.hello version id name info)

unfoldable pub decode_welcome : Reader Message
unfolding get_u8 get_u16 get_str decode_layout
decode_welcome = do
  server_version ← get_u16
  server_id ← get_str
  l ← decode_layout
  own_screen_id ← get_u8
  return (Message.welcome server_version server_id l own_screen_id)

unfoldable pub decode_enter : Reader Message
unfolding get_u8 get_i32
decode_enter = do screen_id ← get_u8; x ← get_i32; y ← get_i32; return (Message.enter screen_id x y)

unfoldable pub decode_pair : (ℤ → ℤ → Message) → Reader Message
unfolding get_i32
decode_pair f = do x ← get_i32; y ← get_i32; return (f x y)

unfoldable pub decode_button : Reader Message
unfolding get_u8
decode_button = do
  button ← get_u8
  pressed ← get_u8
  return (Message.mouse_button button (not (pressed == 0)))

unfoldable pub decode_key : Reader Message
unfolding get_u8 get_u32 from_id
decode_key = do
  k ← get_u8
  kind ← ok_or (from_id k) "bad key kind"
  usage ← get_u32
  return (Message.key kind usage)

unfoldable pub decode_clipboard : Reader Message
unfolding get_u32 get_str get_bytes
decode_clipboard = do
  mime ← get_str
  len ← get_u32
  content ← get_bytes len "clipboard data"
  return (Message.clipboard mime content)

unfoldable pub decode_error : Reader Message
unfolding get_u8 get_str
decode_error = do code ← get_u8; text ← get_str; return (Message.error code text)

-- The match of `from_frame` on the message type.
unfoldable pub read_payload : ℕ → Reader Message
unfolding decode_hello decode_welcome decode_enter decode_pair decode_button decode_key
    decode_clipboard decode_error
read_payload t =
    if t == hello_type
    then decode_hello
    else if t == welcome_type
    then decode_welcome
    else if t == screen_info_type
    then (do i ← decode_screen_info; return (Message.screen_info i))
    else if t == layout_type
    then (do l ← decode_layout; return (Message.layout l))
    else if t == control_type
    then (do c ← get_u8; return (Message.control c))
    else if t == enter_type
    then decode_enter
    else if t == leave_type
    then (do i ← get_u8; return (Message.leave i))
    else if t == mouse_move_abs_type
    then decode_pair Message.mouse_move_abs
    else if t == mouse_move_rel_type
    then decode_pair Message.mouse_move_rel
    else if t == cursor_pos_type
    then decode_pair Message.cursor_pos
    else if t == mouse_button_type
    then decode_button
    else if t == mouse_wheel_type
    then decode_pair Message.mouse_wheel
    else if t == key_type
    then decode_key
    else if t == clipboard_type
    then decode_clipboard
    else if t == keepalive_type
    then return Message.keepalive
    else if t == error_type
    then decode_error
    else if t == escape_type
    then return Message.escape
    else fail "unknown message type"

-- The end of `from_frame`: every payload byte must be consumed.
unfoldable pub all_consumed : Result (Message × ReadBuf) → Result Message
unfolding remaining
all_consumed (ok (msg, r)) = if remaining r == 0 then ok msg else err "trailing bytes in payload"
all_consumed (err e) = err e

unfoldable pub from_frame : Frame → Result Message
unfolding read_payload all_consumed read_buf
from_frame f = all_consumed (read_payload f.msg_type (read_buf f.payload))

-- `Message::encode`.
unfoldable pub encode_message : Message → List ℕ
unfolding to_frame encode_frame
encode_message m = encode_frame (to_frame m)

-- The end of `Message::decode`: an `io::Cursor` is a reader with one chunk, and `cur.position()` is
-- what it has delivered.
unfoldable pub single_frame : Result (Option (Frame × List Chunk)) → Result Message
unfolding from_frame
single_frame (err e) = err "bad frame"
single_frame (ok none) = err "no frame"
single_frame (ok (some (frame, r))) =
    if length (contents r) == 0 then from_frame frame else err "trailing bytes after frame"

unfoldable pub decode_message : List ℕ → Result Message
unfolding single_frame decode_from
decode_message b = single_frame (decode_from (Chunk.bytes b ∷ []))
