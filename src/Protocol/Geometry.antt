-- ===== src/Protocol/Geometry.antt =====
-- crates/protocol/src/message/geometry.rs: screen shapes, rectangles, screens and the layout payload.
use kvmshare.Prelude.{
  Bool, List, Option, [], if◌then◌else◌, leb, length, ltb, none, not, some, suc, zero, ℕ, ◌%◌, ◌&&◌,
  ◌/◌, ◌==◌, ◌^◌, ◌||◌, ◌∷◌,
}
use kvmshare.Prelude.Int.{leb_ℤ, ltb_ℤ, ℤ}
use kvmshare.Protocol.Wire.{
  Reader, WriteBuf, fail, get_i32, get_str, get_u32, get_u8, put_i32, put_str, put_u32, put_u8,
  return, ◌>>=◌,
}
use kvmshare.Prelude.I32
pub mod Codec

-- `scale` is an f32, kept as its 32 IEEE bits.
pub record ScreenInfo : Type 0 where
  pub width : ℕ
  pub height : ℕ
  pub scale : ℕ

-- `ScreenInfo::MAX_DIMENSION`.
abbrev pub max_dimension : ℕ
max_dimension = 32768

-- `f32::is_finite` and `<= 0.0` (for a number that is finite) on the bits.
unfoldable pub f32_is_finite : ℕ → Bool
f32_is_finite bits = not (bits / 2 ^ 23 % 256 == 255)

unfoldable pub f32_is_nonpositive : ℕ → Bool
f32_is_nonpositive bits = leb (2 ^ 31) bits || bits == 0

unfoldable pub encode_screen_info : ScreenInfo → WriteBuf → WriteBuf
unfolding put_u32
encode_screen_info s w = put_u32 (put_u32 (put_u32 w s.width) s.height) s.scale

-- `min(MAX_DIMENSION).max(1)`.
abbrev pub clamp_dimension : ℕ → ℕ
clamp_dimension n =
    let m = if ltb max_dimension n then max_dimension else n in if m == 0 then 1 else m

-- The end of `ScreenInfo::decode`, with the three words read.
unfoldable pub make_screen_info : ℕ → ℕ → ℕ → Reader ScreenInfo
unfolding f32_is_finite f32_is_nonpositive
make_screen_info width height scale =
    if not (f32_is_finite scale) || f32_is_nonpositive scale
    then fail "invalid screen scale (must be finite and positive)"
    else return
        (record { width = clamp_dimension width; height = clamp_dimension height; scale = scale })

unfoldable pub decode_screen_info : Reader ScreenInfo
unfolding get_u32 make_screen_info
decode_screen_info = do
  width ← get_u32
  height ← get_u32
  scale ← get_u32
  make_screen_info width height scale

pub data KeyKind : Type 0 where
  down up repeat : KeyKind

unfoldable pub to_id : KeyKind → ℕ
to_id KeyKind.down = 0
to_id KeyKind.up = 1
to_id KeyKind.repeat = 2

unfoldable pub from_id : ℕ → Option KeyKind
from_id id =
    if id == 0
    then some KeyKind.down
    else if id == 1
    then some KeyKind.up
    else if id == 2
    then some KeyKind.repeat
    else none

-- Coordinates are i32, and `x + w` wraps as i32 addition does.
pub record Rect : Type 0 where
  pub x : ℤ
  pub y : ℤ
  pub w : ℤ
  pub h : ℤ

abbrev pub left : Rect → ℤ
left r = r.x

abbrev pub right : Rect → ℤ
right r = I32.add r.x r.w

abbrev pub top : Rect → ℤ
top r = r.y

abbrev pub bottom : Rect → ℤ
bottom r = I32.add r.y r.h

unfoldable pub contains : Rect → ℤ → ℤ → Bool
contains r x y =
    leb_ℤ r.x x && ltb_ℤ x (I32.add r.x r.w) && leb_ℤ r.y y && ltb_ℤ y (I32.add r.y r.h)

unfoldable pub center : Rect → ℤ × ℤ
center r = (I32.add r.x (I32.half r.w), I32.add r.y (I32.half r.h))

unfoldable pub encode_rect : Rect → WriteBuf → WriteBuf
unfolding put_i32
encode_rect r w = put_i32 (put_i32 (put_i32 (put_i32 w r.x) r.y) r.w) r.h

unfoldable pub decode_rect : Reader Rect
unfolding get_i32
decode_rect = do
  x ← get_i32
  y ← get_i32
  w ← get_i32
  h ← get_i32
  return (record { x = x; y = y; w = w; h = h })

-- `name` is a String: its UTF-8 bytes.
pub record Screen : Type 0 where
  pub id : ℕ
  pub name : List ℕ
  pub rect : Rect

unfoldable pub encode_screen : Screen → WriteBuf → WriteBuf
unfolding put_u8 put_str encode_rect
encode_screen s w = encode_rect s.rect (put_str (put_u8 w s.id) s.name)

unfoldable pub decode_screen : Reader Screen
unfolding get_u8 get_str decode_rect
decode_screen = do
  id ← get_u8
  name ← get_str
  rect ← decode_rect
  return (record { id = id; name = name; rect = rect })

-- The layout payload of the wire; `screens.len() as u8` wraps.
pub record WireLayout : Type 0 where
  pub screens : List Screen

unfoldable pub encode_screens : List Screen → WriteBuf → WriteBuf
unfolding encode_screen
encode_screens [] w = w
encode_screens (s ∷ ss) w = encode_screens ss (encode_screen s w)

unfoldable pub encode_layout : WireLayout → WriteBuf → WriteBuf
unfolding put_u8 encode_screens
encode_layout l w = encode_screens l.screens (put_u8 w (length l.screens % 256))

-- The loop of `Layout::decode`, with the rounds left.
unfoldable pub decode_screens : ℕ → Reader (List Screen)
unfolding decode_screen
decode_screens zero = return []
decode_screens (suc n) = do s ← decode_screen; rest ← decode_screens n; return (s ∷ rest)

unfoldable pub decode_layout : Reader WireLayout
unfolding get_u8 decode_screens
decode_layout = do n ← get_u8; screens ← decode_screens n; return (record { screens = screens })
