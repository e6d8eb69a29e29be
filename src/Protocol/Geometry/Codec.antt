-- ===== src/Protocol/Geometry/Codec.antt =====
-- The decoders of geometry.rs read what the encoders append.
use kvmshare.Prelude.{
  All, List, [], append-nil, append_assoc, arith, false, length, not, refl, sym, true, ℕ, ◌%◌, ◌++◌,
  ◌<◌, ◌||◌, ◌∙◌, ◌∷◌, ◌≡◌, ◌≤◌,
}
use kvmshare.Prelude.I32.{IsI32, to_bits}
use kvmshare.Protocol.Geometry.{
  Rect, Screen, ScreenInfo, WireLayout, clamp_dimension, decode_layout, decode_rect, decode_screen,
  decode_screen_info, decode_screens, encode_layout, encode_rect, encode_screen, encode_screen_info,
  encode_screens, f32_is_finite, f32_is_nonpositive, make_screen_info, max_dimension,
}
use kvmshare.Protocol.Wire.{WriteBuf, get_i32, get_str, get_u32, get_u8, put_str, u32_be}
use kvmshare.Protocol.Wire.Parses.{Parses, Parses->>=, Parses-return}
use kvmshare.Protocol.Wire.RoundTrip.{
  IsU32, IsWireStr, Parses-else, Parses-eq, Parses-i32, Parses-str, Parses-u32, Parses-u8,
  put_str-append, str_bytes,
}

pub record IsWireInfo (s : ScreenInfo) : Type 0 where
  pub width_min : 1 ≤ s.width
  pub width_max : s.width ≤ max_dimension
  pub height_min : 1 ≤ s.height
  pub height_max : s.height ≤ max_dimension
  pub scale_bits : IsU32 s.scale
  pub finite : f32_is_finite s.scale ≡ true
  pub positive : f32_is_nonpositive s.scale ≡ false

pub record IsWireRect (r : Rect) : Type 0 where
  pub x_range : IsI32 r.x
  pub y_range : IsI32 r.y
  pub w_range : IsI32 r.w
  pub h_range : IsI32 r.h

pub record IsWireScreen (s : Screen) : Type 0 where
  pub name_text : IsWireStr s.name
  pub rect_range : IsWireRect s.rect

pub record IsWireLayout (l : WireLayout) : Type 0 where
  pub few : length l.screens < 256
  pub each : All IsWireScreen l.screens

-- What the encoders append.
unfoldable pub info_bytes : ScreenInfo → List ℕ
info_bytes s = u32_be s.width ++ (u32_be s.height ++ (u32_be s.scale ++ []))

unfoldable pub rect_bytes : Rect → List ℕ
rect_bytes r =
    u32_be (to_bits r.x)
    ++ (u32_be (to_bits r.y) ++ (u32_be (to_bits r.w) ++ (u32_be (to_bits r.h) ++ [])))

unfoldable pub screen_bytes : Screen → List ℕ
screen_bytes s = (s.id ∷ []) ++ (str_bytes s.name ++ (rect_bytes s.rect ++ []))

unfoldable pub screens_bytes : List Screen → List ℕ
screens_bytes [] = []
screens_bytes (s ∷ ss) = screen_bytes s ++ (screens_bytes ss ++ [])

unfoldable pub layout_bytes : WireLayout → List ℕ
layout_bytes l = (length l.screens ∷ []) ++ (screens_bytes l.screens ++ [])

pub encode_screen_info-append :
    (s : ScreenInfo) (w : WriteBuf) → encode_screen_info s w ≡ w ++ info_bytes s
unfolding encode_screen_info info_bytes
encode_screen_info-append s w = simp (append_assoc, append-nil)

pub encode_rect-append : (r : Rect) (w : WriteBuf) → encode_rect r w ≡ w ++ rect_bytes r
unfolding encode_rect rect_bytes
encode_rect-append r w = simp (append_assoc, append-nil)

pub encode_screen-append :
    (s : Screen) (w : WriteBuf) → IsWireScreen s → encode_screen s w ≡ w ++ screen_bytes s
unfolding encode_screen screen_bytes
encode_screen-append s w h =
    encode_rect-append s.rect (put_str (w ++ s.id ∷ []) s.name)
    ∙ rw (put_str-append (w ++ s.id ∷ []) s.name h.name_text) (simp (append_assoc, append-nil))

encode_screens-append :
    (ss : List Screen) (w : WriteBuf)
    → All IsWireScreen ss
    → encode_screens ss w ≡ w ++ screens_bytes ss
unfolding screens_bytes encode_screens
encode_screens-append [] w h = sym (append-nil w)
encode_screens-append (s ∷ ss) w h =
    encode_screens-append ss (encode_screen s w) h.1
    ∙ rw (encode_screen-append s w h.0) (simp (append_assoc, append-nil))

pub encode_layout-append :
    (l : WireLayout) (w : WriteBuf) → IsWireLayout l → encode_layout l w ≡ w ++ layout_bytes l
unfolding encode_layout layout_bytes
encode_layout-append l w h =
    let e : length l.screens % 256 ≡ length l.screens = let f = h.few in omega arith in
    rw e (
      encode_screens-append l.screens (w ++ length l.screens ∷ []) h.each
      ∙ simp (append_assoc, append-nil))

clamp_dimension_id : (n : ℕ) → 1 ≤ n → n ≤ max_dimension → clamp_dimension n ≡ n
clamp_dimension_id n lo hi = ground arith

Parses-make_screen_info :
    (s : ScreenInfo) → IsWireInfo s → Parses (make_screen_info s.width s.height s.scale) [] s
unfolding make_screen_info
Parses-make_screen_info s h =
    Parses-else (not (f32_is_finite s.scale) || f32_is_nonpositive s.scale) _
      (rw (h.finite, h.positive) refl)
      (Parses-eq (ground (arith, clamp_dimension_id s.width, clamp_dimension_id s.height)) (
        Parses-return (record {
          width = clamp_dimension s.width;
          height = clamp_dimension s.height;
          scale = s.scale;
        })))

pub Parses-info : (s : ScreenInfo) → IsWireInfo s → Parses decode_screen_info (info_bytes s) s
unfolding decode_screen_info info_bytes
Parses-info s h = Parses->>= get_u32 _ (Parses-u32 s.width (omega arith)) (
    Parses->>= get_u32 _ (Parses-u32 s.height (omega arith))
      (Parses->>= get_u32 _ (Parses-u32 s.scale h.scale_bits) (Parses-make_screen_info s h)))

pub Parses-rect : (r : Rect) → IsWireRect r → Parses decode_rect (rect_bytes r) r
unfolding decode_rect rect_bytes
Parses-rect r v = Parses->>= get_i32 _ (Parses-i32 r.x v.x_range) (
    Parses->>= get_i32 _ (Parses-i32 r.y v.y_range) (
      Parses->>= get_i32 _ (Parses-i32 r.w v.w_range)
        (Parses->>= get_i32 _ (Parses-i32 r.h v.h_range) (Parses-return r))))

pub Parses-screen : (s : Screen) → IsWireScreen s → Parses decode_screen (screen_bytes s) s
unfolding decode_screen screen_bytes
Parses-screen s v = Parses->>= get_u8 _ (Parses-u8 s.id) (
    Parses->>= get_str _ (Parses-str s.name v.name_text)
      (Parses->>= decode_rect _ (Parses-rect s.rect v.rect_range) (Parses-return s)))

Parses-screens :
    (ss : List Screen)
    → All IsWireScreen ss
    → Parses (decode_screens (length ss)) (screens_bytes ss) ss
unfolding decode_screens screens_bytes
Parses-screens [] v = Parses-return []
Parses-screens (s ∷ ss) v =
    Parses->>= decode_screen _ (Parses-screen s v.0)
      (Parses->>= (decode_screens (length ss)) _ (Parses-screens ss v.1) (Parses-return (s ∷ ss)))

pub Parses-layout : (l : WireLayout) → IsWireLayout l → Parses decode_layout (layout_bytes l) l
unfolding decode_layout layout_bytes
Parses-layout l v = Parses->>= get_u8 _ (Parses-u8 (length l.screens)) (
    Parses->>= (decode_screens (length l.screens)) _ (Parses-screens l.screens v.each)
      (Parses-return l))
