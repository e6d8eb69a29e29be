-- ===== src/Protocol/Wire/Utf8.antt =====
-- `std::str::from_utf8`: which byte sequences are UTF-8.
use kvmshare.Prelude.{
  Bool, List, Option, [], false, if◌then◌else◌, leb, none, refl, some, true, ℕ, ◌&&◌, ◌-◌, ◌==◌,
  ◌∷◌, ◌≡◌,
}

-- The continuation bytes still due, and the range of the next one.
pub record Utf8 : Type 0 where
  pub due : ℕ
  pub lo : ℕ
  pub hi : ℕ

abbrev boundary : Utf8
boundary = record { due = 0; lo = 0x80; hi = 0xbf }

abbrev between : ℕ → ℕ → ℕ → Bool
between lo b hi = leb lo b && leb b hi

lead : ℕ → Option Utf8
lead b =
    if leb b 0x7f
    then some boundary
    else if between 0xc2 b 0xdf
    then some (record { due = 1; lo = 0x80; hi = 0xbf })
    else if b == 0xe0
    then some (record { due = 2; lo = 0xa0; hi = 0xbf })
    else if b == 0xed
    then some (record { due = 2; lo = 0x80; hi = 0x9f })
    else if between 0xe1 b 0xef
    then some (record { due = 2; lo = 0x80; hi = 0xbf })
    else if b == 0xf0
    then some (record { due = 3; lo = 0x90; hi = 0xbf })
    else if between 0xf1 b 0xf3
    then some (record { due = 3; lo = 0x80; hi = 0xbf })
    else if b == 0xf4
    then some (record { due = 3; lo = 0x80; hi = 0x8f })
    else none

utf8_step : Utf8 → ℕ → Option Utf8
unfolding lead
utf8_step s b =
    if s.due == 0
    then lead b
    else if between s.lo b s.hi
    then some (record { due = s.due - 1; lo = 0x80; hi = 0xbf })
    else none

utf8_run : Utf8 → List ℕ → Bool
utf8_run s [] = s.due == 0
utf8_run s (b ∷ bs) = elim (utf8_step s b) [ none ↦ false | some s' ↦ utf8_run s' bs ]

unfoldable pub utf8_valid : List ℕ → Bool
unfolding utf8_run utf8_step
utf8_valid bs = utf8_run boundary bs

-- "hé€" is UTF-8; an overlong form, a surrogate and a cut sequence are not.
utf8_valid_text : utf8_valid (0x68 ∷ 0xc3 ∷ 0xa9 ∷ 0xe2 ∷ 0x82 ∷ 0xac ∷ []) ≡ true
unfolding utf8_valid
utf8_valid_text = refl

utf8_valid_overlong : utf8_valid (0xc0 ∷ 0x80 ∷ []) ≡ false
unfolding utf8_valid
utf8_valid_overlong = refl

utf8_valid_surrogate : utf8_valid (0xed ∷ 0xa0 ∷ 0x80 ∷ []) ≡ false
unfolding utf8_valid
utf8_valid_surrogate = refl

utf8_valid_cut : utf8_valid (0xe2 ∷ 0x82 ∷ []) ≡ false
unfolding utf8_valid
utf8_valid_cut = refl
