-- ===== src/Actions.antt =====
-- crates/core/src/actions.rs: key bindings, and the engine that matches chords.
use kvmshare.Prelude.{
  Bool, List, [], false, if◌then◌else◌, leb, not, retain, true, ℕ, ◌&&◌, ◌==◌, ◌||◌, ◌∷◌,
}
pub mod Engine
pub mod Safety
pub mod Releases

-- Screen names and action words are byte strings.
pub data UserAction : Type 0 where
  switch_to_screen : List ℕ → UserAction
  switch_next : UserAction
  toggle_lock : UserAction
  go_home : UserAction

pub record Mods : Type 0 where
  pub ctrl : Bool
  pub alt : Bool
  pub shift : Bool
  pub meta : Bool

-- `Mods::NONE`.
abbrev pub no_mods : Mods
no_mods = record { ctrl = false; alt = false; shift = false; meta = false }

-- Module `hid`.
abbrev pub scroll_lock : ℕ
scroll_lock = 0x47

abbrev pub pause : ℕ
pause = 0x48

abbrev pub ctrl_l : ℕ
ctrl_l = 0xe0

abbrev pub shift_l : ℕ
shift_l = 0xe1

abbrev pub alt_l : ℕ
alt_l = 0xe2

abbrev pub meta_l : ℕ
meta_l = 0xe3

abbrev pub ctrl_r : ℕ
ctrl_r = 0xe4

abbrev pub shift_r : ℕ
shift_r = 0xe5

abbrev pub alt_r : ℕ
alt_r = 0xe6

abbrev pub meta_r : ℕ
meta_r = 0xe7

unfoldable pub is_modifier : ℕ → Bool
is_modifier key =
    key == ctrl_l
    || key == ctrl_r
    || key == shift_l
    || key == shift_r
    || key == alt_l
    || key == alt_r
    || key == meta_l
    || key == meta_r

-- `MIN_BINDABLE_KEY`.
abbrev pub min_bindable_key : ℕ
min_bindable_key = 0x04

pub record Binding : Type 0 where
  pub mods : Mods
  pub key : ℕ
  pub action : List ℕ
  pub screen : List ℕ

pub record BindSection : Type 0 where
  pub enabled : Bool
  pub bindings : List Binding

-- `Mods::any` and `==` on `Mods`.
unfoldable pub any_mod : Mods → Bool
any_mod m = m.ctrl || m.alt || m.shift || m.meta

abbrev pub bool_eq : Bool → Bool → Bool
bool_eq true b = b
bool_eq false b = not b

unfoldable pub mods_eq : Mods → Mods → Bool
mods_eq a b =
    bool_eq a.ctrl b.ctrl && bool_eq a.alt b.alt && bool_eq a.shift b.shift && bool_eq a.meta b.meta

-- `Mods::apply_key`.
unfoldable pub apply_key : Mods → ℕ → Bool → Mods
apply_key m key down =
    if key == ctrl_l || key == ctrl_r
    then record m { ctrl = down }
    else if key == shift_l || key == shift_r
    then record m { shift = down }
    else if key == alt_l || key == alt_r
    then record m { alt = down }
    else if key == meta_l || key == meta_r
    then record m { meta = down }
    else m

unfoldable pub bare_safe : ℕ → Bool
bare_safe key = key == scroll_lock || key == pause || (leb 0x68 key && leb key 0x73)

unfoldable pub is_bindable : Binding → Bool
is_bindable b =
    leb min_bindable_key b.key && not (is_modifier b.key) && (any_mod b.mods || bare_safe b.key)

unfoldable pub sanitized : BindSection → BindSection
sanitized cfg = record cfg { bindings = retain is_bindable cfg.bindings }

abbrev pub switch_word : List ℕ
switch_word = b's' ∷ b'w' ∷ b'i' ∷ b't' ∷ b'c' ∷ b'h' ∷ []

abbrev pub cycle_word : List ℕ
cycle_word = b'c' ∷ b'y' ∷ b'c' ∷ b'l' ∷ b'e' ∷ []

abbrev pub lock_word : List ℕ
lock_word = b'l' ∷ b'o' ∷ b'c' ∷ b'k' ∷ []

abbrev pub home_word : List ℕ
home_word = b'h' ∷ b'o' ∷ b'm' ∷ b'e' ∷ []

-- `BindSection::default`.
unfoldable pub default_section : BindSection
default_section = record {
  enabled = true;
  bindings =
      (record { mods = no_mods; key = scroll_lock; action = cycle_word; screen = [] })
      ∷ (record { mods = no_mods; key = pause; action = lock_word; screen = [] })
      ∷ [];
}
