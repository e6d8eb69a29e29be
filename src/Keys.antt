-- ===== src/Keys.antt =====
-- crates/platform/src/keys.rs: what the platforms call a key, and what it is called on the wire.
use kvmshare.Prelude.{
  Bool, List, Option, [], false, if◌then◌else◌, none, not, some, true, ℕ, ◌&&◌, ◌==◌, ◌∷◌,
}
use kvmshare.Keys.Evdev.{hid_to_evdev}
use kvmshare.Keys.Scan.{hid_to_scan}
use kvmshare.Keys.Usages.{evdev_to_hid}
use kvmshare.Layout.Ray.{scan}
pub mod Evdev
pub mod Usages
pub mod Scan
pub mod Names

-- `lookup` in a table.
abbrev pub named : ℕ → List (ℕ × ℕ) → Option ℕ
named n [] = none
named n (p ∷ ps) = if p.0 == n then some p.1 else named n ps

unfoldable pub evdev_from_hid : ℕ → Option ℕ
evdev_from_hid hid = named hid hid_to_evdev

unfoldable pub hid_from_evdev : ℕ → Option ℕ
hid_from_evdev evdev = named evdev evdev_to_hid

abbrev pub scan_of : ℕ → List (ℕ × ℕ × Bool) → Option (ℕ × Bool)
scan_of hid [] = none
scan_of hid ((h, scan, extended) ∷ ps) = if h == hid then some (scan, extended) else scan_of hid ps

unfoldable pub scancode_from_hid : ℕ → Option (ℕ × Bool)
scancode_from_hid hid = scan_of hid hid_to_scan

abbrev pub same_flag : Bool → Bool → Bool
same_flag true b = b
same_flag false b = not b

abbrev pub hid_of : ℕ → Bool → List (ℕ × ℕ × Bool) → Option ℕ
hid_of scan extended [] = none
hid_of scan extended ((h, s, e) ∷ ps) =
    if (s == scan) && same_flag e extended then some h else hid_of scan extended ps

unfoldable pub hid_from_scancode : ℕ → Bool → Option ℕ
hid_from_scancode scan extended = hid_of scan extended hid_to_scan

-- `ESCAPE_KEY_HID`.
abbrev pub escape_key_hid : ℕ
escape_key_hid = 71
