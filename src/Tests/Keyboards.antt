-- ===== src/Tests/Keyboards.antt =====
-- The letter a.
use kvmshare.Prelude.{false, none, some, ℕ, ◌↔◌, ◌≡◌, ◌⊎◌}
use kvmshare.Keys.{evdev_from_hid, hid_from_evdev, hid_from_scancode, scancode_from_hid}
use kvmshare.Keys.Names.{evdev_from_hid_lem}

evdev_from_hid_lem_example :
    ((evdev_from_hid 4 ≡ some 30) ↔ (hid_from_evdev 30 ≡ some 4))
    × ((hid_from_scancode 30 false ≡ none)
        ⊎ ((h : ℕ) × (hid_from_scancode 30 false ≡ some h)
            × (scancode_from_hid h ≡ some (30, false))))
evdev_from_hid_lem_example = evdev_from_hid_lem 4 30 30 false
