-- ===== src/Session/Adopted.antt =====
-- crates/core/src/session/mod.rs: what the layout becomes when another one is swapped in.
-- The dynamic screens that are kept follow the new layout's.
use kvmshare.Prelude.{In, List, map, ℕ, ◌++◌, ◌≡◌}
use kvmshare.Layout.{Layout}
use kvmshare.Layout.Shape.{shape}
use kvmshare.Protocol.Geometry.{Screen, center}
use kvmshare.Session.Sound.{follow}
use kvmshare.Session.State.{Action, Mode, Session}

-- A screen of the list has the name.
abbrev pub IsNamed : List ℕ → List Screen → Type 0
IsNamed name ss = (sc : Screen) × In sc ss × (sc.name ≡ name)

-- The dynamic screens that stay beside the screens of a layout: those whose name is on none of them,
-- and every dynamic screen's name stays.
abbrev pub Stay : List Screen → List Screen → List Screen → Type 0
Stay screens ds kept =
    ((d : Screen) → In d kept → In d ds × ¬ IsNamed d.name screens)
    × ((d : Screen) → In d ds → IsNamed d.name (screens ++ kept))

-- The screens of a layout that is adopted, then the dynamic ones that stay, up to
-- positions; the cursor in the middle of home, and the caller told.
abbrev pub IsAdopted : {F : Type 0} → Session F → Layout → Screen → Session F × List Action → Type 0
IsAdopted s l home r =
    (map shape r.0.layout.screens ≡ map shape (l.screens ++ r.0.dynamic))
    × Stay l.screens s.dynamic r.0.dynamic
    × (r.0.cursor.mode ≡ Mode.local)
    × (r.0.cursor.x ≡ (center home.rect).0)
    × (r.0.cursor.y ≡ (center home.rect).1)
    × (r.0.local ≡ home.rect)
    × (follow s.cursor.mode r.1 ≡ Mode.local)
