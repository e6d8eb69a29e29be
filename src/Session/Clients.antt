-- ===== src/Session/Clients.antt =====
-- crates/core/src/session/mod.rs: clients that come and go, and new layouts.
use kvmshare.Prelude.{
  Bool, List, Option, [], any, bytes_eq, false, find_by, if◌then◌else◌, none, not, retain, some,
  suc, true, zero, ℕ, ◌&&◌, ◌++◌, ◌+◌, ◌==◌, ◌∷◌,
}
use kvmshare.Layout.{Layout, find}
use kvmshare.Layout.Normalize.{normalized}
use kvmshare.Prelude.I32.{of_bits}
use kvmshare.Prelude.Int.{pos, ℤ}
use kvmshare.Prelude.Run.{done, ◌>>=◌}
use kvmshare.Protocol.Geometry.{Rect, Screen, ScreenInfo, center, left}
use kvmshare.Session.Beacon.{is_at}
use kvmshare.Session.Crossing.{force_local}
use kvmshare.Session.Events.{is_local}
use kvmshare.Session.State.{Action, Mode, Session, Step, clear_boundary_state, is_connected}
use kvmshare.Prelude.I32

-- `assign_screen_id`.
abbrev pub id_of : Option Screen → Option ℕ
id_of none = none
id_of (some s) = some s.id

-- `(1u8..=u8::MAX).find(|c| !used.contains(c))`, with the rounds left.
unfoldable pub free_id : List Screen → ℕ → ℕ → Option ℕ
free_id used c zero = none
free_id used c (suc left) =
    let rest = free_id used (c + 1) left in if any (λ s. s.id == c) used then rest else some c

-- `screens.iter().map(|s| s.rect.x + s.rect.w).max().unwrap_or(0)`.
unfoldable pub rightmost : List Screen → Option ℤ
rightmost [] = none
rightmost (s ∷ ss) = elim (rightmost ss) [
  | none ↦ some (I32.add s.rect.x s.rect.w)
  | some m ↦ some (I32.max (I32.add s.rect.x s.rect.w) m)
]

abbrev pub or_zero : Option ℤ → ℤ
or_zero none = pos 0
or_zero (some z) = z

-- `info.width.max(1) as i32`.
abbrev pub side : ℕ → ℤ
side n = I32.of_bits (if n == 0 then 1 else n)

abbrev pub with_screens : List Screen → Layout
with_screens ss = record { screens = ss }

-- The first screen with the id gets the new size.
abbrev pub resized : ScreenInfo → Screen → Screen
resized info s = record s { rect = record (s.rect) { w = side info.width; h = side info.height } }

unfoldable pub resize : ℕ → ScreenInfo → List Screen → List Screen
resize id info [] = []
resize id info (s ∷ ss) = if s.id == id then resized info s ∷ ss else s ∷ resize id info ss

-- The loop over the dynamic screens in `swap_layout`: those whose name the layout has not ride
-- along. It returns the layout's screens and the dynamic ones kept.
unfoldable pub keep_dynamic : List Screen → List Screen → List Screen × List Screen
keep_dynamic screens [] = (screens, [])
keep_dynamic screens (d ∷ ds) =
    let pinned = any (λ s. bytes_eq s.name d.name) screens in
    let (out, kept) = keep_dynamic (if pinned then screens else screens ++ d ∷ []) ds in
    (out, if pinned then kept else d ∷ kept)

module _ {F : Type 0} where
  unfoldable pub assign_screen_id : Session F → List ℕ → Option ℕ
  assign_screen_id s name =
      id_of (find_by (λ sc. not (sc.id == 0) && bytes_eq sc.name name) s.layout.screens)

  unfoldable pub new_screen : Session F → List ℕ → ScreenInfo → ℕ → Screen
  new_screen s name info id = record {
    id = id;
    name = name;
    rect = record {
      x = or_zero (rightmost s.layout.screens);
      y = s.local.y;
      w = I32.max (side info.width) (pos 1);
      h = I32.max (side info.height) (pos 1);
    };
  }

  abbrev pub add_screen : Session F → Screen → Session F
  add_screen s sc = record s {
    dynamic = s.dynamic ++ sc ∷ [];
    layout = normalized (with_screens (s.layout.screens ++ sc ∷ []));
  }

  abbrev pub admit_at : Session F → List ℕ → ScreenInfo → Option ℕ → Session F × Option (ℕ × Bool)
  admit_at s name info none = (s, none)
  admit_at s name info (some id) = (add_screen s (new_screen s name info id), some (id, true))

  abbrev pub admit_new : Session F → List ℕ → ScreenInfo → Option ℕ → Session F × Option (ℕ × Bool)
  admit_new s name info (some id) = (s, some (id, false))
  admit_new s name info none =
      if any (λ sc. (sc.id == 0) && bytes_eq sc.name name) s.layout.screens
      then (s, none)
      else admit_at s name info (free_id s.layout.screens 1 255)

  unfoldable pub admit_client : Session F → List ℕ → ScreenInfo → Session F × Option (ℕ × Bool)
  admit_client s name info = admit_new s name info (assign_screen_id s name)

  unfoldable pub update_screen_info : Session F → ℕ → ScreenInfo → Session F
  update_screen_info s id info = record s {
    layout = with_screens (resize id info s.layout.screens);
  }

  unfoldable pub adopt : Session F → List Screen → Rect → Session F
  adopt s screens home =
      let (out, kept) = keep_dynamic screens s.dynamic in
      clear_boundary_state (record s {
        dynamic = kept;
        layout = normalized (with_screens out);
        local = home;
        cursor = record { x = (center home).0; y = (center home).1; mode = Mode.local };
      })

  abbrev pub swap_with : Session F → Layout → Option Screen → Session F × List Action
  swap_with s l none = (s, [])
  swap_with s l (some sc) = (
    adopt s l.screens sc.rect,
    if is_local s.cursor.mode
        then []
        else Action.switch_to_local (center sc.rect).0 (center sc.rect).1 ∷ [],
  )

  unfoldable pub swap_layout : Session F → Layout → Session F × List Action
  swap_layout s l = swap_with s l (find l 0)

  -- A set: a second insertion changes nothing.
  unfoldable pub on_client_connected : Session F → ℕ → Session F
  on_client_connected s id =
      if is_connected s id then s else record s { connected = id ∷ s.connected }

  abbrev pub drop_connected : Session F → ℕ → Session F
  drop_connected s id = record s { connected = retain (λ c. not (c == id)) s.connected }

  -- `Action::Nothing` is the empty list.
  unfoldable pub on_client_disconnected : Session F → ℕ → Step F
  on_client_disconnected s id =
      let s' = drop_connected s id in
      if is_at id s.cursor.mode then force_local s' else done (s', [])

  abbrev pub drop_screen : ℕ → Session F → Session F
  drop_screen id s =
      if any (λ sc. sc.id == id) s.layout.screens
      then clear_boundary_state (record s {
        layout = normalized (with_screens (retain (λ sc. not (sc.id == id)) s.layout.screens));
        dynamic = retain (λ sc. not (sc.id == id)) s.dynamic;
      })
      else s

  unfoldable pub on_client_removed : Session F → ℕ → Step F
  on_client_removed s id = do r ← on_client_disconnected s id; done (drop_screen id r.0, r.1)
