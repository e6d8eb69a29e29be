-- ===== src/Session/State.antt =====
-- crates/core/src/session/mod.rs: the state of a session; crates/core/src/input.rs: preferences.
use kvmshare.Prelude.{
  Bool, List, Option, [], any, false, if◌then◌else◌, map, none, not, true, ℕ, ◌+◌, ◌==◌, ◌||◌,
}
use kvmshare.Actions.{BindSection, default_section}
use kvmshare.Actions.Engine.{ActionEngine, new_engine, set_config}
use kvmshare.Layout.{Layout, find}
use kvmshare.Prelude.Int.{ℤ}
use kvmshare.Prelude.Run.{Run, done, expect, ◌>>=◌}
use kvmshare.Protocol.Geometry.{Rect, Screen, center}
use kvmshare.Protocol.Message.{Message}
use kvmshare.Session.Boundary.{Push, Pushing, Walls, no_walls}
use kvmshare.Prelude.I32

-- f64 and the operations on it that the code uses; `trunc` and `round` end in `as i32`, `of_int` is
-- `as f64` on an i64 or u32, `over` is `/`, `at_most` is `<=`.
pub record Floats : Type 1 where
  pub F : Type 0
  pub of_i32 : ℤ → F
  pub plus : F → F → F
  pub minus : F → F → F
  pub times : F → F → F
  pub clamp_to : F → F → F → F
  pub trunc : F → ℤ
  pub round : F → ℤ
  pub zero_point : F
  pub quarter : F
  pub one_point : F
  pub three : F
  pub eight : F
  pub of_int : ℤ → F
  pub over : F → F → F
  pub at_most : F → F → Bool
  pub half : F
  pub two_fifths : F

-- `InputPrefs`.
pub record InputPrefs (F : Type 0) : Type 0 where
  pub pointer_speed : F
  pub wheel_speed : F
  pub swap_scroll : Bool

pub data Mode : Type 0 where
  local : Mode
  remote : ℕ → Mode

pub data Action : Type 0 where
  send : Message → Action
  switch_to : ℕ → ℤ → ℤ → Action
  switch_to_local : ℤ → ℤ → Action
  nothing : Action

pub record Cursor : Type 0 where
  pub x : ℤ
  pub y : ℤ
  pub mode : Mode

-- `connected` is a set of ids.
pub record Session (F : Type 0) : Type 0 where
  pub layout : Layout
  pub cursor : Cursor
  pub local : Rect
  pub at_wall : Walls
  pub last_out : Option Push
  pub pushing : Option Pushing
  pub remote_at_wall : Walls
  pub remote_beacon_at : Option ℕ
  pub remote_last_out : Option Push
  pub remote_pushing : Option Pushing
  pub gain : F
  pub gain_rem : F × F
  pub dynamic : List Screen
  pub connected : List ℕ
  pub actions : ActionEngine
  pub walls_locked : Bool
  pub prefs : InputPrefs F

-- What a handler returns: the new session, and the actions for the caller.
abbrev pub Step : Type 0 → Type 0
Step F = Run (Session F × List Action)

unfoldable pub default_prefs : (fl : Floats) → InputPrefs fl.F
default_prefs fl = record {
  pointer_speed = fl.one_point;
  wheel_speed = fl.one_point;
  swap_scroll = false;
}

-- `InputPrefs::clamp`.
unfoldable pub clamp_prefs : (fl : Floats) → InputPrefs fl.F → InputPrefs fl.F
clamp_prefs fl p = record p {
  pointer_speed = fl.clamp_to p.pointer_speed fl.quarter fl.three;
  wheel_speed = fl.clamp_to p.wheel_speed fl.quarter fl.eight;
}

-- `InputPrefs::transform_wheel`.
unfoldable pub transform_wheel : (fl : Floats) → InputPrefs fl.F → ℤ → ℤ → ℤ × ℤ
transform_wheel fl p dx dy =
    let dy' = if p.swap_scroll then I32.neg dy else dy in
    (
      fl.round (fl.times (fl.of_i32 dx) p.wheel_speed),
      fl.round (fl.times (fl.of_i32 dy') p.wheel_speed),
    )

-- `Session::new`: it panics if the local screen is not in the layout.
unfoldable pub new_session : (fl : Floats) → Layout → ℕ → Run (Session fl.F)
new_session fl l local_id = do
  s ← expect (find l local_id)
  done (record {
    layout = l;
    cursor = record { x = (center s.rect).0; y = (center s.rect).1; mode = Mode.local };
    local = s.rect;
    at_wall = no_walls;
    last_out = none;
    pushing = none;
    remote_at_wall = no_walls;
    remote_beacon_at = none;
    remote_last_out = none;
    remote_pushing = none;
    gain = fl.one_point;
    gain_rem = (fl.zero_point, fl.zero_point);
    dynamic = [];
    connected = [];
    actions = new_engine default_section;
    walls_locked = false;
    prefs = default_prefs fl;
  })

unfoldable pub set_gain : (fl : Floats) → Session fl.F → fl.F → Session fl.F
set_gain fl s g = record s { gain = fl.clamp_to g fl.quarter fl.three }

unfoldable pub set_prefs : (fl : Floats) → Session fl.F → InputPrefs fl.F → Session fl.F
set_prefs fl s p = record s { prefs = clamp_prefs fl p }

unfoldable pub set_bindings : {F : Type 0} → Session F → BindSection → Session F
set_bindings s cfg = record s { actions = set_config s.actions cfg }

-- The packed modifier mask of `bound_chords`.
abbrev pub bit_of : Bool → ℕ → ℕ
bit_of true n = n
bit_of false n = 0

unfoldable pub bound_chords : {F : Type 0} → Session F → List (ℕ × ℕ)
bound_chords s =
    if not s.actions.cfg.enabled
    then []
    else map
        (λ b. (
          bit_of b.mods.ctrl 1 + bit_of b.mods.alt 2 + bit_of b.mods.shift 4 + bit_of b.mods.meta 8,
          b.key,
        ))
        s.actions.cfg.bindings

unfoldable pub is_connected : {F : Type 0} → Session F → ℕ → Bool
is_connected s id = any (λ c. c == id) s.connected

-- The local screen always; a remote screen only while its client is connected.
unfoldable pub reachable : {F : Type 0} → Session F → ℕ → Bool
reachable s id = id == 0 || is_connected s id

unfoldable pub clear_boundary_state : {F : Type 0} → Session F → Session F
clear_boundary_state s = record s {
  at_wall = no_walls;
  last_out = none;
  pushing = none;
  remote_at_wall = no_walls;
  remote_beacon_at = none;
  remote_last_out = none;
  remote_pushing = none;
}

abbrev pub mode_of : ℕ → Mode
mode_of id = if id == 0 then Mode.local else Mode.remote id
