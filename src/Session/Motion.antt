-- ===== src/Session/Motion.antt =====
-- crates/core/src/session/motion.rs: relative motion of the mouse.
use kvmshare.Prelude.{Bool, List, Option, [], if◌then◌else◌, none, not, some, ℕ, ◌&&◌, ◌∷◌}
use kvmshare.Layout.{exit_direction, find}
use kvmshare.Layout.Edges.{Direction}
use kvmshare.Layout.Ray.{Entry, neighbor}
use kvmshare.Prelude.Int.{ℤ}
use kvmshare.Prelude.Run.{Run, done, ◌>>=◌}
use kvmshare.Protocol.Geometry.{Rect, Screen}
use kvmshare.Protocol.Message.{Message}
use kvmshare.Session.Boundary.{
  at_bit, clear_bit, dirs, is_fresh_beacon, is_sustained, keep_pushing, pulls_inward,
  pushes_outward,
}
use kvmshare.Session.Crossing.{clamp_to_rect, cross_from_remote, switch_out}
use kvmshare.Session.State.{Action, Floats, Mode, Session, Step}
use kvmshare.Prelude.I32

-- A loop over the directions ends early with `some` actions, or falls through with `none`.
abbrev pub Loop : Type 0 → Type 0
Loop F = Run (Session F × Option (List Action))

module _ {F : Type 0} where
  -- What `handle_local_motion` does after `switch_out` in its loop.
  abbrev pub local_fired : Direction → Session F × List Action → Session F × Option (List Action)
  local_fired dir (s, []) = (record s { at_wall = clear_bit dir s.at_wall }, none)
  local_fired dir (s, a ∷ more) = (s, some (a ∷ more))

  -- One round of that loop.
  unfoldable pub local_round : ℕ → ℤ → ℤ → Direction → Session F → Loop F
  local_round now dx dy dir s =
      if pushes_outward dir dx dy
      then (let s1 = record s { last_out = some (record { dir = dir; at = now }) } in
          if at_bit dir s.at_wall
          then (do r ← switch_out s1 dir; done (local_fired dir r))
          else done (s1, none))
      else if pulls_inward dir dx dy
      then done (record s { at_wall = clear_bit dir s.at_wall }, none)
      else done (s, none)

  -- The rounds, until one returns.
  abbrev pub proceed : (Session F → Loop F) → Session F × Option (List Action) → Loop F
  proceed next (s, none) = next s
  proceed next (s, some acts) = done (s, some acts)

  unfoldable pub rounds : (Direction → Session F → Loop F) → List Direction → Session F → Loop F
  rounds round [] s = done (s, none)
  rounds round (d ∷ ds) s = round d s >>= proceed (rounds round ds)

  unfoldable pub local_pushed : ℕ → Direction → Session F → Step F
  local_pushed now dir s =
      if is_sustained now dir s.pushing
      then switch_out (record s { pushing = none }) dir
      else done (record s { pushing = keep_pushing now dir s.pushing }, [])

  -- The stalled-stream fallback on the local screen.
  abbrev pub local_outside : ℕ → Session F → Option Direction → Step F
  local_outside now s none = done (record s { pushing = none }, [])
  local_outside now s (some dir) = clamp_to_rect s s.local >>= local_pushed now dir

  abbrev pub local_fallback : ℕ → Session F × Option (List Action) → Step F
  local_fallback now (s, some acts) = done (s, acts)
  local_fallback now (s, none) =
      local_outside now s (exit_direction s.layout 0 s.cursor.x s.cursor.y)

  unfoldable pub handle_local_motion : ℕ → Session F → ℤ → ℤ → Step F
  handle_local_motion now s dx dy = rounds (local_round now dx dy) dirs s >>= local_fallback now

  -- A wall that the client's real cursor sits on and the motion pushes through.
  abbrev pub remote_fired : ℕ → Direction → Session F → Option Entry → Loop F
  remote_fired id dir s none =
      done (record s { remote_at_wall = clear_bit dir s.remote_at_wall }, none)
  remote_fired id dir s (some e) = do r ← cross_from_remote s id dir; done (r.0, some r.1)

  unfoldable pub remote_round : ℕ → ℕ → ℤ → ℤ → Bool → Direction → Session F → Loop F
  remote_round now id dx dy fresh dir s =
      if pushes_outward dir dx dy
      then (let s1 = record s { remote_last_out = some (record { dir = dir; at = now }) } in
          if fresh && at_bit dir s.remote_at_wall
          then neighbor s.layout id dir s.cursor.x s.cursor.y >>= remote_fired id dir s1
          else done (s1, none))
      else if pulls_inward dir dx dy
      then done (record s { remote_at_wall = clear_bit dir s.remote_at_wall }, none)
      else done (s, none)

  abbrev pub or_else : List Action → Session F × List Action → Session F × List Action
  or_else motion (s, []) = (s, motion)
  or_else motion (s, a ∷ more) = (s, a ∷ more)

  unfoldable pub remote_pushed : ℕ → ℕ → List Action → Bool → Direction → Session F → Step F
  remote_pushed now id motion fresh dir s =
      if not fresh && is_sustained now dir s.remote_pushing
      then (do
        r ← cross_from_remote (record s { remote_pushing = none }) id dir
        done (or_else motion r))
      else done (record s { remote_pushing = keep_pushing now dir s.remote_pushing }, motion)

  abbrev pub remote_outside :
      ℕ → ℕ → List Action → Bool → Rect → Session F → Option Direction → Step F
  remote_outside now id motion fresh r s none = done (record s { remote_pushing = none }, motion)
  remote_outside now id motion fresh r s (some dir) =
      clamp_to_rect s r >>= remote_pushed now id motion fresh dir

  abbrev pub remote_fallback :
      ℕ → ℕ → List Action → Bool → Rect → Session F × Option (List Action) → Step F
  remote_fallback now id motion fresh r (s, some acts) = done (s, acts)
  remote_fallback now id motion fresh r (s, none) =
      remote_outside now id motion fresh r s (exit_direction s.layout id s.cursor.x s.cursor.y)

  abbrev pub remote_motion_on : ℕ → ℕ → ℤ → ℤ → Session F → Option Screen → Step F
  remote_motion_on now id dx dy s none = done (s, [])
  remote_motion_on now id dx dy s (some sc) =
      let fresh = is_fresh_beacon now s.remote_beacon_at in
      rounds (remote_round now id dx dy fresh) dirs s
      >>= remote_fallback now id (Action.send (Message.mouse_move_rel dx dy) ∷ []) fresh sc.rect

  unfoldable pub handle_remote_motion : ℕ → ℕ → Session F → ℤ → ℤ → Step F
  handle_remote_motion now id s dx dy = remote_motion_on now id dx dy s (find s.layout id)

  unfoldable pub moved : Session F → ℤ → ℤ → Session F
  moved s sx sy = record s {
    cursor = record { x = I32.add s.cursor.x sx; y = I32.add s.cursor.y sy; mode = s.cursor.mode };
  }

-- Motion sent to a client is scaled by the gain, with the fraction carried over.
unfoldable pub scale_remote : (fl : Floats) → Session fl.F → ℤ → ℤ → Session fl.F × ℤ × ℤ
scale_remote fl s dx dy =
    let g = fl.times s.gain s.prefs.pointer_speed in
    let rx = fl.plus (fl.times (fl.of_i32 dx) g) s.gain_rem.0 in
    let ry = fl.plus (fl.times (fl.of_i32 dy) g) s.gain_rem.1 in
    let sx = fl.trunc rx in
    let sy = fl.trunc ry in
    (record s { gain_rem = (fl.minus rx (fl.of_i32 sx), fl.minus ry (fl.of_i32 sy)) }, sx, sy)

abbrev pub motion_in : (fl : Floats) → ℕ → Session fl.F → ℤ → ℤ → Mode → Step fl.F
motion_in fl now s dx dy Mode.local = handle_local_motion now (moved s dx dy) dx dy
motion_in fl now s dx dy (Mode.remote id) =
    let (s', sx, sy) = scale_remote fl s dx dy in handle_remote_motion now id (moved s' sx sy) sx sy

unfoldable pub on_local_motion : (fl : Floats) → ℕ → Session fl.F → ℤ → ℤ → Step fl.F
on_local_motion fl now s dx dy = motion_in fl now s dx dy s.cursor.mode
