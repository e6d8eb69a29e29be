-- ===== src/Session/Beacon.antt =====
-- crates/core/src/session/motion.rs: reports of where the real cursor is.
use kvmshare.Prelude.{Bool, List, Option, [], false, if◌then◌else◌, none, some, ℕ, ◌&&◌, ◌==◌, ◌∷◌}
use kvmshare.Layout.{find}
use kvmshare.Layout.Edges.{Direction}
use kvmshare.Layout.Ray.{last_pixel}
use kvmshare.Prelude.Int.{pos, ℤ}
use kvmshare.Prelude.Run.{done, ◌>>=◌}
use kvmshare.Protocol.Geometry.{Rect, Screen}
use kvmshare.Session.Boundary.{Walls, at_bit, dirs, is_clear, is_fresh_push, newly, wall_bits}
use kvmshare.Session.Crossing.{cross_from_remote, switch_out}
use kvmshare.Session.Motion.{Loop, rounds}
use kvmshare.Session.State.{Action, Mode, Session, Step}
use kvmshare.Prelude.I32

abbrev pub is_at : ℕ → Mode → Bool
is_at id Mode.local = false
is_at id (Mode.remote cur) = cur == id

module _ {F : Type 0} where
  abbrev pub anchored : Session F → ℤ → ℤ → Session F
  anchored s x y = record s { cursor = record { x = x; y = y; mode = s.cursor.mode } }

  abbrev pub if_any : Session F × List Action → Session F × Option (List Action)
  if_any (s, []) = (s, none)
  if_any (s, a ∷ more) = (s, some (a ∷ more))

  abbrev pub or_nothing : Session F × Option (List Action) → Step F
  or_nothing (s, none) = done (s, [])
  or_nothing (s, some acts) = done (s, acts)

  -- A park on a wall that the user was pushing against a moment ago.
  unfoldable pub local_park : ℕ → Walls → Direction → Session F → Loop F
  local_park now fresh_walls dir s =
      if at_bit dir fresh_walls && is_fresh_push now dir s.last_out
      then (do r ← switch_out s dir; done (if_any r))
      else done (s, none)

  unfoldable pub on_local_beacon : ℕ → Session F → ℤ → ℤ → Step F
  on_local_beacon now s x y =
      let bits = wall_bits s.local x y in
      let fresh_walls = newly bits s.at_wall in
      let s1 = record (anchored s (I32.add s.local.x x) (I32.add s.local.y y)) { at_wall = bits } in
      if is_clear bits
      then done (record s1 { pushing = none }, [])
      else (rounds (local_park now fresh_walls) dirs s1 >>= or_nothing)

  unfoldable pub remote_park : ℕ → ℕ → Walls → Direction → Session F → Loop F
  remote_park now id fresh_walls dir s =
      if at_bit dir fresh_walls && is_fresh_push now dir s.remote_last_out
      then (do r ← cross_from_remote s id dir; done (if_any r))
      else done (s, none)

  -- The beacon, clamped into its screen.
  unfoldable pub remote_anchor : ℕ → ℕ → Session F → Rect → ℤ → ℤ → Step F
  remote_anchor now id s r x y =
      let bits = wall_bits r x y in
      let fresh_walls = newly bits s.remote_at_wall in
      let s1 = record (anchored s (I32.add r.x x) (I32.add r.y y)) {
        remote_beacon_at = some now;
        remote_at_wall = bits;
      } in
      if is_clear bits
      then done (record s1 { remote_pushing = none }, [])
      else (rounds (remote_park now id fresh_walls) dirs s1 >>= or_nothing)

  abbrev pub remote_beacon_on : ℕ → ℕ → Session F → ℤ → ℤ → Option Screen → Step F
  remote_beacon_on now id s x y none = done (s, [])
  remote_beacon_on now id s x y (some sc) = do
    x' ← I32.clamp x (pos 0) (last_pixel sc.rect.w)
    y' ← I32.clamp y (pos 0) (last_pixel sc.rect.h)
    remote_anchor now id s sc.rect x' y'

  unfoldable pub on_remote_beacon : ℕ → Session F → ℕ → ℤ → ℤ → Step F
  on_remote_beacon now s id x y =
      if is_at id s.cursor.mode
      then remote_beacon_on now id s x y (find s.layout id)
      else done (s, [])
