-- ===== src/Session/Events.antt =====
-- crates/core/src/session/motion.rs: local input events and the user's shortcut actions.
use kvmshare.Prelude.{
  Bool, List, Option, [], bytes_eq, false, find_by, get_elem?, if◌then◌else◌, length, map, none,
  not, some, suc, true, zero, ℕ, ◌%◌, ◌&&◌, ◌+◌, ◌==◌, ◌∷◌,
}
use kvmshare.Actions.{UserAction, no_mods}
use kvmshare.Actions.Engine.{key_down, key_up}
use kvmshare.Prelude.Run.{done}
use kvmshare.Protocol.Geometry.{KeyKind, Screen, left}
use kvmshare.Protocol.Message.{Message}
use kvmshare.Session.Beacon.{on_local_beacon}
use kvmshare.Session.Crossing.{force_local, jump_to}
use kvmshare.Session.Motion.{on_local_motion}
use kvmshare.Session.State.{Action, Floats, Mode, Session, Step, reachable, transform_wheel}
use mathlib.Core.Option
use mathlib.Core.Option

abbrev pub screen_id : Mode → ℕ
screen_id Mode.local = 0
screen_id (Mode.remote id) = id

abbrev pub is_local : Mode → Bool
is_local Mode.local = true
is_local (Mode.remote id) = false

-- `ids.iter().position`.
unfoldable pub position : ℕ → List ℕ → Option ℕ
position id [] = none
position id (k ∷ ks) = if k == id then some 0 else Option.map suc (position id ks)

abbrev pub after_position : Option ℕ → ℕ
after_position none = 0
after_position (some p) = p + 1

abbrev pub ids_of : List Screen → List ℕ
ids_of = map λ s. s.id

module _ {F : Type 0} where
  abbrev pub forward_in : Session F → Message → Mode → Session F × List Action
  forward_in s m Mode.local = (s, [])
  forward_in s m (Mode.remote id) = (s, Action.send m ∷ [])

  unfoldable pub forward_while_remote : Session F → Message → Step F
  forward_while_remote s m = done (forward_in s m s.cursor.mode)

  -- `(0..ids.len()).map(|k| ids[(start + k) % ids.len()]).find(...)`, with the rounds left; the
  -- index is in range, as the list is not empty in a round.
  abbrev pub or_next : Session F → ℕ → Option ℕ → Option ℕ → Option ℕ
  or_next s current none rest = rest
  or_next s current (some id) rest = if not (id == current) && reachable s id then some id else rest

  unfoldable pub cycle : Session F → ℕ → List ℕ → ℕ → ℕ → ℕ → Option ℕ
  cycle s current ids start k zero = none
  cycle s current ids start k (suc left) =
      or_next s current (get_elem? ids ((start + k) % length ids))
        (cycle s current ids start (k + 1) left)

  unfoldable pub next_screen : Session F → Option ℕ
  next_screen s =
      let ids = ids_of s.layout.screens in
      let current = screen_id s.cursor.mode in
      cycle s current ids (after_position (position current ids)) 0 (length ids)

  abbrev pub jump_if : Session F → Option ℕ → Step F
  jump_if s none = done (s, [])
  jump_if s (some id) = jump_to s id

  abbrev pub jump_if_reachable : Session F → Option Screen → Step F
  jump_if_reachable s none = done (s, [])
  jump_if_reachable s (some sc) = if reachable s sc.id then jump_to s sc.id else done (s, [])

  unfoldable pub execute_user_action : Session F → UserAction → Step F
  execute_user_action s (UserAction.switch_to_screen to) =
      jump_if_reachable s (find_by (λ sc. bytes_eq sc.name to) s.layout.screens)
  execute_user_action s UserAction.switch_next = jump_if s (next_screen s)
  execute_user_action s UserAction.toggle_lock =
      done (record s { walls_locked = not s.walls_locked }, [])
  execute_user_action s UserAction.go_home =
      if is_local s.cursor.mode then done (s, []) else force_local s

  abbrev pub after_down : Session F → ℕ → Option UserAction → Step F
  after_down s key (some a) = execute_user_action s a
  after_down s key none = forward_while_remote s (Message.key KeyKind.down key)

  abbrev pub after_up : Session F → ℕ → Option ℕ → Step F
  after_up s key (some k) = done (s, [])
  after_up s key none = forward_while_remote s (Message.key KeyKind.up key)

  unfoldable pub on_local_key : ℕ → Session F → KeyKind → ℕ → Step F
  on_local_key now s KeyKind.down key =
      let (e, a) = key_down now s.actions key no_mods (is_local s.cursor.mode) in
      after_down (record s { actions = e }) key a
  on_local_key now s KeyKind.up key =
      let (e, k) = key_up s.actions key in after_up (record s { actions = e }) key k
  on_local_key now s KeyKind.repeat key = forward_while_remote s (Message.key KeyKind.repeat key)

-- `on_local_event`; the messages of its last arm do nothing.
unfoldable pub on_local_event : (fl : Floats) → ℕ → Session fl.F → Message → Step fl.F
on_local_event fl now s (Message.mouse_move_rel dx dy) = on_local_motion fl now s dx dy
on_local_event fl now s (Message.mouse_move_abs x y) =
    if is_local s.cursor.mode then on_local_beacon now s x y else done (s, [])
on_local_event fl now s (Message.mouse_button button pressed) =
    forward_while_remote s (Message.mouse_button button pressed)
on_local_event fl now s (Message.mouse_wheel dx dy) =
    let (wx, wy) = transform_wheel fl s.prefs dx dy in
    forward_while_remote s (Message.mouse_wheel wx wy)
on_local_event fl now s (Message.key kind key) = on_local_key now s kind key
on_local_event fl now s Message.escape = force_local s
on_local_event fl now s _ = done (s, [])
