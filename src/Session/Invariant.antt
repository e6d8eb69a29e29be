-- ===== src/Session/Invariant.antt =====
-- crates/core/src/session/motion.rs: events and reports in a well-formed session.
use kvmshare.Prelude.{
  Bool, Bool-cases, List, Option, [], bytes_eq, false, find_by, inl, inr, none, not, refl, some,
  subst, suc, true, zero, ℕ, ◌&&◌, ◌+◌, ◌==◌, ◌∷◌, ◌≡◌,
}
use kvmshare.Actions.{UserAction, no_mods}
use kvmshare.Actions.Engine.{key_down, key_up}
use kvmshare.Layout.{find}
use kvmshare.Prelude.Int.{ℤ}
use kvmshare.Prelude.Run.{Ensures, Ensures->>=, Ensures-if, Ensures-test}
use kvmshare.Protocol.Geometry.{KeyKind, Screen, center}
use kvmshare.Protocol.Message.{Message}
use kvmshare.Session.Beacon.{on_remote_beacon}
use kvmshare.Session.Crossing.{enter_screen, force_local, jump_into, jump_to, switch_action}
use kvmshare.Session.Events.{
  after_down, after_up, cycle, execute_user_action, forward_in, forward_while_remote, is_local,
  jump_if, jump_if_reachable, next_screen, on_local_event, on_local_key, or_next,
}
use kvmshare.Session.LocalHandlers.{handle_local_motion-After, on_local_beacon-After}
use kvmshare.Session.Loops.{After}
use kvmshare.Session.Motion.{motion_in, moved, on_local_motion, rounds, scale_remote}
use kvmshare.Session.Placed.{Core, IsPlaced, core}
use kvmshare.Session.RemoteHandlers.{handle_remote_motion-After, on_remote_beacon-After}
use kvmshare.Session.Sound.{
  IsSound, IsWellFormed, cross_from_remote-IsSound, enter_screen-IsSound, found-IsPlaced,
  start-IsSound, switch_action-follow, switch_out-IsSound,
}
use kvmshare.Session.State.{Action, Floats, Mode, Session, reachable}

and_right : (a b : Bool) → (a && b) ≡ true → b ≡ true
and_right true b h = h
and_right false b h = cc

-- What a handler of a session makes of it.
abbrev pub IsSoundFrom : {F : Type 0} → Session F → Session F × List Action → Type 0
IsSoundFrom s r = IsSound (core s) (core r.0) r.1

or_next-reachable :
    {F : Type 0} (s : Session F) (current id : ℕ) (o rest : Option ℕ)
    → (rest ≡ some id → reachable s id ≡ true)
    → or_next s current o rest ≡ some id
    → reachable s id ≡ true
or_next-reachable s current id none rest later e = later e
or_next-reachable s current id (some n) rest later e =
    elim (Bool-cases (not (n == current) && reachable s n)) [
      | inl hit ↦
          let e' : some n ≡ some id = rw hit at e in
          let same : n ≡ id = cc in subst (λ m. reachable s m ≡ true) same (and_right _ _ hit)
      | inr miss ↦ later (rw miss at e)
    ]

cycle-reachable :
    {F : Type 0} (s : Session F) (current : ℕ) (ids : List ℕ) (start k rounds id : ℕ)
    → cycle s current ids start k rounds ≡ some id
    → reachable s id ≡ true
unfolding cycle
cycle-reachable s current ids start k zero id e = cc
cycle-reachable s current ids start k (suc rounds) id e =
    or_next-reachable s current id _ (cycle s current ids start (k + 1) rounds)
      (cycle-reachable s current ids start (k + 1) rounds id) e

module _ {F : Type 0} where
  pub jump_to-IsSound :
      (before : Core) (s : Session F) (id : ℕ)
      → IsSound before (core s) []
      → reachable s id ≡ true
      → Ensures (After (IsSound before)) (jump_to s id)
  unfolding jump_to
  jump_to-IsSound before s id p r = jump (find s.layout id) refl
    where
      jump :
          (o : Option Screen)
          → find s.layout id ≡ o
          → Ensures (After (IsSound before)) (jump_into s id o)
      jump none e = p
      jump (some sc) e =
          let (x, y) = center sc.rect in
          Ensures->>= (λ t. IsSound before (core t) (switch_action id x y ∷ []))
            (After (IsSound before)) (enter_screen s id x y) _
            (enter_screen-IsSound before s id x y sc _ p r e
              (switch_action-follow before.mode id x y))
            (λ t h. h)

  pub force_local-IsSound :
      (before : Core) (s : Session F)
      → IsSound before (core s) []
      → Ensures (After (IsSound before)) (force_local s)
  unfolding force_local reachable
  force_local-IsSound before s p =
      let (x, y) = center s.local in
      Ensures->>= (λ t. IsSound before (core t) (Action.switch_to_local x y ∷ []))
        (After (IsSound before)) (enter_screen s 0 x y) _
        (enter_screen-IsSound before s 0 x y p.sound.home _ p refl p.sound.home_found refl)
        (λ t h. h)

  next_screen-reachable : (s : Session F) (id : ℕ) → next_screen s ≡ some id → reachable s id ≡ true
  unfolding next_screen
  next_screen-reachable s id e = cycle-reachable s _ _ _ _ _ id e

  execute_user_action-IsSound :
      (before : Core) (s : Session F) (a : UserAction)
      → IsSound before (core s) []
      → Ensures (After (IsSound before)) (execute_user_action s a)
  unfolding execute_user_action
  execute_user_action-IsSound before s (UserAction.switch_to_screen to) p =
      jump (find_by (λ sc. bytes_eq sc.name to) s.layout.screens)
    where
      jump : (o : Option Screen) → Ensures (After (IsSound before)) (jump_if_reachable s o)
      jump none = p
      jump (some sc) =
          Ensures-test (After (IsSound before)) (reachable s sc.id) _ _
            (jump_to-IsSound before s sc.id p) p
  execute_user_action-IsSound before s UserAction.switch_next p = jump (next_screen s) refl
    where
      jump : (o : Option ℕ) → next_screen s ≡ o → Ensures (After (IsSound before)) (jump_if s o)
      jump none e = p
      jump (some id) e = jump_to-IsSound before s id p (next_screen-reachable s id e)
  execute_user_action-IsSound before s UserAction.toggle_lock p = record {
    sound = record {
      home = p.sound.home;
      home_found = p.sound.home_found;
      screens_placed = p.sound.screens_placed;
      local_placed = p.sound.local_placed;
      here = p.sound.here;
    };
    same = p.same;
    told = p.told;
  }
  execute_user_action-IsSound before s UserAction.go_home p =
      Ensures-if (After (IsSound before)) (is_local s.cursor.mode) _ _ p
        (force_local-IsSound before s p)

  forward_while_remote-IsSound :
      (before : Core) (s : Session F) (m : Message)
      → IsSound before (core s) []
      → Ensures (After (IsSound before)) (forward_while_remote s m)
  unfolding forward_while_remote
  forward_while_remote-IsSound before s m p = forward s.cursor.mode
    where
      forward : (mode : Mode) → After (IsSound before) (forward_in s m mode)
      forward Mode.local = p
      forward (Mode.remote id) = record { sound = p.sound; same = p.same; told = p.told }

  after_down-IsSound :
      (before : Core) (s : Session F) (key : ℕ) (o : Option UserAction)
      → IsSound before (core s) []
      → Ensures (After (IsSound before)) (after_down s key o)
  after_down-IsSound before s key none p = forward_while_remote-IsSound before s _ p
  after_down-IsSound before s key (some a) p = execute_user_action-IsSound before s a p

  after_up-IsSound :
      (before : Core) (s : Session F) (key : ℕ) (o : Option ℕ)
      → IsSound before (core s) []
      → Ensures (After (IsSound before)) (after_up s key o)
  after_up-IsSound before s key none p = forward_while_remote-IsSound before s _ p
  after_up-IsSound before s key (some k) p = p

  on_local_key-IsSound :
      (before : Core) (now : ℕ) (s : Session F) (kind : KeyKind) (key : ℕ)
      → IsSound before (core s) []
      → Ensures (After (IsSound before)) (on_local_key now s kind key)
  unfolding on_local_key
  on_local_key-IsSound before now s KeyKind.down key p =
      let (e, a) = key_down now s.actions key no_mods (is_local s.cursor.mode) in
      after_down-IsSound before (record s { actions = e }) key a p
  on_local_key-IsSound before now s KeyKind.up key p =
      let (e, k) = key_up s.actions key in
      after_up-IsSound before (record s { actions = e }) key k p
  on_local_key-IsSound before now s KeyKind.repeat key p = forward_while_remote-IsSound before s _ p

send-IsSound :
    (before c : Core) (m : Message) → IsSound before c [] → IsSound before c (Action.send m ∷ [])
send-IsSound before c m p = record { sound = p.sound; same = p.same; told = p.told }

spot-IsPlaced :
    (before : Core) (id : ℕ) (c : Core) (sc : Screen)
    → IsSound before c []
    → find c.layout id ≡ some sc
    → IsPlaced sc.rect
spot-IsPlaced before id c sc p e = found-IsPlaced c.layout id sc p.sound.screens_placed e

-- Motion, on whichever screen the cursor is.
motion_in-IsSound :
    (fl : Floats) (before : Core) (now : ℕ) (s : Session fl.F) (dx dy : ℤ) (m : Mode)
    → IsSound before (core s) []
    → Ensures (After (IsSound before)) (motion_in fl now s dx dy m)
unfolding moved scale_remote
motion_in-IsSound fl before now s dx dy Mode.local p =
    handle_local_motion-After (IsSound before) (λ t d. switch_out-IsSound before t d)
      (λ c h. h.sound.local_placed) now (moved s dx dy) dx dy p
motion_in-IsSound fl before now s dx dy (Mode.remote id) p =
    handle_remote_motion-After (IsSound before) id (λ t d. cross_from_remote-IsSound before t id d)
      (send-IsSound before) (spot-IsPlaced before id) now _ _ _ p

-- A local event never panics in a well-formed session. It leaves the session well-formed, with the
-- same layout, local screen and clients, and its actions tell the caller the mode that it leaves.
pub on_local_event-IsSound :
    (fl : Floats) (now : ℕ) (s : Session fl.F) (m : Message)
    → IsWellFormed (core s)
    → Ensures (IsSoundFrom s) (on_local_event fl now s m)
unfolding on_local_event on_local_motion
on_local_event-IsSound fl now s m w = on_event m
  where
    p : IsSound (core s) (core s) []
    p = start-IsSound (core s) w

    on_event : (m : Message) → Ensures (IsSoundFrom s) (on_local_event fl now s m)
    on_event (Message.mouse_move_rel dx dy) =
        motion_in-IsSound fl (core s) now s dx dy s.cursor.mode p
    on_event (Message.mouse_move_abs x y) =
        Ensures-if (IsSoundFrom s) (is_local s.cursor.mode) _ _
          (on_local_beacon-After (IsSound (core s)) (λ t d. switch_out-IsSound (core s) t d)
            (λ c h. h.sound.local_placed) now s x y p)
          p
    on_event (Message.mouse_button button pressed) = forward_while_remote-IsSound (core s) s _ p
    on_event (Message.mouse_wheel dx dy) = forward_while_remote-IsSound (core s) s _ p
    on_event (Message.key kind key) = on_local_key-IsSound (core s) now s kind key p
    on_event Message.escape = force_local-IsSound (core s) s p
    on_event (Message.hello v i n d) = p
    on_event (Message.welcome v i l o) = p
    on_event (Message.screen_info d) = p
    on_event (Message.layout l) = p
    on_event (Message.control c) = p
    on_event (Message.enter i x y) = p
    on_event (Message.leave i) = p
    on_event (Message.cursor_pos x y) = p
    on_event (Message.clipboard a b) = p
    on_event Message.keepalive = p
    on_event (Message.error c t) = p

-- A position report from any client never panics in a well-formed session. It leaves the session
-- well-formed, with the same layout, local screen and clients, and its actions tell the caller the
-- mode that it leaves.
pub on_remote_beacon-IsSound :
    {F : Type 0} (now : ℕ) (s : Session F) (id : ℕ) (x y : ℤ)
    → IsWellFormed (core s)
    → Ensures (IsSoundFrom s) (on_remote_beacon now s id x y)
on_remote_beacon-IsSound now s id x y w =
    on_remote_beacon-After (IsSound (core s)) id (λ t d. cross_from_remote-IsSound (core s) t id d)
      (send-IsSound (core s)) (spot-IsPlaced (core s) id) now s x y (start-IsSound (core s) w)
