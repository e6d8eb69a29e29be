-- ===== src/Tests/Sessions.antt =====
-- A session with a client, over whole numbers in place of f64.
use kvmshare.Prelude.{List, [], arith, false, none, refl, some, true, ℕ, ◌∷◌, ◌≡◌}
use kvmshare.Actions.{any_mod, cycle_word, is_modifier, mods_eq, no_mods}
use kvmshare.Actions.Engine.{matches}
use kvmshare.Actions.Releases.{bound_under}
use kvmshare.Layout.{Layout, find}
use kvmshare.Layout.Edges.{Direction}
use kvmshare.Layout.Ray.{entry_point}
use kvmshare.Prelude.Int.{leb_ℤ, pos, ℤ, ◌+ℤ◌}
use kvmshare.Prelude.Run.{Ensures, done, ◌>>=◌}
use kvmshare.Protocol.Geometry.{KeyKind, Screen, ScreenInfo}
use kvmshare.Protocol.Message.{Message}
use kvmshare.Session.Admit.{Answers, admit_client-Answers}
use kvmshare.Session.Beacon.{on_remote_beacon}
use kvmshare.Session.Boundary.{no_walls}
use kvmshare.Session.Clients.{admit_client}
use kvmshare.Session.Crossing.{inset_entry}
use kvmshare.Session.Entry.{IsOffWall, entry-IsOffWall}
use kvmshare.Session.Events.{on_local_event, on_local_key}
use kvmshare.Session.Held.{IsHeld, on_remote_beacon-IsHeld}
use kvmshare.Session.History.{Input, new_session-IsTold, serve_all}
use kvmshare.Session.Invariant.{IsSoundFrom, on_local_event-IsSound, on_remote_beacon-IsSound}
use kvmshare.Session.Keys.{on_local_key_stuck}
use kvmshare.Session.Placed.{IsPlaced, core}
use kvmshare.Session.Sound.{IsWellFormed}
use kvmshare.Session.State.{Action, Floats, Mode, Session, new_session}
use kvmshare.Session.Told.{IsTold}
use kvmshare.Prelude.I32

abbrev pub whole : Floats
whole = record {
  F = ℤ;
  of_i32 = λ z. z;
  plus = I32.add;
  minus = I32.sub;
  times = λ a b. a;
  clamp_to = λ a lo hi. I32.max lo (I32.min a hi);
  trunc = λ z. z;
  round = λ z. z;
  zero_point = pos 0;
  quarter = pos 1;
  one_point = pos 1;
  three = pos 3;
  eight = pos 8;
  of_int = λ z. z;
  over = λ a b. a;
  at_most = leb_ℤ;
  half = pos 1;
  two_fifths = pos 1;
}

abbrev pub home : Screen
home = record {
  id = 0;
  name = b'h' ∷ [];
  rect = record { x = pos 0; y = pos 0; w = pos 1920; h = pos 1080 };
}

abbrev pub beside : Screen
beside = record {
  id = 1;
  name = b'b' ∷ [];
  rect = record { x = pos 1920; y = pos 0; w = pos 1280; h = pos 800 };
}

abbrev pub two : Layout
two = record { screens = home ∷ beside ∷ [] }

pub home-IsPlaced : IsPlaced home.rect
unfolding ◌+ℤ◌
home-IsPlaced = record {
  wide = omega arith;
  tall = omega arith;
  left_range = (omega arith, omega arith);
  right_range = (omega arith, omega arith);
  top_range = (omega arith, omega arith);
  bottom_range = (omega arith, omega arith);
}

pub beside-IsPlaced : IsPlaced beside.rect
unfolding ◌+ℤ◌
beside-IsPlaced = record {
  wide = omega arith;
  tall = omega arith;
  left_range = (omega arith, omega arith);
  right_range = (omega arith, omega arith);
  top_range = (omega arith, omega arith);
  bottom_range = (omega arith, omega arith);
}

pub home_first : find two 0 ≡ some home
unfolding find
home_first = refl

pub beside_second : find two 1 ≡ some beside
unfolding find
beside_second = refl

-- A client connects, the pointer pushes into the wall that a report names, and the client goes.
abbrev story : List (Input whole)
story =
    Input.client_connected 1
    ∷ Input.local_event 5 (Message.mouse_move_rel (pos 9) (pos 0))
    ∷ Input.local_event 6 (Message.mouse_move_abs (pos 1919) (pos 40))
    ∷ Input.client_disconnected 1
    ∷ []

new_session-IsTold_example :
    Ensures
      (λ r. IsTold Mode.local (core r.0) r.1)
      (new_session whole two 0 >>= λ s. serve_all whole s story)
new_session-IsTold_example =
    new_session-IsTold whole two home story home_first (home-IsPlaced, (beside-IsPlaced, tt))

-- The cursor on the client's screen, with the default bindings and one chord.
abbrev pub away : Session ℤ
away = record {
  layout = two;
  cursor = record { x = pos 2000; y = pos 40; mode = Mode.remote 1 };
  local = home.rect;
  at_wall = no_walls;
  last_out = none;
  pushing = none;
  remote_at_wall = no_walls;
  remote_beacon_at = none;
  remote_last_out = none;
  remote_pushing = none;
  gain = pos 1;
  gain_rem = (pos 0, pos 0);
  dynamic = [];
  connected = 1 ∷ [];
  actions = record {
    cfg = record {
      enabled = true;
      bindings =
          (record {
            mods = record no_mods { ctrl = true };
            key = 4;
            action = cycle_word;
            screen = [];
          })
          ∷ [];
    };
    mods = no_mods;
    pending = none;
    fired = none;
    owned = [];
    last_seen = none;
  };
  walls_locked = true;
  prefs = record { pointer_speed = pos 1; wheel_speed = pos 1; swap_scroll = false };
}

pub away-IsWellFormed : IsWellFormed (core away)
away-IsWellFormed = record {
  home = home;
  home_found = home_first;
  screens_placed = (home-IsPlaced, (beside-IsPlaced, tt));
  local_placed = home-IsPlaced;
  here = (refl, refl, (beside, beside_second));
}

on_local_event-IsSound_example :
    Ensures
      (IsSoundFrom away)
      (on_local_event whole 7 away (Message.mouse_move_rel (pos 9) (pos 0)))
on_local_event-IsSound_example =
    on_local_event-IsSound whole 7 away (Message.mouse_move_rel (pos 9) (pos 0)) away-IsWellFormed

on_remote_beacon-IsSound_example :
    Ensures (IsSoundFrom away) (on_remote_beacon 7 away 1 (pos 0) (pos 40))
on_remote_beacon-IsSound_example =
    on_remote_beacon-IsSound 7 away 1 (pos 0) (pos 40) away-IsWellFormed

on_remote_beacon-IsHeld_example :
    Ensures (λ r. IsHeld (core away) (core r.0) r.1) (on_remote_beacon 7 away 1 (pos 0) (pos 40))
on_remote_beacon-IsHeld_example =
    on_remote_beacon-IsHeld 7 away 1 (pos 0) (pos 40) refl
      (home-IsPlaced, (home-IsPlaced, (beside-IsPlaced, tt)))

plain_key : is_modifier 4 ≡ false
unfolding is_modifier
plain_key = refl

not_under : bound_under away.actions 4 no_mods ≡ none
unfolding matches mods_eq any_mod
not_under = refl

on_local_key_stuck_example :
    (t : Session ℤ) × (on_local_key 9 away KeyKind.down 4
      ≡ done (t, Action.send (Message.key KeyKind.down 4) ∷ []))
    × ((u : Session ℤ) × (on_local_key 9 t KeyKind.up 4 ≡ done (u, [])))
on_local_key_stuck_example = on_local_key_stuck away 1 9 4 refl refl plain_key not_under refl

entry-IsOffWall_example : Ensures (IsOffWall Direction.right beside.rect) (
    entry_point Direction.right beside.rect (pos 1919) (pos 40) >>= λ p.
    inset_entry away 1 Direction.right p.0 p.1)
entry-IsOffWall_example =
    entry-IsOffWall away 1 beside Direction.right (pos 1919) (pos 40) beside_second
      (omega arith, omega arith) (omega arith, omega arith)

-- At the right edge of the local screen, a moment after a push to the right.
abbrev resting : Session ℤ
resting = record away {
  cursor = record { x = pos 1900; y = pos 40; mode = Mode.local };
  last_out = some (record { dir = Direction.right; at = 5 });
  walls_locked = false;
}

-- At the left edge of the client's screen, 40 ms after a push to the left.
abbrev resting_away : Session ℤ
resting_away = record away {
  remote_last_out = some (record { dir = Direction.left; at = 5 });
  walls_locked = false;
}

abbrev pub guest : List ℕ
guest = b'g' ∷ []

abbrev pub guest_info : ScreenInfo
guest_info = record { width = 800; height = 600; scale = 1065353216 }

admit_client-Answers_example : Answers away guest guest_info (admit_client away guest guest_info)
admit_client-Answers_example = admit_client-Answers away guest guest_info
