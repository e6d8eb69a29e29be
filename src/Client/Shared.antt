-- ===== src/Client/Shared.antt =====
-- crates/core/src/client/shared.rs, injector.rs: the state that a client's threads share.
use kvmshare.Prelude.{
  Bool, List, Option, [], false, if◌then◌else◌, leb, length, ltb, map, none, not, ℕ, ◌%◌, ◌&&◌,
  ◌++◌, ◌+◌, ◌^◌, ◌||◌, ◌∷◌,
}
use kvmshare.Pointer.Follower.{Follower}
use kvmshare.Pointer.Probe.{Probe, Sample, is_due, sample}
use kvmshare.Prelude.Int.{leb_ℤ, ltb_ℤ, pos, ℤ, ◌-ℤ◌}
use kvmshare.Protocol.Geometry.{KeyKind, ScreenInfo, WireLayout}
use kvmshare.Prelude.I32

pub data InjectEvent : Type 0 where
  button : ℕ → Bool → InjectEvent
  wheel : ℤ → ℤ → InjectEvent
  key : KeyKind → ℕ → InjectEvent

-- The calls of the platform's `Injector` that change the machine.
pub data InjectorCall : Type 0 where
  move_cursor : ℤ → ℤ → InjectorCall
  move_rel : ℤ → ℤ → InjectorCall
  inject : InjectEvent → InjectorCall
  enter : InjectorCall
  leave : InjectorCall
  emergency_release : InjectorCall

-- `EVENT_QUEUE_CAP`.
abbrev pub event_queue_cap : ℕ
event_queue_cap = 512

-- `PIN_WINDOWS_TO_TRIP`, `PIN_MIN_COMMANDED_PX`, `PIN_MAX_TRAVEL_PX`.
abbrev pub pin_windows_to_trip : ℕ
pin_windows_to_trip = 6

abbrev pub pin_min_commanded : ℕ
pin_min_commanded = 60

abbrev pub pin_max_travel : ℕ
pin_max_travel = 6

pub record MotionState (F : Type 0) : Type 0 where
  pub follower : Follower F
  pub probe : Probe
  pub frames_win : ℕ
  pub ticks_win : ℕ
  pub win_cmd_px : ℤ
  pub win_real_start : ℤ × ℤ
  pub pin_windows : ℕ

-- `Shared`, with the layout of the control loop. `calls` are the injector's calls so far, `clipboard`
-- and `controls` those of the clipboard and the observer, `sent` the datagrams sent.
pub record Station (F : Type 0) : Type 0 where
  pub motion : MotionState F
  pub active : Bool
  pub stop : Bool
  pub events : List InjectEvent
  pub udp_seq : ℕ
  pub motion_seq : ℕ
  pub layout : WireLayout
  pub calls : List InjectorCall
  pub clipboard : List (List ℕ × List ℕ)
  pub controls : List Bool
  pub sent : List (List ℕ)

-- Counters are u32.
abbrev pub next_u32 : ℕ → ℕ
next_u32 n = (n + 1) % 2 ^ 32

-- The cursor may be held at an edge of the screen.
abbrev pub at_edge : ScreenInfo → ℤ → ℤ → Bool
at_edge screen rx ry =
    leb_ℤ rx (pos 1)
    || leb_ℤ ry (pos 1)
    || leb_ℤ (pos screen.width -ℤ pos 2) rx
    || leb_ℤ (pos screen.height -ℤ pos 2) ry

module _ {F : Type 0} where
  abbrev pub call : Station F → List InjectorCall → Station F
  call w cs = record w { calls = w.calls ++ cs }

  unfoldable pub enqueue_event : Station F → InjectEvent → Station F
  enqueue_event w e =
      if ltb (length w.events) event_queue_cap then record w { events = w.events ++ e ∷ [] } else w

  unfoldable pub drain_events : Station F → Station F
  drain_events w = record w {
    events = [];
    calls = w.calls ++ map (λ e. InjectorCall.inject e) w.events;
  }

  -- The pin detector's part of a due window.
  abbrev pub close_pin_window : MotionState F → ℤ → ℤ → MotionState F
  close_pin_window m rx ry =
      let travel =
        I32.add (I32.abs (I32.sub rx m.win_real_start.0))
          (I32.abs (I32.sub ry m.win_real_start.1)) in
      let is_pinned =
        ltb_ℤ (pos pin_min_commanded) m.win_cmd_px && ltb_ℤ travel (pos pin_max_travel) in
      record m {
        frames_win = 0;
        ticks_win = 0;
        pin_windows = if is_pinned then next_u32 m.pin_windows else 0;
        win_cmd_px = pos 0;
        win_real_start = (rx, ry);
      }

  -- `probe_window`: the new state, the sample to trace, and whether the cursor is pinned.
  unfoldable pub probe_window :
      ℕ → MotionState F → ℤ → ℤ → ScreenInfo → MotionState F × Option Sample × Bool
  probe_window now m rx ry screen =
      let m1 = close_pin_window m rx ry in
      let (p, seen) = sample now m1.probe (rx, ry) in
      if is_due now m.probe
      then (
        record m1 { probe = p },
        seen,
        leb pin_windows_to_trip m1.pin_windows && not (at_edge screen rx ry),
      )
      else (m, none, false)
