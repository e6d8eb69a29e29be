-- ===== src/Client/Threads.antt =====
-- crates/core/src/client/threads.rs: the rounds of the motion thread and of the cursor stream.
use kvmshare.Prelude.{
  Bool, List, Option, [], false, if◌then◌else◌, leb, none, not, some, true, ℕ, ◌&&◌, ◌==◌, ◌||◌,
  ◌∷◌,
}
use kvmshare.Actions.Safety.{step}
use kvmshare.Client.Dispatch.{apply_motion_frame, send_beacon}
use kvmshare.Client.Shared.{InjectorCall, Station, call, drain_events, next_u32, probe_window}
use kvmshare.Pointer.Follower.{Follower, command, correct}
use kvmshare.Prelude.Clock.{elapsed, millis}
use kvmshare.Prelude.Int.{eqb_ℤ, ℤ}
use kvmshare.Protocol.Geometry.{ScreenInfo}
use kvmshare.Protocol.Message.{Message}
use kvmshare.Session.State.{Floats}
use kvmshare.Udp.{Datagram, is_newer, unpack}

-- `CURSOR_BEACON_INTERVAL`.
abbrev pub cursor_beacon_interval : ℕ
cursor_beacon_interval = millis 8

module _ (fl : Floats) where
  -- The placement of a tick: at the command, or a step toward it.
  abbrev pub step_toward : Station fl.F → Follower fl.F × Option (ℤ × ℤ) → Station fl.F
  step_toward w (f, none) = record w { motion = record (w.motion) { follower = f } }
  step_toward w (f, some step) =
      call (record w { motion = record (w.motion) { follower = f } })
        (InjectorCall.move_rel step.0 step.1 ∷ [])

  unfoldable pub place : Bool → Station fl.F → ℤ × ℤ → Station fl.F
  place true w real =
      let at = command fl w.motion.follower in
      if eqb_ℤ at.0 real.0 && eqb_ℤ at.1 real.1
      then w
      else call w (InjectorCall.move_cursor at.0 at.1 ∷ [])
  place false w real = step_toward w (correct fl w.motion.follower real)

  abbrev pub recover : Station fl.F → Bool → Station fl.F
  recover w true = record (call w (InjectorCall.emergency_release ∷ [])) { stop = true }
  recover w false = w

  -- A tick of `motion_loop` under control, `last_beacon` the time of the last report: the new state
  -- and that time.
  unfoldable pub motion_tick :
      ℕ → Bool → ℤ × ℤ → ScreenInfo → ℕ → Station fl.F → ℕ → Station fl.F × ℕ
  motion_tick now absolute real screen own_id w last_beacon =
      let w1 = record w {
        motion = record (w.motion) { ticks_win = next_u32 w.motion.ticks_win };
      } in
      let w2 = drain_events (place absolute w1 real) in
      let (m, seen, pinned) = probe_window now w2.motion real.0 real.1 screen in
      let w3 = recover (record w2 { motion = m }) pinned in
      if leb cursor_beacon_interval (elapsed now last_beacon)
      then (send_beacon fl w3 own_id real, now)
      else (w3, last_beacon)

  abbrev pub steer_by : Bool → Station fl.F → Message → Station fl.F
  steer_by absolute w (Message.mouse_move_rel dx dy) =
      if w.active then apply_motion_frame fl absolute w dx dy else w
  steer_by absolute w _ = w

  abbrev pub on_datagram : Bool → ℕ → Station fl.F → Option Datagram → Station fl.F
  on_datagram absolute own_id w none = w
  on_datagram absolute own_id w (some d) =
      if not (d.id == own_id) || not (is_newer d.seq w.motion_seq)
      then w
      else steer_by absolute (record w { motion_seq = d.seq }) d.msg

  -- A datagram in `udp_loop`.
  unfoldable pub udp_round : Bool → ℕ → Station fl.F → List ℕ → Station fl.F
  udp_round absolute own_id w bytes = on_datagram absolute own_id w (unpack bytes)

  -- `place_at_command`.
  unfoldable pub place_at_command : Bool → Station fl.F → Station fl.F
  place_at_command true w =
      let at = command fl w.motion.follower in call w (InjectorCall.move_cursor at.0 at.1 ∷ [])
  place_at_command false w = w
