-- ===== src/Client/Dispatch.antt =====
-- crates/core/src/client/dispatch.rs: a server message on the local machine.
use kvmshare.Prelude.{Bool, Option, [], false, none, some, true, ℕ, ◌++◌, ◌∷◌}
use kvmshare.Actions.Safety.{step}
use kvmshare.Client.Shared.{
  InjectEvent, InjectorCall, MotionState, Station, call, enqueue_event, next_u32,
}
use kvmshare.Pointer.Follower.{advance, feed_forward, follow_from, reanchor, stop_following}
use kvmshare.Pointer.Probe.{close_probe, open_probe, requested}
use kvmshare.Prelude.Int.{pos, ℤ, ◌+ℤ◌}
use kvmshare.Protocol.Message.{Message}
use kvmshare.Session.Events.{screen_id}
use kvmshare.Session.State.{Floats}
use kvmshare.Udp.{pack}
use kvmshare.Prelude.I32

module _ (fl : Floats) where
  -- `apply_motion_frame`, in threads.rs; `absolute` is the backend's `absolute_motion`.
  abbrev pub or_still : Option (ℤ × ℤ) → ℤ × ℤ
  or_still none = (pos 0, pos 0)
  or_still (some step) = step

  abbrev pub count_frame : MotionState fl.F → ℤ → ℤ → MotionState fl.F
  count_frame m dx dy = record m {
    frames_win = next_u32 m.frames_win;
    win_cmd_px = m.win_cmd_px +ℤ (I32.abs dx +ℤ I32.abs dy);
  }

  abbrev pub steer : Station fl.F → ℤ → ℤ → Bool → Station fl.F
  steer w dx dy true = record w {
    motion = record (w.motion) { follower = advance fl w.motion.follower dx dy };
  }
  steer w dx dy false =
      let (f, step) = feed_forward fl w.motion.follower dx dy in
      call (record w { motion = record (w.motion) { follower = f } })
        (InjectorCall.move_rel (or_still step).0 (or_still step).1 ∷ [])

  unfoldable pub apply_motion_frame : Bool → Station fl.F → ℤ → ℤ → Station fl.F
  apply_motion_frame absolute w dx dy =
      let w1 = steer (record w { motion = count_frame w.motion dx dy }) dx dy absolute in
      record w1 { motion = record (w1.motion) { probe = requested w1.motion.probe dx dy } }

  -- `send_beacon`: a datagram with the next number.
  unfoldable pub send_beacon : Station fl.F → ℕ → ℤ × ℤ → Station fl.F
  send_beacon w own_id at = record w {
    udp_seq = next_u32 w.udp_seq;
    sent = w.sent ++ pack own_id w.udp_seq (Message.cursor_pos at.0 at.1) ∷ [];
  }

  -- Control enters; `real` and `then_real` are what the injector's `cursor_position` returns.
  unfoldable pub take_control : ℕ → Station fl.F → ℕ → ℤ → ℤ → ℤ × ℤ → ℤ × ℤ → Station fl.F
  take_control now w own_id x y real then_real =
      let f = reanchor fl (follow_from fl w.motion.follower x y) real.0 real.1 in
      let w1 = call w (InjectorCall.enter ∷ InjectorCall.move_cursor x y ∷ []) in
      let w2 = record w1 {
        motion = record (w1.motion) { follower = f; probe = open_probe now w1.motion.probe real };
        active = true;
        controls = w1.controls ++ true ∷ [];
      } in
      send_beacon w2 own_id then_real

  unfoldable pub give_control : Station fl.F → Station fl.F
  give_control w =
      call
        (record w {
          active = false;
          motion = record (w.motion) {
            follower = stop_following fl w.motion.follower;
            probe = close_probe w.motion.probe;
          };
          controls = w.controls ++ false ∷ [];
        })
        (InjectorCall.leave ∷ [])

  -- `dispatch`, at the time `now`; `absolute`, `real` and `then_real` are the injector's answers.
  unfoldable pub dispatch : ℕ → Bool → ℤ × ℤ → ℤ × ℤ → ℕ → Station fl.F → Message → Station fl.F
  dispatch now absolute real then_real own_id w (Message.mouse_move_rel dx dy) =
      apply_motion_frame absolute w dx dy
  dispatch now absolute real then_real own_id w (Message.mouse_move_abs x y) =
      call
        (record w { motion = record (w.motion) { follower = reanchor fl w.motion.follower x y } })
        (InjectorCall.move_cursor x y ∷ [])
  dispatch now absolute real then_real own_id w (Message.enter screen_id x y) =
      take_control now w own_id x y real then_real
  dispatch now absolute real then_real own_id w (Message.leave screen_id) = give_control w
  dispatch now absolute real then_real own_id w (Message.mouse_button b pressed) =
      enqueue_event w (InjectEvent.button b pressed)
  dispatch now absolute real then_real own_id w (Message.mouse_wheel dx dy) =
      enqueue_event w (InjectEvent.wheel dx dy)
  dispatch now absolute real then_real own_id w (Message.key kind k) =
      enqueue_event w (InjectEvent.key kind k)
  dispatch now absolute real then_real own_id w (Message.clipboard mime content) = record w {
    clipboard = w.clipboard ++ (mime, content) ∷ [];
  }
  dispatch now absolute real then_real own_id w (Message.layout l) = record w { layout = l }
  dispatch now absolute real then_real own_id w _ = w
