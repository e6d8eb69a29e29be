-- ===== src/Client/Control.antt =====
-- crates/core/src/client: who the client's threads think has control.
use kvmshare.Prelude.{
  Bool, List, Option, [], false, if_keeps, leb, map, none, not, refl, some, true, ℕ, ◌&&◌, ◌==◌,
  ◌||◌, ◌∙◌, ◌∷◌, ◌≡◌,
}
use kvmshare.Actions.Safety.{step}
use kvmshare.Client.Dispatch.{dispatch, give_control, send_beacon, take_control}
use kvmshare.Client.Queue.{Arrival}
use kvmshare.Client.Shared.{
  InjectEvent, InjectorCall, MotionState, Station, drain_events, next_u32, probe_window,
}
use kvmshare.Client.Threads.{
  cursor_beacon_interval, motion_tick, on_datagram, place, place_at_command, recover, steer_by,
  step_toward, udp_round,
}
use kvmshare.Client.View.{
  IsInStep, apply_motion_frame-view, called-view, clamped-on, correct-on, enqueue_event-view,
  entered-append, entered-inject, followed-view, latest-append, on-view, same_view, stepped-view,
  view,
}
use kvmshare.Pointer.Follower.{Follower, command, follow_from, reanchor, stop_following}
use kvmshare.Pointer.Probe.{Sample, is_due}
use kvmshare.Prelude.Clock.{elapsed}
use kvmshare.Prelude.Int.{eqb_ℤ, ℤ}
use kvmshare.Protocol.Geometry.{ScreenInfo}
use kvmshare.Protocol.Message.{Message}
use kvmshare.Session.State.{Floats}
use kvmshare.Udp.{Datagram, is_newer, unpack}

module _ (fl : Floats) where
  take_control-IsInStep :
      (now : ℕ) (w : Station fl.F) (own_id : ℕ) (x y : ℤ) (real then_real : ℤ × ℤ)
      → IsInStep (take_control fl now w own_id x y real then_real)
  unfolding take_control send_beacon reanchor follow_from
  take_control-IsInStep now w own_id x y real then_real = record {
    follows = clamped-on fl _ ∙ clamped-on fl _;
    isolates = entered-append false w.calls _;
    observed = latest-append false w.controls true;
  }

  give_control-IsInStep : (w : Station fl.F) → IsInStep (give_control fl w)
  unfolding give_control stop_following
  give_control-IsInStep w = record {
    follows = refl;
    isolates = entered-append false w.calls _;
    observed = latest-append false w.controls false;
  }

  dispatch-IsInStep :
      (now : ℕ) (absolute : Bool) (real then_real : ℤ × ℤ) (own_id : ℕ) (w : Station fl.F)
      (m : Message)
      → IsInStep w
      → IsInStep (dispatch fl now absolute real then_real own_id w m)
  unfolding dispatch reanchor
  dispatch-IsInStep now absolute real then_real own_id w (Message.hello v i n s) h = h
  dispatch-IsInStep now absolute real then_real own_id w (Message.welcome v n l i) h = h
  dispatch-IsInStep now absolute real then_real own_id w (Message.screen_info s) h = h
  dispatch-IsInStep now absolute real then_real own_id w (Message.layout l) h = same_view w _ refl h
  dispatch-IsInStep now absolute real then_real own_id w (Message.control c) h = h
  dispatch-IsInStep now absolute real then_real own_id w (Message.enter i x y) h =
      take_control-IsInStep now w own_id x y real then_real
  dispatch-IsInStep now absolute real then_real own_id w (Message.leave i) h =
      give_control-IsInStep w
  dispatch-IsInStep now absolute real then_real own_id w (Message.mouse_move_abs x y) h =
      same_view w _
        (stepped-view fl w (reanchor fl w.motion.follower x y) (InjectorCall.move_cursor x y ∷ [])
          (clamped-on fl _) (λ b. refl))
        h
  dispatch-IsInStep now absolute real then_real own_id w (Message.mouse_move_rel x y) h =
      same_view w _ (apply_motion_frame-view fl absolute w x y) h
  dispatch-IsInStep now absolute real then_real own_id w (Message.cursor_pos x y) h = h
  dispatch-IsInStep now absolute real then_real own_id w (Message.mouse_button b p) h =
      same_view w _ (enqueue_event-view fl w (InjectEvent.button b p)) h
  dispatch-IsInStep now absolute real then_real own_id w (Message.mouse_wheel x y) h =
      same_view w _ (enqueue_event-view fl w (InjectEvent.wheel x y)) h
  dispatch-IsInStep now absolute real then_real own_id w (Message.key k u) h =
      same_view w _ (enqueue_event-view fl w (InjectEvent.key k u)) h
  dispatch-IsInStep now absolute real then_real own_id w (Message.clipboard m b) h =
      same_view w _ refl h
  dispatch-IsInStep now absolute real then_real own_id w Message.keepalive h = h
  dispatch-IsInStep now absolute real then_real own_id w (Message.error c t) h = h
  dispatch-IsInStep now absolute real then_real own_id w Message.escape h = h

  step_toward-view :
      (w : Station fl.F) (p : Follower fl.F × Option (ℤ × ℤ))
      → p.0.on ≡ w.motion.follower.on
      → view (step_toward fl w p) ≡ view w
  step_toward-view w (f, none) e = followed-view fl w f e
  step_toward-view w (f, some step) e =
      stepped-view fl w f (InjectorCall.move_rel step.0 step.1 ∷ []) e (λ b. refl)

  place-view :
      (absolute : Bool) (w : Station fl.F) (real : ℤ × ℤ) → view (place fl absolute w real) ≡ view w
  unfolding place
  place-view true w real =
      let at = command fl w.motion.follower in
      if_keeps (λ (v : Station fl.F). view v ≡ view w) (eqb_ℤ at.0 real.0 && eqb_ℤ at.1 real.1) _ _
        refl (called-view fl w (InjectorCall.move_cursor at.0 at.1 ∷ []) (λ b. refl))
  place-view false w real = step_toward-view w _ (correct-on fl w.motion.follower real)

  drain_events-view : (w : Station fl.F) → view (drain_events w) ≡ view w
  unfolding drain_events
  drain_events-view w =
      called-view fl w (map (λ e. InjectorCall.inject e) w.events) (λ b. entered-inject b w.events)

  probe_window-on :
      (now : ℕ) (m : MotionState fl.F) (rx ry : ℤ) (screen : ScreenInfo)
      → (probe_window now m rx ry screen).0.follower.on ≡ m.follower.on
  unfolding probe_window
  probe_window-on now m rx ry screen =
      if_keeps (λ (r : MotionState fl.F × Option Sample × Bool). r.0.follower.on ≡ m.follower.on)
        (is_due now m.probe) _ _ refl refl

  recover-view : (w : Station fl.F) (pinned : Bool) → view (recover fl w pinned) ≡ view w
  recover-view w true = called-view fl w (InjectorCall.emergency_release ∷ []) (λ b. refl)
  recover-view w false = refl

  motion_tick-view :
      (now : ℕ) (absolute : Bool) (real : ℤ × ℤ) (screen : ScreenInfo) (own_id : ℕ)
      (w : Station fl.F) (last_beacon : ℕ)
      → view (motion_tick fl now absolute real screen own_id w last_beacon).0 ≡ view w
  unfolding motion_tick send_beacon
  motion_tick-view now absolute real screen own_id w last_beacon =
      let w1 = record w {
        motion = record (w.motion) { ticks_win = next_u32 w.motion.ticks_win };
      } in
      let w2 = drain_events (place fl absolute w1 real) in
      let p = probe_window now w2.motion real.0 real.1 screen in
      let steady : view (recover fl (record w2 { motion = p.0 }) p.2) ≡ view w =
        recover-view (record w2 { motion = p.0 }) p.2
        ∙ on-view fl w2 p.0 (probe_window-on now w2.motion real.0 real.1 screen)
        ∙ drain_events-view (place fl absolute w1 real)
        ∙ place-view absolute w1 real in
      if_keeps (λ (r : Station fl.F × ℕ). view r.0 ≡ view w)
        (leb cursor_beacon_interval (elapsed now last_beacon)) _ _ steady steady

-- What the client's threads do: a server message, a tick of the motion thread, a datagram, and the
-- last placement of a session.
pub data Duty : Type 0 where
  message : Arrival → Duty
  tick : ℕ → Bool → ℤ × ℤ → ScreenInfo → ℕ → Duty
  datagram : Bool → List ℕ → Duty
  placement : Bool → Duty

unfoldable pub do_duty : (fl : Floats) → ℕ → Station fl.F → Duty → Station fl.F
do_duty fl own_id w (Duty.message a) = dispatch fl a.at a.absolute a.real a.then_real own_id w a.msg
do_duty fl own_id w (Duty.tick now absolute real screen last_beacon) =
    (motion_tick fl now absolute real screen own_id w last_beacon).0
do_duty fl own_id w (Duty.datagram absolute bytes) = udp_round fl absolute own_id w bytes
do_duty fl own_id w (Duty.placement absolute) = place_at_command fl absolute w

unfoldable pub do_all : (fl : Floats) → ℕ → Station fl.F → List Duty → Station fl.F
do_all fl own_id w [] = w
do_all fl own_id w (d ∷ ds) = do_all fl own_id (do_duty fl own_id w d) ds

module _ (fl : Floats) (own_id : ℕ) where
  steer_by-view :
      (absolute : Bool) (w : Station fl.F) (m : Message) → view (steer_by fl absolute w m) ≡ view w
  steer_by-view absolute w (Message.hello v i n s) = refl
  steer_by-view absolute w (Message.welcome v n l i) = refl
  steer_by-view absolute w (Message.screen_info s) = refl
  steer_by-view absolute w (Message.layout l) = refl
  steer_by-view absolute w (Message.control c) = refl
  steer_by-view absolute w (Message.enter i x y) = refl
  steer_by-view absolute w (Message.leave i) = refl
  steer_by-view absolute w (Message.mouse_move_abs x y) = refl
  steer_by-view absolute w (Message.mouse_move_rel x y) =
      if_keeps (λ (v : Station fl.F). view v ≡ view w) w.active _ _
        (apply_motion_frame-view fl absolute w x y) refl
  steer_by-view absolute w (Message.cursor_pos x y) = refl
  steer_by-view absolute w (Message.mouse_button b p) = refl
  steer_by-view absolute w (Message.mouse_wheel x y) = refl
  steer_by-view absolute w (Message.key k u) = refl
  steer_by-view absolute w (Message.clipboard m b) = refl
  steer_by-view absolute w Message.keepalive = refl
  steer_by-view absolute w (Message.error c t) = refl
  steer_by-view absolute w Message.escape = refl

  udp_round-view :
      (absolute : Bool) (w : Station fl.F) (bytes : List ℕ)
      → view (udp_round fl absolute own_id w bytes) ≡ view w
  unfolding udp_round
  udp_round-view absolute w bytes = on_datagram-view (unpack bytes)
    where
      on_datagram-view : (o : Option Datagram) → view (on_datagram fl absolute own_id w o) ≡ view w
      on_datagram-view none = refl
      on_datagram-view (some d) =
          if_keeps (λ (v : Station fl.F). view v ≡ view w)
            (not (d.id == own_id) || not (is_newer d.seq w.motion_seq)) _ _ refl
            (steer_by-view absolute (record w { motion_seq = d.seq }) d.msg)

  place_at_command-view :
      (absolute : Bool) (w : Station fl.F) → view (place_at_command fl absolute w) ≡ view w
  unfolding place_at_command
  place_at_command-view true w =
      let at = command fl w.motion.follower in
      called-view fl w (InjectorCall.move_cursor at.0 at.1 ∷ []) (λ b. refl)
  place_at_command-view false w = refl

  do_duty-IsInStep : (w : Station fl.F) (d : Duty) → IsInStep w → IsInStep (do_duty fl own_id w d)
  unfolding do_duty
  do_duty-IsInStep w (Duty.message a) h =
      dispatch-IsInStep fl a.at a.absolute a.real a.then_real own_id w a.msg h
  do_duty-IsInStep w (Duty.tick now absolute real screen last_beacon) h =
      same_view w _ (motion_tick-view fl now absolute real screen own_id w last_beacon) h
  do_duty-IsInStep w (Duty.datagram absolute bytes) h =
      same_view w _ (udp_round-view absolute w bytes) h
  do_duty-IsInStep w (Duty.placement absolute) h =
      same_view w _ (place_at_command-view absolute w) h

  -- Whatever messages, ticks and datagrams a client's threads handle, in any order, the flag, the
  -- follower, the injector's last `enter` or `leave` and the observer agree on whether this machine
  -- has control, if they did before.
  pub do_all-IsInStep :
      (w : Station fl.F) (ds : List Duty) → IsInStep w → IsInStep (do_all fl own_id w ds)
  unfolding do_all
  do_all-IsInStep w [] h = h
  do_all-IsInStep w (d ∷ ds) h = do_all-IsInStep (do_duty fl own_id w d) ds (do_duty-IsInStep w d h)
