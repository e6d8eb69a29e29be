-- ===== src/Client/Ends.antt =====
-- crates/core/src/client/mod.rs: how a session ends, and what its worker threads learn of it.
use kvmshare.Prelude.{
  Bool, Bool-cases, List, Option, [], arith, false, if_keeps, inl, inr, leb, length, ltb, none, not,
  refl, some, true, ℕ, ◌&&◌, ◌-◌, ◌==◌, ◌||◌, ◌∙◌, ◌∷◌, ◌≡◌,
}
use kvmshare.Actions.Safety.{step}
use kvmshare.Client.Dispatch.{
  apply_motion_frame, dispatch, give_control, send_beacon, steer, take_control,
}
use kvmshare.Client.Session.{
  LoopState, SessionEnd, Stride, Wake, end_of, go_on, is_empty, motion_stall, on_command, on_read,
  run_session, send_waiting, session_round, supervise, wind_up, work,
}
use kvmshare.Client.Shared.{
  InjectEvent, Station, drain_events, enqueue_event, event_queue_cap, next_u32, probe_window,
}
use kvmshare.Client.Threads.{
  cursor_beacon_interval, motion_tick, on_datagram, place, place_at_command, recover, steer_by,
  step_toward, udp_round,
}
use kvmshare.Pointer.Follower.{Follower, command}
use kvmshare.Prelude.Clock.{elapsed}
use kvmshare.Prelude.Int.{eqb_ℤ, ℤ}
use kvmshare.Protocol.Message.{Message}
use kvmshare.Session.State.{Floats}
use kvmshare.Transport.{RecvResult}
use kvmshare.Udp.{Datagram, is_newer, unpack}

module _ (fl : Floats) (own_id : ℕ) where
  -- A session that has returned has told its workers to stop.
  abbrev pub IsOver : LoopState fl.F → Type 0
  IsOver (LoopState.going w last sent) = Unit {0}
  IsOver (LoopState.returned e w) = w.stop ≡ true
  IsOver (LoopState.failed w) = Unit {0}

  -- A round from a state: the loop goes on, or fails, only if no worker was told to stop, and tells
  -- none; if it returns it has told them.
  abbrev pub IsRound : Station fl.F → LoopState fl.F → Type 0
  IsRound w (LoopState.going v last sent) = (w.stop ≡ false) × (v.stop ≡ false)
  IsRound w (LoopState.returned e v) = v.stop ≡ true
  IsRound w (LoopState.failed v) = (w.stop ≡ false) × (v.stop ≡ false)

  abbrev pub IsFollowed : Wake → LoopState fl.F → Type 0
  IsFollowed k (LoopState.going w last sent) = IsRound w (session_round fl own_id w last sent k)
  IsFollowed k (LoopState.returned e w) = Unit {0}
  IsFollowed k (LoopState.failed w) = Unit {0}

  steer-stop :
      (w : Station fl.F) (dx dy : ℤ) (absolute : Bool) → (steer fl w dx dy absolute).stop ≡ w.stop
  steer-stop w dx dy true = refl
  steer-stop w dx dy false = refl

  queued-stop : (w : Station fl.F) (e : InjectEvent) → (enqueue_event w e).stop ≡ w.stop
  unfolding enqueue_event
  queued-stop w e =
      if_keeps (λ (v : Station fl.F). v.stop ≡ w.stop) (ltb (length w.events) event_queue_cap) _ _
        refl refl

  dispatch-stop :
      (now : ℕ) (absolute : Bool) (real then_real : ℤ × ℤ) (w : Station fl.F) (m : Message)
      → (dispatch fl now absolute real then_real own_id w m).stop ≡ w.stop
  unfolding dispatch apply_motion_frame take_control give_control send_beacon
  dispatch-stop now absolute real then_real w (Message.hello v i n s) = refl
  dispatch-stop now absolute real then_real w (Message.welcome v n l i) = refl
  dispatch-stop now absolute real then_real w (Message.screen_info s) = refl
  dispatch-stop now absolute real then_real w (Message.layout l) = refl
  dispatch-stop now absolute real then_real w (Message.control c) = refl
  dispatch-stop now absolute real then_real w (Message.enter i x y) = refl
  dispatch-stop now absolute real then_real w (Message.leave i) = refl
  dispatch-stop now absolute real then_real w (Message.mouse_move_abs x y) = refl
  dispatch-stop now absolute real then_real w (Message.mouse_move_rel x y) =
      steer-stop _ x y absolute
  dispatch-stop now absolute real then_real w (Message.cursor_pos x y) = refl
  dispatch-stop now absolute real then_real w (Message.mouse_button b p) =
      queued-stop w (InjectEvent.button b p)
  dispatch-stop now absolute real then_real w (Message.mouse_wheel x y) =
      queued-stop w (InjectEvent.wheel x y)
  dispatch-stop now absolute real then_real w (Message.key k' u) =
      queued-stop w (InjectEvent.key k' u)
  dispatch-stop now absolute real then_real w (Message.clipboard m b) = refl
  dispatch-stop now absolute real then_real w Message.keepalive = refl
  dispatch-stop now absolute real then_real w (Message.error c t) = refl
  dispatch-stop now absolute real then_real w Message.escape = refl

  wind_up-IsRound :
      (e : SessionEnd) (absolute : Bool) (v w : Station fl.F)
      → IsRound v (wind_up fl own_id e absolute w)
  unfolding wind_up place_at_command
  wind_up-IsRound e true v w = refl
  wind_up-IsRound e false v w = refl

  on_command-IsRound :
      (w : Station fl.F) (last : ℕ) (sent : List Message) (absolute : Bool) (o : Option SessionEnd)
      → w.stop ≡ false
      → IsRound w (on_command fl own_id w last sent absolute o)
  on_command-IsRound w last sent absolute none h = (h, h)
  on_command-IsRound w last sent absolute (some e) h = wind_up-IsRound e absolute w w

  on_read-IsRound :
      (k : Wake) (w : Station fl.F) (last : ℕ) (sent : List Message) (r : RecvResult)
      → w.stop ≡ false
      → IsRound w (on_read fl own_id k w last sent r)
  unfolding on_read send_waiting
  on_read-IsRound k w last sent (RecvResult.msg (Message.hello v i n s)) h =
      (h, dispatch-stop k.at k.absolute k.real k.then_real w (Message.hello v i n s) ∙ h)
  on_read-IsRound k w last sent (RecvResult.msg (Message.welcome v n l i)) h =
      (h, dispatch-stop k.at k.absolute k.real k.then_real w (Message.welcome v n l i) ∙ h)
  on_read-IsRound k w last sent (RecvResult.msg (Message.screen_info s)) h =
      (h, dispatch-stop k.at k.absolute k.real k.then_real w (Message.screen_info s) ∙ h)
  on_read-IsRound k w last sent (RecvResult.msg (Message.layout l)) h =
      (h, dispatch-stop k.at k.absolute k.real k.then_real w (Message.layout l) ∙ h)
  on_read-IsRound k w last sent (RecvResult.msg (Message.control c)) h =
      on_command-IsRound w last sent k.absolute (end_of c) h
  on_read-IsRound k w last sent (RecvResult.msg (Message.enter i x y)) h =
      (h, dispatch-stop k.at k.absolute k.real k.then_real w (Message.enter i x y) ∙ h)
  on_read-IsRound k w last sent (RecvResult.msg (Message.leave i)) h =
      (h, dispatch-stop k.at k.absolute k.real k.then_real w (Message.leave i) ∙ h)
  on_read-IsRound k w last sent (RecvResult.msg (Message.mouse_move_abs x y)) h =
      (h, dispatch-stop k.at k.absolute k.real k.then_real w (Message.mouse_move_abs x y) ∙ h)
  on_read-IsRound k w last sent (RecvResult.msg (Message.mouse_move_rel x y)) h =
      (h, dispatch-stop k.at k.absolute k.real k.then_real w (Message.mouse_move_rel x y) ∙ h)
  on_read-IsRound k w last sent (RecvResult.msg (Message.cursor_pos x y)) h =
      (h, dispatch-stop k.at k.absolute k.real k.then_real w (Message.cursor_pos x y) ∙ h)
  on_read-IsRound k w last sent (RecvResult.msg (Message.mouse_button b p)) h =
      (h, dispatch-stop k.at k.absolute k.real k.then_real w (Message.mouse_button b p) ∙ h)
  on_read-IsRound k w last sent (RecvResult.msg (Message.mouse_wheel x y)) h =
      (h, dispatch-stop k.at k.absolute k.real k.then_real w (Message.mouse_wheel x y) ∙ h)
  on_read-IsRound k w last sent (RecvResult.msg (Message.key k' u)) h =
      (h, dispatch-stop k.at k.absolute k.real k.then_real w (Message.key k' u) ∙ h)
  on_read-IsRound k w last sent (RecvResult.msg (Message.clipboard m b)) h =
      (h, dispatch-stop k.at k.absolute k.real k.then_real w (Message.clipboard m b) ∙ h)
  on_read-IsRound k w last sent (RecvResult.msg Message.keepalive) h =
      (h, dispatch-stop k.at k.absolute k.real k.then_real w Message.keepalive ∙ h)
  on_read-IsRound k w last sent (RecvResult.msg (Message.error c t)) h =
      (h, dispatch-stop k.at k.absolute k.real k.then_real w (Message.error c t) ∙ h)
  on_read-IsRound k w last sent (RecvResult.msg Message.escape) h =
      (h, dispatch-stop k.at k.absolute k.real k.then_real w Message.escape ∙ h)
  on_read-IsRound k w last sent RecvResult.eof h =
      wind_up-IsRound SessionEnd.link_closed k.absolute w w
  on_read-IsRound k w last sent RecvResult.no_data h =
      if_keeps (IsRound w) (not k.link && not (is_empty _)) _ _ (h, h) (h, h)
  on_read-IsRound k w last sent RecvResult.waiting h = (h, h)
  on_read-IsRound k w last sent (RecvResult.failure e) h = (h, h)

  session_round-IsRound :
      (w : Station fl.F) (last : ℕ) (sent : List Message) (k : Wake)
      → IsRound w (session_round fl own_id w last sent k)
  unfolding session_round
  session_round-IsRound w last sent k = elim (Bool-cases (w.stop || k.resumed || k.secure)) [
    | inl ends ↦ rw ends (wind_up-IsRound SessionEnd.link_closed k.absolute w w)
    | inr goes ↦ rw goes (on_read-IsRound k w last sent k.read (ground arith))
  ]

  step_toward-stop :
      (w : Station fl.F) (p : Follower fl.F × Option (ℤ × ℤ)) → (step_toward fl w p).stop ≡ w.stop
  step_toward-stop w (f, none) = refl
  step_toward-stop w (f, some step) = refl

  place-stop :
      (absolute : Bool) (w : Station fl.F) (real : ℤ × ℤ) → (place fl absolute w real).stop ≡ w.stop
  unfolding place
  place-stop true w real =
      let at = command fl w.motion.follower in
      if_keeps (λ (v : Station fl.F). v.stop ≡ w.stop) (eqb_ℤ at.0 real.0 && eqb_ℤ at.1 real.1) _ _
        refl refl
  place-stop false w real = step_toward-stop w _

  recover-stop :
      (w : Station fl.F) (pinned : Bool) → w.stop ≡ true → (recover fl w pinned).stop ≡ true
  recover-stop w true h = refl
  recover-stop w false h = h

  steer_by-stop :
      (absolute : Bool) (w : Station fl.F) (m : Message) → (steer_by fl absolute w m).stop ≡ w.stop
  unfolding apply_motion_frame
  steer_by-stop absolute w (Message.hello v i n s) = refl
  steer_by-stop absolute w (Message.welcome v n l i) = refl
  steer_by-stop absolute w (Message.screen_info s) = refl
  steer_by-stop absolute w (Message.layout l) = refl
  steer_by-stop absolute w (Message.control c) = refl
  steer_by-stop absolute w (Message.enter i x y) = refl
  steer_by-stop absolute w (Message.leave i) = refl
  steer_by-stop absolute w (Message.mouse_move_abs x y) = refl
  steer_by-stop absolute w (Message.mouse_move_rel x y) =
      if_keeps (λ (v : Station fl.F). v.stop ≡ w.stop) w.active _ _ (steer-stop _ x y absolute) refl
  steer_by-stop absolute w (Message.cursor_pos x y) = refl
  steer_by-stop absolute w (Message.mouse_button b p) = refl
  steer_by-stop absolute w (Message.mouse_wheel x y) = refl
  steer_by-stop absolute w (Message.key k u) = refl
  steer_by-stop absolute w (Message.clipboard m b) = refl
  steer_by-stop absolute w Message.keepalive = refl
  steer_by-stop absolute w (Message.error c t) = refl
  steer_by-stop absolute w Message.escape = refl

  on_datagram-stop :
      (absolute : Bool) (w : Station fl.F) (o : Option Datagram)
      → (on_datagram fl absolute own_id w o).stop ≡ w.stop
  on_datagram-stop absolute w none = refl
  on_datagram-stop absolute w (some d) =
      if_keeps (λ (v : Station fl.F). v.stop ≡ w.stop)
        (not (d.id == own_id) || not (is_newer d.seq w.motion_seq)) _ _ refl
        (steer_by-stop absolute (record w { motion_seq = d.seq }) d.msg)

  -- No thread takes the stop back.
  work-stop : (w : Station fl.F) (v : Stride) → w.stop ≡ true → (work fl own_id w v).stop ≡ true
  unfolding motion_tick send_beacon drain_events udp_round supervise
  work-stop w (Stride.round k) h = h
  work-stop w (Stride.tick now absolute real screen last_beacon) h =
      let w1 : Station fl.F = record w {
        motion = record (w.motion) { ticks_win = next_u32 w.motion.ticks_win };
      } in
      let w2 : Station fl.F = drain_events (place fl absolute w1 real) in
      let p = probe_window now w2.motion real.0 real.1 screen in
      let steady : (recover fl (record w2 { motion = p.0 }) p.2).stop ≡ true =
        recover-stop (record w2 { motion = p.0 }) p.2 (place-stop absolute w1 real ∙ h) in
      if_keeps (λ (r : Station fl.F × ℕ). r.0.stop ≡ true)
        (leb cursor_beacon_interval (elapsed now last_beacon)) _ _ steady steady
  work-stop w (Stride.datagram absolute bytes) h = on_datagram-stop absolute w (unpack bytes) ∙ h
  work-stop w (Stride.watch now motion_tick free) h =
      if_keeps (λ (v : Station fl.F). v.stop ≡ true)
        (w.active && ltb motion_stall (now - motion_tick)) _ _ refl h

  go_on-IsOver : (s : LoopState fl.F) (v : Stride) → IsOver s → IsOver (go_on fl own_id s v)
  unfolding go_on
  go_on-IsOver (LoopState.going w last sent) (Stride.round k) h =
      round_over w (session_round fl own_id w last sent k) (session_round-IsRound w last sent k)
    where
      round_over : (w : Station fl.F) (s : LoopState fl.F) → IsRound w s → IsOver s
      round_over w (LoopState.going v last sent) p = tt
      round_over w (LoopState.returned e v) p = p
      round_over w (LoopState.failed v) p = tt
  go_on-IsOver (LoopState.going w last sent) (Stride.tick n a r s b) h = tt
  go_on-IsOver (LoopState.going w last sent) (Stride.datagram a b) h = tt
  go_on-IsOver (LoopState.going w last sent) (Stride.watch n m f) h = tt
  go_on-IsOver (LoopState.returned e w) v h = work-stop w v h
  go_on-IsOver (LoopState.failed w) v h = tt

  run-IsOver :
      (s : LoopState fl.F) (vs : List Stride) → IsOver s → IsOver (run_session fl own_id s vs)
  unfolding run_session
  run-IsOver s [] h = h
  run-IsOver s (v ∷ vs) h = run-IsOver (go_on fl own_id s v) vs (go_on-IsOver s v h)

  next-IsFollowed : (k : Wake) (s : LoopState fl.F) → IsFollowed k s
  next-IsFollowed k (LoopState.going w last sent) = session_round-IsRound w last sent k
  next-IsFollowed k (LoopState.returned e w) = tt
  next-IsFollowed k (LoopState.failed w) = tt

  -- After any rounds of the loop of a client's session, among ticks, datagrams and supervisor's
  -- wakes of its other threads, a session that has returned has told its threads to stop. The next
  -- round of one that goes on returns, and has told them, or else it goes on or fails, both only if
  -- none of the threads was told to stop, and tells none: a link that fails leaves them running.
  pub run_session-IsStopped :
      (w : Station fl.F) (now : ℕ) (vs : List Stride) (k : Wake)
      → let s = run_session fl own_id (LoopState.going w now []) vs in IsOver s × IsFollowed k s
  run_session-IsStopped w now vs k =
      (run-IsOver (LoopState.going w now []) vs tt, next-IsFollowed k _)
