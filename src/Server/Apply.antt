-- ===== src/Server/Apply.antt =====
-- crates/core/src/server/actions.rs: the session's actions become calls and messages.
use kvmshare.Prelude.{List, Option, [], false, none, some, true, ℕ, ◌∷◌}
use kvmshare.Pointer.Gain.{on_beacon, on_delta}
use kvmshare.Prelude.Clock.{now_ms}
use kvmshare.Prelude.Int.{ℤ}
use kvmshare.Prelude.Maps.{insert}
use kvmshare.Prelude.Run.{Run, done, ◌>>=◌}
use kvmshare.Protocol.Message.{Message}
use kvmshare.Server.World.{EngineCall, ServerEvent, World, call_engine, emit, enqueue}
use kvmshare.Session.Events.{on_local_event}
use kvmshare.Session.State.{Action, Floats, set_gain}

module _ {F : Type 0} where
  -- `active.take()`, with the `Leave` for the screen that had the cursor.
  abbrev pub leave_old : World F → Option ℕ → World F
  leave_old w none = w
  leave_old w (some old) = enqueue (record w { active = none }) old (Message.leave old)

  abbrev pub send_to_active : World F → Message → Option ℕ → World F
  send_to_active w msg none = w
  send_to_active w msg (some id) = enqueue w id msg

  unfoldable pub switch_to_client : ℕ → World F → ℕ → ℤ → ℤ → World F
  switch_to_client now w to x y =
      let w1 = leave_old w w.active in
      let w2 = record w1 { active = some to; last_heard = insert to (now_ms now) w1.last_heard } in
      let w3 = enqueue w2 to (Message.enter to x y) in
      emit
        (call_engine w3
          (EngineCall.grab true ∷ EngineCall.isolate true ∷ EngineCall.show_cursor false ∷ []))
        (ServerEvent.control_changed true)

  unfoldable pub switch_home : World F → ℤ → ℤ → World F
  switch_home w x y =
      emit
        (call_engine (leave_old w w.active) (
          EngineCall.isolate false
          ∷ EngineCall.grab false
          ∷ EngineCall.warp x y
          ∷ EngineCall.show_cursor true
          ∷ []))
        (ServerEvent.control_changed false)

  unfoldable pub apply_action : ℕ → World F → Action → World F
  apply_action now w Action.nothing = w
  apply_action now w (Action.send msg) = send_to_active w msg w.active
  apply_action now w (Action.switch_to to x y) = switch_to_client now w to x y
  apply_action now w (Action.switch_to_local x y) = switch_home w x y

  -- The `for action in actions` of the callers.
  unfoldable pub apply_all : ℕ → World F → List Action → World F
  apply_all now w [] = w
  apply_all now w (a ∷ acts) = apply_all now (apply_action now w a) acts

-- The gain measurement in front of the session.
unfoldable pub feed : (fl : Floats) → World fl.F → Message → World fl.F
feed fl w (Message.mouse_move_rel dx dy) = record w { tracker = on_delta w.tracker dx dy }
feed fl w (Message.mouse_move_abs x y) =
    let g = on_beacon fl w.tracker x y in
    record w { tracker = g; session = set_gain fl w.session g.gain }
feed fl w msg = w

unfoldable pub handle_local_input : (fl : Floats) → ℕ → World fl.F → Message → Run (World fl.F)
handle_local_input fl now w msg =
    let w1 = feed fl w msg in
    do
      r ← on_local_event fl now w1.session msg
      done (apply_all now (record w1 { session = r.0 }) r.1)
