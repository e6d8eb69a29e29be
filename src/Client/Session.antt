-- ===== src/Client/Session.antt =====
-- crates/core/src/client/mod.rs: the loop of a session, on the thread of the control channel.
use kvmshare.Prelude.{
  Bool, List, Option, [], false, if◌then◌else◌, leb, ltb, none, not, some, true, ℕ, ◌&&◌, ◌++◌, ◌-◌,
  ◌==◌, ◌||◌, ◌∷◌,
}
use kvmshare.Client.Dispatch.{dispatch}
use kvmshare.Client.Shared.{InjectorCall, Station, call}
use kvmshare.Client.Threads.{motion_tick, place_at_command, udp_round}
use kvmshare.Pointer.Follower.{command}
use kvmshare.Prelude.Clock.{elapsed, millis}
use kvmshare.Prelude.Int.{ℤ}
use kvmshare.Protocol.Geometry.{ScreenInfo}
use kvmshare.Protocol.Message.{Message}
use kvmshare.Server.Registry.{disconnect_command, reconnect_command}
use kvmshare.Session.State.{Floats}
use kvmshare.Transport.{RecvResult}

pub data SessionEnd : Type 0 where
  link_closed : SessionEnd
  disconnected : SessionEnd
  reconnect : SessionEnd

-- `id::control::RESTART`.
abbrev pub restart_command : ℕ
restart_command = 3

abbrev pub keepalive_interval : ℕ
keepalive_interval = millis 2000

-- What a round of the loop meets: the time, the platform's two alarms, the read, the injector's
-- answers, what the app and the sync thread want sent, and whether the link takes what is sent.
pub record Wake : Type 0 where
  pub at : ℕ
  pub resumed : Bool
  pub secure : Bool
  pub read : RecvResult
  pub absolute : Bool
  pub real : ℤ × ℤ
  pub then_real : ℤ × ℤ
  pub outbox : List Message
  pub link : Bool

-- A round of the loop; a tick of the motion thread; a datagram; a wake of the supervisor.
pub data Stride : Type 0 where
  round : Wake → Stride
  tick : ℕ → Bool → ℤ × ℤ → ScreenInfo → ℕ → Stride
  datagram : Bool → List ℕ → Stride
  watch : ℕ → ℕ → Bool → Stride

-- The loop goes on, with the time of the last keepalive and what was sent; or `run` returns, or it
-- fails with an error of the link.
pub data LoopState (F : Type 0) : Type 0 where
  going : Station F → ℕ → List Message → LoopState F
  returned : SessionEnd → Station F → LoopState F
  failed : Station F → LoopState F

-- `supervisor_loop`, of supervisor.rs: whether a wake under control finds the motion thread stalled.
abbrev pub motion_stall : ℕ
motion_stall = 3000

-- `free` is whether the injector's lock can be taken.
unfoldable pub supervise : {F : Type 0} → ℕ → ℕ → Bool → Station F → Station F
supervise now motion_tick free w =
    if w.active && ltb motion_stall (now - motion_tick)
    then record (if free then call w (InjectorCall.emergency_release ∷ []) else w) { stop = true }
    else w

abbrev pub end_of : ℕ → Option SessionEnd
end_of command =
    if command == disconnect_command
    then some SessionEnd.disconnected
    else if command == reconnect_command || command == restart_command
    then some SessionEnd.reconnect
    else none

abbrev pub is_empty : List Message → Bool
is_empty [] = true
is_empty (m ∷ ms) = false

module _ (fl : Floats) (own_id : ℕ) where
  -- Behind the loop: the workers are told to stop, and the cursor is placed once more.
  unfoldable pub wind_up : SessionEnd → Bool → Station fl.F → LoopState fl.F
  wind_up e absolute w =
      LoopState.returned e (place_at_command fl absolute (record w { stop = true }))

  abbrev pub on_command :
      Station fl.F → ℕ → List Message → Bool → Option SessionEnd → LoopState fl.F
  on_command w last sent absolute none = LoopState.going w last sent
  on_command w last sent absolute (some e) = wind_up e absolute w

  -- A quiet link: the waiting messages, and a keepalive when it is time.
  unfoldable pub send_waiting : Wake → Station fl.F → ℕ → List Message → LoopState fl.F
  send_waiting k w last sent =
      let due = leb keepalive_interval (elapsed k.at last) in
      let batch = k.outbox ++ (if due then Message.keepalive ∷ [] else []) in
      if not k.link && not (is_empty batch)
      then LoopState.failed w
      else LoopState.going w (if due then k.at else last) (sent ++ batch)

  unfoldable pub on_read : Wake → Station fl.F → ℕ → List Message → RecvResult → LoopState fl.F
  on_read k w last sent (RecvResult.msg (Message.control command)) =
      on_command w last sent k.absolute (end_of command)
  on_read k w last sent (RecvResult.msg m) =
      LoopState.going (dispatch fl k.at k.absolute k.real k.then_real own_id w m) last sent
  on_read k w last sent RecvResult.eof = wind_up SessionEnd.link_closed k.absolute w
  on_read k w last sent RecvResult.no_data = send_waiting k w last sent
  on_read k w last sent RecvResult.waiting = LoopState.going w last sent
  on_read k w last sent (RecvResult.failure e) = LoopState.failed w

  unfoldable pub session_round : Station fl.F → ℕ → List Message → Wake → LoopState fl.F
  session_round w last sent k =
      if w.stop || k.resumed || k.secure
      then wind_up SessionEnd.link_closed k.absolute w
      else on_read k w last sent k.read

  -- The other threads' work on the shared state.
  abbrev pub work : Station fl.F → Stride → Station fl.F
  work w (Stride.round k) = w
  work w (Stride.tick now absolute real screen last_beacon) =
      (motion_tick fl now absolute real screen own_id w last_beacon).0
  work w (Stride.datagram absolute bytes) = udp_round fl absolute own_id w bytes
  work w (Stride.watch now motion_tick free) = supervise now motion_tick free w

  -- A round of the loop, while it goes on, or work of another thread, also behind the loop.
  unfoldable pub go_on : LoopState fl.F → Stride → LoopState fl.F
  go_on (LoopState.going w last sent) (Stride.round k) = session_round w last sent k
  go_on (LoopState.going w last sent) v = LoopState.going (work w v) last sent
  go_on (LoopState.returned e w) v = LoopState.returned e (work w v)
  go_on (LoopState.failed w) v = LoopState.failed (work w v)

  -- The rounds of `run`, among what the threads that it has spawned do.
  unfoldable pub run_session : LoopState fl.F → List Stride → LoopState fl.F
  run_session s [] = s
  run_session s (v ∷ vs) = run_session (go_on s v) vs
