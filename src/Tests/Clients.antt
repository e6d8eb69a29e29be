-- ===== src/Tests/Clients.antt =====
-- A client that the server gives the cursor.
use kvmshare.Prelude.{List, [], arith, false, refl, take, true, ℕ, ◌++◌, ◌∷◌, ◌≡◌}
use kvmshare.Client.Control.{Duty, do_all, do_all-IsInStep}
use kvmshare.Client.Ends.{IsFollowed, IsOver, run_session-IsStopped}
use kvmshare.Client.Queue.{Arrival, asked_by, dispatch_all, dispatch_all-events}
use kvmshare.Client.Session.{LoopState, Stride, Wake, run_session}
use kvmshare.Client.Shared.{Station, event_queue_cap}
use kvmshare.Client.View.{IsInStep}
use kvmshare.Pointer.Follower.{new_follower}
use kvmshare.Pointer.Inside.{IsClamping, IsOnScreen, Steering, steered_by, steered_by-IsOnScreen}
use kvmshare.Pointer.Probe.{new_probe}
use kvmshare.Prelude.Int.{leb_ℤ, negsuc, pos, ℤ}
use kvmshare.Protocol.Geometry.{KeyKind}
use kvmshare.Protocol.Message.{Message}
use kvmshare.Tests.Sessions.{guest_info, whole}
use kvmshare.Transport.{RecvResult}
use kvmshare.Prelude.I32

abbrev idle_station : Station ℤ
idle_station = record {
  motion = record {
    follower = new_follower whole;
    probe = new_probe 0;
    frames_win = 0;
    ticks_win = 0;
    win_cmd_px = pos 0;
    win_real_start = (pos 0, pos 0);
    pin_windows = 0;
  };
  active = false;
  stop = false;
  events = [];
  udp_seq = 1;
  motion_seq = 0;
  layout = record { screens = [] };
  calls = [];
  clipboard = [];
  controls = [];
  sent = [];
}

abbrev arrival : Message → Arrival
arrival m = record {
  at = 0;
  absolute = false;
  real = (pos 5, pos 5);
  then_real = (pos 5, pos 5);
  msg = m;
}

abbrev visit : List Arrival
visit =
    arrival (Message.enter 1 (pos 5) (pos 5))
    ∷ arrival (Message.mouse_button 1 true)
    ∷ arrival (Message.leave 1)
    ∷ arrival (Message.key KeyKind.down 4)
    ∷ []

dispatch_all-events_example :
    (dispatch_all whole 1 idle_station visit).events
    ≡ take event_queue_cap (idle_station.events ++ asked_by visit)
dispatch_all-events_example = dispatch_all-events whole 1 idle_station visit (omega arith)

idle-IsInStep : IsInStep idle_station
unfolding new_follower
idle-IsInStep = record { follows = refl; isolates = refl; observed = refl }

abbrev duties : List Duty
duties =
    Duty.message (arrival (Message.enter 1 (pos 5) (pos 5)))
    ∷ Duty.tick 9 false (pos 4, pos 5) guest_info 0
    ∷ Duty.message (arrival (Message.leave 1))
    ∷ []

do_all-IsInStep_example : IsInStep (do_all whole 1 idle_station duties)
do_all-IsInStep_example = do_all-IsInStep whole 1 idle_station duties idle-IsInStep

whole_clamped :
    (a : ℤ) (n : ℕ)
    → Unit {0}
      × (leb_ℤ (pos 0) (I32.max (pos 0) (I32.min a (pos n))) ≡ true)
      × (leb_ℤ (I32.max (pos 0) (I32.min a (pos n))) (pos n) ≡ true)
unfolding I32.min I32.max
whole_clamped (pos m) n = (tt, ground arith, ground arith)
whole_clamped (negsuc m) n = (tt, ground arith, ground arith)

whole-IsClamping : IsClamping whole (λ z. Unit)
whole-IsClamping = record {
  zero_finite = tt;
  of_i32_finite = λ z. tt;
  plus_finite = λ a z h. tt;
  clamped = λ a n h. whole_clamped a n;
}

abbrev journey : List Steering
journey =
    Steering.resized 1280 800
    ∷ Steering.entered (pos 5) (pos 5)
    ∷ Steering.frame (negsuc 90) (pos 9)
    ∷ Steering.corrected (pos 3, pos 3)
    ∷ []

steered_by-IsOnScreen_example :
    IsOnScreen whole
      (steered_by whole (new_follower whole) journey)
      (steered_by whole (new_follower whole) journey).bounds
steered_by-IsOnScreen_example = steered_by-IsOnScreen whole (λ z. Unit) journey whole-IsClamping

-- A button, a quiet round, and a reset of the link.
abbrev wake : RecvResult → Wake
wake r = record {
  at = 9;
  resumed = false;
  secure = false;
  read = r;
  absolute = false;
  real = (pos 5, pos 5);
  then_real = (pos 5, pos 5);
  outbox = Message.keepalive ∷ [];
  link = true;
}

abbrev strides : List Stride
strides =
    Stride.round (wake (RecvResult.msg (Message.mouse_button 1 true)))
    ∷ Stride.watch 4000 500 true
    ∷ Stride.round (wake RecvResult.no_data)
    ∷ []

run_session-IsStopped_example :
    IsOver whole 1 (run_session whole 1 (LoopState.going idle_station 0 []) strides)
    × IsFollowed whole 1
        (wake (RecvResult.failure "reset"))
        (run_session whole 1 (LoopState.going idle_station 0 []) strides)
run_session-IsStopped_example =
    run_session-IsStopped whole 1 idle_station 0 strides (wake (RecvResult.failure "reset"))
