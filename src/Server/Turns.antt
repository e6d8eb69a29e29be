-- ===== src/Server/Turns.antt =====
-- crates/core/src/server: input, reports and messages keep the server coherent.
use kvmshare.Prelude.{List, Option, ap, false, none, some, subst, sym, ℕ, ◌≡◌}
use kvmshare.Prelude.Clock.{now_ms}
use kvmshare.Prelude.Int.{ℤ}
use kvmshare.Prelude.Maps.{insert, lookup}
use kvmshare.Prelude.Run.{Ensures, Ensures->>=, Ensures-if}
use kvmshare.Protocol.Geometry.{ScreenInfo}
use kvmshare.Protocol.Message.{Message}
use kvmshare.Server.Apply.{apply_all, feed, handle_local_input}
use kvmshare.Server.Coherent.{IsCoherent, formed-IsLinked, linked-IsWellFormed, told-IsCoherent}
use kvmshare.Server.Datagrams.{
  dispatch_datagram, is_from, learn, or_default, receive, receive_from, take_beacon,
}
use kvmshare.Server.Desks.{IsLinked-wider, resize-IsUsed}
use kvmshare.Server.Inbound.{handle_client_message}
use kvmshare.Server.Policy.{Addr}
use kvmshare.Server.Rest.{Rest, apply_all-rest, enqueue-rest, rest}
use kvmshare.Server.Spoof.{is_report, learn-IsUntouched}
use kvmshare.Server.World.{Client, World, layout_snapshot}
use kvmshare.Session.Beacon.{on_remote_beacon}
use kvmshare.Session.Clients.{resize, update_screen_info, with_screens}
use kvmshare.Session.Events.{on_local_event}
use kvmshare.Session.Held.{IsPlacedDesk}
use kvmshare.Session.Invariant.{IsSoundFrom, on_local_event-IsSound, on_remote_beacon-IsSound}
use kvmshare.Session.Placed.{core}
use kvmshare.Session.Sound.{IsWellFormed}
use kvmshare.Session.State.{Action, Floats, Session, set_gain}
use kvmshare.Udp.{Datagram, is_newer, unpack}

module _ {F : Type 0} where
  -- A handler of the session that is sound, with its actions applied.
  pub sound-IsCoherent :
      (now : ℕ) (w : World F) (q : Session F × List Action)
      → IsCoherent (rest w)
      → IsSoundFrom w.session q
      → IsCoherent (rest (apply_all now (record w { session = q.0 }) q.1))
  sound-IsCoherent now w q h p =
      subst IsCoherent (sym (apply_all-rest now (record w { session = q.0 }) q.1)) (
        told-IsCoherent (rest w) q.0 q.1 h (formed-IsLinked (core q.0) p.sound)
          (ap (λ d. d.2) p.same) p.told)

  -- The cursor is where the server thinks, and the screens can be clamped to.
  abbrev pub IsReady : World F → Type 0
  IsReady w = IsCoherent (rest w) × IsPlacedDesk (core w.session)

  ready-IsWellFormed : (w : World F) → IsReady w → IsWellFormed (core w.session)
  ready-IsWellFormed w h = linked-IsWellFormed (core w.session) h.0.linked h.1

  learned-rest : (w : World F) (id : ℕ) (source : Addr) → rest (learn w id source) ≡ rest w
  learned-rest w id source = ap rest (learn-IsUntouched w id source)

  take_beacon-IsCoherent :
      (now : ℕ) (w : World F) (id seq : ℕ) (x y : ℤ)
      → IsReady w
      → Ensures (λ u. IsCoherent (rest u)) (take_beacon now w id seq x y)
  unfolding take_beacon
  take_beacon-IsCoherent now w id seq x y h =
      Ensures-if (λ (u : World F). IsCoherent (rest u))
        (is_newer seq (or_default (lookup id w.seqs))) _ _
        (Ensures->>= (IsSoundFrom w.session) _ (on_remote_beacon now w.session id x y) _
          (on_remote_beacon-IsSound now w.session id x y (ready-IsWellFormed w h))
          (λ r p. sound-IsCoherent now (record w { seqs = insert id seq w.seqs }) r h.0 p))
        h.0

  dispatch-IsCoherent :
      (now : ℕ) (w : World F) (d : Datagram) (m : Message)
      → IsReady w
      → Ensures (λ u. IsCoherent (rest u)) (dispatch_datagram now w d m)
  dispatch-IsCoherent now w d (Message.hello v i n s) h = h.0
  dispatch-IsCoherent now w d (Message.welcome v n l i) h = h.0
  dispatch-IsCoherent now w d (Message.screen_info s) h = h.0
  dispatch-IsCoherent now w d (Message.layout l) h = h.0
  dispatch-IsCoherent now w d (Message.control c) h = h.0
  dispatch-IsCoherent now w d (Message.enter i x y) h = h.0
  dispatch-IsCoherent now w d (Message.leave i) h = h.0
  dispatch-IsCoherent now w d (Message.mouse_move_abs x y) h = h.0
  dispatch-IsCoherent now w d (Message.mouse_move_rel x y) h = h.0
  dispatch-IsCoherent now w d (Message.cursor_pos x y) h =
      take_beacon-IsCoherent now w d.id d.seq x y h
  dispatch-IsCoherent now w d (Message.mouse_button b p) h = h.0
  dispatch-IsCoherent now w d (Message.mouse_wheel x y) h = h.0
  dispatch-IsCoherent now w d (Message.key k u) h = h.0
  dispatch-IsCoherent now w d (Message.clipboard m b) h = h.0
  dispatch-IsCoherent now w d Message.keepalive h = h.0
  dispatch-IsCoherent now w d (Message.error c t) h = h.0
  dispatch-IsCoherent now w d Message.escape h = h.0

  pub receive-IsCoherent :
      (now : ℕ) (w : World F) (source : Addr) (bytes : List ℕ)
      → IsReady w
      → Ensures (λ u. IsCoherent (rest u)) (receive now w source bytes)
  unfolding receive
  receive-IsCoherent now w source bytes h = from (unpack bytes)
    where
      from :
          (o : Option Datagram) → Ensures (λ u. IsCoherent (rest u)) (receive_from now w source o)
      from none = h.0
      from (some d) =
          let w1 = record w { last_heard = insert d.id (now_ms now) w.last_heard } in
          Ensures-if (λ (u : World F). IsCoherent (rest u))
            (is_from source.ip (lookup d.id w.tcp_ips)) _ _
            (dispatch-IsCoherent now (learn w1 d.id source) d d.msg (
              subst (λ (r : Rest F). IsCoherent r × IsPlacedDesk (core r.session))
                (sym (learned-rest w1 d.id source)) h))
            h.0

  resized-IsCoherent :
      (w : World F) (id : ℕ) (info : ScreenInfo)
      → IsCoherent (rest w)
      → IsCoherent (rest (record w { session = update_screen_info w.session id info }))
  unfolding update_screen_info
  resized-IsCoherent w id info h = record {
    linked =
        IsLinked-wider (core w.session) (with_screens (resize id info w.session.layout.screens))
          h.linked (λ j u. resize-IsUsed id info w.session.layout.screens j u);
    latched = h.latched;
    held = h.held;
    known = h.known;
    registered = h.registered;
  }

  pub handle_client_message-IsCoherent :
      (now : ℕ) (w : World F) (c : Client) (m : Message)
      → is_report m ≡ false
      → IsCoherent (rest w)
      → Ensures (λ u. IsCoherent (rest u)) (handle_client_message now w c m)
  unfolding handle_client_message
  handle_client_message-IsCoherent now w c (Message.hello v i n s) e h = h
  handle_client_message-IsCoherent now w c (Message.welcome v n l i) e h = h
  handle_client_message-IsCoherent now w c (Message.screen_info s) e h =
      let w1 = record w { session = update_screen_info w.session c.id s } in
      subst IsCoherent (sym (enqueue-rest w1 c.id (Message.layout (layout_snapshot w1))))
        (resized-IsCoherent w c.id s h)
  handle_client_message-IsCoherent now w c (Message.layout l) e h = h
  handle_client_message-IsCoherent now w c (Message.control k) e h = h
  handle_client_message-IsCoherent now w c (Message.enter i x y) e h = h
  handle_client_message-IsCoherent now w c (Message.leave i) e h = h
  handle_client_message-IsCoherent now w c (Message.mouse_move_abs x y) e h = h
  handle_client_message-IsCoherent now w c (Message.mouse_move_rel x y) e h = h
  handle_client_message-IsCoherent now w c (Message.cursor_pos x y) e h = cc
  handle_client_message-IsCoherent now w c (Message.mouse_button b p) e h = h
  handle_client_message-IsCoherent now w c (Message.mouse_wheel x y) e h = h
  handle_client_message-IsCoherent now w c (Message.key k u) e h = h
  handle_client_message-IsCoherent now w c (Message.clipboard m b) e h = h
  handle_client_message-IsCoherent now w c Message.keepalive e h = h
  handle_client_message-IsCoherent now w c (Message.error k t) e h = h
  handle_client_message-IsCoherent now w c Message.escape e h = h

fed-IsReady : (fl : Floats) (w : World fl.F) (m : Message) → IsReady w → IsReady (feed fl w m)
unfolding feed set_gain
fed-IsReady fl w (Message.hello v i n s) h = h
fed-IsReady fl w (Message.welcome v n l i) h = h
fed-IsReady fl w (Message.screen_info s) h = h
fed-IsReady fl w (Message.layout l) h = h
fed-IsReady fl w (Message.control c) h = h
fed-IsReady fl w (Message.enter i x y) h = h
fed-IsReady fl w (Message.leave i) h = h
fed-IsReady fl w (Message.mouse_move_abs x y) h = (
  record {
    linked = h.0.linked;
    latched = h.0.latched;
    held = h.0.held;
    known = h.0.known;
    registered = h.0.registered;
  },
  h.1,
)
fed-IsReady fl w (Message.mouse_move_rel x y) h = h
fed-IsReady fl w (Message.cursor_pos x y) h = h
fed-IsReady fl w (Message.mouse_button b p) h = h
fed-IsReady fl w (Message.mouse_wheel x y) h = h
fed-IsReady fl w (Message.key k u) h = h
fed-IsReady fl w (Message.clipboard m b) h = h
fed-IsReady fl w Message.keepalive h = h
fed-IsReady fl w (Message.error c t) h = h
fed-IsReady fl w Message.escape h = h

pub handle_local_input-IsCoherent :
    (fl : Floats) (now : ℕ) (w : World fl.F) (m : Message)
    → IsReady w
    → Ensures (λ u. IsCoherent (rest u)) (handle_local_input fl now w m)
unfolding handle_local_input
handle_local_input-IsCoherent fl now w m h =
    let w1 = feed fl w m in
    let k = fed-IsReady fl w m h in
    Ensures->>= (IsSoundFrom w1.session) _ (on_local_event fl now w1.session m) _
      (on_local_event-IsSound fl now w1.session m (ready-IsWellFormed w1 k))
      (λ r p. sound-IsCoherent now w1 r k.0 p)
