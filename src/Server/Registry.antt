-- ===== src/Server/Registry.antt =====
-- crates/core/src/server/client.rs, mod.rs: clients that register and go.
use kvmshare.Prelude.{
  Bool, List, Option, [], false, if◌then◌else◌, none, some, true, ℕ, ◌++◌, ◌+◌, ◌==◌, ◌∷◌,
}
use kvmshare.Prelude.Clock.{now_ms}
use kvmshare.Prelude.Maps.{insert, lookup, remove}
use kvmshare.Prelude.Run.{Run, done, ◌>>=◌}
use kvmshare.Protocol.Geometry.{ScreenInfo}
use kvmshare.Protocol.Ids.{protocol_version}
use kvmshare.Protocol.Message.{Message}
use kvmshare.Server.Apply.{apply_action}
use kvmshare.Server.Policy.{Addr}
use kvmshare.Server.World.{
  Client, ServerEvent, World, broadcast, emit, enqueue, layout_snapshot, route, try_send,
}
use kvmshare.Session.Clients.{
  on_client_connected, on_client_disconnected, on_client_removed, update_screen_info,
}
use kvmshare.Session.State.{Action, Step}

-- `id::control`.
abbrev pub disconnect_command : ℕ
disconnect_command = 1

abbrev pub reconnect_command : ℕ
reconnect_command = 2

-- `Arc::ptr_eq` with the client registered under the id.
abbrev pub same_conn : ℕ → Option Client → Bool
same_conn conn none = false
same_conn conn (some c) = c.conn == conn

abbrev pub is_client : ℕ → Option ℕ → Bool
is_client id none = false
is_client id (some a) = a == id

module _ {F : Type 0} where
  unfoldable pub is_registered : World F → Client → Bool
  is_registered w c = same_conn c.conn (lookup c.id w.clients)

  -- The removals by id.
  unfoldable pub forget : World F → ℕ → World F
  forget w id = record w {
    clients = remove id w.clients;
    tcp_ips = remove id w.tcp_ips;
    addrs = remove id w.addrs;
    seqs = remove id w.seqs;
    last_heard = remove id w.last_heard;
  }

  -- `if *act == Some(id) { *act = None }`.
  unfoldable pub release : World F → ℕ → World F
  release w id = if is_client id w.active then record w { active = none } else w

  -- `if let Action::SwitchToLocal { .. } = action`.
  abbrev pub apply_home : ℕ → World F → List Action → World F
  apply_home now w (Action.switch_to_local x y ∷ acts) =
      apply_action now w (Action.switch_to_local x y)
  apply_home now w _ = w

  -- The session learns that the client is gone, and the cursor comes home if it was there.
  unfoldable pub session_drop : ℕ → World F → ℕ → Run (World F)
  session_drop now w id = do
    r ← on_client_disconnected w.session id
    done (apply_home now (record w { session = r.0 }) r.1)

  -- The last words of `teardown`, on the client's own queue.
  unfoldable pub farewell : World F → Client → ℕ → World F
  farewell w c command =
      try_send (try_send w c.conn (route (Message.leave c.id))) c.conn
        (route (Message.control command))

  -- The part of `teardown` behind its second look at the registration.
  abbrev pub finish_teardown : ℕ → World F → Client → Bool → Run (World F)
  finish_teardown now w c false = done w
  finish_teardown now w c true =
      session_drop now
        (release (emit (forget w c.id) (ServerEvent.client_disconnected c.name)) c.id) c.id

  -- The two critical sections of `ClientCtx::teardown`: the check with the last words, and the rest.
  unfoldable pub begin_teardown : World F → Client → World F × Bool
  begin_teardown w c =
      if is_registered w c then (farewell w c reconnect_command, true) else (w, false)

  unfoldable pub end_teardown : ℕ → World F → Client → Run (World F)
  end_teardown now w c = finish_teardown now w c (is_registered w c)

  abbrev pub teardown_rest : ℕ → Client → World F × Bool → Run (World F)
  teardown_rest now c (w, false) = done w
  teardown_rest now c (w, true) = end_teardown now w c

  unfoldable pub teardown : ℕ → World F → Client → Run (World F)
  teardown now w c = teardown_rest now c (begin_teardown w c)

  -- `disconnect_client_inner`, where `remove_screen` also drops the screen from the desktop.
  unfoldable pub drop_from_session : World F → ℕ → Bool → Step F
  drop_from_session w id true = on_client_removed w.session id
  drop_from_session w id false = on_client_disconnected w.session id

  abbrev pub disconnect_found : ℕ → World F → ℕ → Bool → Option Client → Run (World F)
  disconnect_found now w id remove_screen none = done w
  disconnect_found now w id remove_screen (some c) =
      let w1 = enqueue (enqueue w id (Message.leave id)) id (Message.control disconnect_command) in
      let w2 = forget w1 id in
      do
        r ← drop_from_session w2 id remove_screen
        done (
            emit (apply_home now (release (record w2 { session = r.0 }) id) r.1)
              (ServerEvent.client_disconnected c.name))

  unfoldable pub disconnect_client : ℕ → World F → ℕ → Bool → Run (World F)
  disconnect_client now w id remove_screen =
      disconnect_found now w id remove_screen (lookup id w.clients)

  -- `for id in ids { self.disconnect_client(id) }`.
  unfoldable pub disconnect_each : ℕ → World F → List ℕ → Bool → Run (World F)
  disconnect_each now w [] remove_screen = done w
  disconnect_each now w (id ∷ ids) remove_screen = do
    w' ← disconnect_client now w id remove_screen
    disconnect_each now w' ids remove_screen

  -- The stale connection that a new one replaces is told to end.
  abbrev pub replace_old : World F → ℕ → Option Client → World F
  replace_old w id none = w
  replace_old w id (some old) =
      try_send (try_send w old.conn (route (Message.leave id))) old.conn
        (route (Message.control disconnect_command))

  -- `Client::spawn` after the handshake: the welcome, the queue, the registration, the session and
  -- the other clients.
  unfoldable pub register : ℕ → World F → ℕ → List ℕ → List ℕ → ScreenInfo → Bool → Addr → World F
  register now w id machine_id name info admitted peer =
      let conn = w.next_conn in
      let c : Client = record {
        conn = conn;
        id = id;
        name = name;
        machine_id = machine_id;
        since_ms = now_ms now;
      } in
      let w1 = record w { session = update_screen_info w.session id info; next_conn = conn + 1 } in
      let w2 = record w1 {
        direct =
            w1.direct
            ++ (conn, Message.welcome protocol_version w1.server_id (layout_snapshot w1) id) ∷ [];
        queues = insert conn [] w1.queues;
        tcp_ips = insert id peer.ip w1.tcp_ips;
        clients = insert id c w1.clients;
      } in
      let w3 = replace_old w2 id (lookup id w.clients) in
      let w4 = record w3 { session = on_client_connected w3.session id } in
      let w5 = emit w4 (ServerEvent.client_connected name machine_id peer (now_ms now) info) in
      if admitted then broadcast w5 (Message.layout (layout_snapshot w5)) else w5
