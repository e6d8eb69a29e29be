-- ===== src/Server/World.antt =====
-- crates/core/src/server: the state that the server's threads share.
use kvmshare.Prelude.{Bool, List, Option, [], if◌then◌else◌, length, ltb, none, some, ℕ, ◌++◌, ◌∷◌}
use kvmshare.Pointer.Gain.{GainTracker}
use kvmshare.Prelude.Int.{ℤ}
use kvmshare.Prelude.Maps.{insert, lookup}
use kvmshare.Protocol.Geometry.{ScreenInfo, WireLayout}
use kvmshare.Protocol.Message.{Message}
use kvmshare.Server.Policy.{Addr, Ip, Policy}
use kvmshare.Session.State.{Session}

-- `Outbound`.
pub data Outbound : Type 0 where
  tcp : Message → Outbound
  udp : Message → Outbound

unfoldable pub route : Message → Outbound
route (Message.mouse_move_rel dx dy) = Outbound.udp (Message.mouse_move_rel dx dy)
route m = Outbound.tcp m

-- `Client`; `conn` is the identity of the `Arc` and of its outbound queue.
pub record Client : Type 0 where
  pub conn : ℕ
  pub id : ℕ
  pub name : List ℕ
  pub machine_id : List ℕ
  pub since_ms : ℕ

-- The calls of the platform's `Engine`.
pub data EngineCall : Type 0 where
  warp : ℤ → ℤ → EngineCall
  grab : Bool → EngineCall
  isolate : Bool → EngineCall
  show_cursor : Bool → EngineCall
  bound : List (ℕ × ℕ) → EngineCall

pub data ServerEvent : Type 0 where
  client_connected : List ℕ → List ℕ → Addr → ℕ → ScreenInfo → ServerEvent
  client_disconnected : List ℕ → ServerEvent
  control_changed : Bool → ServerEvent

-- `Server` and `ClientCtx`. `queues` holds what waits for the writer of a connection, and no pair for
-- a writer that has ended; `engine`, `events` and `clipboard` are the calls and events so far, and
-- `direct` what was sent on a connection before its writer began.
pub record World (F : Type 0) : Type 0 where
  pub session : Session F
  pub clients : List (ℕ × Client)
  pub active : Option ℕ
  pub queues : List (ℕ × List Outbound)
  pub direct : List (ℕ × Message)
  pub next_conn : ℕ
  pub addrs : List (ℕ × Addr)
  pub seqs : List (ℕ × ℕ)
  pub last_heard : List (ℕ × ℕ)
  pub tcp_ips : List (ℕ × Ip)
  pub policy : Policy
  pub server_id : List ℕ
  pub tracker : GainTracker F
  pub engine : List EngineCall
  pub has_events : Bool
  pub events : List ServerEvent
  pub clipboard : List (List ℕ × List ℕ)

abbrev pub out_queue_cap : ℕ
out_queue_cap = 1024

-- `try_send`: an item that finds the queue full, or the writer gone, is dropped.
abbrev pub push_to : {F : Type 0} → World F → ℕ → Outbound → Option (List Outbound) → World F
push_to w conn item none = w
push_to w conn item (some q) =
    if ltb (length q) out_queue_cap
    then record w { queues = insert conn (q ++ item ∷ []) w.queues }
    else w

module _ {F : Type 0} where
  unfoldable pub try_send : World F → ℕ → Outbound → World F
  try_send w conn item = push_to w conn item (lookup conn w.queues)

  abbrev pub enqueue_to : World F → Message → Option Client → World F
  enqueue_to w msg none = w
  enqueue_to w msg (some c) = try_send w c.conn (route msg)

  unfoldable pub enqueue : World F → ℕ → Message → World F
  enqueue w id msg = enqueue_to w msg (lookup id w.clients)

  -- The `for c in clients.values()` of a broadcast.
  unfoldable pub send_each : World F → Message → List (ℕ × Client) → World F
  send_each w msg [] = w
  send_each w msg (p ∷ ps) = send_each (try_send w p.1.conn (route msg)) msg ps

  unfoldable pub broadcast : World F → Message → World F
  broadcast w msg = send_each w msg w.clients

  unfoldable pub emit : World F → ServerEvent → World F
  emit w e = if w.has_events then record w { events = w.events ++ e ∷ [] } else w

  unfoldable pub call_engine : World F → List EngineCall → World F
  call_engine w calls = record w { engine = w.engine ++ calls }

  unfoldable pub layout_snapshot : World F → WireLayout
  layout_snapshot w = record { screens = w.session.layout.screens }
