-- ===== src/Server/Inbound.antt =====
-- crates/core/src/server/client.rs: the reader of a client's control channel, and its writer.
use kvmshare.Prelude.{List, Option, [], if◌then◌else◌, ltb, none, some, ℕ, ◌%◌, ◌++◌, ◌+◌, ◌^◌, ◌∷◌}
use kvmshare.Prelude.Clock.{elapsed, millis}
use kvmshare.Prelude.Maps.{insert, lookup}
use kvmshare.Prelude.Run.{Run, done, ◌>>=◌}
use kvmshare.Protocol.Message.{Message}
use kvmshare.Server.Policy.{Addr}
use kvmshare.Server.Registry.{teardown}
use kvmshare.Server.World.{Client, Outbound, World, enqueue, layout_snapshot}
use kvmshare.Session.Beacon.{on_remote_beacon}
use kvmshare.Session.Clients.{update_screen_info}
use kvmshare.Transport.{RecvResult}
use kvmshare.Udp.{pack}

-- `CLIENT_SILENT_TIMEOUT`.
abbrev pub client_silent_timeout : ℕ
client_silent_timeout = millis 10000

module _ {F : Type 0} where
  -- `handle_client_message`; the actions of a beacon on this channel are dropped.
  unfoldable pub handle_client_message : ℕ → World F → Client → Message → Run (World F)
  handle_client_message now w c (Message.screen_info info) =
      let w1 = record w { session = update_screen_info w.session c.id info } in
      done (enqueue w1 c.id (Message.layout (layout_snapshot w1)))
  handle_client_message now w c (Message.clipboard mime content) =
      done (record w { clipboard = w.clipboard ++ (mime, content) ∷ [] })
  handle_client_message now w c (Message.cursor_pos x y) = do
    r ← on_remote_beacon now w.session c.id x y
    done (record w { session = r.0 })
  handle_client_message now w c _ = done w

  -- A round of the loop of `service_client`, `last_seen` the time of the last message: the new world,
  -- with the time of the last message while the loop goes on.
  unfoldable pub service_round : ℕ → World F → Client → ℕ → RecvResult → Run (World F × Option ℕ)
  service_round now w c last_seen (RecvResult.msg m) = do
    w' ← handle_client_message now w c m
    done (w', some now)
  service_round now w c last_seen RecvResult.no_data =
      if ltb client_silent_timeout (elapsed now last_seen)
      then (do w' ← teardown now w c; done (w', none))
      else done (w, some last_seen)
  service_round now w c last_seen RecvResult.waiting = done (w, some last_seen)
  service_round now w c last_seen RecvResult.eof = do w' ← teardown now w c; done (w', none)
  service_round now w c last_seen (RecvResult.failure e) = do w' ← teardown now w c; done (w', none)

-- `rx.recv()` of a connection's writer: the front of its queue.
abbrev pub front_of :
    {F : Type 0} → World F → ℕ → Option (List Outbound) → World F × Option Outbound
front_of w conn (some (item ∷ items)) =
    (record w { queues = insert conn items w.queues }, some item)
front_of w conn _ = (w, none)

unfoldable pub next_item : {F : Type 0} → World F → ℕ → World F × Option Outbound
next_item w conn = front_of w conn (lookup conn w.queues)

-- What the writer puts on its two links.
pub data Sent : Type 0 where
  on_tcp : Message → Sent
  on_udp : Addr → List ℕ → Sent

-- One item of the loop of `spawn_writer`: the next sequence number, and what is sent. Motion before
-- the address is known is dropped.
unfoldable pub write_item : ℕ → ℕ → Option Addr → Outbound → ℕ × Option Sent
write_item id seq to (Outbound.tcp m) = (seq, some (on_tcp m))
write_item id seq none (Outbound.udp m) = (seq, none)
write_item id seq (some to) (Outbound.udp m) =
    ((seq + 1) % 2 ^ 32, some (on_udp to (pack id seq m)))
