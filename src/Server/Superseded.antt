-- ===== src/Server/Superseded.antt =====
-- crates/core/src/server/client.rs: the end of a connection that a newer one has replaced.
use kvmshare.Prelude.{
  Bool, List, Option, ap, arith, false, if◌then◌else◌, none, refl, some, true, ℕ, ◌<◌, ◌==◌, ◌∙◌,
  ◌≡◌,
}
use kvmshare.Prelude.Clock.{now_ms}
use kvmshare.Prelude.Maps.{insert, lookup, lookup-insert_same}
use kvmshare.Prelude.Run.{done}
use kvmshare.Protocol.Geometry.{ScreenInfo}
use kvmshare.Protocol.Message.{Message}
use kvmshare.Server.Policy.{Addr, Ip}
use kvmshare.Server.Registry.{
  begin_teardown, disconnect_command, end_teardown, is_registered, register, replace_old, same_conn,
  teardown,
}
use kvmshare.Server.Rest.{Rest, broadcast-rest, emit-rest, rest, try_send-rest}
use kvmshare.Server.World.{Client, World, broadcast, route, try_send}
use kvmshare.Session.Clients.{on_client_connected, update_screen_info}

module _ {F : Type 0} where
  replace_old-rest : (w : World F) (id : ℕ) (o : Option Client) → rest (replace_old w id o) ≡ rest w
  replace_old-rest w id none = refl
  replace_old-rest w id (some old) =
      let leaving = route (Message.leave id) in
      try_send-rest (try_send w old.conn leaving) old.conn
        (route (Message.control disconnect_command))
      ∙ try_send-rest w old.conn leaving

  broadcast_if-rest :
      (w : World F) (msg : Message) (b : Bool) → rest (if b then broadcast w msg else w) ≡ rest w
  broadcast_if-rest w msg true = broadcast-rest w msg
  broadcast_if-rest w msg false = refl

  -- What a registration leaves in the part of the state that decides who has the cursor.
  abbrev pub registered_rest : ℕ → Rest F → ℕ → ℕ → List ℕ → List ℕ → ScreenInfo → Ip → Rest F
  registered_rest now r conn id machine_id name info ip = record r {
    session = on_client_connected (update_screen_info r.session id info) id;
    tcp_ips = insert id ip r.tcp_ips;
    clients =
        insert id
          (record {
            conn = conn;
            id = id;
            name = name;
            machine_id = machine_id;
            since_ms = now_ms now;
          })
          r.clients;
  }

  pub register-rest :
      (now : ℕ) (w : World F) (id : ℕ) (machine_id name : List ℕ) (info : ScreenInfo)
      (admitted : Bool) (peer : Addr)
      → rest (register now w id machine_id name info admitted peer)
        ≡ registered_rest now (rest w) w.next_conn id machine_id name info peer.ip
  unfolding register
  register-rest now w id machine_id name info admitted peer =
      broadcast_if-rest _ _ admitted
      ∙ emit-rest _ _
      ∙ ap (λ (r : Rest F). record r { session = on_client_connected r.session id })
          (replace_old-rest _ id _)

  pub register-lookup :
      (now : ℕ) (w : World F) (id : ℕ) (machine_id name : List ℕ) (info : ScreenInfo)
      (admitted : Bool) (peer : Addr)
      → lookup id (register now w id machine_id name info admitted peer).clients
        ≡ some (record {
          conn = w.next_conn;
          id = id;
          name = name;
          machine_id = machine_id;
          since_ms = now_ms now;
        })
  register-lookup now w id machine_id name info admitted peer =
      ap (λ (r : Rest F). lookup id r.clients)
        (register-rest now w id machine_id name info admitted peer)
      ∙ lookup-insert_same id _ w.clients

  -- Another connection is registered under the id.
  unregistered :
      (w : World F) (c new : Client)
      → lookup c.id w.clients ≡ some new
      → (new.conn == c.conn) ≡ false
      → is_registered w c ≡ false
  unfolding is_registered
  unregistered w c new e n = ap (same_conn c.conn) e ∙ n

  teardown_unregistered :
      (now : ℕ) (w : World F) (c : Client)
      → is_registered w c ≡ false
      → (teardown now w c ≡ done w) × (end_teardown now w c ≡ done w)
  unfolding teardown begin_teardown end_teardown
  teardown_unregistered now w c e = (rw e refl, rw e refl)

  -- When a client has registered again under its id, the end of its older connection changes
  -- nothing, whether its `teardown` begins after the registration or was past its first look at the
  -- registration before it. The older connection's number has to be below the next one to be given
  -- out.
  pub register-teardown :
      (now later : ℕ) (w : World F) (c : Client) (machine_id name : List ℕ) (info : ScreenInfo)
      (admitted : Bool) (peer : Addr)
      → c.conn < w.next_conn
      → (teardown later (register now w c.id machine_id name info admitted peer) c
          ≡ done (register now w c.id machine_id name info admitted peer))
        × (end_teardown later (register now w c.id machine_id name info admitted peer) c
            ≡ done (register now w c.id machine_id name info admitted peer))
  register-teardown now later w c machine_id name info admitted peer h =
      teardown_unregistered later (register now w c.id machine_id name info admitted peer) c (
        unregistered _ c _ (register-lookup now w c.id machine_id name info admitted peer)
          (ground arith))
