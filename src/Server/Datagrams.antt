-- ===== src/Server/Datagrams.antt =====
-- crates/core/src/server/udp.rs: the receiver of the cursor stream and its watchdog. `last_heard`
-- holds milliseconds.
use kvmshare.Prelude.{Bool, List, Option, false, if◌then◌else◌, leb, none, some, ℕ, ◌-◌}
use kvmshare.Prelude.Clock.{now_ms}
use kvmshare.Prelude.Int.{ℤ}
use kvmshare.Prelude.Maps.{insert, lookup, remove}
use kvmshare.Prelude.Run.{Run, done, ◌>>=◌}
use kvmshare.Protocol.Message.{Message}
use kvmshare.Server.Apply.{apply_all}
use kvmshare.Server.Policy.{Addr, Ip, addr_eq, ip_eq}
use kvmshare.Server.Registry.{release, session_drop, teardown}
use kvmshare.Server.World.{Client, World}
use kvmshare.Session.Beacon.{on_remote_beacon}
use kvmshare.Udp.{Datagram, is_newer, unpack}

-- `ACTIVE_BEACON_TIMEOUT`, in milliseconds.
abbrev pub active_beacon_timeout : ℕ
active_beacon_timeout = 5000

-- The id names a connected client, and the datagram comes from the machine of its handshake.
abbrev pub is_from : Ip → Option Ip → Bool
is_from ip none = false
is_from ip (some known) = ip_eq ip known

-- `seqs.entry(id).or_default()`.
abbrev pub or_default : Option ℕ → ℕ
or_default none = 0
or_default (some n) = n

module _ {F : Type 0} where
  -- The port is learned, or the new source adopted with a new sequence space.
  abbrev pub learn_from : World F → ℕ → Addr → Option Addr → World F
  learn_from w id source none = record w { addrs = insert id source w.addrs }
  learn_from w id source (some known) =
      if addr_eq known source
      then w
      else record w { seqs = remove id w.seqs; addrs = insert id source w.addrs }

  unfoldable pub learn : World F → ℕ → Addr → World F
  learn w id source = learn_from w id source (lookup id w.addrs)

  unfoldable pub take_beacon : ℕ → World F → ℕ → ℕ → ℤ → ℤ → Run (World F)
  take_beacon now w id seq x y =
      let seen = or_default (lookup id w.seqs) in
      if is_newer seq seen
      then (do
        r ← on_remote_beacon now w.session id x y
        done (apply_all now (record w { seqs = insert id seq w.seqs; session = r.0 }) r.1))
      else done (record w { seqs = insert id seen w.seqs })

  abbrev pub dispatch_datagram : ℕ → World F → Datagram → Message → Run (World F)
  dispatch_datagram now w d (Message.cursor_pos x y) = take_beacon now w d.id d.seq x y
  dispatch_datagram now w d _ = done w

  abbrev pub receive_from : ℕ → World F → Addr → Option Datagram → Run (World F)
  receive_from now w source none = done w
  receive_from now w source (some d) =
      if is_from source.ip (lookup d.id w.tcp_ips)
      then dispatch_datagram now
          (learn (record w { last_heard = insert d.id (now_ms now) w.last_heard }) d.id source) d
          d.msg
      else done w

  -- One datagram in the loop of `udp_receiver`.
  unfoldable pub receive : ℕ → World F → Addr → List ℕ → Run (World F)
  receive now w source bytes = receive_from now w source (unpack bytes)

  abbrev pub drop_silent : ℕ → World F → ℕ → Option Client → Run (World F)
  drop_silent now w id (some c) = teardown now w c
  drop_silent now w id none = session_drop now (release w id) id

  abbrev pub check_heard : ℕ → World F → ℕ → Option ℕ → Run (World F)
  check_heard now w id none = done w
  check_heard now w id (some heard) =
      if leb (now_ms now - heard) active_beacon_timeout
      then done w
      else drop_silent now w id (lookup id w.clients)

  abbrev pub check_active : ℕ → World F → Option ℕ → Run (World F)
  check_active now w none = done w
  check_active now w (some id) = check_heard now w id (lookup id w.last_heard)

  -- `check_active_beacon_staleness`, on an idle wake.
  unfoldable pub check_staleness : ℕ → World F → Run (World F)
  check_staleness now w = check_active now w w.active
