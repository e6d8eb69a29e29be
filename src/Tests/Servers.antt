-- ===== src/Tests/Servers.antt =====
-- A server with one client, which has the cursor.
use kvmshare.Prelude.{
  Bool, List, [], arith, false, inl, none, refl, some, subst, sym, true, ℕ, ◌∙◌, ◌∷◌, ◌≡◌,
}
use kvmshare.Actions.{default_section}
use kvmshare.Actions.Engine.{new_engine}
use kvmshare.Layout.{find}
use kvmshare.Prelude.Clock.{millis}
use kvmshare.Prelude.I32.{add, half, wrap}
use kvmshare.Prelude.Int.{pos, ℤ, ◌+ℤ◌}
use kvmshare.Prelude.Maps.{lookup}
use kvmshare.Prelude.Run.{Ensures, done}
use kvmshare.Protocol.Geometry.{center}
use kvmshare.Protocol.Message.{Message}
use kvmshare.Server.Admission.{IsGuarded, exchange_hello-IsGuarded}
use kvmshare.Server.Coherent.{IsCoherent}
use kvmshare.Server.Datagrams.{check_staleness, receive}
use kvmshare.Server.Handshake.{exchange_hello}
use kvmshare.Server.IdLists.{set_id_lem}
use kvmshare.Server.Policy.{Addr, Ip, default_policy, ip_eq, is_revoked, set_id}
use kvmshare.Server.Races.{register_between}
use kvmshare.Server.Reach.{IsRecorded, Reach, Turn, take_turn}
use kvmshare.Server.Registry.{end_teardown, forget, register, release, session_drop, teardown}
use kvmshare.Server.Rest.{rest}
use kvmshare.Server.Served.{new_session-IsServed}
use kvmshare.Server.Spoof.{IsIgnored, IsRejected, receive_rejected}
use kvmshare.Server.Start.{publish_chords, with_options}
use kvmshare.Server.Superseded.{register-teardown}
use kvmshare.Server.Watchdog.{IsReleased, check_staleness-IsReleased}
use kvmshare.Server.World.{Client, EngineCall, World, call_engine}
use kvmshare.Session.Boundary.{no_walls}
use kvmshare.Session.State.{Mode, Session, default_prefs, is_connected, new_session}
use kvmshare.Tests.Sessions.{away, beside, beside_second, guest_info, home, home_first, two, whole}
use kvmshare.Tests.Wire.{motion, motion-Fits, motion-IsWire}
use kvmshare.Transport.{RecvResult}
use kvmshare.Udp.{pack, unpack}
use kvmshare.Udp.Envelope.{unpack-pack}

abbrev guest_client : Client
guest_client = record {
  conn = 0;
  id = 1;
  name = b'b' ∷ [];
  machine_id = 7 ∷ 7 ∷ 7 ∷ 7 ∷ [];
  since_ms = 0;
}

abbrev guest_ip : Ip
guest_ip = Ip.v4 192 168 1 5

abbrev serving : World ℤ
serving = record {
  session = away;
  clients = (1, guest_client) ∷ [];
  active = some 1;
  queues = (0, []) ∷ [];
  direct = [];
  next_conn = 1;
  addrs = [];
  seqs = [];
  last_heard = (1, 0) ∷ [];
  tcp_ips = (1, guest_ip) ∷ [];
  policy = default_policy;
  server_id = [];
  tracker = record { last = none; rel = (pos 0, pos 0); gain = pos 1; samples = 0 };
  engine = EngineCall.grab true ∷ EngineCall.isolate true ∷ EngineCall.show_cursor false ∷ [];
  has_events = true;
  events = [];
  clipboard = [];
}

serving-IsCoherent : IsCoherent (rest serving)
serving-IsCoherent = record {
  linked = record {
    home = home;
    home_found = home_first;
    here = (refl, refl, (beside, beside_second));
  };
  latched = refl;
  held = refl;
  known = (((guest_client, refl, refl), (guest_ip, refl)), tt);
  registered = ((refl, refl), tt);
}

check_staleness-IsReleased_example : Ensures (IsReleased 1) (check_staleness (millis 6000) serving)
check_staleness-IsReleased_example =
    check_staleness-IsReleased (millis 6000) serving 1 0 serving-IsCoherent refl refl refl

abbrev rejoining : RecvResult
rejoining = RecvResult.msg (Message.hello 3 (7 ∷ 7 ∷ 7 ∷ 7 ∷ []) (b'b' ∷ []) guest_info)

exchange_hello-IsGuarded_example :
    IsGuarded serving guest_ip rejoining (exchange_hello serving guest_ip rejoining)
exchange_hello-IsGuarded_example = exchange_hello-IsGuarded serving guest_ip rejoining

abbrev stranger : Addr
stranger = record { ip = Ip.v4 10 0 0 9; port = 4000 }

foreign_datagram : IsRejected serving stranger (unpack (pack 1 5 motion))
foreign_datagram =
    subst (IsRejected serving stranger)
      (sym (unpack-pack 1 5 motion (omega arith) motion-IsWire motion-Fits))
      (inl (λ known e same. other_machine (same ∙ sym (found_ip e))))
  where
    found_ip : {known : Ip} → some guest_ip ≡ some known → guest_ip ≡ known
    found_ip e = cc

    other_machine : ¬ stranger.ip ≡ guest_ip
    other_machine e =
        let same : ip_eq guest_ip stranger.ip ≡ true =
          subst (λ t. ip_eq t stranger.ip ≡ true) e refl in
        cc

receive_rejected_example :
    Ensures
      (IsIgnored serving stranger (unpack (pack 1 5 motion)))
      (receive 9 serving stranger (pack 1 5 motion))
receive_rejected_example = receive_rejected 9 serving stranger (pack 1 5 motion) foreign_datagram

abbrev back_again : World ℤ
back_again =
    register 9 serving 1 (7 ∷ 7 ∷ 7 ∷ 7 ∷ []) (b'b' ∷ []) guest_info false
      (record { ip = guest_ip; port = 5000 })

register-teardown_example :
    (teardown 10 back_again guest_client ≡ done back_again)
    × (end_teardown 10 back_again guest_client ≡ done back_again)
register-teardown_example =
    register-teardown 9 10 serving guest_client (7 ∷ 7 ∷ 7 ∷ 7 ∷ []) (b'b' ∷ []) guest_info false
      (record { ip = guest_ip; port = 5000 }) (omega arith)

abbrev short_form : List ℕ
short_form = 1 ∷ 2 ∷ 3 ∷ 4 ∷ []

abbrev full_form : List ℕ
full_form = 1 ∷ 2 ∷ 3 ∷ 4 ∷ 5 ∷ []

set_id_lem_example :
    (is_revoked
        (record default_policy { revoked_ids = set_id (full_form ∷ []) short_form true })
        short_form
      ≡ true)
    × (is_revoked
          (record default_policy { revoked_ids = set_id (full_form ∷ []) short_form false })
          short_form
        ≡ false)
    × ((before now : Bool)
        → set_id (set_id (full_form ∷ []) short_form before) short_form now
          ≡ set_id (full_form ∷ []) short_form now)
set_id_lem_example = set_id_lem default_policy (full_form ∷ []) short_form (omega arith)

abbrev fresh : Session ℤ
fresh = record {
  layout = two;
  cursor = record { x = pos 960; y = pos 540; mode = Mode.local };
  local = home.rect;
  at_wall = no_walls;
  last_out = none;
  pushing = none;
  remote_at_wall = no_walls;
  remote_beacon_at = none;
  remote_last_out = none;
  remote_pushing = none;
  gain = pos 1;
  gain_rem = (pos 0, pos 0);
  dynamic = [];
  connected = [];
  actions = new_engine default_section;
  walls_locked = false;
  prefs = default_prefs whole;
}

fresh_made : new_session whole two 0 ≡ done fresh
unfolding new_session find center add wrap ◌+ℤ◌ half
fresh_made = refl

abbrev started : World ℤ
started = publish_chords (with_options whole fresh default_policy true [])

abbrev first_turn : Turn whole
first_turn =
    Turn.registration 5 1 (7 ∷ []) (b'b' ∷ []) guest_info false
      (record { ip = guest_ip; port = 5000 })

new_session-IsServed_example :
    IsCoherent (rest started)
    × Ensures
        (λ u. Reach whole started u × IsCoherent (rest u) × IsRecorded whole first_turn u)
        (take_turn whole started first_turn)
unfolding publish_chords call_engine with_options
new_session-IsServed_example =
    new_session-IsServed whole two home fresh default_policy true [] started first_turn home_first
      fresh_made Reach.begin refl

register_between_example :
    Ensures
      (λ v. ((new : Client) × (lookup 1 v.clients ≡ some new)) × (is_connected v.session 1 ≡ false))
      (session_drop 10
        (release
          (register 9
            (forget serving 1)
            1
            (7 ∷ [])
            (b'b' ∷ [])
            guest_info
            false
            (record { ip = guest_ip; port = 5000 }))
          1)
        1)
register_between_example =
    register_between 9 10 serving 1 (7 ∷ []) (b'b' ∷ []) guest_info false
      (record { ip = guest_ip; port = 5000 }) serving-IsCoherent.linked
