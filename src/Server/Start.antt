-- ===== src/Server/Start.antt =====
-- crates/core/src/server/mod.rs: the state that a server starts with.
use kvmshare.Prelude.{Bool, List, [], none, ℕ, ◌∷◌}
use kvmshare.Pointer.Gain.{new_tracker}
use kvmshare.Server.Policy.{Policy}
use kvmshare.Server.World.{EngineCall, World, call_engine}
use kvmshare.Session.State.{Floats, Session, bound_chords}

-- `Server::with_options`, without its sockets and channels.
unfoldable pub with_options : (fl : Floats) → Session fl.F → Policy → Bool → List ℕ → World fl.F
with_options fl s policy events server_id = record {
  session = s;
  clients = [];
  active = none;
  queues = [];
  direct = [];
  next_conn = 0;
  addrs = [];
  seqs = [];
  last_heard = [];
  tcp_ips = [];
  policy = policy;
  server_id = server_id;
  tracker = new_tracker fl;
  engine = [];
  has_events = events;
  events = [];
  clipboard = [];
}

-- `run` publishes the chords before its threads start.
unfoldable pub publish_chords : {F : Type 0} → World F → World F
publish_chords w = call_engine w (EngineCall.bound (bound_chords w.session) ∷ [])
