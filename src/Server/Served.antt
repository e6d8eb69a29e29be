-- ===== src/Server/Served.antt =====
-- crates/core/src/server: a server from its start on.
use kvmshare.Prelude.{All, Bool, List, [], ap, refl, some, subst, sym, ℕ, ◌≡◌}
use kvmshare.Layout.{Layout, find}
use kvmshare.Prelude.Run.{Ensures, Ensures->>=, done, expect}
use kvmshare.Protocol.Geometry.{Screen}
use kvmshare.Server.Coherent.{IsCoherent, IsKnown, IsLinked, latch_of}
use kvmshare.Server.Policy.{Policy}
use kvmshare.Server.Reach.{IsOrderly, IsRecorded, Reach, Reach-IsServed, Turn, take_turn}
use kvmshare.Server.Rest.{rest}
use kvmshare.Server.Start.{publish_chords, with_options}
use kvmshare.Server.World.{World, call_engine}
use kvmshare.Session.Placed.{core}
use kvmshare.Session.State.{Floats, Mode, Session, new_session}

started-IsCoherent :
    (fl : Floats) (s : Session fl.F) (policy : Policy) (events : Bool) (server_id : List ℕ)
    → IsLinked (core s)
    → s.cursor.mode ≡ Mode.local
    → s.connected ≡ []
    → IsCoherent (rest (publish_chords (with_options fl s policy events server_id)))
unfolding publish_chords with_options call_engine
started-IsCoherent fl s policy events server_id h m c = record {
  linked = h;
  latched = ap latch_of (sym m);
  held = refl;
  known = subst (All (IsKnown [] [])) (sym c) tt;
  registered = tt;
}

new_session-IsLinked :
    (fl : Floats) (l : Layout) (home : Screen)
    → find l 0 ≡ some home
    → Ensures
        (λ s. IsLinked (core s) × (s.cursor.mode ≡ Mode.local) × (s.connected ≡ []))
        (new_session fl l 0)
unfolding new_session
new_session-IsLinked fl l home e =
    Ensures->>= (λ sc. Unit {0}) _ (expect (find l 0)) _
      (subst (λ o. Ensures (λ (sc : Screen). Unit {0}) (expect o)) (sym e) tt)
      (λ sc p. (record { home = home; home_found = e; here = tt }, refl, refl))

-- A server that starts with a fresh session over a layout with its own screen, and whose threads
-- then take any turns in any order, is coherent: the latch of the active client is the session's
-- mode, the local input is grabbed, isolated and its cursor hidden exactly while a client has the
-- cursor, the cursor is at home or on a screen of the layout whose client is connected, and every
-- connected client is registered and has an address on record. The next turn is served without a
-- panic and keeps this, and a registration leaves the address of its own handshake on record. Each
-- handler is one turn; input and datagrams need screens with pixels and i32 edges, a registration
-- an id other than 0, and no cursor report comes over TCP.
pub new_session-IsServed :
    (fl : Floats) (l : Layout) (home : Screen) (s : Session fl.F) (policy : Policy) (events : Bool)
    (server_id : List ℕ) (w : World fl.F) (t : Turn fl)
    → find l 0 ≡ some home
    → new_session fl l 0 ≡ done s
    → Reach fl (publish_chords (with_options fl s policy events server_id)) w
    → IsOrderly fl w t
    → IsCoherent (rest w)
      × Ensures
          (λ u.
            Reach fl (publish_chords (with_options fl s policy events server_id)) u
            × IsCoherent (rest u)
            × IsRecorded fl t u)
          (take_turn fl w t)
new_session-IsServed fl l home s policy events server_id w t e made r p =
    let h =
      subst (Ensures (λ u. IsLinked (core u) × (u.cursor.mode ≡ Mode.local) × (u.connected ≡ [])))
        made (new_session-IsLinked fl l home e) in
    Reach-IsServed fl (publish_chords (with_options fl s policy events server_id)) w t
      (started-IsCoherent fl s policy events server_id h.0 h.1 h.2) r p
