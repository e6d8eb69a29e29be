-- ===== src/Server/Watchdog.antt =====
-- crates/core/src/server/udp.rs: the watchdog takes the cursor back from a silent client.
use kvmshare.Prelude.{
  ==_iff, Bool, ap, arith, false, if◌then◌else◌, leb, none, refl, some, subst, sym, true, ℕ, ◌-◌,
  ◌∙◌, ◌≡◌,
}
use kvmshare.Prelude.Clock.{now_ms}
use kvmshare.Prelude.Maps.{lookup}
use kvmshare.Prelude.Run.{Ensures, Ensures-map, done}
use kvmshare.Server.Coherent.{IsCoherent, free_machine, latch_of, machine_for, operate}
use kvmshare.Server.Datagrams.{
  active_beacon_timeout, check_active, check_heard, check_staleness, drop_silent,
}
use kvmshare.Server.Departures.{active-IsKnown, farewell-rest, finish_teardown-IsGone}
use kvmshare.Server.Leaves.{IsGone}
use kvmshare.Server.Registry.{
  begin_teardown, end_teardown, farewell, finish_teardown, is_client, is_registered,
  reconnect_command, same_conn, teardown, teardown_rest,
}
use kvmshare.Server.Rest.{Rest, rest}
use kvmshare.Server.World.{Client, World}
use kvmshare.Session.State.{Mode}

-- The cursor is at home, the local machine free, and the client gone.
pub record IsReleased {F : Type 0} (id : ℕ) (u : World F) : Type 0 where
  pub coherent : IsCoherent (rest u)
  pub at_home : u.session.cursor.mode ≡ Mode.local
  pub unlatched : u.active ≡ none
  pub free : operate free_machine u.engine ≡ free_machine
  pub unlisted : lookup id u.clients ≡ none

latch_of-local : (m : Mode) → latch_of m ≡ none → m ≡ Mode.local
latch_of-local Mode.local e = refl
latch_of-local (Mode.remote id) e = cc

module _ {F : Type 0} where
  gone-IsReleased :
      (r : Rest F) (id : ℕ) (u : World F)
      → r.active ≡ some id
      → IsGone r id (rest u)
      → IsReleased id u
  gone-IsReleased r id u e g =
      let out : u.active ≡ none =
        g.unlatched ∙ ap (λ o. if is_client id o then none else o) e ∙ ground arith in
      record {
        coherent = g.coherent;
        at_home = latch_of-local u.session.cursor.mode (sym g.coherent.latched ∙ out);
        unlatched = out;
        free = g.coherent.held ∙ ap machine_for out;
        unlisted = g.unlisted;
      }

  -- The registered client's own connection ends: it is gone.
  teardown-IsGone :
      (now : ℕ) (w : World F) (c : Client)
      → IsCoherent (rest w)
      → lookup c.id w.clients ≡ some c
      → Ensures (λ u. IsGone (rest w) c.id (rest u)) (teardown now w c)
  unfolding teardown begin_teardown end_teardown is_registered
  teardown-IsGone now w c h e =
      let w1 = farewell w c reconnect_command in
      let same = farewell-rest w c reconnect_command in
      let first : same_conn c.conn (lookup c.id w.clients) ≡ true =
        ap (same_conn c.conn) e ∙ (==_iff c.conn c.conn).1 refl in
      let again : same_conn c.conn (lookup c.id w1.clients) ≡ true =
        ap (λ (r : Rest F). same_conn c.conn (lookup c.id r.clients)) same ∙ first in
      subst
        (λ b.
          Ensures (λ u. IsGone (rest w) c.id (rest u))
            (teardown_rest now c (if b then (w1, true) else (w, false))))
        (sym first)
        (subst (λ b. Ensures (λ u. IsGone (rest w) c.id (rest u)) (finish_teardown now w1 c b))
          (sym again)
          (subst (λ r. Ensures (λ u. IsGone r c.id (rest u)) (finish_teardown now w1 c true)) same
            (finish_teardown-IsGone now w1 c (subst IsCoherent (sym same) h))))

  -- In a coherent server, when the client that has the cursor was last heard more than five seconds
  -- ago, the next idle wake of the watchdog brings the cursor home: the session is local, nobody is
  -- latched, the local machine is free, the client is no longer registered, and the server is still
  -- coherent.
  pub check_staleness-IsReleased :
      (now : ℕ) (w : World F) (id heard : ℕ)
      → IsCoherent (rest w)
      → w.active ≡ some id
      → lookup id w.last_heard ≡ some heard
      → leb (now_ms now - heard) active_beacon_timeout ≡ false
      → Ensures (IsReleased id) (check_staleness now w)
  unfolding check_staleness
  check_staleness-IsReleased now w id heard h e at late =
      let ((c, found, own), met) = active-IsKnown (rest w) id h e in
      subst (λ o. Ensures (IsReleased id) (check_active now w o)) (sym e)
        (subst (λ o. Ensures (IsReleased id) (check_heard now w id o)) (sym at)
          (subst
            (λ (b : Bool).
              Ensures (IsReleased id)
                (if b then done w else drop_silent now w id (lookup id w.clients)))
            (sym late)
            (subst (λ o. Ensures (IsReleased id) (drop_silent now w id o)) (sym found)
              (subst (λ n. Ensures (IsReleased n) (teardown now w c)) own
                (Ensures-map (λ (u : World F). IsGone (rest w) c.id (rest u)) _ (teardown now w c)
                  (teardown-IsGone now w c h (ap (λ n. lookup n w.clients) own ∙ found))
                  (λ u g. gone-IsReleased (rest w) c.id u (e ∙ ap some (sym own)) g))))))
