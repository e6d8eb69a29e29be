-- ===== src/Server/Departures.antt =====
-- crates/core/src/server: every way in which a client leaves keeps the server coherent.
use kvmshare.Prelude.{
  ==_iff, All, Bool, Bool-cases, List, Option, [], any, ap, false, if◌then◌else◌, inl, inr, leb,
  none, refl, some, subst, sym, true, ℕ, ◌-◌, ◌==◌, ◌∙◌, ◌∷◌, ◌≡◌,
}
use kvmshare.Layout.{Layout}
use kvmshare.Prelude.Clock.{now_ms}
use kvmshare.Prelude.Maps.{lookup}
use kvmshare.Prelude.Run.{Ensures, Ensures->>=, Ensures-if, Ensures-map, done}
use kvmshare.Protocol.Message.{Message}
use kvmshare.Server.Coherent.{IsCoherent, IsEntry, IsKnown, IsLinked, latch_of}
use kvmshare.Server.Datagrams.{
  active_beacon_timeout, check_active, check_heard, check_staleness, drop_silent,
}
use kvmshare.Server.Drops.{IsDropped, drop_from_session-IsDropped}
use kvmshare.Server.Leaves.{
  IsGone, apply_home-all, dropped-IsCoherent, forgotten, release-rest, released,
  session_drop-IsGone,
}
use kvmshare.Server.Registry.{
  begin_teardown, disconnect_client, disconnect_command, disconnect_each, disconnect_found,
  drop_from_session, end_teardown, farewell, finish_teardown, forget, is_registered,
  reconnect_command, release, teardown, teardown_rest,
}
use kvmshare.Server.Rest.{Rest, act_on_all, emit-rest, enqueue-rest, rest, try_send-rest}
use kvmshare.Server.World.{Client, ServerEvent, World, emit, enqueue, route}
use kvmshare.Session.Placed.{core}
use kvmshare.Session.Sound.{IsHere}
use kvmshare.Session.State.{Mode}

pub lookup-entry :
    (id : ℕ) (ps : List (ℕ × Client)) (c : Client)
    → All IsEntry ps
    → lookup id ps ≡ some c
    → ((id == 0) ≡ false) × (c.id ≡ id)
lookup-entry id [] c h e = cc
lookup-entry id (p ∷ ps) c h e = elim (Bool-cases (p.0 == id)) [
  | inl hit ↦
      let same : p.0 ≡ id = (==_iff p.0 id).0 hit in
      let e' : some p.1 ≡ some c = rw hit at e in
      let own : p.1 ≡ c = cc in
      (subst (λ n. (n == 0) ≡ false) same h.0.0, ap (λ (k : Client). k.id) (sym own) ∙ h.0.1 ∙ same)
  | inr miss ↦ lookup-entry id ps c h.1 (rw miss at e)
]

All-any : (P : ℕ → Type 0) (id : ℕ) (cs : List ℕ) → All P cs → any (λ c. c == id) cs ≡ true → P id
All-any P id [] h e = cc
All-any P id (c ∷ cs) h e = elim (Bool-cases (c == id)) [
  | inl hit ↦ subst P ((==_iff c id).0 hit) h.0
  | inr miss ↦ All-any P id cs h.1 (rw miss at e)
]

here_known :
    (P : ℕ → Type 0) (l : Layout) (cs : List ℕ) (m : Mode) (id : ℕ)
    → All P cs
    → IsHere l cs m
    → latch_of m ≡ some id
    → P id
here_known P l cs Mode.local id h here e = cc
here_known P l cs (Mode.remote k) id h here e =
    let same : k ≡ id = cc in subst P same (All-any P k cs h here.1)

module _ {F : Type 0} where
  -- The client that has the cursor is registered.
  pub active-IsKnown :
      (r : Rest F) (id : ℕ) → IsCoherent r → r.active ≡ some id → IsKnown r.clients r.tcp_ips id
  active-IsKnown r id h e =
      here_known (IsKnown r.clients r.tcp_ips) r.session.layout r.session.connected
        r.session.cursor.mode id h.known h.linked.here (sym h.latched ∙ e)

  pub finish_teardown-IsGone :
      (now : ℕ) (w : World F) (c : Client)
      → IsCoherent (rest w)
      → Ensures (λ u. IsGone (rest w) c.id (rest u)) (finish_teardown now w c true)
  unfolding forget
  finish_teardown-IsGone now w c h = session_drop-IsGone now w _ c.id h (
      release-rest (emit (forget w c.id) (ServerEvent.client_disconnected c.name)) c.id
      ∙ ap (λ r. released r c.id)
          (emit-rest (forget w c.id) (ServerEvent.client_disconnected c.name)))

  pub end_teardown-IsCoherent :
      (now : ℕ) (w : World F) (c : Client)
      → IsCoherent (rest w)
      → Ensures (λ u. IsCoherent (rest u)) (end_teardown now w c)
  unfolding end_teardown
  end_teardown-IsCoherent now w c h = finish (is_registered w c)
    where
      finish : (b : Bool) → Ensures (λ u. IsCoherent (rest u)) (finish_teardown now w c b)
      finish false = h
      finish true =
          Ensures-map (λ (u : World F). IsGone (rest w) c.id (rest u)) _
            (finish_teardown now w c true) (finish_teardown-IsGone now w c h) (λ u g. g.coherent)

  pub farewell-rest :
      (w : World F) (c : Client) (command : ℕ) → rest (farewell w c command) ≡ rest w
  unfolding farewell
  farewell-rest w c command =
      try_send-rest _ c.conn (route (Message.control command))
      ∙ try_send-rest w c.conn (route (Message.leave c.id))

  pub teardown-IsCoherent :
      (now : ℕ) (w : World F) (c : Client)
      → IsCoherent (rest w)
      → Ensures (λ u. IsCoherent (rest u)) (teardown now w c)
  unfolding teardown begin_teardown
  teardown-IsCoherent now w c h = begin (is_registered w c)
    where
      begin :
          (b : Bool)
          → Ensures
              (λ u. IsCoherent (rest u))
              (teardown_rest now c
                (if b then (farewell w c reconnect_command, true) else (w, false)))
      begin false = h
      begin true =
          end_teardown-IsCoherent now (farewell w c reconnect_command) c
            (subst IsCoherent (sym (farewell-rest w c reconnect_command)) h)

  -- The watchdog.
  pub check_staleness-IsCoherent :
      (now : ℕ) (w : World F)
      → IsCoherent (rest w)
      → Ensures (λ u. IsCoherent (rest u)) (check_staleness now w)
  unfolding check_staleness
  check_staleness-IsCoherent now w h = active w.active refl
    where
      drop :
          (id : ℕ) (o : Option Client)
          → w.active ≡ some id
          → lookup id w.clients ≡ o
          → Ensures (λ u. IsCoherent (rest u)) (drop_silent now w id o)
      drop id none e gone =
          let ((c, found, own), met) = active-IsKnown (rest w) id h e in
          absurd (let clash : some c ≡ none = sym found ∙ gone in cc)
      drop id (some c) e found = teardown-IsCoherent now w c h

      heard :
          (id : ℕ) (o : Option ℕ)
          → w.active ≡ some id
          → Ensures (λ u. IsCoherent (rest u)) (check_heard now w id o)
      heard id none e = h
      heard id (some t) e =
          Ensures-if (λ (u : World F). IsCoherent (rest u))
            (leb (now_ms now - t) active_beacon_timeout) (done w) _ h
            (drop id (lookup id w.clients) e refl)

      active :
          (o : Option ℕ) → w.active ≡ o → Ensures (λ u. IsCoherent (rest u)) (check_active now w o)
      active none e = h
      active (some id) e = heard id (lookup id w.last_heard) e

  pub disconnect_client-IsCoherent :
      (now : ℕ) (w : World F) (id : ℕ) (remove_screen : Bool)
      → IsCoherent (rest w)
      → Ensures (λ u. IsCoherent (rest u)) (disconnect_client now w id remove_screen)
  unfolding disconnect_client forget
  disconnect_client-IsCoherent now w id remove_screen h = found (lookup id w.clients) refl
    where
      found :
          (o : Option Client)
          → lookup id w.clients ≡ o
          → Ensures (λ u. IsCoherent (rest u)) (disconnect_found now w id remove_screen o)
      found none e = h
      found (some c) e =
          let w1 =
            enqueue (enqueue w id (Message.leave id)) id (Message.control disconnect_command) in
          let w2 = forget w1 id in
          let told : rest w1 ≡ rest w =
            enqueue-rest (enqueue w id (Message.leave id)) id (Message.control disconnect_command)
            ∙ enqueue-rest w id (Message.leave id) in
          let same : w2.session ≡ w.session = ap (λ (r : Rest F). r.session) told in
          Ensures->>= (IsDropped w2.session id) _ (drop_from_session w2 id remove_screen) _
            (drop_from_session-IsDropped w2 id remove_screen
              (lookup-entry id w.clients c h.registered e).0
              (subst (λ s. IsLinked (core s)) (sym same) h.linked))
            (λ r d.
              subst IsCoherent
                (sym (
                  emit-rest _ (ServerEvent.client_disconnected c.name)
                  ∙ apply_home-all now (release (record w2 { session = r.0 }) id) w2.session id r d
                  ∙ ap (λ q. act_on_all q r.1) (release-rest (record w2 { session = r.0 }) id)
                  ∙ ap
                      (λ (q : Rest F).
                        act_on_all (record (released (forgotten q id) id) { session = r.0 }) r.1)
                      told))
                (dropped-IsCoherent (rest w) id r h (subst (λ s. IsDropped s id r) same d)))

  pub disconnect_each-IsCoherent :
      (now : ℕ) (w : World F) (ids : List ℕ) (remove_screen : Bool)
      → IsCoherent (rest w)
      → Ensures (λ u. IsCoherent (rest u)) (disconnect_each now w ids remove_screen)
  unfolding disconnect_each
  disconnect_each-IsCoherent now w [] remove_screen h = h
  disconnect_each-IsCoherent now w (id ∷ ids) remove_screen h =
      Ensures->>= (λ (u : World F). IsCoherent (rest u)) _
        (disconnect_client now w id remove_screen) _
        (disconnect_client-IsCoherent now w id remove_screen h)
        (λ u k. disconnect_each-IsCoherent now u ids remove_screen k)
