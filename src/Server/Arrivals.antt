-- ===== src/Server/Arrivals.antt =====
-- crates/core/src/server/client.rs: the handshake and the registration keep the server coherent.
use kvmshare.Prelude.{
  ==_iff, All, Bool, Bool-cases, List, Option, [], any, bytes_eq, false, inl, inr, none, not, refl,
  some, subst, sym, test_keeps, ℕ, ◌&&◌, ◌++◌, ◌==◌, ◌∙◌, ◌∷◌, ◌≡◌,
}
use kvmshare.Layout.Normalize.{normalized}
use kvmshare.Prelude.Clock.{now_ms}
use kvmshare.Prelude.Maps.{insert, lookup-insert_other, lookup-insert_same}
use kvmshare.Protocol.Geometry.{Screen, ScreenInfo}
use kvmshare.Protocol.Ids.{compatible}
use kvmshare.Protocol.Message.{Message}
use kvmshare.Server.Coherent.{IsCoherent, IsEntry, IsKnown, IsLinked}
use kvmshare.Server.Desks.{IsLinked-wider, append-IsUsed, normalized-IsUsed, resize-IsUsed}
use kvmshare.Server.Handshake.{Handshake, admitted_as, exchange_hello, greet, is_allowed}
use kvmshare.Server.Leaves.{All-remove}
use kvmshare.Server.Policy.{Addr, Ip, is_local_ip, is_revoked}
use kvmshare.Server.Registry.{register}
use kvmshare.Server.Rest.{Rest, rest}
use kvmshare.Server.Superseded.{register-rest, registered_rest}
use kvmshare.Server.World.{Client, World}
use kvmshare.Session.Clients.{
  add_screen, admit_at, admit_client, admit_new, assign_screen_id, free_id, new_screen,
  on_client_connected, resize, update_screen_info, with_screens,
}
use kvmshare.Session.Placed.{core}
use kvmshare.Session.State.{Session, is_connected}
use kvmshare.Session.Told.{IsHere-connected}
use kvmshare.Transport.{RecvResult}

IsKnown-insert :
    (clients : List (ℕ × Client)) (ips : List (ℕ × Ip)) (id : ℕ) (new : Client) (ip : Ip) (c : ℕ)
    → new.id ≡ id
    → IsKnown clients ips c
    → IsKnown (insert id new clients) (insert id ip ips) c
IsKnown-insert clients ips id new ip c n ((client, found, own), (at, met)) =
    elim (Bool-cases (id == c)) [
      | inl hit ↦
          let same : id ≡ c = (==_iff id c).0 hit in
          subst (λ k. IsKnown (insert id new clients) (insert id ip ips) k) same
            ((new, lookup-insert_same id new clients, n), (ip, lookup-insert_same id ip ips))
      | inr miss ↦ (
        (client, lookup-insert_other c id new clients miss ∙ found, own),
        (at, lookup-insert_other c id ip ips miss ∙ met),
      )
    ]

others_join :
    (clients : List (ℕ × Client)) (ips : List (ℕ × Ip)) (id : ℕ) (new : Client) (ip : Ip)
    (cs : List ℕ)
    → new.id ≡ id
    → All (IsKnown clients ips) cs
    → All (IsKnown (insert id new clients) (insert id ip ips)) cs
others_join clients ips id new ip [] n h = h
others_join clients ips id new ip (c ∷ cs) n h =
    (IsKnown-insert clients ips id new ip c n h.0, others_join clients ips id new ip cs n h.1)

module _ {F : Type 0} where
  registered_rest-IsCoherent :
      (now : ℕ) (r : Rest F) (conn id : ℕ) (machine_id name : List ℕ) (info : ScreenInfo) (ip : Ip)
      → (id == 0) ≡ false
      → IsCoherent r
      → IsCoherent (registered_rest now r conn id machine_id name info ip)
  unfolding on_client_connected update_screen_info is_connected
  registered_rest-IsCoherent now r conn id machine_id name info ip n h =
      elim (Bool-cases (is_connected r.session id)) [
        | inl hit ↦ rw hit (record {
          linked = wide;
          latched = h.latched;
          held = h.held;
          known = old;
          registered = ((n, refl), All-remove IsEntry id r.clients h.registered);
        })
        | inr miss ↦ rw miss (record {
          linked = record {
            home = wide.home;
            home_found = wide.home_found;
            here = IsHere-connected _ r.session.connected id r.session.cursor.mode wide.here;
          };
          latched = h.latched;
          held = h.held;
          known = (
            (
              (new, lookup-insert_same id new r.clients, refl),
              (ip, lookup-insert_same id ip r.tcp_ips),
            ),
            old,
          );
          registered = ((n, refl), All-remove IsEntry id r.clients h.registered);
        })
      ]
    where
      new : Client
      new = record {
        conn = conn;
        id = id;
        name = name;
        machine_id = machine_id;
        since_ms = now_ms now;
      }

      wide : IsLinked (record (core r.session) {
        layout = with_screens (resize id info r.session.layout.screens);
      })
      wide =
          IsLinked-wider (core r.session) (with_screens (resize id info r.session.layout.screens))
            h.linked (λ j u. resize-IsUsed id info r.session.layout.screens j u)

      old : All (IsKnown (insert id new r.clients) (insert id ip r.tcp_ips)) r.session.connected
      old = others_join r.clients r.tcp_ips id new ip r.session.connected refl h.known

  pub register-IsCoherent :
      (now : ℕ) (w : World F) (id : ℕ) (machine_id name : List ℕ) (info : ScreenInfo)
      (admitted : Bool) (peer : Addr)
      → (id == 0) ≡ false
      → IsCoherent (rest w)
      → IsCoherent (rest (register now w id machine_id name info admitted peer))
  register-IsCoherent now w id machine_id name info admitted peer n h =
      subst IsCoherent (sym (register-rest now w id machine_id name info admitted peer))
        (registered_rest-IsCoherent now (rest w) w.next_conn id machine_id name info peer.ip n h)

  -- The new screen joins the others.
  added-IsCoherent :
      (w : World F) (sc : Screen)
      → IsCoherent (rest w)
      → IsCoherent (rest (record w { session = add_screen w.session sc }))
  added-IsCoherent w sc h =
      let more = with_screens (w.session.layout.screens ++ sc ∷ []) in
      record {
        linked = IsLinked-wider (core w.session) (normalized more) h.linked (λ j u.
            normalized-IsUsed more j (append-IsUsed w.session.layout.screens (sc ∷ []) j u));
        latched = h.latched;
        held = h.held;
        known = h.known;
        registered = h.registered;
      }

  admit_at-IsCoherent :
      (w : World F) (name : List ℕ) (info : ScreenInfo) (o : Option ℕ)
      → IsCoherent (rest w)
      → IsCoherent (rest (record w { session = (admit_at w.session name info o).0 }))
  admit_at-IsCoherent w name info none h = h
  admit_at-IsCoherent w name info (some id) h =
      added-IsCoherent w (new_screen w.session name info id) h

  admit_new-IsCoherent :
      (w : World F) (name : List ℕ) (info : ScreenInfo) (o : Option ℕ)
      → IsCoherent (rest w)
      → IsCoherent (rest (record w { session = (admit_new w.session name info o).0 }))
  admit_new-IsCoherent w name info (some id) h = h
  admit_new-IsCoherent w name info none h =
      let at = admit_at w.session name info (free_id w.session.layout.screens 1 255) in
      elim (Bool-cases
        (any (λ sc. (sc.id == 0) && bytes_eq sc.name name) w.session.layout.screens)) [
          | inl hit ↦ rw hit h
          | inr miss ↦
              rw miss (admit_at-IsCoherent w name info (free_id w.session.layout.screens 1 255) h)
        ]

  admitted_as-same :
      (w : World F) (machine_id name : List ℕ) (info : ScreenInfo)
      (q : Session F × Option (ℕ × Bool))
      → (admitted_as w machine_id name info q).0 ≡ record w { session = q.0 }
  admitted_as-same w machine_id name info (s, none) = refl
  admitted_as-same w machine_id name info (s, some (id, fresh)) = refl

  pub greet-IsCoherent :
      (w : World F) (peer : Ip) (version : ℕ) (machine_id name : List ℕ) (info : ScreenInfo)
      → IsCoherent (rest w)
      → IsCoherent (rest (greet w peer version machine_id name info).0)
  unfolding greet admit_client
  greet-IsCoherent w peer version machine_id name info h =
      let Q : World F × Handshake → Type 0 = λ r. IsCoherent (rest r.0) in
      let q = admit_new w.session name info (assign_screen_id w.session name) in
      test_keeps Q (not (compatible version)) _ _ h (λ a.
        test_keeps Q (is_revoked w.policy machine_id) _ _ h (λ b.
          test_keeps Q (w.policy.local_only && not (is_local_ip peer)) _ _ h (λ c.
            test_keeps Q (not (is_allowed w machine_id name)) _ _ h (λ d.
              subst (λ u. IsCoherent (rest u)) (sym (admitted_as-same w machine_id name info q))
                (admit_new-IsCoherent w name info (assign_screen_id w.session name) h)))))

  pub exchange_hello-IsCoherent :
      (w : World F) (peer : Ip) (first : RecvResult)
      → IsCoherent (rest w)
      → IsCoherent (rest (exchange_hello w peer first).0)
  unfolding exchange_hello
  exchange_hello-IsCoherent w peer (RecvResult.msg (Message.hello version machine_id name info)) h =
      greet-IsCoherent w peer version machine_id name info h
  exchange_hello-IsCoherent w peer (RecvResult.msg (Message.welcome v n l i)) h = h
  exchange_hello-IsCoherent w peer (RecvResult.msg (Message.screen_info s)) h = h
  exchange_hello-IsCoherent w peer (RecvResult.msg (Message.layout l)) h = h
  exchange_hello-IsCoherent w peer (RecvResult.msg (Message.control c)) h = h
  exchange_hello-IsCoherent w peer (RecvResult.msg (Message.enter i x y)) h = h
  exchange_hello-IsCoherent w peer (RecvResult.msg (Message.leave i)) h = h
  exchange_hello-IsCoherent w peer (RecvResult.msg (Message.mouse_move_abs x y)) h = h
  exchange_hello-IsCoherent w peer (RecvResult.msg (Message.mouse_move_rel x y)) h = h
  exchange_hello-IsCoherent w peer (RecvResult.msg (Message.cursor_pos x y)) h = h
  exchange_hello-IsCoherent w peer (RecvResult.msg (Message.mouse_button b p)) h = h
  exchange_hello-IsCoherent w peer (RecvResult.msg (Message.mouse_wheel x y)) h = h
  exchange_hello-IsCoherent w peer (RecvResult.msg (Message.key k u)) h = h
  exchange_hello-IsCoherent w peer (RecvResult.msg (Message.clipboard m d)) h = h
  exchange_hello-IsCoherent w peer (RecvResult.msg Message.keepalive) h = h
  exchange_hello-IsCoherent w peer (RecvResult.msg (Message.error c t)) h = h
  exchange_hello-IsCoherent w peer (RecvResult.msg Message.escape) h = h
  exchange_hello-IsCoherent w peer RecvResult.eof h = h
  exchange_hello-IsCoherent w peer RecvResult.no_data h = h
  exchange_hello-IsCoherent w peer RecvResult.waiting h = h
  exchange_hello-IsCoherent w peer (RecvResult.failure e) h = h
