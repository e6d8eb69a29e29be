-- ===== src/Server/Races.antt =====
-- crates/core/src/server/client.rs: a connection that registers while the old one's `teardown` is
-- between its removals and its call of the session.
use kvmshare.Prelude.{
  Bool, Bool-cases, List, [], any, ap, arith, false, inl, inr, not, refl, retain, some, subst, sym,
  ℕ, ◌==◌, ◌∙◌, ◌∷◌, ◌≡◌,
}
use kvmshare.Prelude.Maps.{lookup, lookup-insert_same, remove}
use kvmshare.Prelude.Run.{Ensures, Ensures->>=}
use kvmshare.Protocol.Geometry.{ScreenInfo}
use kvmshare.Server.Coherent.{IsLinked, act_on_all-members, members}
use kvmshare.Server.Desks.{IsLinked-wider, resize-IsUsed}
use kvmshare.Server.Drops.{IsDropped, disconnected-IsDropped}
use kvmshare.Server.Leaves.{apply_home-all, forgotten, release-rest, released}
use kvmshare.Server.Policy.{Addr}
use kvmshare.Server.Registry.{apply_home, forget, register, release, session_drop}
use kvmshare.Server.Rest.{Rest, act_on_all, rest}
use kvmshare.Server.Superseded.{register-rest, registered_rest}
use kvmshare.Server.World.{Client, World}
use kvmshare.Session.Clients.{
  on_client_connected, on_client_disconnected, resize, update_screen_info, with_screens,
}
use kvmshare.Session.Placed.{core}
use kvmshare.Session.State.{Session, is_connected}
use kvmshare.Session.Told.{IsHere-connected}

any-without_same :
    (id : ℕ) (cs : List ℕ) → any (λ k. k == id) (retain (λ c. not (c == id)) cs) ≡ false
any-without_same id [] = refl
any-without_same id (c ∷ cs) = ground (arith, any-without_same id cs)

module _ {F : Type 0} where
  joined-IsLinked :
      (s : Session F) (id : ℕ) (info : ScreenInfo)
      → IsLinked (core s)
      → IsLinked (core (on_client_connected (update_screen_info s id info) id))
  unfolding on_client_connected update_screen_info is_connected
  joined-IsLinked s id info h =
      let wide =
        IsLinked-wider (core s) (with_screens (resize id info s.layout.screens)) h
          (λ j u. resize-IsUsed id info s.layout.screens j u) in
      elim (Bool-cases (is_connected s id)) [
        | inl hit ↦ rw hit wide
        | inr miss ↦ rw miss (record {
          home = wide.home;
          home_found = wide.home_found;
          here = IsHere-connected _ s.connected id s.cursor.mode wide.here;
        })
      ]

  -- If a client registers again after the `teardown` of its older connection has removed the old
  -- registration and before it calls the session, the client ends registered, but not connected in
  -- the session, so that the cursor cannot reach it. The layout has to have the server's screen and
  -- that of the cursor.
  pub register_between :
      (now later : ℕ) (w : World F) (id : ℕ) (machine_id name : List ℕ) (info : ScreenInfo)
      (admitted : Bool) (peer : Addr)
      → IsLinked (core w.session)
      → Ensures
          (λ v.
            ((new : Client) × (lookup id v.clients ≡ some new))
            × (is_connected v.session id ≡ false))
          (session_drop later
            (release (register now (forget w id) id machine_id name info admitted peer) id)
            id)
  unfolding session_drop forget is_connected
  register_between now later w id machine_id name info admitted peer h =
      let u = register now (forget w id) id machine_id name info admitted peer in
      let r =
        registered_rest now (forgotten (rest w) id) w.next_conn id machine_id name info peer.ip in
      let told : rest u ≡ r =
        register-rest now (forget w id) id machine_id name info admitted peer in
      let freed : rest (release u id) ≡ released r id =
        release-rest u id ∙ ap (λ q. released q id) told in
      let same : (release u id).session ≡ r.session = ap (λ (q : Rest F). q.session) freed in
      Ensures->>= (IsDropped (release u id).session id) _
        (on_client_disconnected (release u id).session id) _
        (disconnected-IsDropped (release u id).session id
          (subst (λ s. IsLinked (core s)) (sym same) (joined-IsLinked w.session id info h)))
        (λ q d.
          let over : rest (apply_home later (record (release u id) { session = q.0 }) q.1)
              ≡ act_on_all (record (released r id) { session = q.0 }) q.1 =
            apply_home-all later (record (release u id) { session = q.0 }) (release u id).session id
              q d
            ∙ ap (λ (p : Rest F). act_on_all (record p { session = q.0 }) q.1) freed in
          let k =
            ap members over ∙ act_on_all-members (record (released r id) { session = q.0 }) q.1 in
          (
            (_, ap (λ p. lookup id p.1) k ∙ lookup-insert_same id _ (remove id w.clients)),
            ap (λ p. any (λ c. c == id) p.0.connected) k
                ∙ ap (λ cs. any (λ c. c == id) cs) d.kept
                ∙ any-without_same id (release u id).session.connected,
          ))
