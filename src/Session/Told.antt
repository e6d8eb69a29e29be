-- ===== src/Session/Told.antt =====
-- crates/core/src/session/mod.rs: clients that come and go in a well-formed session.
use kvmshare.Prelude.{
  All, Bool-cases, List, Option, [], any, arith, false, if_keeps, if◌then◌else◌, inl, inr, not,
  refl, retain, some, subst, sym, true, ℕ, ◌==◌, ◌∷◌, ◌≡◌,
}
use kvmshare.Layout.{Layout, find}
use kvmshare.Prelude.Int.{ℤ}
use kvmshare.Prelude.Run.{Ensures, Ensures->>=, done, expect, ◌>>=◌}
use kvmshare.Protocol.Geometry.{Screen, center}
use kvmshare.Session.Beacon.{is_at}
use kvmshare.Session.Clients.{drop_connected, on_client_connected, on_client_disconnected}
use kvmshare.Session.Crossing.{arrive, enter_screen, force_local}
use kvmshare.Session.Placed.{Core, IsPlaced, core}
use kvmshare.Session.Sound.{IsHere, IsWellFormed, follow}
use kvmshare.Session.State.{Action, Mode, Session, clear_boundary_state, is_connected}

-- The session is well-formed, and the caller knows its mode.
pub record IsTold (m : Mode) (c : Core) (acts : List Action) : Type 0 where
  pub sound : IsWellFormed c
  pub told : c.mode ≡ follow m acts

any_more :
    (id c : ℕ) (cs : List ℕ) → any (λ k. k == id) cs ≡ true → any (λ k. k == id) (c ∷ cs) ≡ true
any_more id c cs h = ground arith

any-retain :
    (id gone : ℕ) (cs : List ℕ)
    → (id == gone) ≡ false
    → any (λ k. k == id) cs ≡ true
    → any (λ k. k == id) (retain (λ c. not (c == gone)) cs) ≡ true
any-retain id gone [] n h = h
any-retain id gone (c ∷ cs) n h = elim (Bool-cases (c == id)) [
  | inl hit ↦ ground arith
  | inr miss ↦ ground (arith, any-retain id gone cs n)
]

pub IsHere-connected :
    (l : Layout) (cs : List ℕ) (n : ℕ) (m : Mode) → IsHere l cs m → IsHere l (n ∷ cs) m
IsHere-connected l cs n Mode.local h = h
IsHere-connected l cs n (Mode.remote id) h = (h.0, any_more id n cs h.1, h.2)

pub IsHere-dropped :
    (l : Layout) (cs : List ℕ) (n : ℕ) (m : Mode)
    → is_at n m ≡ false
    → IsHere l cs m
    → IsHere l (retain (λ c. not (c == n)) cs) m
IsHere-dropped l cs n Mode.local e h = tt
IsHere-dropped l cs n (Mode.remote id) e h = (h.0, any-retain id n cs e h.1, h.2)

module _ {F : Type 0} where
  pub connected-IsTold :
      (s : Session F) (id : ℕ)
      → IsWellFormed (core s)
      → IsTold s.cursor.mode (core (on_client_connected s id)) []
  unfolding on_client_connected
  connected-IsTold s id w =
      if_keeps (λ (t : Session F). IsTold s.cursor.mode (core t) []) (is_connected s id) s _
        (record { sound = w; told = refl })
        (record {
          sound = record {
            home = w.home;
            home_found = w.home_found;
            screens_placed = w.screens_placed;
            local_placed = w.local_placed;
            here = IsHere-connected s.layout s.connected id s.cursor.mode w.here;
          };
          told = refl;
        })

  enter_home-IsTold :
      (s : Session F) (m : Mode) (home : Screen) (x y : ℤ)
      → find s.layout 0 ≡ some home
      → All (λ sc. IsPlaced sc.rect) s.layout.screens
      → IsPlaced s.local
      → Ensures
          (λ (t : Session F). IsTold m (core t) (Action.switch_to_local x y ∷ []))
          (enter_screen s 0 x y)
  unfolding enter_screen clear_boundary_state
  enter_home-IsTold s m home x y e h p =
      subst
        (λ (o : Option Screen).
          Ensures (λ (t : Session F). IsTold m (core t) (Action.switch_to_local x y ∷ []))
            (expect o >>= λ sc. done (arrive s 0 x y sc)))
        (sym e)
        (record {
          sound = record {
            home = home;
            home_found = e;
            screens_placed = h;
            local_placed = p;
            here = tt;
          };
          told = refl;
        })

  -- Going home works wherever the cursor was.
  home-IsTold :
      (s : Session F) (m : Mode) (home : Screen)
      → find s.layout 0 ≡ some home
      → All (λ sc. IsPlaced sc.rect) s.layout.screens
      → IsPlaced s.local
      → Ensures (λ r. IsTold m (core r.0) r.1) (force_local s)
  unfolding force_local
  home-IsTold s m home e h p =
      let (x, y) = center s.local in
      Ensures->>= (λ (t : Session F). IsTold m (core t) (Action.switch_to_local x y ∷ [])) _
        (enter_screen s 0 x y) _ (enter_home-IsTold s m home x y e h p) (λ t q. q)

  -- A client that goes leaves nobody on its screen.
  pub disconnected-IsTold :
      (s : Session F) (id : ℕ)
      → IsWellFormed (core s)
      → Ensures (λ r. IsTold s.cursor.mode (core r.0) r.1) (on_client_disconnected s id)
  unfolding on_client_disconnected
  disconnected-IsTold s id w = elim (Bool-cases (is_at id s.cursor.mode)) [
    | inl hit ↦
        subst (λ b. Ensures Told (if b then force_local gone else done (gone, []))) (sym hit)
          (home-IsTold gone s.cursor.mode w.home w.home_found w.screens_placed w.local_placed)
    | inr miss ↦
        subst (λ b. Ensures Told (if b then force_local gone else done (gone, []))) (sym miss)
          (record {
            sound = record {
              home = w.home;
              home_found = w.home_found;
              screens_placed = w.screens_placed;
              local_placed = w.local_placed;
              here = IsHere-dropped s.layout s.connected id s.cursor.mode miss w.here;
            };
            told = refl;
          })
  ]
    where
      gone : Session F
      gone = drop_connected s id

      Told : Session F × List Action → Type 0
      Told r = IsTold s.cursor.mode (core r.0) r.1
