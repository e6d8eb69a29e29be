-- ===== src/Server/Drops.antt =====
-- A client leaves: the session, the registrations and the latch.
use kvmshare.Prelude.{
  Bool, Bool-cases, List, Option, [], any, ap, arith, false, if◌then◌else◌, inl, inr, not, refl,
  retain, some, subst, sym, true, ℕ, ◌==◌, ◌∙◌, ◌∷◌, ◌≡◌, ◌⊎◌,
}
use kvmshare.Layout.{find}
use kvmshare.Layout.Normalize.{normalized}
use kvmshare.Prelude.Int.{ℤ}
use kvmshare.Prelude.Run.{Ensures, Ensures->>=, done, expect, ◌>>=◌}
use kvmshare.Protocol.Geometry.{Screen, center}
use kvmshare.Server.Coherent.{IsLinked}
use kvmshare.Server.Desks.{IsLinked-on, found-IsUsed, normalized-IsUsed, retain-IsUsed}
use kvmshare.Server.Registry.{drop_from_session}
use kvmshare.Server.World.{World}
use kvmshare.Session.Beacon.{is_at}
use kvmshare.Session.Clients.{
  drop_connected, drop_screen, on_client_disconnected, on_client_removed, with_screens,
}
use kvmshare.Session.Crossing.{arrive, enter_screen, force_local}
use kvmshare.Session.Placed.{core}
use kvmshare.Session.State.{Action, Mode, Session, clear_boundary_state}
use kvmshare.Session.Told.{IsHere-dropped}

-- What the session makes of a client that goes: if it had the cursor, the cursor comes home.
pub record IsDropped {F : Type 0} (s : Session F) (id : ℕ) (r : Session F × List Action)
    : Type 0 where
  pub kept : r.0.connected ≡ retain (λ c. not (c == id)) s.connected
  pub linked : IsLinked (core r.0)
  pub ends :
      ((is_at id s.cursor.mode ≡ true)
        × ((x y : ℤ) × (r.1 ≡ Action.switch_to_local x y ∷ []))
        × (r.0.cursor.mode ≡ Mode.local))
      ⊎ ((is_at id s.cursor.mode ≡ false) × (r.1 ≡ []) × (r.0.cursor.mode ≡ s.cursor.mode))

apart : (id j : ℕ) (m : Mode) → is_at id m ≡ false → is_at j m ≡ true → (j == id) ≡ false
apart id j Mode.local a b = cc
apart id j (Mode.remote k) a b = ground arith

module _ {F : Type 0} where
  enter_home :
      (s : Session F) (gone : Session F) (id : ℕ) (home : Screen) (x y : ℤ)
      → find gone.layout 0 ≡ some home
      → gone.connected ≡ retain (λ c. not (c == id)) s.connected
      → is_at id s.cursor.mode ≡ true
      → Ensures
          (λ (t : Session F). IsDropped s id (t, Action.switch_to_local x y ∷ []))
          (enter_screen gone 0 x y)
  unfolding enter_screen clear_boundary_state
  enter_home s gone id home x y e k hit =
      subst
        (λ (o : Option Screen).
          Ensures (λ (t : Session F). IsDropped s id (t, Action.switch_to_local x y ∷ []))
            (expect o >>= λ sc. done (arrive gone 0 x y sc)))
        (sym e)
        (record {
          kept = k;
          linked = record { home = home; home_found = e; here = tt };
          ends = inl (hit, (x, y, refl), refl);
        })

  go_home :
      (s : Session F) (gone : Session F) (id : ℕ) (home : Screen)
      → find gone.layout 0 ≡ some home
      → gone.connected ≡ retain (λ c. not (c == id)) s.connected
      → is_at id s.cursor.mode ≡ true
      → Ensures (IsDropped s id) (force_local gone)
  unfolding force_local
  go_home s gone id home e k hit =
      let (x, y) = center gone.local in
      Ensures->>= (λ (t : Session F). IsDropped s id (t, Action.switch_to_local x y ∷ [])) _
        (enter_screen gone 0 x y) _ (enter_home s gone id home x y e k hit) (λ t q. q)

  pub disconnected-IsDropped :
      (s : Session F) (id : ℕ)
      → IsLinked (core s)
      → Ensures (IsDropped s id) (on_client_disconnected s id)
  unfolding on_client_disconnected
  disconnected-IsDropped s id w = elim (Bool-cases (is_at id s.cursor.mode)) [
    | inl hit ↦
        subst (λ b. Ensures (IsDropped s id) (if b then force_local gone else done (gone, [])))
          (sym hit) (go_home s gone id w.home w.home_found refl hit)
    | inr miss ↦
        subst (λ b. Ensures (IsDropped s id) (if b then force_local gone else done (gone, [])))
          (sym miss)
          (record {
            kept = refl;
            linked = record {
              home = w.home;
              home_found = w.home_found;
              here = IsHere-dropped s.layout s.connected id s.cursor.mode miss w.here;
            };
            ends = inr (miss, refl, refl);
          })
  ]
    where
      gone : Session F
      gone = drop_connected s id

  drop_screen-IsLinked :
      (t : Session F) (id : ℕ)
      → (id == 0) ≡ false
      → is_at id t.cursor.mode ≡ false
      → IsLinked (core t)
      → IsLinked (core (drop_screen id t))
  unfolding clear_boundary_state find
  drop_screen-IsLinked t id n elsewhere h =
      elim (Bool-cases (any (λ sc. sc.id == id) t.layout.screens)) [
        | inl hit ↦ rw hit (
            IsLinked-on (core t) (normalized (with_screens left)) h
              (normalized-IsUsed (with_screens left) 0 (
                retain-IsUsed id t.layout.screens 0 (ground arith)
                  (found-IsUsed t.layout.screens 0 h.home h.home_found)))
              (λ j there u.
                normalized-IsUsed (with_screens left) j (
                  retain-IsUsed id t.layout.screens j (apart id j t.cursor.mode elsewhere there)
                    u)))
        | inr miss ↦ rw miss h
      ]
    where
      left : List Screen
      left = retain (λ sc. not (sc.id == id)) t.layout.screens

  drop_screen-same :
      (t : Session F) (id : ℕ)
      → (drop_screen id t).connected ≡ t.connected × (drop_screen id t).cursor.mode ≡ t.cursor.mode
  unfolding clear_boundary_state
  drop_screen-same t id = elim (Bool-cases (any (λ sc. sc.id == id) t.layout.screens)) [
    | inl hit ↦ (rw hit refl, rw hit refl)
    | inr miss ↦ (rw miss refl, rw miss refl)
  ]

  -- After a client is dropped the cursor is not on its screen.
  dropped-away :
      (s : Session F) (id : ℕ) (r : Session F × List Action)
      → IsDropped s id r
      → is_at id r.0.cursor.mode ≡ false
  dropped-away s id r d = elim d.ends [
    | inl (hit, told, home) ↦ ap (is_at id) home
    | inr (miss, told, same) ↦ ap (is_at id) same ∙ miss
  ]

  drop_screen-IsDropped :
      (s : Session F) (id : ℕ) (r : Session F × List Action)
      → (id == 0) ≡ false
      → IsDropped s id r
      → IsDropped s id (drop_screen id r.0, r.1)
  drop_screen-IsDropped s id r n d =
      let (kept, mode) = drop_screen-same r.0 id in
      record {
        kept = kept ∙ d.kept;
        linked = drop_screen-IsLinked r.0 id n (dropped-away s id r d) d.linked;
        ends = elim d.ends [
          | inl (hit, told, home) ↦ inl (hit, told, mode ∙ home)
          | inr (miss, told, same) ↦ inr (miss, told, mode ∙ same)
        ];
      }

  pub drop_from_session-IsDropped :
      (w : World F) (id : ℕ) (remove_screen : Bool)
      → (id == 0) ≡ false
      → IsLinked (core w.session)
      → Ensures (IsDropped w.session id) (drop_from_session w id remove_screen)
  unfolding drop_from_session on_client_removed
  drop_from_session-IsDropped w id false n h = disconnected-IsDropped w.session id h
  drop_from_session-IsDropped w id true n h =
      Ensures->>= (IsDropped w.session id) _ (on_client_disconnected w.session id) _
        (disconnected-IsDropped w.session id h) (λ r d. drop_screen-IsDropped w.session id r n d)
