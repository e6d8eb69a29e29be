-- ===== src/Server/Orders.antt =====
-- crates/core/src/server/mod.rs: the app layer's control messages keep the server coherent.
use kvmshare.Prelude.{
  List, Option, [], bytes_eq, false, if◌then◌else◌, none, refl, some, subst, sym, true, ℕ, ◌++◌,
  ◌==◌, ◌∙◌, ◌∷◌, ◌≡◌,
}
use kvmshare.Actions.{BindSection}
use kvmshare.Layout.{Layout, find}
use kvmshare.Layout.Normalize.{normalized}
use kvmshare.Pointer.Follower.{command}
use kvmshare.Prelude.Run.{Ensures, Ensures->>=, Ensures-if}
use kvmshare.Protocol.Geometry.{Rect, Screen, center}
use kvmshare.Protocol.Message.{Message}
use kvmshare.Server.Apply.{apply_all}
use kvmshare.Server.Coherent.{IsCoherent, IsLinked, free_machine, operate-append, told-IsCoherent}
use kvmshare.Server.Controls.{
  Control, apply_client_command, apply_control, apply_policy, command_client, drop_stale_clients,
  first_where, ids_where, reload_layout,
}
use kvmshare.Server.Departures.{disconnect_client-IsCoherent, disconnect_each-IsCoherent}
use kvmshare.Server.Desks.{found-IsUsed, keep_dynamic-IsUsed, normalized-IsUsed, used_found}
use kvmshare.Server.Policy.{Policy, is_revoked}
use kvmshare.Server.Registry.{disconnect_command}
use kvmshare.Server.Rest.{Rest, act_on_all, apply_all-rest, broadcast-rest, enqueue-rest, rest}
use kvmshare.Server.World.{Client, EngineCall, World, call_engine, layout_snapshot}
use kvmshare.Session.Admit.{IsUsed}
use kvmshare.Session.Clients.{adopt, keep_dynamic, swap_layout, swap_with, with_screens}
use kvmshare.Session.Events.{is_local}
use kvmshare.Session.Placed.{core}
use kvmshare.Session.Sound.{follow}
use kvmshare.Session.State.{
  Action, Floats, InputPrefs, Mode, Session, bound_chords, clear_boundary_state, set_bindings,
  set_prefs,
}

module _ {F : Type 0} where
  -- A layout that has the server's screen is swapped in.
  adopt-IsLinked :
      (s : Session F) (screens : List Screen) (home : Rect)
      → IsUsed screens 0
      → IsLinked (core (adopt s screens home))
  unfolding adopt clear_boundary_state find
  adopt-IsLinked s screens home u =
      let out = (keep_dynamic screens s.dynamic).0 in
      let (sc, e) =
        used_found (normalized (with_screens out)).screens 0
          (normalized-IsUsed (with_screens out) 0 (keep_dynamic-IsUsed screens s.dynamic 0 u)) in
      record { home = sc; home_found = e; here = tt }

  -- A session after a swap, with what its caller is told.
  swapped-IsCoherent :
      (r : Rest F) (l : Layout) (o : Option Screen)
      → find l 0 ≡ o
      → IsCoherent r
      → IsCoherent (
          act_on_all
            (record r { session = (swap_with r.session l o).0 })
            (swap_with r.session l o).1)
  unfolding adopt clear_boundary_state find
  swapped-IsCoherent r l none e h = h
  swapped-IsCoherent r l (some sc) e h =
      told-IsCoherent r (adopt r.session l.screens sc.rect) (swap_with r.session l (some sc)).1 h
        (adopt-IsLinked r.session l.screens sc.rect (found-IsUsed l.screens 0 sc e)) refl
        (home_told r.session.cursor.mode)
    where
      home_told :
          (m : Mode)
          → Mode.local
            ≡ follow m (
                if is_local m
                then []
                else Action.switch_to_local (center sc.rect).0 (center sc.rect).1 ∷ [])
      home_told Mode.local = refl
      home_told (Mode.remote id) = refl

  pub swap_layout-IsCoherent :
      (now : ℕ) (w : World F) (s : Session F) (l : Layout)
      → IsCoherent (record (rest w) { session = s })
      → IsCoherent
          (rest (apply_all now (record w { session = (swap_layout s l).0 }) (swap_layout s l).1))
  unfolding swap_layout
  swap_layout-IsCoherent now w s l h =
      subst IsCoherent
        (sym (
          apply_all-rest now (record w { session = (swap_with s l (find l 0)).0 })
            (swap_with s l (find l 0)).1))
        (swapped-IsCoherent (record (rest w) { session = s }) l (find l 0) refl h)

  pub apply_client_command-IsCoherent :
      (now : ℕ) (w : World F) (name : List ℕ) (command : ℕ)
      → IsCoherent (rest w)
      → Ensures (λ u. IsCoherent (rest u)) (apply_client_command now w name command)
  unfolding apply_client_command
  apply_client_command-IsCoherent now w name command h =
      on (first_where (λ c. bytes_eq c.name name) w.clients)
    where
      on : (o : Option Client) → Ensures (λ u. IsCoherent (rest u)) (command_client now w command o)
      on none = h
      on (some c) =
          Ensures-if (λ (u : World F). IsCoherent (rest u)) (command == disconnect_command) _ _
            (disconnect_client-IsCoherent now w c.id false h)
            (subst IsCoherent (sym (enqueue-rest w c.id (Message.control command))) h)

  pub apply_policy-IsCoherent :
      (now : ℕ) (w : World F) (policy : Policy)
      → IsCoherent (rest w)
      → Ensures (λ u. IsCoherent (rest u)) (apply_policy now w policy)
  unfolding apply_policy
  apply_policy-IsCoherent now w policy h =
      disconnect_each-IsCoherent now (record w { policy = policy })
        (ids_where (λ c. is_revoked policy c.machine_id) w.clients) true h

  drop_stale_clients-IsCoherent :
      (now : ℕ) (w : World F)
      → IsCoherent (rest w)
      → Ensures (λ u. IsCoherent (rest u)) (drop_stale_clients now w)
  unfolding drop_stale_clients
  drop_stale_clients-IsCoherent now w h = disconnect_each-IsCoherent now w _ false h

set_up-IsCoherent :
    (fl : Floats) (r : Rest fl.F) (bindings : BindSection) (prefs : InputPrefs fl.F)
    (chords : List (ℕ × ℕ))
    → IsCoherent r
    → IsCoherent (record r {
      session = set_prefs fl (set_bindings r.session bindings) prefs;
      engine = r.engine ++ EngineCall.bound chords ∷ [];
    })
unfolding set_prefs set_bindings
set_up-IsCoherent fl r bindings prefs chords h = record {
  linked = h.linked;
  latched = h.latched;
  held = operate-append free_machine r.engine (EngineCall.bound chords ∷ []) ∙ h.held;
  known = h.known;
  registered = h.registered;
}

reload_layout-IsCoherent :
    (fl : Floats) (now : ℕ) (w : World fl.F) (l : Layout) (bindings : BindSection)
    (prefs : InputPrefs fl.F)
    → IsCoherent (rest w)
    → Ensures (λ u. IsCoherent (rest u)) (reload_layout fl now w l bindings prefs)
unfolding reload_layout call_engine
reload_layout-IsCoherent fl now w l bindings prefs h =
    let s = set_prefs fl (set_bindings w.session bindings) prefs in
    let w1 = call_engine (record w { session = s }) (EngineCall.bound (bound_chords s) ∷ []) in
    Ensures->>= (λ (u : World fl.F). IsCoherent (rest u)) _ (drop_stale_clients now _) _
      (drop_stale_clients-IsCoherent now _ (
        swap_layout-IsCoherent now w1 s l
          (set_up-IsCoherent fl (rest w) bindings prefs (bound_chords s) h)))
      (λ u k. subst IsCoherent (sym (broadcast-rest u (Message.layout (layout_snapshot u)))) k)

pub apply_control-IsCoherent :
    (fl : Floats) (now : ℕ) (w : World fl.F) (c : Control fl)
    → IsCoherent (rest w)
    → Ensures (λ u. IsCoherent (rest u)) (apply_control fl now w c)
unfolding apply_control
apply_control-IsCoherent fl now w (Control.reload l bindings prefs) h =
    reload_layout-IsCoherent fl now w l bindings prefs h
apply_control-IsCoherent fl now w (Control.set_policy policy) h =
    apply_policy-IsCoherent now w policy h
apply_control-IsCoherent fl now w (Control.client_command name command) h =
    apply_client_command-IsCoherent now w name command h
