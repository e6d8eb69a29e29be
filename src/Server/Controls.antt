-- ===== src/Server/Controls.antt =====
-- crates/core/src/server/mod.rs: the app layer's control messages; liveness.rs: the supervisor.
use kvmshare.Prelude.{
  Bool, List, Option, [], any, bytes_eq, false, if◌then◌else◌, ltb, none, not, some, true, ℕ, ◌&&◌,
  ◌-◌, ◌==◌, ◌||◌, ◌∷◌,
}
use kvmshare.Actions.{BindSection}
use kvmshare.Layout.{Layout}
use kvmshare.Pointer.Follower.{command}
use kvmshare.Prelude.Run.{Run, done, ◌>>=◌}
use kvmshare.Protocol.Geometry.{Screen}
use kvmshare.Protocol.Message.{Message}
use kvmshare.Server.Apply.{apply_all}
use kvmshare.Server.Policy.{Policy, is_revoked}
use kvmshare.Server.Registry.{disconnect_client, disconnect_command, disconnect_each}
use kvmshare.Server.World.{
  Client, EngineCall, World, broadcast, call_engine, enqueue, layout_snapshot,
}
use kvmshare.Session.Clients.{swap_layout}
use kvmshare.Session.State.{Floats, InputPrefs, bound_chords, set_bindings, set_prefs}

pub data Control (fl : Floats) : Type 0 where
  reload : Layout → BindSection → InputPrefs fl.F → Control fl
  set_policy : Policy → Control fl
  client_command : List ℕ → ℕ → Control fl

-- The clients that a test picks, by id.
abbrev pub ids_where : (Client → Bool) → List (ℕ × Client) → List ℕ
ids_where p [] = []
ids_where p (c ∷ cs) = if p c.1 then c.1.id ∷ ids_where p cs else ids_where p cs

abbrev pub keys_where : (Client → Bool) → List (ℕ × Client) → List ℕ
keys_where p [] = []
keys_where p (c ∷ cs) = if p c.1 then c.0 ∷ keys_where p cs else keys_where p cs

abbrev pub first_where : (Client → Bool) → List (ℕ × Client) → Option Client
first_where p [] = none
first_where p (c ∷ cs) = if p c.1 then some c.1 else first_where p cs

-- The screens still have the client's id under its name.
abbrev pub keeps_screen : List Screen → Client → Bool
keeps_screen screens c = any (λ s. (s.id == c.id) && bytes_eq s.name c.name) screens

module _ {F : Type 0} where
  unfoldable pub apply_policy : ℕ → World F → Policy → Run (World F)
  apply_policy now w policy =
      disconnect_each now (record w { policy = policy })
        (ids_where (λ c. is_revoked policy c.machine_id) w.clients) true

  unfoldable pub drop_stale_clients : ℕ → World F → Run (World F)
  drop_stale_clients now w =
      disconnect_each now w
        (keys_where (λ c. not (keeps_screen w.session.layout.screens c)) w.clients) false

  abbrev pub command_client : ℕ → World F → ℕ → Option Client → Run (World F)
  command_client now w command none = done w
  command_client now w command (some c) =
      if command == disconnect_command
      then disconnect_client now w c.id false
      else done (enqueue w c.id (Message.control command))

  unfoldable pub apply_client_command : ℕ → World F → List ℕ → ℕ → Run (World F)
  apply_client_command now w name command =
      command_client now w command (first_where (λ c. bytes_eq c.name name) w.clients)

unfoldable pub reload_layout :
    (fl : Floats) → ℕ → World fl.F → Layout → BindSection → InputPrefs fl.F → Run (World fl.F)
reload_layout fl now w l bindings prefs =
    let s = set_prefs fl (set_bindings w.session bindings) prefs in
    let w1 = call_engine (record w { session = s }) (EngineCall.bound (bound_chords s) ∷ []) in
    let r = swap_layout s l in
    do
      w2 ← drop_stale_clients now (apply_all now (record w1 { session = r.0 }) r.1)
      done (broadcast w2 (Message.layout (layout_snapshot w2)))

unfoldable pub apply_control : (fl : Floats) → ℕ → World fl.F → Control fl → Run (World fl.F)
apply_control fl now w (Control.reload l bindings prefs) = reload_layout fl now w l bindings prefs
apply_control fl now w (Control.set_policy policy) = apply_policy now w policy
apply_control fl now w (Control.client_command name command) =
    apply_client_command now w name command

-- `drain_controls`, of the messages that wait.
unfoldable pub drain_controls :
    (fl : Floats) → ℕ → World fl.F → List (Control fl) → Run (World fl.F)
drain_controls fl now w [] = done w
drain_controls fl now w (c ∷ cs) = do w' ← apply_control fl now w c; drain_controls fl now w' cs

-- `SUPERVISOR_STALL_MS`.
abbrev pub supervisor_stall : ℕ
supervisor_stall = 3000

-- A round of `supervisor_loop`: whether the process exits for a restart. `active` is none where the
-- lock is held.
unfoldable pub supervisor_exits : ℕ → ℕ → ℕ → Option (Option ℕ) → Bool
supervisor_exits now loop_tick capture_tick active =
    not (capture_tick == 0)
    && is_remote active
    && (ltb supervisor_stall (now - loop_tick) || ltb supervisor_stall (now - capture_tick))
  where
    is_remote : Option (Option ℕ) → Bool
    is_remote none = true
    is_remote (some none) = false
    is_remote (some (some id)) = true
