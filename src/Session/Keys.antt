-- ===== src/Session/Keys.antt =====
-- crates/core/src/session/motion.rs: what a client sees of a key that starts a shortcut.
use kvmshare.Prelude.{[], ap, false, none, true, ℕ, ◌∙◌, ◌∷◌, ◌≡◌}
use kvmshare.Actions.{is_modifier, no_mods}
use kvmshare.Actions.Engine.{key_down, key_up, starts_chord}
use kvmshare.Actions.Releases.{bound_under, key_down_withholds_release}
use kvmshare.Prelude.Run.{done}
use kvmshare.Protocol.Geometry.{KeyKind}
use kvmshare.Protocol.Message.{Message}
use kvmshare.Session.Events.{
  after_down, after_up, forward_in, forward_while_remote, is_local, on_local_key,
}
use kvmshare.Session.State.{Action, Mode, Session}

module _ {F : Type 0} (s : Session F) where
  -- On a client's screen, a key that the engine passes on is sent.
  forwarded :
      (id : ℕ) (m : Message) (t : Session F)
      → s.cursor.mode ≡ Mode.remote id
      → forward_in t m s.cursor.mode ≡ (t, Action.send m ∷ [])
  forwarded id m t e = ap (forward_in t m) e

  -- While the cursor is on a client's screen and the shortcuts are enabled, a press of a key that
  -- is no modifier and is bound, but not under the modifiers held, is sent to the client, and its
  -- release is not: for the client the key stays down.
  pub on_local_key_stuck :
      (id now key : ℕ)
      → s.cursor.mode ≡ Mode.remote id
      → s.actions.cfg.enabled ≡ true
      → is_modifier key ≡ false
      → bound_under s.actions key no_mods ≡ none
      → starts_chord key s.actions.cfg.bindings ≡ true
      → (t : Session F) × (on_local_key now s KeyKind.down key
          ≡ done (t, Action.send (Message.key KeyKind.down key) ∷ []))
        × ((u : Session F) × (on_local_key now t KeyKind.up key ≡ done (u, [])))
  unfolding on_local_key forward_while_remote
  on_local_key_stuck id now key m e k u c =
      let at_home = is_local s.cursor.mode in
      let (first, later) = key_down_withholds_release now s.actions key no_mods at_home e k u c in
      let t = record s { actions = (key_down now s.actions key no_mods at_home).0 } in
      (
        t,
        ap (after_down t key) first
            ∙ ap (λ r. done r) (forwarded id (Message.key KeyKind.down key) t m),
        (
          record t { actions = (key_up t.actions key).0 },
          ap (after_up (record t { actions = (key_up t.actions key).0 }) key) later,
        ),
      )
