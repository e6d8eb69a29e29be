-- ===== src/Actions/Safety.antt =====
-- Only safe bindings fire.
use kvmshare.Prelude.{Bool, In, List, [], false, if◌then◌else◌, some, true, ℕ, ◌∷◌, ◌≡◌, ◌≤◌, ◌⊎◌}
use kvmshare.Actions.{BindSection, Binding, Mods, UserAction, any_mod, bare_safe, is_modifier}
use kvmshare.Actions.Engine.{
  ActionEngine, effective_mods, fire, key_down, key_up, matches, set_config,
}

-- A binding that may be swallowed: a real key, no modifier by itself, and either with a modifier
-- held or a key whose bare press means nothing to applications.
abbrev pub IsSafe : Binding → Type 0
IsSafe b =
    (4 ≤ b.key) × (is_modifier b.key ≡ false) × ((any_mod b.mods ≡ true) ⊎ (bare_safe b.key ≡ true))

-- What can happen to an engine.
pub data Event : Type 0 where
  down : ℕ → ℕ → Mods → Bool → Event
  up : ℕ → Event
  reload : BindSection → Event

unfoldable pub step : ActionEngine → Event → ActionEngine
step e (Event.down now key hint at_home) = (key_down now e key hint at_home).0
step e (Event.up key) = (key_up e key).0
step e (Event.reload cfg) = set_config e cfg

unfoldable pub run : ActionEngine → List Event → ActionEngine
run e [] = e
run e (v ∷ vs) = run (step e v) vs

-- The section loaded last.
abbrev pub loaded : BindSection → List Event → BindSection
loaded cfg [] = cfg
loaded cfg (Event.down now key hint at_home ∷ vs) = loaded cfg vs
loaded cfg (Event.up key ∷ vs) = loaded cfg vs
loaded cfg (Event.reload new ∷ vs) = loaded new vs

-- What fires: a binding of the engine on this key, under the modifiers held.
record Fires (e : ActionEngine) (key : ℕ) (m : Mods) (h : Bool) (a : UserAction) : Type 0 where
  pub binding : Binding
  pub listed : In binding e.cfg.bindings
  pub on_key : matches key (effective_mods e m) binding ≡ true
  pub fires : fire binding h ≡ some a

-- The modifiers that the engine has seen held, and without any those of the platform's hint.
abbrev pub held : ActionEngine → Mods → Mods
held e hint = if any_mod e.mods then e.mods else hint

-- An action is that of a binding of a section, which stands on the key, under exactly the modifiers
-- held, and is safe to swallow.
pub record FiresSafely (cfg : BindSection) (key : ℕ) (m : Mods) (at_home : Bool) (a : UserAction)
    : Type 0 where
  pub binding : Binding
  pub listed : In binding cfg.bindings
  pub on_key : binding.key ≡ key
  pub under : binding.mods ≡ m
  pub safe : IsSafe binding
  pub fires : fire binding at_home ≡ some a
