-- ===== src/Actions/Engine.antt =====
-- `ActionEngine`: the bindings and the chord in progress.
use kvmshare.Prelude.{
  Bool, List, Option, [], any, bytes_eq, false, find_by, if◌then◌else◌, ltb, none, not, some, true,
  ℕ, ◌&&◌, ◌++◌, ◌==◌, ◌∷◌,
}
use kvmshare.Actions.{
  BindSection, Binding, Mods, UserAction, any_mod, apply_key, cycle_word, home_word, is_modifier,
  lock_word, mods_eq, no_mods, sanitized, switch_word,
}
use kvmshare.Prelude.Clock.{elapsed, millis}

-- `CHORD_LINGER`, five seconds.
abbrev pub chord_linger : ℕ
chord_linger = millis 5000

pub record PendingChord : Type 0 where
  pub key : ℕ
  pub mods : Mods
  pub at : ℕ

pub record ActionEngine : Type 0 where
  pub cfg : BindSection
  pub mods : Mods
  pub pending : Option PendingChord
  pub fired : Option ℕ
  pub owned : List ℕ
  pub last_seen : Option (Mods × ℕ)

unfoldable pub new_engine : BindSection → ActionEngine
new_engine cfg = record {
  cfg = sanitized cfg;
  mods = no_mods;
  pending = none;
  fired = none;
  owned = [];
  last_seen = none;
}

unfoldable pub set_config : ActionEngine → BindSection → ActionEngine
set_config e cfg = record e { pending = none; cfg = sanitized cfg }

abbrev pub expire : ℕ → Option PendingChord → Option PendingChord
expire now none = none
expire now (some p) = if ltb chord_linger (elapsed now p.at) then none else some p

unfoldable pub tick : ℕ → ActionEngine → ActionEngine
tick now e = record e { pending = expire now e.pending }

unfoldable pub fire : Binding → Bool → Option UserAction
fire spec at_home =
    if bytes_eq spec.action switch_word && not (bytes_eq spec.screen [])
    then some (UserAction.switch_to_screen spec.screen)
    else if bytes_eq spec.action cycle_word
    then some UserAction.switch_next
    else if bytes_eq spec.action lock_word
    then some UserAction.toggle_lock
    else if bytes_eq spec.action home_word && not at_home
    then some UserAction.go_home
    else none

abbrev pub pending_mods : Mods → Option PendingChord → Option PendingChord
pending_mods m none = none
pending_mods m (some p) = some (record p { mods = m })

-- `find` and `any` over the bindings.
unfoldable pub matches : ℕ → Mods → Binding → Bool
matches key mods b = b.key == key && mods_eq b.mods mods

unfoldable pub is_bound : ActionEngine → Mods → ℕ → Bool
is_bound e mods key = any (matches key mods) e.cfg.bindings

abbrev pub starts_chord : ℕ → List Binding → Bool
starts_chord key = any λ b. b.key == key

-- `key_down` on a modifier: it only updates the live set.
unfoldable pub modifier_down : ActionEngine → ℕ → ActionEngine
modifier_down e key =
    let held = apply_key e.mods key true in
    record e { mods = held; pending = pending_mods held e.pending }

-- `key_down` on another key, from the lookup of its binding on.
unfoldable pub chord_down :
    ℕ → ActionEngine → ℕ → Mods → Bool → Option Binding → ActionEngine × Option UserAction
chord_down now e key effective at_home (some b) = (record e { fired = some key }, fire b at_home)
chord_down now e key effective at_home none =
    if starts_chord key e.cfg.bindings
    then (
      record e {
        pending = some (record { key = key; mods = effective; at = now });
        owned = e.owned ++ key ∷ [];
      },
      none,
    )
    else (e, none)

abbrev pub effective_mods : ActionEngine → Mods → Mods
effective_mods e hint = if any_mod e.mods then e.mods else hint

-- `key_down`: a second key abandons the pending chord and is then matched.
unfoldable pub plain_down : ℕ → ActionEngine → ℕ → Mods → Bool → ActionEngine × Option UserAction
plain_down now e key hint at_home =
    let effective = effective_mods e hint in
    chord_down now (record e { pending = none; last_seen = some (effective, key) }) key effective
      at_home (find_by (matches key effective) e.cfg.bindings)

unfoldable pub key_down : ℕ → ActionEngine → ℕ → Mods → Bool → ActionEngine × Option UserAction
key_down now e key hint at_home =
    if not e.cfg.enabled
    then (e, none)
    else if is_modifier key
    then (modifier_down (tick now e) key, none)
    else plain_down now (tick now e) key hint at_home

-- `owned.iter().position` and `owned.remove`.
unfoldable pub remove_first : ℕ → List ℕ → List ℕ
remove_first key [] = []
remove_first key (k ∷ ks) = if k == key then ks else k ∷ remove_first key ks

abbrev pub is_key : ℕ → Option ℕ → Bool
is_key key none = false
is_key key (some k) = k == key

abbrev pub is_pending : ℕ → Option PendingChord → Bool
is_pending key none = false
is_pending key (some p) = p.key == key

unfoldable pub key_up : ActionEngine → ℕ → ActionEngine × Option ℕ
key_up e key =
    if is_modifier key
    then (record e { mods = apply_key e.mods key false }, none)
    else if is_key key e.fired
    then (record e { fired = none }, some key)
    else if any (λ k. k == key) e.owned
    then (record e { owned = remove_first key e.owned }, some key)
    else if is_pending key e.pending
    then (e, some key)
    else (e, none)
