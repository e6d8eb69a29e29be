-- ===== src/Actions/Releases.antt =====
-- Which presses the engine takes, and which releases.
use kvmshare.Prelude.{
  All, Bool, List, Option, Option-cases, [], any, ap, arith, false, find_by, inl, inr, none, refl,
  some, sym, true, ℕ, ◌++◌, ◌==◌, ◌∙◌, ◌∷◌, ◌≡◌,
}
use kvmshare.Actions.{Binding, Mods, UserAction, is_modifier}
use kvmshare.Actions.Engine.{
  ActionEngine, chord_down, effective_mods, key_down, key_up, matches, modifier_down, plain_down,
  set_config, starts_chord, tick,
}
use kvmshare.Actions.Safety.{Event, run, step}

-- Whether a press does more than pass through: it completes a chord of the engine, or starts one.
abbrev pub bound_under : ActionEngine → ℕ → Mods → Option Binding
bound_under e key hint = find_by (matches key (effective_mods e hint)) e.cfg.bindings

plain_down_misses :
    (now : ℕ) (e : ActionEngine) (key : ℕ) (hint : Mods) (at_home : Bool)
    → bound_under e key hint ≡ none
    → starts_chord key e.cfg.bindings ≡ true
    → (plain_down now e key hint at_home).1 ≡ none
      × ((plain_down now e key hint at_home).0.owned ≡ e.owned ++ key ∷ [])
unfolding plain_down chord_down
plain_down_misses now e key hint at_home u s = rw (u, s) (refl, refl)

any_last : (key : ℕ) (ks : List ℕ) → any (λ k. k == key) (ks ++ key ∷ []) ≡ true
any_last key [] = ground arith
any_last key (k ∷ ks) = ground (arith, any_last key ks)

key_up_owned :
    (e : ActionEngine) (key : ℕ)
    → is_modifier key ≡ false
    → any (λ k. k == key) e.owned ≡ true
    → (key_up e key).1 ≡ some key
unfolding key_up
key_up_owned e key m o = ground arith

key_up_fired :
    (e : ActionEngine) (key : ℕ)
    → is_modifier key ≡ false
    → e.fired ≡ some key
    → key_up e key ≡ (record e { fired = none }, some key)
unfolding key_up
key_up_fired e key m f = ground arith

plain_down-fired :
    (now : ℕ) (e : ActionEngine) (key : ℕ) (hint : Mods) (at_home : Bool) (a : UserAction)
    → (plain_down now e key hint at_home).1 ≡ some a
    → (plain_down now e key hint at_home).0.fired ≡ some key
unfolding plain_down chord_down
plain_down-fired now e key hint at_home a p = elim (Option-cases (bound_under e key hint)) [
  | inl miss ↦ absurd (ground arith)
  | inr (b, hit) ↦ rw hit refl
]

key_down-plain_down :
    (now : ℕ) (e : ActionEngine) (key : ℕ) (hint : Mods) (at_home : Bool)
    → e.cfg.enabled ≡ true
    → is_modifier key ≡ false
    → key_down now e key hint at_home ≡ plain_down now (tick now e) key hint at_home
unfolding key_down
key_down-plain_down now e key hint at_home on m = ground arith

key_down_active :
    (now : ℕ) (e : ActionEngine) (key : ℕ) (hint : Mods) (at_home : Bool) (a : UserAction)
    → (key_down now e key hint at_home).1 ≡ some a
    → (e.cfg.enabled ≡ true) × (is_modifier key ≡ false)
unfolding key_down
key_down_active now e key hint at_home a p = ground arith

press_marks :
    (now : ℕ) (e : ActionEngine) (key : ℕ) (hint : Mods) (at_home : Bool) (a : UserAction)
    → (key_down now e key hint at_home).1 ≡ some a
    → (is_modifier key ≡ false) × ((key_down now e key hint at_home).0.fired ≡ some key)
press_marks now e key hint at_home a p =
    let (on, m) = key_down_active now e key hint at_home a p in
    let q = key_down-plain_down now e key hint at_home on m in
    (
      m,
      ap (λ r. r.0.fired) q
          ∙ plain_down-fired now (tick now e) key hint at_home a (ap (λ r. r.1) (sym q) ∙ p),
    )

-- What leaves the mark of a press: modifiers pressed, other keys released, a reload.
abbrev pub IsBeside : ℕ → Event → Type 0
IsBeside key (Event.down now k hint at_home) = is_modifier k ≡ true
IsBeside key (Event.up k) = ¬ k ≡ key
IsBeside key (Event.reload cfg) = Unit {0}

beside_fired :
    (e : ActionEngine) (key : ℕ) (v : Event)
    → IsBeside key v
    → e.fired ≡ some key
    → (step e v).fired ≡ some key
unfolding step key_down key_up set_config modifier_down tick
beside_fired e key (Event.down now k hint at_home) h f = ground arith
beside_fired e key (Event.up k) h f = let n : (k == key) ≡ false = ground arith in ground (arith, n)
beside_fired e key (Event.reload cfg) h f = f

run_fired :
    (e : ActionEngine) (key : ℕ) (vs : List Event)
    → All (IsBeside key) vs
    → e.fired ≡ some key
    → (run e vs).fired ≡ some key
unfolding run
run_fired e key [] h f = f
run_fired e key (v ∷ vs) h f = run_fired (step e v) key vs h.1 (beside_fired e key v h.0 f)

-- The press that fires an action owns its release: after it, and after any modifiers pressed, other
-- keys released and reloads, the release of that key is consumed, and with it the mark that the
-- press left.
pub key_down_consumes_release :
    (now : ℕ) (e : ActionEngine) (key : ℕ) (hint : Mods) (at_home : Bool) (a : UserAction)
    (vs : List Event)
    → (key_down now e key hint at_home).1 ≡ some a
    → All (IsBeside key) vs
    → let after = run (key_down now e key hint at_home).0 vs in
      key_up after key ≡ (record after { fired = none }, some key)
key_down_consumes_release now e key hint at_home a vs p h =
    let (m, f) = press_marks now e key hint at_home a p in
    key_up_fired (run (key_down now e key hint at_home).0 vs) key m
      (run_fired (key_down now e key hint at_home).0 key vs h f)

-- In an enabled engine, a press that starts a chord without completing one, of a key that is no
-- modifier, fires nothing, and yet its release is consumed.
pub key_down_withholds_release :
    (now : ℕ) (e : ActionEngine) (key : ℕ) (hint : Mods) (at_home : Bool)
    → e.cfg.enabled ≡ true
    → is_modifier key ≡ false
    → bound_under e key hint ≡ none
    → starts_chord key e.cfg.bindings ≡ true
    → ((key_down now e key hint at_home).1 ≡ none)
      × ((key_up (key_down now e key hint at_home).0 key).1 ≡ some key)
unfolding tick
key_down_withholds_release now e key hint at_home on m u s =
    let q = key_down-plain_down now e key hint at_home on m in
    let (first, owned) = plain_down_misses now (tick now e) key hint at_home u s in
    (
      ap (λ r. r.1) q ∙ first,
      key_up_owned (key_down now e key hint at_home).0 key m (
          ap (λ r. any (λ k. k == key) r.0.owned) q
          ∙ (ap (any (λ k. k == key)) owned ∙ any_last key e.owned)),
    )
