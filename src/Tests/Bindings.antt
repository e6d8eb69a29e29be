-- ===== src/Tests/Bindings.antt =====
-- An engine with the default bindings, and one with a chord.
use kvmshare.Prelude.{All, List, [], arith, false, none, refl, some, true, ◌∷◌, ◌≡◌}
use kvmshare.Actions.{
  BindSection, Binding, UserAction, any_mod, ctrl_l, cycle_word, is_modifier, mods_eq, no_mods,
}
use kvmshare.Actions.Engine.{
  ActionEngine, chord_down, fire, key_down, key_up, matches, plain_down, tick,
}
use kvmshare.Actions.Releases.{
  IsBeside, bound_under, key_down_consumes_release, key_down_withholds_release,
}
use kvmshare.Actions.Safety.{Event, run}

abbrev cycling : Binding
cycling = record { mods = no_mods; key = 71; action = cycle_word; screen = [] }

abbrev chorded : Binding
chorded = record {
  mods = record no_mods { ctrl = true };
  key = 4;
  action = cycle_word;
  screen = [];
}

abbrev section : BindSection
section = record { enabled = true; bindings = cycling ∷ chorded ∷ [] }

abbrev engine : ActionEngine
engine = record {
  cfg = section;
  mods = no_mods;
  pending = none;
  fired = none;
  owned = [];
  last_seen = none;
}

fires : (key_down 5 engine 71 no_mods true).1 ≡ some UserAction.switch_next
unfolding key_down is_modifier any_mod tick plain_down chord_down matches mods_eq fire
fires = refl

abbrev after : ActionEngine
after = (key_down 5 engine 71 no_mods true).0

abbrev between : List Event
between = Event.down 6 ctrl_l no_mods true ∷ Event.up 4 ∷ []

between-IsBeside : All (IsBeside 71) between
unfolding is_modifier
between-IsBeside = (refl, (omega arith, tt))

key_down_consumes_release_example :
    key_up (run after between) 71 ≡ (record (run after between) { fired = none }, some 71)
key_down_consumes_release_example =
    key_down_consumes_release 5 engine 71 no_mods true UserAction.switch_next between fires
      between-IsBeside

unbound : bound_under engine 4 no_mods ≡ none
unfolding matches mods_eq any_mod
unbound = refl

not_modifier : is_modifier 4 ≡ false
unfolding is_modifier
not_modifier = refl

key_down_withholds_release_example :
    ((key_down 5 engine 4 no_mods true).1 ≡ none)
    × ((key_up (key_down 5 engine 4 no_mods true).0 4).1 ≡ some 4)
key_down_withholds_release_example =
    key_down_withholds_release 5 engine 4 no_mods true refl not_modifier unbound refl
