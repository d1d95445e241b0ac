-- ===== src/Kconfig/Toggle/Examples.antt =====
-- scripts/kconfig/symbol.c: symbols that a user toggles.
use embtoolkit.Base.{◌≡◌, refl, ◌⊎◌, true, false, [], ◌∷◌, none, some}
use embtoolkit.Kconfig.Tristate.{Tristate, tri_no, tri_mod, tri_yes}
use embtoolkit.Kconfig.Symbol.{tristate}
use embtoolkit.Kconfig.Calc.{Entry, Limits, sym_tristate_within_range}
use embtoolkit.Kconfig.Toggle.{UserState, sym_toggle_tristate_value}
use embtoolkit.Kconfig.Toggle.Reached.{
  sym_toggle_tristate_value-sets, sym_toggle_tristate_value-reaches,
}

abbrev entry : Entry
entry = record {
  sym_type = tristate;
  is_choice = false;
  is_choice_value = false;
  prompts = none ∷ [];
  defaults = [];
  dir_dep = none;
  rev_dep = none;
  user = none;
}

-- Selected by a module, and visible.
abbrev limits : Limits
limits = record { visible = tri_yes; dir_dep = tri_yes; rev_dep = tri_mod }

abbrev start : UserState
start = record {
  curr = tri_yes;
  tri = tri_no;
  is_set = false;
  chosen = false;
  choice_set = false;
  members = [];
  changed = false;
  all_valid = true;
}

sym_toggle_tristate_value-sets_example :
    (r : Tristate × UserState) × (sym_toggle_tristate_value tri_yes entry limits start ≡ some r)
    × ((sym_tristate_within_range tri_yes entry limits r.0 ≡ true) ⊎ (r.0 ≡ start.curr))
    × (r.1.tri ≡ r.0)
    × (r.1.is_set ≡ true)
sym_toggle_tristate_value-sets_example = sym_toggle_tristate_value-sets tri_yes entry limits start

mod_in_range : sym_tristate_within_range tri_yes entry limits tri_mod ≡ true
unfolding sym_tristate_within_range
mod_in_range = refl

sym_toggle_tristate_value-reaches_example :
    (start.curr ≡ tri_mod)
    ⊎ ((r : Tristate × UserState) × (sym_toggle_tristate_value tri_yes entry limits start ≡ some r)
        × ((r.0 ≡ tri_mod)
            ⊎ ((q : Tristate × UserState) × (sym_toggle_tristate_value tri_yes entry limits
                    (record r.1 { curr = r.0 })
                  ≡ some q)
                × (q.0 ≡ tri_mod))))
sym_toggle_tristate_value-reaches_example =
    sym_toggle_tristate_value-reaches tri_yes entry limits start tri_mod mod_in_range
