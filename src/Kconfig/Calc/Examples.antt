-- ===== src/Kconfig/Calc/Examples.antt =====
-- scripts/kconfig/symbol.c: the theorems on the value of a symbol at a tristate that the user has
-- set to y, whose prompt depends on BAR, which is m.
use embtoolkit.Base.{◌≡◌, ◌≢◌, ◌≤◌, refl, true, false, [], ◌∷◌, some, none}
use embtoolkit.Kconfig.Tristate.{tri_no, tri_mod, tri_yes, rank, expr_or}
use embtoolkit.Kconfig.Symbol.{tristate}
use embtoolkit.Kconfig.Expr.{symbol, expr_calc_value}
use embtoolkit.Kconfig.Samples.{bar, sample_symbols, sample_values}
use embtoolkit.Kconfig.Calc.{
  Entry, Limits, Calculated, is_tristate, sym_tristate_within_range, prompts_value, calc_newval,
}
use embtoolkit.Kconfig.Calc.Range.{calc_newval-in_range}
use embtoolkit.Kconfig.Calc.Bounds.{calc_newval-mod, calc_newval-selected, calc_newval-bound}

abbrev driver : Entry
driver = record {
  sym_type = tristate;
  is_choice = false;
  is_choice_value = false;
  prompts = some (symbol bar) ∷ [];
  defaults = [];
  dir_dep = none;
  rev_dep = none;
  user = some tri_yes;
}

abbrev unset : Limits
unset = record { visible = tri_no; dir_dep = tri_no; rev_dep = tri_no }

abbrev driver_result : Calculated
driver_result = calc_newval sample_symbols sample_values tri_yes driver false false unset

driver_tri : driver_result.tri ≡ tri_mod
unfolding calc_newval prompts_value expr_calc_value
driver_tri = refl

driver_write : driver_result.write ≡ true
unfolding calc_newval prompts_value expr_calc_value
driver_write = refl

calc_newval-mod_example : (is_tristate tristate ≡ true) × (tri_yes ≢ tri_no)
calc_newval-mod_example =
    calc_newval-mod sample_symbols sample_values tri_yes driver false false unset refl driver_tri

calc_newval-selected_example : rank driver_result.limits.rev_dep ≤ rank driver_result.tri
calc_newval-selected_example =
    calc_newval-selected sample_symbols sample_values tri_yes driver false false unset refl

calc_newval-bound_example :
    rank driver_result.tri
    ≤ rank (expr_or driver_result.limits.visible driver_result.limits.rev_dep)
unfolding prompts_value expr_calc_value
calc_newval-bound_example =
    calc_newval-bound sample_symbols sample_values tri_yes driver false false unset tri_yes refl
      refl (λ e. cc)

-- The same symbol set to m, which is within its range.
abbrev module_driver : Entry
module_driver = record driver { user = some tri_mod }

calc_newval-in_range_example :
    (calc_newval sample_symbols sample_values tri_yes module_driver false false unset).tri ≡ tri_mod
unfolding calc_newval sym_tristate_within_range prompts_value expr_calc_value
calc_newval-in_range_example =
    calc_newval-in_range sample_symbols sample_values tri_yes module_driver false false unset
      tri_mod refl refl refl
