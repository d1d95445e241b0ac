-- ===== src/Kconfig/Choice/Examples.antt =====
-- scripts/kconfig/symbol.c: a choice between FOO and BAR whose user value is hidden.
use embtoolkit.Base.{◌≡◌, refl, true, false, [], ◌∷◌, some, ◌==◌, if◌then◌else◌}
use embtoolkit.Kconfig.Tristate.{tri_no, tri_yes}
use embtoolkit.Kconfig.Samples.{foo, bar, sample_symbols, sample_values}
use embtoolkit.Kconfig.Choice.{
  Choice, Shown, first_visible, first_default, all_user, sym_calc_choice,
}
use embtoolkit.Kconfig.Choice.Visible.{Selects, sym_calc_choice-Selects}

abbrev flavours : Choice
flavours = record {
  defaults = [];
  values = foo ∷ bar ∷ [];
  user = some foo;
  tri = tri_yes;
  has_user = true;
}

abbrev bar_shown : Shown
bar_shown = record { visible = λ s. if s == bar then tri_yes else tri_no; def_user = λ s. false }

flavours-bar : (sym_calc_choice sample_symbols sample_values bar_shown flavours).0 ≡ some bar
unfolding sym_calc_choice first_default first_visible all_user
flavours-bar = refl

sym_calc_choice-Selects_example :
    Selects sample_symbols sample_values bar_shown flavours
      (sym_calc_choice sample_symbols sample_values bar_shown flavours)
sym_calc_choice-Selects_example =
    sym_calc_choice-Selects sample_symbols sample_values bar_shown flavours
