-- ===== src/Kconfig/Calc/Bounds.antt =====
-- scripts/kconfig/symbol.c: what holds of the value that sym_calc_value gives a symbol.
use embtoolkit.Base.{◌≡◌, ◌≢◌, ◌≤◌, Bool, true, false, some, ◌&&◌, ◌||◌, sym, subst, ◌∙◌}
use embtoolkit.Kconfig.Tristate.{Tristate, tri_no, tri_mod, tri_yes, rank, expr_or, tri_eq}
use embtoolkit.Kconfig.Symbol.{Symbols, Values}
use embtoolkit.Kconfig.Calc.{
  Entry, Limits, is_boolean, is_tristate, sym_get_type, visible_value, sym_calc_visibility,
  calc_tristate, Calculated, fresh_limits, calc_newval, rev_dep_value,
}
use embtoolkit.Kconfig.Calc.Cases.{
  promote-mod, true-false, if_false_limits, calc_tristate-mod, calc_tristate-selected,
  calc_write-tri, user_value-bound, visible-other,
}

module _ (st : Symbols) (v : Values) (modules_val : Tristate) (s : Entry) (chosen write : Bool)
    (old : Limits) where
  abbrev result : Calculated
  result = calc_newval st v modules_val s chosen write old

  -- For a boolean or tristate symbol: the value m is left only to a tristate symbol, and only while
  -- the modules symbol is not n.
  pub calc_newval-mod :
      is_boolean s.sym_type || is_tristate s.sym_type ≡ true
      → result.tri ≡ tri_mod
      → (is_tristate s.sym_type ≡ true) × (modules_val ≢ tri_no)
  unfolding calc_newval
  calc_newval-mod k h =
      calc_tristate-mod st v modules_val s chosen (sym_calc_visibility st v modules_val s old) k h

  -- Unless the symbol is a visible value of a choice, its value is at least that of its selects.
  pub calc_newval-selected :
      s.is_choice_value && tri_eq result.limits.visible tri_yes ≡ false
      → rank result.limits.rev_dep ≤ rank result.tri
  unfolding calc_newval
  calc_newval-selected h =
      calc_tristate-selected st v modules_val s chosen (sym_calc_visibility st v modules_val s old)
        h

  -- Unless the symbol is a visible value of a choice, SYMBOL_WRITE is set where its value is not n.
  pub calc_newval-write :
      s.is_choice_value && tri_eq result.limits.visible tri_yes ≡ false
      → result.tri ≢ tri_no
      → result.write ≡ true
  unfolding calc_newval
  calc_newval-write h k =
      calc_write-tri st v modules_val s chosen write (sym_calc_visibility st v modules_val s old) h
        k

  -- The value that the user gives a visible symbol that is no choice value is cut to what its prompts
  -- or its selects allow.
  pub calc_newval-bound :
      (u : Tristate)
      → s.user ≡ some u
      → s.is_choice_value ≡ false
      → visible_value st v modules_val s ≢ tri_no
      → rank result.tri ≤ rank (expr_or result.limits.visible result.limits.rev_dep)
  unfolding calc_newval
  calc_newval-bound u e c n =
      let f = fresh_limits st v modules_val s in
      let b =
        promote-mod (is_boolean (sym_get_type modules_val s f.visible))
          (rev_dep_value st v s.rev_dep) in
      subst
        (λ l. rank (calc_tristate st v modules_val s chosen l) ≤ rank (expr_or l.visible l.rev_dep))
        (sym (if_false_limits s.is_choice_value (record old { visible = f.visible }) f c))
        (user_value-bound st v modules_val s u f e c n
          (visible-other st v modules_val s c f.visible) (λ t h. true-false (sym t ∙ b h)) chosen)
