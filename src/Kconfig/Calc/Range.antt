-- ===== src/Kconfig/Calc/Range.antt =====
-- scripts/kconfig/symbol.c: a value that sym_tristate_within_range accepts is the value that
-- sym_calc_value finds once the user has set it.
use embtoolkit.Base.{◌≡◌, ◌≢◌, ap, ◌∙◌, Bool, true, false, some, ◌&&◌, arith}
use embtoolkit.Kconfig.Tristate.{Tristate, tri_no, tri_mod, tri_yes, expr_or, expr_and, tri_eq}
use embtoolkit.Kconfig.Symbol.{Symbols, Values}
use embtoolkit.Kconfig.Calc.{
  Entry, Limits, is_boolean, sym_get_type, promote, sym_tristate_within_range, sym_calc_visibility,
  fallback, user_value, calc_tristate, calc_newval,
}
use embtoolkit.Kconfig.Calc.Cases.{unchosen, user_value-some, and_false}

-- What the tests of sym_tristate_within_range say of another symbol than a value of a choice.
range-facts :
    (modules_val : Tristate) (s : Entry) (l : Limits) (val : Tristate)
    → s.is_choice_value ≡ false
    → sym_tristate_within_range modules_val s l val ≡ true
    → (l.visible ≢ tri_no)
      × (is_boolean (sym_get_type modules_val s l.visible) && tri_eq val tri_mod ≡ false)
      × (expr_or (expr_and val l.visible) l.rev_dep ≡ val)
unfolding sym_tristate_within_range
range-facts modules_val s l val c h = ground (arith, c, h)

promote-keeps : (b : Bool) (t : Tristate) → b && tri_eq t tri_mod ≡ false → promote b t ≡ t
promote-keeps b t h = ground (arith, h)

module _ (st : Symbols) (v : Values) (modules_val : Tristate) (s : Entry)
    (chosen write : Bool) where
  calc_tristate-in_range :
      (l : Limits) (val : Tristate)
      → s.is_choice_value ≡ false
      → s.user ≡ some val
      → sym_tristate_within_range modules_val s l val ≡ true
      → calc_tristate st v modules_val s chosen l ≡ val
  calc_tristate-in_range l val c e h =
      let b = is_boolean (sym_get_type modules_val s l.visible) in
      let f = range-facts modules_val s l val c h in
      let u =
        unchosen st v modules_val s chosen l
          (and_false s.is_choice_value (tri_eq l.visible tri_yes) c) in
      let g =
        ap (user_value (fallback st v s) l.visible) e
        ∙ user_value-some (fallback st v s) l.visible val f.0 in
      u ∙ ap (λ t. promote b (expr_or t l.rev_dep)) g ∙ ap (promote b) f.2 ∙ promote-keeps b val f.1

  -- A value that is within the range of a symbol, which is no choice value, by its new limits, and
  -- that the user has set, is the value that the symbol gets.
  pub calc_newval-in_range :
      (old : Limits) (val : Tristate)
      → s.is_choice_value ≡ false
      → s.user ≡ some val
      → sym_tristate_within_range modules_val s
          (calc_newval st v modules_val s chosen write old).limits
          val
        ≡ true
      → (calc_newval st v modules_val s chosen write old).tri ≡ val
  unfolding calc_newval
  calc_newval-in_range old val c e h =
      calc_tristate-in_range (sym_calc_visibility st v modules_val s old) val c e h
