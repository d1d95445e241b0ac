-- ===== src/Kconfig/Expr/Constants.antt =====
-- scripts/kconfig/expr.c: the value of a comparison of a boolean or tristate symbol with y, m or n.
use embtoolkit.Base.{ℕ, ◌≡◌, true, if◌then◌else◌}
use embtoolkit.Kconfig.Tristate.{Tristate, tri_no, tri_mod, tri_yes, tri_eq}
use embtoolkit.Kconfig.Symbol.{
  Symbols, unknown, Values, IsCalculated, constant_test, constant_text, is_bool_type, symbol_no,
  symbol_mod, symbol_yes,
}
use embtoolkit.Kconfig.Expr.{equal, unequal, expr_calc_value}

abbrev pub constant : Tristate → ℕ
constant tri_no = symbol_no
constant tri_mod = symbol_mod
constant tri_yes = symbol_yes

module _ {st : Symbols} {v : Values} (calc : IsCalculated st v) where
  constant-type : (c : Tristate) → st.sym_type (constant c) ≡ unknown
  constant-type tri_no = calc.constants.no_type
  constant-type tri_mod = calc.constants.mod_type
  constant-type tri_yes = calc.constants.yes_type

  constant-val : (c : Tristate) → v.val (constant c) ≡ constant_text c
  constant-val tri_no = calc.constants.no_val
  constant-val tri_mod = calc.constants.mod_val
  constant-val tri_yes = calc.constants.yes_val

  pub equal-constant :
      (s r : ℕ) (c : Tristate)
      → is_bool_type (st.sym_type s) ≡ true
      → r ≡ constant c
      → expr_calc_value st v (equal s r) ≡ (if tri_eq (v.tri s) c then tri_yes else tri_no)
  unfolding expr_calc_value
  equal-constant s r c h e =
      rw e (rw (constant_test st v calc s (constant c) c h (constant-type c) (constant-val c)))

  pub unequal-constant :
      (s r : ℕ) (c : Tristate)
      → is_bool_type (st.sym_type s) ≡ true
      → r ≡ constant c
      → expr_calc_value st v (unequal s r) ≡ (if tri_eq (v.tri s) c then tri_no else tri_yes)
  unfolding expr_calc_value
  unequal-constant s r c h e =
      rw e (rw (constant_test st v calc s (constant c) c h (constant-type c) (constant-val c)))
