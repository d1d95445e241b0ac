-- ===== src/Kconfig/Expr/Compare/Depends.antt =====
-- scripts/kconfig/expr.c: what expr_depends_symbol promises.
use embtoolkit.Base.{ℕ, ◌≡◌, ◌≢◌, true, ◌==◌, ==_iff, ◌&&◌, ◌||◌, ◌∙◌, ap, arith, Bool}
use embtoolkit.Kconfig.Tristate.{Tristate, tri_no, tri_mod, tri_yes, expr_and}
use embtoolkit.Kconfig.Symbol.{
  Symbols, Values, IsCalculated, is_bool_type, symbol_no, symbol_mod, symbol_yes,
}
use embtoolkit.Kconfig.Expr.{
  Expr, symbol, equal, unequal, and_expr, expr_calc_value, expr_depends_symbol,
  expr_contains_symbol,
}
use embtoolkit.Kconfig.Expr.Constants.{equal-constant, unequal-constant}

-- A conjunction is n if one of its operands is.
and-no :
    (a b : Tristate) (p : Bool) (q : Bool) (t : Tristate)
    → (p ≡ true → a ≢ tri_no → t ≢ tri_no)
    → (q ≡ true → b ≢ tri_no → t ≢ tri_no)
    → (p || q) ≡ true
    → expr_and a b ≢ tri_no
    → t ≢ tri_no
and-no a b p q t h k d n = ground (arith, h, k)

module _ {st : Symbols} {v : Values} (calc : IsCalculated st v) (sym : ℕ) where
  equal-needs :
      (l r : ℕ)
      → is_bool_type (st.sym_type sym) ≡ true
      → (l == sym && (r == symbol_yes || r == symbol_mod)) ≡ true
      → expr_calc_value st v (equal l r) ≢ tri_no
      → v.tri sym ≢ tri_no
  equal-needs l r h d n =
      let p : l ≡ sym = ground arith in
      let typed : is_bool_type (st.sym_type l) ≡ true = rw p h in
      ground (
        arith,
        equal-constant calc l r tri_yes typed,
        equal-constant calc l r tri_mod typed,
        n,
        ap v.tri p,
      )

  unequal-needs :
      (l r : ℕ)
      → is_bool_type (st.sym_type sym) ≡ true
      → (l == sym && r == symbol_no) ≡ true
      → expr_calc_value st v (unequal l r) ≢ tri_no
      → v.tri sym ≢ tri_no
  unequal-needs l r h d n =
      let p : l ≡ sym = ground arith in
      let typed : is_bool_type (st.sym_type l) ≡ true = rw p h in
      ground (arith, unequal-constant calc l r tri_no typed, n, ap v.tri p)

-- For a boolean or tristate symbol on which an expression depends, the expression is n whenever
-- the symbol is.
pub expr_depends_symbol-needs :
    (st : Symbols) (v : Values)
    → IsCalculated st v
    → (sym : ℕ) → is_bool_type (st.sym_type sym) ≡ true
    → (e : Expr) → expr_depends_symbol e sym ≡ true
    → expr_calc_value st v e ≢ tri_no
    → v.tri sym ≢ tri_no
unfolding expr_depends_symbol expr_calc_value
expr_depends_symbol-needs st v calc sym h (and_expr l r) d n =
    and-no (expr_calc_value st v l) (expr_calc_value st v r) (expr_depends_symbol l sym)
      (expr_depends_symbol r sym) (v.tri sym) (expr_depends_symbol-needs st v calc sym h l)
      (expr_depends_symbol-needs st v calc sym h r) d n
expr_depends_symbol-needs st v calc sym h (symbol s) d n =
    λ e. n (ap v.tri ((==_iff s sym).0 d) ∙ e)
expr_depends_symbol-needs st v calc sym h (equal l r) d n = equal-needs calc sym l r h d n
expr_depends_symbol-needs st v calc sym h (unequal l r) d n = unequal-needs calc sym l r h d n
expr_depends_symbol-needs st v calc sym h _ d n = cc

-- An expression contains each symbol on which it depends.
pub expr_depends_symbol-contains :
    (e : Expr) (sym : ℕ) → expr_depends_symbol e sym ≡ true → expr_contains_symbol e sym ≡ true
unfolding expr_depends_symbol expr_contains_symbol
expr_depends_symbol-contains (and_expr l r) sym d =
    ground (arith, expr_depends_symbol-contains l sym, expr_depends_symbol-contains r sym)
expr_depends_symbol-contains (symbol s) sym d = d
expr_depends_symbol-contains (equal l r) sym d = ground arith
expr_depends_symbol-contains (unequal l r) sym d = ground arith
expr_depends_symbol-contains _ sym d = cc
