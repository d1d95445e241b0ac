-- ===== src/Kconfig/Expr/Transform/Value.antt =====
-- scripts/kconfig/expr.c: expr_transform keeps the value of an expression.
use embtoolkit.Base.{ℕ, zero, suc, ◌≡◌, refl, ap, ◌∙◌, Option, some, >>=-eq-some, arith}
use embtoolkit.Kconfig.Tristate.{tri_no, tri_mod, tri_yes, expr_not}
use embtoolkit.Kconfig.Symbol.{Symbols, SymbolType, boolean, Values, IsCalculated}
use embtoolkit.Kconfig.Expr.{
  Expr, symbol, not_expr, equal, unequal, or_expr, and_expr, expr_calc_value,
}
use embtoolkit.Kconfig.Expr.Constants.{equal-constant, unequal-constant}
use embtoolkit.Kconfig.Expr.Transform.{
  transform_equal, transform_unequal, transform_not_symbol, transform_not, expr_transform,
}

module _ {st : Symbols} {v : Values} (calc : IsCalculated st v) where
  transform_equal-value :
      (t : SymbolType) (l r : ℕ)
      → st.sym_type l ≡ t
      → expr_calc_value st v (transform_equal t l r) ≡ expr_calc_value st v (equal l r)
  unfolding expr_calc_value
  transform_equal-value boolean l r h = ground (
    arith,
    equal-constant calc l r tri_no (rw h),
    equal-constant calc l r tri_mod (rw h),
    equal-constant calc l r tri_yes (rw h),
    calc.boolean_value l h,
    calc.constants.no_tri,
  )
  transform_equal-value _ l r h = refl

  transform_unequal-value :
      (t : SymbolType) (l r : ℕ)
      → st.sym_type l ≡ t
      → expr_calc_value st v (transform_unequal t l r) ≡ expr_calc_value st v (unequal l r)
  unfolding expr_calc_value
  transform_unequal-value boolean l r h = ground (
    arith,
    unequal-constant calc l r tri_no (rw h),
    unequal-constant calc l r tri_mod (rw h),
    unequal-constant calc l r tri_yes (rw h),
    calc.boolean_value l h,
    calc.constants.yes_tri,
  )
  transform_unequal-value _ l r h = refl

  transform_not_symbol-value :
      (s : ℕ) → expr_calc_value st v (transform_not_symbol s) ≡ expr_not (v.tri s)
  unfolding expr_calc_value
  transform_not_symbol-value s =
      ground (arith, calc.constants.no_tri, calc.constants.mod_tri, calc.constants.yes_tri)

  -- What a call of expr_transform that returns keeps.
  abbrev Keeps : (Expr → Option Expr) → Type 0
  Keeps run = (e e' : Expr) → run e ≡ some e' → expr_calc_value st v e' ≡ expr_calc_value st v e

  transform_not-value :
      (again : Expr → Option Expr)
      → Keeps again
      → (e e' : Expr) → transform_not again e ≡ some e'
      → expr_calc_value st v e' ≡ expr_not (expr_calc_value st v e)
  unfolding expr_calc_value
  transform_not-value again keep (not_expr a) e' h = ground (arith, keep a e' h)
  transform_not-value again keep (equal l r) e' h = ground arith
  transform_not-value again keep (unequal l r) e' h = ground arith
  transform_not-value again keep (or_expr a b) e' h =
      ground (arith, keep (and_expr (not_expr a) (not_expr b)) e' h)
  transform_not-value again keep (and_expr a b) e' h =
      ground (arith, keep (or_expr (not_expr a) (not_expr b)) e' h)
  transform_not-value again keep (symbol s) e' h = ground (arith, transform_not_symbol-value s)
  transform_not-value again keep _ e' h = ground arith

  -- What expr_transform returns has the value of what it is given.
  pub expr_transform-value :
      (f : ℕ) (e e' : Expr)
      → expr_transform st f e ≡ some e'
      → expr_calc_value st v e' ≡ expr_calc_value st v e
  unfolding expr_transform expr_calc_value
  expr_transform-value zero e e' h = cc
  expr_transform-value (suc f) (equal l r) e' h =
      ground (arith, transform_equal-value (st.sym_type l) l r refl)
  expr_transform-value (suc f) (unequal l r) e' h =
      ground (arith, transform_unequal-value (st.sym_type l) l r refl)
  expr_transform-value (suc f) (and_expr l r) e' h =
      let (l', hl, rest) = >>=-eq-some (expr_transform st f l) _ h in
      let (r', hr, last) = >>=-eq-some (expr_transform st f r) _ rest in
      ground (arith, expr_transform-value f l l' hl, expr_transform-value f r r' hr)
  expr_transform-value (suc f) (or_expr l r) e' h =
      let (l', hl, rest) = >>=-eq-some (expr_transform st f l) _ h in
      let (r', hr, last) = >>=-eq-some (expr_transform st f r) _ rest in
      ground (arith, expr_transform-value f l l' hl, expr_transform-value f r r' hr)
  expr_transform-value (suc f) (not_expr x) e' h =
      let (x', hx, rest) = >>=-eq-some (expr_transform st f x) _ h in
      transform_not-value (expr_transform st f) (expr_transform-value f) x' e' rest
      ∙ ap expr_not (expr_transform-value f x x' hx)
  expr_transform-value (suc f) _ e' h = ground arith
