-- ===== src/Kconfig/Expr/Transform/Correct.antt =====
-- scripts/kconfig/expr.c: what expr_transform promises its callers.
use embtoolkit.Base.{ℕ, ◌*◌, ◌≤◌, ◌≡◌, some, arith}
use embtoolkit.Kconfig.Symbol.{Symbols, Values, IsCalculated}
use embtoolkit.Kconfig.Expr.{Expr, expr_calc_value}
use embtoolkit.Kconfig.Expr.Transform.{expr_transform}
use embtoolkit.Kconfig.Expr.Transform.Value.{expr_transform-value}
use embtoolkit.Kconfig.Expr.Transform.Total.{height, HasNoRange, expr_transform_total}
use embtoolkit.Kconfig.Expr.Transform.Shape.{
  IsTransformed, expr_transform-IsTransformed, expr_transform_fixed,
}

-- For calculated symbols and an expression with no E_RANGE node, fuel for twice the height is
-- enough for expr_transform to return. The result has the value of the expression, it is in the
-- normal form, and transforming it again changes nothing.
pub expr_transform_correct :
    (st : Symbols) (v : Values)
    → IsCalculated st v
    → (f : ℕ) (e : Expr) → 2 * height e ≤ f
    → HasNoRange e
    → (e' : Expr) × (expr_transform st f e ≡ some e')
      × (expr_calc_value st v e' ≡ expr_calc_value st v e)
      × IsTransformed st e'
      × (expr_transform st f e' ≡ some e')
expr_transform_correct st v calc f e fuel h =
    let (e', run, low) = expr_transform_total st f e fuel h in
    let normal = expr_transform-IsTransformed calc.constants f e e' run in
    (
      e',
      run,
      expr_transform-value calc f e e' run,
      normal,
      expr_transform_fixed st f e' normal (omega arith),
    )
