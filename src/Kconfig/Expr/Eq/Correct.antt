-- ===== src/Kconfig/Expr/Eq/Correct.antt =====
-- scripts/kconfig/expr.c: what expr_eq and expr_eliminate_eq promise their callers.
use embtoolkit.Base.{ℕ, ◌≤◌, ◌≡◌, true, Bool, some, Ensures-some}
use embtoolkit.Kconfig.Symbol.{Symbols, Values, HasConstants}
use embtoolkit.Kconfig.Expr.{Expr, size, expr_calc_value}
use embtoolkit.Kconfig.Expr.Eq.{expr_eq, expr_eliminate_eq}
use embtoolkit.Kconfig.Expr.Eq.Factors.{Reflects}
use embtoolkit.Kconfig.Expr.Eq.Sound.{expr_eq-value, expr_eliminate_eq-Reflects}
use embtoolkit.Kconfig.Expr.Eq.Total.{eq_fuel, expr_eq_total, expr_eliminate_eq_total}

-- With fuel for four calls a node and two more, expr_eq returns an answer, and expr_eliminate_eq
-- returns two expressions that are no larger than its arguments.
pub expr_eq_terminates :
    (f : ℕ) (e1 e2 : Expr)
    → eq_fuel e1 e2 ≤ f
    → ((same : Bool) × (expr_eq f e1 e2 ≡ some same))
      × ((p : Expr × Expr) × (expr_eliminate_eq f e1 e2 ≡ some p)
          × (size p.0 ≤ size e1)
          × (size p.1 ≤ size e2))
expr_eq_terminates f e1 e2 h =
    let (p, run, small) = expr_eliminate_eq_total f e1 e2 h in
    (expr_eq_total f e1 e2 h, (p, run, small.0, small.1))

-- Two expressions that expr_eq calls equal have the same value, whatever the symbols' values.
pub expr_eq_sound :
    (st : Symbols) (v : Values)
    → HasConstants st v
    → (f : ℕ) (e1 e2 : Expr) → expr_eq f e1 e2 ≡ some true
    → expr_calc_value st v e1 ≡ expr_calc_value st v e2
expr_eq_sound st v k f e1 e2 h = expr_eq-value k f e1 e2 h

-- If the two expressions that expr_eliminate_eq leaves have the same value, so have its arguments.
pub expr_eliminate_eq_sound :
    (st : Symbols) (v : Values)
    → HasConstants st v
    → (f : ℕ) (e1 e2 : Expr) (p : Expr × Expr) → expr_eliminate_eq f e1 e2 ≡ some p
    → expr_calc_value st v p.0 ≡ expr_calc_value st v p.1
    → expr_calc_value st v e1 ≡ expr_calc_value st v e2
expr_eliminate_eq_sound st v k f e1 e2 p run same =
    Ensures-some (Reflects st v e1 e2) (expr_eliminate_eq f e1 e2) p
      (expr_eliminate_eq-Reflects k f e1 e2) run same
