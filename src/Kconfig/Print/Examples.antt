-- ===== src/Kconfig/Print/Examples.antt =====
-- scripts/kconfig/expr.c: the printed form of !(FOO || BAR).
use embtoolkit.Base.{ℕ, ◌≡◌, refl, Bool, true, [], ◌∷◌, some}
use embtoolkit.Kconfig.Samples.{foo, bar}
use embtoolkit.Kconfig.Expr.{Expr, symbol, not_expr, or_expr}
use embtoolkit.Kconfig.Print.{e_none, name, not_sign, open_sign, or_sign, close_sign, expr_print}
use embtoolkit.Kconfig.Print.Scan.{scan}
use embtoolkit.Kconfig.Print.Binding.{expr_print-scan}

abbrev neither : Expr
neither = not_expr (or_expr (symbol foo) (symbol bar))

abbrev all_named : ℕ → Bool
all_named s = true

neither-text :
    expr_print all_named neither e_none
    ≡ not_sign ∷ open_sign ∷ name foo ∷ or_sign ∷ name bar ∷ close_sign ∷ []
unfolding expr_print
neither-text = refl

expr_print-scan_example : scan e_none 0 (expr_print all_named neither e_none) ≡ some 0
expr_print-scan_example = expr_print-scan all_named neither e_none
