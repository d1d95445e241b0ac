-- ===== src/Kconfig/Examples.antt =====
-- scripts/kconfig/expr.c: the functions on expressions, run and applied to a small configuration.
use embtoolkit.Base.{◌≤◌, ◌≡◌, ◌≢◌, refl, true, Bool, some, arith}
use embtoolkit.Kconfig.Tristate.{tri_no, tri_eq}
use embtoolkit.Kconfig.Symbol.{symbol_no, symbol_mod, symbol_yes}
use embtoolkit.Kconfig.Samples.{
  foo, bar, sample_symbols, sample_values, sample_constants, sample-IsCalculated, sample-IsInterned,
}
use embtoolkit.Kconfig.Expr.{
  Expr, symbol, not_expr, equal, unequal, or_expr, and_expr, expr_calc_value, calc_value, size,
  expr_alloc_and, expr_alloc_or, expr_depends_symbol,
}
use embtoolkit.Kconfig.Expr.Yn.{
  expr_eliminate_yn, eliminate_and, eliminate_or, expr_trans_bool, IsYnFreeOutsideNot,
  expr_eliminate_yn-value, expr_eliminate_yn_normal, expr_trans_bool-is_no,
}
use embtoolkit.Kconfig.Expr.Transform.{expr_transform}
use embtoolkit.Kconfig.Expr.Transform.Shape.{IsTransformed}
use embtoolkit.Kconfig.Expr.Transform.Correct.{expr_transform_correct}
use embtoolkit.Kconfig.Expr.Eq.{expr_eq, expr_eliminate_eq}
use embtoolkit.Kconfig.Expr.Eq.Correct.{expr_eq_terminates, expr_eq_sound, expr_eliminate_eq_sound}
use embtoolkit.Kconfig.Expr.Join.{expr_join_or, expr_join_and}
use embtoolkit.Kconfig.Expr.Join.Or.{expr_join_or_sound}
use embtoolkit.Kconfig.Expr.Join.And.{expr_join_and_sound}
use embtoolkit.Kconfig.Expr.Extract.{Extraction, expr_extract_eq_and, expr_extract_eq_or}
use embtoolkit.Kconfig.Expr.Extract.Correct.{
  expr_extract_eq_and_correct, expr_extract_eq_or_correct,
}
use embtoolkit.Kconfig.Expr.Compare.{is_unequal, expr_trans_compare}
use embtoolkit.Kconfig.Expr.Compare.Value.{answer, expr_trans_compare_correct}
use embtoolkit.Kconfig.Expr.Compare.Depends.{expr_depends_symbol-needs}

-- FOO && y || n
abbrev padded : Expr
padded = or_expr (and_expr (symbol foo) (symbol symbol_yes)) (symbol symbol_no)

padded_runs : expr_eliminate_yn padded ≡ symbol foo
unfolding expr_eliminate_yn eliminate_and eliminate_or
padded_runs = refl

expr_eliminate_yn-value_example :
    expr_calc_value sample_symbols sample_values (expr_eliminate_yn padded)
    ≡ expr_calc_value sample_symbols sample_values padded
expr_eliminate_yn-value_example = expr_eliminate_yn-value sample_constants padded

expr_eliminate_yn_normal_example :
    IsYnFreeOutsideNot (expr_eliminate_yn padded)
    × (expr_eliminate_yn (expr_eliminate_yn padded) ≡ expr_eliminate_yn padded)
    × (size (expr_eliminate_yn padded) ≤ size padded)
expr_eliminate_yn_normal_example = expr_eliminate_yn_normal padded

-- !(FOO=n || !BAR)
abbrev nested : Expr
nested = not_expr (or_expr (equal foo symbol_no) (not_expr (symbol bar)))

expr_transform_runs :
    expr_transform sample_symbols 8 nested ≡ some (and_expr (symbol foo) (symbol bar))
unfolding expr_transform
expr_transform_runs = refl

expr_transform_correct_example :
    (e' : Expr) × (expr_transform sample_symbols 8 nested ≡ some e')
    × (expr_calc_value sample_symbols sample_values e'
        ≡ expr_calc_value sample_symbols sample_values nested)
    × IsTransformed sample_symbols e'
    × (expr_transform sample_symbols 8 e' ≡ some e')
expr_transform_correct_example =
    expr_transform_correct sample_symbols sample_values sample-IsCalculated 8 nested (omega arith)
      (tt, tt)

-- FOO!=n && BAR!=n
abbrev unequals : Expr
unequals = and_expr (unequal foo symbol_no) (unequal bar symbol_no)

expr_trans_bool-is_no_example :
    tri_eq
      (expr_calc_value sample_symbols sample_values (expr_trans_bool sample_symbols unequals))
      tri_no
    ≡ tri_eq (expr_calc_value sample_symbols sample_values unequals) tri_no
expr_trans_bool-is_no_example = expr_trans_bool-is_no sample-IsCalculated unequals (tt, tt)

-- FOO && BAR, and BAR && FOO
abbrev foo_bar : Expr
foo_bar = and_expr (symbol foo) (symbol bar)

abbrev bar_foo : Expr
bar_foo = and_expr (symbol bar) (symbol foo)

expr_eq_runs : expr_eq 30 foo_bar bar_foo ≡ some true
unfolding expr_eq expr_eliminate_yn eliminate_and
expr_eq_runs = refl

expr_eq_terminates_example :
    ((same : Bool) × (expr_eq 30 foo_bar bar_foo ≡ some same))
    × ((p : Expr × Expr) × (expr_eliminate_eq 30 foo_bar bar_foo ≡ some p)
        × (size p.0 ≤ size foo_bar)
        × (size p.1 ≤ size bar_foo))
expr_eq_terminates_example = expr_eq_terminates 30 foo_bar bar_foo (omega arith)

expr_eq_sound_example :
    expr_calc_value sample_symbols sample_values foo_bar
    ≡ expr_calc_value sample_symbols sample_values bar_foo
expr_eq_sound_example =
    expr_eq_sound sample_symbols sample_values sample_constants 30 foo_bar bar_foo expr_eq_runs

abbrev both_yes : Expr × Expr
both_yes = (symbol symbol_yes, symbol symbol_yes)

expr_eliminate_eq_runs : expr_eliminate_eq 30 foo_bar bar_foo ≡ some both_yes
unfolding expr_eq expr_eliminate_yn eliminate_and
expr_eliminate_eq_runs = refl

expr_eliminate_eq_sound_example :
    expr_calc_value sample_symbols sample_values foo_bar
    ≡ expr_calc_value sample_symbols sample_values bar_foo
expr_eliminate_eq_sound_example =
    expr_eliminate_eq_sound sample_symbols sample_values sample_constants 30 foo_bar bar_foo
      both_yes expr_eliminate_eq_runs refl

expr_join_or_runs :
    expr_join_or sample_symbols 10 (equal bar symbol_mod) (equal bar symbol_yes)
    ≡ some (some (unequal bar symbol_no))
unfolding expr_join_or expr_eq
expr_join_or_runs = refl

expr_join_or_sound_example :
    expr_calc_value sample_symbols sample_values (unequal bar symbol_no)
    ≡ expr_calc_value sample_symbols sample_values
        (or_expr (equal bar symbol_mod) (equal bar symbol_yes))
expr_join_or_sound_example =
    expr_join_or_sound sample_symbols sample_values sample-IsCalculated 10 (equal bar symbol_mod)
      (equal bar symbol_yes) (unequal bar symbol_no) expr_join_or_runs

expr_join_and_runs :
    expr_join_and sample_symbols 10 (equal bar symbol_mod) (unequal bar symbol_yes)
    ≡ some (some (equal bar symbol_mod))
unfolding expr_join_and expr_eq
expr_join_and_runs = refl

expr_join_and_sound_example :
    expr_calc_value sample_symbols sample_values (equal bar symbol_mod)
    ≡ expr_calc_value sample_symbols sample_values
        (and_expr (equal bar symbol_mod) (unequal bar symbol_yes))
expr_join_and_sound_example =
    expr_join_and_sound sample_symbols sample_values sample-IsCalculated sample-IsInterned 10
      (equal bar symbol_mod) (unequal bar symbol_yes) (equal bar symbol_mod) expr_join_and_runs

-- FOO && BAR against FOO && !BAR
abbrev foo_not_bar : Expr
foo_not_bar = and_expr (symbol foo) (not_expr (symbol bar))

expr_extract_eq_and_correct_example :
    (x : Extraction) × (expr_extract_eq_and 40 foo_bar foo_not_bar ≡ some x)
    × (expr_calc_value sample_symbols sample_values foo_bar
        ≡ calc_value sample_symbols sample_values (expr_alloc_and x.shared (some x.first)))
    × (expr_calc_value sample_symbols sample_values foo_not_bar
        ≡ calc_value sample_symbols sample_values (expr_alloc_and x.shared (some x.second)))
expr_extract_eq_and_correct_example =
    expr_extract_eq_and_correct sample_symbols sample_values sample_constants 40 foo_bar foo_not_bar
      (omega arith)

-- FOO || BAR against !BAR || FOO
abbrev either : Expr
either = or_expr (symbol foo) (symbol bar)

abbrev either_not : Expr
either_not = or_expr (not_expr (symbol bar)) (symbol foo)

expr_extract_eq_or_correct_example :
    (x : Extraction) × (expr_extract_eq_or 40 either either_not ≡ some x)
    × (expr_calc_value sample_symbols sample_values either
        ≡ calc_value sample_symbols sample_values (expr_alloc_or x.shared (some x.first)))
    × (expr_calc_value sample_symbols sample_values either_not
        ≡ calc_value sample_symbols sample_values (expr_alloc_or x.shared (some x.second)))
expr_extract_eq_or_correct_example =
    expr_extract_eq_or_correct sample_symbols sample_values sample_constants 40 either either_not
      (omega arith)

-- !(FOO && BAR=m)
abbrev two_valued : Expr
two_valued = not_expr (and_expr (symbol foo) (equal bar symbol_mod))

expr_trans_compare_correct_example :
    (e' : Expr) × (expr_trans_compare is_unequal symbol_no two_valued ≡ some e')
    × (expr_calc_value sample_symbols sample_values e'
        ≡ answer is_unequal (expr_calc_value sample_symbols sample_values two_valued) tri_no)
expr_trans_compare_correct_example =
    expr_trans_compare_correct sample_symbols sample_values sample-IsCalculated is_unequal tri_no
      two_valued (λ e. cc) ((refl, λ e. cc), tt)

-- BAR!=n && FOO
abbrev needs_bar : Expr
needs_bar = and_expr (unequal bar symbol_no) (symbol foo)

needs_bar_depends : expr_depends_symbol needs_bar bar ≡ true
unfolding expr_depends_symbol
needs_bar_depends = refl

needs_bar_holds : expr_calc_value sample_symbols sample_values needs_bar ≢ tri_no
unfolding expr_calc_value
needs_bar_holds e = cc

expr_depends_symbol-needs_example : sample_values.tri bar ≢ tri_no
expr_depends_symbol-needs_example =
    expr_depends_symbol-needs sample_symbols sample_values sample-IsCalculated bar refl needs_bar
      needs_bar_depends needs_bar_holds
