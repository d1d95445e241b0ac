-- ===== src/Kconfig/Expr/Compare.antt =====
-- scripts/kconfig/expr.c: expr_trans_compare, which makes one expression of the comparison of an
-- expression with a symbol, and expr_compare_type, the order of the operators in print.
pub mod Value
pub mod Depends
use embtoolkit.Base.{ℕ, Bool, true, false, Option, none, some, ◌==◌, if◌then◌else◌}
use embtoolkit.Kconfig.Symbol.{symbol_no, symbol_mod, symbol_yes}
use embtoolkit.Kconfig.Expr.{Expr, symbol, not_expr, equal, unequal, or_expr, and_expr, list, range}

-- The `type` argument: E_EQUAL or E_UNEQUAL.
pub data Comparison : Type 0 where
  is_equal is_unequal : Comparison

abbrev pub flip : Comparison → Comparison
flip is_equal = is_unequal
flip is_unequal = is_equal

-- `if (type == E_UNEQUAL) e = expr_alloc_one(E_NOT, e)`
abbrev pub negate_unequal : Comparison → Expr → Expr
negate_unequal is_equal e = e
negate_unequal is_unequal e = not_expr e

abbrev pub compare_symbols : Comparison → ℕ → ℕ → Expr
compare_symbols is_equal l r = equal l r
compare_symbols is_unequal l r = unequal l r

-- expr_alloc_two, for children that are not NULL.
abbrev pub both : (Expr → Expr → Expr) → Option Expr → Option Expr → Option Expr
both op (some a) (some b) = some (op a b)
both op _ _ = none

-- The E_AND and E_OR cases: the node for `sym` y and the one for n; for another symbol the
-- expression itself is used.
abbrev pub compare_node : Comparison → ℕ → Option Expr → Option Expr → Expr → Option Expr
compare_node type sym for_yes for_no e =
    if sym == symbol_yes
    then for_yes
    else if sym == symbol_no
    then for_no
    else some (negate_unequal type e)

abbrev pub negated : Comparison → Option Expr → Option Expr
negated type none = none
negated type (some e) = some (negate_unequal type e)

-- The E_EQUAL and E_UNEQUAL cases.
abbrev pub compare_test : Comparison → ℕ → Expr → Option Expr
compare_test is_equal sym e =
    if sym == symbol_yes
    then some e
    else if sym == symbol_mod
    then some (symbol symbol_no)
    else if sym == symbol_no
    then some (not_expr e)
    else none
compare_test is_unequal sym e =
    if sym == symbol_yes
    then some (not_expr e)
    else if sym == symbol_mod
    then some (symbol symbol_yes)
    else if sym == symbol_no
    then some e
    else none

-- expr_trans_compare on a node. `none` is the NULL of the source, or a node with a NULL child.
unfoldable pub expr_trans_compare : Comparison → ℕ → Expr → Option Expr
expr_trans_compare type sym (and_expr l r) =
    let e1 = expr_trans_compare is_equal sym l in
    let e2 = expr_trans_compare is_equal sym r in
    compare_node type sym (negated type (both and_expr e1 e2)) (negated type (both or_expr e1 e2))
      (and_expr l r)
expr_trans_compare type sym (or_expr l r) =
    let e1 = expr_trans_compare is_equal sym l in
    let e2 = expr_trans_compare is_equal sym r in
    compare_node type sym (negated type (both or_expr e1 e2)) (negated type (both and_expr e1 e2))
      (or_expr l r)
expr_trans_compare type sym (not_expr e) = expr_trans_compare (flip type) sym e
expr_trans_compare type sym (equal l r) = compare_test type sym (equal l r)
expr_trans_compare type sym (unequal l r) = compare_test type sym (unequal l r)
expr_trans_compare type sym (symbol s) = some (compare_symbols type s sym)
expr_trans_compare type sym (list _ _) = none
expr_trans_compare type sym (range _ _) = none

-- expr_trans_compare on a pointer: without an expression, the symbol itself.
abbrev pub trans_compare : Comparison → ℕ → Option Expr → Option Expr
trans_compare type sym none = some (negate_unequal type (symbol sym))
trans_compare type sym (some e) = expr_trans_compare type sym e
