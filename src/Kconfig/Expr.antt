-- ===== src/Kconfig/Expr.antt =====
-- scripts/kconfig/expr.c and expr.h: expressions over symbols, their value, and the operations that
-- neither rewrite nor compare them. A NULL pointer to an expression is `none` where the source
-- tests for it. E_NONE is never the type of an allocated node.
pub mod Constants
pub mod Yn
pub mod Transform
pub mod Eq
pub mod Join
pub mod Extract
pub mod Compare
use embtoolkit.Base.{
  ℕ, zero, suc, ◌+◌, ◌≡◌, Bool, true, false, Option, none, some, List, [], ◌∷◌, ◌==◌, ◌&&◌, ◌||◌,
  if◌then◌else◌, str_eq,
}
use embtoolkit.Kconfig.Tristate.{Tristate, tri_no, tri_mod, tri_yes, expr_or, expr_and, expr_not}
use embtoolkit.Kconfig.Symbol.{
  Symbols, Values, symbol_no, symbol_mod, symbol_yes, sym_get_string_value,
}

-- `struct expr`, with the constructors of `enum expr_type`. E_LIST is a chain of nodes through
-- `left.expr`, each with a symbol in `right.sym`: here its first symbol and those of the rest.
pub data Expr : Type 0 where
  symbol : ℕ → Expr
  not_expr : Expr → Expr
  equal unequal : ℕ → ℕ → Expr
  or_expr and_expr : Expr → Expr → Expr
  list : ℕ → List ℕ → Expr
  range : ℕ → ℕ → Expr

-- expr_alloc_and
abbrev pub expr_alloc_and : Option Expr → Option Expr → Option Expr
expr_alloc_and none e2 = e2
expr_alloc_and (some e1) none = some e1
expr_alloc_and (some e1) (some e2) = some (and_expr e1 e2)

-- expr_alloc_or
abbrev pub expr_alloc_or : Option Expr → Option Expr → Option Expr
expr_alloc_or none e2 = e2
expr_alloc_or (some e1) none = some e1
expr_alloc_or (some e1) (some e2) = some (or_expr e1 e2)

-- expr_is_yes
abbrev pub expr_is_yes : Option Expr → Bool
expr_is_yes none = true
expr_is_yes (some (symbol s)) = s == symbol_yes
expr_is_yes (some _) = false

-- expr_is_no
abbrev pub expr_is_no : Option Expr → Bool
expr_is_no none = false
expr_is_no (some (symbol s)) = s == symbol_no
expr_is_no (some _) = false

-- expr_calc_value on a node, where sym_calc_value has been called on the symbols. Other types of
-- node get a message and the value n.
unfoldable pub expr_calc_value : Symbols → Values → Expr → Tristate
expr_calc_value st v (symbol s) = v.tri s
expr_calc_value st v (and_expr l r) = expr_and (expr_calc_value st v l) (expr_calc_value st v r)
expr_calc_value st v (or_expr l r) = expr_or (expr_calc_value st v l) (expr_calc_value st v r)
expr_calc_value st v (not_expr e) = expr_not (expr_calc_value st v e)
expr_calc_value st v (equal l r) =
    if str_eq (sym_get_string_value st v l) (sym_get_string_value st v r) then tri_yes else tri_no
expr_calc_value st v (unequal l r) =
    if str_eq (sym_get_string_value st v l) (sym_get_string_value st v r) then tri_no else tri_yes
expr_calc_value st v (list _ _) = tri_no
expr_calc_value st v (range _ _) = tri_no

-- expr_calc_value on a pointer: a missing condition is y.
abbrev pub calc_value : Symbols → Values → Option Expr → Tristate
calc_value st v none = tri_yes
calc_value st v (some e) = expr_calc_value st v e

-- expr_contains_symbol
unfoldable pub expr_contains_symbol : Expr → ℕ → Bool
expr_contains_symbol (and_expr l r) sym = expr_contains_symbol l sym || expr_contains_symbol r sym
expr_contains_symbol (or_expr l r) sym = expr_contains_symbol l sym || expr_contains_symbol r sym
expr_contains_symbol (symbol s) sym = s == sym
expr_contains_symbol (equal l r) sym = l == sym || r == sym
expr_contains_symbol (unequal l r) sym = l == sym || r == sym
expr_contains_symbol (not_expr e) sym = expr_contains_symbol e sym
expr_contains_symbol _ sym = false

-- expr_depends_symbol
unfoldable pub expr_depends_symbol : Expr → ℕ → Bool
expr_depends_symbol (and_expr l r) sym = expr_depends_symbol l sym || expr_depends_symbol r sym
expr_depends_symbol (symbol s) sym = s == sym
expr_depends_symbol (equal l r) sym = l == sym && (r == symbol_yes || r == symbol_mod)
expr_depends_symbol (unequal l r) sym = l == sym && r == symbol_no
expr_depends_symbol _ sym = false

-- The number of nodes.
abbrev pub size : Expr → ℕ
size (not_expr e) = suc (size e)
size (or_expr l r) = suc (size l + size r)
size (and_expr l r) = suc (size l + size r)
size _ = 1
