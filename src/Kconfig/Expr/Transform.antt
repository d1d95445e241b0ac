-- ===== src/Kconfig/Expr/Transform.antt =====
-- scripts/kconfig/expr.c: expr_transform, which moves negations to the symbols and turns the
-- comparisons of a boolean symbol with y, m and n into symbols.
pub mod Value
pub mod Shape
pub mod Total
pub mod Correct
use embtoolkit.Base.{
  ℕ, zero, suc, ◌+◌, ◌≡◌, Bool, true, false, Option, none, some, ◌==◌, if◌then◌else◌, ◌>>=◌,
}
use embtoolkit.Kconfig.Symbol.{Symbols, SymbolType, boolean, symbol_no, symbol_mod, symbol_yes}
use embtoolkit.Kconfig.Expr.{Expr, symbol, not_expr, equal, unequal, or_expr, and_expr, list, range}

-- The E_EQUAL case: a boolean symbol against a constant.
abbrev pub transform_equal : SymbolType → ℕ → ℕ → Expr
transform_equal boolean l r =
    if r == symbol_no
    then not_expr (symbol l)
    else if r == symbol_mod
    then symbol symbol_no
    else if r == symbol_yes
    then symbol l
    else equal l r
transform_equal _ l r = equal l r

-- The E_UNEQUAL case.
abbrev pub transform_unequal : SymbolType → ℕ → ℕ → Expr
transform_unequal boolean l r =
    if r == symbol_no
    then symbol l
    else if r == symbol_mod
    then symbol symbol_yes
    else if r == symbol_yes
    then not_expr (symbol l)
    else unequal l r
transform_unequal _ l r = unequal l r

-- The E_NOT case over a symbol.
abbrev pub transform_not_symbol : ℕ → Expr
transform_not_symbol s =
    if s == symbol_yes
    then symbol symbol_no
    else if s == symbol_mod
    then symbol symbol_mod
    else if s == symbol_no
    then symbol symbol_yes
    else not_expr (symbol s)

-- The E_NOT case, its operand transformed; `again` is expr_transform itself.
abbrev pub transform_not : (Expr → Option Expr) → Expr → Option Expr
transform_not again (not_expr a) = again a
transform_not again (equal l r) = some (unequal l r)
transform_not again (unequal l r) = some (equal l r)
transform_not again (or_expr a b) = again (and_expr (not_expr a) (not_expr b))
transform_not again (and_expr a b) = again (or_expr (not_expr a) (not_expr b))
transform_not again (symbol s) = some (transform_not_symbol s)
transform_not again (list s rest) = some (not_expr (list s rest))
transform_not again (range l r) = some (not_expr (range l r))

-- expr_transform with fuel for the depth of its calls. `none` means that the fuel ran out, or that
-- the code reads the symbols of an E_RANGE node as expressions, which is undefined.
unfoldable pub expr_transform : Symbols → ℕ → Expr → Option Expr
expr_transform st zero e = none
expr_transform st (suc f) (equal l r) = some (transform_equal (st.sym_type l) l r)
expr_transform st (suc f) (unequal l r) = some (transform_unequal (st.sym_type l) l r)
expr_transform st (suc f) (symbol s) = some (symbol s)
expr_transform st (suc f) (list s rest) = some (list s rest)
expr_transform st (suc f) (range l r) = none
expr_transform st (suc f) (and_expr l r) = do
  l' ← expr_transform st f l
  r' ← expr_transform st f r
  some (and_expr l' r')
expr_transform st (suc f) (or_expr l r) = do
  l' ← expr_transform st f l
  r' ← expr_transform st f r
  some (or_expr l' r')
expr_transform st (suc f) (not_expr e) = do
  e' ← expr_transform st f e
  transform_not (expr_transform st f) e'
