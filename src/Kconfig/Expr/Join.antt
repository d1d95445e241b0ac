-- ===== src/Kconfig/Expr/Join.antt =====
-- scripts/kconfig/expr.c: expr_join_or and expr_join_and, which find one expression for two
-- operands of a disjunction or conjunction. `none` inside the result is the NULL of the source;
-- outside it means that the fuel of expr_eq ran out.
pub mod Atoms
pub mod Or
pub mod And
use embtoolkit.Base.{
  ℕ, ◌≡◌, Bool, true, false, Option, none, some, ◌==◌, ◌&&◌, ◌||◌, not, if◌then◌else◌, ◌>>=◌,
}
use embtoolkit.Kconfig.Symbol.{
  Symbols, SymbolType, boolean, tristate, symbol_no, symbol_mod, symbol_yes,
}
use embtoolkit.Kconfig.Expr.{Expr, symbol, not_expr, equal, unequal, or_expr, and_expr, list, range}
use embtoolkit.Kconfig.Expr.Eq.{expr_eq}

-- The operands that the two functions go on with: what is said of one symbol.
pub data Atom : Type 0 where
  plain negated : Atom
  eq_to ne_to not_eq_to not_ne_to : ℕ → Atom

-- `sym1`, with what `e1` says of it.
abbrev pub first_atom : Expr → Option (ℕ × Atom)
first_atom (symbol s) = some (s, plain)
first_atom (equal l r) = some (l, eq_to r)
first_atom (unequal l r) = some (l, ne_to r)
first_atom (not_expr (symbol s)) = some (s, negated)
first_atom (not_expr (equal l r)) = some (l, not_eq_to r)
first_atom (not_expr (unequal l r)) = some (l, not_ne_to r)
first_atom _ = none

-- `sym2`, with what `e2` says of it: here only a symbol may be negated.
abbrev pub second_atom : Expr → Option (ℕ × Atom)
second_atom (symbol s) = some (s, plain)
second_atom (equal l r) = some (l, eq_to r)
second_atom (unequal l r) = some (l, ne_to r)
second_atom (not_expr (symbol s)) = some (s, negated)
second_atom _ = none

-- One is `x` and the other `y`.
abbrev pub either_way : ℕ → ℕ → ℕ → ℕ → Bool
either_way r1 r2 x y = (r1 == x && r2 == y) || (r1 == y && r2 == x)

-- The rules for a tristate symbol.
abbrev pub or_tristate : ℕ → Atom → Atom → Option Expr
or_tristate sym (eq_to r1) (eq_to r2) =
    if either_way r1 r2 symbol_yes symbol_mod
    then some (unequal sym symbol_no)
    else if either_way r1 r2 symbol_yes symbol_no
    then some (unequal sym symbol_mod)
    else if either_way r1 r2 symbol_mod symbol_no
    then some (unequal sym symbol_yes)
    else none
or_tristate sym _ _ = none

-- The rule for a boolean symbol.
abbrev pub or_boolean : ℕ → Atom → Atom → Option Expr
or_boolean sym negated plain = some (symbol symbol_yes)
or_boolean sym plain negated = some (symbol symbol_yes)
or_boolean sym _ _ = none

abbrev pub or_atoms : SymbolType → ℕ → Atom → Atom → Option Expr
or_atoms tristate sym a b = or_tristate sym a b
or_atoms boolean sym a b = or_boolean sym a b
or_atoms _ sym a b = none

-- The rules for a boolean or tristate symbol and a test of it: (a) && (a='y') -> (a='y'),
-- (a) && (a!='n') -> (a), (a) && (a!='m') -> (a='y').
abbrev pub and_test : ℕ → Atom → Option Expr
and_test sym (eq_to r) = if r == symbol_yes then some (equal sym symbol_yes) else none
and_test sym (ne_to r) =
    if r == symbol_no
    then some (symbol sym)
    else if r == symbol_mod
    then some (equal sym symbol_yes)
    else none
and_test sym _ = none

-- (a='b') && (a!='c') -> 'b'='c' ? 'n' : a='b', for constants b and c.
abbrev pub and_constants : Symbols → ℕ → ℕ → ℕ → Option Expr
and_constants st sym b c =
    if st.is_const c && st.is_const b
    then some (if b == c then symbol symbol_no else equal sym b)
    else none

-- The further rules for a tristate symbol.
abbrev pub and_tristate : Symbols → ℕ → Atom → Atom → Option Expr
and_tristate st sym (eq_to b) (ne_to c) = and_constants st sym b c
and_tristate st sym (ne_to c) (eq_to b) = and_constants st sym b c
and_tristate st sym (ne_to r1) (ne_to r2) =
    if either_way r1 r2 symbol_yes symbol_no
    then some (equal sym symbol_mod)
    else if either_way r1 r2 symbol_yes symbol_mod
    then some (equal sym symbol_no)
    else if either_way r1 r2 symbol_mod symbol_no
    then some (equal sym symbol_yes)
    else none
and_tristate st sym _ _ = none

abbrev pub and_rules : Symbols → SymbolType → ℕ → Atom → Atom → Option Expr
and_rules st t sym plain b = and_test sym b
and_rules st t sym a plain = and_test sym a
and_rules st tristate sym a b = and_tristate st sym a b
and_rules st _ sym a b = none

abbrev pub and_atoms : Symbols → SymbolType → ℕ → Atom → Atom → Option Expr
and_atoms st tristate sym a b = and_rules st tristate sym a b
and_atoms st boolean sym a b = and_rules st boolean sym a b
and_atoms st _ sym a b = none

-- Both operands are about one symbol.
abbrev pub about_one :
    (ℕ → Atom → Atom → Option Expr) → Option (ℕ × Atom) → Option (ℕ × Atom) → Option Expr
about_one rules (some (s1, a)) (some (s2, b)) = if s1 == s2 then rules s1 a b else none
about_one rules _ _ = none

-- expr_join_or
unfoldable pub expr_join_or : Symbols → ℕ → Expr → Expr → Option (Option Expr)
expr_join_or st f e1 e2 = do
  same ← expr_eq f e1 e2
  some (
      if same
      then some e1
      else about_one (λ s. or_atoms (st.sym_type s) s) (first_atom e1) (second_atom e2))

-- expr_join_and
unfoldable pub expr_join_and : Symbols → ℕ → Expr → Expr → Option (Option Expr)
expr_join_and st f e1 e2 = do
  same ← expr_eq f e1 e2
  some (
      if same
      then some e1
      else about_one (λ s. and_atoms st (st.sym_type s) s) (first_atom e1) (second_atom e2))
