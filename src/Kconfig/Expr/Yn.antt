-- ===== src/Kconfig/Expr/Yn.antt =====
-- scripts/kconfig/expr.c: expr_eliminate_yn and expr_trans_bool.
use embtoolkit.Base.{ℕ, ◌≡◌, ◌≢◌, refl, ◌==◌, if◌then◌else◌, arith, ◌≤◌, ap}
use embtoolkit.Kconfig.Tristate.{tri_no, tri_mod, expr_not, tri_eq}
use embtoolkit.Kconfig.Symbol.{
  Symbols, SymbolType, Values, HasConstants, IsCalculated, symbol_no, symbol_yes,
}
use embtoolkit.Kconfig.Expr.{
  Expr, symbol, not_expr, unequal, or_expr, and_expr, expr_calc_value, size,
}
use embtoolkit.Kconfig.Expr.Constants.{unequal-constant}

-- What a node is to the tests `type == E_SYMBOL && left.sym == &symbol_…`.
pub data Known : Type 0 where
  known_no known_yes not_known : Known

abbrev pub known : Expr → Known
known (symbol s) =
    if s == symbol_no then known_no else if s == symbol_yes then known_yes else not_known
known _ = not_known

-- The E_AND case, its two operands done.
unfoldable pub eliminate_and : Expr → Expr → Expr
eliminate_and l r = elim (known l) [
  | known_no ↦ symbol symbol_no
  | known_yes ↦ r
  | not_known ↦ elim (known r) [
    | known_no ↦ symbol symbol_no
    | known_yes ↦ l
    | not_known ↦ and_expr l r
  ]
]

-- The E_OR case, its two operands done.
unfoldable pub eliminate_or : Expr → Expr → Expr
eliminate_or l r = elim (known l) [
  | known_no ↦ r
  | known_yes ↦ symbol symbol_yes
  | not_known ↦ elim (known r) [
    | known_no ↦ l
    | known_yes ↦ symbol symbol_yes
    | not_known ↦ or_expr l r
  ]
]

-- expr_eliminate_yn
unfoldable pub expr_eliminate_yn : Expr → Expr
expr_eliminate_yn (and_expr l r) = eliminate_and (expr_eliminate_yn l) (expr_eliminate_yn r)
expr_eliminate_yn (or_expr l r) = eliminate_or (expr_eliminate_yn l) (expr_eliminate_yn r)
expr_eliminate_yn e = e

-- The E_UNEQUAL case of expr_trans_bool.
abbrev pub trans_unequal : SymbolType → ℕ → ℕ → Expr
trans_unequal SymbolType.tristate l r = if r == symbol_no then symbol l else unequal l r
trans_unequal _ l r = unequal l r

-- expr_trans_bool
unfoldable pub expr_trans_bool : Symbols → Expr → Expr
expr_trans_bool st (and_expr l r) = and_expr (expr_trans_bool st l) (expr_trans_bool st r)
expr_trans_bool st (or_expr l r) = or_expr (expr_trans_bool st l) (expr_trans_bool st r)
expr_trans_bool st (not_expr e) = not_expr (expr_trans_bool st e)
expr_trans_bool st (unequal l r) = trans_unequal (st.sym_type l) l r
expr_trans_bool st e = e

module _ {st : Symbols} {v : Values} (c : HasConstants st v) where
  eliminate_and-value :
      (l r : Expr) → expr_calc_value st v (eliminate_and l r) ≡ expr_calc_value st v (and_expr l r)
  unfolding eliminate_and expr_calc_value
  eliminate_and-value l r = ground (arith, c.no_tri, c.yes_tri)

  eliminate_or-value :
      (l r : Expr) → expr_calc_value st v (eliminate_or l r) ≡ expr_calc_value st v (or_expr l r)
  unfolding eliminate_or expr_calc_value
  eliminate_or-value l r = ground (arith, c.no_tri, c.yes_tri)

  -- Eliminating y and n from conjunctions and disjunctions keeps the value of an expression.
  pub expr_eliminate_yn-value :
      (e : Expr) → expr_calc_value st v (expr_eliminate_yn e) ≡ expr_calc_value st v e
  unfolding expr_eliminate_yn expr_calc_value
  expr_eliminate_yn-value (and_expr l r) = ground (
    arith,
    eliminate_and-value (expr_eliminate_yn l) (expr_eliminate_yn r),
    expr_eliminate_yn-value l,
    expr_eliminate_yn-value r,
  )
  expr_eliminate_yn-value (or_expr l r) = ground (
    arith,
    eliminate_or-value (expr_eliminate_yn l) (expr_eliminate_yn r),
    expr_eliminate_yn-value l,
    expr_eliminate_yn-value r,
  )
  expr_eliminate_yn-value _ = refl

-- Neither operand of a conjunction or disjunction is the symbol y or n, at any depth that is not
-- under a negation.
abbrev pub IsYnFreeOutsideNot : Expr → Type 0
IsYnFreeOutsideNot (and_expr l r) =
    (known l ≡ not_known) × (known r ≡ not_known) × IsYnFreeOutsideNot l × IsYnFreeOutsideNot r
IsYnFreeOutsideNot (or_expr l r) =
    (known l ≡ not_known) × (known r ≡ not_known) × IsYnFreeOutsideNot l × IsYnFreeOutsideNot r
IsYnFreeOutsideNot _ = Unit

eliminate_and-IsYnFreeOutsideNot :
    (l r : Expr)
    → IsYnFreeOutsideNot l
    → IsYnFreeOutsideNot r
    → IsYnFreeOutsideNot (eliminate_and l r)
unfolding eliminate_and
eliminate_and-IsYnFreeOutsideNot l r hl hr = ground arith

eliminate_or-IsYnFreeOutsideNot :
    (l r : Expr)
    → IsYnFreeOutsideNot l
    → IsYnFreeOutsideNot r
    → IsYnFreeOutsideNot (eliminate_or l r)
unfolding eliminate_or
eliminate_or-IsYnFreeOutsideNot l r hl hr = ground arith

-- The result of expr_eliminate_yn has no y or n left to eliminate outside negations.
pub expr_eliminate_yn-IsYnFreeOutsideNot : (e : Expr) → IsYnFreeOutsideNot (expr_eliminate_yn e)
unfolding expr_eliminate_yn
expr_eliminate_yn-IsYnFreeOutsideNot (and_expr l r) =
    eliminate_and-IsYnFreeOutsideNot _ _ (expr_eliminate_yn-IsYnFreeOutsideNot l)
      (expr_eliminate_yn-IsYnFreeOutsideNot r)
expr_eliminate_yn-IsYnFreeOutsideNot (or_expr l r) =
    eliminate_or-IsYnFreeOutsideNot _ _ (expr_eliminate_yn-IsYnFreeOutsideNot l)
      (expr_eliminate_yn-IsYnFreeOutsideNot r)
expr_eliminate_yn-IsYnFreeOutsideNot _ = tt

-- An expression with nothing to eliminate is left as it is.
expr_eliminate_yn_fixed : (e : Expr) → IsYnFreeOutsideNot e → expr_eliminate_yn e ≡ e
unfolding expr_eliminate_yn eliminate_and eliminate_or
expr_eliminate_yn_fixed (and_expr l r) h =
    ground (arith, expr_eliminate_yn_fixed l h.2, expr_eliminate_yn_fixed r h.3)
expr_eliminate_yn_fixed (or_expr l r) h =
    ground (arith, expr_eliminate_yn_fixed l h.2, expr_eliminate_yn_fixed r h.3)
expr_eliminate_yn_fixed _ h = refl

pub size-expr_eliminate_yn-le : (e : Expr) → size (expr_eliminate_yn e) ≤ size e
unfolding expr_eliminate_yn eliminate_and eliminate_or
size-expr_eliminate_yn-le (and_expr l r) =
    ground (arith, size-expr_eliminate_yn-le l, size-expr_eliminate_yn-le r)
size-expr_eliminate_yn-le (or_expr l r) =
    ground (arith, size-expr_eliminate_yn-le l, size-expr_eliminate_yn-le r)
size-expr_eliminate_yn-le _ = omega arith

-- Outside negations, which expr_eliminate_yn passes over, no operand of a conjunction or disjunction of
-- its result is y or n; a second pass leaves the result as it is, and it has no more nodes than the
-- expression.
pub expr_eliminate_yn_normal :
    (e : Expr)
    → IsYnFreeOutsideNot (expr_eliminate_yn e)
      × (expr_eliminate_yn (expr_eliminate_yn e) ≡ expr_eliminate_yn e)
      × (size (expr_eliminate_yn e) ≤ size e)
expr_eliminate_yn_normal e = (
  expr_eliminate_yn-IsYnFreeOutsideNot e,
  expr_eliminate_yn_fixed (expr_eliminate_yn e) (expr_eliminate_yn-IsYnFreeOutsideNot e),
  size-expr_eliminate_yn-le e,
)

-- No negation stands in the expression.
abbrev pub HasNoNot : Expr → Type 0
HasNoNot (not_expr e) = ⊥
HasNoNot (and_expr l r) = HasNoNot l × HasNoNot r
HasNoNot (or_expr l r) = HasNoNot l × HasNoNot r
HasNoNot _ = Unit

module _ {st : Symbols} {v : Values} (calc : IsCalculated st v) where
  trans_unequal-is_no :
      (t : SymbolType) (l r : ℕ)
      → st.sym_type l ≡ t
      → tri_eq (expr_calc_value st v (trans_unequal t l r)) tri_no
        ≡ tri_eq (expr_calc_value st v (unequal l r)) tri_no
  unfolding expr_calc_value
  trans_unequal-is_no SymbolType.tristate l r h =
      ground (arith, unequal-constant calc l r tri_no (rw h))
  trans_unequal-is_no _ l r h = refl

  trans_unequal-value :
      (t : SymbolType) (l r : ℕ)
      → st.sym_type l ≡ t
      → (t ≡ SymbolType.tristate → v.tri l ≢ tri_mod)
      → expr_calc_value st v (trans_unequal t l r) ≡ expr_calc_value st v (unequal l r)
  unfolding expr_calc_value
  trans_unequal-value SymbolType.tristate l r h m =
      ground (arith, unequal-constant calc l r tri_no (rw h), m refl)
  trans_unequal-value _ l r h m = refl

  -- Without negations expr_trans_bool keeps whether the value of an expression is n.
  pub expr_trans_bool-is_no :
      (e : Expr)
      → HasNoNot e
      → tri_eq (expr_calc_value st v (expr_trans_bool st e)) tri_no
        ≡ tri_eq (expr_calc_value st v e) tri_no
  unfolding expr_trans_bool expr_calc_value
  expr_trans_bool-is_no (and_expr l r) h =
      ground (arith, expr_trans_bool-is_no l h.0, expr_trans_bool-is_no r h.1)
  expr_trans_bool-is_no (or_expr l r) h =
      ground (arith, expr_trans_bool-is_no l h.0, expr_trans_bool-is_no r h.1)
  expr_trans_bool-is_no (not_expr e) h = absurd h
  expr_trans_bool-is_no (unequal l r) h = trans_unequal-is_no (st.sym_type l) l r refl
  expr_trans_bool-is_no _ h = refl

  -- While no tristate symbol has the value m, expr_trans_bool keeps the value of every expression.
  pub expr_trans_bool-value :
      ((s : ℕ) → st.sym_type s ≡ SymbolType.tristate → v.tri s ≢ tri_mod)
      → (e : Expr) → expr_calc_value st v (expr_trans_bool st e) ≡ expr_calc_value st v e
  unfolding expr_trans_bool expr_calc_value
  expr_trans_bool-value m (and_expr l r) =
      ground (arith, expr_trans_bool-value m l, expr_trans_bool-value m r)
  expr_trans_bool-value m (or_expr l r) =
      ground (arith, expr_trans_bool-value m l, expr_trans_bool-value m r)
  expr_trans_bool-value m (not_expr e) = ap expr_not (expr_trans_bool-value m e)
  expr_trans_bool-value m (unequal l r) = trans_unequal-value (st.sym_type l) l r refl (m l)
  expr_trans_bool-value m _ = refl
