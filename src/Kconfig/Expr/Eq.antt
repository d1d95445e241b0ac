-- ===== src/Kconfig/Expr/Eq.antt =====
-- scripts/kconfig/expr.c: expr_eq, and expr_eliminate_eq, which takes the operands that two
-- expressions share out of both. The two call each other; fuel bounds the depth of the calls. The
-- source counts its changes in `trans_count`, which expr_eq restores.
pub mod Factors
pub mod Sound
pub mod Total
pub mod Correct
use embtoolkit.Base.{
  ℕ, zero, suc, ◌≡◌, Bool, true, false, Option, none, some, ◌==◌, ◌&&◌, ◌||◌, if◌then◌else◌, ◌>>=◌,
}
use embtoolkit.Kconfig.Symbol.{symbol_no, symbol_yes}
use embtoolkit.Kconfig.Expr.{Expr, symbol, not_expr, equal, unequal, or_expr, and_expr, list, range}
use embtoolkit.Kconfig.Expr.Yn.{expr_eliminate_yn}

-- The two types of node that the `type` arguments take.
pub data Junction : Type 0 where
  or_type and_type : Junction

-- The operands of a node of the type.
abbrev pub operands : Junction → Expr → Option (Expr × Expr)
operands or_type (or_expr l r) = some (l, r)
operands and_type (and_expr l r) = some (l, r)
operands _ _ = none

abbrev pub join : Junction → Expr → Expr → Expr
join or_type l r = or_expr l r
join and_type l r = and_expr l r

-- What takes the place of a shared operand: n in a disjunction, y in a conjunction.
abbrev pub neutral : Junction → Expr
neutral or_type = symbol symbol_no
neutral and_type = symbol symbol_yes

-- `e->type` of a node that is E_OR or E_AND.
abbrev pub junction_of : Expr → Option Junction
junction_of (or_expr l r) = some or_type
junction_of (and_expr l r) = some and_type
junction_of _ = none

abbrev pub same_symbol : Expr → Expr → Bool
same_symbol (symbol s) (symbol t) = s == t
same_symbol _ _ = false

abbrev is_yes_or_no : Expr → Bool
is_yes_or_no (symbol s) = s == symbol_yes || s == symbol_no
is_yes_or_no _ = false

abbrev same_junction : Junction → Option Junction → Bool
same_junction or_type (some or_type) = true
same_junction and_type (some and_type) = true
same_junction _ _ = false

-- `e1->type != e2->type` after the first pass, for an `e1` whose type it did not change.
abbrev second_pass : Option Junction → Expr → Option Junction
second_pass none e2 = junction_of e2
second_pass (some t) e2 = if same_junction t (junction_of e2) then none else junction_of e2

-- A call of __expr_eliminate_eq, if there is a type to call it with.
abbrev pub eliminate_pass :
    (Junction → Expr → Expr → Option (Expr × Expr))
    → Option Junction
    → Expr
    → Expr
    → Option (Expr × Expr)
eliminate_pass run none e1 e2 = some (e1, e2)
eliminate_pass run (some type) e1 e2 = run type e1 e2

-- The body of __expr_eliminate_eq, given the calls that it makes and the operands of `e1` and of
-- `e2`, for those of them that are of the type.
abbrev pub eliminate_node :
    (Expr → Expr → Option Bool)
    → (Expr → Expr → Option (Expr × Expr))
    → Junction
    → Expr
    → Expr
    → Option (Expr × Expr)
    → Option (Expr × Expr)
    → Option (Expr × Expr)
eliminate_node eq again type e1 e2 (some (l, r)) o2 = do
  (l', a) ← again l e2
  (r', b) ← again r a
  some (join type l' r', b)
eliminate_node eq again type e1 e2 none (some (l, r)) = do
  (a, l') ← again e1 l
  (b, r') ← again a r
  some (b, join type l' r')
eliminate_node eq again type e1 e2 none none =
    if same_symbol e1 e2 && is_yes_or_no e1
    then some (e1, e2)
    else do same ← eq e1 e2; some (if same then (neutral type, neutral type) else (e1, e2))

unfoldable mutual
  -- expr_eq
  pub expr_eq : ℕ → Expr → Expr → Option Bool
  expr_eq zero e1 e2 = none
  expr_eq (suc f) (equal l r) (equal l' r') = some (l == l' && r == r')
  expr_eq (suc f) (unequal l r) (unequal l' r') = some (l == l' && r == r')
  expr_eq (suc f) (symbol s) (symbol t) = some (s == t)
  expr_eq (suc f) (not_expr a) (not_expr b) = expr_eq f a b
  expr_eq (suc f) (and_expr a b) (and_expr c d) = do
    (e1, e2) ← expr_eliminate_eq f (and_expr a b) (and_expr c d)
    some (same_symbol e1 e2)
  expr_eq (suc f) (or_expr a b) (or_expr c d) = do
    (e1, e2) ← expr_eliminate_eq f (or_expr a b) (or_expr c d)
    some (same_symbol e1 e2)
  expr_eq (suc f) e1 e2 = some false

  -- expr_eliminate_eq
  pub expr_eliminate_eq : ℕ → Expr → Expr → Option (Expr × Expr)
  expr_eliminate_eq zero e1 e2 = none
  expr_eliminate_eq (suc f) e1 e2 = do
    (a, b) ← eliminate_pass (eliminate_eq_in f) (junction_of e1) e1 e2
    (c, d) ← eliminate_pass (eliminate_eq_in f) (second_pass (junction_of a) b) a b
    some (expr_eliminate_yn c, expr_eliminate_yn d)

  -- __expr_eliminate_eq
  pub eliminate_eq_in : ℕ → Junction → Expr → Expr → Option (Expr × Expr)
  eliminate_eq_in zero type e1 e2 = none
  eliminate_eq_in (suc f) type e1 e2 =
      eliminate_node (expr_eq f) (eliminate_eq_in f type) type e1 e2 (operands type e1)
        (operands type e2)
