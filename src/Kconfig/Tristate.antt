-- ===== src/Kconfig/Tristate.antt =====
-- scripts/kconfig/expr.h: the three values of a symbol, and the operations of expressions on them.
use embtoolkit.Base.{ℕ, ◌≡◌, Bool, true, false, ltb, if◌then◌else◌, arith}

-- `no`, `mod` and `yes` of the source, whose names antt reserves.
pub data Tristate : Type 0 where
  tri_no tri_mod tri_yes : Tristate

-- The values of the enumeration.
abbrev pub rank : Tristate → ℕ
rank tri_no = 0
rank tri_mod = 1
rank tri_yes = 2

-- EXPR_OR: `((dep1) > (dep2)) ? (dep1) : (dep2)`
abbrev pub expr_or : Tristate → Tristate → Tristate
expr_or dep1 dep2 = if ltb (rank dep2) (rank dep1) then dep1 else dep2

-- EXPR_AND: `((dep1) < (dep2)) ? (dep1) : (dep2)`
abbrev pub expr_and : Tristate → Tristate → Tristate
expr_and dep1 dep2 = if ltb (rank dep1) (rank dep2) then dep1 else dep2

-- EXPR_NOT: `2 - (dep)`
abbrev pub expr_not : Tristate → Tristate
expr_not tri_no = tri_yes
expr_not tri_mod = tri_mod
expr_not tri_yes = tri_no

-- `val == other`
abbrev pub tri_eq : Tristate → Tristate → Bool
tri_eq tri_no tri_no = true
tri_eq tri_mod tri_mod = true
tri_eq tri_yes tri_yes = true
tri_eq _ _ = false

pub expr_and_comm : (a b : Tristate) → expr_and a b ≡ expr_and b a
expr_and_comm tri_no b = ground arith
expr_and_comm tri_mod b = ground arith
expr_and_comm tri_yes b = ground arith

pub expr_and_idem : (a : Tristate) → expr_and a a ≡ a
expr_and_idem a = ground arith

pub expr_or_idem : (a : Tristate) → expr_or a a ≡ a
expr_or_idem a = ground arith
