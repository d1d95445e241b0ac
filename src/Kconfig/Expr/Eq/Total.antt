-- ===== src/Kconfig/Expr/Eq/Total.antt =====
-- scripts/kconfig/expr.c: expr_eq and expr_eliminate_eq end. Four calls in a row at most leave the
-- number of nodes in the two expressions as it is.
use embtoolkit.Base.{
  ℕ, zero, suc, ◌+◌, ◌*◌, ◌≤◌, ◌≡◌, refl, Bool, true, false, Option, none, some, ◌&&◌,
  if◌then◌else◌, ◌>>=◌, Yields, Yields-bind, Yields-some, Bool-cases, inl, inr, arith,
}
use embtoolkit.Kconfig.Expr.{Expr, symbol, not_expr, equal, unequal, or_expr, and_expr, size}
use embtoolkit.Kconfig.Expr.Yn.{size-expr_eliminate_yn-le}
use embtoolkit.Kconfig.Expr.Eq.{
  Junction, or_type, and_type, operands, join, neutral, same_symbol, is_yes_or_no, second_pass,
  junction_of, expr_eq, expr_eliminate_eq, eliminate_eq_in, eliminate_node, eliminate_pass,
  same_junction,
}

-- The number of nodes in both.
abbrev nodes : Expr → Expr → ℕ
nodes a b = size a + size b

-- The results are no larger.
abbrev Fits : Expr → Expr → Expr × Expr → Type 0
Fits a b p = (size p.0 ≤ size a) × (size p.1 ≤ size b)

abbrev Anything : Bool → Type 0
Anything b = Unit

pub size_pos : (e : Expr) → 1 ≤ size e
size_pos (not_expr e) = omega arith
size_pos _ = omega arith

pub size-join : (t : Junction) (l r : Expr) → size (join t l r) ≡ suc (size l + size r)
size-join or_type l r = refl
size-join and_type l r = refl

pub size-neutral : (t : Junction) → size (neutral t) ≡ 1
size-neutral or_type = refl
size-neutral and_type = refl

-- The operands of a node are smaller by one.
abbrev pub Parts : Expr → Option (Expr × Expr) → Type 0
Parts a none = Unit
Parts a (some p) = size a ≡ suc (size p.0 + size p.1)

pub operands-Parts : (t : Junction) (a : Expr) → Parts a (operands t a)
operands-Parts or_type (or_expr l r) = refl
operands-Parts or_type _ = tt
operands-Parts and_type (and_expr l r) = refl
operands-Parts and_type _ = tt

-- What a call of __expr_eliminate_eq needs beyond four steps a node: where neither is of the type,
-- a call of expr_eq on the same expressions.
abbrev extra : Option (Expr × Expr) → Option (Expr × Expr) → ℕ
extra none none = 3
extra _ _ = 0

extra-le : (o1 o2 : Option (Expr × Expr)) → extra o1 o2 ≤ 3
extra-le none none = omega arith
extra-le none (some p) = omega arith
extra-le (some p) o = omega arith

Fits-leaf :
    (t : Junction) (a b : Expr) (same : Bool)
    → Fits a b (if same then (neutral t, neutral t) else (a, b))
Fits-leaf t a b true = omega (arith, size-neutral t, size_pos a, size_pos b)
Fits-leaf t a b false = omega arith

module _ (eq : Expr → Expr → Option Bool) (again : Expr → Expr → Option (Expr × Expr))
    (t : Junction) (f : ℕ)
    (eq_yields : (a b : Expr) → 4 * nodes a b + 2 ≤ f → Yields Anything (eq a b))
    (again_yields : (a b : Expr) → 4 * nodes a b + 3 ≤ f → Yields (Fits a b) (again a b)) where
  eliminate_node-Yields :
      (a b : Expr) (o1 o2 : Option (Expr × Expr))
      → Parts a o1
      → Parts b o2
      → 4 * nodes a b + extra o1 o2 ≤ suc f
      → Yields (Fits a b) (eliminate_node eq again t a b o1 o2)
  eliminate_node-Yields a b (some (l, r)) o2 h1 h2 h =
      Yields-bind (Fits l b) (Fits a b) (again l b) _ (again_yields l b (omega (arith, size_pos r)))
        (λ p hp.
          Yields-bind (Fits r p.1) (Fits a b) (again r p.1) _
            (again_yields r p.1 (omega (arith, size_pos l)))
            (λ q hq. omega (arith, size-join t p.0 q.0)))
  eliminate_node-Yields a b none (some (l, r)) h1 h2 h =
      Yields-bind (Fits a l) (Fits a b) (again a l) _ (again_yields a l (omega (arith, size_pos r)))
        (λ p hp.
          Yields-bind (Fits p.0 r) (Fits a b) (again p.0 r) _
            (again_yields p.0 r (omega (arith, size_pos l)))
            (λ q hq. omega (arith, size-join t p.1 q.1)))
  eliminate_node-Yields a b none none h1 h2 h =
      elim (Bool-cases (same_symbol a b && is_yes_or_no a)) [
        | inl e ↦ rw e (omega arith)
        | inr e ↦ rw e (
            Yields-bind Anything (Fits a b) (eq a b) _ (eq_yields a b (omega arith))
              (λ same u. Fits-leaf t a b same))
      ]

-- A call with the type of the first expression.
extra-first :
    (t : Junction) (a b : Expr) → junction_of a ≡ some t → extra (operands t a) (operands t b) ≡ 0
extra-first or_type (or_expr l r) b h = refl
extra-first and_type (and_expr l r) b h = refl
extra-first _ _ b h = cc

extra-right : (o : Option (Expr × Expr)) (p : Expr × Expr) → extra o (some p) ≡ 0
extra-right none p = refl
extra-right (some q) p = refl

second_pass-junction :
    (o : Option Junction) (b : Expr) (t : Junction)
    → second_pass o b ≡ some t
    → junction_of b ≡ some t
second_pass-junction none b t h = h
second_pass-junction (some u) b t h = elim (Bool-cases (same_junction u (junction_of b))) [
  | inl e ↦ absurd (ground (arith, h, e))
  | inr e ↦ rw e at h
]

-- A call with the type of the second expression.
extra-second :
    (t : Junction) (a b : Expr) → junction_of b ≡ some t → extra (operands t a) (operands t b) ≡ 0
extra-second or_type a (or_expr l r) h = extra-right (operands or_type a) (l, r)
extra-second and_type a (and_expr l r) h = extra-right (operands and_type a) (l, r)
extra-second _ a _ h = cc

pass-Yields :
    (run : Junction → Expr → Expr → Option (Expr × Expr)) (o : Option Junction) (a b : Expr)
    → ((t : Junction) → o ≡ some t → Yields (Fits a b) (run t a b))
    → Yields (Fits a b) (eliminate_pass run o a b)
pass-Yields run none a b h = omega arith
pass-Yields run (some t) a b h = h t refl

-- The last step of the E_AND and E_OR cases.
eliminated-Yields :
    (a b : Expr) (run : Option (Expr × Expr))
    → Yields (Fits a b) run
    → Yields Anything (do (c, d) ← run; some (same_symbol c d))
eliminated-Yields a b run h = Yields-bind (Fits a b) Anything run _ h (λ p r. tt)

mutual
  unfolding expr_eq

  expr_eq-Yields : (f : ℕ) (a b : Expr) → 4 * nodes a b + 2 ≤ f → Yields Anything (expr_eq f a b)
  expr_eq-Yields zero a b h = absurd (omega arith)
  expr_eq-Yields (suc f) (equal l r) (equal l' r') h = tt
  expr_eq-Yields (suc f) (unequal l r) (unequal l' r') h = tt
  expr_eq-Yields (suc f) (symbol s) (symbol t) h = tt
  expr_eq-Yields (suc f) (not_expr a) (not_expr b) h = expr_eq-Yields f a b (omega arith)
  expr_eq-Yields (suc f) (and_expr a b) (and_expr c d) h =
      eliminated-Yields (and_expr a b) (and_expr c d) _
        (expr_eliminate_eq-Yields f (and_expr a b) (and_expr c d) (omega arith))
  expr_eq-Yields (suc f) (or_expr a b) (or_expr c d) h =
      eliminated-Yields (or_expr a b) (or_expr c d) _
        (expr_eliminate_eq-Yields f (or_expr a b) (or_expr c d) (omega arith))
  expr_eq-Yields (suc f) _ _ h = tt

  expr_eliminate_eq-Yields :
      (f : ℕ) (a b : Expr) → 4 * nodes a b + 1 ≤ f → Yields (Fits a b) (expr_eliminate_eq f a b)
  expr_eliminate_eq-Yields zero a b h = absurd (omega arith)
  expr_eliminate_eq-Yields (suc f) a b h =
      Yields-bind (Fits a b) (Fits a b) _ _
        (pass-Yields (eliminate_eq_in f) (junction_of a) a b
          (λ t e. eliminate_eq_in-Yields f t a b (omega (arith, extra-first t a b e))))
        (λ p hp.
          Yields-bind (Fits p.0 p.1) (Fits a b) _ _
            (pass-Yields (eliminate_eq_in f) (second_pass (junction_of p.0) p.1) p.0 p.1 (λ t e.
              eliminate_eq_in-Yields f t p.0 p.1 (
                omega (
                  arith,
                  extra-second t p.0 p.1 (second_pass-junction (junction_of p.0) p.1 t e),
                ))))
            (λ q hq. omega (arith, size-expr_eliminate_yn-le q.0, size-expr_eliminate_yn-le q.1)))

  eliminate_eq_in-Yields :
      (f : ℕ) (t : Junction) (a b : Expr)
      → 4 * nodes a b + extra (operands t a) (operands t b) ≤ f
      → Yields (Fits a b) (eliminate_eq_in f t a b)
  eliminate_eq_in-Yields zero t a b h = absurd (omega (arith, size_pos a))
  eliminate_eq_in-Yields (suc f) t a b h =
      eliminate_node-Yields (expr_eq f) (eliminate_eq_in f t) t f (expr_eq-Yields f)
        (λ c d g.
          eliminate_eq_in-Yields f t c d (omega (arith, extra-le (operands t c) (operands t d))))
        a b (operands t a) (operands t b) (operands-Parts t a) (operands-Parts t b) h

-- Fuel for four calls a node and two more: what expr_eq is run with.
abbrev pub eq_fuel : Expr → Expr → ℕ
eq_fuel a b = 4 * (size a + size b) + 2

pub expr_eq_total :
    (f : ℕ) (a b : Expr) → eq_fuel a b ≤ f → (same : Bool) × (expr_eq f a b ≡ some same)
expr_eq_total f a b h =
    let (same, run, u) = Yields-some Anything (expr_eq f a b) (expr_eq-Yields f a b h) in
    (same, run)

pub expr_eliminate_eq_total :
    (f : ℕ) (a b : Expr)
    → eq_fuel a b ≤ f
    → (p : Expr × Expr) × (expr_eliminate_eq f a b ≡ some p) × Fits a b p
expr_eliminate_eq_total f a b h =
    Yields-some (Fits a b) (expr_eliminate_eq f a b) (expr_eliminate_eq-Yields f a b (omega arith))
