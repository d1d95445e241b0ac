-- ===== src/Kconfig/Expr/Transform/Total.antt =====
-- scripts/kconfig/expr.c: expr_transform ends. The depth of its calls is bounded by twice the
-- height of the expression, where a comparison counts for two nodes.
use embtoolkit.Base.{
  ℕ, zero, suc, ◌+◌, ◌*◌, ◌≤◌, ◌≡◌, Option, none, some, ◌>>=◌, Option-cases, inl, inr, arith,
}
use Prim.Native.Nat.{max}
use embtoolkit.Kconfig.Symbol.{Symbols, SymbolType, boolean}
use embtoolkit.Kconfig.Expr.{Expr, symbol, not_expr, equal, unequal, or_expr, and_expr, list, range}
use embtoolkit.Kconfig.Expr.Transform.{
  transform_equal, transform_unequal, transform_not, expr_transform,
}

abbrev pub height : Expr → ℕ
height (symbol s) = 1
height (list s rest) = 1
height (range l r) = 1
height (equal l r) = 2
height (unequal l r) = 2
height (not_expr e) = suc (height e)
height (or_expr l r) = suc (max (height l) (height r))
height (and_expr l r) = suc (max (height l) (height r))

-- The fuel that a call takes: a conjunction or disjunction is not transformed again.
abbrev cost : Expr → ℕ
cost (or_expr l r) = suc (2 * max (height l) (height r))
cost (and_expr l r) = suc (2 * max (height l) (height r))
cost e = 2 * height e

cost-le : (e : Expr) → cost e ≤ 2 * height e
cost-le (or_expr l r) = omega arith
cost-le _ = omega arith

-- No E_RANGE node.
abbrev pub HasNoRange : Expr → Type 0
HasNoRange (range l r) = ⊥
HasNoRange (not_expr e) = HasNoRange e
HasNoRange (or_expr l r) = HasNoRange l × HasNoRange r
HasNoRange (and_expr l r) = HasNoRange l × HasNoRange r
HasNoRange _ = Unit

-- The call returns, with a result that is no higher.
abbrev Returns : ℕ → Option Expr → Type 0
Returns n none = ⊥
Returns n (some e) = (height e ≤ n) × HasNoRange e

transform_equal-Returns : (t : SymbolType) (l r : ℕ) → Returns 2 (some (transform_equal t l r))
transform_equal-Returns boolean l r = ground arith
transform_equal-Returns _ l r = ground arith

transform_unequal-Returns : (t : SymbolType) (l r : ℕ) → Returns 2 (some (transform_unequal t l r))
transform_unequal-Returns boolean l r = ground arith
transform_unequal-Returns _ l r = ground arith

Returns-two :
    (op : Expr → Expr → Expr) (n k : ℕ) (x y : Option Expr)
    → ((l r : Expr)
        → HasNoRange l
        → HasNoRange r
        → height l ≤ n
        → height r ≤ k
        → Returns (suc (max n k)) (some (op l r)))
    → Returns n x
    → Returns k y
    → Returns (suc (max n k)) (do l' ← x; r' ← y; some (op l' r'))
Returns-two op n k (some l) (some r) keep hl hr = keep l r hl.1 hr.1 hl.0 hr.0
Returns-two op n k none y keep hl hr = absurd hl
Returns-two op n k (some l) none keep hl hr = absurd hr

Returns-le : (m n : ℕ) (x : Option Expr) → m ≤ n → Returns m x → Returns n x
Returns-le m n (some e) h r = (omega arith, r.1)
Returns-le m n none h r = r

transform_not-Returns :
    (again : Expr → Option Expr) (n : ℕ) (x : Expr)
    → height x ≤ n
    → HasNoRange x
    → ((a : Expr) → cost a ≤ 2 * n + 1 → HasNoRange a → Returns (height a) (again a))
    → Returns (suc n) (transform_not again x)
transform_not-Returns again n (not_expr a) hx hr keep =
    Returns-le _ _ (again a) (omega arith) (keep a (omega (arith, cost-le a)) hr)
transform_not-Returns again n (equal l r) hx hr keep = omega arith
transform_not-Returns again n (unequal l r) hx hr keep = omega arith
transform_not-Returns again n (or_expr a b) hx hr keep =
    Returns-le _ _ (again (and_expr (not_expr a) (not_expr b))) (omega arith)
      (keep (and_expr (not_expr a) (not_expr b)) (omega arith) hr)
transform_not-Returns again n (and_expr a b) hx hr keep =
    Returns-le _ _ (again (or_expr (not_expr a) (not_expr b))) (omega arith)
      (keep (or_expr (not_expr a) (not_expr b)) (omega arith) hr)
transform_not-Returns again n (symbol s) hx hr keep = ground arith
transform_not-Returns again n (list s rest) hx hr keep = omega arith
transform_not-Returns again n (range l r) hx hr keep = absurd hr

-- With fuel for its cost the call of the negation's case is made on an operand no higher.
bind_not-Returns :
    (again : Expr → Option Expr) (n : ℕ) (x : Option Expr)
    → Returns n x
    → ((a : Expr) → cost a ≤ 2 * n + 1 → HasNoRange a → Returns (height a) (again a))
    → Returns (suc n) (x >>= transform_not again)
bind_not-Returns again n (some e) h keep = transform_not-Returns again n e h.0 h.1 keep
bind_not-Returns again n none h keep = absurd h

module _ (st : Symbols) where
  expr_transform-Returns :
      (f : ℕ) (e : Expr) → cost e ≤ f → HasNoRange e → Returns (height e) (expr_transform st f e)
  unfolding expr_transform
  expr_transform-Returns zero (symbol s) h hr = absurd (omega arith)
  expr_transform-Returns zero (list s rest) h hr = absurd (omega arith)
  expr_transform-Returns zero (range l r) h hr = absurd hr
  expr_transform-Returns zero (equal l r) h hr = absurd (omega arith)
  expr_transform-Returns zero (unequal l r) h hr = absurd (omega arith)
  expr_transform-Returns zero (not_expr e) h hr = absurd (omega arith)
  expr_transform-Returns zero (and_expr l r) h hr = absurd (omega arith)
  expr_transform-Returns zero (or_expr l r) h hr = absurd (omega arith)
  expr_transform-Returns (suc f) (symbol s) h hr = omega arith
  expr_transform-Returns (suc f) (list s rest) h hr = omega arith
  expr_transform-Returns (suc f) (range l r) h hr = absurd hr
  expr_transform-Returns (suc f) (equal l r) h hr = transform_equal-Returns (st.sym_type l) l r
  expr_transform-Returns (suc f) (unequal l r) h hr = transform_unequal-Returns (st.sym_type l) l r
  expr_transform-Returns (suc f) (and_expr l r) h hr =
      Returns-two and_expr (height l) (height r) (expr_transform st f l) (expr_transform st f r)
        (λ a b ha hb p q. (omega arith, (ha, hb)))
        (expr_transform-Returns f l (omega (arith, cost-le l)) hr.0)
        (expr_transform-Returns f r (omega (arith, cost-le r)) hr.1)
  expr_transform-Returns (suc f) (or_expr l r) h hr =
      Returns-two or_expr (height l) (height r) (expr_transform st f l) (expr_transform st f r)
        (λ a b ha hb p q. (omega arith, (ha, hb)))
        (expr_transform-Returns f l (omega (arith, cost-le l)) hr.0)
        (expr_transform-Returns f r (omega (arith, cost-le r)) hr.1)
  expr_transform-Returns (suc f) (not_expr e) h hr =
      bind_not-Returns (expr_transform st f) (height e) (expr_transform st f e)
        (expr_transform-Returns f e (omega (arith, cost-le e)) hr)
        (λ a ha hb. expr_transform-Returns f a (omega arith) hb)

  -- With fuel for twice the height of the expression, expr_transform returns.
  pub expr_transform_total :
      (f : ℕ) (e : Expr)
      → 2 * height e ≤ f
      → HasNoRange e
      → (e' : Expr) × (expr_transform st f e ≡ some e') × (height e' ≤ height e)
  expr_transform_total f e h hr = elim (Option-cases (expr_transform st f e)) [
    | inl out ↦ absurd (rw out at (expr_transform-Returns f e (omega (arith, cost-le e)) hr))
    | inr (e', run) ↦
        (e', run, (rw run at (expr_transform-Returns f e (omega (arith, cost-le e)) hr)).0)
  ]
