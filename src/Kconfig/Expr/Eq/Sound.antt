-- ===== src/Kconfig/Expr/Eq/Sound.antt =====
-- scripts/kconfig/expr.c: expressions that expr_eq calls equal have the same value.
use embtoolkit.Base.{
  ℕ, zero, suc, ◌≡◌, refl, Bool, true, false, Option, none, some, ◌==◌, ==_iff, ◌&&◌, if◌then◌else◌,
  ◌>>=◌, Ensures, Ensures-bind, Ensures-weaken, Ensures-some, Bool-cases, inl, inr, arith, sym, ◌∙◌,
  ap,
}
use embtoolkit.Kconfig.Tristate.{Tristate, expr_not}
use embtoolkit.Kconfig.Symbol.{Symbols, Values, HasConstants}
use embtoolkit.Kconfig.Expr.{
  Expr, symbol, not_expr, equal, unequal, or_expr, and_expr, expr_calc_value,
}
use embtoolkit.Kconfig.Expr.Yn.{expr_eliminate_yn-value}
use embtoolkit.Kconfig.Expr.Eq.Factors.{
  combine, unit, combine-unit, combine_comm, Factors, Reflects, Agrees, Factors-Reflects,
  Factors-refl, Factors-left, Factors-right,
}
use embtoolkit.Kconfig.Expr.Eq.{
  Junction, or_type, and_type, operands, join, neutral, same_symbol, is_yes_or_no, second_pass,
  junction_of, expr_eq, expr_eliminate_eq, eliminate_eq_in, eliminate_node, eliminate_pass,
}

module _ {st : Symbols} {v : Values} (k : HasConstants st v) where
  pub neutral-value : (t : Junction) → expr_calc_value st v (neutral t) ≡ unit t
  unfolding expr_calc_value
  neutral-value or_type = k.no_tri
  neutral-value and_type = k.yes_tri

  combine_unit-value :
      (t : Junction) (x : Tristate) → x ≡ combine t (expr_calc_value st v (neutral t)) x
  combine_unit-value t x =
      sym (combine-unit t x)
      ∙ combine_comm t x (unit t)
      ∙ ap (λ y. combine t y x) (sym (neutral-value t))

  -- Two equal operands are replaced, others are kept.
  Factors-leaf :
      (t : Junction) (a b : Expr) (same : Bool)
      → Agrees st v a b same
      → Factors st v t a b (if same then (neutral t, neutral t) else (a, b))
  Factors-leaf t a b true h = (
    expr_calc_value st v a,
    combine_unit-value t (expr_calc_value st v a),
    sym (h refl) ∙ combine_unit-value t (expr_calc_value st v a),
  )
  Factors-leaf t a b false h = Factors-refl st v t a b

  same_symbol-value :
      (a b : Expr) → same_symbol a b ≡ true → expr_calc_value st v a ≡ expr_calc_value st v b
  unfolding expr_calc_value
  same_symbol-value (symbol s) (symbol t) h = ap v.tri ((==_iff s t).0 h)
  same_symbol-value _ _ h = cc

  pass-Reflects :
      (run : Junction → Expr → Expr → Option (Expr × Expr))
      → ((t : Junction) (a b : Expr) → Ensures (Factors st v t a b) (run t a b))
      → (o : Option Junction) (a b : Expr) → Ensures (Reflects st v a b) (eliminate_pass run o a b)
  pass-Reflects run keep none a b = λ e. e
  pass-Reflects run keep (some t) a b =
      Ensures-weaken (Factors st v t a b) (Reflects st v a b) (run t a b)
        (λ p. Factors-Reflects st v t a b p) (keep t a b)

  -- The last step of the E_AND and E_OR cases.
  eliminated-Agrees :
      (a b : Expr) (run : Option (Expr × Expr))
      → Ensures (Reflects st v a b) run
      → Ensures (Agrees st v a b) (do (c, d) ← run; some (same_symbol c d))
  eliminated-Agrees a b run h =
      Ensures-bind (Reflects st v a b) (Agrees st v a b) run _ h
        (λ p r same. r (same_symbol-value p.0 p.1 same))

  pair-Agrees :
      (x y x' y' : ℕ) (a b : Expr)
      → (x ≡ x' → y ≡ y' → expr_calc_value st v a ≡ expr_calc_value st v b)
      → Agrees st v a b (x == x' && y == y')
  pair-Agrees x y x' y' a b h same = ground (arith, h)

  -- A pair of operands is that of the node.
  pub operands-join :
      (t : Junction) (a : Expr) (o : Option (Expr × Expr))
      → operands t a ≡ o
      → Ensures (λ p. a ≡ join t p.0 p.1) o
  operands-join t a none e = tt
  operands-join or_type (or_expr l r) (some p) e = ground arith
  operands-join or_type _ (some p) e = cc
  operands-join and_type (and_expr l r) (some p) e = ground arith
  operands-join and_type _ (some p) e = cc

  module _ (eq : Expr → Expr → Option Bool) (again : Expr → Expr → Option (Expr × Expr))
      (t : Junction) (eq_agrees : (a b : Expr) → Ensures (Agrees st v a b) (eq a b))
      (again_factors : (a b : Expr) → Ensures (Factors st v t a b) (again a b)) where
    eliminate_node-Factors :
        (a b : Expr) (o1 o2 : Option (Expr × Expr))
        → Ensures (λ p. a ≡ join t p.0 p.1) o1
        → Ensures (λ p. b ≡ join t p.0 p.1) o2
        → Ensures (Factors st v t a b) (eliminate_node eq again t a b o1 o2)
    eliminate_node-Factors a b (some (l, r)) o2 h1 h2 =
        Ensures-bind (Factors st v t l b) (Factors st v t a b) (again l b) _ (again_factors l b)
          (λ p hp.
            Ensures-bind (Factors st v t r p.1) (Factors st v t a b) (again r p.1) _
              (again_factors r p.1)
              (λ q hq. rw h1 (Factors-left st v t l r b p.0 p.1 q.0 q.1 hp hq)))
    eliminate_node-Factors a b none (some (l, r)) h1 h2 =
        Ensures-bind (Factors st v t a l) (Factors st v t a b) (again a l) _ (again_factors a l)
          (λ p hp.
            Ensures-bind (Factors st v t p.0 r) (Factors st v t a b) (again p.0 r) _
              (again_factors p.0 r)
              (λ q hq. rw h2 (Factors-right st v t a l r p.0 p.1 q.0 q.1 hp hq)))
    eliminate_node-Factors a b none none h1 h2 =
        elim (Bool-cases (same_symbol a b && is_yes_or_no a)) [
          | inl e ↦ rw e (Factors-refl st v t a b)
          | inr e ↦ rw e (
              Ensures-bind (Agrees st v a b) (Factors st v t a b) (eq a b) _ (eq_agrees a b)
                (λ same h. Factors-leaf t a b same h))
        ]

  mutual
    unfolding expr_eq expr_calc_value

    expr_eq-Agrees : (f : ℕ) (a b : Expr) → Ensures (Agrees st v a b) (expr_eq f a b)
    expr_eq-Agrees zero a b = tt
    expr_eq-Agrees (suc f) (equal l r) (equal l' r') =
        pair-Agrees l r l' r' (equal l r) (equal l' r') (λ p q. rw (p, q))
    expr_eq-Agrees (suc f) (unequal l r) (unequal l' r') =
        pair-Agrees l r l' r' (unequal l r) (unequal l' r') (λ p q. rw (p, q))
    expr_eq-Agrees (suc f) (symbol s) (symbol t) = λ e. ap v.tri ((==_iff s t).0 e)
    expr_eq-Agrees (suc f) (not_expr a) (not_expr b) =
        Ensures-weaken (Agrees st v a b) (Agrees st v (not_expr a) (not_expr b)) (expr_eq f a b)
          (λ same h e. ap expr_not (h e)) (expr_eq-Agrees f a b)
    expr_eq-Agrees (suc f) (and_expr a b) (and_expr c d) =
        eliminated-Agrees (and_expr a b) (and_expr c d)
          (expr_eliminate_eq f (and_expr a b) (and_expr c d))
          (expr_eliminate_eq-Reflects f (and_expr a b) (and_expr c d))
    expr_eq-Agrees (suc f) (or_expr a b) (or_expr c d) =
        eliminated-Agrees (or_expr a b) (or_expr c d)
          (expr_eliminate_eq f (or_expr a b) (or_expr c d))
          (expr_eliminate_eq-Reflects f (or_expr a b) (or_expr c d))
    expr_eq-Agrees (suc f) _ _ = λ e. cc

    pub expr_eliminate_eq-Reflects :
        (f : ℕ) (a b : Expr) → Ensures (Reflects st v a b) (expr_eliminate_eq f a b)
    expr_eliminate_eq-Reflects zero a b = tt
    expr_eliminate_eq-Reflects (suc f) a b =
        Ensures-bind (Reflects st v a b) (Reflects st v a b) _ _
          (pass-Reflects (eliminate_eq_in f) (eliminate_eq_in-Factors f) (junction_of a) a b)
          (λ p hp.
            Ensures-bind (Reflects st v p.0 p.1) (Reflects st v a b) _ _
              (pass-Reflects (eliminate_eq_in f) (eliminate_eq_in-Factors f)
                (second_pass (junction_of p.0) p.1) p.0 p.1)
              (λ q hq e.
                hp (hq (sym (expr_eliminate_yn-value k q.0) ∙ e ∙ expr_eliminate_yn-value k q.1))))

    eliminate_eq_in-Factors :
        (f : ℕ) (t : Junction) (a b : Expr) → Ensures (Factors st v t a b) (eliminate_eq_in f t a b)
    eliminate_eq_in-Factors zero t a b = tt
    eliminate_eq_in-Factors (suc f) t a b =
        eliminate_node-Factors (expr_eq f) (eliminate_eq_in f t) t (expr_eq-Agrees f)
          (eliminate_eq_in-Factors f t) a b (operands t a) (operands t b)
          (operands-join t a (operands t a) refl) (operands-join t b (operands t b) refl)

  -- Expressions that expr_eq calls equal have the same value.
  pub expr_eq-value :
      (f : ℕ) (a b : Expr)
      → expr_eq f a b ≡ some true
      → expr_calc_value st v a ≡ expr_calc_value st v b
  expr_eq-value f a b h =
      Ensures-some (Agrees st v a b) (expr_eq f a b) true (expr_eq-Agrees f a b) h refl
