-- ===== src/Kconfig/Expr/Compare/Value.antt =====
-- scripts/kconfig/expr.c: the value of what expr_trans_compare returns.
use embtoolkit.Base.{
  ℕ, ◌≡◌, ◌≢◌, refl, ap, ap₂, ◌∙◌, true, Option, none, some, ◌⊎◌, if◌then◌else◌, Yields,
  Yields-some, Yields-weaken, arith,
}
use embtoolkit.Kconfig.Tristate.{
  Tristate, tri_no, tri_mod, tri_yes, expr_or, expr_and, expr_not, tri_eq,
}
use embtoolkit.Kconfig.Symbol.{Symbols, Values, IsCalculated, is_bool_type}
use embtoolkit.Kconfig.Expr.{
  Expr, symbol, not_expr, equal, unequal, or_expr, and_expr, list, range, expr_calc_value,
}
use embtoolkit.Kconfig.Expr.Constants.{constant, equal-constant, unequal-constant}
use embtoolkit.Kconfig.Expr.Compare.{
  Comparison, is_equal, is_unequal, flip, both, compare_node, compare_test, negated,
  expr_trans_compare,
}

-- The answer of a comparison of values.
abbrev pub answer : Comparison → Tristate → Tristate → Tristate
answer is_equal t c = if tri_eq t c then tri_yes else tri_no
answer is_unequal t c = if tri_eq t c then tri_no else tri_yes

-- The value is y or n.
abbrev pub IsDecided : Tristate → Type 0
IsDecided t = t ≢ tri_mod

module _ (st : Symbols) (v : Values) where
  -- No list or range, and each symbol that stands as an operand is a boolean or tristate symbol
  -- whose value is y or n.
  abbrev pub IsTwoValued : Expr → Type 0
  IsTwoValued (symbol s) = (is_bool_type (st.sym_type s) ≡ true) × IsDecided (v.tri s)
  IsTwoValued (not_expr e) = IsTwoValued e
  IsTwoValued (equal l r) = Unit
  IsTwoValued (unequal l r) = Unit
  IsTwoValued (or_expr l r) = IsTwoValued l × IsTwoValued r
  IsTwoValued (and_expr l r) = IsTwoValued l × IsTwoValued r
  IsTwoValued (list _ _) = ⊥
  IsTwoValued (range _ _) = ⊥

  IsTwoValued-IsDecided : (e : Expr) → IsTwoValued e → IsDecided (expr_calc_value st v e)
  unfolding expr_calc_value
  IsTwoValued-IsDecided (symbol s) h = h.1
  IsTwoValued-IsDecided (not_expr e) h = ground (arith, IsTwoValued-IsDecided e h)
  IsTwoValued-IsDecided (equal l r) h = ground arith
  IsTwoValued-IsDecided (unequal l r) h = ground arith
  IsTwoValued-IsDecided (or_expr l r) h =
      ground (arith, IsTwoValued-IsDecided l h.0, IsTwoValued-IsDecided r h.1)
  IsTwoValued-IsDecided (and_expr l r) h =
      ground (arith, IsTwoValued-IsDecided l h.0, IsTwoValued-IsDecided r h.1)
  IsTwoValued-IsDecided (list _ _) h = absurd h
  IsTwoValued-IsDecided (range _ _) h = absurd h

  -- The expression that is returned has the value of the comparison.
  abbrev Answers : Comparison → Tristate → Tristate → Option Expr → Type 0
  Answers type t c o = Yields (λ e. expr_calc_value st v e ≡ answer type t c) o

  both-Answers :
      (type : Comparison) (op : Expr → Expr → Expr) (w : Tristate → Tristate → Tristate)
      (a b t c : Tristate) (x y : Option Expr)
      → ((l r : Expr)
          → expr_calc_value st v (op l r) ≡ w (expr_calc_value st v l) (expr_calc_value st v r))
      → w (answer is_equal a c) (answer is_equal b c) ≡ answer is_equal t c
      → Answers is_equal a c x
      → Answers is_equal b c y
      → Answers type t c (negated type (both op x y))
  unfolding expr_calc_value
  both-Answers is_equal op w a b t c (some l) (some r) law e hl hr = law l r ∙ ap₂ w hl hr ∙ e
  both-Answers is_unequal op w a b t c (some l) (some r) law e hl hr =
      ap expr_not (law l r ∙ ap₂ w hl hr ∙ e) ∙ ground arith
  both-Answers type op w a b t c (some l) none law e hl hr = absurd hr
  both-Answers type op w a b t c none y law e hl hr = absurd hl

flip-answer :
    (type : Comparison) (t c : Tristate)
    → IsDecided t
    → IsDecided c
    → answer (flip type) t c ≡ answer type (expr_not t) c
flip-answer is_equal t c ht hc = ground arith
flip-answer is_unequal t c ht hc = ground arith

module _ {st : Symbols} {v : Values} (calc : IsCalculated st v) where
  junction-Answers :
      (type : Comparison) (c : Tristate) (l r : Expr) (x y : Option Expr)
      → IsDecided c
      → Answers st v is_equal (expr_calc_value st v l) c x
      → Answers st v is_equal (expr_calc_value st v r) c y
      → Answers st v type (expr_calc_value st v (and_expr l r)) c (
          compare_node type
            (constant c)
            (negated type (both and_expr x y))
            (negated type (both or_expr x y))
            (and_expr l r))
        × Answers st v type (expr_calc_value st v (or_expr l r)) c (
            compare_node type
              (constant c)
              (negated type (both or_expr x y))
              (negated type (both and_expr x y))
              (or_expr l r))
  unfolding expr_calc_value
  junction-Answers type tri_yes l r x y hc hl hr = (
    both-Answers st v type and_expr expr_and _ _ _ tri_yes x y (λ a b. refl) (ground arith) hl hr,
    both-Answers st v type or_expr expr_or _ _ _ tri_yes x y (λ a b. refl) (ground arith) hl hr,
  )
  junction-Answers type tri_no l r x y hc hl hr = (
    both-Answers st v type or_expr expr_or _ _ _ tri_no x y (λ a b. refl) (ground arith) hl hr,
    both-Answers st v type and_expr expr_and _ _ _ tri_no x y (λ a b. refl) (ground arith) hl hr,
  )
  junction-Answers type tri_mod l r x y hc hl hr = absurd (hc refl)

  decided-equal :
      (l r : ℕ)
      → (expr_calc_value st v (equal l r) ≡ tri_yes) ⊎ (expr_calc_value st v (equal l r) ≡ tri_no)
  unfolding expr_calc_value
  decided-equal l r = ground arith

  decided-unequal :
      (l r : ℕ)
      → (expr_calc_value st v (unequal l r) ≡ tri_yes)
        ⊎ (expr_calc_value st v (unequal l r) ≡ tri_no)
  unfolding expr_calc_value
  decided-unequal l r = ground arith

  flip-not :
      (type : Comparison) (e : Expr) (c : Tristate)
      → IsDecided (expr_calc_value st v e)
      → IsDecided c
      → answer (flip type) (expr_calc_value st v e) c
        ≡ answer type (expr_calc_value st v (not_expr e)) c
  unfolding expr_calc_value
  flip-not type e c h hc = flip-answer type (expr_calc_value st v e) c h hc

  symbol-answer :
      (s : ℕ) (c : Tristate)
      → is_bool_type (st.sym_type s) ≡ true
      → expr_calc_value st v (equal s (constant c))
        ≡ answer is_equal (expr_calc_value st v (symbol s)) c
  unfolding expr_calc_value
  symbol-answer s c h = equal-constant calc s (constant c) c h refl

  symbol-answer_not :
      (s : ℕ) (c : Tristate)
      → is_bool_type (st.sym_type s) ≡ true
      → expr_calc_value st v (unequal s (constant c))
        ≡ answer is_unequal (expr_calc_value st v (symbol s)) c
  unfolding expr_calc_value
  symbol-answer_not s c h = unequal-constant calc s (constant c) c h refl

  -- Of a comparison the code asks for y or for n.
  test-Answers :
      (type : Comparison) (c : Tristate) (e : Expr)
      → IsDecided c
      → (expr_calc_value st v e ≡ tri_yes) ⊎ (expr_calc_value st v e ≡ tri_no)
      → Answers st v type (expr_calc_value st v e) c (compare_test type (constant c) e)
  unfolding expr_calc_value
  test-Answers is_equal tri_yes e hc h = ground arith
  test-Answers is_equal tri_no e hc h = ground arith
  test-Answers is_unequal tri_yes e hc h = ground arith
  test-Answers is_unequal tri_no e hc h = ground arith
  test-Answers type tri_mod e hc h = absurd (hc refl)

  expr_trans_compare-Answers :
      (type : Comparison) (c : Tristate) (e : Expr)
      → IsDecided c
      → IsTwoValued st v e
      → Answers st v type (expr_calc_value st v e) c (expr_trans_compare type (constant c) e)
  unfolding expr_trans_compare
  expr_trans_compare-Answers type c (and_expr l r) hc h =
      (junction-Answers type c l r _ _ hc (expr_trans_compare-Answers is_equal c l hc h.0)
        (expr_trans_compare-Answers is_equal c r hc h.1)).0
  expr_trans_compare-Answers type c (or_expr l r) hc h =
      (junction-Answers type c l r _ _ hc (expr_trans_compare-Answers is_equal c l hc h.0)
        (expr_trans_compare-Answers is_equal c r hc h.1)).1
  expr_trans_compare-Answers type c (not_expr e) hc h =
      Yields-weaken _
        (λ d. expr_calc_value st v d ≡ answer type (expr_calc_value st v (not_expr e)) c)
        (expr_trans_compare (flip type) (constant c) e)
        (λ d p. p ∙ flip-not type e c (IsTwoValued-IsDecided st v e h) hc)
        (expr_trans_compare-Answers (flip type) c e hc h)
  expr_trans_compare-Answers type c (equal l r) hc h =
      test-Answers type c (equal l r) hc (decided-equal l r)
  expr_trans_compare-Answers type c (unequal l r) hc h =
      test-Answers type c (unequal l r) hc (decided-unequal l r)
  expr_trans_compare-Answers is_equal c (symbol s) hc h = symbol-answer s c h.0
  expr_trans_compare-Answers is_unequal c (symbol s) hc h = symbol-answer_not s c h.0
  expr_trans_compare-Answers type c (list _ _) hc h = absurd h
  expr_trans_compare-Answers type c (range _ _) hc h = absurd h

-- For calculated symbols and an expression over two-valued symbols, the comparison with y or n
-- that expr_trans_compare returns has the value y or n, as the value of the expression is or is
-- not the one compared with.
pub expr_trans_compare_correct :
    (st : Symbols) (v : Values)
    → IsCalculated st v
    → (type : Comparison) (c : Tristate) (e : Expr) → IsDecided c
    → IsTwoValued st v e
    → (e' : Expr) × (expr_trans_compare type (constant c) e ≡ some e')
      × (expr_calc_value st v e' ≡ answer type (expr_calc_value st v e) c)
expr_trans_compare_correct st v calc type c e hc h =
    Yields-some _ _ (expr_trans_compare-Answers calc type c e hc h)
