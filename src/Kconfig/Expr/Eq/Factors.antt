-- ===== src/Kconfig/Expr/Eq/Factors.antt =====
-- scripts/kconfig/expr.c: the values of two expressions that have a common part taken out of both.
use embtoolkit.Base.{◌≡◌, refl, Bool, true, arith, sym, ◌∙◌, ap, ap₂}
use embtoolkit.Kconfig.Tristate.{Tristate, tri_no, tri_yes, expr_or, expr_and}
use embtoolkit.Kconfig.Symbol.{Symbols, Values}
use embtoolkit.Kconfig.Expr.{Expr, expr_calc_value}
use embtoolkit.Kconfig.Expr.Eq.{Junction, or_type, and_type, join}

-- The operation of a type of node on values.
abbrev pub combine : Junction → Tristate → Tristate → Tristate
combine or_type a b = expr_or a b
combine and_type a b = expr_and a b

abbrev pub unit : Junction → Tristate
unit or_type = tri_no
unit and_type = tri_yes

pub combine_comm : (t : Junction) (a b : Tristate) → combine t a b ≡ combine t b a
combine_comm or_type a b = ground arith
combine_comm and_type a b = ground arith

pub combine_assoc :
    (t : Junction) (a b c : Tristate) → combine t (combine t a b) c ≡ combine t a (combine t b c)
combine_assoc or_type a b c = ground arith
combine_assoc and_type a b c = ground arith

combine_interchange :
    (t : Junction) (x y c d : Tristate)
    → combine t (combine t x c) (combine t y d) ≡ combine t (combine t x y) (combine t c d)
combine_interchange or_type x y c d = ground arith
combine_interchange and_type x y c d = ground arith

pub combine-unit : (t : Junction) (a : Tristate) → combine t a (unit t) ≡ a
combine-unit or_type a = ground arith
combine-unit and_type a = ground arith

-- Two common parts in a row are one.
combine_twice :
    (t : Junction) (b c d : Tristate) → combine t (combine t b d) c ≡ combine t b (combine t c d)
combine_twice t b c d = combine_assoc t b d c ∙ ap (combine t b) (combine_comm t d c)

module _ (st : Symbols) (v : Values) where
  abbrev pub value : Expr → Tristate
  value e = expr_calc_value st v e

  pub value-join : (t : Junction) (l r : Expr) → value (join t l r) ≡ combine t (value l) (value r)
  unfolding expr_calc_value
  value-join or_type l r = refl
  value-join and_type l r = refl

  -- The pair (a', b') is (a, b) with a common part taken out of both.
  abbrev pub Factors : Junction → Expr → Expr → Expr × Expr → Type 0
  Factors t a b p =
      (c : Tristate) × (value a ≡ combine t (value p.0) c) × (value b ≡ combine t (value p.1) c)

  -- If the values of the results agree, so do those of the arguments.
  abbrev pub Reflects : Expr → Expr → Expr × Expr → Type 0
  Reflects a b p = value p.0 ≡ value p.1 → value a ≡ value b

  abbrev pub Agrees : Expr → Expr → Bool → Type 0
  Agrees a b same = same ≡ true → value a ≡ value b

  pub Factors-Reflects :
      (t : Junction) (a b : Expr) (p : Expr × Expr) → Factors t a b p → Reflects a b p
  Factors-Reflects t a b p (c, ha, hb) e = ha ∙ rw e (sym hb)

  pub Factors-refl : (t : Junction) (a b : Expr) → Factors t a b (a, b)
  Factors-refl t a b = (unit t, sym (combine-unit t (value a)), sym (combine-unit t (value b)))

  -- The operands of the first expression, one after the other.
  pub Factors-left :
      (t : Junction) (l r e l' a r' b : Expr)
      → Factors t l e (l', a)
      → Factors t r a (r', b)
      → Factors t (join t l r) e (join t l' r', b)
  Factors-left t l r e l' a r' b (c, hl, he) (d, hr, ha) = (
    combine t c d,
    (value-join t l r
        ∙ ap₂ (combine t) hl hr
        ∙ combine_interchange t (value l') (value r') c d
        ∙ ap (λ x. combine t x (combine t c d)) (sym (value-join t l' r'))),
    he ∙ ap (λ x. combine t x c) ha ∙ combine_twice t (value b) c d,
  )

  -- The operands of the second expression.
  pub Factors-right :
      (t : Junction) (e l r a l' b r' : Expr)
      → Factors t e l (a, l')
      → Factors t a r (b, r')
      → Factors t e (join t l r) (b, join t l' r')
  Factors-right t e l r a l' b r' (c, he, hl) (d, ha, hr) =
      let (m, first, second) = Factors-left t l r e l' a r' b (c, hl, he) (d, hr, ha) in
      (m, second, first)
