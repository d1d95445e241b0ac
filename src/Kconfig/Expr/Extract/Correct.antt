-- ===== src/Kconfig/Expr/Extract/Correct.antt =====
-- scripts/kconfig/expr.c: extraction returns, and each expression has the value of what is shared
-- joined with what is left of it.
use embtoolkit.Base.{
  ℕ, zero, suc, ◌+◌, ◌*◌, ◌≤◌, ◌≡◌, refl, sym, ap, ◌∙◌, Bool, true, false, Option, none, some,
  if◌then◌else◌, Yields, Yields-bind, Yields-some, bind-some, Ensures, arith,
}
use embtoolkit.Kconfig.Tristate.{Tristate}
use embtoolkit.Kconfig.Symbol.{Symbols, Values, HasConstants}
use embtoolkit.Kconfig.Expr.{Expr, size, expr_calc_value, calc_value, expr_alloc_and, expr_alloc_or}
use embtoolkit.Kconfig.Expr.Yn.{expr_eliminate_yn, expr_eliminate_yn-value}
use embtoolkit.Kconfig.Expr.Eq.{Junction, or_type, and_type, operands, join, neutral, expr_eq}
use embtoolkit.Kconfig.Expr.Eq.Factors.{
  combine, unit, combine-unit, combine_comm, combine_assoc, value-join,
}
use embtoolkit.Kconfig.Expr.Eq.Sound.{expr_eq-value, neutral-value, operands-join}
use embtoolkit.Kconfig.Expr.Eq.Total.{expr_eq_total, size-join, size-neutral, size_pos}
use embtoolkit.Kconfig.Expr.Extract.{
  Extraction, add_shared, extract_node, expr_extract_eq, tidy, extract_and_tidy,
  expr_extract_eq_and, expr_extract_eq_or,
}

module _ {st : Symbols} {v : Values} (k : HasConstants st v) (t : Junction) where
  abbrev value : Expr → Tristate
  value e = expr_calc_value st v e

  -- What is shared so far: nothing is the neutral value.
  abbrev shared_value : Option Expr → Tristate
  shared_value none = unit t
  shared_value (some e) = value e

  -- Joined with what is shared, both expressions keep their values, and they grow no larger.
  pub record Extracts (ep : Option Expr) (a b : Expr) (x : Extraction) : Type 0 where
    pub keeps_first :
        combine t (shared_value ep) (value a) ≡ combine t (shared_value x.shared) (value x.first)
    pub keeps_second :
        combine t (shared_value ep) (value b) ≡ combine t (shared_value x.shared) (value x.second)
    pub first_size : size x.first ≤ size a
    pub second_size : size x.second ≤ size b

  -- Two operands of one expression are extracted from in turn.
  combine_step :
      (p p1 p2 l l' r r' : Tristate)
      → combine t p l ≡ combine t p1 l'
      → combine t p1 r ≡ combine t p2 r'
      → combine t p (combine t l r) ≡ combine t p2 (combine t l' r')
  combine_step p p1 p2 l l' r r' h1 h2 =
      sym (combine_assoc t p l r)
      ∙ ap (λ x. combine t x r) h1
      ∙ combine_assoc t p1 l' r
      ∙ ap (combine t p1) (combine_comm t l' r)
      ∙ sym (combine_assoc t p1 r l')
      ∙ ap (λ x. combine t x l') h2
      ∙ combine_assoc t p2 r' l'
      ∙ ap (combine t p2) (combine_comm t r' l')

  shared-add_shared :
      (ep : Option Expr) (a : Expr)
      → combine t (shared_value ep) (value a) ≡ value (add_shared t ep a)
  shared-add_shared none a = combine_comm t (unit t) (value a) ∙ combine-unit t (value a)
  shared-add_shared (some e) a = sym (value-join st v t e a)

  neutral_last : (x : Tristate) → combine t x (value (neutral t)) ≡ x
  neutral_last x = ap (combine t x) (neutral-value k t) ∙ combine-unit t x

  leaf-Extracts :
      (ep : Option Expr) (a b : Expr) (same : Bool)
      → (same ≡ true → value a ≡ value b)
      → Extracts ep a b (
          if same
          then record { shared = some (add_shared t ep a); first = neutral t; second = neutral t }
          else record { shared = ep; first = a; second = b })
  leaf-Extracts ep a b true h = record {
    keeps_first = shared-add_shared ep a ∙ sym (neutral_last (value (add_shared t ep a)));
    keeps_second =
        ap (combine t (shared_value ep)) (sym (h refl))
        ∙ shared-add_shared ep a
        ∙ sym (neutral_last (value (add_shared t ep a)));
    first_size = omega (arith, size-neutral t, size_pos a);
    second_size = omega (arith, size-neutral t, size_pos b);
  }
  leaf-Extracts ep a b false h = record {
    keeps_first = refl;
    keeps_second = refl;
    first_size = omega arith;
    second_size = omega arith;
  }

  left-Extracts :
      (ep : Option Expr) (l r b : Expr) (x y : Extraction)
      → Extracts ep l b x
      → Extracts x.shared r x.second y
      → Extracts ep
          (join t l r)
          b
          (record { shared = y.shared; first = join t x.first y.first; second = y.second })
  left-Extracts ep l r b x y hx hy = record {
    keeps_first =
        ap (combine t (shared_value ep)) (value-join st v t l r)
        ∙ combine_step _ _ _ _ _ _ _ hx.keeps_first hy.keeps_first
        ∙ ap (combine t (shared_value y.shared)) (sym (value-join st v t x.first y.first));
    keeps_second = hx.keeps_second ∙ hy.keeps_second;
    first_size =
        omega (arith, size-join t l r, size-join t x.first y.first, hx.first_size, hy.first_size);
    second_size = omega (arith, hx.second_size, hy.second_size);
  }

  right-Extracts :
      (ep : Option Expr) (a l r : Expr) (x y : Extraction)
      → Extracts ep a l x
      → Extracts x.shared x.first r y
      → Extracts ep a
          (join t l r)
          (record { shared = y.shared; first = y.first; second = join t x.second y.second })
  right-Extracts ep a l r x y hx hy = record {
    keeps_first = hx.keeps_first ∙ hy.keeps_first;
    keeps_second =
        ap (combine t (shared_value ep)) (value-join st v t l r)
        ∙ combine_step _ _ _ _ _ _ _ hx.keeps_second hy.keeps_second
        ∙ ap (combine t (shared_value y.shared)) (sym (value-join st v t x.second y.second));
    first_size = omega (arith, hx.first_size, hy.first_size);
    second_size =
        omega
          (arith, size-join t l r, size-join t x.second y.second, hx.second_size, hy.second_size);
  }

  module _ (f : ℕ) (again : Option Expr → Expr → Expr → Option Extraction)
      (again_yields : (ep : Option Expr) (a b : Expr)
        → 4 * (size a + size b) + 3 ≤ f
        → Yields (Extracts ep a b) (again ep a b)) where
    node-Extracts :
        (ep : Option Expr) (a b : Expr) (o1 o2 : Option (Expr × Expr))
        → Ensures (λ p. a ≡ join t p.0 p.1) o1
        → Ensures (λ p. b ≡ join t p.0 p.1) o2
        → 4 * (size a + size b) + 3 ≤ suc f
        → Yields (Extracts ep a b) (extract_node (expr_eq f) again t ep a b o1 o2)
    node-Extracts ep a b (some (l, r)) o2 h1 h2 h =
        let n : size a ≡ suc (size l + size r) = ap size h1 ∙ size-join t l r in
        Yields-bind (Extracts ep l b) (Extracts ep a b) (again ep l b) _
          (again_yields ep l b (omega (arith, size_pos r)))
          (λ x hx.
            Yields-bind (Extracts x.shared r x.second) (Extracts ep a b) (again x.shared r x.second)
              _ (again_yields x.shared r x.second (omega (arith, size_pos l, hx.second_size)))
              (λ y hy. rw h1 (left-Extracts ep l r b x y hx hy)))
    node-Extracts ep a b none (some (l, r)) h1 h2 h =
        let n : size b ≡ suc (size l + size r) = ap size h2 ∙ size-join t l r in
        Yields-bind (Extracts ep a l) (Extracts ep a b) (again ep a l) _
          (again_yields ep a l (omega (arith, size_pos r)))
          (λ x hx.
            Yields-bind (Extracts x.shared x.first r) (Extracts ep a b) (again x.shared x.first r) _
              (again_yields x.shared x.first r (omega (arith, size_pos l, hx.first_size)))
              (λ y hy. rw h2 (right-Extracts ep a l r x y hx hy)))
    node-Extracts ep a b none none h1 h2 h =
        let (same, run) = expr_eq_total f a b (omega arith) in
        rw run (leaf-Extracts ep a b same (λ e. expr_eq-value k f a b (run ∙ ap some e)))

  expr_extract_eq-Yields :
      (f : ℕ) (ep : Option Expr) (a b : Expr)
      → 4 * (size a + size b) + 3 ≤ f
      → Yields (Extracts ep a b) (expr_extract_eq f t ep a b)
  unfolding expr_extract_eq
  expr_extract_eq-Yields zero ep a b h = absurd (omega arith)
  expr_extract_eq-Yields (suc f) ep a b h =
      node-Extracts f (expr_extract_eq f t) (expr_extract_eq-Yields f) ep a b (operands t a)
        (operands t b) (operands-join k t a (operands t a) refl)
        (operands-join k t b (operands t b) refl) h

  -- What is shared, joined with what is left.
  abbrev rejoined : Option Expr → Expr → Tristate
  rejoined none e = value e
  rejoined (some s) e = value (join t s e)

  combine-rejoined :
      (s : Option Expr) (e : Expr) → combine t (shared_value s) (value e) ≡ rejoined s e
  combine-rejoined none e = combine_comm t (unit t) (value e) ∙ combine-unit t (value e)
  combine-rejoined (some s) e = sym (value-join st v t s e)

  tidy-rejoined :
      (s : Option Expr) (a b : Expr)
      → (rejoined (tidy s a b).shared (tidy s a b).first ≡ rejoined s a)
        × (rejoined (tidy s a b).shared (tidy s a b).second ≡ rejoined s b)
  tidy-rejoined none a b = (refl, refl)
  tidy-rejoined (some s) a b = (
    value-join st v t s (expr_eliminate_yn a)
        ∙ ap (combine t (value s)) (expr_eliminate_yn-value k a)
        ∙ sym (value-join st v t s a),
    value-join st v t s (expr_eliminate_yn b)
        ∙ ap (combine t (value s)) (expr_eliminate_yn-value k b)
        ∙ sym (value-join st v t s b),
  )

  -- The two expressions are what is shared, joined with what is left.
  abbrev Splits : Expr → Expr → Extraction → Type 0
  Splits a b x = (value a ≡ rejoined x.shared x.first) × (value b ≡ rejoined x.shared x.second)

  tidy-Splits :
      (a b : Expr) (x : Extraction)
      → Extracts none a b x
      → Splits a b (tidy x.shared x.first x.second)
  tidy-Splits a b x h = (
    sym (combine-rejoined none a)
        ∙ h.keeps_first
        ∙ combine-rejoined x.shared x.first
        ∙ sym (tidy-rejoined x.shared x.first x.second).0,
    sym (combine-rejoined none b)
        ∙ h.keeps_second
        ∙ combine-rejoined x.shared x.second
        ∙ sym (tidy-rejoined x.shared x.first x.second).1,
  )

  extract_and_tidy-Splits :
      (f : ℕ) (a b : Expr)
      → 4 * (size a + size b) + 3 ≤ f
      → (x : Extraction) × (extract_and_tidy f t a b ≡ some x) × Splits a b x
  extract_and_tidy-Splits f a b h =
      let (x, run, e) = Yields-some (Extracts none a b) _ (expr_extract_eq-Yields f none a b h) in
      (
        tidy x.shared x.first x.second,
        bind-some (expr_extract_eq f t none a b) _ x run,
        tidy-Splits a b x e,
      )

rejoined-and :
    {st : Symbols} {v : Values} (k : HasConstants st v) (s : Option Expr) (e : Expr)
    → rejoined k and_type s e ≡ calc_value st v (expr_alloc_and s (some e))
rejoined-and k none e = refl
rejoined-and k (some s) e = refl

rejoined-or :
    {st : Symbols} {v : Values} (k : HasConstants st v) (s : Option Expr) (e : Expr)
    → rejoined k or_type s e ≡ calc_value st v (expr_alloc_or s (some e))
rejoined-or k none e = refl
rejoined-or k (some s) e = refl

-- With enough fuel expr_extract_eq_and returns, and each of the two expressions has the value of
-- the conjunction of what is shared with what is left of it.
pub expr_extract_eq_and_correct :
    (st : Symbols) (v : Values)
    → HasConstants st v
    → (f : ℕ) (e1 e2 : Expr) → 4 * (size e1 + size e2) + 3 ≤ f
    → (x : Extraction) × (expr_extract_eq_and f e1 e2 ≡ some x)
      × (expr_calc_value st v e1 ≡ calc_value st v (expr_alloc_and x.shared (some x.first)))
      × (expr_calc_value st v e2 ≡ calc_value st v (expr_alloc_and x.shared (some x.second)))
unfolding expr_extract_eq_and
expr_extract_eq_and_correct st v k f e1 e2 h =
    let (x, run, (p, q)) = extract_and_tidy-Splits k and_type f e1 e2 h in
    (x, run, p ∙ rejoined-and k x.shared x.first, q ∙ rejoined-and k x.shared x.second)

-- With enough fuel expr_extract_eq_or returns, and each of the two expressions has the value of
-- the disjunction of what is shared with what is left of it.
pub expr_extract_eq_or_correct :
    (st : Symbols) (v : Values)
    → HasConstants st v
    → (f : ℕ) (e1 e2 : Expr) → 4 * (size e1 + size e2) + 3 ≤ f
    → (x : Extraction) × (expr_extract_eq_or f e1 e2 ≡ some x)
      × (expr_calc_value st v e1 ≡ calc_value st v (expr_alloc_or x.shared (some x.first)))
      × (expr_calc_value st v e2 ≡ calc_value st v (expr_alloc_or x.shared (some x.second)))
unfolding expr_extract_eq_or
expr_extract_eq_or_correct st v k f e1 e2 h =
    let (x, run, (p, q)) = extract_and_tidy-Splits k or_type f e1 e2 h in
    (x, run, p ∙ rejoined-or k x.shared x.first, q ∙ rejoined-or k x.shared x.second)
