-- ===== src/Kconfig/Expr/Join/And.antt =====
-- scripts/kconfig/expr.c: what expr_join_and returns has the value of the conjunction that it
-- replaces.
use embtoolkit.Base.{
  ℕ, ◌≤◌, ◌≡◌, ◌≢◌, refl, sym, ap, ◌∙◌, Bool, true, false, Option, some, ◌==◌, ==_iff, ◌&&◌,
  Bool-cases, inl, inr, if◌then◌else◌, Ensures, Ensures-if, Ensures-some, some_inj, bind-some,
  >>=-eq-some, Text, str_eq→eq, str_eq, arith,
}
use embtoolkit.Kconfig.Tristate.{tri_no, tri_mod, tri_yes, expr_and, expr_and_comm, expr_and_idem}
use embtoolkit.Kconfig.Symbol.{
  Symbols, SymbolType, boolean, tristate, Values, IsCalculated, is_bool_type, symbol_no, symbol_mod,
  symbol_yes, sym_get_string_value,
}
use embtoolkit.Kconfig.Expr.{Expr, and_expr, expr_calc_value}
use embtoolkit.Kconfig.Expr.Constants.{equal-constant, unequal-constant}
use embtoolkit.Kconfig.Expr.Eq.{expr_eq}
use embtoolkit.Kconfig.Expr.Eq.Sound.{expr_eq-value}
use embtoolkit.Kconfig.Expr.Eq.Total.{eq_fuel, expr_eq_total}
use embtoolkit.Kconfig.Expr.Join.{
  Atom, plain, eq_to, ne_to, first_atom, second_atom, and_test, and_constants, and_tristate,
  and_rules, and_atoms, about_one, expr_join_and,
}
use embtoolkit.Kconfig.Expr.Join.Atoms.{
  first_atom-IsAtomOf, second_atom-IsAtomOf, either_way-unequal, HasValue, atom_value,
  about_one-value, choice_value, IsInterned,
}

module _ {st : Symbols} {v : Values} (calc : IsCalculated st v) (s : ℕ) where
  swap_value :
      (a b : Atom) (o : Option Expr)
      → Ensures (HasValue calc s (expr_and (atom_value calc s a) (atom_value calc s b))) o
      → Ensures (HasValue calc s (expr_and (atom_value calc s b) (atom_value calc s a))) o
  swap_value a b o h = rw (expr_and_comm (atom_value calc s b) (atom_value calc s a)) h

  and_test-value :
      (a : Atom)
      → is_bool_type (st.sym_type s) ≡ true
      → Ensures (HasValue calc s (expr_and (v.tri s) (atom_value calc s a))) (and_test s a)
  unfolding expr_calc_value
  and_test-value (eq_to r) h =
      Ensures-if (HasValue calc s _) (r == symbol_yes) _ _
        (λ e. ground (
          arith,
          equal-constant calc s r tri_yes h ((==_iff r symbol_yes).0 e),
          equal-constant calc s symbol_yes tri_yes h refl,
        ))
        tt
  and_test-value (ne_to r) h =
      Ensures-if (HasValue calc s _) (r == symbol_no) _ _
        (λ e. ground (arith, unequal-constant calc s r tri_no h ((==_iff r symbol_no).0 e)))
        (Ensures-if (HasValue calc s _) (r == symbol_mod) _ _
          (λ e. ground (
            arith,
            unequal-constant calc s r tri_mod h ((==_iff r symbol_mod).0 e),
            equal-constant calc s symbol_yes tri_yes h refl,
          ))
          tt)
  and_test-value _ h = tt

  module _ (interned : IsInterned st v) where
    -- (a='b') && (a!='c'), for constants b and c.
    and_constants-value :
        (b c : ℕ)
        → Ensures
            (HasValue calc s (expr_and (atom_value calc s (eq_to b)) (atom_value calc s (ne_to c))))
            (and_constants st s b c)
    unfolding expr_calc_value
    and_constants-value b c = elim (Bool-cases (st.is_const c && st.is_const b)) [
      | inl e ↦ rw e (ground (arith, differ e, ap (sym_get_string_value st v) {x = b} {y = c}))
      | inr e ↦ rw e tt
    ]
      where
        text : ℕ → Text
        text k = sym_get_string_value st v k

        differ :
            (st.is_const c && st.is_const b) ≡ true
            → b ≢ c
            → str_eq (text s) (text b) ≡ true
            → str_eq (text s) (text c) ≡ false
        differ e ne same =
            rw (str_eq→eq (text s) (text b) same)
              (interned.texts_differ b c (ground arith) (ground arith) ne)

    and_tristate-value :
        (a b : Atom)
        → is_bool_type (st.sym_type s) ≡ true
        → Ensures
            (HasValue calc s (expr_and (atom_value calc s a) (atom_value calc s b)))
            (and_tristate st s a b)
    and_tristate-value (eq_to b) (ne_to c) h = and_constants-value b c
    and_tristate-value (ne_to c) (eq_to b) h =
        swap_value (eq_to b) (ne_to c) (and_constants st s b c) (and_constants-value b c)
    and_tristate-value (ne_to r1) (ne_to r2) h =
        Ensures-if (HasValue calc s _) _ _ _
          (λ e.
            equal-constant calc s symbol_mod tri_mod h refl
            ∙ sym (
                either_way-unequal calc s tri_yes tri_no _ r1 r2 h (ground arith) (ground arith) e))
          (Ensures-if (HasValue calc s _) _ _ _
            (λ e.
              equal-constant calc s symbol_no tri_no h refl
              ∙ sym (
                  either_way-unequal calc s tri_yes tri_mod _ r1 r2 h (ground arith) (ground arith)
                    e))
            (Ensures-if (HasValue calc s _) _ _ _
              (λ e.
                equal-constant calc s symbol_yes tri_yes h refl
                ∙ sym (
                    either_way-unequal calc s tri_mod tri_no _ r1 r2 h (ground arith) (ground arith)
                      e))
              tt))
    and_tristate-value (eq_to b) _ h = tt
    and_tristate-value (ne_to b) _ h = tt
    and_tristate-value _ _ h = tt

    symbol-value :
        (a : Atom) (o : Option Expr)
        → Ensures (HasValue calc s (expr_and (v.tri s) (atom_value calc s a))) o
        → Ensures (HasValue calc s (expr_and (atom_value calc s plain) (atom_value calc s a))) o
    unfolding expr_calc_value
    symbol-value a o h = h

    and_rules-value :
        (t : SymbolType) (a b : Atom)
        → st.sym_type s ≡ t
        → is_bool_type (st.sym_type s) ≡ true
        → Ensures
            (HasValue calc s (expr_and (atom_value calc s a) (atom_value calc s b)))
            (and_rules st t s a b)
    and_rules-value t plain b h k = symbol-value b (and_test s b) (and_test-value b k)
    and_rules-value t a plain h k =
        swap_value plain a (and_test s a) (symbol-value a (and_test s a) (and_test-value a k))
    and_rules-value tristate a b h k = and_tristate-value a b k
    and_rules-value _ a b h k = tt

    and_atoms-value :
        (t : SymbolType) (a b : Atom)
        → st.sym_type s ≡ t
        → Ensures
            (HasValue calc s (expr_and (atom_value calc s a) (atom_value calc s b)))
            (and_atoms st t s a b)
    and_atoms-value tristate a b h = and_rules-value tristate a b h (rw h)
    and_atoms-value boolean a b h = and_rules-value boolean a b h (rw h)
    and_atoms-value _ a b h = tt

module _ {st : Symbols} {v : Values} (calc : IsCalculated st v) (interned : IsInterned st v) where
  joined-value :
      (f : ℕ) (e1 e2 : Expr) (same : Bool)
      → expr_eq f e1 e2 ≡ some same
      → Ensures
          (λ e.
            expr_calc_value st v e ≡ expr_and (expr_calc_value st v e1) (expr_calc_value st v e2))
          (if same
            then some e1
            else about_one (λ s. and_atoms st (st.sym_type s) s) (first_atom e1) (second_atom e2))
  joined-value f e1 e2 same run =
      choice_value st v expr_and expr_and_idem e1 e2 same _
        (λ e. expr_eq-value calc.constants f e1 e2 (run ∙ ap some e))
        (about_one-value st v expr_and (λ s. and_atoms st (st.sym_type s) s)
          (λ s a b. and_atoms-value calc s interned (st.sym_type s) a b refl) e1 e2 (first_atom e1)
          (second_atom e2) (first_atom-IsAtomOf e1) (second_atom-IsAtomOf e2))

-- For calculated symbols whose constants are interned, an expression that expr_join_and returns has the value of the
-- conjunction of its arguments.
pub expr_join_and_sound :
    (st : Symbols) (v : Values)
    → IsCalculated st v
    → IsInterned st v
    → (f : ℕ) (e1 e2 e : Expr) → expr_join_and st f e1 e2 ≡ some (some e)
    → expr_calc_value st v e ≡ expr_calc_value st v (and_expr e1 e2)
unfolding expr_join_and expr_calc_value
expr_join_and_sound st v calc interned f e1 e2 e h =
    let (same, run, last) = >>=-eq-some (expr_eq f e1 e2) _ h in
    Ensures-some
      (λ d. expr_calc_value st v d ≡ expr_and (expr_calc_value st v e1) (expr_calc_value st v e2)) _
      e (joined-value calc interned f e1 e2 same run) (some_inj last)

-- With fuel for expr_eq, expr_join_and returns.
pub expr_join_and_total :
    (st : Symbols) (f : ℕ) (e1 e2 : Expr)
    → eq_fuel e1 e2 ≤ f
    → (r : Option Expr) × (expr_join_and st f e1 e2 ≡ some r)
unfolding expr_join_and
expr_join_and_total st f e1 e2 fuel =
    let (same, run) = expr_eq_total f e1 e2 fuel in (_, bind-some (expr_eq f e1 e2) _ same run)
