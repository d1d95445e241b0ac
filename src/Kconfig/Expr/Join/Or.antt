-- ===== src/Kconfig/Expr/Join/Or.antt =====
-- scripts/kconfig/expr.c: what expr_join_or returns has the value of the disjunction that it
-- replaces.
use embtoolkit.Base.{
  ℕ, ◌≤◌, ◌≡◌, refl, sym, ap, ◌∙◌, Bool, true, Option, some, if◌then◌else◌, Ensures, Ensures-if,
  Ensures-some, some_inj, bind-some, >>=-eq-some, arith,
}
use embtoolkit.Kconfig.Tristate.{tri_no, tri_mod, tri_yes, expr_or, expr_or_idem}
use embtoolkit.Kconfig.Symbol.{
  Symbols, SymbolType, boolean, tristate, Values, IsCalculated, is_bool_type, symbol_no, symbol_mod,
  symbol_yes,
}
use embtoolkit.Kconfig.Expr.{Expr, or_expr, expr_calc_value}
use embtoolkit.Kconfig.Expr.Constants.{unequal-constant}
use embtoolkit.Kconfig.Expr.Eq.{expr_eq}
use embtoolkit.Kconfig.Expr.Eq.Sound.{expr_eq-value}
use embtoolkit.Kconfig.Expr.Eq.Total.{eq_fuel, expr_eq_total}
use embtoolkit.Kconfig.Expr.Join.{
  Atom, plain, negated, eq_to, first_atom, second_atom, or_tristate, or_boolean, or_atoms,
  about_one, expr_join_or,
}
use embtoolkit.Kconfig.Expr.Join.Atoms.{
  first_atom-IsAtomOf, second_atom-IsAtomOf, either_way-equal, HasValue, atom_value,
  about_one-value, choice_value,
}

module _ {st : Symbols} {v : Values} (calc : IsCalculated st v) (s : ℕ) where
  or_tristate-value :
      (a b : Atom)
      → is_bool_type (st.sym_type s) ≡ true
      → Ensures
          (HasValue calc s (expr_or (atom_value calc s a) (atom_value calc s b)))
          (or_tristate s a b)
  or_tristate-value (eq_to r1) (eq_to r2) h =
      Ensures-if (HasValue calc s _) _ _ _
        (λ e.
          unequal-constant calc s symbol_no tri_no h refl
          ∙ sym (either_way-equal calc s tri_yes tri_mod _ r1 r2 h (ground arith) (ground arith) e))
        (Ensures-if (HasValue calc s _) _ _ _
          (λ e.
            unequal-constant calc s symbol_mod tri_mod h refl
            ∙ sym
                (either_way-equal calc s tri_yes tri_no _ r1 r2 h (ground arith) (ground arith) e))
          (Ensures-if (HasValue calc s _) _ _ _
            (λ e.
              unequal-constant calc s symbol_yes tri_yes h refl
              ∙ sym (
                  either_way-equal calc s tri_mod tri_no _ r1 r2 h (ground arith) (ground arith) e))
            tt))
  or_tristate-value (eq_to r1) _ h = tt
  or_tristate-value _ b h = tt

  or_boolean-value :
      (a b : Atom)
      → st.sym_type s ≡ boolean
      → Ensures
          (HasValue calc s (expr_or (atom_value calc s a) (atom_value calc s b)))
          (or_boolean s a b)
  unfolding expr_calc_value
  or_boolean-value negated plain h = ground (arith, calc.boolean_value s h, calc.constants.yes_tri)
  or_boolean-value plain negated h = ground (arith, calc.boolean_value s h, calc.constants.yes_tri)
  or_boolean-value plain _ h = tt
  or_boolean-value negated _ h = tt
  or_boolean-value _ _ h = tt

  or_atoms-value :
      (t : SymbolType) (a b : Atom)
      → st.sym_type s ≡ t
      → Ensures
          (HasValue calc s (expr_or (atom_value calc s a) (atom_value calc s b)))
          (or_atoms t s a b)
  or_atoms-value tristate a b h = or_tristate-value a b (rw h)
  or_atoms-value boolean a b h = or_boolean-value a b h
  or_atoms-value _ a b h = tt

module _ {st : Symbols} {v : Values} (calc : IsCalculated st v) where
  joined-value :
      (f : ℕ) (e1 e2 : Expr) (same : Bool)
      → expr_eq f e1 e2 ≡ some same
      → Ensures
          (λ e.
            expr_calc_value st v e ≡ expr_or (expr_calc_value st v e1) (expr_calc_value st v e2))
          (if same
            then some e1
            else about_one (λ s. or_atoms (st.sym_type s) s) (first_atom e1) (second_atom e2))
  joined-value f e1 e2 same run =
      choice_value st v expr_or expr_or_idem e1 e2 same _
        (λ e. expr_eq-value calc.constants f e1 e2 (run ∙ ap some e))
        (about_one-value st v expr_or (λ s. or_atoms (st.sym_type s) s)
          (λ s a b. or_atoms-value calc s (st.sym_type s) a b refl) e1 e2 (first_atom e1)
          (second_atom e2) (first_atom-IsAtomOf e1) (second_atom-IsAtomOf e2))

-- For calculated symbols, an expression that expr_join_or returns has the value of the
-- disjunction of its arguments.
pub expr_join_or_sound :
    (st : Symbols) (v : Values)
    → IsCalculated st v
    → (f : ℕ) (e1 e2 e : Expr) → expr_join_or st f e1 e2 ≡ some (some e)
    → expr_calc_value st v e ≡ expr_calc_value st v (or_expr e1 e2)
unfolding expr_join_or expr_calc_value
expr_join_or_sound st v calc f e1 e2 e h =
    let (same, run, last) = >>=-eq-some (expr_eq f e1 e2) _ h in
    Ensures-some
      (λ d. expr_calc_value st v d ≡ expr_or (expr_calc_value st v e1) (expr_calc_value st v e2)) _
      e (joined-value calc f e1 e2 same run) (some_inj last)

-- With fuel for expr_eq, expr_join_or returns.
pub expr_join_or_total :
    (st : Symbols) (f : ℕ) (e1 e2 : Expr)
    → eq_fuel e1 e2 ≤ f
    → (r : Option Expr) × (expr_join_or st f e1 e2 ≡ some r)
unfolding expr_join_or
expr_join_or_total st f e1 e2 fuel =
    let (same, run) = expr_eq_total f e1 e2 fuel in (_, bind-some (expr_eq f e1 e2) _ same run)
