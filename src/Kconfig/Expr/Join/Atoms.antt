-- ===== src/Kconfig/Expr/Join/Atoms.antt =====
-- scripts/kconfig/expr.c: what expr_join_or and expr_join_and read of their operands, and the
-- values of two tests of a symbol with constants.
use embtoolkit.Base.{
  ℕ, ◌≡◌, ◌≢◌, refl, sym, ap₂, ◌∙◌, Bool, true, false, Option, none, some, ◌==◌, ==_iff, Bool-cases,
  inl, inr, if◌then◌else◌, Ensures, ◌⊎◌, str_eq, arith,
}
use embtoolkit.Kconfig.Tristate.{Tristate, tri_no, tri_yes, expr_or, expr_and, tri_eq}
use embtoolkit.Kconfig.Symbol.{Symbols, Values, IsCalculated, is_bool_type, sym_get_string_value}
use embtoolkit.Kconfig.Expr.{Expr, symbol, not_expr, equal, unequal, expr_calc_value}
use embtoolkit.Kconfig.Expr.Constants.{constant, equal-constant, unequal-constant}
use embtoolkit.Kconfig.Expr.Join.{
  Atom, plain, negated, eq_to, ne_to, not_eq_to, not_ne_to, first_atom, second_atom, about_one,
  either_way,
}

-- The expression that an atom stands for.
abbrev pub atom_expr : ℕ → Atom → Expr
atom_expr s plain = symbol s
atom_expr s negated = not_expr (symbol s)
atom_expr s (eq_to r) = equal s r
atom_expr s (ne_to r) = unequal s r
atom_expr s (not_eq_to r) = not_expr (equal s r)
atom_expr s (not_ne_to r) = not_expr (unequal s r)

abbrev pub IsAtomOf : Expr → ℕ × Atom → Type 0
IsAtomOf e p = e ≡ atom_expr p.0 p.1

pub first_atom-IsAtomOf : (e : Expr) → Ensures (IsAtomOf e) (first_atom e)
first_atom-IsAtomOf (symbol s) = refl
first_atom-IsAtomOf (equal l r) = refl
first_atom-IsAtomOf (unequal l r) = refl
first_atom-IsAtomOf (not_expr (symbol s)) = refl
first_atom-IsAtomOf (not_expr (equal l r)) = refl
first_atom-IsAtomOf (not_expr (unequal l r)) = refl
first_atom-IsAtomOf _ = tt

pub second_atom-IsAtomOf : (e : Expr) → Ensures (IsAtomOf e) (second_atom e)
second_atom-IsAtomOf (symbol s) = refl
second_atom-IsAtomOf (equal l r) = refl
second_atom-IsAtomOf (unequal l r) = refl
second_atom-IsAtomOf (not_expr (symbol s)) = refl
second_atom-IsAtomOf _ = tt

-- Constant symbols are interned by name: two that differ have different texts.
pub record IsInterned (st : Symbols) (v : Values) : Type 0 where
  pub texts_differ :
      (b c : ℕ)
      → st.is_const b ≡ true
      → st.is_const c ≡ true
      → b ≢ c
      → str_eq (sym_get_string_value st v b) (sym_get_string_value st v c) ≡ false

either_way-cases :
    (r1 r2 x y : ℕ) → either_way r1 r2 x y ≡ true → ((r1 ≡ x) × (r2 ≡ y)) ⊎ ((r1 ≡ y) × (r2 ≡ x))
either_way-cases r1 r2 x y h = ground arith

-- The values of `s='c'` and `s!='c'`.
abbrev pub is_value : Tristate → Tristate → Tristate
is_value t c = if tri_eq t c then tri_yes else tri_no

abbrev pub is_not_value : Tristate → Tristate → Tristate
is_not_value t c = if tri_eq t c then tri_no else tri_yes

module _ {st : Symbols} {v : Values} (calc : IsCalculated st v) (s : ℕ) where
  abbrev pub HasValue : Tristate → Expr → Type 0
  HasValue t e = expr_calc_value st v e ≡ t

  abbrev pub atom_value : Atom → Tristate
  atom_value a = expr_calc_value st v (atom_expr s a)

  -- Two tests with constants, in either order, against a third expression.
  pub either_way-equal :
      (x y : Tristate) (w : Tristate) (r1 r2 : ℕ)
      → is_bool_type (st.sym_type s) ≡ true
      → expr_or (is_value (v.tri s) x) (is_value (v.tri s) y) ≡ w
      → expr_or (is_value (v.tri s) y) (is_value (v.tri s) x) ≡ w
      → either_way r1 r2 (constant x) (constant y) ≡ true
      → expr_or (atom_value (eq_to r1)) (atom_value (eq_to r2)) ≡ w
  either_way-equal x y w r1 r2 h p q e = elim (either_way-cases r1 r2 (constant x) (constant y) e) [
    | inl (e1, e2) ↦
        ap₂ expr_or (equal-constant calc s r1 x h e1) (equal-constant calc s r2 y h e2) ∙ p
    | inr (e1, e2) ↦
        ap₂ expr_or (equal-constant calc s r1 y h e1) (equal-constant calc s r2 x h e2) ∙ q
  ]

  pub either_way-unequal :
      (x y : Tristate) (w : Tristate) (r1 r2 : ℕ)
      → is_bool_type (st.sym_type s) ≡ true
      → expr_and (is_not_value (v.tri s) x) (is_not_value (v.tri s) y) ≡ w
      → expr_and (is_not_value (v.tri s) y) (is_not_value (v.tri s) x) ≡ w
      → either_way r1 r2 (constant x) (constant y) ≡ true
      → expr_and (atom_value (ne_to r1)) (atom_value (ne_to r2)) ≡ w
  either_way-unequal x y w r1 r2 h p q e =
      elim (either_way-cases r1 r2 (constant x) (constant y) e) [
        | inl (e1, e2) ↦
            ap₂ expr_and (unequal-constant calc s r1 x h e1) (unequal-constant calc s r2 y h e2) ∙ p
        | inr (e1, e2) ↦
            ap₂ expr_and (unequal-constant calc s r1 y h e1) (unequal-constant calc s r2 x h e2) ∙ q
      ]

-- A rule for one symbol is a rule for the expressions.
pub about_one-value :
    (st : Symbols) (v : Values) (op : Tristate → Tristate → Tristate)
    (rules : ℕ → Atom → Atom → Option Expr)
    → ((s : ℕ) (a b : Atom)
        → Ensures
            (λ e.
              expr_calc_value st v e
              ≡ op (expr_calc_value st v (atom_expr s a)) (expr_calc_value st v (atom_expr s b)))
            (rules s a b))
    → (e1 e2 : Expr) (o1 o2 : Option (ℕ × Atom)) → Ensures (IsAtomOf e1) o1
    → Ensures (IsAtomOf e2) o2
    → Ensures
        (λ e. expr_calc_value st v e ≡ op (expr_calc_value st v e1) (expr_calc_value st v e2))
        (about_one rules o1 o2)
about_one-value st v op rules keep e1 e2 (some (s, a)) (some (t, b)) h1 h2 =
    elim (Bool-cases (s == t)) [
      | inl e ↦ rw (e, h1, h2, ← ((==_iff s t).0 e)) (keep s a b)
      | inr e ↦ rw e tt
    ]
about_one-value st v op rules keep e1 e2 none o2 h1 h2 = tt
about_one-value st v op rules keep e1 e2 (some p) none h1 h2 = tt

-- Equal operands are one of them; otherwise the rules apply.
pub choice_value :
    (st : Symbols) (v : Values) (op : Tristate → Tristate → Tristate)
    → ((t : Tristate) → op t t ≡ t)
    → (e1 e2 : Expr) (same : Bool) (rest : Option Expr)
    → (same ≡ true → expr_calc_value st v e1 ≡ expr_calc_value st v e2)
    → Ensures
        (λ e. expr_calc_value st v e ≡ op (expr_calc_value st v e1) (expr_calc_value st v e2))
        rest
    → Ensures
        (λ e. expr_calc_value st v e ≡ op (expr_calc_value st v e1) (expr_calc_value st v e2))
        (if same then some e1 else rest)
choice_value st v op idem e1 e2 true rest eq h = rw (← (eq refl)) (sym (idem _))
choice_value st v op idem e1 e2 false rest eq h = h
