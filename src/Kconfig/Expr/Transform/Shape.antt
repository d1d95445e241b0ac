-- ===== src/Kconfig/Expr/Transform/Shape.antt =====
-- scripts/kconfig/expr.c: the normal form that expr_transform reaches.
use embtoolkit.Base.{
  ℕ, zero, suc, ◌≡◌, refl, ap, Bool, true, false, Option, none, some, ◌==◌, ◌>>=◌, Ensures,
  Ensures-bind, Ensures-some, ◌&&◌, ◌||◌, Bool-cases, inl, inr, ◌≤◌, arith,
}
use embtoolkit.Kconfig.Symbol.{
  Symbols, SymbolType, boolean, Values, HasConstants, symbol_no, symbol_mod, symbol_yes,
}
use embtoolkit.Kconfig.Expr.{Expr, symbol, not_expr, equal, unequal, or_expr, and_expr, list, range}
use embtoolkit.Kconfig.Expr.Transform.Total.{height}
use embtoolkit.Kconfig.Expr.Transform.{
  transform_equal, transform_unequal, transform_not, expr_transform,
}

abbrev is_constant : ℕ → Bool
is_constant s = s == symbol_no || (s == symbol_mod || s == symbol_yes)

abbrev is_boolean : SymbolType → Bool
is_boolean boolean = true
is_boolean _ = false

-- Negations stand only before a symbol that is none of y, m and n (or before a list), and a boolean
-- symbol is compared with none of them.
abbrev pub IsTransformed : Symbols → Expr → Type 0
IsTransformed st (symbol s) = Unit
IsTransformed st (not_expr (symbol s)) = is_constant s ≡ false
IsTransformed st (not_expr (list s rest)) = Unit
IsTransformed st (not_expr _) = ⊥
IsTransformed st (equal l r) = (is_boolean (st.sym_type l) && is_constant r) ≡ false
IsTransformed st (unequal l r) = (is_boolean (st.sym_type l) && is_constant r) ≡ false
IsTransformed st (or_expr l r) = IsTransformed st l × IsTransformed st r
IsTransformed st (and_expr l r) = IsTransformed st l × IsTransformed st r
IsTransformed st (list s rest) = Unit
IsTransformed st (range l r) = ⊥

module _ {st : Symbols} {v : Values} (c : HasConstants st v) where
  -- A boolean symbol is none of the constants, whose type is S_UNKNOWN.
  boolean-ne-constant : (l : ℕ) → st.sym_type l ≡ boolean → is_constant l ≡ false
  boolean-ne-constant l h = elim (Bool-cases (is_constant l)) [
    | inl e ↦ ground (arith, ap st.sym_type, c.no_type, c.mod_type, c.yes_type)
    | inr e ↦ e
  ]

  transform_equal-IsTransformed :
      (t : SymbolType) (l r : ℕ) → st.sym_type l ≡ t → IsTransformed st (transform_equal t l r)
  transform_equal-IsTransformed boolean l r h = ground (arith, boolean-ne-constant l h)
  transform_equal-IsTransformed _ l r h = rw h

  transform_unequal-IsTransformed :
      (t : SymbolType) (l r : ℕ) → st.sym_type l ≡ t → IsTransformed st (transform_unequal t l r)
  transform_unequal-IsTransformed boolean l r h = ground (arith, boolean-ne-constant l h)
  transform_unequal-IsTransformed _ l r h = rw h

  -- Every result of a call is transformed.
  abbrev Reaches : (Expr → Option Expr) → Type 0
  Reaches run = (e : Expr) → Ensures (IsTransformed st) (run e)

  transform_not-IsTransformed :
      (again : Expr → Option Expr)
      → Reaches again
      → (e : Expr) → IsTransformed st e
      → Ensures (IsTransformed st) (transform_not again e)
  transform_not-IsTransformed again keep (not_expr a) t = keep a
  transform_not-IsTransformed again keep (equal l r) t = t
  transform_not-IsTransformed again keep (unequal l r) t = t
  transform_not-IsTransformed again keep (or_expr a b) t = keep _
  transform_not-IsTransformed again keep (and_expr a b) t = keep _
  transform_not-IsTransformed again keep (symbol s) t = ground arith
  transform_not-IsTransformed again keep (list s rest) t = tt
  transform_not-IsTransformed again keep (range l r) t = t

  both-IsTransformed :
      (op : Expr → Expr → Expr) (x y : Option Expr)
      → ((l r : Expr) → IsTransformed st l → IsTransformed st r → IsTransformed st (op l r))
      → Ensures (IsTransformed st) x
      → Ensures (IsTransformed st) y
      → Ensures (IsTransformed st) (do l ← x; r ← y; some (op l r))
  both-IsTransformed op (some l) (some r) keep hl hr = keep l r hl hr
  both-IsTransformed op (some l) none keep hl hr = tt
  both-IsTransformed op none y keep hl hr = tt

  pub expr_transform-Ensures : (f : ℕ) → Reaches (expr_transform st f)
  unfolding expr_transform
  expr_transform-Ensures zero e = tt
  expr_transform-Ensures (suc f) (symbol s) = tt
  expr_transform-Ensures (suc f) (list s rest) = tt
  expr_transform-Ensures (suc f) (range l r) = tt
  expr_transform-Ensures (suc f) (equal l r) =
      transform_equal-IsTransformed (st.sym_type l) l r refl
  expr_transform-Ensures (suc f) (unequal l r) =
      transform_unequal-IsTransformed (st.sym_type l) l r refl
  expr_transform-Ensures (suc f) (and_expr l r) =
      both-IsTransformed and_expr _ _ (λ a b ha hb. (ha, hb)) (expr_transform-Ensures f l)
        (expr_transform-Ensures f r)
  expr_transform-Ensures (suc f) (or_expr l r) =
      both-IsTransformed or_expr _ _ (λ a b ha hb. (ha, hb)) (expr_transform-Ensures f l)
        (expr_transform-Ensures f r)
  expr_transform-Ensures (suc f) (not_expr e) =
      Ensures-bind (IsTransformed st) (IsTransformed st) (expr_transform st f e) _
        (expr_transform-Ensures f e)
        (transform_not-IsTransformed (expr_transform st f) (expr_transform-Ensures f))

  -- What expr_transform returns is in the normal form.
  pub expr_transform-IsTransformed :
      (f : ℕ) (e e' : Expr) → expr_transform st f e ≡ some e' → IsTransformed st e'
  expr_transform-IsTransformed f e e' h =
      Ensures-some (IsTransformed st) (expr_transform st f e) e' (expr_transform-Ensures f e) h

transform_equal_fixed :
    (t : SymbolType) (l r : ℕ)
    → (is_boolean t && is_constant r) ≡ false
    → transform_equal t l r ≡ equal l r
transform_equal_fixed boolean l r h = ground arith
transform_equal_fixed _ l r h = refl

transform_unequal_fixed :
    (t : SymbolType) (l r : ℕ)
    → (is_boolean t && is_constant r) ≡ false
    → transform_unequal t l r ≡ unequal l r
transform_unequal_fixed boolean l r h = ground arith
transform_unequal_fixed _ l r h = refl

module _ (st : Symbols) where
  -- An expression in the normal form is left as it is, if there is fuel for its height.
  pub expr_transform_fixed :
      (f : ℕ) (e : Expr) → IsTransformed st e → height e ≤ f → expr_transform st f e ≡ some e
  unfolding expr_transform
  expr_transform_fixed zero (symbol s) t h = absurd (omega arith)
  expr_transform_fixed zero (list s rest) t h = absurd (omega arith)
  expr_transform_fixed zero (range l r) t h = absurd t
  expr_transform_fixed zero (equal l r) t h = absurd (omega arith)
  expr_transform_fixed zero (unequal l r) t h = absurd (omega arith)
  expr_transform_fixed zero (not_expr e) t h = absurd (omega arith)
  expr_transform_fixed zero (and_expr l r) t h = absurd (omega arith)
  expr_transform_fixed zero (or_expr l r) t h = absurd (omega arith)
  expr_transform_fixed (suc f) (symbol s) t h = refl
  expr_transform_fixed (suc f) (list s rest) t h = refl
  expr_transform_fixed (suc f) (range l r) t h = absurd t
  expr_transform_fixed (suc f) (equal l r) t h =
      ap some (transform_equal_fixed (st.sym_type l) l r t)
  expr_transform_fixed (suc f) (unequal l r) t h =
      ap some (transform_unequal_fixed (st.sym_type l) l r t)
  expr_transform_fixed (suc f) (and_expr l r) t h =
      rw (expr_transform_fixed f l t.0 (omega arith))
        (rw (expr_transform_fixed f r t.1 (omega arith)))
  expr_transform_fixed (suc f) (or_expr l r) t h =
      rw (expr_transform_fixed f l t.0 (omega arith))
        (rw (expr_transform_fixed f r t.1 (omega arith)))
  expr_transform_fixed (suc f) (not_expr (symbol s)) t h =
      rw (expr_transform_fixed f (symbol s) tt (omega arith)) (ground arith)
  expr_transform_fixed (suc f) (not_expr (list s rest)) t h =
      rw (expr_transform_fixed f (list s rest) tt (omega arith))
  expr_transform_fixed (suc f) (not_expr (range l r)) t h = absurd t
  expr_transform_fixed (suc f) (not_expr (equal l r)) t h = absurd t
  expr_transform_fixed (suc f) (not_expr (unequal l r)) t h = absurd t
  expr_transform_fixed (suc f) (not_expr (not_expr e)) t h = absurd t
  expr_transform_fixed (suc f) (not_expr (and_expr l r)) t h = absurd t
  expr_transform_fixed (suc f) (not_expr (or_expr l r)) t h = absurd t
