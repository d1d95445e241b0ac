-- ===== src/Kconfig/Print/Binding.antt =====
-- scripts/kconfig/expr.c: expr_print closes what it opens, and leaves no operator bare that binds
-- less than what stands around it.
use embtoolkit.Base.{
  append-nil, ℕ, zero, suc, ◌≡◌, refl, ap, ◌∙◌, Bool, true, false, List, [], ◌∷◌, ◌++◌, some, sym,
  arith,
}
use embtoolkit.Kconfig.Expr.{Expr, symbol, not_expr, equal, unequal, or_expr, and_expr, list, range}
use embtoolkit.Kconfig.Print.{
  ExprType, e_or, e_and, e_not, e_equal, e_unequal, e_list, e_symbol, e_range, binds_tighter, Token,
  name, not_sign, equal_sign, unequal_sign, or_sign, and_sign, caret, open_bracket, space,
  close_bracket, print_list, left_name, expr_print,
}
use embtoolkit.Kconfig.Print.Scan.{
  bare, allowed, scan, Passes, plain, scan-enclose, Passes-append, Passes-cons, Passes-nil,
}

-- Tokens that are no operators between expressions.
abbrev free : Token → Bool
free or_sign = false
free and_sign = false
free caret = false
free _ = true

bare-free : (t : ExprType) (k : Token) → free k ≡ true → bare t k ≡ true
bare-free t k h = ground (arith, h)

allowed-free : (t : ExprType) (n : ℕ) (k : Token) → free k ≡ true → allowed t n k ≡ true
allowed-free t zero k h = bare-free t k h
allowed-free t (suc n) k h = refl

looser-or :
    (prev : ExprType) (k : Token)
    → binds_tighter prev e_or ≡ false
    → bare e_or k ≡ true
    → bare prev k ≡ true
looser-or prev k b h = ground (arith, b, h)

looser-and :
    (prev : ExprType) (k : Token)
    → binds_tighter prev e_and ≡ false
    → bare e_and k ≡ true
    → bare prev k ≡ true
looser-and prev k b h = ground (arith, b, h)

looser-not :
    (prev : ExprType) (k : Token)
    → binds_tighter prev e_not ≡ false
    → bare e_not k ≡ true
    → bare prev k ≡ true
looser-not prev k b h = ground (arith, b, h)

looser-list : (prev : ExprType) → binds_tighter prev e_list ≡ false → bare prev caret ≡ true
looser-list prev b = ground (arith, b)

-- At depth n, all is allowed that may stand bare beside prev.
Admits : ExprType → ℕ → ExprType → Type 0
Admits t n prev = (k : Token) → bare prev k ≡ true → allowed t n k ≡ true

Passes-list :
    (t : ExprType) (n : ℕ) (s : ℕ) (rest : List ℕ)
    → allowed t n caret ≡ true
    → Passes t n (print_list s rest)
unfolding print_list
Passes-list t n s [] a =
    Passes-cons t n (name s) [] refl (allowed-free t n (name s) refl) (Passes-nil t n)
Passes-list t n s (x ∷ rest) a =
    Passes-cons t n (name s) (caret ∷ print_list x rest) refl (allowed-free t n (name s) refl)
      (Passes-cons t n caret (print_list x rest) refl a (Passes-list t n x rest a))

free-left_name :
    (named : ℕ → Bool) (s : ℕ)
    → (free (left_name named s) ≡ true) × (plain (left_name named s) ≡ true)
free-left_name named s = ground arith

module _ (named : ℕ → Bool) (t : ExprType) where
  Passes-left_name :
      (n : ℕ) (s : ℕ) (ts : List Token) → Passes t n ts → Passes t n (left_name named s ∷ ts)
  Passes-left_name n s ts h =
      let f = free-left_name named s in
      Passes-cons t n (left_name named s) ts f.1 (allowed-free t n (left_name named s) f.0) h

  -- Three tokens of a comparison.
  Passes-comparison :
      (n : ℕ) (l r : ℕ) (k : Token)
      → plain k ≡ true
      → free k ≡ true
      → Passes t n (left_name named l ∷ k ∷ name r ∷ [])
  Passes-comparison n l r k p f = Passes-left_name n l (k ∷ name r ∷ []) (
      Passes-cons t n k (name r ∷ []) p (allowed-free t n k f)
        (Passes-cons t n (name r) [] refl (allowed-free t n (name r) refl) (Passes-nil t n)))

  Passes-free :
      (n : ℕ) (k : Token) (ts : List Token)
      → plain k ≡ true
      → free k ≡ true
      → Passes t n ts
      → Passes t n (k ∷ ts)
  Passes-free n k ts p f h = Passes-cons t n k ts p (allowed-free t n k f) h

  Passes-range :
      (n : ℕ) (l r : ℕ) → Passes t n (open_bracket ∷ name l ∷ space ∷ name r ∷ close_bracket ∷ [])
  Passes-range n l r =
      Passes-free n open_bracket (name l ∷ space ∷ name r ∷ close_bracket ∷ []) refl refl (
        Passes-free n (name l) (space ∷ name r ∷ close_bracket ∷ []) refl refl (
          Passes-free n space (name r ∷ close_bracket ∷ []) refl refl (
            Passes-free n (name r) (close_bracket ∷ []) refl refl
              (Passes-free n close_bracket [] refl refl (Passes-nil t n)))))

  -- Two operands around an operator.
  Passes-junction :
      (n : ℕ) (a b : List Token) (k : Token)
      → plain k ≡ true
      → allowed t n k ≡ true
      → Passes t n a
      → Passes t n b
      → Passes t n (a ++ (k ∷ b))
  Passes-junction n a b k p q h i = Passes-append t n a (k ∷ b) h (Passes-cons t n k b p q i)

  Passes-expr_print :
      (e : Expr) (prev : ExprType) (n : ℕ) → Admits t n prev → Passes t n (expr_print named e prev)
  unfolding expr_print Admits
  Passes-expr_print (symbol s) prev n adm =
      scan-enclose (binds_tighter prev e_symbol) t n (left_name named s ∷ [])
        (Passes-left_name (suc n) s [] (Passes-nil t (suc n)))
        (λ b. Passes-left_name n s [] (Passes-nil t n))
  Passes-expr_print (not_expr e) prev n adm =
      scan-enclose (binds_tighter prev e_not) t n (not_sign ∷ expr_print named e e_not)
        (Passes-free (suc n) not_sign (expr_print named e e_not) refl refl
          (Passes-expr_print e e_not (suc n) (λ k h. refl)))
        (λ b.
          Passes-free n not_sign (expr_print named e e_not) refl refl
            (Passes-expr_print e e_not n (λ k h. adm k (looser-not prev k b h))))
  Passes-expr_print (equal l r) prev n adm =
      scan-enclose (binds_tighter prev e_equal) t n (left_name named l ∷ equal_sign ∷ name r ∷ [])
        (Passes-comparison (suc n) l r equal_sign refl refl)
        (λ b. Passes-comparison n l r equal_sign refl refl)
  Passes-expr_print (unequal l r) prev n adm =
      scan-enclose (binds_tighter prev e_unequal) t n
        (left_name named l ∷ unequal_sign ∷ name r ∷ [])
        (Passes-comparison (suc n) l r unequal_sign refl refl)
        (λ b. Passes-comparison n l r unequal_sign refl refl)
  Passes-expr_print (or_expr l r) prev n adm =
      let pl = expr_print named l e_or in
      let pr = expr_print named r e_or in
      scan-enclose (binds_tighter prev e_or) t n (pl ++ (or_sign ∷ pr))
        (Passes-junction (suc n) pl pr or_sign refl refl
          (Passes-expr_print l e_or (suc n) (λ k h. refl))
          (Passes-expr_print r e_or (suc n) (λ k h. refl)))
        (λ b.
          Passes-junction n pl pr or_sign refl (adm or_sign (looser-or prev or_sign b refl))
            (Passes-expr_print l e_or n (λ k h. adm k (looser-or prev k b h)))
            (Passes-expr_print r e_or n (λ k h. adm k (looser-or prev k b h))))
  Passes-expr_print (and_expr l r) prev n adm =
      let pl = expr_print named l e_and in
      let pr = expr_print named r e_and in
      scan-enclose (binds_tighter prev e_and) t n (pl ++ (and_sign ∷ pr))
        (Passes-junction (suc n) pl pr and_sign refl refl
          (Passes-expr_print l e_and (suc n) (λ k h. refl))
          (Passes-expr_print r e_and (suc n) (λ k h. refl)))
        (λ b.
          Passes-junction n pl pr and_sign refl (adm and_sign (looser-and prev and_sign b refl))
            (Passes-expr_print l e_and n (λ k h. adm k (looser-and prev k b h)))
            (Passes-expr_print r e_and n (λ k h. adm k (looser-and prev k b h))))
  Passes-expr_print (list s rest) prev n adm =
      scan-enclose (binds_tighter prev e_list) t n (print_list s rest)
        (Passes-list t (suc n) s rest refl)
        (λ b. Passes-list t n s rest (adm caret (looser-list prev b)))
  Passes-expr_print (range l r) prev n adm =
      scan-enclose (binds_tighter prev e_range) t n
        (open_bracket ∷ name l ∷ space ∷ name r ∷ close_bracket ∷ []) (Passes-range (suc n) l r)
        (λ b. Passes-range n l r)

-- In what expr_print prints beside an operator, the parentheses match, and outside of them there is
-- no operator that binds less: no ^ beside ||, no ^ and || beside &&, no ^, || and && beside !.
pub expr_print-scan :
    (named : ℕ → Bool) (e : Expr) (prev : ExprType) → scan prev 0 (expr_print named e prev) ≡ some 0
unfolding scan Passes Admits
expr_print-scan named e prev =
    ap (scan prev 0) (sym (append-nil (expr_print named e prev)))
    ∙ Passes-expr_print named prev e prev 0 (λ k h. h) []
