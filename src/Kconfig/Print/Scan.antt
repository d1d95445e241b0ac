-- ===== src/Kconfig/Print/Scan.antt =====
-- scripts/kconfig/expr.c: a scan of printed text that follows its parentheses and looks for bare
-- operators, and the texts that pass it.
use embtoolkit.Base.{
  append_assoc, append-nil, ℕ, zero, suc, ◌≡◌, refl, ap, ◌∙◌, Bool, true, false, List, [], ◌∷◌,
  ◌++◌, Option, none, some, if◌then◌else◌,
}
use embtoolkit.Kconfig.Print.{
  yes_text, ExprType, e_or, e_and, e_not, Token, name, choice_text, open_sign, close_sign, not_sign,
  equal_sign, unequal_sign, or_sign, and_sign, caret, open_bracket, space, close_bracket, enclose,
}

-- The operators that may stand bare beside an operator of a type.
abbrev pub bare : ExprType → Token → Bool
bare e_or caret = false
bare e_and caret = false
bare e_and or_sign = false
bare e_not caret = false
bare e_not or_sign = false
bare e_not and_sign = false
bare _ t = true

-- Whether a token may stand at a depth of parentheses: t is the type around the text.
abbrev pub allowed : ExprType → ℕ → Token → Bool
allowed t zero k = bare t k
allowed t (suc n) k = true

abbrev pub close : ℕ → Option ℕ
close zero = none
close (suc n) = some n

-- The depth after a text that starts at depth n, unless a parenthesis is closed that is not open or
-- an operator stands bare that may not.
unfoldable pub scan : ExprType → ℕ → List Token → Option ℕ
scan t n [] = some n
scan t n (open_sign ∷ ts) = scan t (suc n) ts
scan t zero (close_sign ∷ ts) = none
scan t (suc n) (close_sign ∷ ts) = scan t n ts
scan t n (k ∷ ts) = let rest = scan t n ts in if allowed t n k then rest else none

-- The text passes at a depth and leaves it, whatever follows.
unfoldable pub Passes : ExprType → ℕ → List Token → Type 0
Passes t n ts = (rest : List Token) → scan t n (ts ++ rest) ≡ scan t n rest

pub scan-enclose :
    (b : Bool) (t : ExprType) (n : ℕ) (ts : List Token)
    → Passes t (suc n) ts
    → (b ≡ false → Passes t n ts)
    → Passes t n (enclose b ts)
unfolding scan Passes
scan-enclose false t n ts h k rest = ap (λ u. scan t n (u ++ rest)) (append-nil ts) ∙ k refl rest
scan-enclose true t n ts h k rest =
    ap (scan t (suc n)) (append_assoc ts (close_sign ∷ []) rest) ∙ h (close_sign ∷ rest)

pub Passes-append :
    (t : ExprType) (n : ℕ) (a b : List Token) → Passes t n a → Passes t n b → Passes t n (a ++ b)
unfolding Passes
Passes-append t n a b h k rest = ap (scan t n) (append_assoc a b rest) ∙ h (b ++ rest) ∙ k rest

-- Tokens that count neither as parentheses.
abbrev pub plain : Token → Bool
plain open_sign = false
plain close_sign = false
plain _ = true

pub Passes-cons :
    (t : ExprType) (n : ℕ) (k : Token) (ts : List Token)
    → plain k ≡ true
    → allowed t n k ≡ true
    → Passes t n ts
    → Passes t n (k ∷ ts)
unfolding scan Passes
Passes-cons t n (name s) ts p a h rest = simp a (h rest)
Passes-cons t n choice_text ts p a h rest = simp a (h rest)
Passes-cons t n yes_text ts p a h rest = simp a (h rest)
Passes-cons t n open_sign ts p a h rest = absurd cc
Passes-cons t n close_sign ts p a h rest = absurd cc
Passes-cons t n not_sign ts p a h rest = simp a (h rest)
Passes-cons t n equal_sign ts p a h rest = simp a (h rest)
Passes-cons t n unequal_sign ts p a h rest = simp a (h rest)
Passes-cons t n or_sign ts p a h rest = simp a (h rest)
Passes-cons t n and_sign ts p a h rest = simp a (h rest)
Passes-cons t n caret ts p a h rest = simp a (h rest)
Passes-cons t n open_bracket ts p a h rest = simp a (h rest)
Passes-cons t n space ts p a h rest = simp a (h rest)
Passes-cons t n close_bracket ts p a h rest = simp a (h rest)

pub Passes-nil : (t : ExprType) (n : ℕ) → Passes t n []
unfolding Passes
Passes-nil t n rest = refl
