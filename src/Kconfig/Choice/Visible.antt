-- ===== src/Kconfig/Choice/Visible.antt =====
-- scripts/kconfig/symbol.c: a choice selects a visible symbol whenever it has one.
use embtoolkit.Base.{
  ℕ, ◌≡◌, refl, true, false, List, [], ◌∷◌, Option, none, some, Bool-cases, inl, inr, arith,
}
use mathlib.Core.List.{Memᴰ}
use embtoolkit.Kconfig.Tristate.{tri_no, tri_eq}
use embtoolkit.Kconfig.Symbol.{Symbols, Values}
use embtoolkit.Kconfig.Expr.{calc_value}
use embtoolkit.Kconfig.Choice.{
  ChoiceDefault, Choice, Shown, is_visible, or_else, if_visible, first_visible, default_symbol,
  first_default, user_symbol, sym_calc_choice, tri_after,
}

-- A symbol that is found is visible.
abbrev pub Finds : Shown → Option ℕ → Type 0
Finds w none = Unit
Finds w (some s) = is_visible w s ≡ true

Finds-or_else : (w : Shown) (m n : Option ℕ) → Finds w m → Finds w n → Finds w (or_else m n)
Finds-or_else w none n h k = k
Finds-or_else w (some s) n h k = h

Finds-if_visible : (w : Shown) (s : ℕ) → Finds w (if_visible w s)
Finds-if_visible w s = elim (Bool-cases (is_visible w s)) [
  | inl e ↦ simp e refl
  | inr e ↦ simp e tt
]

or_else-none : (m n : Option ℕ) → or_else m n ≡ none → (m ≡ none) × (n ≡ none)
or_else-none none n h = (refl, h)
or_else-none (some s) n h = cc

Finds-first_visible : (w : Shown) (ss : List ℕ) → Finds w (first_visible w ss)
unfolding first_visible
Finds-first_visible w [] = tt
Finds-first_visible w (s ∷ ss) =
    Finds-or_else w (if_visible w s) (first_visible w ss) (Finds-if_visible w s)
      (Finds-first_visible w ss)

if_visible-none : (w : Shown) (s : ℕ) → if_visible w s ≡ none → is_visible w s ≡ false
if_visible-none w s h = ground (arith, h)

first_visible-none :
    (w : Shown) (ss : List ℕ)
    → first_visible w ss ≡ none
    → (s : ℕ) → Memᴰ s ss
    → is_visible w s ≡ false
unfolding first_visible
first_visible-none w [] h s m = elim m [ ]
first_visible-none w (x ∷ ss) h s (Memᴰ.head e) =
    let n = or_else-none (if_visible w x) (first_visible w ss) h in rw e (if_visible-none w x n.0)
first_visible-none w (x ∷ ss) h s (Memᴰ.tail m) =
    let n = or_else-none (if_visible w x) (first_visible w ss) h in first_visible-none w ss n.1 s m

module _ (st : Symbols) (v : Values) (w : Shown) where
  Finds-default_symbol : (d : ChoiceDefault) → Finds w (default_symbol st v w d)
  Finds-default_symbol d = elim (Bool-cases (tri_eq (calc_value st v d.condition) tri_no)) [
    | inl e ↦ simp e tt
    | inr e ↦ simp e (Finds-if_visible w d.chosen)
  ]

  Finds-first_default : (ds : List ChoiceDefault) → Finds w (first_default st v w ds)
  unfolding first_default
  Finds-first_default [] = tt
  Finds-first_default (d ∷ ds) =
      Finds-or_else w (default_symbol st v w d) (first_default st v w ds) (Finds-default_symbol d)
        (Finds-first_default ds)

  Finds-user_symbol : (m : Option ℕ) → Finds w (user_symbol st v w m)
  Finds-user_symbol none = tt
  Finds-user_symbol (some s) = Finds-if_visible w s

  -- What sym_calc_choice gives: a visible symbol, and then the value of the choice stays; or none,
  -- and then no value of the choice is visible, and the choice is n.
  abbrev pub Selects : Choice → Option ℕ × Choice → Type 0
  Selects c (some s, c') = (is_visible w s ≡ true) × (c'.tri ≡ c.tri)
  Selects c (none, c') = ((s : ℕ) → Memᴰ s c.values → is_visible w s ≡ false) × (c'.tri ≡ tri_no)

  selects :
      (c c' : Choice) (r : Option ℕ)
      → Finds w r
      → (r ≡ none → first_visible w c.values ≡ none)
      → c'.tri ≡ tri_after st v w r c.tri
      → Selects c (r, c')
  selects c c' none h k e = (first_visible-none w c.values (k refl), e)
  selects c c' (some s) h k e = (h, e)

  -- sym_calc_choice selects a visible symbol and keeps the value of the choice, or it selects none,
  -- and then no value of the choice is visible and the choice becomes n.
  pub sym_calc_choice-Selects : (c : Choice) → Selects c (sym_calc_choice st v w c)
  unfolding sym_calc_choice
  sym_calc_choice-Selects c =
      let f = first_default st v w c.defaults in
      let d = or_else f (first_visible w c.values) in
      let u = user_symbol st v w c.user in
      selects c (sym_calc_choice st v w c).1 (or_else u d)
        (Finds-or_else w u d (Finds-user_symbol c.user) (
          Finds-or_else w f (first_visible w c.values) (Finds-first_default c.defaults)
            (Finds-first_visible w c.values)))
        (λ n. (or_else-none f (first_visible w c.values) (or_else-none u d n).1).1) refl
