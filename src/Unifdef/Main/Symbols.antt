-- ===== src/Unifdef/Main/Symbols.antt =====
-- scripts/unifdef.c: addsym on a name, with or without a value.
use embtoolkit.Base.{
  ℕ, suc, ◌<◌, ◌≤◌, ◌≡◌, refl, sym, ap, ◌∙◌, Bool, true, false, List, [], ◌∷◌, ◌++◌, Option, none,
  some, Text, if◌then◌else◌, if-true, if-false, leb, length, length-append, str_eq, str_eq→eq,
  arith, Bool-cases, Option-cases, inl, inr,
}
use embtoolkit.Unifdef.Symbols.{
  is_word, endsym, strlcmp, Symbol, sym_name, value_of, put_symbol, is_none, maxsyms, added, addsym,
}
use embtoolkit.Unifdef.Symbols.Words.{
  all_word, lookup, skipsym-append, length_sym-append, strlcmp-append, findsym-lookup,
}

abbrev pub first_of {ℓ} : {A : Type ℓ} → Option A → Option A → Option A
first_of none b = b
first_of (some a) b = some a

pub first_of_assoc {ℓ} :
    {A : Type ℓ} (a b c : Option A) → first_of a (first_of b c) ≡ first_of (first_of a b) c
first_of_assoc none b c = refl
first_of_assoc (some a) b c = refl

-- What the entry says of a name.
abbrev pub entry_for : Symbol → Text → Option Symbol
entry_for s x = if str_eq s.symname x then some s else none

pub sym_name-append : (x r : Text) → all_word x ≡ true → endsym r ≡ true → sym_name (x ++ r) ≡ x
unfolding sym_name
sym_name-append [] [] h k = refl
sym_name-append [] (c ∷ r) h k = let e : is_word c ≡ false = ground (arith, k) in if-false _ _ e
sym_name-append (c ∷ x) r h k =
    let e : is_word c ≡ true = ground (arith, h) in
    if-true _ _ e ∙ ap (λ t. c ∷ t) (sym_name-append x r (ground (arith, h)) k)

-- Two texts that equal a third.
str_eq_both : (s t y : Text) → str_eq s y ≡ true → str_eq t y ≡ true → str_eq s t ≡ true
str_eq_both s t y h k = ap (λ z. str_eq s z) (str_eq→eq t y k) ∙ h

no_entry :
    (b : Bool) (s : Symbol) (o : Option Symbol)
    → (if b then some s else o) ≡ none
    → (b ≡ false) × (o ≡ none)
no_entry true s o h = cc
no_entry false s o h = (refl, h)

-- An entry with another name does not come between.
behind :
    (s new : Symbol) (y : Text) (o : Option Symbol)
    → str_eq s.symname new.symname ≡ false
    → (if str_eq s.symname y then some s else first_of (entry_for new y) o)
      ≡ first_of (entry_for new y) (if str_eq s.symname y then some s else o)
behind s new y o d = elim (Bool-cases (str_eq s.symname y)) [
  | inr p ↦ if-false _ _ p ∙ ap (first_of (entry_for new y)) (sym (if-false _ _ p))
  | inl p ↦ elim (Bool-cases (str_eq new.symname y)) [
    | inl q ↦ let e = str_eq_both s.symname new.symname y p q in cc
    | inr q ↦ simp (p, q)
  ]
]

-- A new entry at the end is found where no other is.
lookup-append :
    (ss : List Symbol) (new : Symbol) (y : Text)
    → lookup ss new.symname ≡ none
    → lookup (ss ++ (new ∷ [])) y ≡ first_of (entry_for new y) (lookup ss y)
lookup-append [] new y h = elim (Bool-cases (str_eq new.symname y)) [
  | inl e ↦ simp e
  | inr e ↦ simp e
]
lookup-append (s ∷ ss) new y h =
    let (d, k) = no_entry _ _ _ h in
    ap (λ o. if str_eq s.symname y then some s else o) (lookup-append ss new y k)
    ∙ behind s new y (lookup ss y) d

-- An entry in the place of the one that has its name.
lookup-put_symbol :
    (ss : List Symbol) (r : Text) (new : Symbol) (y : Text)
    → is_none (lookup ss new.symname) ≡ false
    → lookup (put_symbol ss (new.symname ++ r) (length new.symname) new) y
      ≡ first_of (entry_for new y) (lookup ss y)
lookup-put_symbol [] r new y h = cc
lookup-put_symbol (s ∷ ss) r new y h =
    let found : strlcmp s.symname (new.symname ++ r) (length new.symname)
        ≡ str_eq s.symname new.symname =
      strlcmp-append s.symname new.symname r in
    elim (Bool-cases (str_eq s.symname new.symname)) [
      | inl p ↦
          let n : str_eq s.symname y ≡ str_eq new.symname y =
            ap (λ z. str_eq z y) (str_eq→eq s.symname new.symname p) in
          ap (λ l. lookup l y) (if-true _ _ (found ∙ p))
          ∙ elim (Bool-cases (str_eq new.symname y)) [
            | inl e ↦ simp e
            | inr e ↦ let o = n ∙ e in simp (e, o)
          ]
      | inr p ↦
          let i = lookup-put_symbol ss r new y (ap is_none (sym (if-false _ _ p)) ∙ h) in
          ap (λ l. lookup l y) (if-false _ _ (found ∙ p))
          ∙ ap (λ o. if str_eq s.symname y then some s else o) i
          ∙ behind s new y (lookup ss y) p
    ]

length-put_symbol :
    (ss : List Symbol) (t : Text) (n : ℕ) (new : Symbol)
    → length (put_symbol ss t n new) ≡ length ss
length-put_symbol [] t n new = refl
length-put_symbol (s ∷ ss) t n new = elim (Bool-cases (strlcmp s.symname t n)) [
  | inl e ↦ ap length (if-true _ _ e)
  | inr e ↦ ap length (if-false _ _ e) ∙ ap suc (length-put_symbol ss t n new)
]

-- A name is not empty and all letters, digits and _.
abbrev pub IsSymbolName : Text → Type 0
IsSymbolName [] = ⊥
IsSymbolName (c ∷ x) = all_word (c ∷ x) ≡ true

-- addsym with room in the table enters what is behind the name, and changes nothing else.
pub addsym-lookup :
    (i d : Bool) (x r : Text) (v : Option Text) (ss : List Symbol)
    → IsSymbolName x
    → endsym r ≡ true
    → value_of d r ≡ some v
    → length ss < maxsyms
    → (ss' : List Symbol) × (addsym i d (x ++ r) ss ≡ added ss')
      × (length ss' ≤ suc (length ss))
      × ((y : Text)
          → lookup ss' y
            ≡ first_of (entry_for (record { symname = x; value = v; ignore = i }) y) (lookup ss y))
unfolding addsym
addsym-lookup i d [] r v ss h k w l = absurd h
addsym-lookup i d (c ∷ x) r v ss h k w l =
    let new : Symbol = record { symname = c ∷ x; value = v; ignore = i } in
    let f = findsym-lookup ss c x r h k in
    let room : leb maxsyms (length ss) ≡ false = ground (arith, l) in
    let s = skipsym-append (c ∷ x) r h k in
    let n = sym_name-append (c ∷ x) r h k in
    let m = length_sym-append (c ∷ x) r h k in
    elim (Option-cases (lookup ss (c ∷ x))) [
      | inl e ↦ (
        ss ++ (new ∷ []),
        simp (f, e, room, s, w, n),
        omega (arith, length-append ss (new ∷ [])),
        λ y. lookup-append ss new y e,
      )
      | inr (a, e) ↦ (
        put_symbol ss ((c ∷ x) ++ r) (length (c ∷ x)) new,
        simp (f, e, s, w, n) (simp m),
        omega (arith, length-put_symbol ss ((c ∷ x) ++ r) (length (c ∷ x)) new),
        λ y. lookup-put_symbol ss r new y (ap is_none e),
      )
    ]
