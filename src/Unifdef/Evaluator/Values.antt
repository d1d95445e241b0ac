-- ===== src/Unifdef/Evaluator/Values.antt =====
-- scripts/unifdef.c: the operators of the evaluator on values that are known or not.
use embtoolkit.Base.{
  ℕ, ◌≡◌, refl, sym, subst, ap, ap₂, [], ◌∷◌, Bool, true, false, not, ◌&&◌, ◌||◌, List, Option,
  none, some, Text, ◌==◌, if◌then◌else◌, arith, Bool-cases, inl, inr, ◌⊎◌,
}
use embtoolkit.Unifdef.Symbols.{Symbol}
use embtoolkit.Unifdef.Symbols.Words.{lookup, number_or_0, number_value}
use embtoolkit.Unifdef.Numerals.{strtol}
use embtoolkit.Unifdef.Evaluator.{
  Op, op_or, op_and, op_eq, op_ne, op_le, op_ge, op_lt, op_gt, apply, to_int, at_value_end,
  symbol_value, Truth, lt_if, lt_true, lt_false, truth, op_fn, op_strict, Value, negate, is_true,
  is_false, is_if,
}
use embtoolkit.Unifdef.Evaluator.Syntax.{
  Expr, number, name, defined, negated, parens, tighter, binary, known_value, compiled_value,
  op_known, strict_known, is_known, not_known, join, entry_value, entry_defined, name_value,
  defined_in, holds, replacement_value,
}

-- The truth and the int that stand for a value; an int that is not known is not read.
abbrev pub Represents : Option ℕ → Value → Type 0
Represents none w = w.0 ≡ lt_if
Represents (some v) w = w ≡ (truth v, v)

pub negate-Represents :
    (o : Option ℕ) (w : Value) → Represents o w → Represents (not_known o) (negate w)
negate-Represents none (lt_if, v) h = refl
negate-Represents none (lt_true, v) h = cc
negate-Represents none (lt_false, v) h = cc
negate-Represents (some v) w h = rw h (known v)
  where
    known : (v : ℕ) → negate (truth v, v) ≡ (truth (to_int (v == 0)), to_int (v == 0))
    known v = elim (Bool-cases (v == 0)) [ inl e ↦ simp e | inr e ↦ simp e ]

truth-is_if : (v : ℕ) → is_if (truth v) ≡ false
truth-is_if v = ground arith

or_true : (b : Bool) → (b || true) ≡ true
or_true b = ground arith

truth_of : Value → Truth
truth_of w = w.0

strict-Represents :
    (f : ℕ → ℕ → Bool) (a b : Option ℕ) (w x : Value)
    → Represents a w
    → Represents b x
    → Represents (strict_known f a b) (op_strict (f w.1 x.1) w x)
unfolding truth_of
strict-Represents f none b (lt_if, n) x h k = refl
strict-Represents f none b (lt_true, n) x h k = cc
strict-Represents f none b (lt_false, n) x h k = cc
strict-Represents f (some v) none (t, n) (lt_if, m) h k =
    ap (λ b. truth_of (if b then (lt_if, n) else (truth (to_int (f n m)), to_int (f n m))))
      (or_true (is_if t))
strict-Represents f (some v) none w (lt_true, m) h k = cc
strict-Represents f (some v) none w (lt_false, m) h k = cc
strict-Represents f (some v) (some u) w x h k = rw h (
    rw k (
      ap (λ b. if b then (lt_if, v) else (truth (to_int (f v u)), to_int (f v u)))
        (ap₂ (λ a b. a || b) (truth-is_if v) (truth-is_if u))))

known-is_true : (a : Option ℕ) (w : Value) → Represents a w → is_true w.0 ≡ is_known false a
known-is_true none w h = rw h refl
known-is_true (some v) w h = rw h (ground arith)

known-is_false : (a : Option ℕ) (w : Value) → Represents a w → is_false w.0 ≡ is_known true a
known-is_false none w h = rw h refl
known-is_false (some v) w h = rw h (ground arith)

if-Represents :
    (c : Bool) (o p : Option ℕ) (u v : Value)
    → Represents o u
    → Represents p v
    → Represents (if c then o else p) (if c then u else v)
if-Represents true o p u v h k = h
if-Represents false o p u v h k = k

-- What an operator does on values it does on what stands for them.
pub op_fn-Represents :
    (strictlogic : Bool) (op : Op) (a b : Option ℕ) (w x : Value)
    → Represents a w
    → Represents b x
    → Represents (op_known strictlogic op a b) (op_fn strictlogic op w x)
op_fn-Represents s op_eq a b w x h k = strict-Represents (apply op_eq) a b w x h k
op_fn-Represents s op_ne a b w x h k = strict-Represents (apply op_ne) a b w x h k
op_fn-Represents s op_le a b w x h k = strict-Represents (apply op_le) a b w x h k
op_fn-Represents s op_ge a b w x h k = strict-Represents (apply op_ge) a b w x h k
op_fn-Represents s op_lt a b w x h k = strict-Represents (apply op_lt) a b w x h k
op_fn-Represents s op_gt a b w x h k = strict-Represents (apply op_gt) a b w x h k
op_fn-Represents s op_or a b w x h k = rw (known-is_true a w h) (
    rw (known-is_true b x k) (
      if-Represents (not s && (is_known false a || is_known false b)) (some 1) _ (lt_true, 1) _ refl
        (strict-Represents (apply op_or) a b w x h k)))
op_fn-Represents s op_and a b w x h k = rw (known-is_false a w h) (
    rw (known-is_false b x k) (
      if-Represents (not s && (is_known true a || is_known true b)) (some 0) _ (lt_false, 0) _ refl
        (strict-Represents (apply op_and) a b w x h k)))

-- What is known is so.
abbrev pub Agrees : Option ℕ → ℕ → Type 0
Agrees none c = Unit
Agrees (some v) c = v ≡ c

strict-Agrees :
    (f : ℕ → ℕ → Bool) (a b : Option ℕ) (m n : ℕ)
    → Agrees a m
    → Agrees b n
    → Agrees (strict_known f a b) (to_int (f m n))
strict-Agrees f none b m n h k = tt
strict-Agrees f (some v) none m n h k = tt
strict-Agrees f (some v) (some u) m n h k = ap₂ (λ p q. to_int (f p q)) h k

if-Agrees :
    (c : Bool) (o p : Option ℕ) (m : ℕ)
    → (c ≡ true → Agrees o m)
    → Agrees p m
    → Agrees (if c then o else p) m
if-Agrees true o p m h k = h refl
if-Agrees false o p m h k = k

decides : (z : Bool) (a : Option ℕ) (m : ℕ) → Agrees a m → is_known z a ≡ true → (m == 0) ≡ z
decides z none m h e = cc
decides true (some v) m h e = ground (arith, h, e)
decides false (some v) m h e = ground (arith, h, e)

or-cases : (b c : Bool) → (b || c) ≡ true → (b ≡ true) ⊎ (c ≡ true)
or-cases true c h = inl refl
or-cases false c h = inr h

and-snd : (b c : Bool) → (b && c) ≡ true → c ≡ true
and-snd true c h = h
and-snd false c h = ground (arith, h)

one-or : (m n : ℕ) → ((m == 0) ≡ false) ⊎ ((n == 0) ≡ false) → 1 ≡ to_int (apply op_or m n)
one-or m n (inl e) = ap (λ b. to_int (not b || not (n == 0))) (sym e)
one-or m n (inr e) = ground (arith, e)

zero-and : (m n : ℕ) → ((m == 0) ≡ true) ⊎ ((n == 0) ≡ true) → 0 ≡ to_int (apply op_and m n)
zero-and m n (inl e) = ap (λ b. to_int (not b && not (n == 0))) (sym e)
zero-and m n (inr e) = ground (arith, e)

-- The operators of the evaluator are those of C.
apply-holds : (op : Op) (m n : ℕ) → apply op m n ≡ holds op m n
apply-holds op_or m n = ground arith
apply-holds op_and m n = ground arith
apply-holds op_eq m n = refl
apply-holds op_ne m n = ground arith
apply-holds op_le m n = ground arith
apply-holds op_ge m n = ground arith
apply-holds op_lt m n = refl
apply-holds op_gt m n = refl

-- An operator keeps what is known true of the ints.
op_known-Agrees :
    (strictlogic : Bool) (op : Op) (a b : Option ℕ) (m n : ℕ)
    → Agrees a m
    → Agrees b n
    → Agrees (op_known strictlogic op a b) (to_int (apply op m n))
op_known-Agrees s op_eq a b m n h k = strict-Agrees (apply op_eq) a b m n h k
op_known-Agrees s op_ne a b m n h k = strict-Agrees (apply op_ne) a b m n h k
op_known-Agrees s op_le a b m n h k = strict-Agrees (apply op_le) a b m n h k
op_known-Agrees s op_ge a b m n h k = strict-Agrees (apply op_ge) a b m n h k
op_known-Agrees s op_lt a b m n h k = strict-Agrees (apply op_lt) a b m n h k
op_known-Agrees s op_gt a b m n h k = strict-Agrees (apply op_gt) a b m n h k
op_known-Agrees s op_or a b m n h k =
    if-Agrees (not s && (is_known false a || is_known false b)) (some 1) _ _
      (λ e. one-or m n (elim (or-cases _ _ (and-snd _ _ e)) [
        | inl p ↦ inl (decides false a m h p)
        | inr p ↦ inr (decides false b n k p)
      ]))
      (strict-Agrees (apply op_or) a b m n h k)
op_known-Agrees s op_and a b m n h k =
    if-Agrees (not s && (is_known true a || is_known true b)) (some 0) _ _
      (λ e. zero-and m n (elim (or-cases _ _ (and-snd _ _ e)) [
        | inl p ↦ inl (decides true a m h p)
        | inr p ↦ inr (decides true b n k p)
      ]))
      (strict-Agrees (apply op_and) a b m n h k)

-- The same for the operators of a compiler.
holds-Agrees :
    (strictlogic : Bool) (op : Op) (a b : Option ℕ) (m n : ℕ)
    → Agrees a m
    → Agrees b n
    → Agrees (op_known strictlogic op a b) (to_int (holds op m n))
holds-Agrees s op a b m n h k =
    subst (λ d. Agrees (op_known s op a b) (to_int d)) (apply-holds op m n)
      (op_known-Agrees s op a b m n h k)

-- A number that ends its text is the number that the text is.
end-Agrees :
    (n : Option (ℕ × Text))
    → Agrees (join (elim (at_value_end n) [ none ↦ none | some v ↦ some (some v) ])) (number_or_0 n)
end-Agrees none = tt
end-Agrees (some (v, [])) = refl
end-Agrees (some (v, c ∷ t)) = tt

value-Agrees :
    (v : Option Text)
    → Agrees
        (join (elim (symbol_value v) [ none ↦ none | some v ↦ some (some v) ]))
        (replacement_value v)
unfolding symbol_value number_value
value-Agrees none = refl
value-Agrees (some t) = end-Agrees (strtol t)

module _ (syms : List Symbol) (others : Text → Option ℕ) (strictlogic : Bool) where
  entry_value-Agrees :
      (x : Text) (o : Option Symbol) → Agrees (join (entry_value o)) (name_value syms others x o)
  entry_value-Agrees x none = tt
  entry_value-Agrees x (some s) = value-Agrees s.value

  entry_defined-Agrees :
      (x : Text) (o : Option Symbol)
      → Agrees (entry_defined o) (to_int (defined_in syms others x o))
  entry_defined-Agrees x none = tt
  entry_defined-Agrees x (some s) = refl

  not_known-Agrees : (o : Option ℕ) (n : ℕ) → Agrees o n → Agrees (not_known o) (to_int (n == 0))
  not_known-Agrees none n h = tt
  not_known-Agrees (some v) n h = ap (λ u. to_int (u == 0)) h

  -- Where unifdef knows the value of an expression, the compiler has this value, whatever the other
  -- symbols are for it.
  pub known_value-Agrees :
      {rows : List (List Op)} (e : Expr rows)
      → Agrees (known_value syms strictlogic e) (compiled_value syms others e)
  unfolding known_value compiled_value
  known_value-Agrees (number t) = refl
  known_value-Agrees (name x) = entry_value-Agrees x (lookup syms x)
  known_value-Agrees (defined b x) = entry_defined-Agrees x (lookup syms x)
  known_value-Agrees (negated e) = not_known-Agrees _ _ (known_value-Agrees e)
  known_value-Agrees (parens e) = known_value-Agrees e
  known_value-Agrees (tighter row inner e) = known_value-Agrees e
  known_value-Agrees (binary row inner op a b) =
      holds-Agrees strictlogic op _ _ _ _ (known_value-Agrees a) (known_value-Agrees b)
