-- ===== src/Unifdef/Evaluator/Total.antt =====
-- scripts/unifdef.c: results with enough fuel, and skipcomment and skipargs on every text.
use embtoolkit.Base.{
  ℕ, zero, suc, ◌+◌, ◌*◌, ◌≤◌, ◌≡◌, refl, ap, Bool, true, false, [], ◌∷◌, Option, none, some, Text,
  ◌==◌, if◌then◌else◌, skip, length, length-append, arith, Bool-cases, inl, inr, Yields,
}
use embtoolkit.Unifdef.Comment.{at, Skipped, skipped, bad_char, bad_string}
use embtoolkit.Unifdef.Comment.Stops.{Stops, IsLeft, skipcomment-Stops}
use embtoolkit.Unifdef.Symbols.{is_word, skipsym}
use embtoolkit.Unifdef.Evaluator.{
  Value, Cursor, Result, ok, lt_error, fatal, out_of_fuel, bind, advance, skipping, skip_at,
  next_level, args_loop, skipargs,
}

-- A result, or error(): no LT_ERROR, and enough fuel.
abbrev pub Sure {ℓ} : {A : Type ℓ} → (A → Type 0) → Result A → Type 0
Sure P (ok a) = P a
Sure P (lt_error c) = ⊥
Sure P (fatal k) = Unit
Sure P out_of_fuel = ⊥

-- Enough fuel
abbrev pub Total {ℓ} : {A : Type ℓ} → (A → Type 0) → Result A → Type 0
Total P (ok a) = P a
Total P (lt_error c) = Unit
Total P (fatal k) = Unit
Total P out_of_fuel = ⊥

pub Sure-bind {ℓ κ} :
    {A : Type ℓ} {B : Type κ} (P : A → Type 0) (Q : B → Type 0) (r : Result A) (f : A → Result B)
    → Sure P r
    → ((a : A) → P a → Sure Q (f a))
    → Sure Q (bind r f)
Sure-bind P Q (ok a) f h k = k a h
Sure-bind P Q (lt_error c) f h k = absurd h
Sure-bind P Q (fatal m) f h k = tt
Sure-bind P Q out_of_fuel f h k = absurd h

pub Total-bind {ℓ κ} :
    {A : Type ℓ} {B : Type κ} (P : A → Type 0) (Q : B → Type 0) (r : Result A) (f : A → Result B)
    → Total P r
    → ((a : A) → P a → Total Q (f a))
    → Total Q (bind r f)
Total-bind P Q (ok a) f h k = k a h
Total-bind P Q (lt_error c) f h k = tt
Total-bind P Q (fatal m) f h k = tt
Total-bind P Q out_of_fuel f h k = absurd h

pub Sure-Total {ℓ} :
    {A : Type ℓ} (P Q : A → Type 0) (r : Result A) → ((a : A) → P a → Q a) → Sure P r → Total Q r
Sure-Total P Q (ok a) k h = k a h
Sure-Total P Q (lt_error c) k h = tt
Sure-Total P Q (fatal m) k h = tt
Sure-Total P Q out_of_fuel k h = absurd h

-- At most n characters are left.
abbrev pub Left : ℕ → Cursor → Type 0
Left n c = length c.cp ≤ n

abbrev pub ValueLeft : ℕ → Value × Cursor → Type 0
ValueLeft n p = Left n p.1

length-IsLeft : (t u : Text) → IsLeft t u → length t ≤ length u
length-IsLeft t u (a, e) = let h = ap length e in let k = length-append a t in omega (arith, h, k)

skipping-Sure :
    (plain : Bool) (c : Cursor) (o : Option Skipped)
    → Yields (Stops plain c.cp) o
    → Sure (Left (length c.cp)) (skipping c o)
skipping-Sure plain c none h = h
skipping-Sure true c (some (skipped k l t)) h = length-IsLeft t c.cp h.0
skipping-Sure false c (some (skipped k l t)) h = length-IsLeft t c.cp h.0
skipping-Sure plain c (some bad_char) h = tt
skipping-Sure plain c (some bad_string) h = tt

pub length-skipsym : (t : Text) → length (skipsym t) ≤ length t
unfolding skipsym
length-skipsym [] = omega arith
length-skipsym (c ∷ t) =
    let h = length-skipsym t in
    elim (Bool-cases (is_word c)) [ inl e ↦ rw e (omega (arith, h)) | inr e ↦ rw e (omega arith) ]

pub if-Total {ℓ} :
    {A : Type ℓ} (Q : A → Type 0) (b : Bool) (p q : Result A)
    → (b ≡ true → Total Q p)
    → Total Q q
    → Total Q (if b then p else q)
if-Total Q true p q h k = h refl
if-Total Q false p q h k = k

-- A character passed
pub shorter : (t : Text) → 1 ≤ length t → length (skip 1 t) + 1 ≤ length t
shorter [] h = omega (arith, h)
shorter (c ∷ t) h = omega arith

at-nonempty : (c : ℕ) (t : Text) → at c t ≡ true → 1 ≤ length t
at-nonempty c [] h = cc
at-nonempty c (d ∷ t) h = omega arith

args_step :
    (n : ℕ) (b : Bool) (t ocp : Text) (c : Cursor) (r : Result Cursor)
    → Left n c
    → length ocp ≤ n
    → (1 ≤ length t → Total (Left n) r)
    → Total (Left n) (elim b as (λ x. Result Cursor) [
      | true ↦ ok c
      | false ↦ elim t as (λ x. Result Cursor) [ [] ↦ ok (record c { cp = ocp }) | ◌∷◌ x y ↦ r ]
    ])
args_step n true t ocp c r h k f = h
args_step n false [] ocp c r h k f = k
args_step n false (d ∷ t) ocp c r h k f = f (omega arith)

module _ (plain : Bool) where
  pub skip_at-Sure : (c : Cursor) → Sure (Left (length c.cp)) (skip_at plain c)
  unfolding skip_at
  skip_at-Sure c =
      skipping-Sure plain c _
        (skipcomment-Stops (2 * length c.cp + 1) plain c.incomment c.linestate c.cp (omega arith))

  pub skip_at-Total : (c : Cursor) (n : ℕ) → length c.cp ≤ n → Total (Left n) (skip_at plain c)
  skip_at-Total c n h =
      Sure-Total (Left (length c.cp)) (Left n) (skip_at plain c) (λ a k. omega (arith, h, k))
        (skip_at-Sure c)

  args_loop-Total :
      (f level : ℕ) (ocp : Text) (c : Cursor) (n : ℕ)
      → 1 ≤ length c.cp
      → length c.cp ≤ f
      → length c.cp ≤ n
      → length ocp ≤ n
      → Total (Left n) (args_loop plain f level ocp c)
  unfolding args_loop
  args_loop-Total zero level ocp c n a b d e = absurd (omega (arith, a, b))
  args_loop-Total (suc f) level ocp c n a b d e =
      let s = shorter c.cp a in
      Total-bind (Left (length (skip 1 c.cp))) (Left n) (skip_at plain (advance 1 c)) _
        (skip_at-Total (advance 1 c) (length (skip 1 c.cp)) (omega arith))
        λ c' k.
          args_step n (next_level c.cp level == 0) c'.cp ocp c' _ (omega (arith, k, s, d)) e λ m.
            args_loop-Total f (next_level c.cp level) ocp c' n m (omega (arith, k, s, b))
              (omega (arith, k, s, d)) e

  pub skipargs-Total : (c : Cursor) (n : ℕ) → length c.cp ≤ n → Total (Left n) (skipargs plain c)
  unfolding skipargs
  skipargs-Total c n h =
      Total-bind (Left n) (Left n) (skip_at plain c) _ (skip_at-Total c n h) λ c' k.
        if-Total (Left n) (at 40 c'.cp) _ (ok c')
          (λ e.
            args_loop-Total (length c'.cp) 0 c.cp c' n (at-nonempty 40 c'.cp e) (omega arith) k h)
          k
