-- ===== src/Unifdef/Depth/Table.antt =====
-- scripts/unifdef.c: what each transition function needs of the state it is called in, and that
-- the table gives it.
use embtoolkit.Base.{
  ℕ, zero, suc, ◌<◌, ◌≡◌, ◌≢◌, refl, Bool, true, false, not, ◌&&◌, get_elem?, arith,
}
use embtoolkit.Unifdef.{
  Directive, truei, falsei, if_unknown, if_true, if_false, elif_unknown, elif_true, elif_false,
  else_line, endif_line, directive_index, Linetype, directive, dodgy, plain, eof, unevaluable,
  Ifstate, outside, false_prefix, true_prefix, pass_middle, false_middle, true_middle, pass_else,
  false_else, true_else, false_trailer, Action, eelif, eelse, eendif, eeof, eioccc, print, drop,
  strue, sfalse, selse, pelif, pelse, pendif, dfalse, delif, delse, dendif, fdrop, fpass, ftrue,
  ffalse, oiffy, oif, oelif, idrop, itrue, ifalse, mpass, mtrue, melif, melse, done, abort, row,
  line_index, action_or, transition,
}

-- Where a function may be called: `within` a group that is open, `at_end` outside of all groups.
pub data Place : Type 0 where
  anywhere within at_end never : Place

unfoldable pub place : Action → Place
place eelif = anywhere
place eelse = anywhere
place eendif = anywhere
place eeof = anywhere
place eioccc = anywhere
place print = anywhere
place drop = anywhere
place strue = within
place sfalse = within
place selse = within
place pelif = within
place pelse = within
place pendif = within
place dfalse = within
place delif = within
place delse = within
place dendif = within
place fdrop = anywhere
place fpass = anywhere
place ftrue = anywhere
place ffalse = anywhere
place oiffy = anywhere
place oif = anywhere
place oelif = within
place idrop = anywhere
place itrue = anywhere
place ifalse = anywhere
place mpass = within
place mtrue = within
place melif = within
place melse = within
place done = at_end
place abort = never

unfoldable pub is_outside : Ifstate → Bool
is_outside outside = true
is_outside false_prefix = false
is_outside true_prefix = false
is_outside pass_middle = false
is_outside false_middle = false
is_outside true_middle = false
is_outside pass_else = false
is_outside false_else = false
is_outside true_else = false
is_outside false_trailer = false

unfoldable pub allowed : Ifstate → Place → Bool
allowed i anywhere = true
allowed i within = not (is_outside i)
allowed i at_end = is_outside i
allowed i never = false

all_below : (ℕ → Bool) → ℕ → Bool
all_below p zero = true
all_below p (suc n) = p n && all_below p n

all_below-true : (p : ℕ → Bool) (n k : ℕ) → all_below p n ≡ true → k < n → p k ≡ true
unfolding all_below
all_below-true p zero k h lt = absurd (omega arith)
all_below-true p (suc n) k h lt = grind (arith, all_below-true p n k)

row-allowed :
    (i : Ifstate) → all_below (λ k. allowed i (place (action_or (get_elem? (row i) k)))) 22 ≡ true
unfolding all_below allowed place is_outside
row-allowed outside = refl
row-allowed false_prefix = refl
row-allowed true_prefix = refl
row-allowed pass_middle = refl
row-allowed false_middle = refl
row-allowed true_middle = refl
row-allowed pass_else = refl
row-allowed false_else = refl
row-allowed true_else = refl
row-allowed false_trailer = refl

directive_index-bound : (d : Directive) → directive_index d < 10
directive_index-bound truei = omega arith
directive_index-bound falsei = omega arith
directive_index-bound if_unknown = omega arith
directive_index-bound if_true = omega arith
directive_index-bound if_false = omega arith
directive_index-bound elif_unknown = omega arith
directive_index-bound elif_true = omega arith
directive_index-bound elif_false = omega arith
directive_index-bound else_line = omega arith
directive_index-bound endif_line = omega arith

line_index-bound : (t : Linetype) → t ≢ unevaluable → line_index t < 22
line_index-bound (directive d) ne = let b = directive_index-bound d in omega arith
line_index-bound (dodgy d) ne = let b = directive_index-bound d in omega arith
line_index-bound plain ne = omega arith
line_index-bound eof ne = omega arith
line_index-bound unevaluable ne = absurd (ne refl)

pub transition-allowed :
    (i : Ifstate) (t : Linetype) → t ≢ unevaluable → allowed i (place (transition i t)) ≡ true
transition-allowed i t ne =
    all_below-true (λ k. allowed i (place (action_or (get_elem? (row i) k)))) 22 (line_index t)
      (row-allowed i) (line_index-bound t ne)
