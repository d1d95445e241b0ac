-- ===== src/Unifdef/Groups/Lines.antt =====
-- scripts/unifdef.c: the states by what they do with the lines in them, and the first and last lines of
-- a group.
use embtoolkit.Base.{ℕ, suc, ◌<◌, ◌≡◌, refl, ◌∙◌, true, false, List, [], ◌∷◌, Text, arith}
use embtoolkit.Unifdef.{
  Ifstate, outside, false_prefix, true_prefix, pass_middle, false_middle, true_middle, pass_else,
  false_else, true_else, false_trailer, transition, plain, directive, print, drop, fpass, ftrue,
  ffalse, fdrop, if_unknown, if_true, if_false, elif_unknown, elif_true, elif_false, endif_line,
  else_line, dfalse, delse, dendif, pelif, mtrue, delif, pelse, pendif, melif,
}
use embtoolkit.Unifdef.Machine.{Line, State, perform}
use embtoolkit.Unifdef.Evaluator.{eval_ops}
use embtoolkit.Unifdef.Evaluator.Syntax.{Expr}
use embtoolkit.Unifdef.Groups.{
  Condition, unknown, known, if_type, elif_type, Piece, joined, line_of,
}
use embtoolkit.Unifdef.Groups.Moves.{At, closes, opens}
use embtoolkit.Unifdef.Groups.Reach.{Reach, one}

-- The states whose plain lines are written.
pub data Showing : Type 0 where
  in_outside in_true_prefix in_pass_middle in_true_middle in_pass_else in_true_else : Showing

abbrev pub showing : Showing → Ifstate
showing in_outside = outside
showing in_true_prefix = true_prefix
showing in_pass_middle = pass_middle
showing in_true_middle = true_middle
showing in_pass_else = pass_else
showing in_true_else = true_else

-- The states whose plain lines are not.
pub data Hiding : Type 0 where
  in_false_prefix in_false_middle in_false_else in_false_trailer : Hiding

abbrev pub hiding : Hiding → Ifstate
hiding in_false_prefix = false_prefix
hiding in_false_middle = false_middle
hiding in_false_else = false_else
hiding in_false_trailer = false_trailer

pub showing-plain : (x : Showing) → transition (showing x) plain ≡ print
showing-plain in_outside = refl
showing-plain in_true_prefix = refl
showing-plain in_pass_middle = refl
showing-plain in_true_middle = refl
showing-plain in_pass_else = refl
showing-plain in_true_else = refl

pub showing-unknown : (x : Showing) → transition (showing x) (directive if_unknown) ≡ fpass
showing-unknown in_outside = refl
showing-unknown in_true_prefix = refl
showing-unknown in_pass_middle = refl
showing-unknown in_true_middle = refl
showing-unknown in_pass_else = refl
showing-unknown in_true_else = refl

pub showing-true : (x : Showing) → transition (showing x) (directive if_true) ≡ ftrue
showing-true in_outside = refl
showing-true in_true_prefix = refl
showing-true in_pass_middle = refl
showing-true in_true_middle = refl
showing-true in_pass_else = refl
showing-true in_true_else = refl

pub showing-false : (x : Showing) → transition (showing x) (directive if_false) ≡ ffalse
showing-false in_outside = refl
showing-false in_true_prefix = refl
showing-false in_pass_middle = refl
showing-false in_true_middle = refl
showing-false in_pass_else = refl
showing-false in_true_else = refl

pub hiding-plain : (x : Hiding) → transition (hiding x) plain ≡ drop
hiding-plain in_false_prefix = refl
hiding-plain in_false_middle = refl
hiding-plain in_false_else = refl
hiding-plain in_false_trailer = refl

pub hiding-if : (x : Hiding) (c : Condition) → transition (hiding x) (directive (if_type c)) ≡ fdrop
hiding-if in_false_prefix (unknown n) = refl
hiding-if in_false_prefix (known true) = refl
hiding-if in_false_prefix (known false) = refl
hiding-if in_false_middle (unknown n) = refl
hiding-if in_false_middle (known true) = refl
hiding-if in_false_middle (known false) = refl
hiding-if in_false_else (unknown n) = refl
hiding-if in_false_else (known true) = refl
hiding-if in_false_else (known false) = refl
hiding-if in_false_trailer (unknown n) = refl
hiding-if in_false_trailer (known true) = refl
hiding-if in_false_trailer (known false) = refl

-- The states in which a group has nothing more to write.
pub data Settled : Type 0 where
  behind_true behind_all : Settled

abbrev pub settled : Settled → Ifstate
settled behind_true = true_prefix
settled behind_all = false_trailer

pub settled-elif :
    (y : Settled) (c : Condition) → transition (settled y) (directive (elif_type c)) ≡ dfalse
settled-elif behind_true (unknown n) = refl
settled-elif behind_true (known true) = refl
settled-elif behind_true (known false) = refl
settled-elif behind_all (unknown n) = refl
settled-elif behind_all (known true) = refl
settled-elif behind_all (known false) = refl

pub settled-else : (x : Settled) → transition (settled x) (directive else_line) ≡ delse
settled-else behind_true = refl
settled-else behind_all = refl

-- The states behind a part that is kept, of which the first line has been written.
pub data Passing : Type 0 where
  behind_kept behind_false : Passing

abbrev pub passing : Passing → Ifstate
passing behind_kept = pass_middle
passing behind_false = false_middle

pub passing-unknown : (x : Passing) → transition (passing x) (directive elif_unknown) ≡ pelif
passing-unknown behind_kept = refl
passing-unknown behind_false = refl

pub passing-true : (x : Passing) → transition (passing x) (directive elif_true) ≡ mtrue
passing-true behind_kept = refl
passing-true behind_false = refl

pub passing-false : (x : Passing) → transition (passing x) (directive elif_false) ≡ delif
passing-false behind_kept = refl
passing-false behind_false = refl

pub passing-else : (x : Passing) → transition (passing x) (directive else_line) ≡ pelse
passing-else behind_kept = refl
passing-else behind_false = refl

pub passing-endif : (x : Passing) → transition (passing x) (directive endif_line) ≡ pendif
passing-endif behind_kept = refl
passing-endif behind_false = refl

pub settled-endif : (y : Settled) → transition (settled y) (directive endif_line) ≡ dendif
settled-endif behind_true = refl
settled-endif behind_all = refl

pub true_middle-elif : (c : Condition) → transition true_middle (directive (elif_type c)) ≡ melif
true_middle-elif (unknown n) = refl
true_middle-elif (known true) = refl
true_middle-elif (known false) = refl

module _ (newline : Text) where
  -- The last line of a group.
  pub ends_shown :
      (p : Piece) (ls : List Line) (s : State) (d : ℕ) (x : Ifstate)
      → At (suc d) pass_else s
      → s.ifstate d ≡ x
      → Reach newline (line_of (directive endif_line) p ∷ ls) ls s d x (joined p ∷ [])
  unfolding perform
  ends_shown p ls s d x a b =
      one newline (line_of (directive endif_line) p) ls s (suc d) pass_else pendif d x
        (joined p ∷ []) a refl
        (λ s1 a1 k w.
          closes newline true (line_of (directive endif_line) p) pass_else x d s1 a1
            (k d (omega arith) ∙ b))

  pub ends_hidden :
      (p : Piece) (ls : List Line) (s : State) (d : ℕ) (x y : Ifstate)
      → transition y (directive endif_line) ≡ dendif
      → At (suc d) y s
      → s.ifstate d ≡ x
      → Reach newline (line_of (directive endif_line) p ∷ ls) ls s d x []
  unfolding perform
  ends_hidden p ls s d x y e a b =
      let l = line_of (directive endif_line) p in
      one newline l ls s (suc d) y dendif d x [] a e
        (λ s1 a1 k w. closes newline false l y x d s1 a1 (k d (omega arith) ∙ b))

  -- The first line of a group.
  pub opens_unknown :
      (n : Expr eval_ops) (p : Piece) (ls : List Line) (s : State) (d : ℕ) (x : Showing)
      → At d (showing x) s
      → d < 63
      → Reach newline
          (line_of (directive if_unknown) p ∷ ls)
          ls
          s
          (suc d)
          pass_middle
          (joined p ∷ [])
  unfolding perform
  opens_unknown n p ls s d x a h =
      let l = line_of (directive if_unknown) p in
      one newline l ls s d (showing x) fpass (suc d) pass_middle (joined p ∷ []) a
        (showing-unknown x) (λ s1 a1 k w. opens newline true l (showing x) pass_middle d s1 a1 h)

  pub opens_true :
      (p : Piece) (ls : List Line) (s : State) (d : ℕ) (x : Showing)
      → At d (showing x) s
      → d < 63
      → Reach newline (line_of (directive if_true) p ∷ ls) ls s (suc d) true_prefix []
  unfolding perform
  opens_true p ls s d x a h =
      let l = line_of (directive if_true) p in
      one newline l ls s d (showing x) ftrue (suc d) true_prefix [] a (showing-true x)
        (λ s1 a1 k w. opens newline false l (showing x) true_prefix d s1 a1 h)

  pub opens_false :
      (p : Piece) (ls : List Line) (s : State) (d : ℕ) (x : Showing)
      → At d (showing x) s
      → d < 63
      → Reach newline (line_of (directive if_false) p ∷ ls) ls s (suc d) false_prefix []
  unfolding perform
  opens_false p ls s d x a h =
      let l = line_of (directive if_false) p in
      one newline l ls s d (showing x) ffalse (suc d) false_prefix [] a (showing-false x)
        (λ s1 a1 k w. opens newline false l (showing x) false_prefix d s1 a1 h)

  pub opens_hidden :
      (c : Condition) (p : Piece) (ls : List Line) (s : State) (d : ℕ) (x : Hiding)
      → At d (hiding x) s
      → d < 63
      → Reach newline (line_of (directive (if_type c)) p ∷ ls) ls s (suc d) false_trailer []
  unfolding perform
  opens_hidden c p ls s d x a h =
      let l = line_of (directive (if_type c)) p in
      one newline l ls s d (hiding x) fdrop (suc d) false_trailer [] a (hiding-if x c)
        (λ s1 a1 k w. opens newline false l (hiding x) false_trailer d s1 a1 h)
