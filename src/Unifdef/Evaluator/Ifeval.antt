-- ===== src/Unifdef/Evaluator/Ifeval.antt =====
-- scripts/unifdef.c: ifeval on the rest of an #if line.
use embtoolkit.Base.{
  ℕ, ◌≡◌, refl, ap, ◌∙◌, Bool, true, false, not, ◌&&◌, List, [], ◌∷◌, ◌++◌, Option, none, some,
  Text, codes, ◌==◌, if◌then◌else◌, length-append, arith,
}
use embtoolkit.Unifdef.Comment.{Linestate, ls_start, skipcomment}
use embtoolkit.Unifdef.Symbols.{Symbol}
use embtoolkit.Unifdef.Evaluator.{
  op_or, eval_ops, Value, Truth, lt_if, lt_true, lt_false, truth, Cursor, ok, skip_at, conclude,
  enough, ifeval, find_op,
}
use embtoolkit.Unifdef.Evaluator.Skip.{cur, skip_at-blank}
use embtoolkit.Unifdef.Evaluator.Syntax.{
  Expr, print, IsValid, constant, known_value, compiled_value,
}
use embtoolkit.Unifdef.Evaluator.Values.{Represents, Agrees, known_value-Agrees}
use embtoolkit.Unifdef.Evaluator.Reads.{Tail}
use embtoolkit.Unifdef.Evaluator.Levels.{ends-exactly, print-start}
use embtoolkit.Unifdef.Evaluator.Expressions.{holds}

pub newline-Tail : (l : Linestate) → Tail l (codes "\n") ls_start []
unfolding skip_at skipcomment
newline-Tail l = (λ q. refl, λ q. refl, refl, refl)

-- LT_IF where the value is not known
abbrev pub known_truth : Option ℕ → Truth
known_truth none = lt_if
known_truth (some v) = truth v

Represents-truth : (o : Option ℕ) (w : Value) → Represents o w → w.0 ≡ known_truth o
Represents-truth none w h = h
Represents-truth (some v) w h = ap (λ (w : Value). w.0) h

-- What ifeval returns for an expression: LT_IF for a constant one without -k.
unfoldable pub eval_result : List Symbol → Bool → Bool → Expr eval_ops → Truth
unfolding constant known_value
eval_result syms strictlogic killconsts e =
    if constant e && not killconsts then lt_if else known_truth (known_value syms strictlogic e)

-- Whether a compiler takes the group after #if, for the value of the expression.
abbrev pub IsRight : Truth → ℕ → Type 0
IsRight lt_if n = Unit
IsRight lt_true n = (n == 0) ≡ false
IsRight lt_false n = (n == 0) ≡ true

truth-IsRight : (v n : ℕ) → v ≡ n → IsRight (truth v) n
truth-IsRight v n h = ground (arith, h)

known-IsRight : (o : Option ℕ) (n : ℕ) → Agrees o n → IsRight (known_truth o) n
known-IsRight none n h = tt
known-IsRight (some v) n h = truth-IsRight v n h

if-IsRight : (b : Bool) (t : Truth) (n : ℕ) → IsRight t n → IsRight (if b then lt_if else t) n
if-IsRight true t n h = tt
if-IsRight false t n h = h

module _ (syms : List Symbol) (strictlogic killconsts : Bool) where
  -- Outside comments, ifeval on a blank, a printed expression that is valid for the symbols, and a newline returns LT_IF
  -- for an expression with no symbol unless -k is given; otherwise LT_TRUE or LT_FALSE after the value
  -- that the symbols determine, and LT_IF where they determine none. It ends behind the newline, and
  -- says that the expression is constant only if it has no symbol and -k is not given.
  pub ifeval-print :
      (e : Expr eval_ops) (l : Linestate) (q : Bool)
      → IsValid syms e
      → ifeval false syms strictlogic killconsts (cur l q (32 ∷ (print e ++ codes "\n")))
        ≡ ok (
          eval_result syms strictlogic killconsts e,
          cur ls_start (constant e && not killconsts) [],
        )
  unfolding ifeval find_op eval_result
  ifeval-print e l q v =
      let text = 32 ∷ (print e ++ codes "\n") in
      let k = not killconsts in
      let n = length-append (print e) (codes "\n") in
      let (w, d, p) =
        ends-exactly syms strictlogic (op_or ∷ []) _ e (holds syms strictlogic e v) (enough text) 0
          l k (cur l k text) (codes "\n") ls_start [] (newline-Tail l)
          (refl, (refl, (refl, (refl, tt))))
          (skip_at-blank l k (print e ++ codes "\n") _
            (print-start syms strictlogic e v l k (codes "\n")))
          (omega (arith, n)) in
      ap (conclude (cur l q text)) d
      ∙ ap (λ t. ok (if constant e && k then lt_if else t, cur ls_start (constant e && k) []))
          (Represents-truth _ w p)

  pub eval_result-IsRight :
      (e : Expr eval_ops) (others : Text → Option ℕ)
      → IsRight (eval_result syms strictlogic killconsts e) (compiled_value syms others e)
  unfolding eval_result
  eval_result-IsRight e others =
      if-IsRight _ _ _ (known-IsRight _ _ (known_value-Agrees syms others strictlogic e))

  -- Outside comments, where ifeval decides a valid printed expression behind a blank and in front of a newline, a
  -- compiler with the same ints decides it so too, whatever it knows of the symbols that unifdef does
  -- not know: LT_TRUE
  -- means that the value is not 0, LT_FALSE that it is 0.
  pub ifeval-IsRight :
      (e : Expr eval_ops) (l : Linestate) (q : Bool) (others : Text → Option ℕ)
      → IsValid syms e
      → (t : Truth) × (c : Cursor) × (ifeval false syms strictlogic killconsts
            (cur l q (32 ∷ (print e ++ codes "\n")))
          ≡ ok (t, c))
        × IsRight t (compiled_value syms others e)
  ifeval-IsRight e l q others v = (
    eval_result syms strictlogic killconsts e,
    cur ls_start (constant e && not killconsts) [],
    ifeval-print e l q v,
    eval_result-IsRight e others,
  )
