-- ===== src/Unifdef/Run/Parsing.antt =====
-- scripts/unifdef.c: parseline on the lines of a file.
use embtoolkit.Base.{
  ◌≡◌, refl, ap, ◌∙◌, Bool, true, false, not, List, [], ◌∷◌, ◌++◌, Option, none, some, Text, codes,
  arith, if◌then◌else◌, if-false, inr, length-append,
}
use embtoolkit.Unifdef.{directive, plain}
use embtoolkit.Unifdef.Machine.{Line}
use embtoolkit.Unifdef.Symbols.{Symbol, is_none}
use embtoolkit.Unifdef.Symbols.Words.{lookup}
use embtoolkit.Unifdef.Evaluator.{eval_ops, Truth, lt_if, lt_true, lt_false}
use embtoolkit.Unifdef.Evaluator.Syntax.{Expr, print, IsValid, is_defined_by}
use embtoolkit.Unifdef.Evaluator.Ifeval.{eval_result}
use embtoolkit.Unifdef.Groups.{
  Condition, unknown, known, line_of, lines, part_lines, if_type, elif_type,
}
use embtoolkit.Unifdef.Parseline as Parseline
use embtoolkit.Unifdef.Parseline.{parsed, ifdef_type, if_known}
use embtoolkit.Unifdef.Run.{Settings}
use embtoolkit.Unifdef.Run.Quiet.{quiet_type}
use embtoolkit.Unifdef.Run.Follows.{Follows, at_start, unix}
use embtoolkit.Unifdef.Run.Lines.{ParsesText, proper-Parses}
use embtoolkit.Unifdef.Run.Plain.{plain-ParsesText}
use embtoolkit.Unifdef.Run.Directives.{
  if-ParsesText, elif-ParsesText, ifdef-ParsesText, ifndef-ParsesText, else-ParsesText,
  endif-ParsesText,
}
use embtoolkit.Unifdef.Run.Program.{
  Test, by_value, by_name, Program, end, line, choice, Branches, endif, otherwise, elif, words,
  file, branches, condition, named, decide, hash, source, parts, IsLine, not_ignored, IsValidTest,
  IsPlainC, ArePlainC,
}

module _ (u : Settings) where
  -- A line in front of others
  step-Follows :
      (l : Line) (t : Text) (ls : List Line) (rest : Text)
      → IsLine u t
      → ParsesText u l t
      → quiet_type l.linetype ≡ true
      → Follows u ls rest
      → Follows u (l ∷ ls) ((t ++ codes "\n") ++ rest)
  step-Follows l t ls rest i p q f = inr (
    t ++ codes "\n",
    rest,
    refl,
    let e = length-append t (codes "\n") in omega (arith, e),
    proper-Parses u l t i.0 i.1 p,
    q,
    f,
  )

  -- The types of the directives are those of their conditions.
  if_type-condition :
      (e : Expr eval_ops) (t : Truth) → Parseline.if_type t ≡ if_type (condition u e t)
  if_type-condition e lt_if = refl
  if_type-condition e lt_true = refl
  if_type-condition e lt_false = refl

  elif_type-condition :
      (e : Expr eval_ops) (t : Truth) → Parseline.elif_type t ≡ elif_type (condition u e t)
  elif_type-condition e lt_if = refl
  elif_type-condition e lt_true = refl
  elif_type-condition e lt_false = refl

  if_known-type : (b : Bool) → if_known b ≡ if_type (known b)
  if_known-type true = refl
  if_known-type false = refl

  holds-defined :
      (b : Bool) (v : Option Text)
      → (if is_none v then not b else not (not b)) ≡ (if is_defined_by v then b else not b)
  holds-defined b none = refl
  holds-defined true (some t) = refl
  holds-defined false (some t) = refl

  ifdef_type-named :
      (t : Test) (b : Bool) (o : Option Symbol)
      → not_ignored u o ≡ true
      → ifdef_type (not b) o ≡ if_type (named u t b o)
  ifdef_type-named t b none h = refl
  ifdef_type-named t b (some s) h =
      let e : s.ignore ≡ false = ground (arith, h) in
      if-false _ (if_known (if is_none s.value then not b else not (not b))) e
      ∙ if_known-type (if is_none s.value then not b else not (not b))
      ∙ ap (λ d. if_type (known d)) (holds-defined b s.value)

  quiet-if : (c : Condition) → quiet_type (directive (if_type c)) ≡ true
  quiet-if (unknown e) = refl
  quiet-if (known true) = refl
  quiet-if (known false) = refl

  quiet-elif : (c : Condition) → quiet_type (directive (elif_type c)) ≡ true
  quiet-elif (unknown e) = refl
  quiet-elif (known true) = refl
  quiet-elif (known false) = refl

  test-ParsesText :
      (t : Test)
      → IsValidTest u t
      → ParsesText u (line_of (directive (if_type (decide u t))) (hash u (words t))) (35 ∷ words t)
  test-ParsesText (by_value e) v = λ rest.
      if-ParsesText u e v rest
      ∙ ap (λ d. parsed (line_of (directive d) (hash u (words (by_value e)))) (at_start rest unix))
          (if_type-condition e (eval_result u.syms u.strictlogic u.killconsts e))
  test-ParsesText (by_name true x) v = λ rest.
      ifdef-ParsesText u x v.0 rest
      ∙ ap
          (λ d.
            parsed (line_of (directive d) (hash u (words (by_name true x)))) (at_start rest unix))
          (ifdef_type-named (by_name true x) true (lookup u.syms x) v.1)
  test-ParsesText (by_name false x) v = λ rest.
      ifndef-ParsesText u x v.0 rest
      ∙ ap
          (λ d.
            parsed (line_of (directive d) (hash u (words (by_name false x)))) (at_start rest unix))
          (ifdef_type-named (by_name false x) false (lookup u.syms x) v.1)

  test_elif-ParsesText :
      (e : Expr eval_ops)
      → IsValid u.syms e
      → ParsesText u
          (line_of
            (directive (elif_type (decide u (by_value e))))
            (hash u (codes "elif " ++ print e)))
          (codes "#elif " ++ print e)
  test_elif-ParsesText e v = λ rest.
      elif-ParsesText u e v rest
      ∙ ap
          (λ d.
            parsed (line_of (directive d) (hash u (codes "elif " ++ print e))) (at_start rest unix))
          (elif_type-condition e (eval_result u.syms u.strictlogic u.killconsts e))

  mutual
    unfolding file branches source parts lines part_lines IsPlainC ArePlainC

    pub program-Follows :
        (c : Program) (ls : List Line) (rest : Text)
        → IsPlainC u c
        → Follows u ls rest
        → Follows u (lines (source u c) ls) (file c rest)
    program-Follows end ls rest h f = f
    program-Follows (line t c) ls rest (i, j, k, h) f =
        step-Follows (line_of plain (t ++ codes "\n", [])) t _ _ i (plain-ParsesText u t j k) refl
          (program-Follows c ls rest h f)
    program-Follows (choice t c b after) ls rest (i, v, h, hb, ha) f =
        step-Follows (line_of (directive (if_type (decide u t))) (hash u (words t))) (35 ∷ words t)
          _ _ i (test-ParsesText t v) (quiet-if (decide u t))
          (program-Follows c _ _ h (branches-Follows b _ _ hb (program-Follows after ls rest ha f)))

    branches-Follows :
        (b : Branches) (ls : List Line) (rest : Text)
        → ArePlainC u b
        → Follows u ls rest
        → Follows u (part_lines (parts u b) ls) (branches b rest)
    branches-Follows endif ls rest h f =
        step-Follows _ (codes "#endif") ls rest (refl, omega arith) (endif-ParsesText u) refl f
    branches-Follows (otherwise c) ls rest h f =
        step-Follows _ (codes "#else") _ _ (refl, omega arith) (else-ParsesText u) refl
          (program-Follows c _ _ h (
            step-Follows _ (codes "#endif") ls rest (refl, omega arith) (endif-ParsesText u) refl
              f))
    branches-Follows (elif e c b) ls rest (i, v, h, hb) f =
        step-Follows
          (line_of (directive (elif_type (decide u (by_value e))))
            (hash u (codes "elif " ++ print e)))
          (codes "#elif " ++ print e) _ _ i (test_elif-ParsesText e v)
          (quiet-elif (decide u (by_value e)))
          (program-Follows c _ _ h (branches-Follows b ls rest hb f))
