-- ===== src/Unifdef/Run/Directives.antt =====
-- scripts/unifdef.c: parseline on the directives, as they are printed.
use embtoolkit.Base.{
  ◌≡◌, refl, ap, ap₂, ◌∙◌, Bool, true, false, not, ◌&&◌, [], ◌∷◌, ◌++◌, Option, some, Text, codes,
  arith,
}
use embtoolkit.Unifdef.{Directive, directive, else_line, endif_line}
use embtoolkit.Unifdef.Comment.{ls_start, ls_hash}
use embtoolkit.Unifdef.Symbols.{Symbol, skipsym, length_sym, findsym}
use embtoolkit.Unifdef.Symbols.Words.{all_word, lookup, findsym-lookup, skipsym-append}
use embtoolkit.Unifdef.Evaluator.{Truth, eval_ops, Cursor, Result, ok, bind, skip_at}
use embtoolkit.Unifdef.Evaluator.Skip.{cur, skip_at-blank, skip_at-word}
use embtoolkit.Unifdef.Evaluator.Syntax.{Expr, print, IsName, IsValid, constant}
use embtoolkit.Unifdef.Evaluator.Ifeval.{eval_result, ifeval-print, newline-Tail}
use embtoolkit.Unifdef.Groups.{line_of}
use embtoolkit.Unifdef.Parseline.{
  if_type, elif_type, ifdef_type, eval_keyword, find_keyword, kw_if, kw_elif, kw_ifdef, kw_else,
  kw_endif,
}
use embtoolkit.Unifdef.Run.{Settings}
use embtoolkit.Unifdef.Run.Lines.{ParsesText, directive-parse}

module _ (u : Settings) where
  -- The type of a line with the expression
  abbrev pub result : Expr eval_ops → Truth
  result e = eval_result u.syms u.strictlogic u.killconsts e

  pub if-ParsesText :
      (e : Expr eval_ops)
      → IsValid u.syms e
      → ParsesText u
          (line_of
            (directive (if_type (result e)))
            (codes "#", (codes "if " ++ print e) ++ codes "\n"))
          (codes "#if " ++ print e)
  unfolding eval_keyword find_keyword skipsym length_sym
  if-ParsesText e v =
      let q = constant e && not u.killconsts in
      directive-parse u (if_type (result e)) 105 (102 ∷ 32 ∷ (print e ++ codes "\n")) kw_if
        (32 ∷ (print e ++ codes "\n")) (cur ls_start q []) q refl refl refl refl
        (ap (λ r. bind {B = Option Directive × Cursor} r λ (t, c). ok (some (if_type t), c))
          (ifeval-print u.syms u.strictlogic u.killconsts e ls_hash false v))
        ((newline-Tail ls_start).1 q)

  pub elif-ParsesText :
      (e : Expr eval_ops)
      → IsValid u.syms e
      → ParsesText u
          (line_of
            (directive (elif_type (result e)))
            (codes "#", (codes "elif " ++ print e) ++ codes "\n"))
          (codes "#elif " ++ print e)
  unfolding eval_keyword find_keyword skipsym length_sym
  elif-ParsesText e v =
      let q = constant e && not u.killconsts in
      directive-parse u (elif_type (result e)) 101 (108 ∷ 105 ∷ 102 ∷ 32 ∷ (print e ++ codes "\n"))
        kw_elif (32 ∷ (print e ++ codes "\n")) (cur ls_start q []) q refl refl refl refl
        (ap (λ r. bind {B = Option Directive × Cursor} r λ (t, c). ok (some (elif_type t), c))
          (ifeval-print u.syms u.strictlogic u.killconsts e ls_hash false v))
        ((newline-Tail ls_start).1 q)

  eval_name : Bool → Result Cursor → Result (Option Directive × Cursor)
  eval_name negative r =
      bind r
        λ c. ok (some (ifdef_type negative (findsym u.syms c.cp)), record c { cp = skipsym c.cp })

  -- The name behind #ifdef
  name-read :
      (negative : Bool) (x : Text)
      → IsName x
      → eval_name negative (skip_at false (cur ls_hash false (32 ∷ (x ++ codes "\n"))))
        ≡ ok (some (ifdef_type negative (lookup u.syms x)), cur ls_hash false (codes "\n"))
  unfolding eval_name
  name-read negative [] h = absurd h
  name-read negative (d ∷ x) h =
      let a : all_word (d ∷ x) ≡ true = ground (arith, h) in
      let t = (d ∷ x) ++ codes "\n" in
      let found : Option Symbol → Text → Result (Option Directive × Cursor) =
        λ s cp. ok (some (ifdef_type negative s), cur ls_hash false cp) in
      ap (eval_name negative)
        (skip_at-blank ls_hash false t _ (skip_at-word ls_hash false d (x ++ codes "\n") h.0))
      ∙ ap₂ found (findsym-lookup u.syms d x (codes "\n") a refl)
          (skipsym-append (d ∷ x) (codes "\n") a refl)

  pub ifdef-ParsesText :
      (x : Text)
      → IsName x
      → ParsesText u
          (line_of
            (directive (ifdef_type false (lookup u.syms x)))
            (codes "#", (codes "ifdef " ++ x) ++ codes "\n"))
          (codes "#ifdef " ++ x)
  unfolding eval_keyword find_keyword skipsym length_sym eval_name
  ifdef-ParsesText x h =
      directive-parse u (ifdef_type false (lookup u.syms x)) 105
        (codes "fdef " ++ (x ++ codes "\n")) kw_ifdef (32 ∷ (x ++ codes "\n"))
        (cur ls_hash false (codes "\n")) false refl refl refl refl (name-read false x h)
        ((newline-Tail ls_hash).0 false)

  pub ifndef-ParsesText :
      (x : Text)
      → IsName x
      → ParsesText u
          (line_of
            (directive (ifdef_type true (lookup u.syms x)))
            (codes "#", (codes "ifndef " ++ x) ++ codes "\n"))
          (codes "#ifndef " ++ x)
  unfolding eval_keyword find_keyword skipsym length_sym eval_name
  ifndef-ParsesText x h =
      directive-parse u (ifdef_type true (lookup u.syms x)) 105
        (codes "fndef " ++ (x ++ codes "\n")) kw_ifdef (32 ∷ (x ++ codes "\n"))
        (cur ls_hash false (codes "\n")) false refl refl refl refl (name-read true x h)
        ((newline-Tail ls_hash).0 false)

  pub else-ParsesText :
      ParsesText u (line_of (directive else_line) (codes "#", codes "else\n")) (codes "#else")
  unfolding eval_keyword find_keyword skipsym length_sym skip_at
  else-ParsesText =
      directive-parse u else_line 101 (codes "lse\n") kw_else (codes "\n")
        (cur ls_hash false (codes "\n")) false refl refl refl refl refl
        ((newline-Tail ls_hash).0 false)

  pub endif-ParsesText :
      ParsesText u (line_of (directive endif_line) (codes "#", codes "endif\n")) (codes "#endif")
  unfolding eval_keyword find_keyword skipsym length_sym skip_at
  endif-ParsesText =
      directive-parse u endif_line 101 (codes "ndif\n") kw_endif (codes "\n")
        (cur ls_hash false (codes "\n")) false refl refl refl refl refl
        ((newline-Tail ls_hash).0 false)
