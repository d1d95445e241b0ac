-- ===== src/Unifdef/Run/Whole.antt =====
-- scripts/unifdef.c: the program on the text of a file.
use embtoolkit.Base.{
  ℕ, ◌+◌, ◌≡◌, refl, sym, ap, ap₂, ◌∙◌, Bool, true, false, not, [], ◌∷◌, ◌++◌, append-nil, Option,
  none, some, Text, codes, length, map, arith, ◌==◌, if◌then◌else◌, Option-cases, inl, inr,
}
use embtoolkit.Unifdef.Machine.{State, text, finished, initial}
use embtoolkit.Unifdef.Symbols.{Symbol}
use embtoolkit.Unifdef.Symbols.Words.{lookup}
use embtoolkit.Unifdef.Evaluator.{eval_ops, Truth, lt_if, lt_true, lt_false, to_int}
use embtoolkit.Unifdef.Evaluator.Syntax.{Expr, compiled_value, is_defined_by, defined_in}
use embtoolkit.Unifdef.Evaluator.Ifeval.{IsRight, eval_result-IsRight}
use embtoolkit.Unifdef.Groups.{resolve, texts}
use embtoolkit.Unifdef.Groups.Moves.{defaults}
use embtoolkit.Unifdef.Groups.Output.{Fits}
use embtoolkit.Unifdef.Groups.Compiled.{
  compiled, compiled_parts, value, Undecided, resolve-Undecided, compiled-resolve,
}
use embtoolkit.Unifdef.Groups.Resolved.{input, process-resolve}
use embtoolkit.Unifdef.Run.{Settings, ending, unifdef}
use embtoolkit.Unifdef.Run.Follows.{end_of_file, run-process, Follows-length}
use embtoolkit.Unifdef.Run.Program.{
  Test, by_value, by_name, Program, end, line, choice, Branches, endif, otherwise, elif, file,
  expression, condition, named, decide, source, parts, IsPlainC, true_value, compile,
  compile_branches,
}
use embtoolkit.Unifdef.Run.Parsing.{program-Follows}

module _ (u : Settings) where
  module _ (others : Text → Option ℕ) where
    condition-value :
        (e : Expr eval_ops) (t : Truth)
        → IsRight t (compiled_value u.syms others e)
        → value (true_value u others) (condition u e t) ≡ true_value u others e
    condition-value e lt_if h = refl
    condition-value e lt_true h = ap not (sym h)
    condition-value e lt_false h = ap not (sym h)

    defined-true : (d : Bool) → (if d then true else false) ≡ not (to_int d == 0)
    defined-true true = refl
    defined-true false = refl

    defined-false : (d : Bool) → (if d then false else true) ≡ not (to_int (to_int d == 0) == 0)
    defined-false true = refl
    defined-false false = refl

    named-value :
        (b : Bool) (x : Text) (s : Symbol)
        → lookup u.syms x ≡ some s
        → (if is_defined_by s.value then b else not b)
          ≡ true_value u others (expression (by_name b x))
    unfolding compiled_value
    named-value true x s e =
        defined-true (is_defined_by s.value)
        ∙ ap (λ o. not (to_int (defined_in u.syms others x o) == 0)) (sym e)
    named-value false x s e =
        defined-false (is_defined_by s.value)
        ∙ ap (λ o. not (to_int (to_int (defined_in u.syms others x o) == 0) == 0)) (sym e)

    -- A test that unifdef decides is decided as the compiler does.
    decide-value :
        (t : Test) → value (true_value u others) (decide u t) ≡ true_value u others (expression t)
    unfolding compiled_value
    decide-value (by_value e) =
        condition-value e _ (eval_result-IsRight u.syms u.strictlogic u.killconsts e others)
    decide-value (by_name b x) = elim (Option-cases (lookup u.syms x)) [
      | inl e ↦ ap (λ o. value (true_value u others) (named u (by_name b x) b o)) e
      | inr (s, e) ↦
          ap (λ o. value (true_value u others) (named u (by_name b x) b o)) e ∙ named-value b x s e
    ]

    mutual
      unfolding source parts compiled compiled_parts compile compile_branches

      source-compiled :
          (c : Program) → compiled (true_value u others) (source u c) ≡ compile u others c
      source-compiled end = refl
      source-compiled (line t c) =
          ap₂ (λ x y. x ∷ y) (append-nil (t ++ codes "\n")) (source-compiled c)
      source-compiled (choice t c b after) =
          let i = decide-value t in
          let j = source-compiled c in
          let k = parts-compiled b in let l = source-compiled after in simp (i, j, k, l)

      parts-compiled :
          (b : Branches)
          → compiled_parts (true_value u others) (parts u b) ≡ compile_branches u others b
      parts-compiled endif = refl
      parts-compiled (otherwise c) = source-compiled c
      parts-compiled (elif e c b) =
          let i = decide-value (by_value e) in
          let j = source-compiled c in let k = parts-compiled b in simp (i, j, k)

  -- On the text of a file whose groups are well nested in at most 63 levels, in which the lines that
  -- are no directives hold no comments, literals and continuations, the directives are printed
  -- expressions and names whose symbols have numbers or no values and are not ignored, and no line has
  -- more than 4,095 characters with its newline, unifdef with no options but -D, -U, -K and -k ends
  -- regularly. Its output is what resolving the conditions leaves that the symbols determine: no
  -- condition that unifdef knows, and groups of which a compiler with the same ints keeps what it keeps
  -- of the file, whatever the symbols are that unifdef does not know.
  pub unifdef-compiled :
      (v : Text) (c : Program)
      → u.textfile ≡ false
      → IsPlainC u c
      → Fits 0 (source u c)
      → (s : State) × (unifdef (defaults v) u (file c []) ≡ ending (finished s))
        × (s.written ≡ map text (texts (resolve (codes "\n") (source u c))))
        × Undecided (resolve (codes "\n") (source u c))
        × ((others : Text → Option ℕ)
            → compiled (true_value u others) (resolve (codes "\n") (source u c))
              ≡ compile u others c)
  unfolding unifdef
  unifdef-compiled v c t h f =
      let (s, e, w) = process-resolve (codes "\n") (source u c) f in
      let g = program-Follows u c (end_of_file ∷ []) [] h (inl (refl, refl, refl)) in
      let n = Follows-length u (input (source u c)) (file c []) g in
      (
        s,
        run-process u v t (input (source u c)) (file c []) (length (file c []) + 1) none initial s g
            tt (λ k. refl) (omega (arith, n)) e,
        w,
        resolve-Undecided (codes "\n") (source u c),
        λ others.
            compiled-resolve (true_value u others) (codes "\n") (source u c)
            ∙ source-compiled others c,
      )
