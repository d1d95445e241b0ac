-- ===== src/Unifdef/Run/Examples.antt =====
-- scripts/unifdef.c: a file, and the theorems at it.
use embtoolkit.Base.{
  ℕ, ◌≡◌, refl, true, false, List, [], ◌∷◌, Option, none, some, Text, codes, map, arith,
}
use embtoolkit.Unifdef.Comment.{ls_start, ls_hash, is_space}
use embtoolkit.Unifdef.Machine.{State, Written, text, finished, flushline}
use embtoolkit.Unifdef.Symbols.{Symbol}
use embtoolkit.Unifdef.Symbols.Words.{number_value}
use embtoolkit.Unifdef.Numerals.{strtol}
use embtoolkit.Unifdef.Evaluator.{
  eval_ops, op_and, op_gt, ok, Truth, lt_true, Cursor, ifeval, symbol_value,
}
use embtoolkit.Unifdef.Evaluator.Skip.{cur}
use embtoolkit.Unifdef.Evaluator.Syntax.{
  Expr, number, name, defined, negated, tighter, binary, atom, print, IsValid, constant,
  known_value, compiled_value,
}
use embtoolkit.Unifdef.Evaluator.Ifeval.{ifeval-print, ifeval-IsRight, eval_result, IsRight}
use embtoolkit.Unifdef.Groups.{texts, resolve}
use embtoolkit.Unifdef.Groups.Moves.{defaults}
use embtoolkit.Unifdef.Groups.Output.{Fits}
use embtoolkit.Unifdef.Groups.Compiled.{compiled, Undecided}
use embtoolkit.Unifdef.Run.{Settings, Ending, ending, unifdef}
use embtoolkit.Unifdef.Run.Program.{
  by_value, by_name, Program, end, line, choice, endif, otherwise, elif, file, source, IsPlainC,
  true_value, compile,
}
use embtoolkit.Unifdef.Run.Ends.{Ends, unifdef-Ends}
use embtoolkit.Unifdef.Run.Whole.{unifdef-compiled}

-- -DA=2 -UB
abbrev symbols : List Symbol
symbols =
    record { symname = codes "A"; value = some (codes "2"); ignore = false }
    ∷ record { symname = codes "B"; value = none; ignore = false }
    ∷ []

abbrev settings : Settings
settings = record { textfile = false; strictlogic = false; killconsts = false; syms = symbols }

-- A > 1 && !B
abbrev test : Expr eval_ops
test = tighter _ _ (
    binary _ _ op_and
      (tighter _ _
        (tighter _ _ (binary _ _ op_gt (tighter _ _ (name (codes "A"))) (number (codes "1")))))
      (tighter _ _ (tighter _ _ (negated (name (codes "B"))))))

test-IsValid : IsValid symbols test
unfolding IsValid strtol is_space symbol_value
test-IsValid = (
  refl,
  refl,
  (refl, refl, ((refl, refl, refl, refl), (some 2, refl)), (refl, refl)),
  ((refl, refl, refl, refl), (some 0, refl)),
)

ifeval-print_example :
    ifeval false symbols false false (cur ls_hash true (codes " A > 1 && !B\n"))
    ≡ ok (lt_true, cur ls_start false [])
unfolding print eval_result known_value constant strtol is_space symbol_value number_value
ifeval-print_example = ifeval-print symbols false false test ls_hash true test-IsValid

ifeval-IsRight_example :
    (t : Truth) × (c : Cursor) × (ifeval false symbols false false
        (cur ls_hash true (codes " A > 1 && !B\n"))
      ≡ ok (t, c))
    × IsRight t (compiled_value symbols (λ x. none) test)
unfolding print
ifeval-IsRight_example =
    ifeval-IsRight symbols false false test ls_hash true (λ x. none) test-IsValid

abbrev sample : Program
sample =
    choice (by_value (atom (defined true (codes "C")))) (line (codes "a = 1;") end)
      (elif test (line (codes "b = 2;") end) (otherwise (line (codes "c = 3;") end)))
      (choice (by_name true (codes "B")) (line (codes "\td = 4;") end) endif end)

sample-text :
    file sample []
    ≡ codes
        "#if defined(C)\na = 1;\n#elif A > 1 && !B\nb = 2;\n#else\nc = 3;\n#endif\n#ifdef B\n\td = 4;\n#endif\n"
unfolding file print
sample-text = refl

abbrev output : Ending → List Written
output (ending (finished s)) = s.written
output _ = []

sample-output :
    output (unifdef (defaults []) settings (file sample []))
    ≡ text (codes "#if defined(C)\n")
      ∷ text (codes "a = 1;\n")
      ∷ text (codes "#else\n")
      ∷ text (codes "b = 2;\n")
      ∷ text (codes "#endif\n")
      ∷ []
unfolding unifdef file print is_space flushline
sample-output = refl

sample-IsPlainC : IsPlainC settings sample
unfolding IsPlainC IsValid strtol is_space print
sample-IsPlainC = (
  (refl, omega arith),
  (refl, refl, refl, refl),
  ((refl, omega arith), refl, refl, tt),
  (
    (refl, omega arith),
    test-IsValid,
    ((refl, omega arith), refl, refl, tt),
    ((refl, omega arith), refl, refl, tt),
  ),
  (
    (refl, omega arith),
    ((refl, refl, refl, refl), refl),
    ((refl, omega arith), refl, refl, tt),
    tt,
    tt,
  ),
)

sample-Fits : Fits 0 (source settings sample)
unfolding Fits source
sample-Fits = (omega arith, (tt, ((tt, tt), (omega arith, (tt, (tt, tt))))))

unifdef-compiled_example :
    (s : State) × (unifdef (defaults []) settings (file sample []) ≡ ending (finished s))
    × (s.written ≡ map text (texts (resolve (codes "\n") (source settings sample))))
    × Undecided (resolve (codes "\n") (source settings sample))
    × ((others : Text → Option ℕ)
        → compiled (true_value settings others) (resolve (codes "\n") (source settings sample))
          ≡ compile settings others sample)
unifdef-compiled_example = unifdef-compiled settings [] sample refl sample-IsPlainC sample-Fits

unifdef-Ends_example : Ends (unifdef (defaults []) settings (codes "#if A >\n'x"))
unifdef-Ends_example = unifdef-Ends (defaults []) settings (codes "#if A >\n'x")
