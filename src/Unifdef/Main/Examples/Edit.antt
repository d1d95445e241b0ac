-- ===== src/Unifdef/Main/Examples/Edit.antt =====
-- scripts/unifdef.c: a file edited in place, from the command line on.
use embtoolkit.Base.{
  ℕ, ◌≡◌, refl, true, false, List, [], ◌∷◌, Option, some, Text, codes, map, arith,
}
use embtoolkit.Unifdef.Symbols.Words.{lookup}
use embtoolkit.Unifdef.Main.{Command, ok, set_options, initial_command, to_temporary, main}
use embtoolkit.Unifdef.Main.Requests.{Request, undefine, output_file, spell, last_said}
use embtoolkit.Unifdef.Comment.{is_space}
use embtoolkit.Unifdef.Run.{unifdef}
use embtoolkit.Unifdef.Groups.{Source, texts, resolve}
use embtoolkit.Unifdef.Groups.Output.{Fits}
use embtoolkit.Unifdef.Groups.Compiled.{compiled, Undecided}
use embtoolkit.Unifdef.Run.Program.{
  by_name, Program, end, line, choice, otherwise, file, source, IsPlainC, true_value, compile,
}
use embtoolkit.Unifdef.Main.Whole.{Edits, edit-compiled}
use embtoolkit.Unifdef.Main.Closeout.{Files, end_program}
use embtoolkit.Unifdef.Main.Examples.{
  opens, is_one, calls, calls-IsDocumented, temporary, temporary-differs, program, store, undefined,
}

-- -UA -o f, on the text of `program`
abbrev edit : List Request
edit = undefine false (codes "A") ∷ output_file (codes "f") ∷ []

abbrev edit_command : Command
edit_command = record initial_command { settings = undefined; ofilename = some (codes "f") }

edit-set_options : set_options (map spell edit) initial_command ≡ ok edit_command
unfolding set_options
edit-set_options = refl

abbrev sample : Program
sample =
    choice (by_name true (codes "A")) (line (codes "x") end) (otherwise (line (codes "y") end)) end

sample-text : file sample [] ≡ program
unfolding file
sample-text = refl

sample-IsPlainC : IsPlainC undefined sample
unfolding IsPlainC is_space
sample-IsPlainC = (
  (refl, omega arith),
  ((refl, refl, refl, refl), refl),
  ((refl, omega arith), refl, refl, tt),
  ((refl, omega arith), refl, refl, tt),
  tt,
)

sample-Fits : Fits 0 (source undefined sample)
unfolding Fits source
sample-Fits = (omega arith, (tt, (tt, tt)))

abbrev rest : Source
rest = resolve (codes "\n") (source undefined sample)

edit-compiled_example :
    (main opens opens is_one (λ t. some temporary) 4096 (map spell edit) (codes "f" ∷ [])
      ≡ ok (record {
        command = edit_command;
        filename = some (codes "f");
        target = to_temporary temporary (codes "f");
      }))
    × ((r : ℕ × Files) × (end_program calls
            (to_temporary temporary (codes "f"))
            (unifdef edit_command.options undefined (file sample []))
            store
          ≡ some r)
        × Edits calls (codes "f") (texts rest) store r)
    × Undecided rest
    × ((others : Text → Option ℕ)
        → compiled (true_value undefined others) rest ≡ compile undefined others sample)
    × ((y : Text) → lookup undefined.syms y ≡ last_said edit y)
edit-compiled_example =
    edit-compiled opens opens is_one (λ t. some temporary) 4096 calls calls-IsDocumented edit
      edit_command sample (codes "f") temporary store (refl, (tt, tt)) (omega arith)
      (refl, refl, refl, refl, refl, refl) edit-set_options refl refl refl refl refl
      temporary-differs sample-IsPlainC sample-Fits
