-- ===== src/Unifdef/Main/Examples.antt =====
-- scripts/unifdef.c: command lines, and the theorem at one.
mod Edit
use embtoolkit.Base.{
  ◌++◌, ◌⊎◌, str_eq, str_eq→eq, str_eq_refl, if-true, if-false, Bool-cases, inl, inr, ap, ◌≢◌, ℕ,
  ◌≡◌, refl, Bool, true, false, ◌&&◌, List, [], ◌∷◌, Option, none, some, Text, codes, map,
  if◌then◌else◌, arith,
}
use embtoolkit.Unifdef.Symbols.{Symbol}
use embtoolkit.Unifdef.Symbols.Words.{lookup}
use embtoolkit.Unifdef.Main.{
  Command, Result, ok, exits, mutually_exclusive, usage_shown, version_shown, ◌>>=◌, set_options,
  initial_command, Target, to_temporary, Process, main,
}
use embtoolkit.Unifdef.Main.Requests.{
  Switch, Request, define, undefine, switch, output_file, strictlogic, blank, compress, spell,
  last_said, last_output, is_given, variable,
}
use embtoolkit.Unifdef.Comment.{is_space}
use embtoolkit.Unifdef.Machine.{flushline}
use embtoolkit.Unifdef.Run.{Settings, unifdef}
use embtoolkit.Unifdef.Groups.{Source, texts, resolve}
use embtoolkit.Unifdef.Groups.Output.{Fits}
use embtoolkit.Unifdef.Groups.Compiled.{compiled, Undecided}
use embtoolkit.Unifdef.Run.Program.{
  by_name, Program, end, line, choice, otherwise, file, source, IsPlainC, true_value, compile,
}
use embtoolkit.Unifdef.Main.Whole.{joined, edit-compiled}
use embtoolkit.Unifdef.Main.Closeout.{
  Files, Calls, IsDocumented, end_program, Leaves, in_place-Leaves,
}
use embtoolkit.Unifdef.Main.Starts.{operand, target_of, main-starts}

-- One file system: everything opens, and the output is the input.
abbrev opens : Text → Bool
opens f = true

abbrev is_one : Option Text → Text → Bool
is_one f g = true

abbrev start : List (ℕ × Text) → List Text → Result Process
start = main opens opens is_one some 4096

-- -DA=2 -K -iUB -DA -o d/f
abbrev requests : List Request
requests =
    define false (codes "A") (some (codes "2"))
    ∷ switch strictlogic
    ∷ undefine true (codes "B")
    ∷ define false (codes "A") none
    ∷ output_file (codes "d/f")
    ∷ []

-- -UA
abbrev undefined : Settings
undefined = record {
  textfile = false;
  strictlogic = false;
  killconsts = false;
  syms = record { symname = codes "A"; value = none; ignore = false } ∷ [];
}

abbrev symbols : Result Process → List Symbol
symbols (ok p) = p.command.settings.syms
symbols (exits e) = []

abbrev target : Result Process → Option Target
target (ok p) = some p.target
target (exits e) = none

requests-symbols :
    symbols (start (map spell requests) (codes "d/f" ∷ []))
    ≡ record { symname = codes "A"; value = some (codes "1"); ignore = false }
      ∷ record { symname = codes "B"; value = none; ignore = true }
      ∷ []
unfolding main
requests-symbols = refl

requests-target :
    target (start (map spell requests) (codes "d/f" ∷ []))
    ≡ some (to_temporary (codes "d/unifdef.XXXXXX") (codes "d/f"))
unfolding main
requests-target = refl

-- -B -b, -iX and -V
run_errors :
    (start ((66, []) ∷ (98, []) ∷ []) [] ≡ exits mutually_exclusive)
    × (start ((105, codes "X") ∷ []) [] ≡ exits usage_shown)
    × (start ((86, []) ∷ []) [] ≡ exits version_shown)
unfolding main
run_errors = (refl, refl, refl)

-- Behind -s a -D prints its name and adds no symbol.
abbrev listing : Result Command → Text × List Symbol
listing (ok c) = (c.listed, c.settings.syms)
listing (exits e) = ([], [])

list_before_define :
    listing (set_options ((115, []) ∷ (68, codes "A") ∷ []) initial_command) ≡ (codes "A\n", [])
unfolding set_options
list_before_define = refl

main-starts_example :
    (c : Command) × (start (map spell requests) (operand (some (codes "d/f"))) ≡ (
      if is_given requests compress && is_given requests blank
      then exits mutually_exclusive
      else (target_of opens opens is_one some 4096 (some (codes "d/f")) (last_output requests none)
          >>= λ t. ok (record { command = c; filename = some (codes "d/f"); target = t }))))
    × ((y : Text) → lookup c.settings.syms y ≡ last_said requests y)
    × ((t : Switch) → variable t c ≡ is_given requests t)
main-starts_example =
    main-starts opens opens is_one some 4096 requests (some (codes "d/f"))
      (refl, (tt, (refl, (refl, (tt, tt))))) (omega arith) (refl, refl)

-- Files whose calls succeed.
abbrev calls : Calls
calls = record {
  fputs = λ t w. record w { content = w.content ++ t };
  fclose = λ f w s. (true, λ g. if str_eq f g then some w.content else s g);
  fclose_stdout = true;
  rename = λ f g s. (true, λ h. if str_eq g h then s f else if str_eq f h then none else s h);
  unlink = λ f s g. if str_eq f g then none else s g;
}

differ-str_eq : (f g : Text) → f ≢ g → str_eq f g ≡ false
differ-str_eq f g h = elim (Bool-cases (str_eq f g)) [
  | inl e ↦ absurd (h (str_eq→eq f g e))
  | inr e ↦ e
]

calls-IsDocumented : IsDocumented calls
calls-IsDocumented = record {
  fputs_sticky = λ t w h. h;
  fputs_written = λ t w h. refl;
  fclose_written = λ f w s e h. if-true _ _ (str_eq_refl f);
  fclose_others = λ f g w s h. if-false _ _ (differ-str_eq f g h);
  rename_renamed = λ f g s h. if-true _ _ (str_eq_refl g);
  rename_failed = λ f g h s e. cc;
  unlink_others = λ f g s h. if-false _ _ (differ-str_eq f g h);
}

abbrev temporary : Text
temporary = codes "unifdef.abcdef"

temporary-differs : temporary ≢ codes "f"
temporary-differs h = let e = ap (str_eq (codes "f")) h in cc

abbrev program : Text
program = codes "#ifdef A\nx\n#else\ny\n#endif\n"

abbrev store : Files
store = λ f. if str_eq f (codes "f") then some program else none

abbrev content : Option (ℕ × Files) → Option (ℕ × Option Text)
content none = none
content (some (n, s)) = some (n, s (codes "f"))

-- f after -UA
in_place-content :
    content (
      end_program calls
        (to_temporary temporary (codes "f"))
        (unifdef initial_command.options undefined program)
        store)
    ≡ some (1, some (codes "y\n"))
unfolding end_program unifdef flushline is_space
in_place-content = refl

-- Where every fputs fails, f is cut to nothing, and the status is that of a regular end.
abbrev full_disk : Calls
full_disk = record calls { fputs = λ t w. record w { has_error = true } }

in_place-truncated :
    content (
      end_program full_disk
        (to_temporary temporary (codes "f"))
        (unifdef initial_command.options undefined program)
        store)
    ≡ some (1, some [])
unfolding end_program unifdef flushline is_space
in_place-truncated = refl

in_place-Leaves_example :
    (r : ℕ × Files) × (end_program calls
        (to_temporary temporary (codes "f"))
        (unifdef initial_command.options undefined program)
        store
      ≡ some r)
    × Leaves calls (codes "f") (unifdef initial_command.options undefined program) store r
in_place-Leaves_example =
    in_place-Leaves calls calls-IsDocumented temporary (codes "f") temporary-differs
      initial_command.options undefined program store
