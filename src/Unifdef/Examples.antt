-- ===== src/Unifdef/Examples.antt =====
-- scripts/unifdef.c: a run of the state machine, and the theorems at it.
use embtoolkit.Base.{◌≡◌, refl, Bool, true, false, List, [], ◌∷◌, Text, codes, some}
use embtoolkit.Unifdef.{
  Linetype, directive, plain, if_true, if_unknown, elif_true, else_line, endif_line,
}
use embtoolkit.Unifdef.Machine.{
  Line, Options, Outcome, Written, text, line_number, running, process, step, flushline, initial,
}
use embtoolkit.Unifdef.Comment.{no_comment, ls_start, skipped, skipcomment}
use embtoolkit.Unifdef.Comment.Stops.{Stops}
use embtoolkit.Unifdef.Numbers.{AreLines}
use embtoolkit.Unifdef.Numbers.Flushed.{Survives}
use embtoolkit.Unifdef.Numbers.Kept.{
  Synchronised, OnePerLine, process-Synchronised, process-OnePerLine,
}
use embtoolkit.Unifdef.Depth.{IsValid, Reaches}
use embtoolkit.Unifdef.Depth.Reached.{initial-IsValid, process-Reaches}

abbrev line : Linetype → Text → Text → Line
line k b t = record { linetype = k; before = b; keyword = t; incomment = false }

abbrev options : Bool → Bool → Options
options n b = record {
  compblank = false;
  lnblank = b;
  complement = false;
  iocccok = false;
  lnnum = n;
  symlist = false;
  newline = codes "\n";
}

-- A group that is left out but for its second part, and a group that stays.
abbrev sample : List Line
sample =
    line (directive if_true) (codes "#") (codes "ifdef A\n")
    ∷ line plain [] (codes "x\n")
    ∷ line (directive else_line) (codes "#") (codes "else\n")
    ∷ line plain [] (codes "y\n")
    ∷ line (directive endif_line) (codes "#") (codes "endif\n")
    ∷ line (directive if_unknown) (codes "#") (codes "if B\n")
    ∷ line (directive elif_true) (codes "#") (codes "elif A\n")
    ∷ line plain [] (codes "z\n")
    ∷ line (directive endif_line) (codes "#") (codes "endif\n")
    ∷ []

output : Outcome → List Written
output (running s) = s.written
output m = []

-- The #elif has become an #else, and the kept lines have their numbers.
sample-output :
    output (process (options true false) sample initial)
    ≡ line_number 2
      ∷ text (codes "x\n")
      ∷ line_number 6
      ∷ text (codes "#if B\n")
      ∷ text (codes "#else\n")
      ∷ text (codes "z\n")
      ∷ text (codes "#endif\n")
      ∷ []
unfolding process step flushline output
sample-output = refl

process-Reaches_example : Reaches IsValid (process (options true false) sample initial)
process-Reaches_example =
    process-Reaches (options true false) sample initial
      (
        (λ e. cc),
        (
          (λ e. cc),
          (
            (λ e. cc),
            ((λ e. cc), ((λ e. cc), ((λ e. cc), ((λ e. cc), ((λ e. cc), ((λ e. cc), tt)))))),
          ),
        ),
      )
      initial-IsValid

sample-AreLines : AreLines sample
sample-AreLines = (
  (refl, refl, refl),
  (
    refl,
    (
      (refl, refl, refl),
      (
        refl,
        (
          (refl, refl, refl),
          ((refl, refl, refl), ((refl, refl, refl), (refl, ((refl, refl, refl), tt)))),
        ),
      ),
    ),
  ),
)

process-Synchronised_example : Survives Synchronised (process (options true false) sample initial)
process-Synchronised_example =
    process-Synchronised (options true false) refl refl refl sample initial sample-AreLines
      (λ e. refl)

process-OnePerLine_example : Survives OnePerLine (process (options false true) sample initial)
process-OnePerLine_example =
    process-OnePerLine (options false true) refl refl refl refl refl sample initial sample-AreLines
      refl

-- A comment that the end of the text cuts off.
skipcomment-open :
    skipcomment 21 false no_comment ls_start (codes " /* a */ /")
    ≡ some (skipped no_comment ls_start (codes "/"))
unfolding skipcomment
skipcomment-open = refl
