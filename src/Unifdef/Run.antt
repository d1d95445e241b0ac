-- ===== src/Unifdef/Run.antt =====
-- scripts/unifdef.c: process, with parseline on the text of the file. The lists of
-- -s and -S are not modelled.
pub mod Quiet
pub mod Follows
pub mod Lines
pub mod Program
pub mod Parsing
pub mod Whole
pub mod Advances
pub mod Ends
mod Examples
pub mod Plain
pub mod Directives
use embtoolkit.Base.{
  ℕ, zero, suc, ◌+◌, Bool, true, false, ◌||◌, List, [], ◌∷◌, Option, none, some, Text, codes,
  length,
}
use embtoolkit.Unifdef.Comment.{Comment, no_comment, ls_start}
use embtoolkit.Unifdef.Machine.{
  Options, State, Outcome, running, failed, finished, aborted, obfuscated, Message, step, initial,
}
use embtoolkit.Unifdef.Symbols.{Symbol}
use embtoolkit.Unifdef.Parseline.{
  Reader, Parsed, parsed, unterminated, obfuscated_keyword, stuck, parseline, in_comment,
}

-- How the program ends: as the machine does, or by error() for a literal. `unfinished` has no
-- counterpart.
pub data Ending : Type 0 where
  ending : Outcome → Ending
  unterminated_literal : Comment → State → Ending
  unfinished : Ending

-- -t, -K and -k, and the symbol table
pub record Settings : Type 0 where
  pub textfile : Bool
  pub strictlogic : Bool
  pub killconsts : Bool
  pub syms : List Symbol

abbrev pub or_unset : Option Text → Text
or_unset none = []
or_unset (some w) = w

module _ (o : Options) (u : Settings) where
  -- After a transition
  abbrev pub go_on : (State → Ending) → Outcome → Ending
  go_on f (running s) = f s
  go_on f (failed m s) = ending (failed m s)
  go_on f (finished s) = ending (finished s)
  go_on f aborted = ending aborted

  abbrev pub on_parsed : (Reader → State → Ending) → State → Parsed → Ending
  on_parsed again s (parsed l r) =
      go_on (again r) (step (record o { newline = or_unset r.newline }) l s)
  on_parsed again s (unterminated k) =
      unterminated_literal k (record s { linenum = s.linenum + 1; incomment = in_comment k })
  on_parsed again s obfuscated_keyword =
      ending (failed obfuscated (record s { linenum = s.linenum + 1; incomment = false }))
  on_parsed again s stuck = unfinished

  -- The loop of process
  unfoldable pub run : ℕ → Reader → State → Ending
  unfolding parseline step
  run zero r s = unfinished
  run (suc n) r s =
      on_parsed (run n) s
        (parseline (u.textfile || s.ignoring s.depth) u.syms u.strictlogic u.killconsts r)

  abbrev pub opened : Text → Reader
  opened t = record { input = t; newline = none; comment = no_comment; linestate = ls_start }

  -- The program on the text of a file
  unfoldable pub unifdef : Text → Ending
  unfolding run
  unifdef t = run (length t + 1) (opened t) initial
