-- ===== src/Unifdef/Main.antt =====
-- scripts/unifdef.c: the command line, up to the call of process. getopt of the C library gives the
-- options, each a letter with `optarg`; the files are parameters.
pub mod Symbols
pub mod Requests
pub mod Steps
pub mod Starts
pub mod Closeout
pub mod Whole
mod Examples
use embtoolkit.Base.{
  ℕ, zero, suc, ◌-◌, Bool, true, false, not, ◌&&◌, ◌||◌, List, [], ◌∷◌, ◌++◌, Option, none, some,
  Text, codes, ◌==◌, if◌then◌else◌, str_eq,
}
use embtoolkit.Unifdef.Machine.{Options}
use embtoolkit.Unifdef.Symbols.{
  Symbol, Added, added, usage, too_many, addsym, length_sym, skipsym, sym_name, value_of,
}
use embtoolkit.Unifdef.Run.{Settings}

-- The globals that the options set. `listed` is what findsym prints under -s, `slot` the entry 0 of the
-- arrays where it is written while `nsyms` is 0. `zerosyms` is false once findsym has printed.
pub record Command : Type 0 where
  pub options : Options
  pub settings : Settings
  pub symdepth : Bool
  pub debugging : Bool
  pub ofilename : Option Text
  pub zerosyms : Bool
  pub listed : Text
  pub slot : Option Symbol

-- How main ends before process: usage() and the calls of errx and err exit with 2, version() with 0.
pub data Exit : Type 0 where
  usage_shown version_shown too_many_symbols mutually_exclusive only_one_file cannot_open
        cannot_create_temporary cannot_create :
      Exit

pub data Result {ℓ} (A : Type ℓ) : Type ℓ where
  ok : A → Result A
  exits : Exit → Result A

infixl 5 ◌>>=◌
abbrev pub ◌>>=◌ {ℓ κ} : {A : Type ℓ} {B : Type κ} → Result A → (A → Result B) → Result B
ok a >>= f = f a
exits e >>= f = exits e

abbrev pub put_first : Symbol → List Symbol → List Symbol
put_first new [] = []
put_first new (s ∷ ss) = new ∷ ss

-- What findsym prints: `firstsym` is false before the file is read.
abbrev listed_name : Bool → Text → Text
listed_name true name = codes " " ++ name
listed_name false name = name ++ codes "\n"

abbrev put_slot : Symbol → List Symbol → Option Symbol → Option Symbol
put_slot new [] slot = some new
put_slot new (s ∷ ss) slot = slot

-- addsym under -s: findsym prints the name and returns 0.
abbrev list_symbol : Bool → Text → Command → Option (Option Text) → Result Command
list_symbol ignorethis name c none = exits usage_shown
list_symbol ignorethis name c (some v) =
    let entry : Symbol = record { symname = name; value = v; ignore = ignorethis } in
    ok (record c {
      settings = record c.settings { syms = put_first entry c.settings.syms };
      slot = put_slot entry c.settings.syms c.slot;
      zerosyms = false;
      listed = c.listed ++ listed_name c.symdepth name;
    })

abbrev with_symbols : Command → Added → Result Command
with_symbols c (added ss) = ok (record c { settings = record c.settings { syms = ss } })
with_symbols c usage = exits usage_shown
with_symbols c too_many = exits too_many_symbols

-- addsym with findsym, with and without -s.
unfoldable pub add_option : Bool → Bool → Text → Command → Result Command
unfolding addsym skipsym sym_name length_sym
add_option ignorethis definethis optarg c =
    if c.options.symlist && not (length_sym optarg == 0)
    then list_symbol ignorethis (sym_name optarg) c (value_of definethis (skipsym optarg))
    else with_symbols c (addsym ignorethis definethis optarg c.settings.syms)

-- -i
abbrev ignore_option : Text → Command → Result Command
ignore_option [] c = exits usage_shown
ignore_option (opt ∷ optarg) c =
    if opt == 68
    then add_option true true optarg c
    else if opt == 85
    then add_option true false optarg c
    else exits usage_shown

-- The options without an argument that set a variable: b and l, B, c, d, e, K, k, n, s, S, t.
abbrev set_variable : ℕ → Command → Option Command
set_variable opt c =
    if opt == 98 || opt == 108
    then some (record c { options = record c.options { lnblank = true } })
    else if opt == 66
    then some (record c { options = record c.options { compblank = true } })
    else if opt == 99
    then some (record c { options = record c.options { complement = true } })
    else if opt == 100
    then some (record c { debugging = true })
    else if opt == 101
    then some (record c { options = record c.options { iocccok = true } })
    else if opt == 75
    then some (record c { settings = record c.settings { strictlogic = true } })
    else if opt == 107
    then some (record c { settings = record c.settings { killconsts = true } })
    else if opt == 110
    then some (record c { options = record c.options { lnnum = true } })
    else if opt == 115
    then some (record c { options = record c.options { symlist = true } })
    else if opt == 83
    then some (record c { options = record c.options { symlist = true }; symdepth = true })
    else if opt == 116
    then some (record c { settings = record c.settings { textfile = true } })
    else none

abbrev or_usage : ℕ → Option Command → Result Command
or_usage opt none = exits (if opt == 86 then version_shown else usage_shown)
or_usage opt (some c) = ok c

-- The switch: i, D, U, I, o, the variables, V, and usage() for all else.
unfoldable pub set_option : ℕ × Text → Command → Result Command
unfolding add_option
set_option (opt, optarg) c =
    if opt == 105
    then ignore_option optarg c
    else if opt == 68
    then add_option false true optarg c
    else if opt == 85
    then add_option false false optarg c
    else if opt == 73
    then ok c
    else if opt == 111
    then ok (record c { ofilename = some optarg })
    else or_usage opt (set_variable opt c)

-- The loop over the options
unfoldable pub set_options : List (ℕ × Text) → Command → Result Command
unfolding set_option
set_options [] c = ok c
set_options (o ∷ os) c = set_option o c >>= set_options os

-- The globals before main
abbrev pub initial_command : Command
initial_command = record {
  options = record {
    compblank = false;
    lnblank = false;
    complement = false;
    iocccok = false;
    lnnum = false;
    symlist = false;
    newline = [];
  };
  settings = record { textfile = false; strictlogic = false; killconsts = false; syms = [] };
  symdepth = false;
  debugging = false;
  ofilename = none;
  zerosyms = true;
  listed = [];
  slot = none;
}

-- The text before the last /
abbrev pub directory : Text → Option Text
directory [] = none
directory (c ∷ t) = elim (directory t) [
  | some d ↦ some (c ∷ d)
  | none ↦ if c == 47 then some [] else none
]

abbrev take_text : ℕ → Text → Text
take_text zero t = []
take_text (suc n) [] = []
take_text (suc n) (c ∷ t) = c ∷ take_text n t

-- What `output` is: standard output, a file, or with `overwriting` a temporary file that is to be renamed.
pub data Target : Type 0 where
  standard_output : Target
  to_file : Text → Target
  to_temporary : Text → Text → Target

-- What process starts with. The input is a file or, without one, standard input.
pub record Process : Type 0 where
  pub command : Command
  pub filename : Option Text
  pub target : Target

-- fopen for reading and for writing, stat and fstat on the two files (whether both succeed and the files are
-- one), mkstemp with fdopen (the name it gives), and FILENAME_MAX.
module _ (can_open can_write : Text → Bool) (is_same : Option Text → Text → Bool)
    (make_temporary : Text → Option Text) (filename_max : ℕ) where
  abbrev pub template : Option Text → Text
  template none = take_text (filename_max - 1) (codes "unifdef.XXXXXX")
  template (some d) = take_text (filename_max - 1) (d ++ codes "/unifdef.XXXXXX")

  abbrev on_temporary : Text → Option Text → Result Target
  on_temporary ofilename none = exits cannot_create_temporary
  on_temporary ofilename (some tempname) = ok (to_temporary tempname ofilename)

  abbrev pub open_output : Option Text → Option Text → Result Target
  open_output input none = ok standard_output
  open_output input (some ofilename) =
      if is_same input ofilename
      then on_temporary ofilename (make_temporary (template (directory ofilename)))
      else if can_write ofilename
      then ok (to_file ofilename)
      else exits cannot_create

  abbrev pub open_input : List Text → Result (Option Text)
  open_input [] = ok none
  open_input (f ∷ []) =
      if str_eq f (codes "-")
      then ok none
      else if can_open f
      then ok (some f)
      else exits cannot_open
  open_input (f ∷ g ∷ fs) = exits only_one_file

  -- main, up to process(): the options, and the arguments behind them.
  unfoldable pub main : List (ℕ × Text) → List Text → Result Process
  unfolding set_options
  main opts argv = do
    c ← set_options opts initial_command
    if c.options.compblank && c.options.lnblank then exits mutually_exclusive else do
      input ← open_input argv
      output ← open_output input c.ofilename
      ok (record { command = c; filename = input; target = output })
