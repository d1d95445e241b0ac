-- ===== src/Unifdef/Main/Requests.antt =====
-- scripts/unifdef.c: a command line of definitions and switches as a data type, and what it asks for.
use embtoolkit.Base.{
  ℕ, Bool, true, false, ◌||◌, List, [], ◌∷◌, ◌++◌, Option, none, some, Text, codes, ◌==◌,
}
use embtoolkit.Unifdef.Symbols.{Symbol}
use embtoolkit.Unifdef.Main.{Command}
use embtoolkit.Unifdef.Main.Symbols.{first_of, entry_for, IsSymbolName}

-- The options that set a variable, but -s and -S.
pub data Switch : Type 0 where
  blank old_blank compress complement debugging iocccok strictlogic killconsts lnnum textfile :
      Switch

abbrev pub letter : Switch → ℕ
letter blank = 98
letter old_blank = 108
letter compress = 66
letter complement = 99
letter debugging = 100
letter iocccok = 101
letter strictlogic = 75
letter killconsts = 107
letter lnnum = 110
letter textfile = 116

-- -D and -U, with `true` behind -i; -D without a value defines 1.
pub data Request : Type 0 where
  define : Bool → Text → Option Text → Request
  undefine : Bool → Text → Request
  switch : Switch → Request
  include_path : Text → Request
  output_file : Text → Request

abbrev with_value : Text → Option Text → Text
with_value x none = x
with_value x (some v) = x ++ (61 ∷ v)

-- The option with its argument
abbrev pub spell : Request → ℕ × Text
spell (define false x v) = (68, with_value x v)
spell (define true x v) = (105, 68 ∷ with_value x v)
spell (undefine false x) = (85, x)
spell (undefine true x) = (105, 85 ∷ x)
spell (switch s) = (letter s, [])
spell (include_path p) = (73, p)
spell (output_file f) = (111, f)

abbrev pub or_one : Option Text → Text
or_one none = codes "1"
or_one (some v) = v

-- What one option says of a name, and what the last one says that says something.
abbrev pub says : Request → Text → Option Symbol
says (define i x v) = entry_for (record { symname = x; value = some (or_one v); ignore = i })
says (undefine i x) = entry_for (record { symname = x; value = none; ignore = i })
says _ = λ y. none

abbrev pub last_said : List Request → Text → Option Symbol
last_said [] y = none
last_said (r ∷ rs) y = first_of (last_said rs y) (says r y)

abbrev pub last_output : List Request → Option Text → Option Text
last_output [] f = f
last_output (output_file g ∷ rs) f = last_output rs (some g)
last_output (r ∷ rs) f = last_output rs f

-- The variable of a switch; -l sets the one of -b.
abbrev pub variable : Switch → Command → Bool
variable blank c = c.options.lnblank
variable old_blank c = c.options.lnblank
variable compress c = c.options.compblank
variable complement c = c.options.complement
variable debugging c = c.debugging
variable iocccok c = c.options.iocccok
variable strictlogic c = c.settings.strictlogic
variable killconsts c = c.settings.killconsts
variable lnnum c = c.options.lnnum
variable textfile c = c.settings.textfile

abbrev variable_letter : Switch → ℕ
variable_letter old_blank = letter blank
variable_letter s = letter s

abbrev pub sets : Request → Switch → Bool
sets (switch s) t = variable_letter s == variable_letter t
sets _ t = false

abbrev pub is_given : List Request → Switch → Bool
is_given [] t = false
is_given (r ∷ rs) t = is_given rs t || sets r t

-- A definition names a symbol.
abbrev pub IsValid : Request → Type 0
IsValid (define i x v) = IsSymbolName x
IsValid (undefine i x) = IsSymbolName x
IsValid _ = Unit

abbrev pub AreValid : List Request → Type 0
AreValid [] = Unit
AreValid (r ∷ rs) = IsValid r × AreValid rs
