-- ===== src/Unifdef/Main/Starts.antt =====
-- scripts/unifdef.c: what a command line of definitions and switches starts.
use embtoolkit.Base.{
  ℕ, ◌+◌, ◌≤◌, ◌≡◌, refl, ap, ◌∙◌, Bool, true, false, ◌&&◌, ◌||◌, List, [], ◌∷◌, Option, none, some,
  Text, codes, map, if◌then◌else◌, length, str_eq, arith,
}
use embtoolkit.Unifdef.Symbols.{maxsyms}
use embtoolkit.Unifdef.Symbols.Words.{lookup}
use embtoolkit.Unifdef.Main.{
  Command, Result, ok, exits, mutually_exclusive, ◌>>=◌, set_options, initial_command, Target,
  open_input, open_output, main,
}
use embtoolkit.Unifdef.Main.Symbols.{first_of, first_of_assoc}
use embtoolkit.Unifdef.Main.Requests.{
  Switch, blank, compress, Request, define, spell, says, last_said, last_output, variable, sets,
  is_given, AreValid,
}
use embtoolkit.Unifdef.Main.Steps.{next_output, set_option-Goes}

-- What a command is after the options `rs`.
pub record Describes (rs : List Request) (c d : Command) : Type 0 where
  pub names :
      (y : Text) → lookup d.settings.syms y ≡ first_of (last_said rs y) (lookup c.settings.syms y)
  pub variables : (t : Switch) → variable t d ≡ (is_given rs t || variable t c)
  pub unlisted : d.options.symlist ≡ c.options.symlist
  pub newline : d.options.newline ≡ c.options.newline
  pub file : d.ofilename ≡ last_output rs c.ofilename

or_assoc : (a b c : Bool) → (a || (b || c)) ≡ ((a || b) || c)
or_assoc true b c = refl
or_assoc false b c = refl

output_next :
    (r : Request) (rs : List Request) (f : Option Text)
    → last_output rs (next_output r f) ≡ last_output (r ∷ rs) f
output_next (define i x v) rs f = refl
output_next r rs f = refl

pub set_options-Describes :
    (rs : List Request) (c : Command)
    → AreValid rs
    → c.options.symlist ≡ false
    → length c.settings.syms + length rs ≤ maxsyms
    → (d : Command) × (set_options (map spell rs) c ≡ ok d) × Describes rs c d
unfolding set_options
set_options-Describes [] c h u l = (
  c,
  refl,
  record { names = λ y. refl; variables = λ t. refl; unlisted = refl; newline = refl; file = refl },
)
set_options-Describes (r ∷ rs) c (h, k) u l =
    let (d, e, f) = set_option-Goes r c h u (omega (arith, l)) in
    let (z, g, w) = set_options-Describes rs d k (f.unlisted ∙ u) (omega (arith, l, f.room)) in
    (
      z,
      ap (λ m. m >>= set_options (map spell rs)) e ∙ g,
      record {
        names = λ y.
            w.names y
            ∙ ap (first_of (last_said rs y)) (f.names y)
            ∙ first_of_assoc (last_said rs y) (says r y) (lookup c.settings.syms y);
        variables = λ t.
            w.variables t
            ∙ ap (λ b. is_given rs t || b) (f.variables t)
            ∙ or_assoc (is_given rs t) (sets r t) (variable t c);
        unlisted = w.unlisted ∙ f.unlisted;
        newline = w.newline ∙ f.newline;
        file = w.file ∙ ap (last_output rs) f.file ∙ output_next r rs c.ofilename;
      },
    )

-- The arguments that name the input
abbrev pub operand : Option Text → List Text
operand none = []
operand (some f) = f ∷ []

pub first_of-none {ℓ} : {A : Type ℓ} (a : Option A) → first_of a none ≡ a
first_of-none none = refl
first_of-none (some x) = refl

pub variable-initial : (t : Switch) (b : Bool) → (b || variable t initial_command) ≡ b
variable-initial blank true = refl
variable-initial blank false = refl
variable-initial t true = refl
variable-initial t false = refl

module _ (can_open can_write : Text → Bool) (is_same : Option Text → Text → Bool)
    (make_temporary : Text → Option Text) (filename_max : ℕ) where
  abbrev pub target_of : Option Text → Option Text → Result Target
  target_of = open_output can_open can_write is_same make_temporary filename_max

  abbrev IsReadable : Option Text → Type 0
  IsReadable none = Unit
  IsReadable (some f) = (str_eq f (codes "-") ≡ false) × (can_open f ≡ true)

  pub input-read :
      (input : Option Text)
      → IsReadable input
      → open_input can_open can_write is_same make_temporary filename_max (operand input) ≡ ok input
  input-read none h = refl
  input-read (some f) (h, k) = simp (h, k)

  -- On a command line of at most 4,096 options, which are definitions of names, paths, -o and switches
  -- but -s and -S, with at most one argument behind them, a file that opens and is not -, main ends by
  -- errx where both -B and one of -b and -l are given. Else it opens what the last -o names, standard
  -- output without one, and goes on to process with it. The symbol table says of every name what the
  -- last definition of it says, and the variable of every switch is set exactly where the switch is given.
  pub main-starts :
      (rs : List Request) (input : Option Text)
      → AreValid rs
      → length rs ≤ maxsyms
      → IsReadable input
      → (c : Command) × (main can_open can_write is_same make_temporary filename_max
            (map spell rs)
            (operand input)
          ≡ (if is_given rs compress && is_given rs blank
              then exits mutually_exclusive
              else (target_of input (last_output rs none) >>= λ t.
                  ok (record { command = c; filename = input; target = t }))))
        × ((y : Text) → lookup c.settings.syms y ≡ last_said rs y)
        × ((t : Switch) → variable t c ≡ is_given rs t)
  unfolding main
  main-starts rs input h l k =
      let (c, e, d) = set_options-Describes rs initial_command h refl (omega (arith, l)) in
      let v : (t : Switch) → variable t c ≡ is_given rs t =
        λ t. d.variables t ∙ variable-initial t (is_given rs t) in
      let b = v blank in
      let m = v compress in
      let i = input-read input k in
      let o = d.file in
      (c, simp (e, b, m, i, o), λ y. d.names y ∙ first_of-none (last_said rs y), v)
