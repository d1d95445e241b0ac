-- ===== src/Unifdef/Main/Whole.antt =====
-- scripts/unifdef.c: a file that is edited in place, from the command line to the end of the program.
use embtoolkit.Base.{
  ℕ, ◌≡◌, ◌≢◌, ◌≤◌, refl, sym, ap, ◌∙◌, subst, Bool, true, false, List, [], ◌∷◌, ◌++◌, Option, none,
  some, Text, codes, map, length, str_eq, arith, ◌⊎◌, inl, inr,
}
use embtoolkit.Unifdef.Symbols.{maxsyms}
use embtoolkit.Unifdef.Symbols.Words.{lookup}
use embtoolkit.Unifdef.Machine.{Options, State, Written, text, finished}
use embtoolkit.Unifdef.Groups.{resolve, texts}
use embtoolkit.Unifdef.Groups.Moves.{defaults}
use embtoolkit.Unifdef.Groups.Output.{Fits}
use embtoolkit.Unifdef.Groups.Compiled.{compiled, Undecided}
use embtoolkit.Unifdef.Run.{Ending, ending, unifdef}
use embtoolkit.Unifdef.Run.Program.{Program, file, source, IsPlainC, true_value, compile}
use embtoolkit.Unifdef.Run.Whole.{unifdef-compiled}
use embtoolkit.Unifdef.Main.{
  Command, ok, set_options, initial_command, to_temporary, directory, template, main,
}
use embtoolkit.Unifdef.Main.Requests.{
  Switch, blank, compress, complement, iocccok, lnnum, textfile, Request, spell, AreValid,
  last_output, is_given, variable, last_said,
}
use embtoolkit.Unifdef.Main.Starts.{
  Describes, set_options-Describes, variable-initial, first_of-none,
}
use embtoolkit.Unifdef.Main.Closeout.{
  Files, Calls, IsDocumented, output_text, write_error, end_program, Leaves, in_place-Leaves,
}

-- The options are those of a program without switches.
options-defaults :
    (o : Options)
    → o.compblank ≡ false
    → o.lnblank ≡ false
    → o.complement ≡ false
    → o.iocccok ≡ false
    → o.lnnum ≡ false
    → o.symlist ≡ false
    → o.newline ≡ []
    → o ≡ defaults []
options-defaults o a b c d e f g = cc

-- The switches that are given are among -K, -k and -d.
abbrev pub AreLogic : List Request → Type 0
AreLogic rs =
    (is_given rs blank ≡ false)
    × (is_given rs compress ≡ false)
    × (is_given rs complement ≡ false)
    × (is_given rs iocccok ≡ false)
    × (is_given rs lnnum ≡ false)
    × (is_given rs textfile ≡ false)

-- One text after another
abbrev pub joined : List Text → Text
joined [] = []
joined (t ∷ ts) = t ++ joined ts

output_text-joined : (ts : List Text) → output_text (map text ts) ≡ joined ts
output_text-joined [] = refl
output_text-joined (t ∷ ts) = ap (λ x. t ++ x) (output_text-joined ts)

ok_inj {ℓ} : {A : Type ℓ} {a b : A} → ok a ≡ ok b → a ≡ b
ok_inj h = cc

-- What the loop over the options makes of the globals.
option-Describes :
    (rs : List Request) (c : Command)
    → AreValid rs
    → length rs ≤ maxsyms
    → set_options (map spell rs) initial_command ≡ ok c
    → Describes rs initial_command c
option-Describes rs c h l e =
    let (d, k, w) = set_options-Describes rs initial_command h refl (omega (arith, l)) in
    let same : d ≡ c = ok_inj (sym k ∙ e) in subst (Describes rs initial_command) same w

module _ (rs : List Request) (c : Command) (d : Describes rs initial_command c)
    (q : AreLogic rs) where
  not_given : (t : Switch) → is_given rs t ≡ false → variable t c ≡ false
  not_given t h = d.variables t ∙ variable-initial t (is_given rs t) ∙ h

  described-defaults : c.options ≡ defaults []
  described-defaults =
      let (b, m, n, i, l, t) = q in
      options-defaults c.options (not_given compress m) (not_given blank b) (not_given complement n)
        (not_given iocccok i) (not_given lnnum l) d.unlisted d.newline

  described-textfile : c.settings.textfile ≡ false
  described-textfile = let (b, m, n, i, l, t) = q in not_given textfile t

abbrev written_of : Ending → List Written
written_of (ending (finished z)) = z.written
written_of e = []

-- What is left of f where the output is known to be these texts: all of them, unless a failure of fputs
-- has not been noticed, or what was there before.
abbrev pub Edits : Calls → Text → List Text → Files → ℕ × Files → Type 0
Edits calls f ts s r =
    ((r.1 f ≡ some (joined ts)) ⊎ (write_error calls (map text ts) ≡ true))
    ⊎ ((r.0 ≡ 2) × (r.1 f ≡ s f))

Leaves-Edits :
    (calls : Calls) (f : Text) (z : State) (ts : List Text) (s : Files) (r : ℕ × Files)
    → z.written ≡ map text ts
    → Leaves calls f (ending (finished z)) s r
    → Edits calls f ts s r
Leaves-Edits calls f z ts s (n, s') w (inl (x, e, m, inl h)) =
    let k = sym (ap written_of e) in
    inl (inl (h ∙ ap some (ap output_text (k ∙ w) ∙ output_text-joined ts)))
Leaves-Edits calls f z ts s (n, s') w (inl (x, e, m, inr h)) =
    let k = sym (ap written_of e) in inl (inr (ap (write_error calls) (sym w ∙ sym k) ∙ h))
Leaves-Edits calls f z ts s (n, s') w (inr h) = inr h

module _ (can_open can_write : Text → Bool) (is_same : Option Text → Text → Bool)
    (make_temporary : Text → Option Text) (filename_max : ℕ) (calls : Calls)
    (law : IsDocumented calls) where
  main-in_place :
      (rs : List Request) (c : Command) (f tempname : Text)
      → set_options (map spell rs) initial_command ≡ ok c
      → c.options.compblank ≡ false
      → c.ofilename ≡ some f
      → str_eq f (codes "-") ≡ false
      → can_open f ≡ true
      → is_same (some f) f ≡ true
      → make_temporary
          (template can_open can_write is_same make_temporary filename_max (directory f))
        ≡ some tempname
      → main can_open can_write is_same make_temporary filename_max (map spell rs) (f ∷ [])
        ≡ ok (record { command = c; filename = some f; target = to_temporary tempname f })
  unfolding main
  main-in_place rs c f tempname e b o n k i m = simp (e, b, o, n, k, i, m)

  -- The program on one file that is its input and its output: the command line has at most 4,096
  -- options, which are definitions of names, paths, -K, -k, -d and -o, the last -o with the name of the
  -- file, which opens and is not -; mkstemp gives a name that is not its own, and fputs, fclose, rename
  -- and unlink do what they promise. The file is plain for the settings of the command line, with groups
  -- in at most 63 levels. Then the definitions are the last ones of their names, main starts process on
  -- the file with a temporary output, and the program exits. The file holds what resolving the known
  -- conditions leaves, unless a call of fputs has failed without notice; or it is as it was, with status
  -- 2. No condition is left in the output that unifdef knows, and a compiler keeps the same lines of it,
  -- whatever the other symbols are.
  pub edit-compiled :
      (rs : List Request) (c : Command) (p : Program) (f tempname : Text) (s : Files)
      → AreValid rs
      → length rs ≤ maxsyms
      → AreLogic rs
      → set_options (map spell rs) initial_command ≡ ok c
      → last_output rs none ≡ some f
      → str_eq f (codes "-") ≡ false
      → can_open f ≡ true
      → is_same (some f) f ≡ true
      → make_temporary
          (template can_open can_write is_same make_temporary filename_max (directory f))
        ≡ some tempname
      → tempname ≢ f
      → IsPlainC c.settings p
      → Fits 0 (source c.settings p)
      → let q = resolve (codes "\n") (source c.settings p) in
        (main can_open can_write is_same make_temporary filename_max (map spell rs) (f ∷ [])
          ≡ ok (record { command = c; filename = some f; target = to_temporary tempname f }))
        × ((r : ℕ × Files) × (end_program calls
                (to_temporary tempname f)
                (unifdef c.options c.settings (file p []))
                s
              ≡ some r)
            × Edits calls f (texts q) s r)
        × Undecided q
        × ((others : Text → Option ℕ)
            → compiled (true_value c.settings others) q ≡ compile c.settings others p)
        × ((y : Text) → lookup c.settings.syms y ≡ last_said rs y)
  edit-compiled rs c p f tempname s h l a e o n k i m ne plain fits =
      let d = option-Describes rs c h l e in
      let g = described-defaults rs c d a in
      let (z, ran, w, u, same) =
        unifdef-compiled c.settings [] p (described-textfile rs c d a) plain fits in
      let run : unifdef c.options c.settings (file p []) ≡ ending (finished z) =
        ap (λ o. unifdef o c.settings (file p [])) g ∙ ran in
      let (r, ends, leaves) =
        in_place-Leaves calls law tempname f ne c.options c.settings (file p []) s in
      (
        main-in_place rs c f tempname e (not_given rs c d a compress a.1) (d.file ∙ o) n k i m,
        (r, ends, Leaves-Edits calls f z _ s r w (subst (λ x. Leaves calls f x s r) run leaves)),
        u,
        same,
        λ y. d.names y ∙ first_of-none (last_said rs y),
      )
