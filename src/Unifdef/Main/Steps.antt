-- ===== src/Unifdef/Main/Steps.antt =====
-- scripts/unifdef.c: one option.
use embtoolkit.Base.{
  suc, ◌<◌, ◌≤◌, ◌≡◌, subst, refl, sym, ap, ◌∙◌, Bool, true, false, ◌||◌, List, [], ◌∷◌, ◌++◌,
  Option, none, some, Text, length, arith, append-nil,
}
use embtoolkit.Unifdef.Symbols.{Symbol, maxsyms, endsym, value_of}
use embtoolkit.Unifdef.Symbols.Words.{lookup}
use embtoolkit.Unifdef.Main.{Command, Result, ok, set_option, add_option}
use embtoolkit.Unifdef.Main.Symbols.{first_of, entry_for, IsSymbolName, addsym-lookup}
use embtoolkit.Unifdef.Main.Requests.{
  Switch, blank, old_blank, compress, complement, debugging, iocccok, strictlogic, killconsts,
  lnnum, textfile, Request, define, undefine, switch, include_path, output_file, spell, or_one,
  says, variable, sets, IsValid,
}

-- What a command is after one option.
abbrev pub next_output : Request → Option Text → Option Text
next_output (output_file g) f = some g
next_output _ f = f

pub record Follows (r : Request) (c d : Command) : Type 0 where
  pub names : (y : Text) → lookup d.settings.syms y ≡ first_of (says r y) (lookup c.settings.syms y)
  pub room : length d.settings.syms ≤ suc (length c.settings.syms)
  pub unlisted : d.options.symlist ≡ c.options.symlist
  pub newline : d.options.newline ≡ c.options.newline
  pub variables : (t : Switch) → variable t d ≡ (sets r t || variable t c)
  pub file : d.ofilename ≡ next_output r c.ofilename

-- The command with another table
abbrev with_table : Command → List Symbol → Command
with_table c ss = record c { settings = record c.settings { syms = ss } }

Adds : Symbol → Command → Result Command → Type 0
Adds s c a =
    (ss : List Symbol) × (a ≡ ok (with_table c ss))
    × (length ss ≤ suc (length c.settings.syms))
    × ((y : Text) → lookup ss y ≡ first_of (entry_for s y) (lookup c.settings.syms y))

add_option-Adds :
    (i d : Bool) (x r : Text) (v : Option Text) (c : Command)
    → IsSymbolName x
    → endsym r ≡ true
    → value_of d r ≡ some v
    → c.options.symlist ≡ false
    → length c.settings.syms < maxsyms
    → Adds (record { symname = x; value = v; ignore = i }) c (add_option i d (x ++ r) c)
unfolding add_option Adds
add_option-Adds i d x r v c h k w u l =
    let (ss, e, n, f) = addsym-lookup i d x r v c.settings.syms h k w l in (ss, simp (u, e), n, f)

-- The same without anything behind the name
add_option-Adds_name :
    (i d : Bool) (x : Text) (v : Option Text) (c : Command)
    → IsSymbolName x
    → value_of d [] ≡ some v
    → c.options.symlist ≡ false
    → length c.settings.syms < maxsyms
    → Adds (record { symname = x; value = v; ignore = i }) c (add_option i d x c)
add_option-Adds_name i d x v c h w u l =
    subst (λ t. Adds (record { symname = x; value = v; ignore = i }) c (add_option i d t c))
      (append-nil x) (add_option-Adds i d x [] v c h refl w u l)

-- A definition, and an option that leaves the table.
define-Adds :
    (i : Bool) (x : Text) (v : Option Text) (c : Command)
    → IsSymbolName x
    → c.options.symlist ≡ false
    → length c.settings.syms < maxsyms
    → Adds
        (record { symname = x; value = some (or_one v); ignore = i })
        c
        (set_option (spell (define i x v)) c)
unfolding set_option
define-Adds false x none c h u l = add_option-Adds_name false true x _ c h refl u l
define-Adds true x none c h u l = add_option-Adds_name true true x _ c h refl u l
define-Adds false x (some v) c h u l = add_option-Adds false true x (61 ∷ v) _ c h refl refl u l
define-Adds true x (some v) c h u l = add_option-Adds true true x (61 ∷ v) _ c h refl refl u l

undefine-Adds :
    (i : Bool) (x : Text) (c : Command)
    → IsSymbolName x
    → c.options.symlist ≡ false
    → length c.settings.syms < maxsyms
    → Adds
        (record { symname = x; value = none; ignore = i })
        c
        (set_option (spell (undefine i x)) c)
unfolding set_option
undefine-Adds false x c h u l = add_option-Adds_name false false x none c h refl u l
undefine-Adds true x c h u l = add_option-Adds_name true false x none c h refl u l

abbrev pub Goes : Request → Command → Type 0
Goes r c = (d : Command) × (set_option (spell r) c ≡ ok d) × Follows r c d

-- The command after a switch
abbrev switched : Switch → Command → Command
switched blank c = record c { options = record c.options { lnblank = true } }
switched old_blank c = record c { options = record c.options { lnblank = true } }
switched compress c = record c { options = record c.options { compblank = true } }
switched complement c = record c { options = record c.options { complement = true } }
switched debugging c = record c { debugging = true }
switched iocccok c = record c { options = record c.options { iocccok = true } }
switched strictlogic c = record c { settings = record c.settings { strictlogic = true } }
switched killconsts c = record c { settings = record c.settings { killconsts = true } }
switched lnnum c = record c { options = record c.options { lnnum = true } }
switched textfile c = record c { settings = record c.settings { textfile = true } }

-- All pairs of switches: the first three clauses make the split.
switched-variable :
    (s t : Switch) (c : Command) → variable t (switched s c) ≡ (sets (switch s) t || variable t c)
switched-variable blank blank c = refl
switched-variable s blank c = refl
switched-variable blank t c = refl
switched-variable s t c = refl

switch-Goes : (s : Switch) (c : Command) → Goes (switch s) c
unfolding set_option
switch-Goes blank c = (
  switched blank c,
  refl,
  record {
    names = λ y. refl;
    room = omega arith;
    unlisted = refl;
    newline = refl;
    variables = λ t. switched-variable blank t c;
    file = refl;
  },
)
switch-Goes s c = (
  switched s c,
  refl,
  record {
    names = λ y. refl;
    room = omega arith;
    unlisted = refl;
    newline = refl;
    variables = λ t. switched-variable s t c;
    file = refl;
  },
)

with_table-variable :
    (t : Switch) (c : Command) (ss : List Symbol) → variable t (with_table c ss) ≡ variable t c
with_table-variable blank c ss = refl
with_table-variable t c ss = refl

output-variable :
    (t : Switch) (c : Command) (f : Option Text)
    → variable t (record c { ofilename = f }) ≡ variable t c
output-variable blank c f = refl
output-variable t c f = refl

-- An option that says of a name what its entry says.
Adds-Goes :
    (r : Request) (s : Symbol) (c : Command)
    → ((y : Text) → says r y ≡ entry_for s y)
    → ((t : Switch) → sets r t ≡ false)
    → next_output r c.ofilename ≡ c.ofilename
    → Adds s c (set_option (spell r) c)
    → Goes r c
unfolding Adds
Adds-Goes r s c k v o (ss, e, n, f) = (
  with_table c ss,
  e,
  record {
    names = λ y. f y ∙ ap (λ m. first_of m (lookup c.settings.syms y)) (sym (k y));
    room = n;
    unlisted = refl;
    newline = refl;
    variables = λ t. with_table-variable t c ss ∙ ap (λ b. b || variable t c) (sym (v t));
    file = sym o;
  },
)

pub set_option-Goes :
    (r : Request) (c : Command)
    → IsValid r
    → c.options.symlist ≡ false
    → length c.settings.syms < maxsyms
    → Goes r c
unfolding set_option
set_option-Goes (define i x v) c h u l =
    Adds-Goes _ _ c (λ y. refl) (λ t. refl) refl (define-Adds i x v c h u l)
set_option-Goes (undefine i x) c h u l =
    Adds-Goes _ _ c (λ y. refl) (λ t. refl) refl (undefine-Adds i x c h u l)
set_option-Goes (switch s) c h u l = switch-Goes s c
set_option-Goes (include_path p) c h u l = (
  c,
  refl,
  record {
    names = λ y. refl;
    room = omega arith;
    unlisted = refl;
    newline = refl;
    variables = λ t. refl;
    file = refl;
  },
)
set_option-Goes (output_file f) c h u l = (
  record c { ofilename = some f },
  refl,
  record {
    names = λ y. refl;
    room = omega arith;
    unlisted = refl;
    newline = refl;
    variables = λ t. output-variable t c (some f);
    file = refl;
  },
)
