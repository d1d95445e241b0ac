-- ===== src/Unifdef.antt =====
-- scripts/unifdef.c: the types of input lines, the states of #if processing, and the table of
-- transitions. The table is written as the source writes it, a row for each state.
pub mod Machine
pub mod Comment
pub mod Depth
pub mod Numbers
pub mod Groups
pub mod Symbols
pub mod Numerals
pub mod Evaluator
pub mod Parseline
pub mod Run
pub mod Main
mod Examples
use embtoolkit.Base.{ℕ, zero, suc, ◌+◌, List, [], ◌∷◌, Option, none, some, get_elem?}

-- LT_TRUEI to LT_ENDIF
pub data Directive : Type 0 where
  truei falsei if_unknown if_true if_false elif_unknown elif_true elif_false else_line endif_line :
      Directive

-- Linetype: `dodgy d` is LT_DODGY + d.
pub data Linetype : Type 0 where
  directive dodgy : Directive → Linetype
  plain eof unevaluable : Linetype

-- Ifstate, without the prefix IS_.
pub data Ifstate : Type 0 where
  outside false_prefix true_prefix pass_middle false_middle true_middle pass_else false_else
        true_else false_trailer :
      Ifstate

-- The state transition functions.
pub data Action : Type 0 where
  eelif eelse eendif eeof eioccc print drop strue sfalse selse pelif pelse pendif dfalse delif delse
        dendif fdrop fpass ftrue ffalse oiffy oif oelif idrop itrue ifalse mpass mtrue melif melse
        done abort :
      Action

abbrev pub directive_index : Directive → ℕ
directive_index truei = 0
directive_index falsei = 1
directive_index if_unknown = 2
directive_index if_true = 3
directive_index if_false = 4
directive_index elif_unknown = 5
directive_index elif_true = 6
directive_index elif_false = 7
directive_index else_line = 8
directive_index endif_line = 9

-- The value of the enumeration, which indexes a row.
abbrev pub line_index : Linetype → ℕ
line_index (directive d) = directive_index d
line_index (dodgy d) = 10 + directive_index d
line_index plain = 20
line_index eof = 21
line_index unevaluable = 22

abbrev pub row : Ifstate → List Action
row outside =
    itrue ∷ ifalse ∷ fpass ∷ ftrue ∷ ffalse ∷ eelif ∷ eelif ∷ eelif ∷ eelse ∷ eendif ∷ oiffy ∷ oiffy
    ∷ fpass ∷ oif ∷ oif ∷ eelif ∷ eelif ∷ eelif ∷ eelse ∷ eendif ∷ print ∷ done ∷ abort ∷ []
row false_prefix =
    idrop ∷ idrop ∷ fdrop ∷ fdrop ∷ fdrop ∷ mpass ∷ strue ∷ sfalse ∷ selse ∷ dendif ∷ idrop ∷ idrop
    ∷ fdrop ∷ fdrop ∷ fdrop ∷ mpass ∷ eioccc ∷ eioccc ∷ eioccc ∷ eioccc ∷ drop ∷ eeof ∷ abort ∷ []
row true_prefix =
    itrue ∷ ifalse ∷ fpass ∷ ftrue ∷ ffalse ∷ dfalse ∷ dfalse ∷ dfalse ∷ delse ∷ dendif ∷ oiffy
    ∷ oiffy ∷ fpass ∷ oif ∷ oif ∷ eioccc ∷ eioccc ∷ eioccc ∷ eioccc ∷ eioccc ∷ print ∷ eeof ∷ abort
    ∷ []
row pass_middle =
    itrue ∷ ifalse ∷ fpass ∷ ftrue ∷ ffalse ∷ pelif ∷ mtrue ∷ delif ∷ pelse ∷ pendif ∷ oiffy ∷ oiffy
    ∷ fpass ∷ oif ∷ oif ∷ pelif ∷ oelif ∷ oelif ∷ pelse ∷ pendif ∷ print ∷ eeof ∷ abort ∷ []
row false_middle =
    idrop ∷ idrop ∷ fdrop ∷ fdrop ∷ fdrop ∷ pelif ∷ mtrue ∷ delif ∷ pelse ∷ pendif ∷ idrop ∷ idrop
    ∷ fdrop ∷ fdrop ∷ fdrop ∷ eioccc ∷ eioccc ∷ eioccc ∷ eioccc ∷ eioccc ∷ drop ∷ eeof ∷ abort ∷ []
row true_middle =
    itrue ∷ ifalse ∷ fpass ∷ ftrue ∷ ffalse ∷ melif ∷ melif ∷ melif ∷ melse ∷ pendif ∷ oiffy ∷ oiffy
    ∷ fpass ∷ oif ∷ oif ∷ eioccc ∷ eioccc ∷ eioccc ∷ eioccc ∷ pendif ∷ print ∷ eeof ∷ abort ∷ []
row pass_else =
    itrue ∷ ifalse ∷ fpass ∷ ftrue ∷ ffalse ∷ eelif ∷ eelif ∷ eelif ∷ eelse ∷ pendif ∷ oiffy ∷ oiffy
    ∷ fpass ∷ oif ∷ oif ∷ eelif ∷ eelif ∷ eelif ∷ eelse ∷ pendif ∷ print ∷ eeof ∷ abort ∷ []
row false_else =
    idrop ∷ idrop ∷ fdrop ∷ fdrop ∷ fdrop ∷ eelif ∷ eelif ∷ eelif ∷ eelse ∷ dendif ∷ idrop ∷ idrop
    ∷ fdrop ∷ fdrop ∷ fdrop ∷ eelif ∷ eelif ∷ eelif ∷ eelse ∷ eioccc ∷ drop ∷ eeof ∷ abort ∷ []
row true_else =
    itrue ∷ ifalse ∷ fpass ∷ ftrue ∷ ffalse ∷ eelif ∷ eelif ∷ eelif ∷ eelse ∷ dendif ∷ oiffy ∷ oiffy
    ∷ fpass ∷ oif ∷ oif ∷ eelif ∷ eelif ∷ eelif ∷ eelse ∷ eioccc ∷ print ∷ eeof ∷ abort ∷ []
row false_trailer =
    idrop ∷ idrop ∷ fdrop ∷ fdrop ∷ fdrop ∷ dfalse ∷ dfalse ∷ dfalse ∷ delse ∷ dendif ∷ idrop
    ∷ idrop ∷ fdrop ∷ fdrop ∷ fdrop ∷ dfalse ∷ dfalse ∷ dfalse ∷ delse ∷ eioccc ∷ drop ∷ eeof
    ∷ abort ∷ []

abbrev action_or : Option Action → Action
action_or none = abort
action_or (some a) = a

-- trans_table[state][line]
abbrev pub transition : Ifstate → Linetype → Action
transition state line = action_or (get_elem? (row state) (line_index line))
