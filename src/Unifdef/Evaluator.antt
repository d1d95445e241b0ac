-- ===== src/Unifdef/Evaluator.antt =====
-- scripts/unifdef.c: the evaluator of #if expressions, without -s. Each call returns the text that is
-- left, with the globals that skipcomment keeps and `constexpr`.
mod Operations
pub mod Skip
pub mod Syntax
pub mod Values
pub mod Reads
pub mod Names
pub mod Operators
pub mod Levels
pub mod Expressions
pub mod Ifeval
pub mod Total
pub mod Innermost
pub mod Ends
unfoldable pub use Operations.*
use embtoolkit.Base.{
  ℕ, zero, suc, ◌+◌, ◌-◌, ◌*◌, Bool, true, false, not, ◌&&◌, ◌||◌, List, [], ◌∷◌, Option, none,
  some, Text, codes, ◌==◌, if◌then◌else◌, starts, skip, length,
}
use embtoolkit.Unifdef.Comment.{
  Comment, char_literal, string_literal, Linestate, at, Skipped, skipped, bad_char, bad_string,
  skipcomment,
}
use embtoolkit.Unifdef.Symbols.{between, endsym, skipsym, Symbol, findsym}
use embtoolkit.Unifdef.Numerals.{strtol}

-- `incomment`, `linestate`, `constexpr`, and the text at `cp`.
pub record Cursor : Type 0 where
  pub incomment : Comment
  pub linestate : Linestate
  pub constexpr : Bool
  pub cp : Text

-- LT_ERROR keeps what the globals are; `fatal` is a call of error() by skipcomment. `out_of_fuel` has
-- no counterpart.
pub data Result {ℓ} (A : Type ℓ) : Type ℓ where
  ok : A → Result A
  lt_error : Cursor → Result A
  fatal : Comment → Result A
  out_of_fuel : Result A

abbrev pub bind {ℓ κ} : {A : Type ℓ} {B : Type κ} → Result A → (A → Result B) → Result B
bind (ok a) f = f a
bind (lt_error c) f = lt_error c
bind (fatal k) f = fatal k
bind out_of_fuel f = out_of_fuel

-- `cp += n`
abbrev pub advance : ℕ → Cursor → Cursor
advance n c = record c { cp = skip n c.cp }

abbrev pub skipping : Cursor → Option Skipped → Result Cursor
skipping c none = out_of_fuel
skipping c (some (skipped k l t)) = ok (record c { incomment = k; linestate = l; cp = t })
skipping c (some bad_char) = fatal char_literal
skipping c (some bad_string) = fatal string_literal

-- The cases of eval_unary
pub data Primary : Type 0 where
  bang paren number is_defined symbol bad_expr : Primary

abbrev pub is_digit : Text → Bool
is_digit [] = false
is_digit (c ∷ cp) = between 48 57 c

unfoldable pub primary : Text → Primary
primary cp =
    if at 33 cp
    then bang
    else if at 40 cp
    then paren
    else if is_digit cp
    then number
    else if starts (codes "defined") cp && endsym (skip 7 cp)
    then is_defined
    else if not (endsym cp)
    then symbol
    else bad_expr

-- The value of an entry of the symbol table: none for LT_ERROR.
abbrev pub at_value_end : Option (ℕ × Text) → Option ℕ
at_value_end (some (v, [])) = some v
at_value_end _ = none

unfoldable pub symbol_value : Option Text → Option ℕ
unfolding strtol
symbol_value none = some 0
symbol_value (some t) = at_value_end (strtol t)

-- skipargs looks behind a symbol that has a value, or that is not known.
abbrev pub has_args : Option Symbol → Bool
has_args none = true
has_args (some s) = elim s.value [ none ↦ false | some t ↦ true ]

abbrev pub next_level : Text → ℕ → ℕ
next_level cp level = if at 40 cp then level + 1 else if at 41 cp then level - 1 else level

-- A number, at a digit.
abbrev pub eval_number : Cursor → Option (ℕ × Text) → Result (Value × Cursor)
eval_number c none = lt_error c
eval_number c (some (v, ep)) = ok ((truth v, v), record c { cp = skipsym c.cp })

abbrev pub defined_value : ℕ → Option Symbol → Value
defined_value val none = (lt_if, val)
defined_value val (some s) =
    let v = to_int (elim s.value [ none ↦ false | some t ↦ true ]) in (truth v, v)

-- The end of the symbol case
abbrev pub end_symbol : Value → Cursor → Result (Value × Cursor)
end_symbol v c = ok (v, record c { constexpr = false })

-- What eval_table returns, for ifeval.
abbrev pub conclude : Cursor → Result (Value × Cursor) → Result (Truth × Cursor)
conclude c (ok ((lt, v), c')) = ok (if c'.constexpr then lt_if else lt, c')
conclude c (lt_error c') = ok (lt_if, record c' { cp = c.cp })
conclude c (fatal k) = fatal k
conclude c out_of_fuel = out_of_fuel

-- Six calls for every character, and six more.
abbrev pub enough : Text → ℕ
enough cp = 6 * length cp + 6

module _ (plain : Bool) where
  -- skipcomment, with the fuel that is enough for it; `plain` is `text || ignoring[depth]`.
  unfoldable pub skip_at : Cursor → Result Cursor
  unfolding skipcomment
  skip_at c = skipping c (skipcomment (2 * length c.cp + 1) plain c.incomment c.linestate c.cp)

  -- The loop of skipargs, at a character; `ocp` is where it goes back to.
  unfoldable pub args_loop : ℕ → ℕ → Text → Cursor → Result Cursor
  unfolding skip_at
  args_loop zero level ocp c = out_of_fuel
  args_loop (suc f) level ocp c =
      let level' = next_level c.cp level in
      bind (skip_at (advance 1 c)) λ c'. elim (level' == 0) [
        | true ↦ ok c'
        | false ↦ elim (c'.cp) [
          | [] ↦ ok (record c' { cp = ocp })
          | ◌∷◌ _ _ ↦ args_loop f level' ocp c'
        ]
      ]

  unfoldable pub skipargs : Cursor → Result Cursor
  unfolding args_loop
  skipargs c =
      bind (skip_at c) λ c'. if at 40 c'.cp then args_loop (length c'.cp) 0 c.cp c' else ok c'

  module _ (syms : List Symbol) (strictlogic : Bool) where
    -- From findsym on, in or not in parentheses.
    unfoldable pub eval_defined : ℕ → Bool → Cursor → Result (Value × Cursor)
    eval_defined val defparen c =
        let v = defined_value val (findsym syms c.cp) in
        bind (skip_at (record c { cp = skipsym c.cp })) λ c'.
          if defparen
          then (if at 41 c'.cp
              then ok (v, record (advance 1 c') { constexpr = false })
              else lt_error c')
          else ok (v, record c' { constexpr = false })

    -- A symbol, with what findsym found.
    unfoldable pub eval_symbol : ℕ → Option Symbol → Cursor → Result (Value × Cursor)
    unfolding symbol_value skipargs
    eval_symbol val none c =
        bind (skipargs (record c { cp = skipsym c.cp })) (end_symbol (lt_if, val))
    eval_symbol val (some s) c = elim (symbol_value s.value) [
      | none ↦ lt_error c
      | some v ↦
          let c' : Cursor = record c { cp = skipsym c.cp } in
          elim (has_args (some s)) [
            | false ↦ end_symbol (truth v, v) c'
            | true ↦ bind (skipargs c') (end_symbol (truth v, v))
          ]
    ]

    -- eval_unary from the first character on; `again` is the evaluation of what is inside.
    unfoldable pub eval_primary :
        (List (List Op) → ℕ → Cursor → Result (Value × Cursor))
        → ℕ
        → Cursor
        → Primary
        → Result (Value × Cursor)
    unfolding skip_at eval_defined eval_symbol findsym strtol
    eval_primary again val c bang = bind (again [] val (advance 1 c)) λ (v, c'). ok (negate v, c')
    eval_primary again val c paren = bind (again eval_ops val (advance 1 c)) λ (v, c').
        bind (skip_at c') λ c''. if at 41 c''.cp then ok (v, advance 1 c'') else lt_error c''
    eval_primary again val c number = eval_number c (strtol c.cp)
    eval_primary again val c is_defined = bind (skip_at (advance 7 c)) λ c'.
        if at 40 c'.cp
        then bind (skip_at (advance 1 c')) (eval_defined val true)
        else eval_defined val false c'
    eval_primary again val c symbol = eval_symbol val (findsym syms c.cp) c
    eval_primary again val c bad_expr = lt_error c

    -- eval_level (row ∷ inner) is eval_table at the row, with the rows of the inner function behind
    -- it; eval_level [] is eval_unary; eval_loop is the loop of eval_table.
    unfoldable mutual
      unfolding skip_at find_op primary eval_primary

      pub eval_level : ℕ → List (List Op) → ℕ → Cursor → Result (Value × Cursor)
      eval_level zero rows val c = out_of_fuel
      eval_level (suc f) [] val c =
          bind (skip_at c) λ c'. eval_primary (eval_level f) val c' (primary c'.cp)
      eval_level (suc f) (row ∷ inner) val c =
          bind (eval_level f inner val c) λ (v, c'). eval_loop f row inner v c'

      pub eval_loop : ℕ → List Op → List (List Op) → Value → Cursor → Result (Value × Cursor)
      eval_loop zero row inner v c = out_of_fuel
      eval_loop (suc f) row inner v c = bind (skip_at c) λ c'. elim (find_op row c'.cp) [
        | none ↦ ok (v, c')
        | some op ↦
            bind (eval_level f inner 0 (advance (length (str op)) c'))
              λ (w, c''). eval_loop f row inner (op_fn strictlogic op v w) c''
      ]

    -- ifeval, with -k as `killconsts`.
    unfoldable pub ifeval : Bool → Cursor → Result (Truth × Cursor)
    unfolding eval_level
    ifeval killconsts c =
        conclude c (eval_level (enough c.cp) eval_ops 0 (record c { constexpr = not killconsts }))
