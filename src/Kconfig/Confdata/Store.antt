-- ===== src/Kconfig/Confdata/Store.antt =====
-- scripts/kconfig/confdata.c: what reading a .config file leaves in the symbols, for S_DEF_USER.
use embtoolkit.Base.{
  ℕ, ◌+◌, Bool, true, false, ◌&&◌, List, [], ◌∷◌, Option, none, some, Text, ◌==◌, if◌then◌else◌,
  str_eq,
}
use embtoolkit.Kconfig.Tristate.{Tristate, tri_no, tri_mod, tri_yes, expr_or, tri_eq}
use embtoolkit.Kconfig.Symbol.{SymbolType, unknown, boolean, tristate, int, hex, string, other}
use embtoolkit.Kconfig.Text.{sym_string_valid}
use embtoolkit.Kconfig.Confdata.Escape.{unquote}
use embtoolkit.Kconfig.Confdata.Line.{
  Statement, is_not_set, set_to, nothing, unexpected, read_statement,
}

-- Of a symbol: its type, `def[S_DEF_USER]`, and the flag of it.
pub record Slot : Type 0 where
  pub sym_type : SymbolType
  pub tri : Tristate
  pub val : Option Text
  pub is_set : Bool

abbrev pub first : Text → ℕ
first [] = 0
first (c ∷ t) = c

-- The result of conf_set_sym_val: the symbol, and whether the value was refused.
abbrev pub Assigned : Type 0
Assigned = Slot × Bool

abbrev pub set_tri : Slot → Tristate → Assigned
set_tri s t = (record s { tri = t; is_set = true }, false)

-- From the label `done`
abbrev pub set_val : Slot → Text → Assigned
set_val s p =
    if sym_string_valid s.sym_type p
    then (record s { val = some p; is_set = true }, false)
    else (s, true)

abbrev pub set_boolean : Slot → Text → Assigned
set_boolean s p =
    if first p == 121
    then set_tri s tri_yes
    else if first p == 110
    then set_tri s tri_no
    else (s, true)

abbrev pub set_unquoted : Slot → Option Text → Assigned
set_unquoted s none = (s, true)
set_unquoted s (some p) = set_val s p

abbrev pub set_string : Slot → Text → Assigned
set_string s [] = (s, false)
set_string s (c ∷ p) = if c == 34 then set_unquoted s (unquote p) else (s, false)

-- conf_set_sym_val
abbrev pub set_typed : SymbolType → Slot → Text → Assigned
set_typed tristate s p = if first p == 109 then set_tri s tri_mod else set_boolean s p
set_typed boolean s p = set_boolean s p
set_typed other s p =
    if first p == 34 then set_string s p else set_val (record s { sym_type = string }) p
set_typed string s p = set_string s p
set_typed int s p = set_val s p
set_typed hex s p = set_val s p
set_typed unknown s p = (s, false)

unfoldable pub conf_set_sym_val : Slot → Text → Assigned
unfolding sym_string_valid unquote
conf_set_sym_val s p = set_typed s.sym_type s p

-- Of a choice: `def[S_DEF_USER]` and the flag.
pub record ChoiceSlot : Type 0 where
  pub tri : Tristate
  pub chosen : Option Text
  pub is_set : Bool

-- The symbols by name, with those that sym_find knows, and the choices by number.
pub record Store : Type 0 where
  pub known : Text → Bool
  pub slots : Text → Slot
  pub choice_of : Text → Option ℕ
  pub choices : ℕ → ChoiceSlot
  pub change_count : ℕ

abbrev pub put : {A : Type 0} → (Text → A) → Text → A → Text → A
put f name a n = if str_eq n name then a else f n

-- From the label `setsym`, for a value of a choice.
abbrev pub join_choice : ChoiceSlot → Text → Tristate → ChoiceSlot
join_choice c name tri_no = record c { tri = expr_or c.tri tri_no }
join_choice c name tri_mod = record c {
  is_set = if tri_eq c.tri tri_yes then false else c.is_set;
  tri = expr_or c.tri tri_mod;
}
join_choice c name tri_yes = record c { chosen = some name; tri = expr_or c.tri tri_yes }

abbrev pub set_choice : Store → Text → Option ℕ → Store
set_choice s name none = s
set_choice s name (some i) = record s {
  choices = λ k. if k == i then join_choice (s.choices i) name (s.slots name).tri else s.choices k;
}

-- A symbol that sym_find does not know only counts as a change.
abbrev pub at_symbol : (Slot → Assigned) → Store → Text → Store
at_symbol f s name =
    if s.known name
    then (let r = f (s.slots name) in
        let t = record s { slots = put s.slots name r.0 } in
        if r.1 then t else set_choice t name (s.choice_of name))
    else record s { change_count = s.change_count + 1 }

abbrev pub unset_typed : SymbolType → Slot → Assigned
unset_typed boolean s = set_tri s tri_no
unset_typed tristate s = set_tri s tri_no
unset_typed _ s = (s, false)

abbrev pub unset : Slot → Assigned
unset s = unset_typed s.sym_type s

abbrev pub follow_statement : Statement → Store → Store
follow_statement (is_not_set name) s = at_symbol unset s name
follow_statement (set_to name value) s = at_symbol (λ slot. conf_set_sym_val slot value) s name
follow_statement nothing s = s
follow_statement unexpected s = s

-- A round of the loop of conf_read_simple; the warnings have no counterpart.
unfoldable pub read_line : Text → Store → Store
unfolding conf_set_sym_val read_statement
read_line line s = follow_statement (read_statement line) s

unfoldable pub read_lines : List Text → Store → Store
unfolding read_line
read_lines [] s = s
read_lines (l ∷ ls) s = read_lines ls (read_line l s)

-- for_all_symbols passes over the type S_OTHER.
abbrev pub is_other : SymbolType → Bool
is_other other = true
is_other _ = false

abbrev pub reset_slot : Slot → Slot
reset_slot s =
    let kept = is_other s.sym_type in
    record s {
      tri = if kept then s.tri else tri_no;
      val = if kept then s.val else none;
      is_set = kept && s.is_set;
    }

-- The loop before: no symbol is set but those that it passes over, and every choice is.
unfoldable pub reset : Store → Store
reset s = record s {
  slots = λ name. reset_slot (s.slots name);
  choices = λ i. record { tri = tri_no; chosen = none; is_set = true };
}
