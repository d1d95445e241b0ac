-- ===== src/Kconfig/Symbol.antt =====
-- scripts/kconfig/expr.h and symbol.c: symbols as the expressions see them. A symbol is the address
-- of its `struct symbol`; what the expressions read of the structs is a table over the addresses,
-- and what sym_calc_value leaves in `curr` is a second one.
use embtoolkit.Base.{ℕ, ◌≡◌, ◌≢◌, Bool, true, false, arith, Text, codes, str_eq}
use embtoolkit.Kconfig.Tristate.{Tristate, tri_no, tri_mod, tri_yes, tri_eq}

-- enum symbol_type
pub data SymbolType : Type 0 where
  unknown boolean tristate int hex string other : SymbolType

-- The addresses of the three constants.
abbrev pub symbol_no : ℕ
symbol_no = 0

abbrev pub symbol_mod : ℕ
symbol_mod = 1

abbrev pub symbol_yes : ℕ
symbol_yes = 2

-- The fields of `struct symbol` that parsing fixes: `type`, and `flags & SYMBOL_CONST`.
pub record Symbols : Type 0 where
  pub sym_type : ℕ → SymbolType
  pub is_const : ℕ → Bool
  pub modules_sym : ℕ

-- `curr` of each symbol: the tristate and the text.
pub record Values : Type 0 where
  pub tri : ℕ → Tristate
  pub val : ℕ → Text

-- `modules_sym->curr.tri == no ? "n" : "m"`
abbrev mod_text : Tristate → Text
mod_text tri_no = codes "n"
mod_text tri_mod = codes "m"
mod_text tri_yes = codes "m"

abbrev tristate_text : Tristate → Tristate → Text
tristate_text modules tri_no = codes "n"
tristate_text modules tri_mod = mod_text modules
tristate_text modules tri_yes = codes "y"

abbrev string_value_of : SymbolType → Tristate → Tristate → Text → Text
string_value_of boolean modules t text = tristate_text modules t
string_value_of tristate modules t text = tristate_text modules t
string_value_of _ modules t text = text

-- sym_get_string_value
abbrev pub sym_get_string_value : Symbols → Values → ℕ → Text
sym_get_string_value st v sym =
    string_value_of (st.sym_type sym) (v.tri st.modules_sym) (v.tri sym) (v.val sym)

-- The constants, as symbol.c defines them: their type is S_UNKNOWN.
pub record HasConstants (st : Symbols) (v : Values) : Type 0 where
  pub no_type : st.sym_type symbol_no ≡ unknown
  pub mod_type : st.sym_type symbol_mod ≡ unknown
  pub yes_type : st.sym_type symbol_yes ≡ unknown
  pub no_tri : v.tri symbol_no ≡ tri_no
  pub mod_tri : v.tri symbol_mod ≡ tri_mod
  pub yes_tri : v.tri symbol_yes ≡ tri_yes
  pub no_val : v.val symbol_no ≡ codes "n"
  pub mod_val : v.val symbol_mod ≡ codes "m"
  pub yes_val : v.val symbol_yes ≡ codes "y"

-- What sym_calc_value ensures of `curr` by its last step: no boolean has the value m, and a
-- tristate has it only while the modules symbol is not n.
pub record IsCalculated (st : Symbols) (v : Values) : Type 0 where
  pub constants : HasConstants st v
  pub boolean_value : (s : ℕ) → st.sym_type s ≡ boolean → v.tri s ≢ tri_mod
  pub tristate_value :
      (s : ℕ) → st.sym_type s ≡ tristate → v.tri s ≡ tri_mod → v.tri st.modules_sym ≢ tri_no

abbrev pub is_bool_type : SymbolType → Bool
is_bool_type boolean = true
is_bool_type tristate = true
is_bool_type _ = false

abbrev pub constant_text : Tristate → Text
constant_text tri_no = codes "n"
constant_text tri_mod = codes "m"
constant_text tri_yes = codes "y"

module _ (st : Symbols) (v : Values) (calc : IsCalculated st v) (s : ℕ) where
  -- For a boolean or tristate symbol a comparison with a constant's text compares the values.
  pub constant_test :
      (k : ℕ) (c : Tristate)
      → is_bool_type (st.sym_type s) ≡ true
      → st.sym_type k ≡ unknown
      → v.val k ≡ constant_text c
      → str_eq (sym_get_string_value st v s) (sym_get_string_value st v k) ≡ tri_eq (v.tri s) c
  constant_test k c h kt kv = ground (arith, calc.boolean_value s, calc.tristate_value s)
