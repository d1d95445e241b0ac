-- ===== src/Kconfig/Text.antt =====
-- scripts/kconfig/symbol.c: which texts are values of a symbol. A text ends where the source has its NUL.
mod Examples
use embtoolkit.Base.{
  ℕ, ◌≡◌, refl, Bool, true, false, not, List, [], ◌∷◌, ◌&&◌, ◌||◌, ◌==◌, ltb, if◌then◌else◌, Text,
  Bool-cases, inl, inr, arith,
}
use embtoolkit.Kconfig.Symbol.{SymbolType, unknown, boolean, tristate, int, hex, string, other}

abbrev pub between : ℕ → ℕ → ℕ → Bool
between lo hi c = not (ltb c lo) && not (ltb hi c)

abbrev pub is_digit : ℕ → Bool
is_digit c = between 48 57 c

abbrev pub is_xdigit : ℕ → Bool
is_xdigit c = is_digit c || (between 65 70 c || between 97 102 c)

abbrev pub all_digits : Text → Bool
all_digits [] = true
all_digits (c ∷ t) = is_digit c && all_digits t

abbrev pub all_xdigits : Text → Bool
all_xdigits [] = true
all_xdigits (c ∷ t) = is_xdigit c && all_xdigits t

abbrev is_empty : Text → Bool
is_empty [] = true
is_empty (c ∷ t) = false

-- The S_INT case after the sign.
abbrev valid_number : Text → Bool
valid_number [] = false
valid_number (c ∷ t) = is_digit c && (not (c == 48 && not (is_empty t)) && all_digits t)

abbrev valid_int : Text → Bool
valid_int [] = false
valid_int (c ∷ t) = if c == 45 then valid_number t else valid_number (c ∷ t)

abbrev pub valid_xdigits : Text → Bool
valid_xdigits [] = false
valid_xdigits (c ∷ t) = is_xdigit c && all_xdigits t

-- `str[0] == '0' && (str[1] == 'x' || str[1] == 'X')`
abbrev pub has_prefix : Text → Bool
has_prefix [] = false
has_prefix (c ∷ []) = false
has_prefix (c ∷ d ∷ t) = c == 48 && (d == 120 || d == 88)

abbrev skip_prefix : Text → Text
skip_prefix [] = []
skip_prefix (c ∷ []) = []
skip_prefix (c ∷ d ∷ t) = t

abbrev valid_hex : Text → Bool
valid_hex t = valid_xdigits (if has_prefix t then skip_prefix t else t)

abbrev is_tristate_char : ℕ → Bool
is_tristate_char c = c == 121 || (c == 89 || (c == 109 || (c == 77 || (c == 110 || c == 78))))

abbrev valid_tristate : Text → Bool
valid_tristate [] = false
valid_tristate (c ∷ t) = is_tristate_char c

-- sym_string_valid
unfoldable pub sym_string_valid : SymbolType → Text → Bool
sym_string_valid string t = true
sym_string_valid int t = valid_int t
sym_string_valid hex t = valid_hex t
sym_string_valid boolean t = valid_tristate t
sym_string_valid tristate t = valid_tristate t
sym_string_valid unknown t = false
sym_string_valid other t = false
