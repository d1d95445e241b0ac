-- ===== src/Kconfig/Confdata/Line.antt =====
-- scripts/kconfig/confdata.c: the lines of a .config file. `prefix` is CONFIG_.
use embtoolkit.Base.{
  ℕ, Bool, true, false, ◌&&◌, ◌||◌, [], ◌∷◌, ◌++◌, Option, none, some, Text, codes, ◌==◌,
  if◌then◌else◌, starts, skip,
}
use embtoolkit.Kconfig.Symbol.{SymbolType, unknown, boolean, tristate, int, hex, string, other}
use embtoolkit.Kconfig.Confdata.Escape.{sym_escape_string_value}

-- `strchr(t, c)`: what stands before and behind the first c.
unfoldable pub split_at : ℕ → Text → Option (Text × Text)
split_at c [] = none
split_at c (d ∷ t) =
    if d == c
    then some ([], t)
    else elim (split_at c t) [ none ↦ none | some (a, b) ↦ some (d ∷ a, b) ]

-- `if (*p2 == '\r') *p2 = 0;` at the last character
unfoldable pub strip_return : Text → Text
strip_return [] = []
strip_return (c ∷ []) = if c == 13 then [] else c ∷ []
strip_return (c ∷ d ∷ t) = c ∷ strip_return (d ∷ t)

-- The value behind the '=': up to the newline, if the line has one.
abbrev pub line_value : Text → Text
line_value t = elim (split_at 10 t) [ none ↦ t | some (a, b) ↦ strip_return a ]

-- What a line says: that a symbol is not set, the value of a symbol, or nothing; `unexpected` gets a
-- warning.
pub data Statement : Type 0 where
  is_not_set : Text → Statement
  set_to : Text → Text → Statement
  nothing unexpected : Statement

abbrev pub prefix : Text
prefix = codes "CONFIG_"

abbrev starts_newline : Text → Bool
starts_newline [] = false
starts_newline (c ∷ t) = c == 13 || c == 10

abbrev pub not_set_text : Text
not_set_text = codes "is not set"

abbrev pub comment_statement : Option (Text × Text) → Statement
comment_statement none = nothing
comment_statement (some (name, t)) = if starts not_set_text t then is_not_set name else nothing

abbrev pub value_statement : Option (Text × Text) → Statement
value_statement none = nothing
value_statement (some (name, t)) = set_to name (line_value t)

abbrev is_comment : Text → Bool
is_comment [] = false
is_comment (c ∷ t) = c == 35

-- The loop of conf_read_simple up to the search for the symbol. A line has no NUL in it.
unfoldable pub read_statement : Text → Statement
unfolding split_at strip_return
read_statement line =
    if is_comment line
    then (if starts prefix (skip 2 line)
        then comment_statement (split_at 32 (skip 7 (skip 2 line)))
        else nothing)
    else if starts prefix line
    then value_statement (split_at 61 (skip 7 line))
    else if starts_newline line
    then nothing
    else unexpected

-- kconfig_print_symbol with no `arg`
abbrev pub is_bool : SymbolType → Bool
is_bool boolean = true
is_bool tristate = true
is_bool _ = false

abbrev pub at_n : Text → Bool
at_n [] = false
at_n (c ∷ t) = c == 110

abbrev pub not_set_line : Text → Text
not_set_line name = codes "# " ++ (prefix ++ (name ++ codes " is not set\n"))

abbrev pub value_line : Text → Text → Text
value_line name value = prefix ++ (name ++ (61 ∷ (value ++ (10 ∷ []))))

unfoldable pub kconfig_print_symbol : SymbolType → Text → Text → Text
kconfig_print_symbol k name value =
    if is_bool k && at_n value then not_set_line name else value_line name value

-- conf_write_symbol, with kconfig_printer_cb
unfoldable pub conf_write_symbol : SymbolType → Text → Text → Text
unfolding kconfig_print_symbol sym_escape_string_value
conf_write_symbol unknown name value = []
conf_write_symbol other name value = []
conf_write_symbol string name value =
    kconfig_print_symbol string name (sym_escape_string_value value)
conf_write_symbol boolean name value = kconfig_print_symbol boolean name value
conf_write_symbol tristate name value = kconfig_print_symbol tristate name value
conf_write_symbol int name value = kconfig_print_symbol int name value
conf_write_symbol hex name value = kconfig_print_symbol hex name value
