-- ===== src/Kconfig/Confdata/RoundTrip.antt =====
-- scripts/kconfig/confdata.c: reading the lines that were written restores the values.
use embtoolkit.Base.{◌≡◌, refl, ap, true, ◌&&◌, [], some, Text, if◌then◌else◌, inl, inr}
use embtoolkit.Kconfig.Symbol.{
  SymbolType, unknown, boolean, tristate, int, hex, string, other, constant_text,
}
use embtoolkit.Kconfig.Text.{sym_string_valid}
use embtoolkit.Kconfig.Confdata.Escape.{sym_escape_string_value, unquote-escape}
use embtoolkit.Kconfig.Confdata.Line.{is_bool, at_n}
use embtoolkit.Kconfig.Confdata.Statement.{IsValue, shown}
use embtoolkit.Kconfig.Confdata.Store.{
  Slot, Assigned, set_unquoted, set_typed, conf_set_sym_val, unset,
}

-- The symbol has this value.
abbrev pub Represents : SymbolType → Text → Slot → Type 0
Represents boolean value s =
    (s.sym_type ≡ boolean) × (s.is_set ≡ true) × (value ≡ constant_text s.tri)
Represents tristate value s =
    (s.sym_type ≡ tristate) × (s.is_set ≡ true) × (value ≡ constant_text s.tri)
Represents k value s = (s.sym_type ≡ k) × (s.is_set ≡ true) × (s.val ≡ some value)

-- What a statement does to its symbol.
abbrev pub assign_of : SymbolType → Text → Slot → Assigned
assign_of k value s =
    if is_bool k && at_n value then unset s else conf_set_sym_val s (shown k value)

set_string-escaped :
    (s : Slot) (value : Text)
    → set_typed string s (sym_escape_string_value value) ≡ set_unquoted s (some value)
unfolding sym_escape_string_value
set_string-escaped s value = ap (set_unquoted s) (unquote-escape value [])

pub assign_of-Represents :
    (k : SymbolType) (value : Text) (s : Slot)
    → s.sym_type ≡ k
    → IsValue k value
    → Represents k value (assign_of k value s).0
unfolding conf_set_sym_val sym_string_valid
assign_of-Represents boolean value s t (inl e) = simp (t, e) (refl, refl, refl)
assign_of-Represents boolean value s t (inr e) = simp (t, e) (refl, refl, refl)
assign_of-Represents tristate value s t (inl e) = simp (t, e) (refl, refl, refl)
assign_of-Represents tristate value s t (inr (inl e)) = simp (t, e) (refl, refl, refl)
assign_of-Represents tristate value s t (inr (inr e)) = simp (t, e) (refl, refl, refl)
assign_of-Represents string value s t h = simp (t, set_string-escaped) (refl, refl, refl)
assign_of-Represents int value s t h = simp (t, h) (refl, refl, refl)
assign_of-Represents hex value s t h = simp (t, h) (refl, refl, refl)
assign_of-Represents unknown value s t h = absurd h
assign_of-Represents other value s t h = absurd h
