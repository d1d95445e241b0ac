-- ===== src/Kconfig/Text/Examples.antt =====
-- scripts/kconfig/symbol.c: texts of numbers.
use embtoolkit.Base.{◌≡◌, refl, false, codes}
use embtoolkit.Kconfig.Symbol.{int}
use embtoolkit.Kconfig.Text.{sym_string_valid}

sym_string_valid-zeros : sym_string_valid int (codes "-07") ≡ false
unfolding sym_string_valid
sym_string_valid-zeros = refl
