-- ===== src/Kconfig/Samples.antt =====
-- scripts/kconfig: a small configuration for the tests. FOO (3) is a boolean that is y, BAR (4) a
-- tristate that is m, and MODULES (5) a boolean that is y.
use embtoolkit.Base.{ℕ, zero, suc, ◌≡◌, ◌≢◌, refl, true, false, Bool, [], Text, codes, str_eq}
use embtoolkit.Kconfig.Tristate.{Tristate, tri_no, tri_mod, tri_yes}
use embtoolkit.Kconfig.Symbol.{
  Symbols, SymbolType, unknown, boolean, tristate, Values, HasConstants, IsCalculated,
  sym_get_string_value,
}
use embtoolkit.Kconfig.Expr.Join.Atoms.{IsInterned}

abbrev pub foo : ℕ
foo = 3

abbrev pub bar : ℕ
bar = 4

abbrev pub sample_type : ℕ → SymbolType
sample_type (suc (suc (suc zero))) = boolean
sample_type (suc (suc (suc (suc zero)))) = tristate
sample_type (suc (suc (suc (suc (suc zero))))) = boolean
sample_type _ = unknown

abbrev pub sample_const : ℕ → Bool
sample_const zero = true
sample_const (suc zero) = true
sample_const (suc (suc zero)) = true
sample_const _ = false

abbrev pub sample_symbols : Symbols
sample_symbols = record { sym_type = sample_type; is_const = sample_const; modules_sym = 5 }

abbrev pub sample_tri : ℕ → Tristate
sample_tri zero = tri_no
sample_tri (suc zero) = tri_mod
sample_tri (suc (suc zero)) = tri_yes
sample_tri (suc (suc (suc zero))) = tri_yes
sample_tri (suc (suc (suc (suc zero)))) = tri_mod
sample_tri (suc (suc (suc (suc (suc zero))))) = tri_yes
sample_tri _ = tri_no

abbrev pub sample_val : ℕ → Text
sample_val zero = codes "n"
sample_val (suc zero) = codes "m"
sample_val (suc (suc zero)) = codes "y"
sample_val _ = []

abbrev pub sample_values : Values
sample_values = record { tri = sample_tri; val = sample_val }

abbrev pub sample_constants : HasConstants sample_symbols sample_values
sample_constants = record {
  no_type = refl;
  mod_type = refl;
  yes_type = refl;
  no_tri = refl;
  mod_tri = refl;
  yes_tri = refl;
  no_val = refl;
  mod_val = refl;
  yes_val = refl;
}

pub not_constant : {P : Type 0} (k : ℕ) → sample_const (suc (suc (suc k))) ≡ true → P
not_constant k h = cc

pub sample_boolean : (s : ℕ) → sample_type s ≡ boolean → sample_tri s ≢ tri_mod
sample_boolean zero h = cc
sample_boolean (suc zero) h = cc
sample_boolean (suc (suc zero)) h = cc
sample_boolean (suc (suc (suc zero))) h = cc
sample_boolean (suc (suc (suc (suc zero)))) h = cc
sample_boolean (suc (suc (suc (suc (suc zero))))) h = cc
sample_boolean (suc (suc (suc (suc (suc (suc n)))))) h = cc

pub sample_tristate :
    (s : ℕ) → sample_type s ≡ tristate → sample_tri s ≡ tri_mod → sample_tri 5 ≢ tri_no
sample_tristate s h k = cc

abbrev pub sample-IsCalculated : IsCalculated sample_symbols sample_values
sample-IsCalculated = record {
  constants = sample_constants;
  boolean_value = sample_boolean;
  tristate_value = sample_tristate;
}

pub sample_texts_differ :
    (b c : ℕ)
    → sample_const b ≡ true
    → sample_const c ≡ true
    → b ≢ c
    → str_eq
        (sym_get_string_value sample_symbols sample_values b)
        (sym_get_string_value sample_symbols sample_values c)
      ≡ false
sample_texts_differ zero zero hb hc ne = absurd (ne refl)
sample_texts_differ zero (suc zero) hb hc ne = refl
sample_texts_differ zero (suc (suc zero)) hb hc ne = refl
sample_texts_differ (suc zero) zero hb hc ne = refl
sample_texts_differ (suc zero) (suc zero) hb hc ne = absurd (ne refl)
sample_texts_differ (suc zero) (suc (suc zero)) hb hc ne = refl
sample_texts_differ (suc (suc zero)) zero hb hc ne = refl
sample_texts_differ (suc (suc zero)) (suc zero) hb hc ne = refl
sample_texts_differ (suc (suc zero)) (suc (suc zero)) hb hc ne = absurd (ne refl)
sample_texts_differ zero (suc (suc (suc c))) hb hc ne = not_constant c hc
sample_texts_differ (suc zero) (suc (suc (suc c))) hb hc ne = not_constant c hc
sample_texts_differ (suc (suc zero)) (suc (suc (suc c))) hb hc ne = not_constant c hc
sample_texts_differ (suc (suc (suc b))) c hb hc ne = not_constant b hb

abbrev pub sample-IsInterned : IsInterned sample_symbols sample_values
sample-IsInterned = record { texts_differ = sample_texts_differ }
