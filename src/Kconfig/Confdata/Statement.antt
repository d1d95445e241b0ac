-- ===== src/Kconfig/Confdata/Statement.antt =====
-- scripts/kconfig/confdata.c: what a line says that conf_write_symbol has written.
use embtoolkit.Base.{
  ℕ, ◌≤◌, ◌≡◌, refl, ap, ◌∙◌, Bool, true, false, not, ◌&&◌, [], ◌∷◌, ◌++◌, some, Text, codes, ◌==◌,
  if◌then◌else◌, arith, ◌⊎◌, Bool-cases, inl, inr,
}
use embtoolkit.Kconfig.Symbol.{SymbolType, unknown, boolean, tristate, int, hex, string, other}
use embtoolkit.Kconfig.Text.{
  sym_string_valid, is_digit, is_xdigit, all_digits, all_xdigits, valid_xdigits, has_prefix,
}
use embtoolkit.Kconfig.Confdata.Escape.{is_special, escape, sym_escape_string_value}
use embtoolkit.Kconfig.Confdata.Line.{
  split_at, strip_return, line_value, Statement, is_not_set, set_to, read_statement, not_set_line,
  value_line, comment_statement, value_statement, kconfig_print_symbol, conf_write_symbol, is_bool,
  at_n,
}

-- c does not occur in the text.
abbrev pub lacks : ℕ → Text → Bool
lacks c [] = true
lacks c (d ∷ t) = not (d == c) && lacks c t

split_at-append : (c : ℕ) (a b : Text) → lacks c a ≡ true → split_at c (a ++ (c ∷ b)) ≡ some (a, b)
unfolding split_at
split_at-append c [] b h = ground arith
split_at-append c (d ∷ a) b h = ground (arith, h, split_at-append c a b)

strip_return-last :
    (a : Text) (c : ℕ) → (c == 13) ≡ false → strip_return (a ++ (c ∷ [])) ≡ a ++ (c ∷ [])
unfolding strip_return
strip_return-last [] c h = ground (arith, h)
strip_return-last (d ∷ []) c h = ground (arith, h)
strip_return-last (d ∷ e ∷ a) c h = ap (λ t. d ∷ t) (strip_return-last (e ∷ a) c h)

strip_return-lacks : (a : Text) → lacks 13 a ≡ true → strip_return a ≡ a
unfolding strip_return
strip_return-lacks [] h = refl
strip_return-lacks (c ∷ []) h = ground (arith, h)
strip_return-lacks (c ∷ d ∷ a) h = ground (arith, h, strip_return-lacks (d ∷ a))

line_value-plain :
    (v : Text) → lacks 10 v ≡ true → strip_return v ≡ v → line_value (v ++ (10 ∷ [])) ≡ v
line_value-plain v h k = rw (split_at-append 10 v [] h, line_value) k

pub lacks-append :
    (c : ℕ) (a b : Text) → lacks c a ≡ true → lacks c b ≡ true → lacks c (a ++ b) ≡ true
lacks-append c [] b h k = k
lacks-append c (d ∷ a) b h k = ground (arith, h, lacks-append c a b)

pub lacks-escape :
    (c : ℕ) (s : Text) → (c == 92) ≡ false → lacks c s ≡ true → lacks c (escape s) ≡ true
unfolding escape
lacks-escape c [] n h = refl
lacks-escape c (d ∷ s) n h =
    lacks-append c (if is_special d then 92 ∷ d ∷ [] else d ∷ []) (escape s) (ground (arith, n, h))
      (lacks-escape c s n (ground (arith, h)))

all_digits-lacks : (c : ℕ) (t : Text) → is_digit c ≡ false → all_digits t ≡ true → lacks c t ≡ true
all_digits-lacks c [] n h = refl
all_digits-lacks c (d ∷ t) n h = ground (arith, n, h, all_digits-lacks c t)

all_xdigits-lacks :
    (c : ℕ) (t : Text) → is_xdigit c ≡ false → all_xdigits t ≡ true → lacks c t ≡ true
all_xdigits-lacks c [] n h = refl
all_xdigits-lacks c (d ∷ t) n h = ground (arith, n, h, all_xdigits-lacks c t)

-- A valid number holds neither a newline nor a return.
pub valid_int-lacks : (c : ℕ) (t : Text) → c ≤ 13 → sym_string_valid int t ≡ true → lacks c t ≡ true
unfolding sym_string_valid
valid_int-lacks c [] n h = refl
valid_int-lacks c (d ∷ []) n h = ground (arith, n, h)
valid_int-lacks c (d ∷ e ∷ t) n h = ground (arith, n, h, all_digits-lacks c t)

valid_xdigits-lacks : (c : ℕ) (t : Text) → c ≤ 13 → valid_xdigits t ≡ true → lacks c t ≡ true
valid_xdigits-lacks c [] n h = refl
valid_xdigits-lacks c (d ∷ t) n h = all_xdigits-lacks c (d ∷ t) (ground (arith, n)) h

lacks-prefix :
    (c d e : ℕ) (t : Text)
    → c ≤ 13
    → has_prefix (d ∷ e ∷ t) ≡ true
    → lacks c t ≡ true
    → lacks c (d ∷ e ∷ t) ≡ true
lacks-prefix c d e t n p h = ground (arith, n, p, h)

pub valid_hex-lacks : (c : ℕ) (t : Text) → c ≤ 13 → sym_string_valid hex t ≡ true → lacks c t ≡ true
unfolding sym_string_valid
valid_hex-lacks c [] n h = refl
valid_hex-lacks c (d ∷ []) n h = valid_xdigits-lacks c (d ∷ []) n h
valid_hex-lacks c (d ∷ e ∷ t) n h = elim (Bool-cases (has_prefix (d ∷ e ∷ t))) [
  | inl p ↦ lacks-prefix c d e t n p (valid_xdigits-lacks c t n (simp p at h))
  | inr p ↦ valid_xdigits-lacks c (d ∷ e ∷ t) n (simp p at h)
]

-- A name of a symbol holds neither a blank nor an equals sign.
abbrev pub IsName : Text → Type 0
IsName name = (lacks 32 name ≡ true) × (lacks 61 name ≡ true)

read_statement-not_set :
    (name : Text) → IsName name → read_statement (not_set_line name) ≡ is_not_set name
unfolding read_statement
read_statement-not_set name n =
    ap comment_statement (split_at-append 32 name (codes "is not set\n") n.0)

read_statement-value :
    (name value : Text)
    → IsName name
    → lacks 10 value ≡ true
    → strip_return value ≡ value
    → read_statement (value_line name value) ≡ set_to name value
unfolding read_statement
read_statement-value name value n h k =
    ap value_statement (split_at-append 61 name (value ++ (10 ∷ [])) n.1)
    ∙ ap (set_to name) (line_value-plain value h k)

-- The text of the value in a line.
abbrev pub shown : SymbolType → Text → Text
shown string value = sym_escape_string_value value
shown _ value = value

-- A value that a symbol of the type may have when it is written.
abbrev pub IsValue : SymbolType → Text → Type 0
IsValue boolean value = (value ≡ codes "n") ⊎ (value ≡ codes "y")
IsValue tristate value = (value ≡ codes "n") ⊎ ((value ≡ codes "m") ⊎ (value ≡ codes "y"))
IsValue string value = lacks 10 value ≡ true
IsValue int value = sym_string_valid int value ≡ true
IsValue hex value = sym_string_valid hex value ≡ true
IsValue unknown value = ⊥
IsValue other value = ⊥

abbrev pub statement_of : SymbolType → Text → Text → Statement
statement_of k name value =
    if is_bool k && at_n value then is_not_set name else set_to name (shown k value)

read_statement-string :
    (name value : Text)
    → IsName name
    → lacks 10 value ≡ true
    → read_statement (value_line name (sym_escape_string_value value))
      ≡ set_to name (sym_escape_string_value value)
read_statement-string name value n h =
    read_statement-value name (sym_escape_string_value value) n
      (unfold sym_escape_string_value in
        lacks-append 10 (escape value) (34 ∷ []) (lacks-escape 10 value refl h) refl)
      (unfold sym_escape_string_value in strip_return-last (34 ∷ escape value) 34 refl)

-- A line that was written is read as what it was written for.
pub read_statement-write :
    (k : SymbolType) (name value : Text)
    → IsName name
    → IsValue k value
    → read_statement (conf_write_symbol k name value) ≡ statement_of k name value
unfolding conf_write_symbol kconfig_print_symbol strip_return
read_statement-write boolean name value n (inl e) = rw e (read_statement-not_set name n)
read_statement-write boolean name value n (inr e) =
    rw e (read_statement-value name (codes "y") n refl refl)
read_statement-write tristate name value n (inl e) = rw e (read_statement-not_set name n)
read_statement-write tristate name value n (inr (inl e)) =
    rw e (read_statement-value name (codes "m") n refl refl)
read_statement-write tristate name value n (inr (inr e)) =
    rw e (read_statement-value name (codes "y") n refl refl)
read_statement-write string name value n h = read_statement-string name value n h
read_statement-write int name value n h =
    read_statement-value name value n (valid_int-lacks 10 value (omega arith) h)
      (strip_return-lacks value (valid_int-lacks 13 value (omega arith) h))
read_statement-write hex name value n h =
    read_statement-value name value n (valid_hex-lacks 10 value (omega arith) h)
      (strip_return-lacks value (valid_hex-lacks 13 value (omega arith) h))
read_statement-write unknown name value n h = absurd h
read_statement-write other name value n h = absurd h
