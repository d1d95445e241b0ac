-- ===== src/Unifdef/Numerals.antt =====
-- scripts/unifdef.c: the numbers of #if expressions: strtol with base 0, on a host whose `long` has 64
-- bits, and the `int` that its result is stored in. An int is its two's complement.
use embtoolkit.Base.{
  ℕ, ◌+◌, ◌-◌, ◌*◌, ◌%◌, ◌^◌, Bool, false, ◌&&◌, ◌||◌, [], ◌∷◌, Option, none, some, Text, codes,
  ltb, leb, if◌then◌else◌, starts, skip,
}
use embtoolkit.Unifdef.Comment.{is_space}
use embtoolkit.Unifdef.Symbols.{between}

-- The value of a digit, in a base of at most 36; 36 for another character.
abbrev pub digit : ℕ → ℕ
digit c =
    if between 48 57 c
    then c - 48
    else if between 97 122 c
    then c - 87
    else if between 65 90 c
    then c - 55
    else 36

abbrev pub starts_digit : ℕ → Text → Bool
starts_digit base [] = false
starts_digit base (c ∷ t) = ltb (digit c) base

-- The number behind `value`, and the text behind it.
unfoldable pub digits : ℕ → ℕ → Text → ℕ × Text
digits base value [] = (value, [])
digits base value (c ∷ t) =
    let rest = digits base (value * base + digit c) t in
    if ltb (digit c) base then rest else (value, c ∷ t)

abbrev pub is_hex : Text → Bool
is_hex t = (starts (codes "0x") t || starts (codes "0X") t) && starts_digit 16 (skip 2 t)

abbrev pub is_octal : Text → Bool
is_octal t = starts (codes "0") t

-- The number without a sign: none where there is no digit.
unfoldable pub magnitude : Text → Option (ℕ × Text)
unfolding digits
magnitude t =
    if is_hex t
    then some (digits 16 0 (skip 2 t))
    else if is_octal t
    then some (digits 8 0 t)
    else if starts_digit 10 t
    then some (digits 10 0 t)
    else none

unfoldable pub skip_spaces : Text → Text
skip_spaces [] = []
skip_spaces (c ∷ t) = let rest = skip_spaces t in if is_space c then rest else c ∷ t

abbrev pub smaller : ℕ → ℕ → ℕ
smaller a b = if leb a b then a else b

-- The result as an int: cut to LONG_MIN or LONG_MAX, and then to 32 bits.
abbrev pub positive : ℕ × Text → ℕ × Text
positive (m, t) = (smaller m (2 ^ 63 - 1) % 2 ^ 32, t)

abbrev pub negative : ℕ × Text → ℕ × Text
negative (m, t) = ((2 ^ 64 - smaller m (2 ^ 63)) % 2 ^ 32, t)

abbrev pub map_some {ℓ κ} : {A : Type ℓ} {B : Type κ} → (A → B) → Option A → Option B
map_some f none = none
map_some f (some a) = some (f a)

abbrev pub signed : Text → Option (ℕ × Text)
signed t =
    if starts (codes "-") t
    then map_some negative (magnitude (skip 1 t))
    else if starts (codes "+") t
    then map_some positive (magnitude (skip 1 t))
    else map_some positive (magnitude t)

-- strtol(t, &ep, 0): none where ep is t, and otherwise the int and the text at ep.
unfoldable pub strtol : Text → Option (ℕ × Text)
unfolding magnitude skip_spaces
strtol t = signed (skip_spaces t)

-- a < b on ints
abbrev pub less : ℕ → ℕ → Bool
less a b = ltb ((a + 2 ^ 31) % 2 ^ 32) ((b + 2 ^ 31) % 2 ^ 32)
