-- ===== src/Unifdef/Symbols.antt =====
-- scripts/unifdef.c: identifiers, the symbol table, and the values of symbols and numbers, which
-- strtol of the C library reads.
pub mod Words
use embtoolkit.Base.{
  ℕ, zero, suc, ◌+◌, ◌-◌, ◌*◌, ◌%◌, ◌^◌, Bool, true, false, not, ◌&&◌, ◌||◌, List, [], ◌∷◌, ◌++◌,
  Option, none, some, Text, codes, ◌==◌, ltb, leb, if◌then◌else◌, starts, skip, length,
}
use embtoolkit.Unifdef.Comment.{is_space}

abbrev pub between : ℕ → ℕ → ℕ → Bool
between lo hi c = leb lo c && leb c hi

-- `!endsym(c)`
abbrev pub is_word : ℕ → Bool
is_word c = between 48 57 c || (between 65 90 c || (between 97 122 c || c == 95))

-- `endsym(*cp)`, with the NUL at the end of the text
abbrev pub endsym : Text → Bool
endsym [] = true
endsym (c ∷ cp) = not (is_word c)

unfoldable pub skipsym : Text → Text
skipsym [] = []
skipsym (c ∷ cp) = let rest = skipsym cp in if is_word c then rest else c ∷ cp

-- `cp - str` for `cp = skipsym(str)`
unfoldable pub length_sym : Text → ℕ
length_sym [] = 0
length_sym (c ∷ cp) = let rest = length_sym cp in if is_word c then suc rest else 0

-- strlcmp(s, t, n) == 0
abbrev pub strlcmp : Text → Text → ℕ → Bool
strlcmp [] t zero = true
strlcmp (c ∷ s) t zero = false
strlcmp [] [] (suc n) = true
strlcmp (c ∷ s) [] (suc n) = false
strlcmp [] (d ∷ t) (suc n) = false
strlcmp (c ∷ s) (d ∷ t) (suc n) = c == d && strlcmp s t n

-- symname[i], value[i] and ignore[i]
pub record Symbol : Type 0 where
  pub symname : Text
  pub value : Option Text
  pub ignore : Bool

abbrev pub search : List Symbol → Text → ℕ → Option Symbol
search [] str n = none
search (s ∷ ss) str n =
    let rest = search ss str n in if strlcmp s.symname str n then some s else rest

-- findsym, without -s: the entry in place of its index.
unfoldable pub findsym : List Symbol → Text → Option Symbol
unfolding length_sym
findsym syms str = if length_sym str == 0 then none else search syms str (length_sym str)

-- addsym ends with an entry changed or added, with usage(), or with too many symbols.
pub data Added : Type 0 where
  added : List Symbol → Added
  usage too_many : Added

abbrev pub maxsyms : ℕ
maxsyms = 4096

-- The entry at the index that findsym found.
abbrev pub put_symbol : List Symbol → Text → ℕ → Symbol → List Symbol
put_symbol [] str n new = []
put_symbol (s ∷ ss) str n new =
    let rest = put_symbol ss str n new in if strlcmp s.symname str n then new ∷ ss else s ∷ rest

-- The text before `val`: where it starts with =, the name is cut off there.
unfoldable pub sym_name : Text → Text
sym_name [] = []
sym_name (c ∷ cp) = let rest = sym_name cp in if is_word c then c ∷ rest else []

-- What becomes of the value: `val` is behind the identifier; none for usage().
abbrev pub value_of : Bool → Text → Option (Option Text)
value_of true [] = some (some (codes "1"))
value_of true (c ∷ t) = if c == 61 then some (some t) else none
value_of false [] = some none
value_of false (c ∷ t) = none

abbrev pub is_none {ℓ} : {A : Type ℓ} → Option A → Bool
is_none none = true
is_none (some a) = false

unfoldable pub addsym : Bool → Bool → Text → List Symbol → Added
unfolding findsym skipsym sym_name
addsym ignorethis definethis sym syms =
    let new = is_none (findsym syms sym) in
    if new && leb maxsyms (length syms)
    then too_many
    else elim (value_of definethis (skipsym sym)) [
      | none ↦ usage
      | some v ↦
          let entry : Symbol = record { symname = sym_name sym; value = v; ignore = ignorethis } in
          added (if new then syms ++ (entry ∷ []) else put_symbol syms sym (length_sym sym) entry)
    ]
