-- ===== src/Fixdep/Set.antt =====
-- scripts/basic/fixdep.c: the hash table of the options a file depends on, and use_config.
pub mod Once
use Prim.Native.Nat.{bit_xor}
use embtoolkit.Base.{
  ℕ, ◌+◌, ◌*◌, ◌%◌, ◌^◌, Bool, true, false, ◌&&◌, List, [], ◌∷◌, ◌++◌, Text, codes, str_eq, map,
  length, ◌==◌, leb, if◌then◌else◌,
}
use embtoolkit.Fixdep.Words.{take}

-- struct item. `next` is the rest of the chain.
pub record Item : Type 0 where
  pub len : ℕ
  pub hash : ℕ
  pub name : Text

abbrev pub hashsz : ℕ
hashsz = 256

-- hashtab, by its index
abbrev pub Hashtab : Type 0
Hashtab = ℕ → List Item

-- The loop of strhash. The characters of a word are ASCII, so that `char` needs no sign.
unfoldable pub strhash_from : ℕ → Text → ℕ
strhash_from hash [] = hash
strhash_from hash (c ∷ str) = strhash_from (bit_xor hash c * 16777619 % 2 ^ 32) str

unfoldable pub strhash : Text → ℕ
unfolding strhash_from
strhash str = strhash_from 2166136261 str

-- `memcmp(a, b, len) == 0`
abbrev pub memcmp : Text → Text → ℕ → Bool
memcmp a b len = str_eq (take len a) (take len b)

abbrev pub is_item : Item → Text → ℕ → ℕ → Bool
is_item aux name len hash = (aux.hash == hash) && ((aux.len == len) && memcmp (aux.name) name len)

abbrev pub find : List Item → Text → ℕ → ℕ → Bool
find [] name len hash = false
find (aux ∷ next) name len hash =
    let rest = find next name len hash in if is_item aux name len hash then true else rest

unfoldable pub is_defined_config : Hashtab → Text → ℕ → ℕ → Bool
unfolding take
is_defined_config hashtab name len hash = find (hashtab (hash % hashsz)) name len hash

unfoldable pub define_config : Hashtab → Text → ℕ → ℕ → Hashtab
unfolding take
define_config hashtab name len hash i =
    if i == hash % hashsz
    then record { len = len; hash = hash; name = take len name } ∷ hashtab (hash % hashsz)
    else hashtab i

unfoldable pub clear_config : Hashtab → Hashtab
clear_config hashtab i = if leb hashsz i then hashtab i else []

abbrev pub tolower : ℕ → ℕ
tolower c = if leb 65 c && leb c 90 then c + 32 else c

abbrev pub path_char : ℕ → ℕ
path_char c = if c == 95 then 47 else tolower c

-- What use_config prints of a word.
unfoldable pub config_line : Text → Text
config_line m = codes "    $(wildcard include/config/" ++ map path_char m ++ codes ".h) \\\n"

-- The table after use_config, and what it printed.
pub record Used : Type 0 where
  pub hashtab : Hashtab
  pub out : Text

unfoldable pub use_config : Hashtab → Text → Used
unfolding is_defined_config define_config strhash config_line
use_config hashtab m =
    let hash = strhash m in
    if is_defined_config hashtab m (length m) hash
    then record { hashtab = hashtab; out = [] }
    else record { hashtab = define_config hashtab m (length m) hash; out = config_line m }

-- The calls of use_config in their order.
unfoldable pub use_configs : Hashtab → List Text → Used
unfolding use_config
use_configs hashtab [] = record { hashtab = hashtab; out = [] }
use_configs hashtab (m ∷ ms) =
    let first = use_config hashtab m in
    let rest = use_configs (first.hashtab) ms in
    record { hashtab = rest.hashtab; out = first.out ++ rest.out }
