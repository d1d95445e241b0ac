-- ===== src/Fixdep/Words.antt =====
-- scripts/basic/fixdep.c: parse_config_file, which looks for CONFIG_ words four bytes at a time, and
-- the same search at every byte.
pub mod Bytes
use embtoolkit.Base.{
  ℕ, zero, suc, ◌+◌, ◌-◌, ◌*◌, Bool, true, false, not, ◌&&◌, ◌||◌, List, [], ◌∷◌, ◌++◌, Option,
  none, some, Text, codes, ◌==◌, ltb, leb, if◌then◌else◌, starts, skip, length,
}

abbrev pub between : ℕ → ℕ → ℕ → Bool
between lo hi c = leb lo c && leb c hi

-- `isalnum(*q) || *q == '_'`
abbrev is_word : ℕ → Bool
is_word c = between 48 57 c || (between 65 90 c || (between 97 122 c || c == 95))

abbrev pub config : Text
config = codes "CONFIG_"

-- The loop to `found`: the characters of the word, unless the word reaches the end of the map.
unfoldable pub word_at : Text → Option Text
word_at [] = none
word_at (c ∷ t) =
    let rest = word_at t in
    if is_word c then elim rest [ none ↦ none | some w ↦ some (c ∷ w) ] else some []

-- `q - 7`: the last seven characters of `CONFIG_` and the word
abbrev ends_module : Text → Bool
ends_module w = starts (codes "_MODULE") (skip (length w) (config ++ w))

unfoldable pub take : ℕ → Text → Text
take zero t = []
take (suc n) [] = []
take (suc n) (c ∷ t) = c ∷ take n t

-- What use_config is called with: the word without _MODULE, and nothing where that leaves less than
-- CONFIG_.
abbrev pub used_word : Option Text → Option Text
used_word none = none
used_word (some w) =
    if ends_module w
    then (if ltb (length w) 7 then none else some (take (length w - 7) w))
    else some w

-- From the label `conf` on, with the map from p on.
unfoldable pub conf_at : Text → Option Text
unfolding word_at take
conf_at p = if starts config p then used_word (word_at (skip 7 p)) else none

abbrev pub to_list : Option Text → List Text
to_list none = []
to_list (some w) = w ∷ []

-- The four tests of a word of the map against INT_CONF, INT_ONFI, INT_NFIG and INT_FIG_: how far
-- p lies before it.
unfoldable pub word_offset : Text → Option ℕ
word_offset word =
    if starts (codes "CONF") word
    then some 0
    else if starts (codes "ONFI") word
    then some 1
    else if starts (codes "NFIG") word
    then some 2
    else if starts (codes "FIG_") word
    then some 3
    else none

abbrev pub visit : Text → ℕ → Option ℕ → List Text
visit map position none = []
visit map position (some d) = to_list (conf_at (skip (position - d) map))

-- The loop of parse_config_file from the m-th word on. The last word may be short: the bytes behind
-- the map are none of CONFIG_.
unfoldable pub scan_words : ℕ → Text → ℕ → List Text
unfolding word_offset conf_at
scan_words zero map m = []
scan_words (suc f) map m =
    let here = visit map (4 * m) (word_offset (skip (4 * m) map)) in
    let rest = scan_words f map (m + 1) in if ltb (4 * m) (length map) then here ++ rest else []

-- parse_config_file: the words that use_config is called with.
unfoldable pub parse_config_file : Text → List Text
unfolding scan_words
parse_config_file map = scan_words (length map) map 1
