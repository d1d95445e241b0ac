-- ===== src/Unifdef/Parseline/Steps.antt =====
-- scripts/unifdef.c: fgets of the C library, and the tests and types of parseline.
use embtoolkit.Base.{
  ℕ, zero, suc, ◌+◌, Bool, true, false, not, ◌||◌, [], ◌∷◌, Option, none, some, Text, codes, ◌==◌,
  if◌then◌else◌,
}
use embtoolkit.Unifdef.{
  Directive, truei, falsei, if_unknown, if_true, if_false, elif_unknown, elif_true, elif_false,
}
use embtoolkit.Unifdef.Comment.{Comment, no_comment, Linestate, ls_start, ls_hash, ls_dirty}
use embtoolkit.Unifdef.Symbols.{strlcmp, Symbol, is_none}
use embtoolkit.Unifdef.Evaluator.{Cursor, Truth, lt_if, lt_true, lt_false}

-- The first n characters
abbrev pub take : ℕ → Text → Text
take zero t = []
take (suc n) [] = []
take (suc n) (c ∷ t) = c ∷ take n t

-- A line of at most n characters, with its newline, and what is left.
abbrev pub get_line : ℕ → Text → Text × Text
get_line zero t = ([], t)
get_line (suc n) [] = ([], [])
get_line (suc n) (c ∷ t) =
    let (line, rest) = get_line n t in if c == 10 then (c ∷ [], t) else (c ∷ line, rest)

-- fgets with a buffer of n + 1: none at the end of the file, unless there is no room.
unfoldable pub fgets : ℕ → Text → Option (Text × Text)
fgets zero t = some ([], t)
fgets (suc n) [] = none
fgets (suc n) (c ∷ t) = some (get_line (suc n) (c ∷ t))

abbrev pub maxline : ℕ
maxline = 4096

-- The index of the last c
abbrev pub strrchr : ℕ → Text → Option ℕ
strrchr c [] = none
strrchr c (d ∷ t) =
    let rest = strrchr c t in
    elim rest [ some i ↦ some (suc i) | none ↦ if d == c then some 0 else none ]

abbrev pub is_behind : Option ℕ → Option ℕ → Bool
is_behind (some i) (some j) = i == j + 1
is_behind _ _ = false

-- `newline`, which the first line sets
unfoldable pub newline_of : Option Text → Text → Text
newline_of (some w) t = w
newline_of none t = if is_behind (strrchr 10 t) (strrchr 13 t) then codes "\r\n" else codes "\n"

abbrev pub in_comment : Comment → Bool
in_comment no_comment = false
in_comment _ = true

abbrev pub is_start : Linestate → Bool
is_start ls_start = true
is_start _ = false

abbrev pub is_hash : Linestate → Bool
is_hash ls_hash = true
is_hash _ = false

abbrev pub is_dirty : Linestate → Bool
is_dirty ls_dirty = true
is_dirty _ = false

abbrev pub nonempty : Text → Bool
nonempty [] = false
nonempty (c ∷ t) = true

abbrev pub dirty : Cursor → Cursor
dirty c = record c { linestate = ls_dirty }

-- The keywords; `other` for all else.
pub data Keyword : Type 0 where
  kw_ifdef kw_if kw_elif kw_else kw_endif other : Keyword

-- The keyword at the text, of length n
unfoldable pub find_keyword : Text → ℕ → Keyword
find_keyword keyword n =
    if strlcmp (codes "ifdef") keyword n || strlcmp (codes "ifndef") keyword n
    then kw_ifdef
    else if strlcmp (codes "if") keyword n
    then kw_if
    else if strlcmp (codes "elif") keyword n
    then kw_elif
    else if strlcmp (codes "else") keyword n
    then kw_else
    else if strlcmp (codes "endif") keyword n
    then kw_endif
    else other

-- LT_TRUE, or LT_FALSE
abbrev pub if_known : Bool → Directive
if_known true = if_true
if_known false = if_false

abbrev pub if_ignored : Bool → Directive
if_ignored true = truei
if_ignored false = falsei

-- The type of an #ifdef line, or with `negative` of an #ifndef line.
abbrev pub ifdef_type : Bool → Option Symbol → Directive
ifdef_type negative none = if_unknown
ifdef_type negative (some s) =
    let holds = if is_none s.value then negative else not negative in
    if s.ignore then if_ignored holds else if_known holds

abbrev pub if_type : Truth → Directive
if_type lt_if = if_unknown
if_type lt_true = if_true
if_type lt_false = if_false

-- `- LT_IF + LT_ELIF`
abbrev pub elif_type : Truth → Directive
elif_type lt_if = elif_unknown
elif_type lt_true = elif_true
elif_type lt_false = elif_false

-- Text behind a directive makes it unknown.
abbrev pub weaken : Directive → Directive
weaken truei = if_unknown
weaken falsei = if_unknown
weaken if_true = if_unknown
weaken if_false = if_unknown
weaken elif_true = elif_unknown
weaken elif_false = elif_unknown
weaken d = d
