-- ===== src/Unifdef/Comment.antt =====
-- scripts/unifdef.c: skipcomment, over the text from `cp` to its NUL, with the two globals it keeps.
pub mod Stops
use embtoolkit.Base.{
  skip, starts, ℕ, zero, suc, Bool, true, false, List, [], ◌∷◌, ◌==◌, ◌&&◌, ◌||◌, if◌then◌else◌,
  Option, none, some, Text, codes,
}

-- Comment_state
pub data Comment : Type 0 where
  no_comment c_comment cxx_comment starting_comment finishing_comment char_literal string_literal :
      Comment

-- Line_state
pub data Linestate : Type 0 where
  ls_start ls_hash ls_dirty : Linestate

-- `*cp == c`, for another c than NUL
abbrev pub at : ℕ → Text → Bool
at c [] = false
at c (d ∷ cp) = d == c

-- What a round of the loop does: return, go on with the text, or call error.
pub data Round : Type 0 where
  stop : Round
  on : Comment → Linestate → Text → Round
  unterminated_char unterminated_string : Round

-- `strchr(" \r\t", *cp) != NULL`, at a character
abbrev pub is_gap : Text → Bool
is_gap cp = at 32 cp || (at 13 cp || at 9 cp)

abbrev in_code : Linestate → Text → Round
in_code l cp =
    if starts (codes "/\\\r\n") cp
    then on starting_comment l (skip 4 cp)
    else if starts (codes "/\\\n") cp
    then on starting_comment l (skip 3 cp)
    else if starts (codes "/*") cp
    then on c_comment l (skip 2 cp)
    else if starts (codes "//") cp
    then on cxx_comment l (skip 2 cp)
    else if at 39 cp
    then on char_literal ls_dirty (skip 1 cp)
    else if at 34 cp
    then on string_literal ls_dirty (skip 1 cp)
    else if at 10 cp
    then on no_comment ls_start (skip 1 cp)
    else if is_gap cp
    then on no_comment l (skip 1 cp)
    else stop

-- `*cp == '\0'`
abbrev at_end : Text → Bool
at_end [] = true
at_end (d ∷ cp) = false

-- Within a literal that `quote` ends.
abbrev in_literal : Comment → ℕ → Round → Linestate → Text → Round
in_literal c quote unterminated l cp =
    if at quote cp
    then on no_comment l (skip 1 cp)
    else if at 92 cp
    then (if at_end (skip 1 cp) then on c l (skip 1 cp) else on c l (skip 2 cp))
    else if at 10 cp
    then unterminated
    else on c l (skip 1 cp)

abbrev in_state : Comment → Linestate → Text → Round
in_state no_comment l cp = in_code l cp
in_state cxx_comment l cp =
    if at 10 cp then on no_comment ls_start (skip 1 cp) else on cxx_comment l (skip 1 cp)
in_state char_literal l cp = in_literal char_literal 39 unterminated_char l cp
in_state string_literal l cp = in_literal string_literal 34 unterminated_string l cp
in_state c_comment l cp =
    if starts (codes "*\\\r\n") cp
    then on finishing_comment l (skip 4 cp)
    else if starts (codes "*\\\n") cp
    then on finishing_comment l (skip 3 cp)
    else if starts (codes "*/") cp
    then on no_comment l (skip 2 cp)
    else on c_comment l (skip 1 cp)
in_state starting_comment l cp =
    if at 42 cp
    then on c_comment l (skip 1 cp)
    else if at 47 cp
    then on cxx_comment l (skip 1 cp)
    else on no_comment ls_dirty cp
in_state finishing_comment l cp =
    if at 47 cp then on no_comment l (skip 1 cp) else on c_comment l cp

-- A round, at a character.
unfoldable pub round : Comment → Linestate → Text → Round
round c l cp =
    if starts (codes "\\\r\n") cp
    then on c l (skip 3 cp)
    else if starts (codes "\\\n") cp
    then on c l (skip 2 cp)
    else in_state c l cp

pub data Skipped : Type 0 where
  skipped : Comment → Linestate → Text → Skipped
  bad_char bad_string : Skipped

abbrev pub follow :
    (Comment → Linestate → Text → Option Skipped)
    → Comment
    → Linestate
    → Text
    → Round
    → Option Skipped
follow again c l cp stop = some (skipped c l cp)
follow again c l cp (on c' l' cp') = again c' l' cp'
follow again c l cp unterminated_char = some bad_char
follow again c l cp unterminated_string = some bad_string

-- The loop, on fuel.
unfoldable pub skip_loop : ℕ → Comment → Linestate → Text → Option Skipped
unfolding round
skip_loop n c l [] = some (skipped c l [])
skip_loop zero c l (d ∷ cp) = none
skip_loop (suc n) c l (d ∷ cp) = follow (skip_loop n) c l (d ∷ cp) (round c l (d ∷ cp))

unfoldable pub is_space : ℕ → Bool
is_space c = c == 32 || (c == 9 || (c == 10 || (c == 11 || (c == 12 || c == 13))))

-- The loop for -t and for text within an ignored #if.
unfoldable pub skip_space : Linestate → Text → Linestate × Text
skip_space l [] = (l, [])
skip_space l (c ∷ cp) =
    let rest = skip_space (if c == 10 then ls_start else l) cp in
    if is_space c then rest else (l, c ∷ cp)

-- skipcomment: `plain` is `text || ignoring[depth]`.
unfoldable pub skipcomment : ℕ → Bool → Comment → Linestate → Text → Option Skipped
unfolding skip_loop skip_space
skipcomment n true c l cp = let r = skip_space l cp in some (skipped c r.0 r.1)
skipcomment n false c l cp = skip_loop n c l cp
