-- ===== src/Unifdef/Groups.antt =====
-- scripts/unifdef.c: input whose #if groups are well nested, and what is to be left of it.
pub mod Moves
pub mod Reach
pub mod Lines
pub mod Output
pub mod Compiled
pub mod Resolved
mod Examples
use embtoolkit.Base.{
  ℕ, ◌+◌, ◌≡◌, refl, ap, ap₂, ◌∙◌, Bool, true, false, List, [], ◌∷◌, ◌++◌, Text, codes, skip,
  if◌then◌else◌, append_assoc, append-nil, Bool-cases, inl, inr, ltb,
}
use embtoolkit.Unifdef.{
  Directive, if_unknown, if_true, if_false, elif_unknown, elif_true, elif_false, else_line,
  endif_line, plain, directive, Linetype,
}
use embtoolkit.Unifdef.Machine.{Line}
use embtoolkit.Unifdef.Evaluator.{eval_ops}
use embtoolkit.Unifdef.Evaluator.Syntax.{Expr}

-- A condition that unifdef decides, or one that it does not, with its expression.
pub data Condition : Type 0 where
  unknown : Expr eval_ops → Condition
  known : Bool → Condition

-- The text of a line, cut where `keyword` points.
abbrev pub Piece : Type 0
Piece = Text × Text

mutual
  -- Lines one after another: a plain line, or a group with its parts.
  pub data Source : Type 0 where
    nothing : Source
    text_line : Piece → Source → Source
    group : Condition → Piece → Source → Parts → Source → Source

  -- What follows the first part of a group.
  pub data Parts : Type 0 where
    at_endif : Piece → Parts
    at_else : Piece → Source → Piece → Parts
    at_elif : Condition → Piece → Source → Parts → Parts

abbrev pub joined : Piece → Text
joined p = p.0 ++ p.1

abbrev pub line_of : Linetype → Piece → Line
line_of t p = record { linetype = t; before = p.0; keyword = p.1; incomment = false }

abbrev pub if_type : Condition → Directive
if_type (unknown n) = if_unknown
if_type (known true) = if_true
if_type (known false) = if_false

abbrev pub elif_type : Condition → Directive
elif_type (unknown n) = elif_unknown
elif_type (known true) = elif_true
elif_type (known false) = elif_false

-- The lines as parseline returns them, with lines that follow.
unfoldable mutual
  pub lines : Source → List Line → List Line
  lines nothing ls = ls
  lines (text_line p s) ls = line_of plain p ∷ lines s ls
  lines (group c p s r after) ls =
      line_of (directive (if_type c)) p ∷ lines s (part_lines r (lines after ls))

  pub part_lines : Parts → List Line → List Line
  part_lines (at_endif p) ls = line_of (directive endif_line) p ∷ ls
  part_lines (at_else p s q) ls =
      line_of (directive else_line) p ∷ lines s (line_of (directive endif_line) q ∷ ls)
  part_lines (at_elif c p s r) ls = line_of (directive (elif_type c)) p ∷ lines s (part_lines r ls)

-- The lines as texts
unfoldable mutual
  pub texts : Source → List Text
  texts nothing = []
  texts (text_line p s) = joined p ∷ texts s
  texts (group c p s r after) = joined p ∷ (texts s ++ (part_texts r ++ texts after))

  pub part_texts : Parts → List Text
  part_texts (at_endif p) = joined p ∷ []
  part_texts (at_else p s q) = joined p ∷ (texts s ++ (joined q ∷ []))
  part_texts (at_elif c p s r) = joined p ∷ (texts s ++ part_texts r)

-- One source and then another
unfoldable pub append : Source → Source → Source
append nothing t = t
append (text_line p s) t = text_line p (append s t)
append (group c p s r after) t = group c p s r (append after t)

-- #elif as #if, and a keyword replaced
abbrev pub as_if : Piece → Piece
as_if (b, k) = (b, codes "if  " ++ skip 4 k)

abbrev pub as_keyword : Text → Text → Piece → Piece
as_keyword newline replacement (b, k) = (b, replacement ++ newline)

-- The line that ends a group whose part before is the last that can be kept.
abbrev pub last_line : Text → Parts → Piece
last_line newline (at_endif p) = p
last_line newline (at_else p s q) = as_keyword newline (codes "endif") p
last_line newline (at_elif c p s r) = as_keyword newline (codes "endif") p

-- The source without the parts whose conditions are false, and without the lines of the groups
-- that are decided.
unfoldable mutual
  pub resolve : Text → Source → Source
  resolve newline nothing = nothing
  resolve newline (text_line p s) = text_line p (resolve newline s)
  resolve newline (group (unknown n) p s r after) =
      group (unknown n) p (resolve newline s) (resolve_parts newline r) (resolve newline after)
  resolve newline (group (known true) p s r after) =
      append (resolve newline s) (resolve newline after)
  resolve newline (group (known false) p s r after) =
      append (first_part newline r) (resolve newline after)

  -- Of the parts behind one that is left out: the first whose condition is not false.
  pub first_part : Text → Parts → Source
  first_part newline (at_endif p) = nothing
  first_part newline (at_else p s q) = resolve newline s
  first_part newline (at_elif (unknown n) p s r) =
      group (unknown n) (as_if p) (resolve newline s) (resolve_parts newline r) nothing
  first_part newline (at_elif (known true) p s r) = resolve newline s
  first_part newline (at_elif (known false) p s r) = first_part newline r

  -- The parts of a group of which a part is kept.
  pub resolve_parts : Text → Parts → Parts
  resolve_parts newline (at_endif p) = at_endif p
  resolve_parts newline (at_else p s q) = at_else p (resolve newline s) q
  resolve_parts newline (at_elif (unknown n) p s r) =
      at_elif (unknown n) p (resolve newline s) (resolve_parts newline r)
  resolve_parts newline (at_elif (known true) p s r) =
      at_else (as_keyword newline (codes "else") p) (resolve newline s) (last_line newline r)
  resolve_parts newline (at_elif (known false) p s r) = resolve_parts newline r
