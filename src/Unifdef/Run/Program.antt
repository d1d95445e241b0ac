-- ===== src/Unifdef/Run/Program.antt =====
-- scripts/unifdef.c: files whose #if groups are well nested, with the expressions of the directives, and
-- what a compiler keeps of them.
use embtoolkit.Base.{
  ℕ, ◌<◌, ◌≡◌, Bool, true, false, not, List, [], ◌∷◌, ◌++◌, Option, none, some, Text, codes, length,
  ◌==◌, if◌then◌else◌,
}
use embtoolkit.Unifdef.Symbols.{Symbol}
use embtoolkit.Unifdef.Symbols.Words.{lookup}
use embtoolkit.Unifdef.Evaluator.{eval_ops, Truth, lt_if, lt_true, lt_false}
use embtoolkit.Unifdef.Evaluator.Syntax.{
  Expr, defined, negated, atom, print, IsName, IsValid, compiled_value, is_defined_by,
}
use embtoolkit.Unifdef.Evaluator.Ifeval.{eval_result}
use embtoolkit.Unifdef.Groups.{
  Condition, unknown, known, Piece, Source, nothing, text_line, group, Parts, at_endif, at_else,
  at_elif,
}
use embtoolkit.Unifdef.Run.{Settings}
use embtoolkit.Unifdef.Run.Lines.{proper}
use embtoolkit.Unifdef.Run.Plain.{calm, no_hash}

-- #if with an expression; #ifdef, or with `false` #ifndef, with a name.
pub data Test : Type 0 where
  by_value : Expr eval_ops → Test
  by_name : Bool → Text → Test

mutual
  -- The lines, one after another.
  pub data Program : Type 0 where
    end : Program
    line : Text → Program → Program
    choice : Test → Program → Branches → Program → Program

  -- What follows the first part of a group.
  pub data Branches : Type 0 where
    endif : Branches
    otherwise : Program → Branches
    elif : Expr eval_ops → Program → Branches → Branches

-- The directive, without # and newline
abbrev pub words : Test → Text
words (by_value e) = codes "if " ++ print e
words (by_name true x) = codes "ifdef " ++ x
words (by_name false x) = codes "ifndef " ++ x

-- The text of the file, with text that follows.
unfoldable mutual
  pub file : Program → Text → Text
  file end rest = rest
  file (line t c) rest = (t ++ codes "\n") ++ file c rest
  file (choice t c b after) rest =
      ((35 ∷ words t) ++ codes "\n") ++ file c (branches b (file after rest))

  pub branches : Branches → Text → Text
  branches endif rest = codes "#endif\n" ++ rest
  branches (otherwise c) rest = codes "#else\n" ++ file c (codes "#endif\n" ++ rest)
  branches (elif e c b) rest =
      ((codes "#elif " ++ print e) ++ codes "\n") ++ file c (branches b rest)

-- The test as an expression
abbrev pub expression : Test → Expr eval_ops
expression (by_value e) = e
expression (by_name true x) = atom (defined false x)
expression (by_name false x) = atom (negated (defined false x))

module _ (u : Settings) where
  -- What unifdef makes of an expression, and of a name.
  abbrev pub condition : Expr eval_ops → Truth → Condition
  condition e lt_if = unknown e
  condition e lt_true = known true
  condition e lt_false = known false

  abbrev pub named : Test → Bool → Option Symbol → Condition
  named t b none = unknown (expression t)
  named t b (some s) = known (if is_defined_by s.value then b else not b)

  abbrev pub decide : Test → Condition
  decide (by_value e) = condition e (eval_result u.syms u.strictlogic u.killconsts e)
  decide (by_name b x) = named (by_name b x) b (lookup u.syms x)

  abbrev pub hash : Text → Piece
  hash k = (codes "#", k ++ codes "\n")

  -- The groups with the conditions as unifdef knows them.
  unfoldable mutual
    pub source : Program → Source
    source end = nothing
    source (line t c) = text_line (t ++ codes "\n", []) (source c)
    source (choice t c b after) =
        group (decide t) (hash (words t)) (source c) (parts b) (source after)

    pub parts : Branches → Parts
    parts endif = at_endif (hash (codes "endif"))
    parts (otherwise c) = at_else (hash (codes "else")) (source c) (hash (codes "endif"))
    parts (elif e c b) =
        at_elif (decide (by_value e)) (hash (codes "elif " ++ print e)) (source c) (parts b)

  -- Short enough for the buffer, on one line.
  abbrev pub IsLine : Text → Type 0
  IsLine t = (proper t ≡ true) × (length t < 4095)

  -- The name of an #ifdef is no symbol with the ignore flag.
  abbrev pub not_ignored : Option Symbol → Bool
  not_ignored none = true
  not_ignored (some s) = not s.ignore

  abbrev pub IsValidTest : Test → Type 0
  IsValidTest (by_value e) = IsValid u.syms e
  IsValidTest (by_name b x) = IsName x × (not_ignored (lookup u.syms x) ≡ true)

  -- The lines that are no directives hold no comments, literals and continuations, the expressions are
  -- valid, and no line is too long.
  unfoldable mutual
    pub IsPlainC : Program → Type 0
    IsPlainC end = Unit
    IsPlainC (line t c) = IsLine t × (calm t ≡ true) × (no_hash t ≡ true) × IsPlainC c
    IsPlainC (choice t c b after) =
        IsLine (35 ∷ words t) × IsValidTest t × IsPlainC c × ArePlainC b × IsPlainC after

    pub ArePlainC : Branches → Type 0
    ArePlainC endif = Unit
    ArePlainC (otherwise c) = IsPlainC c
    ArePlainC (elif e c b) =
        IsLine (codes "#elif " ++ print e) × IsValid u.syms e × IsPlainC c × ArePlainC b

  -- What a compiler keeps: `others` are the symbols that unifdef does not know.
  module _ (others : Text → Option ℕ) where
    abbrev pub true_value : Expr eval_ops → Bool
    true_value e = not (compiled_value u.syms others e == 0)

    unfoldable mutual
      pub compile : Program → List Text
      compile end = []
      compile (line t c) = (t ++ codes "\n") ∷ compile c
      compile (choice t c b after) =
          (if true_value (expression t) then compile c else compile_branches b) ++ compile after

      pub compile_branches : Branches → List Text
      compile_branches endif = []
      compile_branches (otherwise c) = compile c
      compile_branches (elif e c b) = if true_value e then compile c else compile_branches b
