-- ===== src/Unifdef/Parseline.antt =====
-- scripts/unifdef.c: parseline, without the messages of -d and -S. The input is the text that is left
-- of the file.
mod Steps
unfoldable pub use Steps.*
use embtoolkit.Base.{
  ℕ, zero, suc, ◌+◌, ◌-◌, Bool, true, false, not, ◌&&◌, ◌||◌, List, [], ◌∷◌, ◌++◌, Option, none,
  some, Text, codes, ◌==◌, if◌then◌else◌, starts, skip, length,
}
use embtoolkit.Unifdef.{
  Linetype, directive, dodgy, plain, eof, Directive, truei, falsei, if_unknown, if_true, if_false,
  elif_unknown, elif_true, elif_false, else_line, endif_line,
}
use embtoolkit.Unifdef.Comment.{Comment, no_comment, Linestate, ls_start, ls_hash, ls_dirty, at}
use embtoolkit.Unifdef.Machine.{Line}
use embtoolkit.Unifdef.Symbols.{length_sym, skipsym, strlcmp, Symbol, findsym, is_none}
use embtoolkit.Unifdef.Evaluator.{
  Cursor, Result, ok, bind, Truth, lt_if, lt_true, lt_false, skip_at, advance, ifeval,
}

-- The file from here on, `newline` once it is set, and the globals of skipcomment.
pub record Reader : Type 0 where
  pub input : Text
  pub newline : Option Text
  pub comment : Comment
  pub linestate : Linestate

-- A line; or error() by skipcomment, or Eioccc(). `stuck` has no counterpart.
pub data Parsed : Type 0 where
  parsed : Line → Reader → Parsed
  unterminated : Comment → Parsed
  obfuscated_keyword stuck : Parsed

-- What parseline does behind a line that is parsed.
abbrev pub settle : {A : Type 0} → Result A → (A → Parsed) → Parsed
settle (ok a) f = f a
settle (Result.lt_error c) f = stuck
settle (Result.fatal k) f = unterminated k
settle Result.out_of_fuel f = stuck

module _ (isplain : Bool) where
  -- Up to the #
  unfoldable pub find_hash : Cursor → Result Cursor
  unfolding skip_at
  find_hash c = bind (skip_at isplain c) λ c.
      if is_start c.linestate
      then (if at 35 c.cp
          then skip_at isplain (advance 1 (record c { linestate = ls_hash }))
          else ok (if nonempty c.cp then dirty c else c))
      else ok c

  -- `while (*cp != '\0') cp = skipcomment(cp + 1);`
  unfoldable pub skip_line : ℕ → Cursor → Result Cursor
  unfolding skip_at
  skip_line zero c = if nonempty c.cp then Result.out_of_fuel else ok c
  skip_line (suc n) c =
      if nonempty c.cp then bind (skip_at isplain (advance 1 c)) (skip_line n) else ok c

  unfoldable pub skip_dirty : Cursor → Result Cursor
  unfolding skip_line
  skip_dirty c = if is_dirty c.linestate then skip_line (length c.cp) c else ok c

  module _ (syms : List Symbol) (strictlogic killconsts : Bool) where
    -- The type of the line, none for LT_PLAIN, from the end of the keyword on.
    unfoldable pub eval_keyword : Keyword → Text → Cursor → Result (Option Directive × Cursor)
    unfolding skip_at ifeval findsym skipsym
    eval_keyword kw_ifdef keyword c = bind (skip_at isplain c) λ c. ok (
      some (ifdef_type (at 110 (skip 2 keyword)) (findsym syms c.cp)),
      record c { cp = skipsym c.cp },
    )
    eval_keyword kw_if keyword c =
        bind (ifeval isplain syms strictlogic killconsts c) λ (t, c). ok (some (if_type t), c)
    eval_keyword kw_elif keyword c =
        bind (ifeval isplain syms strictlogic killconsts c) λ (t, c). ok (some (elif_type t), c)
    eval_keyword kw_else keyword c = ok (some else_line, c)
    eval_keyword kw_endif keyword c = ok (some endif_line, c)
    eval_keyword other keyword c = ok (none, dirty c)

    -- What follows the keyword's part; `wascomment` is from the start of the line.
    abbrev pub line_type : Bool → Cursor → Option Directive → Linetype
    line_type wascomment c none = plain
    line_type wascomment c (some d) =
        let d' = if nonempty c.cp then weaken d else d in
        if wascomment || in_comment c.incomment then dodgy d' else directive d'

    abbrev pub line_state : Cursor → Option Directive → Cursor
    line_state c none = if nonempty c.cp then dirty c else c
    line_state c (some d) = if nonempty c.cp || in_comment c.incomment then dirty c else c

    -- A directive without an end of line: the newline is appended, or what is left of the line.
    unfoldable pub continue_line : Text → Text → Text → Cursor → Text × (Text × Cursor)
    unfolding fgets
    continue_line newline tline rest c =
        if is_hash c.linestate
        then elim (fgets (maxline - (length tline - length c.cp) - 1) rest)
            as (λ r. Text × (Text × Cursor)) [
              | none ↦ (newline, (rest, record c { linestate = ls_start; cp = [] }))
              | some p ↦ (p.0, (p.1, record (dirty c) { cp = p.0 }))
            ]
        else ([], (rest, c))

    abbrev pub reader : Option Text → Text → Cursor → Reader
    reader newline rest c = record {
      input = rest;
      newline = newline;
      comment = c.incomment;
      linestate = c.linestate;
    }

    -- A line that is not a directive, to its end.
    unfoldable pub plain_line : Text → Text → Text → Cursor → Parsed
    unfolding skip_dirty
    plain_line newline tline rest c = settle (skip_dirty c) λ c.
        parsed
          (record {
            linetype = plain;
            before = tline;
            keyword = [];
            incomment = in_comment c.incomment;
          })
          (reader (some newline) rest c)

    -- A directive, behind its keyword's part.
    unfoldable pub end_directive :
        Bool → Text → Text → Text → Text → Option Directive × Cursor → Parsed
    unfolding skip_at continue_line skip_dirty
    end_directive wascomment newline tline keyword rest (d, c) = settle (skip_at isplain c) λ c.
        let (more, (rest', c')) = continue_line newline tline rest (line_state c d) in
        settle (skip_dirty c') λ c''.
          parsed
            (record {
              linetype = line_type wascomment c d;
              before = take (length tline - length keyword) tline;
              keyword = keyword ++ more;
              incomment = in_comment c''.incomment;
            })
            (reader (some newline) rest' c'')

    -- From the first character of the keyword on.
    unfoldable pub directive_line : Bool → Text → Text → Text → Cursor → Parsed
    unfolding skipsym length_sym find_keyword eval_keyword end_directive
    directive_line wascomment newline tline rest c =
        let cp = skipsym c.cp in
        if starts (codes "\\\r\n") cp || starts (codes "\\\n") cp
        then obfuscated_keyword
        else settle (eval_keyword (find_keyword c.cp (length_sym c.cp)) c.cp (record c { cp = cp }))
            (end_directive wascomment newline tline c.cp rest)

    unfoldable pub parse_text : Comment → Linestate → Text → Text → Text → Parsed
    unfolding find_hash directive_line plain_line
    parse_text comment linestate newline tline rest =
        let start : Cursor = record {
          incomment = comment;
          linestate = linestate;
          constexpr = false;
          cp = tline;
        } in
        settle (find_hash start) λ c.
          if not (in_comment c.incomment) && is_hash c.linestate
          then directive_line (in_comment comment) newline tline rest c
          else plain_line newline tline rest c

    -- parseline: `isplain` is `text || ignoring[depth]`.
    unfoldable pub parseline : Reader → Parsed
    unfolding fgets newline_of parse_text
    parseline r = elim (fgets (maxline - 1) r.input) [
      | none ↦
          parsed
            (record { linetype = eof; before = []; keyword = []; incomment = in_comment r.comment })
            r
      | some p ↦ parse_text r.comment r.linestate (newline_of r.newline p.0) p.0 p.1
    ]
