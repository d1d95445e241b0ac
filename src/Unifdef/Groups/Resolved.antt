-- ===== src/Unifdef/Groups/Resolved.antt =====
-- scripts/unifdef.c: a whole input with well nested groups.
use embtoolkit.Base.{◌+◌, false, ◌≡◌, refl, ap, ◌∙◌, Bool, List, [], ◌∷◌, Text, map}
use embtoolkit.Unifdef.{eof, outside, transition}
use embtoolkit.Unifdef.Machine.{
  State, Line, finished, text, process, initial, step, perform, finish, ◌⨾◌,
}
use embtoolkit.Unifdef.Evaluator.{eval_ops}
use embtoolkit.Unifdef.Evaluator.Syntax.{Expr}
use embtoolkit.Unifdef.Groups.{Source, lines, texts, resolve, line_of}
use embtoolkit.Unifdef.Groups.Moves.{Moves, defaults}
use embtoolkit.Unifdef.Groups.Lines.{in_outside}
use embtoolkit.Unifdef.Groups.Output.{Fits, show}
use embtoolkit.Unifdef.Groups.Compiled.{compiled, compiled-resolve, Undecided, resolve-Undecided}

-- The lines of a source, to the end of the file.
abbrev pub input : Source → List Line
input t = lines t (line_of eof ([], []) ∷ [])

-- On well nested groups of at most 63 levels, without options, unifdef ends regularly, and its
-- output is what resolving the known conditions leaves.
pub process-resolve :
    (newline : Text) (t : Source)
    → Fits 0 t
    → (s : State) × (process (defaults newline) (input t) initial ≡ finished s)
      × (s.written ≡ map text (texts (resolve newline t)))
unfolding Moves process step perform finish
process-resolve newline t f =
    let r = show newline t (line_of eof ([], []) ∷ []) initial 0 in_outside (refl, refl) f in
    let ((d, x), b, w) = r.moves in
    let e : r.end.ifstate r.end.depth ≡ outside = ap r.end.ifstate d ∙ x in
    let last = line_of eof ([], []) in
    let end : State = record r.end { linenum = r.end.linenum + 1; incomment = false } in
    let stop : process (defaults newline) (last ∷ []) r.end ≡ finished end =
      ap
        (λ z.
          perform (defaults newline) (transition z eof) last end ⨾ process (defaults newline) [])
        e in
    (end, r.runs ∙ stop, w)

-- On well nested groups of at most 63 levels, without options, unifdef ends regularly, and there are
-- groups whose lines are its output, none with a condition that unifdef knows, and of which a
-- compiler keeps the same lines as of the input, whatever values the other conditions have.
pub process-compiled :
    (newline : Text) (t : Source)
    → Fits 0 t
    → (s : State) × (u : Source) × (process (defaults newline) (input t) initial ≡ finished s)
      × (s.written ≡ map text (texts u))
      × Undecided u
      × ((holds : Expr eval_ops → Bool) → compiled holds u ≡ compiled holds t)
process-compiled newline t f =
    let (s, e, w) = process-resolve newline t f in
    (
      s,
      resolve newline t,
      e,
      w,
      resolve-Undecided newline t,
      (λ holds. compiled-resolve holds newline t),
    )
