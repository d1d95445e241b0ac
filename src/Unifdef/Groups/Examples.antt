-- ===== src/Unifdef/Groups/Examples.antt =====
-- scripts/unifdef.c: well nested groups.
use embtoolkit.Base.{◌≡◌, refl, true, false, [], ◌∷◌, Text, codes, arith}
use embtoolkit.Unifdef.Evaluator.Syntax.{name, atom}
use embtoolkit.Unifdef.Groups.{
  unknown, known, Piece, Source, nothing, text_line, group, at_else, at_elif, at_endif, append,
  texts, resolve,
}
use embtoolkit.Unifdef.Groups.Output.{Fits}

abbrev hash : Text → Piece
hash t = (codes "#", t)

abbrev just : Text → Piece
just t = ([], t)

-- A false part, one that stays, one that is true, and the rest, in which a group is nested.
abbrev sample : Source
sample =
    group (known false) (hash (codes "if A\n")) (text_line (just (codes "a\n")) nothing)
      (at_elif (unknown (atom (name (codes "B")))) (hash (codes "elif B\n"))
        (text_line (just (codes "b\n")) nothing)
        (at_elif (known true) (hash (codes "elif C\n")) (text_line (just (codes "c\n")) nothing) (
          at_else (hash (codes "else\n"))
            (group (unknown (atom (name (codes "D")))) (hash (codes "if D\n")) nothing
              (at_endif (hash (codes "endif\n"))) nothing)
            (hash (codes "endif\n")))))
      (text_line (just (codes "e\n")) nothing)

sample-Fits : Fits 0 sample
unfolding Fits
sample-Fits = (omega arith, (tt, ((tt, (tt, (omega arith, (tt, (tt, tt))))), tt)))

sample-resolve :
    texts (resolve (codes "\n") sample)
    ≡ codes "#if   B\n"
      ∷ codes "b\n"
      ∷ codes "#else\n"
      ∷ codes "c\n"
      ∷ codes "#endif\n"
      ∷ codes "e\n"
      ∷ []
unfolding texts resolve append
sample-resolve = refl
