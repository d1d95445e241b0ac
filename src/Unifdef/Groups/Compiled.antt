-- ===== src/Unifdef/Groups/Compiled.antt =====
-- scripts/unifdef.c: what a compiler keeps of well nested groups, and what resolving their conditions
-- leaves.
use embtoolkit.Base.{
  ◌≡◌, refl, ap, ap₂, ◌∙◌, Bool, true, false, List, [], ◌∷◌, ◌++◌, Text, if◌then◌else◌,
  append_assoc, append-nil,
}
use embtoolkit.Unifdef.Evaluator.{eval_ops}
use embtoolkit.Unifdef.Evaluator.Syntax.{Expr}
use embtoolkit.Unifdef.Groups.{
  Condition, unknown, known, Source, nothing, text_line, group, Parts, at_endif, at_else, at_elif,
  joined, append, resolve, first_part, resolve_parts,
}

-- What a compiler keeps, which knows all conditions: the plain lines of the parts that it takes.
module _ (holds : Expr eval_ops → Bool) where
  abbrev pub value : Condition → Bool
  value (unknown n) = holds n
  value (known b) = b

  unfoldable mutual
    pub compiled : Source → List Text
    compiled nothing = []
    compiled (text_line p s) = joined p ∷ compiled s
    compiled (group c p s r after) =
        (if value c then compiled s else compiled_parts r) ++ compiled after

    pub compiled_parts : Parts → List Text
    compiled_parts (at_endif p) = []
    compiled_parts (at_else p s q) = compiled s
    compiled_parts (at_elif c p s r) = if value c then compiled s else compiled_parts r

  compiled-append : (s t : Source) → compiled (append s t) ≡ compiled s ++ compiled t
  unfolding compiled append
  compiled-append nothing t = refl
  compiled-append (text_line p s) t = ap (λ x. joined p ∷ x) (compiled-append s t)
  compiled-append (group c p s r after) t =
      let i = compiled-append after t in simp (i, append_assoc)

  mutual
    unfolding compiled resolve compiled_parts first_part resolve_parts

    pub compiled-resolve : (newline : Text) (s : Source) → compiled (resolve newline s) ≡ compiled s
    compiled-resolve w nothing = refl
    compiled-resolve w (text_line p s) = ap (λ x. joined p ∷ x) (compiled-resolve w s)
    compiled-resolve w (group (unknown n) p s r after) =
        let a = compiled-resolve w s in
        let b = compiled-resolve_parts w r in let c = compiled-resolve w after in simp (a, b, c)
    compiled-resolve w (group (known true) p s r after) =
        compiled-append (resolve w s) (resolve w after)
        ∙ ap₂ (λ x y. x ++ y) (compiled-resolve w s) (compiled-resolve w after)
    compiled-resolve w (group (known false) p s r after) =
        compiled-append (first_part w r) (resolve w after)
        ∙ ap₂ (λ x y. x ++ y) (compiled-first_part w r) (compiled-resolve w after)

    compiled-first_part :
        (newline : Text) (r : Parts) → compiled (first_part newline r) ≡ compiled_parts r
    compiled-first_part w (at_endif p) = refl
    compiled-first_part w (at_else p s q) = compiled-resolve w s
    compiled-first_part w (at_elif (unknown n) p s r) =
        let a = compiled-resolve w s in
        let b = compiled-resolve_parts w r in simp (a, b, append-nil)
    compiled-first_part w (at_elif (known true) p s r) = compiled-resolve w s
    compiled-first_part w (at_elif (known false) p s r) = compiled-first_part w r

    compiled-resolve_parts :
        (newline : Text) (r : Parts) → compiled_parts (resolve_parts newline r) ≡ compiled_parts r
    compiled-resolve_parts w (at_endif p) = refl
    compiled-resolve_parts w (at_else p s q) = compiled-resolve w s
    compiled-resolve_parts w (at_elif (unknown n) p s r) =
        let a = compiled-resolve w s in let b = compiled-resolve_parts w r in simp (a, b)
    compiled-resolve_parts w (at_elif (known true) p s r) = compiled-resolve w s
    compiled-resolve_parts w (at_elif (known false) p s r) = compiled-resolve_parts w r

-- No condition is left that unifdef knows.
unfoldable mutual
  pub Undecided : Source → Type 0
  Undecided nothing = Unit
  Undecided (text_line p s) = Undecided s
  Undecided (group (unknown n) p s r after) = Undecided s × (PartsUndecided r × Undecided after)
  Undecided (group (known b) p s r after) = ⊥

  pub PartsUndecided : Parts → Type 0
  PartsUndecided (at_endif p) = Unit
  PartsUndecided (at_else p s q) = Undecided s
  PartsUndecided (at_elif (unknown n) p s r) = Undecided s × PartsUndecided r
  PartsUndecided (at_elif (known b) p s r) = ⊥

append-Undecided : (s t : Source) → Undecided s → Undecided t → Undecided (append s t)
unfolding append Undecided PartsUndecided
append-Undecided nothing t h k = k
append-Undecided (text_line p s) t h k = append-Undecided s t h k
append-Undecided (group (unknown n) p s r after) t (a, (b, c)) k =
    (a, (b, append-Undecided after t c k))
append-Undecided (group (known v) p s r after) t h k = absurd h

mutual
  unfolding resolve first_part resolve_parts Undecided PartsUndecided

  pub resolve-Undecided : (w : Text) (s : Source) → Undecided (resolve w s)
  resolve-Undecided w nothing = tt
  resolve-Undecided w (text_line p s) = resolve-Undecided w s
  resolve-Undecided w (group (unknown n) p s r after) =
      (resolve-Undecided w s, (resolve_parts-Undecided w r, resolve-Undecided w after))
  resolve-Undecided w (group (known true) p s r after) =
      append-Undecided (resolve w s) (resolve w after) (resolve-Undecided w s)
        (resolve-Undecided w after)
  resolve-Undecided w (group (known false) p s r after) =
      append-Undecided (first_part w r) (resolve w after) (first_part-Undecided w r)
        (resolve-Undecided w after)

  first_part-Undecided : (w : Text) (r : Parts) → Undecided (first_part w r)
  first_part-Undecided w (at_endif p) = tt
  first_part-Undecided w (at_else p s q) = resolve-Undecided w s
  first_part-Undecided w (at_elif (unknown n) p s r) =
      (resolve-Undecided w s, (resolve_parts-Undecided w r, tt))
  first_part-Undecided w (at_elif (known true) p s r) = resolve-Undecided w s
  first_part-Undecided w (at_elif (known false) p s r) = first_part-Undecided w r

  resolve_parts-Undecided : (w : Text) (r : Parts) → PartsUndecided (resolve_parts w r)
  resolve_parts-Undecided w (at_endif p) = tt
  resolve_parts-Undecided w (at_else p s q) = resolve-Undecided w s
  resolve_parts-Undecided w (at_elif (unknown n) p s r) =
      (resolve-Undecided w s, resolve_parts-Undecided w r)
  resolve_parts-Undecided w (at_elif (known true) p s r) = resolve-Undecided w s
  resolve_parts-Undecided w (at_elif (known false) p s r) = resolve_parts-Undecided w r
