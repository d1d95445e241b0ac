-- ===== src/Unifdef/Evaluator/Reads.antt =====
-- scripts/unifdef.c: what the evaluator does on the innermost parts of an expression.
use embtoolkit.Base.{
  ℕ, suc, ◌+◌, ◌*◌, ◌≤◌, ◌≡◌, refl, ap, ◌∙◌, Bool, true, false, ◌&&◌, List, [], ◌∷◌, ◌++◌, Option,
  none, some, Text, leb, length, arith,
}
use embtoolkit.Unifdef.Comment.{Linestate, at}
use embtoolkit.Unifdef.Symbols.{endsym, skipsym, Symbol}
use embtoolkit.Unifdef.Symbols.Words.{IsNumber, number_value, strtol-number, skipsym-append}
use embtoolkit.Unifdef.Evaluator.{
  Op, truth, Value, Cursor, Result, ok, bind, find_op, Primary, number, primary, skip_at,
  eval_number, eval_primary, eval_level,
}
use embtoolkit.Unifdef.Numerals.{strtol}
use embtoolkit.Unifdef.Evaluator.Skip.{cur}
use embtoolkit.Unifdef.Evaluator.Syntax.{Expr, print, constant, known_value}
use embtoolkit.Unifdef.Evaluator.Values.{Represents}

-- What may follow an expression: skipcomment goes from r to r2 and no further, r does not go on with
-- an identifier, and no arguments follow.
abbrev pub Tail : Linestate → Text → Linestate → Text → Type 0
Tail l r l2 r2 =
    ((q : Bool) → skip_at false (cur l q r) ≡ ok (cur l2 q r2))
    × ((q : Bool) → skip_at false (cur l2 q r2) ≡ ok (cur l2 q r2))
    × (endsym r ≡ true)
    × (at 40 r2 ≡ false)

abbrev pub NoOps : List (List Op) → Text → Type 0
NoOps [] t = Unit
NoOps (row ∷ rows) t = (find_op row t ≡ none) × NoOps rows t

module _ (syms : List Symbol) (strictlogic : Bool) where
  -- From c on, the evaluator gives the value o and ends where skipcomment then goes to c2.
  abbrev pub Gives : ℕ → List (List Op) → ℕ → Cursor → Option ℕ → Cursor → Type 0
  Gives f rows val c o c2 =
      (w : Value) × (c' : Cursor) × (eval_level false syms strictlogic f rows val c ≡ ok (w, c'))
      × Represents o w
      × (skip_at false c' ≡ ok c2)

  -- An expression is read as it is printed.
  abbrev pub Reads : (rows : List (List Op)) → Expr rows → Type 0
  Reads rows e =
      (f val : ℕ) (l : Linestate) (q : Bool) (c : Cursor) (r : Text) (l2 : Linestate) (r2 : Text)
      → Tail l r l2 r2
      → NoOps rows r2
      → skip_at false c ≡ ok (cur l q (print e ++ r))
      → 6 * length (print e) + length rows + 1 ≤ f
      → Gives f rows val c (known_value syms strictlogic e) (cur l2 (constant e && q) r2)

  -- eval_unary at the first character that is no blank
  pub at_primary :
      (f val : ℕ) (c c1 : Cursor) (p : Primary)
      → skip_at false c ≡ ok c1
      → primary c1.cp ≡ p
      → eval_level false syms strictlogic (suc f) [] val c
        ≡ eval_primary false syms strictlogic (eval_level false syms strictlogic f) val c1 p
  unfolding eval_level
  at_primary f val c c1 p h k =
      ap
        (λ r. bind r λ c'.
          eval_primary false syms strictlogic (eval_level false syms strictlogic f) val c'
            (primary c'.cp))
        h
      ∙ ap (eval_primary false syms strictlogic (eval_level false syms strictlogic f) val c1) k

  number_step :
      (again : List (List Op) → ℕ → Cursor → Result (Value × Cursor)) (val : ℕ) (c : Cursor)
      (ep : Text) {n : ℕ} {r : Text}
      → strtol c.cp ≡ some (n, ep)
      → skipsym c.cp ≡ r
      → eval_primary false syms strictlogic again val c number
        ≡ ok ((truth n, n), record c { cp = r })
  unfolding eval_primary
  number_step again val c ep {n} h k =
      ap (eval_number c) h ∙ ap (λ r. ok ((truth n, n), record c { cp = r })) k

  primary-digit : (d : ℕ) (t : Text) → (leb 48 d && leb d 57) ≡ true → primary (d ∷ t) ≡ number
  unfolding primary
  primary-digit d t h = ground (arith, h)

  pub number-Reads :
      (f val : ℕ) (l : Linestate) (q : Bool) (c : Cursor) (t r : Text) (l2 : Linestate) (r2 : Text)
      → Tail l r l2 r2
      → IsNumber t
      → skip_at false c ≡ ok (cur l q (t ++ r))
      → Gives (suc f) [] val c (some (number_value t)) (cur l2 q r2)
  number-Reads f val l q c [] r l2 r2 t h k = absurd h
  number-Reads f val l q c (d ∷ t) r l2 r2 k h s =
      let n = number_value (d ∷ t) in
      let e = strtol-number (d ∷ t) r h k.2 in
      (
        (truth n, n),
        cur l q r,
        at_primary f val c _ number s (primary-digit d (t ++ r) h.0)
            ∙ number_step (eval_level false syms strictlogic f) val (cur l q ((d ∷ t) ++ r)) e.0 e.1
                (skipsym-append (d ∷ t) r (ground (arith, h)) k.2),
        refl,
        k.0 q,
      )
