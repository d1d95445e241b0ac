-- ===== src/Unifdef/Evaluator/Levels.antt =====
-- scripts/unifdef.c: eval_unary and eval_table on an expression as it is printed.
use embtoolkit.Base.{
  ℕ, suc, ◌+◌, ◌*◌, ◌≤◌, ◌≡◌, refl, ap, ◌∙◌, Bool, true, false, ◌&&◌, List, [], ◌∷◌, ◌++◌, none,
  some, Text, length, length-append, ◌-◌, arith, append_assoc,
}
use embtoolkit.Unifdef.Comment.{Linestate}
use embtoolkit.Unifdef.Symbols.{Symbol}
use embtoolkit.Unifdef.Evaluator.{
  Op, str, Value, Cursor, ok, bind, advance, find_op, skip_at, eval_level, eval_loop, op_fn,
}
use embtoolkit.Unifdef.Evaluator.Skip.{skip_at-word, cur, skip_at-ordinary}
use embtoolkit.Unifdef.Evaluator.Syntax.{
  Expr, number, name, defined, negated, parens, tighter, binary, print, IsValid, constant,
  known_value,
}
use embtoolkit.Unifdef.Evaluator.Values.{Represents}
use embtoolkit.Unifdef.Evaluator.Reads.{Tail, NoOps, Reads}

-- The operators on the way to the first operand
abbrev pub spine : {rows : List (List Op)} → Expr rows → ℕ
spine (binary row inner op a b) = suc (spine a)
spine _ = 0

module _ (syms : List Symbol) (strictlogic : Bool) where
  -- An expression starts at its first character.
  pub print-start :
      {rows : List (List Op)} (e : Expr rows)
      → IsValid syms e
      → (l : Linestate) (q : Bool) (r : Text)
      → skip_at false (cur l q (print e ++ r)) ≡ ok (cur l q (print e ++ r))
  unfolding print IsValid
  print-start (number []) h l q r = absurd h
  print-start (number (d ∷ t)) h l q r = skip_at-ordinary l q d (t ++ r) (ground (arith, h))
  print-start (name []) h l q r = absurd h.0
  print-start (name (d ∷ x)) h l q r = skip_at-word l q d (x ++ r) h.0.0
  print-start (defined true x) h l q r = skip_at-ordinary l q 100 _ refl
  print-start (defined false x) h l q r = skip_at-ordinary l q 100 _ refl
  print-start (negated e) h l q r = skip_at-ordinary l q 33 _ refl
  print-start (parens e) h l q r = skip_at-ordinary l q 40 _ refl
  print-start (tighter row inner e) h l q r = print-start e h l q r
  print-start (binary row inner op a b) h l q r =
      rw (append_assoc (print a) (32 ∷ (str op ++ (32 ∷ print b))) r) (print-start a h.2 l q _)

  -- What eval_level gives, as what the loop of eval_table then has to do: g is the fuel left.
  abbrev pub Chain : (row : List Op) (inner : List (List Op)) → Expr (row ∷ inner) → Type 0
  Chain row inner e =
      (g val : ℕ) (l : Linestate) (q : Bool) (c : Cursor) (r : Text) (l2 : Linestate) (r2 : Text)
      → Tail l r l2 r2
      → NoOps inner r2
      → skip_at false c ≡ ok (cur l q (print e ++ r))
      → 6 * length (print e) + length inner + 1 ≤ spine e + g
      → (w : Value) × (c' : Cursor) × (eval_level false syms strictlogic (suc (spine e + g))
            (row ∷ inner) val c
          ≡ eval_loop false syms strictlogic g row inner w c')
        × Represents (known_value syms strictlogic e) w
        × (skip_at false c' ≡ ok (cur l2 (constant e && q) r2))

  -- The loop ends where no operator of the row follows.
  pub loop-end :
      (g : ℕ) (row : List Op) (inner : List (List Op)) (w : Value) (c c2 : Cursor)
      → skip_at false c ≡ ok c2
      → find_op row c2.cp ≡ none
      → eval_loop false syms strictlogic (suc g) row inner w c ≡ ok (w, c2)
  unfolding eval_loop
  loop-end g row inner w c c2 h k = rw (h, bind) (rw k refl)

  -- Otherwise it goes on behind the operand.
  pub loop-step :
      (g : ℕ) (row : List Op) (inner : List (List Op)) (v w : Value) (c c2 c3 : Cursor) (op : Op)
      → skip_at false c ≡ ok c2
      → find_op row c2.cp ≡ some op
      → eval_level false syms strictlogic g inner 0 (advance (length (str op)) c2) ≡ ok (w, c3)
      → eval_loop false syms strictlogic (suc g) row inner v c
        ≡ eval_loop false syms strictlogic g row inner (op_fn strictlogic op v w) c3
  unfolding eval_loop
  loop-step g row inner v w c c2 c3 op h k e = rw (h, bind) (rw (k, bind) (rw (e, bind) refl))

  -- An operand is read where it stands in a chain, or where it is a unary one.
  abbrev pub Holds : (rows : List (List Op)) → Expr rows → Type 0
  Holds [] e = Reads syms strictlogic [] e
  Holds (row ∷ inner) e = Chain row inner e

  pub spine-length : {rows : List (List Op)} (e : Expr rows) → spine e ≤ length (print e)
  unfolding print
  spine-length (number t) = omega arith
  spine-length (name x) = omega arith
  spine-length (defined b x) = omega arith
  spine-length (negated e) = omega arith
  spine-length (parens e) = omega arith
  spine-length (tighter row inner e) = omega arith
  spine-length (binary row inner op a b) =
      let h = spine-length a in
      let k = length-append (print a) (32 ∷ (str op ++ (32 ∷ print b))) in omega (arith, h, k)

  -- eval_table at the first row of the rows ends where skipcomment stops.
  pub ends-exactly :
      (row : List Op) (inner : List (List Op)) (e : Expr (row ∷ inner))
      → Chain row inner e
      → (f val : ℕ) (l : Linestate) (q : Bool) (c : Cursor) (r : Text) (l2 : Linestate) (r2 : Text)
      → Tail l r l2 r2
      → NoOps (row ∷ inner) r2
      → skip_at false c ≡ ok (cur l q (print e ++ r))
      → 6 * length (print e) + length (row ∷ inner) + 1 ≤ f
      → (w : Value) × (eval_level false syms strictlogic f (row ∷ inner) val c
          ≡ ok (w, cur l2 (constant e && q) r2))
        × Represents (known_value syms strictlogic e) w
  ends-exactly row inner e h f val l q c r l2 r2 k n s b =
      let i = spine-length e in
      let g = f - (spine e + 2) in
      let j : f ≡ suc (spine e + suc g) = omega (arith, i, b) in
      let (w, c', d, p, t) = h (suc g) val l q c r l2 r2 k n.1 s (omega (arith, i, b)) in
      (
        w,
        ap (λ f. eval_level false syms strictlogic f (row ∷ inner) val c) j
            ∙ d
            ∙ loop-end g row inner w c' _ t n.0,
        p,
      )

  pub reads : (rows : List (List Op)) (e : Expr rows) → Holds rows e → Reads syms strictlogic rows e
  reads [] e h = h
  reads (row ∷ inner) e h = λ f val l q c r l2 r2 k n s b.
      let (w, d, p) = ends-exactly row inner e h f val l q c r l2 r2 k n s b in
      (w, cur l2 (constant e && q) r2, d, p, k.1 (constant e && q))
