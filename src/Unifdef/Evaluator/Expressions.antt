-- ===== src/Unifdef/Evaluator/Expressions.antt =====
-- scripts/unifdef.c: every valid expression is read where it is printed.
use embtoolkit.Base.{
  ℕ, zero, suc, ◌+◌, ◌*◌, ◌≤◌, ◌≡◌, refl, ap, ◌∙◌, Bool, true, false, ◌&&◌, List, [], ◌∷◌, ◌++◌,
  Text, codes, if-true, length, length-append, arith, append_assoc,
}
use embtoolkit.Unifdef.Comment.{Linestate, at}
use embtoolkit.Unifdef.Symbols.{Symbol}
use embtoolkit.Unifdef.Evaluator.{
  Op, str, eval_ops, Value, Cursor, Result, ok, bind, negate, advance, find_op, bang, paren,
  primary, skip_at, eval_primary, eval_level, eval_loop, op_fn,
}
use embtoolkit.Unifdef.Evaluator.Skip.{cur, skip_at-ordinary, skip_at-blank}
use embtoolkit.Unifdef.Evaluator.Syntax.{
  Expr, number, name, defined, negated, parens, tighter, binary, print, IsValid, constant,
  known_value, has_op, begins, join,
}
use embtoolkit.Unifdef.Evaluator.Values.{negate-Represents, op_fn-Represents}
use embtoolkit.Unifdef.Evaluator.Reads.{Tail, Gives, Reads, at_primary, number-Reads}
use embtoolkit.Unifdef.Evaluator.Names.{name-Reads, defined-Reads}
use embtoolkit.Unifdef.Evaluator.Levels.{
  spine, spine-length, print-start, Chain, Holds, loop-step, reads,
}
use embtoolkit.Unifdef.Evaluator.Operators.{find_op-printed, begins-NoOps, op-Tail, skip-append}

and-swap : (a e q : Bool) → (e && (a && q)) ≡ ((a && e) && q)
and-swap true e q = refl
and-swap false true q = refl
and-swap false false q = refl

module _ (syms : List Symbol) (strictlogic : Bool) where
  level-first :
      (g val : ℕ) (row : List Op) (inner : List (List Op)) (c : Cursor) (w : Value) (c' : Cursor)
      → eval_level false syms strictlogic g inner val c ≡ ok (w, c')
      → eval_level false syms strictlogic (suc g) (row ∷ inner) val c
        ≡ eval_loop false syms strictlogic g row inner w c'
  unfolding eval_level
  level-first g val row inner c w c' h = rw (h, bind) refl

  from_suc :
      (e : Expr [])
      → ((f val : ℕ) (l : Linestate) (q : Bool) (c : Cursor) (r : Text) (l2 : Linestate) (r2 : Text)
          → Tail l r l2 r2
          → skip_at false c ≡ ok (cur l q (print e ++ r))
          → 6 * length (print e) ≤ f
          → Gives syms strictlogic
              (suc f)
              []
              val
              c
              (known_value syms strictlogic e)
              (cur l2 (constant e && q) r2))
      → Reads syms strictlogic [] e
  from_suc e h zero val l q c r l2 r2 k n s b = absurd (omega (arith, b))
  from_suc e h (suc f) val l q c r l2 r2 k n s b = h f val l q c r l2 r2 k s (omega (arith, b))

  bang_case :
      (again : List (List Op) → ℕ → Cursor → Result (Value × Cursor)) (val : ℕ) (c c' : Cursor)
      (w : Value)
      → again [] val (advance 1 c) ≡ ok (w, c')
      → eval_primary false syms strictlogic again val c bang ≡ ok (negate w, c')
  unfolding eval_primary
  bang_case again val c c' w h = rw (h, bind) refl

  negated-Reads :
      (e : Expr [])
      → IsValid syms e
      → Reads syms strictlogic [] e
      → Reads syms strictlogic [] (negated e)
  unfolding print known_value constant primary
  negated-Reads e v h = from_suc (negated e) λ f val l q c r l2 r2 k s b.
      let (w, c', d, p, t) =
        h f val l q (cur l q (print e ++ r)) r l2 r2 k tt (print-start syms strictlogic e v l q r)
          (omega (arith, b)) in
      (
        negate w,
        c',
        at_primary syms strictlogic f val c (cur l q ((33 ∷ print e) ++ r)) bang s refl
            ∙ bang_case (eval_level false syms strictlogic f) val (cur l q ((33 ∷ print e) ++ r)) c'
                w d,
        negate-Represents _ w p,
        t,
      )

  paren_case :
      (again : List (List Op) → ℕ → Cursor → Result (Value × Cursor)) (val : ℕ) (c c' c2 : Cursor)
      (w : Value)
      → again eval_ops val (advance 1 c) ≡ ok (w, c')
      → skip_at false c' ≡ ok c2
      → at 41 c2.cp ≡ true
      → eval_primary false syms strictlogic again val c paren ≡ ok (w, advance 1 c2)
  unfolding eval_primary
  paren_case again val c c' c2 w h s k = rw (h, bind) (rw (s, bind) (if-true _ _ k))

  parens-Reads :
      (e : Expr eval_ops)
      → IsValid syms e
      → Reads syms strictlogic eval_ops e
      → Reads syms strictlogic [] (parens e)
  unfolding print known_value constant primary find_op
  parens-Reads e v h = from_suc (parens e) λ f val l q c r l2 r2 k s b.
      let a = length-append (print e) (codes ")") in
      let u = print e ++ (41 ∷ r) in
      let close = cur l (constant e && q) (41 ∷ r) in
      let (w, c', d, p, t) =
        h f val l q (cur l q u) (41 ∷ r) l (41 ∷ r)
          (λ q. skip_at-ordinary l q 41 r refl, λ q. skip_at-ordinary l q 41 r refl, refl, refl)
          (refl, (refl, (refl, (refl, tt)))) (print-start syms strictlogic e v l q (41 ∷ r))
          (omega (arith, a, b)) in
      (
        w,
        cur l (constant e && q) r,
        at_primary syms strictlogic f val c (cur l q (40 ∷ u)) paren
              (s ∙ ap (λ t. ok (cur l q (40 ∷ t))) (append_assoc (print e) (codes ")") r)) refl
            ∙ paren_case (eval_level false syms strictlogic f) val (cur l q (40 ∷ u)) c' close w d t
                refl,
        p,
        k.0 (constant e && q),
      )

  tighter-Chain :
      (row : List Op) (inner : List (List Op)) (e : Expr inner)
      → Reads syms strictlogic inner e
      → Chain syms strictlogic row inner (tighter row inner e)
  unfolding print known_value constant
  tighter-Chain row inner e h = λ g val l q c r l2 r2 k n s b.
      let (w, c', d, p, t) = h g val l q c r l2 r2 k n s (omega (arith, b)) in
      let z : suc (0 + g) ≡ suc g = omega arith in
      (
        w,
        c',
        ap (λ f. eval_level false syms strictlogic f (row ∷ inner) val c) z
            ∙ level-first g val row inner c w c' d,
        p,
        t,
      )

  binary-Chain :
      (row : List Op) (inner : List (List Op)) (op : Op) (a : Expr (row ∷ inner)) (e : Expr inner)
      → has_op row op ≡ true
      → begins inner op ≡ false
      → IsValid syms e
      → Chain syms strictlogic row inner a
      → Reads syms strictlogic inner e
      → Chain syms strictlogic row inner (binary row inner op a e)
  unfolding print known_value constant
  binary-Chain row inner op a e o m v x y = λ g val l q c r l2 r2 k n s b.
      let i = spine-length syms strictlogic a in
      let t = 32 ∷ (print e ++ r) in
      let z = length-append (print a) (32 ∷ (str op ++ (32 ∷ print e))) in
      let z' = length-append (str op) (32 ∷ print e) in
      let fuel : 6 * length (print a) + 6 * length (print e) + 12 + length inner ≤ spine a + g + 1 =
        omega (arith, b, z, z') in
      let split : (print a ++ (32 ∷ (str op ++ (32 ∷ print e)))) ++ r
          ≡ print a ++ (32 ∷ (str op ++ t)) =
        append_assoc (print a) (32 ∷ (str op ++ (32 ∷ print e))) r
        ∙ ap (λ u. print a ++ (32 ∷ u)) (append_assoc (str op) (32 ∷ print e) r) in
      let (w, c1, d, p, u) =
        x (suc g) val l q c (32 ∷ (str op ++ t)) l (str op ++ t) (op-Tail l op t)
          (begins-NoOps inner op (print e ++ r) m) (s ∙ ap (λ u. ok (cur l q u)) split)
          (omega (arith, fuel)) in
      let q1 = constant a && q in
      let (w', c2, d', p', u') =
        y g 0 l q1 (advance (length (str op)) (cur l q1 (str op ++ t))) r l2 r2 k n
          (ap (λ u. skip_at false (cur l q1 u)) (skip-append (str op) t)
            ∙ skip_at-blank l q1 (print e ++ r) _ (print-start syms strictlogic e v l q1 r))
          (omega (arith, fuel, i)) in
      let f : suc (suc (spine a) + g) ≡ suc (spine a + suc g) = omega arith in
      (
        op_fn strictlogic op w w',
        c2,
        ap (λ f. eval_level false syms strictlogic f (row ∷ inner) val c) f
            ∙ d
            ∙ loop-step syms strictlogic g row inner w w' c1 (cur l q1 (str op ++ t)) c2 op u
                (find_op-printed row op (print e ++ r) o) d',
        op_fn-Represents strictlogic op _ _ w w' p p',
        u' ∙ ap (λ q. ok (cur l2 q r2)) (and-swap (constant a) (constant e) q),
      )

  -- Every valid expression is read where it is printed.
  pub holds :
      {rows : List (List Op)} (e : Expr rows) → IsValid syms e → Holds syms strictlogic rows e
  unfolding IsValid known_value constant print
  holds (number t) v =
      from_suc (number t)
        λ f val l q c r l2 r2 k s b. number-Reads syms strictlogic f val l q c t r l2 r2 k v s
  holds (name x) v = from_suc (name x) λ f val l q c r l2 r2 k s b.
      rw (ap join v.1.1) (name-Reads syms strictlogic f val l q c x r l2 r2 k v.0 v.1.0 v.1.1 s)
  holds (defined b x) v =
      from_suc (defined b x)
        λ f val l q c r l2 r2 k s z. defined-Reads syms strictlogic f val l q c b x r l2 r2 k v s
  holds (negated e) v = negated-Reads e v (holds e v)
  holds (parens e) v = parens-Reads e v (reads syms strictlogic eval_ops e (holds e v))
  holds (tighter row inner e) v =
      tighter-Chain row inner e (reads syms strictlogic inner e (holds e v))
  holds (binary row inner op a e) v =
      binary-Chain row inner op a e v.0 v.1 v.3 (holds a v.2)
        (reads syms strictlogic inner e (holds e v.3))
