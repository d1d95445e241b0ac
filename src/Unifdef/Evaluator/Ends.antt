-- ===== src/Unifdef/Evaluator/Ends.antt =====
-- scripts/unifdef.c: eval_table, eval_unary and ifeval end on every text.
use embtoolkit.Base.{
  ℕ, zero, suc, ◌+◌, ◌*◌, ◌≤◌, ◌≡◌, refl, ap, Bool, not, List, [], ◌∷◌, none, some, Text, skip,
  length, arith, Option-cases, inl, inr,
}
use embtoolkit.Unifdef.Comment.Stops.{length-skip}
use embtoolkit.Unifdef.Symbols.{Symbol}
use embtoolkit.Unifdef.Evaluator.{
  Op, op_or, op_and, op_eq, op_ne, op_le, op_ge, op_lt, op_gt, str, eval_ops, Truth, Value, Cursor,
  Result, ok, lt_error, fatal, out_of_fuel, advance, find_op, primary, skip_at, eval_primary,
  eval_level, eval_loop, conclude, enough, ifeval,
}
use embtoolkit.Unifdef.Evaluator.Total.{Sure, Total, Total-bind, Left, ValueLeft, skip_at-Total}
use embtoolkit.Unifdef.Evaluator.Innermost.{Enough, eval_primary-Total}

find_op-nil : (row : List Op) → find_op row [] ≡ none
unfolding find_op
find_op-nil [] = refl
find_op-nil (op_or ∷ row) = find_op-nil row
find_op-nil (op_and ∷ row) = find_op-nil row
find_op-nil (op_eq ∷ row) = find_op-nil row
find_op-nil (op_ne ∷ row) = find_op-nil row
find_op-nil (op_le ∷ row) = find_op-nil row
find_op-nil (op_ge ∷ row) = find_op-nil row
find_op-nil (op_lt ∷ row) = find_op-nil row
find_op-nil (op_gt ∷ row) = find_op-nil row

length-str : (op : Op) → 1 ≤ length (str op)
length-str op_or = omega arith
length-str op_and = omega arith
length-str op_eq = omega arith
length-str op_ne = omega arith
length-str op_le = omega arith
length-str op_ge = omega arith
length-str op_lt = omega arith
length-str op_gt = omega arith

skip-some : (n : ℕ) (t : Text) → 1 ≤ n → 1 ≤ length t → length (skip n t) + 1 ≤ length t
skip-some n [] h k = absurd (omega (arith, k))
skip-some zero (d ∷ t) h k = absurd (omega (arith, h))
skip-some (suc n) (d ∷ t) h k = let i = length-skip n t in omega (arith, i)

-- An operator that is found is passed.
found-shorter :
    (row : List Op) (t : Text) (op : Op)
    → find_op row t ≡ some op
    → length (skip (length (str op)) t) + 1 ≤ length t
found-shorter row [] op h = let k = find_op-nil row in cc
found-shorter row (d ∷ t) op h = skip-some (length (str op)) (d ∷ t) (length-str op) (omega arith)

module _ (plain : Bool) (syms : List Symbol) (strictlogic : Bool) where
  nonempty-Total :
      (f n val : ℕ) (c : Cursor) (t : Text)
      → t ≡ c.cp
      → Enough plain syms strictlogic f (eval_level plain syms strictlogic f)
      → length c.cp ≤ n
      → 6 * length c.cp ≤ f
      → Total (ValueLeft n) (
          eval_primary plain syms strictlogic
            (eval_level plain syms strictlogic f)
            val
            c
            (primary t))
  unfolding primary eval_primary
  nonempty-Total f n val c [] e h k l = tt
  nonempty-Total f n val c (d ∷ t) e h k l =
      let i = ap length e in
      eval_primary-Total plain syms strictlogic f n val (eval_level plain syms strictlogic f) c
        (primary (d ∷ t)) h (omega (arith, i)) k l

  mutual
    unfolding eval_level eval_loop

    pub eval_level-Total :
        (f : ℕ) → Enough plain syms strictlogic f (eval_level plain syms strictlogic f)
    eval_level-Total zero rows val c h = absurd (omega (arith, h))
    eval_level-Total (suc f) [] val c h =
        Total-bind (Left (length c.cp)) (ValueLeft (length c.cp)) (skip_at plain c) _
          (skip_at-Total plain c (length c.cp) (omega arith))
          λ c' k.
            nonempty-Total f (length c.cp) val c' c'.cp refl (eval_level-Total f) k
              (omega (arith, h, k))
    eval_level-Total (suc f) (row ∷ inner) val c h =
        Total-bind (ValueLeft (length c.cp)) (ValueLeft (length c.cp))
          (eval_level plain syms strictlogic f inner val c) _
          (eval_level-Total f inner val c (omega (arith, h)))
          λ p k. eval_loop-Total f row inner p.0 p.1 (length c.cp) k (omega (arith, h, k))

    eval_loop-Total :
        (f : ℕ) (row : List Op) (inner : List (List Op)) (v : Value) (c : Cursor) (n : ℕ)
        → length c.cp ≤ n
        → 6 * length c.cp + length inner + 1 ≤ f
        → Total (ValueLeft n) (eval_loop plain syms strictlogic f row inner v c)
    eval_loop-Total zero row inner v c n h b = absurd (omega (arith, b))
    eval_loop-Total (suc f) row inner v c n h b =
        Total-bind (Left (length c.cp)) (ValueLeft n) (skip_at plain c) _
          (skip_at-Total plain c (length c.cp) (omega arith))
          λ c' k. elim (Option-cases (find_op row c'.cp)) [
            | inl e ↦ rw e (omega (arith, h, k))
            | inr (op, e) ↦
                let s = found-shorter row c'.cp op e in
                let m = length (skip (length (str op)) c'.cp) in
                rw e (
                  Total-bind (ValueLeft m) (ValueLeft n)
                    (eval_level plain syms strictlogic f inner 0 (advance (length (str op)) c')) _
                    (eval_level-Total f inner 0 (advance (length (str op)) c')
                      (omega (arith, s, k, b)))
                    λ p j.
                      eval_loop-Total f row inner _ p.1 n (omega (arith, s, k, h, j))
                        (omega (arith, s, k, b, j)))
          ]

  abbrev pub TruthLeft : ℕ → Truth × Cursor → Type 0
  TruthLeft n p = Left n p.1

  conclude-Sure :
      (c : Cursor) (r : Result (Value × Cursor))
      → Total (ValueLeft (length c.cp)) r
      → Sure (TruthLeft (length c.cp)) (conclude c r)
  conclude-Sure c (ok p) h = h
  conclude-Sure c (lt_error c') h = omega arith
  conclude-Sure c (fatal m) h = tt
  conclude-Sure c out_of_fuel h = h

  -- ifeval ends on every text, with a result that leaves no more of the text, or by a call of error().
  pub ifeval-Sure :
      (killconsts : Bool) (c : Cursor)
      → Sure (TruthLeft (length c.cp)) (ifeval plain syms strictlogic killconsts c)
  unfolding ifeval
  ifeval-Sure killconsts c = conclude-Sure c _ (
      eval_level-Total (enough c.cp) eval_ops 0 (record c { constexpr = not killconsts })
        (omega arith))
