-- ===== src/Unifdef/Evaluator/Innermost.antt =====
-- scripts/unifdef.c: the fuel is enough for the innermost parts of expressions, on every text.
use embtoolkit.Base.{
  ℕ, ◌+◌, ◌*◌, ◌≤◌, Bool, true, false, List, [], Option, none, some, Text, length, arith,
}
use embtoolkit.Unifdef.Comment.{at}
use embtoolkit.Unifdef.Comment.Stops.{length-skip}
use embtoolkit.Unifdef.Symbols.{Symbol, skipsym, findsym}
use embtoolkit.Unifdef.Numerals.{strtol}
use embtoolkit.Unifdef.Evaluator.{
  Op, eval_ops, Value, truth, Cursor, Result, ok, lt_error, fatal, out_of_fuel, bind, advance,
  Primary, bang, paren, number, is_defined, symbol, bad_expr, skip_at, skipargs, eval_number,
  eval_defined, eval_symbol, end_symbol, symbol_value, has_args, eval_primary,
}
use embtoolkit.Unifdef.Evaluator.Total.{
  Total, Total-bind, Left, ValueLeft, if-Total, skip_at-Total, skipargs-Total, length-skipsym,
  shorter,
}

module _ (plain : Bool) where
  eval_defined-Total :
      (syms : List Symbol) (strictlogic : Bool) (val n : ℕ) (b : Bool) (c : Cursor)
      → length c.cp ≤ n
      → Total (ValueLeft n) (eval_defined plain syms strictlogic val b c)
  unfolding eval_defined
  eval_defined-Total syms strictlogic val n b c h =
      let k = length-skipsym c.cp in
      Total-bind (Left n) (ValueLeft n) (skip_at plain (record c { cp = skipsym c.cp })) _
        (skip_at-Total plain (record c { cp = skipsym c.cp }) n (omega (arith, h, k)))
        λ c' j.
          let i = length-skip 1 c'.cp in
          if-Total (ValueLeft n) b _ _
            (λ e. if-Total (ValueLeft n) (at 41 c'.cp) _ _ (λ e. omega (arith, i, j)) tt) j

  eval_symbol-Total :
      (syms : List Symbol) (strictlogic : Bool) (val n : ℕ) (o : Option Symbol) (c : Cursor)
      → length c.cp ≤ n
      → Total (ValueLeft n) (eval_symbol plain syms strictlogic val o c)
  unfolding eval_symbol
  eval_symbol-Total syms strictlogic val n none c h =
      let k = length-skipsym c.cp in
      Total-bind (Left n) (ValueLeft n) (skipargs plain (record c { cp = skipsym c.cp })) _
        (skipargs-Total plain (record c { cp = skipsym c.cp }) n (omega (arith, h, k))) λ c' j. j
  eval_symbol-Total syms strictlogic val n (some s) c h =
      valued (symbol_value s.value) (has_args (some s))
    where
      valued :
          (o : Option ℕ) (b : Bool)
          → Total (ValueLeft n) (elim o as (λ x. Result (Value × Cursor)) [
            | none ↦ lt_error c
            | some v ↦ elim b as (λ x. Result (Value × Cursor)) [
              | false ↦ end_symbol (truth v, v) (record c { cp = skipsym c.cp })
              | true ↦
                  bind (skipargs plain (record c { cp = skipsym c.cp })) (end_symbol (truth v, v))
            ]
          ])
      valued none b = tt
      valued (some v) false = let k = length-skipsym c.cp in omega (arith, h, k)
      valued (some v) true =
          let k = length-skipsym c.cp in
          Total-bind (Left n) (ValueLeft n) (skipargs plain (record c { cp = skipsym c.cp })) _
            (skipargs-Total plain (record c { cp = skipsym c.cp }) n (omega (arith, h, k)))
            λ c' j. j

  module _ (syms : List Symbol) (strictlogic : Bool) where
    -- The fuel is enough for the text.
    abbrev pub Enough : ℕ → (List (List Op) → ℕ → Cursor → Result (Value × Cursor)) → Type 0
    Enough f again =
        (rows : List (List Op)) (val : ℕ) (c : Cursor)
        → 6 * length c.cp + length rows + 1 ≤ f
        → Total (ValueLeft (length c.cp)) (again rows val c)

    pub again-Total :
        (f n : ℕ) (again : List (List Op) → ℕ → Cursor → Result (Value × Cursor))
        (rows : List (List Op)) (val : ℕ) (c : Cursor)
        → Enough f again
        → length c.cp ≤ n
        → 6 * length c.cp + length rows + 1 ≤ f
        → Total (ValueLeft n) (again rows val c)
    again-Total f n again rows val c h k l = widen (again rows val c) (h rows val c l)
      where
        widen :
            (r : Result (Value × Cursor))
            → Total (ValueLeft (length c.cp)) r
            → Total (ValueLeft n) r
        widen (ok p) h = omega (arith, h, k)
        widen (lt_error c) h = tt
        widen (fatal m) h = tt
        widen out_of_fuel h = h

    pub eval_primary-Total :
        (f n val : ℕ) (again : List (List Op) → ℕ → Cursor → Result (Value × Cursor)) (c : Cursor)
        (p : Primary)
        → Enough f again
        → 1 ≤ length c.cp
        → length c.cp ≤ n
        → 6 * length c.cp ≤ f
        → Total (ValueLeft n) (eval_primary plain syms strictlogic again val c p)
    unfolding eval_primary
    eval_primary-Total f n val again c bang h a b d =
        let s = shorter c.cp a in
        Total-bind (ValueLeft n) (ValueLeft n) (again [] val (advance 1 c)) _
          (again-Total f n again [] val (advance 1 c) h (omega (arith, s, b)) (omega (arith, s, d)))
          λ p k. k
    eval_primary-Total f n val again c paren h a b d =
        let s = shorter c.cp a in
        Total-bind (ValueLeft n) (ValueLeft n) (again eval_ops val (advance 1 c)) _
          (again-Total f n again eval_ops val (advance 1 c) h (omega (arith, s, b))
            (omega (arith, s, d)))
          λ p k.
            Total-bind (Left n) (ValueLeft n) (skip_at plain p.1) _ (skip_at-Total plain p.1 n k)
              λ c' j.
                let i = length-skip 1 c'.cp in
                if-Total (ValueLeft n) (at 41 c'.cp) _ _ (λ e. omega (arith, i, j)) tt
    eval_primary-Total f n val again c number h a b d = read (strtol c.cp)
      where
        read : (o : Option (ℕ × Text)) → Total (ValueLeft n) (eval_number c o)
        read none = tt
        read (some (v, ep)) = let k = length-skipsym c.cp in omega (arith, k, b)
    eval_primary-Total f n val again c is_defined h a b d =
        let i = length-skip 7 c.cp in
        Total-bind (Left n) (ValueLeft n) (skip_at plain (advance 7 c)) _
          (skip_at-Total plain (advance 7 c) n (omega (arith, i, b)))
          λ c' j.
            let k = length-skip 1 c'.cp in
            if-Total (ValueLeft n) (at 40 c'.cp) _ _
              (λ e.
                Total-bind (Left n) (ValueLeft n) (skip_at plain (advance 1 c')) _
                  (skip_at-Total plain (advance 1 c') n (omega (arith, j, k)))
                  λ c'' l. eval_defined-Total syms strictlogic val n true c'' l)
              (eval_defined-Total syms strictlogic val n false c' j)
    eval_primary-Total f n val again c symbol h a b d =
        eval_symbol-Total syms strictlogic val n (findsym syms c.cp) c b
    eval_primary-Total f n val again c bad_expr h a b d = tt
