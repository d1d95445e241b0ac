-- ===== src/Unifdef/Evaluator/Names.antt =====
-- scripts/unifdef.c: what the evaluator does on a symbol and on `defined`.
use embtoolkit.Base.{
  ℕ, suc, ◌≡◌, refl, sym, ap, ap₂, ◌∙◌, Bool, true, false, not, List, [], ◌∷◌, ◌++◌, Option, none,
  some, Text, codes, ◌==◌, if◌then◌else◌, if-true, if-false, length, arith, append_assoc, some_inj,
}
use embtoolkit.Unifdef.Comment.{Linestate, at}
use embtoolkit.Unifdef.Symbols.{endsym, skipsym, Symbol, findsym}
use embtoolkit.Unifdef.Symbols.Words.{
  all_word, lookup, skipsym-append, findsym-lookup, keyword-str_eq,
}
use embtoolkit.Unifdef.Evaluator.{
  Op, symbol_value, lt_if, truth, Value, Cursor, Result, ok, lt_error, bind, advance, bang, paren,
  number, is_defined, symbol, bad_expr, primary, skip_at, skipargs, args_loop, eval_defined,
  eval_symbol, end_symbol, eval_primary, eval_level, defined_value, has_args,
}
use embtoolkit.Unifdef.Evaluator.Skip.{skip_at-word, cur, skip_at-ordinary, skip_at-blank}
use embtoolkit.Unifdef.Evaluator.Syntax.{defined, print, IsName, entry_value, entry_defined}
use embtoolkit.Unifdef.Evaluator.Values.{Represents}
use embtoolkit.Unifdef.Evaluator.Reads.{Tail, Gives, at_primary}

module _ (syms : List Symbol) (strictlogic : Bool) where
  skipargs-none :
      (l : Linestate) (q : Bool) (r : Text) (l2 : Linestate) (r2 : Text)
      → Tail l r l2 r2
      → skipargs false (cur l q r) ≡ ok (cur l2 q r2)
  unfolding skipargs
  skipargs-none l q r l2 r2 k =
      ap (λ o. bind o λ c'. if at 40 c'.cp then args_loop false (length c'.cp) 0 r c' else ok c')
        (k.0 q)
      ∙ if-false (args_loop false (length r2) 0 r (cur l2 q r2)) (ok (cur l2 q r2)) k.3

  primary-name :
      (d : ℕ) (x r : Text) → IsName (d ∷ x) → endsym r ≡ true → primary ((d ∷ x) ++ r) ≡ symbol
  unfolding primary
  primary-name d x r h k =
      let a : all_word (d ∷ x) ≡ true = ground (arith, h) in
      let e = keyword-str_eq (codes "defined") (d ∷ x) r refl a k ∙ h.3 in
      let n : endsym ((d ∷ x) ++ r) ≡ false = ground (arith, h) in
      let p : (d == 33) ≡ false = ground (arith, h) in
      let o : (d == 40) ≡ false = ground (arith, h) in
      if-false bang _ p
      ∙ if-false paren _ o
      ∙ if-false number _ h.1
      ∙ if-false is_defined _ e
      ∙ if-true symbol bad_expr (ap not n)

  -- A value, and where skipcomment goes behind it.
  abbrev pub Ends : Option ℕ → Result (Value × Cursor) → Cursor → Type 0
  Ends o res c2 =
      (w : Value) × (c' : Cursor) × (res ≡ ok (w, c')) × Represents o w × (skip_at false c' ≡ ok c2)

  args_step :
      (l : Linestate) (q : Bool) (x r : Text) (l2 : Linestate) (r2 : Text)
      → Tail l r l2 r2
      → skipsym x ≡ r
      → (o : Option ℕ) (w : Value) → Represents o w
      → Ends o (bind (skipargs false (cur l q (skipsym x))) (end_symbol w)) (cur l2 false r2)
  args_step l q x r l2 r2 k s o w h = (
    w,
    cur l2 false r2,
    ap (λ t. bind (skipargs false (cur l q t)) (end_symbol w)) s
        ∙ ap (λ c. bind c (end_symbol w)) (skipargs-none l q r l2 r2 k),
    h,
    k.1 false,
  )

  valued_step :
      (l : Linestate) (q : Bool) (x r : Text) (l2 : Linestate) (r2 : Text)
      → Tail l r l2 r2
      → skipsym x ≡ r
      → (v : ℕ) (args : Bool)
      → Ends
          (some v)
          (elim args as (λ x'. Result (Value × Cursor)) [
            | false ↦ end_symbol (truth v, v) (cur l q (skipsym x))
            | true ↦ bind (skipargs false (cur l q (skipsym x))) (end_symbol (truth v, v))
          ])
          (cur l2 false r2)
  valued_step l q x r l2 r2 k s v false =
      ((truth v, v), cur l false r, ap (λ t. ok ((truth v, v), cur l false t)) s, refl, k.0 false)
  valued_step l q x r l2 r2 k s v true = args_step l q x r l2 r2 k s (some v) (truth v, v) refl

  looked_step :
      (l : Linestate) (q : Bool) (x r : Text) (l2 : Linestate) (r2 : Text)
      → Tail l r l2 r2
      → skipsym x ≡ r
      → (args : Bool) (o : Option ℕ) (v : Option ℕ)
      → elim o as (λ x'. Option (Option ℕ)) [ none ↦ none | some n ↦ some (some n) ] ≡ some v
      → Ends v
          (elim o as (λ x'. Result (Value × Cursor)) [
            | none ↦ lt_error (cur l q x)
            | some n ↦ elim args as (λ x'. Result (Value × Cursor)) [
              | false ↦ end_symbol (truth n, n) (cur l q (skipsym x))
              | true ↦ bind (skipargs false (cur l q (skipsym x))) (end_symbol (truth n, n))
            ]
          ])
          (cur l2 false r2)
  looked_step l q x r l2 r2 k s args none v h = cc
  looked_step l q x r l2 r2 k s args (some n) v h =
      rw (sym (some_inj h)) (valued_step l q x r l2 r2 k s n args)

  symbol_step :
      (val : ℕ) (l : Linestate) (q : Bool) (x r : Text) (l2 : Linestate) (r2 : Text)
      → Tail l r l2 r2
      → skipsym x ≡ r
      → (o : Option Symbol) (v : Option ℕ) → entry_value o ≡ some v
      → Ends v (eval_symbol false syms strictlogic val o (cur l q x)) (cur l2 false r2)
  unfolding eval_symbol
  symbol_step val l q x r l2 r2 k s none v h =
      rw (sym (some_inj h)) (args_step l q x r l2 r2 k s none (lt_if, val) refl)
  symbol_step val l q x r l2 r2 k s (some y) v h =
      looked_step l q x r l2 r2 k s (has_args (some y)) (symbol_value y.value) v h

  symbol_case :
      (again : List (List Op) → ℕ → Cursor → Result (Value × Cursor)) (val : ℕ) (c : Cursor)
      → eval_primary false syms strictlogic again val c symbol
        ≡ eval_symbol false syms strictlogic val (findsym syms c.cp) c
  unfolding eval_primary
  symbol_case again val c = refl

  pub name-Reads :
      (f val : ℕ) (l : Linestate) (q : Bool) (c : Cursor) (x r : Text) (l2 : Linestate) (r2 : Text)
      → Tail l r l2 r2
      → IsName x
      → (v : Option ℕ) → entry_value (lookup syms x) ≡ some v
      → skip_at false c ≡ ok (cur l q (x ++ r))
      → Gives syms strictlogic (suc f) [] val c v (cur l2 false r2)
  name-Reads f val l q c [] r l2 r2 k h v e s = absurd h
  name-Reads f val l q c (d ∷ x) r l2 r2 k h v e s =
      let a : all_word (d ∷ x) ≡ true = ground (arith, h) in
      let p =
        symbol_step val l q ((d ∷ x) ++ r) r l2 r2 k (skipsym-append (d ∷ x) r a k.2)
          (findsym syms ((d ∷ x) ++ r)) v (ap entry_value (findsym-lookup syms d x r a k.2) ∙ e) in
      (
        p.0,
        p.1,
        at_primary syms strictlogic f val c _ symbol s (primary-name d x r h k.2)
            ∙ symbol_case (eval_level false syms strictlogic f) val (cur l q ((d ∷ x) ++ r))
            ∙ p.2,
        p.3,
        p.4,
      )

  defined_value-Represents :
      (val : ℕ) (o : Option Symbol) → Represents (entry_defined o) (defined_value val o)
  defined_value-Represents val none = refl
  defined_value-Represents val (some s) = refl

  eval_defined-paren :
      (val : ℕ) (l : Linestate) (q : Bool) (d : ℕ) (x r : Text)
      → all_word (d ∷ x) ≡ true
      → eval_defined false syms strictlogic val true (cur l q ((d ∷ x) ++ (41 ∷ r)))
        ≡ ok (defined_value val (lookup syms (d ∷ x)), cur l false r)
  unfolding eval_defined
  eval_defined-paren val l q d x r a =
      let close : Value → Cursor → Result (Value × Cursor) = λ (v : Value) (c : Cursor).
        if at 41 c.cp then ok (v, record (advance 1 c) { constexpr = false }) else lt_error c in
      ap₂ (λ o t. bind (skip_at false (cur l q t)) (close (defined_value val o)))
        (findsym-lookup syms d x (41 ∷ r) a refl) (skipsym-append (d ∷ x) (41 ∷ r) a refl)
      ∙ ap (λ o. bind o (close (defined_value val (lookup syms (d ∷ x)))))
          (skip_at-ordinary l q 41 r refl)

  eval_defined-plain :
      (val : ℕ) (l : Linestate) (q : Bool) (d : ℕ) (x r : Text) (l2 : Linestate) (r2 : Text)
      → Tail l r l2 r2
      → all_word (d ∷ x) ≡ true
      → eval_defined false syms strictlogic val false (cur l q ((d ∷ x) ++ r))
        ≡ ok (defined_value val (lookup syms (d ∷ x)), cur l2 false r2)
  unfolding eval_defined
  eval_defined-plain val l q d x r l2 r2 k a =
      let close : Value → Cursor → Result (Value × Cursor) =
        λ (v : Value) (c : Cursor). ok (v, record c { constexpr = false }) in
      ap₂ (λ o t. bind (skip_at false (cur l q t)) (close (defined_value val o)))
        (findsym-lookup syms d x r a k.2) (skipsym-append (d ∷ x) r a k.2)
      ∙ ap (λ o. bind o (close (defined_value val (lookup syms (d ∷ x))))) (k.0 q)

  defined_case :
      (again : List (List Op) → ℕ → Cursor → Result (Value × Cursor)) (val : ℕ) (c c' : Cursor)
      → skip_at false (advance 7 c) ≡ ok c'
      → eval_primary false syms strictlogic again val c is_defined ≡ (
          if at 40 c'.cp
          then bind (skip_at false (advance 1 c')) (eval_defined false syms strictlogic val true)
          else eval_defined false syms strictlogic val false c')
  unfolding eval_primary
  defined_case again val c c' h =
      ap
        (λ o. bind o λ c'.
          if at 40 c'.cp
          then bind (skip_at false (advance 1 c')) (eval_defined false syms strictlogic val true)
          else eval_defined false syms strictlogic val false c')
        h

  pub defined-Reads :
      (f val : ℕ) (l : Linestate) (q : Bool) (c : Cursor) (b : Bool) (x r : Text) (l2 : Linestate)
      (r2 : Text)
      → Tail l r l2 r2
      → IsName x
      → skip_at false c ≡ ok (cur l q (print (defined b x) ++ r))
      → Gives syms strictlogic (suc f) [] val c (entry_defined (lookup syms x)) (cur l2 false r2)
  unfolding print primary
  defined-Reads f val l q c b [] r l2 r2 k h s = absurd h
  defined-Reads f val l q c true (d ∷ x) r l2 r2 k h s =
      let a : all_word (d ∷ x) ≡ true = ground (arith, h) in
      let u = (d ∷ x) ++ (41 ∷ r) in
      let again = eval_level false syms strictlogic f in
      let o = lookup syms (d ∷ x) in
      (
        defined_value val o,
        cur l false r,
        at_primary syms strictlogic f val c (cur l q (codes "defined(" ++ u)) is_defined
              (s
                ∙ ap (λ t. ok (cur l q (codes "defined(" ++ t)))
                    (append_assoc (d ∷ x) (codes ")") r))
              refl
            ∙ defined_case again val (cur l q (codes "defined(" ++ u)) (cur l q (40 ∷ u))
                (skip_at-ordinary l q 40 u refl)
            ∙ ap (λ c. bind c (eval_defined false syms strictlogic val true))
                (skip_at-word l q d (x ++ (41 ∷ r)) h.0)
            ∙ eval_defined-paren val l q d x r a,
        defined_value-Represents val o,
        k.0 false,
      )
  defined-Reads f val l q c false (d ∷ x) r l2 r2 k h s =
      let a : all_word (d ∷ x) ≡ true = ground (arith, h) in
      let u = (d ∷ x) ++ r in
      let again = eval_level false syms strictlogic f in
      let o = lookup syms (d ∷ x) in
      let n : at 40 u ≡ false = ground (arith, h) in
      (
        defined_value val o,
        cur l2 false r2,
        at_primary syms strictlogic f val c (cur l q (codes "defined " ++ u)) is_defined s refl
            ∙ defined_case again val (cur l q (codes "defined " ++ u)) (cur l q u)
                (skip_at-blank l q u _ (skip_at-word l q d (x ++ r) h.0))
            ∙ if-false _ _ n
            ∙ eval_defined-plain val l q d x r l2 r2 k a,
        defined_value-Represents val o,
        k.1 false,
      )
