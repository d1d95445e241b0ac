-- ===== src/Unifdef/Run/Advances.antt =====
-- scripts/unifdef.c: parseline returns on every text, and passes a line.
use embtoolkit.Base.{
  ℕ, zero, suc, ◌+◌, ◌-◌, ◌≤◌, ◌≡◌, ◌≢◌, refl, ap, Bool, true, false, ◌||◌, List, [], ◌∷◌, Option,
  none, some, Text, ◌==◌, if◌then◌else◌, skip, length, arith, Bool-cases, Option-cases, some_inj,
  inl, inr, ◌⊎◌,
}
use embtoolkit.Unifdef.{Directive, eof, unevaluable}
use embtoolkit.Unifdef.Comment.{Comment, Linestate, ls_hash, at}
use embtoolkit.Unifdef.Machine.{Line}
use embtoolkit.Unifdef.Symbols.{Symbol, length_sym, skipsym}
use embtoolkit.Unifdef.Evaluator.{
  Cursor, Result, ok, lt_error, fatal, out_of_fuel, advance, skip_at, ifeval,
}
use embtoolkit.Unifdef.Evaluator.Total.{Sure, Sure-bind, Left, skip_at-Sure, shorter}
use embtoolkit.Unifdef.Evaluator.Ends.{TruthLeft, ifeval-Sure}
use embtoolkit.Unifdef.Parseline.{
  Reader, Parsed, parsed, obfuscated_keyword, stuck, get_line, fgets, settle, find_hash, skip_line,
  skip_dirty, Keyword, kw_ifdef, kw_if, kw_elif, kw_else, kw_endif, other, eval_keyword,
  find_keyword, continue_line, plain_line, end_directive, directive_line, parse_text, parseline,
  newline_of, nonempty, dirty, in_comment, is_hash, is_start, is_dirty, line_type, line_state,
  maxline,
}

-- There is a result, at most n characters are left of the file, and the line has a type.
unfoldable pub Rest : ℕ → Parsed → Type 0
Rest n (parsed l r) = (length r.input ≤ n) × (l.linetype ≢ unevaluable)
Rest n stuck = ⊥
Rest n _ = Unit

settle-Rest :
    {A : Type 0} (n : ℕ) (P : A → Type 0) (r : Result A) (f : A → Parsed)
    → Sure P r
    → ((a : A) → P a → Rest n (f a))
    → Rest n (settle r f)
unfolding Rest
settle-Rest n P (ok a) f h k = k a h
settle-Rest n P (lt_error c) f h k = absurd h
settle-Rest n P (fatal m) f h k = tt
settle-Rest n P out_of_fuel f h k = absurd h

Rest-parsed :
    (n : ℕ) (l : Line) (r : Reader)
    → length r.input ≤ n
    → l.linetype ≢ unevaluable
    → Rest n (parsed l r)
unfolding Rest
Rest-parsed n l r h k = (h, k)

Rest-obfuscated : (n : ℕ) → Rest n obfuscated_keyword
unfolding Rest
Rest-obfuscated n = tt

if-Rest : (n : ℕ) (b : Bool) (p q : Parsed) → Rest n p → Rest n q → Rest n (if b then p else q)
if-Rest n true p q h k = h
if-Rest n false p q h k = k

if-Sure :
    {A : Type 0} (P : A → Type 0) (b : Bool) (p q : Result A)
    → (b ≡ true → Sure P p)
    → (b ≡ false → Sure P q)
    → Sure P (if b then p else q)
if-Sure P true p q h k = h refl
if-Sure P false p q h k = k refl

weaken-Any : {A : Type 0} (P : A → Type 0) (r : Result A) → Sure P r → Sure (λ a. Unit) r
weaken-Any P (ok a) h = tt
weaken-Any P (lt_error c) h = h
weaken-Any P (fatal m) h = tt
weaken-Any P out_of_fuel h = h

nonempty-length : (t : Text) → nonempty t ≡ true → 1 ≤ length t
nonempty-length [] h = cc
nonempty-length (c ∷ t) h = omega arith

length-get_line : (n : ℕ) (t : Text) → length (get_line n t).1 ≤ length t
length-get_line zero t = omega arith
length-get_line (suc n) [] = omega arith
length-get_line (suc n) (c ∷ t) =
    let h = length-get_line n t in
    elim (Bool-cases (c == 10)) [ inl e ↦ rw e (omega arith) | inr e ↦ rw e (omega (arith, h)) ]

module _ (plain : Bool) where
  skip_at-Any : (c : Cursor) → Sure (λ a. Unit) (skip_at plain c)
  skip_at-Any c = weaken-Any (Left (length c.cp)) (skip_at plain c) (skip_at-Sure plain c)

  skip_line-Sure : (n : ℕ) (c : Cursor) → length c.cp ≤ n → Sure (λ a. Unit) (skip_line plain n c)
  unfolding skip_line
  skip_line-Sure zero c h =
      if-Sure (λ a. Unit) (nonempty c.cp) _ _
        (λ e. let k = nonempty-length c.cp e in absurd (omega (arith, h, k))) (λ e. tt)
  skip_line-Sure (suc n) c h =
      if-Sure (λ a. Unit) (nonempty c.cp) _ _
        (λ e.
          let k = shorter c.cp (nonempty-length c.cp e) in
          Sure-bind (Left (length (skip 1 c.cp))) (λ a. Unit) (skip_at plain (advance 1 c))
            (skip_line plain n) (skip_at-Sure plain (advance 1 c))
            (λ c' j. skip_line-Sure n c' (omega (arith, h, k, j))))
        (λ e. tt)

  skip_dirty-Sure : (c : Cursor) → Sure (λ a. Unit) (skip_dirty plain c)
  unfolding skip_dirty
  skip_dirty-Sure c =
      if-Sure (λ a. Unit) (is_dirty c.linestate) _ _
        (λ e. skip_line-Sure (length c.cp) c (omega arith)) (λ e. tt)

  find_hash-Sure : (c : Cursor) → Sure (λ a. Unit) (find_hash plain c)
  unfolding find_hash
  find_hash-Sure c =
      Sure-bind (λ a. Unit) (λ a. Unit) (skip_at plain c) _ (skip_at-Any c)
        λ c' h.
          if-Sure (λ a. Unit) (is_start c'.linestate) _ _
            (λ e.
              if-Sure (λ a. Unit) (at 35 c'.cp)
                (skip_at plain (advance 1 (record c' { linestate = ls_hash })))
                (ok (if nonempty c'.cp then dirty c' else c'))
                (λ e. skip_at-Any (advance 1 (record c' { linestate = ls_hash }))) (λ e. tt))
            (λ e. tt)

  module _ (syms : List Symbol) (strictlogic killconsts : Bool) where
    ifeval-Any : (c : Cursor) → Sure (λ a. Unit) (ifeval plain syms strictlogic killconsts c)
    ifeval-Any c =
        weaken-Any (TruthLeft plain syms strictlogic (length c.cp)) _
          (ifeval-Sure plain syms strictlogic killconsts c)

    eval_keyword-Sure :
        (k : Keyword) (t : Text) (c : Cursor)
        → Sure (λ a. Unit) (eval_keyword plain syms strictlogic killconsts k t c)
    unfolding eval_keyword
    eval_keyword-Sure kw_ifdef t c =
        Sure-bind (λ a. Unit) (λ a. Unit) (skip_at plain c) _ (skip_at-Any c) (λ a h. tt)
    eval_keyword-Sure kw_if t c =
        Sure-bind (λ a. Unit) (λ a. Unit) (ifeval plain syms strictlogic killconsts c) _
          (ifeval-Any c) (λ a h. tt)
    eval_keyword-Sure kw_elif t c =
        Sure-bind (λ a. Unit) (λ a. Unit) (ifeval plain syms strictlogic killconsts c) _
          (ifeval-Any c) (λ a h. tt)
    eval_keyword-Sure kw_else t c = tt
    eval_keyword-Sure kw_endif t c = tt
    eval_keyword-Sure other t c = tt

    length-fgets : (n : ℕ) (t : Text) (p : Text × Text) → fgets n t ≡ some p → length p.1 ≤ length t
    unfolding fgets
    length-fgets zero t p h =
        let e = ap length (ap (λ (p : Text × Text). p.1) (some_inj h)) in omega (arith, e)
    length-fgets (suc n) [] p h = cc
    length-fgets (suc n) (c ∷ t) p h =
        let e = ap length (ap (λ (p : Text × Text). p.1) (some_inj h)) in
        let k = length-get_line (suc n) (c ∷ t) in omega (arith, e, k)

    length-continue_line :
        (newline tline rest : Text) (c : Cursor)
        → length (continue_line plain syms strictlogic killconsts newline tline rest c).1.0
          ≤ length rest
    unfolding continue_line
    length-continue_line newline tline rest c = elim (Bool-cases (is_hash c.linestate)) [
      | inl e ↦ elim (Option-cases (fgets (maxline - (length tline - length c.cp) - 1) rest)) [
        | inl z ↦ rw e (rw z (omega arith))
        | inr (p, z) ↦ let k = length-fgets _ rest p z in rw e (rw z k)
      ]
      | inr e ↦ rw e (omega arith)
    ]

    line_type-evaluable :
        (b : Bool) (c : Cursor) (d : Option Directive)
        → line_type plain syms strictlogic killconsts b c d ≢ unevaluable
    line_type-evaluable b c none e = cc
    line_type-evaluable b c (some d) e = elim (Bool-cases (b || in_comment c.incomment)) [
      | inl i ↦ cc (e, i)
      | inr i ↦ cc (e, i)
    ]

    end_directive-Rest :
        (b : Bool) (newline tline keyword rest : Text) (p : Option Directive × Cursor)
        → Rest
            (length rest)
            (end_directive plain syms strictlogic killconsts b newline tline keyword rest p)
    unfolding end_directive
    end_directive-Rest b newline tline keyword rest (d, c) =
        settle-Rest (length rest) (λ a. Unit) (skip_at plain c) _ (skip_at-Any c)
          λ c' h.
            let t =
              continue_line plain syms strictlogic killconsts newline tline rest
                (line_state plain syms strictlogic killconsts c' d) in
            settle-Rest (length rest) (λ a. Unit) _ _ (skip_dirty-Sure t.1.1)
              λ c'' k.
                Rest-parsed (length rest) _ _
                  (length-continue_line newline tline rest
                    (line_state plain syms strictlogic killconsts c' d))
                  (line_type-evaluable b c' d)

    directive_line-Rest :
        (b : Bool) (newline tline rest : Text) (c : Cursor)
        → Rest
            (length rest)
            (directive_line plain syms strictlogic killconsts b newline tline rest c)
    unfolding directive_line
    directive_line-Rest b newline tline rest c =
        if-Rest (length rest) _ _ _ (Rest-obfuscated (length rest)) (
          settle-Rest (length rest) (λ a. Unit) _ _
            (eval_keyword-Sure (find_keyword c.cp (length_sym c.cp)) c.cp
              (record c { cp = skipsym c.cp }))
            λ p h. end_directive-Rest b newline tline c.cp rest p)

    plain_line-Rest :
        (newline tline rest : Text) (c : Cursor)
        → Rest (length rest) (plain_line plain syms strictlogic killconsts newline tline rest c)
    unfolding plain_line
    plain_line-Rest newline tline rest c =
        settle-Rest (length rest) (λ a. Unit) _ _ (skip_dirty-Sure c)
          λ c' h. Rest-parsed (length rest) _ _ (omega arith) (λ e. cc)

    parse_text-Rest :
        (comment : Comment) (l : Linestate) (newline tline rest : Text)
        → Rest
            (length rest)
            (parse_text plain syms strictlogic killconsts comment l newline tline rest)
    unfolding parse_text
    parse_text-Rest comment l newline tline rest =
        settle-Rest (length rest) (λ a. Unit) _ _
          (find_hash-Sure
            (record { incomment = comment; linestate = l; constexpr = false; cp = tline }))
          λ c h.
            if-Rest (length rest) _ _ _
              (directive_line-Rest (in_comment comment) newline tline rest c)
              (plain_line-Rest newline tline rest c)

    get_line-shorter : (n c : ℕ) (t : Text) → length (get_line (suc n) (c ∷ t)).1 ≤ length t
    get_line-shorter n c t =
        let h = length-get_line n t in
        elim (Bool-cases (c == 10)) [ inl e ↦ rw e (omega arith) | inr e ↦ rw e h ]

    fgets-shorter :
        (n : ℕ) (t : Text) (p : Text × Text) → fgets (suc n) t ≡ some p → length p.1 + 1 ≤ length t
    unfolding fgets
    fgets-shorter n [] p h = cc
    fgets-shorter n (c ∷ t) p h =
        let e = ap length (ap (λ (p : Text × Text). p.1) (some_inj h)) in
        let k = get_line-shorter n c t in omega (arith, e, k)

    -- A line is passed, or the file ends.
    unfoldable pub Advances : Reader → Parsed → Type 0
    Advances r p =
        ((l : Line) × (p ≡ parsed l r) × (l.linetype ≡ eof))
        ⊎ ((n : ℕ) × (n + 1 ≤ length r.input) × Rest n p)

    pub parseline-Advances :
        (r : Reader) → Advances r (parseline plain syms strictlogic killconsts r)
    unfolding parseline Advances
    parseline-Advances r = elim (Option-cases (fgets (maxline - 1) r.input)) [
      | inl z ↦ inl (
        record { linetype = eof; before = []; keyword = []; incomment = in_comment r.comment },
        rw z refl,
        refl,
      )
      | inr (p, z) ↦ inr (
        length p.1,
        fgets-shorter 4094 r.input p z,
        rw z (parse_text-Rest r.comment r.linestate (newline_of r.newline p.0) p.0 p.1),
      )
    ]
