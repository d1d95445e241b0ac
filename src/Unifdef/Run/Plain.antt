-- ===== src/Unifdef/Run/Plain.antt =====
-- scripts/unifdef.c: parseline on a line that is no directive.
use embtoolkit.Base.{
  ℕ, zero, suc, ◌≤◌, ◌≡◌, refl, sym, ap, ap₂, ◌∙◌, Bool, true, false, not, ◌&&◌, ◌||◌, [], ◌∷◌,
  ◌++◌, Text, codes, length, length-append, arith, ◌==◌, if◌then◌else◌, if-true, if-false,
  Bool-cases, inl, inr, ◌⊎◌,
}
use embtoolkit.Unifdef.{plain}
use embtoolkit.Unifdef.Comment.{Linestate, ls_start, ls_hash, ls_dirty, at, round, no_comment, on}
use embtoolkit.Unifdef.Evaluator.{Cursor, Result, ok, bind, advance, skip_at}
use embtoolkit.Unifdef.Evaluator.Skip.{cur, ordinary, skip_at-ordinary, skip_at-pass}
use embtoolkit.Unifdef.Evaluator.Ifeval.{newline-Tail}
use embtoolkit.Unifdef.Groups.{line_of}
use embtoolkit.Unifdef.Parseline.{
  Parsed, parsed, parse_text, settle, find_hash, directive_line, plain_line, skip_dirty, skip_line,
  in_comment, is_hash, is_start, nonempty, dirty,
}
use embtoolkit.Unifdef.Run.{Settings}
use embtoolkit.Unifdef.Run.Lines.{ParsesText}
use embtoolkit.Unifdef.Run.Follows.{at_start, unix}

-- No comment, literal, continuation or newline starts here.
abbrev pub calm : Text → Bool
calm [] = true
calm (c ∷ t) = (c == 32 || (c == 9 || ordinary c)) && calm t

-- The first character that is no blank is not #.
abbrev pub no_hash : Text → Bool
no_hash [] = true
no_hash (c ∷ t) = if c == 32 || c == 9 then no_hash t else not (c == 35)

-- Where skipcomment comes to: the next line, or another character.
abbrev At : Text → Linestate → Text → Linestate → Type 0
At t l t2 l2 =
    ((t2 ≡ []) × (l2 ≡ ls_start))
    ⊎ ((b : Text) × (t2 ≡ b ++ codes "\n")
        × (calm b ≡ true)
        × (length b ≤ length t)
        × (nonempty b ≡ true)
        × (l2 ≡ l)
        × (no_hash t ≡ true → at 35 t2 ≡ false))

round-gap :
    (l : Linestate) (c : ℕ) (t : Text)
    → (c == 32 || c == 9) ≡ true
    → round no_comment l (c ∷ t) ≡ on no_comment l t
unfolding round
round-gap l c t h = ground (arith, h)

At-gap :
    (l : Linestate) (c : ℕ) (t t2 : Text) (l2 : Linestate)
    → (c == 32 || c == 9) ≡ true
    → At t l t2 l2
    → At (c ∷ t) l t2 l2
At-gap l c t t2 l2 e (inl a) = inl a
At-gap l c t t2 l2 e (inr (b, i, j, k, n, m, o)) =
    inr (b, i, j, omega (arith, k), n, m, λ x. o (sym (if-true _ _ e) ∙ x))

skip_at-calm :
    (l : Linestate) (q : Bool) (t : Text)
    → calm t ≡ true
    → (l2 : Linestate) × (t2 : Text) × (skip_at false (cur l q (t ++ codes "\n"))
        ≡ ok (cur l2 q t2))
      × At t l t2 l2
skip_at-calm l q [] h = (ls_start, [], (newline-Tail l).0 q, inl (refl, refl))
skip_at-calm l q (c ∷ t) h = elim (Bool-cases (c == 32 || c == 9)) [
  | inl e ↦
      let (l2, t2, s, a) = skip_at-calm l q t (ground (arith, h)) in
      (
        l2,
        t2,
        skip_at-pass l l q c (t ++ codes "\n") _ (round-gap l c (t ++ codes "\n") e) s,
        At-gap l c t t2 l2 e a,
      )
  | inr e ↦
      let o : ordinary c ≡ true = ground (arith, h, e) in
      (
        l,
        (c ∷ t) ++ codes "\n",
        skip_at-ordinary l q c (t ++ codes "\n") o,
        inr (c ∷ t, refl, h, omega arith, refl, refl, λ n. ground (arith, n, e)),
      )
]

skip_line-end : (n : ℕ) (q : Bool) → skip_line false n (cur ls_start q []) ≡ ok (cur ls_start q [])
unfolding skip_line
skip_line-end zero q = refl
skip_line-end (suc n) q = refl

skip_line-calm :
    (n : ℕ) (l : Linestate) (q : Bool) (t : Text)
    → calm t ≡ true
    → nonempty t ≡ true
    → length t ≤ n
    → skip_line false n (cur l q (t ++ codes "\n")) ≡ ok (cur ls_start q [])
unfolding skip_line
skip_line-calm n l q [] h k b = cc
skip_line-calm zero l q (c ∷ t) h k b = absurd (omega (arith, b))
skip_line-calm (suc n) l q (c ∷ t) h k b =
    let (l2, t2, s, a) = skip_at-calm l q t (ground (arith, h)) in
    ap (λ r. bind r (skip_line false n)) s ∙ go (λ d. skip_line-calm n l q d) l2 t2 a
  where
    go :
        ((d : Text)
          → calm d ≡ true
          → nonempty d ≡ true
          → length d ≤ n
          → skip_line false n (cur l q (d ++ codes "\n")) ≡ ok (cur ls_start q []))
        → (l2 : Linestate) (t2 : Text) → At t l t2 l2
        → skip_line false n (cur l2 q t2) ≡ ok (cur ls_start q [])
    go again l2 t2 (inl (i, j)) = ap₂ (λ t l. skip_line false n (cur l q t)) i j ∙ skip_line-end n q
    go again l2 t2 (inr (d, i, j, m, o, p, x)) =
        ap₂ (λ t l. skip_line false n (cur l q t)) i p ∙ again d j o (omega (arith, b, m))

nonempty-line : (t : Text) → nonempty (t ++ codes "\n") ≡ true
nonempty-line [] = refl
nonempty-line (c ∷ t) = refl

module _ (u : Settings) where
  parse : Text → Text → Result Cursor → Parsed
  parse t rest r = settle r λ c'.
      if not (in_comment c'.incomment) && is_hash c'.linestate
      then directive_line false u.syms u.strictlogic u.killconsts false (codes "\n") t rest c'
      else plain_line false u.syms u.strictlogic u.killconsts (codes "\n") t rest c'

  hash : Result Cursor → Result Cursor
  hash r = bind r λ c.
      if is_start c.linestate
      then (if at 35 c.cp
          then skip_at false (advance 1 (record c { linestate = ls_hash }))
          else ok (if nonempty c.cp then dirty c else c))
      else ok c

  -- A line without comments, literals and continuations that does not start with #
  pub plain-ParsesText :
      (t : Text)
      → calm t ≡ true
      → no_hash t ≡ true
      → ParsesText u (line_of plain (t ++ codes "\n", [])) t
  unfolding parse_text find_hash plain_line skip_dirty parse hash
  plain-ParsesText t h k rest =
      let (l2, t2, s, a) = skip_at-calm ls_start false t h in
      ap (λ r. parse (t ++ codes "\n") rest (hash r)) s ∙ go l2 t2 a
    where
      go :
          (l2 : Linestate) (t2 : Text)
          → At t ls_start t2 l2
          → parse (t ++ codes "\n") rest (hash (ok (cur l2 false t2)))
            ≡ parsed (line_of plain (t ++ codes "\n", [])) (at_start rest unix)
      go l2 t2 (inl (i, j)) =
          ap₂ (λ l t2. parse (t ++ codes "\n") rest (hash (ok (cur l false t2)))) j i
      go l2 t2 (inr (b, i, j, m, o, p, x)) =
          let n = codes "\n" in
          let c : Cursor = cur ls_dirty false (b ++ n) in
          let z = length-append b n in
          let f : at 35 (b ++ n) ≡ false = sym (ap (at 35) i) ∙ x k in
          ap₂ (λ l t2. parse (t ++ n) rest (hash (ok (cur l false t2)))) p i
          ∙ ap (parse (t ++ n) rest) (if-false _ _ f)
          ∙ ap (λ b. parse (t ++ n) rest (ok (if b then c else record c { linestate = ls_start })))
              (nonempty-line b)
          ∙ ap
              (λ (r : Result Cursor). settle r λ c.
                parsed
                  (record {
                    linetype = plain;
                    before = t ++ n;
                    keyword = [];
                    incomment = in_comment c.incomment;
                  })
                  (record {
                    input = rest;
                    newline = unix;
                    comment = c.incomment;
                    linestate = c.linestate;
                  }))
              (skip_line-calm (length (b ++ n)) ls_dirty false b j o (omega (arith, z)))
