-- ===== src/Unifdef/Run/Lines.antt =====
-- scripts/unifdef.c: parseline on one line of the text, which it reads with its newline.
use embtoolkit.Base.{
  ℕ, zero, suc, ◌-◌, ◌<◌, ◌≡◌, refl, ap, ap₂, ◌∙◌, Bool, true, false, not, ◌&&◌, ◌||◌, [], ◌∷◌,
  ◌++◌, append-nil, Option, none, some, Text, codes, length, arith, ◌==◌, if◌then◌else◌, if-false,
  starts,
}
use embtoolkit.Unifdef.{Directive, directive, eof}
use embtoolkit.Unifdef.Comment.{no_comment, ls_start, ls_hash, at}
use embtoolkit.Unifdef.Machine.{Line}
use embtoolkit.Unifdef.Symbols.{skipsym, length_sym}
use embtoolkit.Unifdef.Evaluator.{Cursor, ok, bind, advance, skip_at}
use embtoolkit.Unifdef.Evaluator.Skip.{cur, ordinary, skip_at-ordinary}
use embtoolkit.Unifdef.Groups.{line_of}
use embtoolkit.Unifdef.Parseline.{
  Parsed, parsed, parseline, parse_text, fgets, get_line, take, strrchr, is_behind, newline_of,
  settle, find_hash, directive_line, plain_line, end_directive, eval_keyword, find_keyword, Keyword,
  continue_line, skip_dirty, obfuscated_keyword, in_comment, is_hash, is_start, nonempty, dirty,
}
use embtoolkit.Unifdef.Run.{Settings}
use embtoolkit.Unifdef.Run.Follows.{Parses, IsUnix, unix, at_start}

-- Neither newlines nor carriage returns
abbrev pub proper : Text → Bool
proper [] = true
proper (c ∷ t) = not (c == 10) && not (c == 13) && proper t

get_line-proper :
    (n : ℕ) (t rest : Text)
    → proper t ≡ true
    → length t < n
    → get_line n ((t ++ codes "\n") ++ rest) ≡ (t ++ codes "\n", rest)
get_line-proper zero t rest h l = absurd (omega (arith, l))
get_line-proper (suc n) [] rest h l = refl
get_line-proper (suc n) (c ∷ t) rest h l =
    let e : (c == 10) ≡ false = ground (arith, h) in
    let i = get_line-proper n t rest (ground (arith, h)) (omega (arith, l)) in
    if-false (c ∷ [], (t ++ codes "\n") ++ rest) _ e ∙ ap (λ (p : Text × Text). (c ∷ p.0, p.1)) i

fgets-proper :
    (n : ℕ) (t rest : Text)
    → proper t ≡ true
    → length t < n
    → fgets n ((t ++ codes "\n") ++ rest) ≡ some (t ++ codes "\n", rest)
unfolding fgets
fgets-proper zero t rest h l = absurd (omega (arith, l))
fgets-proper (suc n) [] rest h l = ap some (get_line-proper (suc n) [] rest h l)
fgets-proper (suc n) (c ∷ t) rest h l = ap some (get_line-proper (suc n) (c ∷ t) rest h l)

strrchr-proper : (t : Text) → proper t ≡ true → strrchr 13 (t ++ codes "\n") ≡ none
strrchr-proper [] h = refl
strrchr-proper (c ∷ t) h =
    let e : (c == 13) ≡ false = ground (arith, h) in
    let i = strrchr-proper t (ground (arith, h)) in
    ap
      (λ o. elim o as (λ x. Option ℕ) [
        | some i ↦ some (suc i)
        | none ↦ if c == 13 then some 0 else none
      ])
      i
    ∙ if-false _ _ e

is_behind-none : (o : Option ℕ) → is_behind o none ≡ false
is_behind-none none = refl
is_behind-none (some i) = refl

newline_of-unix :
    (w : Option Text) (t : Text)
    → IsUnix w
    → proper t ≡ true
    → newline_of w (t ++ codes "\n") ≡ codes "\n"
unfolding newline_of
newline_of-unix none t x h = if-false _ _ (
    ap (is_behind (strrchr 10 (t ++ codes "\n"))) (strrchr-proper t h)
    ∙ is_behind-none (strrchr 10 (t ++ codes "\n")))
newline_of-unix (some w) t x h = x

take-1 : (c : ℕ) (t : Text) → take (length (c ∷ t) - length t) (c ∷ t) ≡ c ∷ []
take-1 c t = let e : suc (length t) - length t ≡ 1 = omega arith in ap (λ n. take n (c ∷ t)) e

module _ (u : Settings) where
  abbrev pub ParsesText : Line → Text → Type 0
  ParsesText l t =
      (rest : Text)
      → parse_text false u.syms u.strictlogic u.killconsts no_comment ls_start (codes "\n")
          (t ++ codes "\n") rest
        ≡ parsed l (at_start rest unix)

  -- A line of less than MAXLINE - 1 characters
  pub proper-Parses :
      (l : Line) (t : Text)
      → proper t ≡ true
      → length t < 4095
      → ParsesText l t
      → Parses u l (t ++ codes "\n")
  unfolding parseline
  proper-Parses l t h b p = λ w rest x.
      let parse = λ (newline : Text).
        parse_text false u.syms u.strictlogic u.killconsts no_comment ls_start newline
          (t ++ codes "\n") rest in
      ap
        (λ o. elim o as (λ x. Parsed) [
          | none ↦
              parsed (record { linetype = eof; before = []; keyword = []; incomment = false })
                (at_start ((t ++ codes "\n") ++ rest) w)
          | some p ↦
              parse_text false u.syms u.strictlogic u.killconsts no_comment ls_start
                (newline_of w p.0) p.0 p.1
        ])
        (fgets-proper 4095 t rest h b)
      ∙ ap parse (newline_of-unix w t x h)
      ∙ p rest

  find_hash-directive :
      (c : ℕ) (k : Text)
      → ordinary c ≡ true
      → find_hash false (cur ls_start false (35 ∷ c ∷ k)) ≡ ok (cur ls_hash false (c ∷ k))
  unfolding find_hash
  find_hash-directive c k o =
      ap
        (λ r. bind r λ c.
          if is_start c.linestate
          then (if at 35 c.cp
              then skip_at false (advance 1 (record c { linestate = ls_hash }))
              else ok (if nonempty c.cp then dirty c else c))
          else ok c)
        (skip_at-ordinary ls_start false 35 (c ∷ k) refl)
      ∙ skip_at-ordinary ls_hash false c k o

  end_directive-newline :
      (d : Directive) (h : ℕ) (k rest : Text) (c : Cursor) (q : Bool)
      → skip_at false c ≡ ok (cur ls_start q [])
      → end_directive false u.syms u.strictlogic u.killconsts false
          (codes "\n")
          (h ∷ k)
          k
          rest
          (some d, c)
        ≡ parsed (line_of (directive d) (h ∷ [], k)) (at_start rest unix)
  unfolding end_directive continue_line skip_dirty
  end_directive-newline d h k rest c q s =
      rw (s, settle)
        (ap₂
          (λ before keyword.
            parsed
              (record {
                linetype = directive d;
                before = before;
                keyword = keyword;
                incomment = false;
              })
              (at_start rest unix))
          (take-1 h k) (append-nil k))

  -- A directive whose keyword is found, and behind which skipcomment comes to the end of the line.
  pub directive-parse :
      (d : Directive) (c : ℕ) (k : Text) (kw : Keyword) (cp : Text) (c2 : Cursor) (q : Bool)
      → ordinary c ≡ true
      → skipsym (c ∷ k) ≡ cp
      → (starts (codes "\\\r\n") cp || starts (codes "\\\n") cp) ≡ false
      → find_keyword (c ∷ k) (length_sym (c ∷ k)) ≡ kw
      → eval_keyword false u.syms u.strictlogic u.killconsts kw (c ∷ k) (cur ls_hash false cp)
        ≡ ok (some d, c2)
      → skip_at false c2 ≡ ok (cur ls_start q [])
      → (rest : Text)
      → parse_text false u.syms u.strictlogic u.killconsts no_comment ls_start
          (codes "\n")
          (35 ∷ c ∷ k)
          rest
        ≡ parsed (line_of (directive d) (codes "#", c ∷ k)) (at_start rest unix)
  unfolding parse_text directive_line
  directive-parse d c k kw cp c2 q o s b f e g rest =
      let end =
        end_directive false u.syms u.strictlogic u.killconsts false (codes "\n") (35 ∷ c ∷ k)
          (c ∷ k) rest in
      let eval = eval_keyword false u.syms u.strictlogic u.killconsts in
      ap
        (λ r. settle r λ c'.
          if not (in_comment c'.incomment) && is_hash c'.linestate
          then directive_line false u.syms u.strictlogic u.killconsts false (codes "\n")
              (35 ∷ c ∷ k) rest c'
          else plain_line false u.syms u.strictlogic u.killconsts (codes "\n") (35 ∷ c ∷ k) rest c')
        (find_hash-directive c k o)
      ∙ ap
          (λ cp.
            if starts (codes "\\\r\n") cp || starts (codes "\\\n") cp
            then obfuscated_keyword
            else settle
                (eval (find_keyword (c ∷ k) (length_sym (c ∷ k))) (c ∷ k) (cur ls_hash false cp))
                end)
          s
      ∙ if-false obfuscated_keyword _ b
      ∙ ap (λ kw. settle (eval kw (c ∷ k) (cur ls_hash false cp)) end) f
      ∙ ap (λ r. settle r end) e
      ∙ end_directive-newline d 35 (c ∷ k) rest c2 q g
