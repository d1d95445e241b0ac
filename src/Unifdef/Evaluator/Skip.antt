-- ===== src/Unifdef/Evaluator/Skip.antt =====
-- scripts/unifdef.c: skipcomment between the tokens of an expression.
use embtoolkit.Base.{
  ℕ, zero, suc, ◌+◌, ◌*◌, ◌≡◌, refl, sym, ap, ◌∙◌, Bool, true, false, not, ◌||◌, [], ◌∷◌, some,
  Text, ◌==◌, length, arith, inl, inr, Option-cases,
}
use embtoolkit.Unifdef.Comment.{
  Comment, no_comment, Linestate, round, Round, stop, on, unterminated_char, unterminated_string,
  follow, skip_loop, skipcomment, Skipped, skipped, bad_char, bad_string,
}
use embtoolkit.Unifdef.Symbols.{is_word}
use embtoolkit.Unifdef.Evaluator.{Cursor, ok, out_of_fuel, skipping, skip_at}

-- A cursor outside comments.
abbrev pub cur : Linestate → Bool → Text → Cursor
cur l q t = record { incomment = no_comment; linestate = l; constexpr = q; cp = t }

-- A character at which skipcomment stops.
abbrev pub ordinary : ℕ → Bool
ordinary c = not (
    c == 32 || (c == 9 || (c == 10 || (c == 13 || (c == 34 || (c == 39 || (c == 47 || c == 92)))))))

-- More fuel changes nothing once there is a result.
skip_loop-more :
    (n : ℕ) (c : Comment) (l : Linestate) (t : Text) (r : Skipped)
    → skip_loop n c l t ≡ some r
    → skip_loop (suc n) c l t ≡ some r
unfolding skip_loop
skip_loop-more n c l [] r h = h
skip_loop-more zero c l (d ∷ t) r h = cc
skip_loop-more (suc n) c l (d ∷ t) r h =
    more (λ c' l' t'. skip_loop-more n c' l' t' r) (round c l (d ∷ t)) h
  where
    more :
        ((c' : Comment) (l' : Linestate) (t' : Text)
          → skip_loop n c' l' t' ≡ some r
          → skip_loop (suc n) c' l' t' ≡ some r)
        → (q : Round) → follow (skip_loop n) c l (d ∷ t) q ≡ some r
        → follow (skip_loop (suc n)) c l (d ∷ t) q ≡ some r
    more again stop k = k
    more again (on c' l' t') k = again c' l' t' k
    more again unterminated_char k = k
    more again unterminated_string k = k

round-ordinary :
    (l : Linestate) (c : ℕ) (t : Text) → ordinary c ≡ true → round no_comment l (c ∷ t) ≡ stop
unfolding round
round-ordinary l c t h = ground (arith, h)

-- skipcomment stops at an ordinary character, and passes a blank.
pub skip_at-ordinary :
    (l : Linestate) (q : Bool) (c : ℕ) (t : Text)
    → ordinary c ≡ true
    → skip_at false (cur l q (c ∷ t)) ≡ ok (cur l q (c ∷ t))
unfolding skip_at skipcomment skip_loop
skip_at-ordinary l q c t h =
    let n = 2 * length t + 2 in
    let e : 2 * suc (length t) + 1 ≡ suc n = omega arith in
    ap (λ k. skipping (cur l q (c ∷ t)) (skip_loop k no_comment l (c ∷ t))) e
    ∙ ap (λ r. skipping (cur l q (c ∷ t)) (follow (skip_loop n) no_comment l (c ∷ t) r))
        (round-ordinary l c t h)

-- A word starts at its first character.
pub skip_at-word :
    (l : Linestate) (q : Bool) (d : ℕ) (t : Text)
    → is_word d ≡ true
    → skip_at false (cur l q (d ∷ t)) ≡ ok (cur l q (d ∷ t))
skip_at-word l q d t h = skip_at-ordinary l q d t (ground (arith, h))

skipping-blank :
    (l l' : Linestate) (q : Bool) (d : ℕ) (t : Text) (r : Skipped)
    → skipping (cur l q (d ∷ t)) (some r) ≡ skipping (cur l' q t) (some r)
skipping-blank l m q d t (skipped k l' t') = refl
skipping-blank l m q d t bad_char = refl
skipping-blank l m q d t bad_string = refl

-- A character that skipcomment passes.
pub skip_at-pass :
    (l l' : Linestate) (q : Bool) (d : ℕ) (t : Text) (c : Cursor)
    → round no_comment l (d ∷ t) ≡ on no_comment l' t
    → skip_at false (cur l' q t) ≡ ok c
    → skip_at false (cur l q (d ∷ t)) ≡ ok c
unfolding skip_at skipcomment skip_loop
skip_at-pass l l' q d t c p h =
    let n = 2 * length t + 1 in
    let e : 2 * suc (length t) + 1 ≡ suc (suc n) = omega arith in
    ap (λ k. skipping (cur l q (d ∷ t)) (skip_loop k no_comment l (d ∷ t))) e
    ∙ ap (λ r. skipping (cur l q (d ∷ t)) (follow (skip_loop (suc n)) no_comment l (d ∷ t) r)) p
    ∙ (elim (Option-cases (skip_loop n no_comment l' t)) [
      | inl z ↦ let k = ap (skipping (cur l' q t)) z in absurd (not_ok c (sym k ∙ h))
      | inr (r, z) ↦
          ap (skipping (cur l q (d ∷ t))) (skip_loop-more n no_comment l' t r z)
          ∙ skipping-blank l l' q d t r
          ∙ ap (skipping (cur l' q t)) (sym z)
          ∙ h
    ])
  where
    not_ok : (c : Cursor) → ¬ (out_of_fuel ≡ ok c)
    not_ok c e = cc

pub skip_at-blank :
    (l : Linestate) (q : Bool) (t : Text) (c : Cursor)
    → skip_at false (cur l q t) ≡ ok c
    → skip_at false (cur l q (32 ∷ t)) ≡ ok c
unfolding round
skip_at-blank l q t c h = skip_at-pass l l q 32 t c refl h
