-- ===== src/Unifdef/Comment/Stops.antt =====
-- scripts/unifdef.c: skipcomment ends, and where it stops.
use embtoolkit.Base.{
  skip, starts, append_assoc, ℕ, zero, suc, ◌+◌, ◌*◌, ◌≤◌, ◌<◌, ◌≡◌, refl, ap, ◌∙◌, Bool, true,
  false, not, ◌||◌, [], ◌∷◌, ◌++◌, ◌⊎◌, inl, inr, if◌then◌else◌, Text, codes, length, Yields,
  Yields-weaken, arith, Bool-cases, ◌==◌,
}
use embtoolkit.Unifdef.Comment.{
  Comment, no_comment, c_comment, cxx_comment, starting_comment, finishing_comment, char_literal,
  string_literal, Linestate, ls_start, ls_dirty, at, Round, stop, on, unterminated_char,
  unterminated_string, round, in_code, in_literal, in_state, Skipped, skipped, bad_char, bad_string,
  follow, skip_loop, skipcomment, skip_space, is_space,
}

-- t is what is left of cp.
abbrev pub IsLeft : Text → Text → Type 0
IsLeft t cp = (passed : Text) × (passed ++ t ≡ cp)

IsLeft-refl : (t : Text) → IsLeft t t
IsLeft-refl t = ([], refl)

IsLeft-skip : (n : ℕ) (t : Text) → IsLeft (skip n t) t
IsLeft-skip zero t = ([], refl)
IsLeft-skip (suc n) [] = ([], refl)
IsLeft-skip (suc n) (c ∷ t) = let r = IsLeft-skip n t in (c ∷ r.0, ap (λ u. c ∷ u) r.1)

IsLeft-trans : (a b c : Text) → IsLeft a b → IsLeft b c → IsLeft a c
IsLeft-trans a b c h k = (k.0 ++ h.0, append_assoc k.0 h.0 a ∙ ap (λ u. k.0 ++ u) h.1 ∙ k.1)

pub length-skip : (n : ℕ) (t : Text) → length (skip n t) ≤ length t
length-skip zero t = omega arith
length-skip (suc n) [] = omega arith
length-skip (suc n) (c ∷ t) = let h = length-skip n t in omega arith

-- The two states that a round may leave without passing a character.
abbrev pending : Comment → ℕ
pending starting_comment = 1
pending finishing_comment = 1
pending _ = 0

pending-bound : (c : Comment) → pending c ≤ 1
pending-bound no_comment = omega arith
pending-bound c_comment = omega arith
pending-bound cxx_comment = omega arith
pending-bound starting_comment = omega arith
pending-bound finishing_comment = omega arith
pending-bound char_literal = omega arith
pending-bound string_literal = omega arith

abbrev left : Comment → Text → ℕ
left c t = 2 * length t + pending c

-- Whether the text is no blank, tab, return or newline, and begins no comment, literal or continued
-- line, where / may be divided from what follows by a continued line.
abbrev pub begins_nothing : Text → Bool
begins_nothing t = not (
    at 32 t
    || (at 9 t
        || (at 13 t
            || (at 10 t
                || (at 34 t
                    || (at 39 t
                        || (starts (codes "/*") t
                            || (starts (codes "//") t
                                || (starts (codes "/\\\n") t
                                    || (starts (codes "/\\\r\n") t
                                        || (starts (codes "\\\n") t
                                            || starts (codes "\\\r\n") t)))))))))))

-- Outside comments and literals, at a character that begins neither.
abbrev pub IsToken : Comment → Text → Type 0
IsToken c t = (c ≡ no_comment) × (begins_nothing t ≡ true)

-- What a round has done.
abbrev Proceeds : Comment → Text → Round → Type 0
Proceeds c cp stop = IsToken c cp
Proceeds c cp (on c' l' t) = (left c' t < left c cp) × IsLeft t cp
Proceeds c cp unterminated_char = c ≡ char_literal
Proceeds c cp unterminated_string = c ≡ string_literal

Proceeds-if :
    (c : Comment) (cp : Text) (b : Bool) (r r' : Round)
    → Proceeds c cp r
    → (b ≡ false → Proceeds c cp r')
    → Proceeds c cp (if b then r else r')
Proceeds-if c cp true r r' h k = h
Proceeds-if c cp false r r' h k = k refl

skip-Proceeds :
    (c c' : Comment) (l : Linestate) (n d : ℕ) (t : Text)
    → Proceeds c (d ∷ t) (on c' l (skip (suc n) (d ∷ t)))
skip-Proceeds c c' l n d t =
    let h = length-skip n t in
    let p = pending-bound c' in (omega arith, IsLeft-skip (suc n) (d ∷ t))

in_code-Proceeds :
    (l : Linestate) (d : ℕ) (t : Text)
    → starts (codes "\\\r\n") (d ∷ t) ≡ false
    → starts (codes "\\\n") (d ∷ t) ≡ false
    → Proceeds no_comment (d ∷ t) (in_code l (d ∷ t))
in_code-Proceeds l d t e f = ground (
  arith,
  e,
  f,
  skip-Proceeds no_comment c_comment l 1 d t,
  skip-Proceeds no_comment char_literal ls_dirty 0 d t,
  skip-Proceeds no_comment cxx_comment l 1 d t,
  skip-Proceeds no_comment no_comment l 0 d t,
  skip-Proceeds no_comment no_comment ls_start 0 d t,
  skip-Proceeds no_comment starting_comment l 2 d t,
  skip-Proceeds no_comment starting_comment l 3 d t,
  skip-Proceeds no_comment string_literal ls_dirty 0 d t,
)

in_literal-Proceeds :
    (c : Comment) (quote : ℕ) (r : Round) (l : Linestate) (d : ℕ) (t : Text)
    → Proceeds c (d ∷ t) r
    → Proceeds c (d ∷ t) (in_literal c quote r l (d ∷ t))
in_literal-Proceeds c quote r l d t h = ground (
  arith,
  h,
  skip-Proceeds c no_comment l 0 d t,
  skip-Proceeds c c l 0 d t,
  skip-Proceeds c c l 1 d t,
)

in_state-Proceeds :
    (c : Comment) (l : Linestate) (d : ℕ) (t : Text)
    → starts (codes "\\\r\n") (d ∷ t) ≡ false
    → starts (codes "\\\n") (d ∷ t) ≡ false
    → Proceeds c (d ∷ t) (in_state c l (d ∷ t))
in_state-Proceeds no_comment l d t e f = in_code-Proceeds l d t e f
in_state-Proceeds cxx_comment l d t e f = ground (
  arith,
  skip-Proceeds cxx_comment no_comment ls_start 0 d t,
  skip-Proceeds cxx_comment cxx_comment l 0 d t,
)
in_state-Proceeds char_literal l d t e f =
    in_literal-Proceeds char_literal 39 unterminated_char l d t refl
in_state-Proceeds string_literal l d t e f =
    in_literal-Proceeds string_literal 34 unterminated_string l d t refl
in_state-Proceeds c_comment l d t e f = ground (
  arith,
  skip-Proceeds c_comment finishing_comment l 3 d t,
  skip-Proceeds c_comment finishing_comment l 2 d t,
  skip-Proceeds c_comment no_comment l 1 d t,
  skip-Proceeds c_comment c_comment l 0 d t,
)
in_state-Proceeds starting_comment l d t e f = ground (
  arith,
  IsLeft-refl (d ∷ t),
  skip-Proceeds starting_comment c_comment l 0 d t,
  skip-Proceeds starting_comment cxx_comment l 0 d t,
)
in_state-Proceeds finishing_comment l d t e f =
    ground (arith, IsLeft-refl (d ∷ t), skip-Proceeds finishing_comment no_comment l 0 d t)

round-Proceeds :
    (c : Comment) (l : Linestate) (d : ℕ) (t : Text) → Proceeds c (d ∷ t) (round c l (d ∷ t))
unfolding round
round-Proceeds c l d t =
    Proceeds-if c (d ∷ t) (starts (codes "\\\r\n") (d ∷ t)) (on c l (skip 3 (d ∷ t)))
      (if starts (codes "\\\n") (d ∷ t) then on c l (skip 2 (d ∷ t)) else in_state c l (d ∷ t))
      (skip-Proceeds c c l 2 d t)
      (λ e.
        Proceeds-if c (d ∷ t) (starts (codes "\\\n") (d ∷ t)) (on c l (skip 2 (d ∷ t)))
          (in_state c l (d ∷ t)) (skip-Proceeds c c l 1 d t) (λ f. in_state-Proceeds c l d t e f))

abbrev pub starts_space : Text → Bool
starts_space [] = false
starts_space (c ∷ t) = is_space c

-- Where skipcomment may stop: in a plain text at no white space; otherwise at the end of the text or
-- outside comments and literals, at a character that begins neither.
abbrev pub Stops : Bool → Text → Skipped → Type 0
Stops true cp (skipped c l t) = IsLeft t cp × (starts_space t ≡ false)
Stops false cp (skipped c l t) = IsLeft t cp × ((t ≡ []) ⊎ IsToken c t)
Stops _ cp bad_char = Unit
Stops _ cp bad_string = Unit

Stops-weaken : (t cp : Text) → IsLeft t cp → (r : Skipped) → Stops false t r → Stops false cp r
Stops-weaken t cp h (skipped c l u) k = (IsLeft-trans u t cp k.0 h, k.1)
Stops-weaken t cp h bad_char k = tt
Stops-weaken t cp h bad_string k = tt

follow-Stops :
    (n : ℕ)
    → ((c : Comment) (l : Linestate) (t : Text)
        → left c t ≤ n
        → Yields (Stops false t) (skip_loop n c l t))
    → (c : Comment) (l : Linestate) (cp : Text) → left c cp ≤ suc n
    → (r : Round) → Proceeds c cp r
    → Yields (Stops false cp) (follow (skip_loop n) c l cp r)
follow-Stops n again c l cp h stop p = (IsLeft-refl cp, inr p)
follow-Stops n again c l cp h (on c' l' t) p =
    Yields-weaken (Stops false t) (Stops false cp) (skip_loop n c' l' t) (Stops-weaken t cp p.1)
      (again c' l' t (omega (arith, p.0)))
follow-Stops n again c l cp h unterminated_char p = tt
follow-Stops n again c l cp h unterminated_string p = tt

skip_loop-Stops :
    (n : ℕ) (c : Comment) (l : Linestate) (cp : Text)
    → left c cp ≤ n
    → Yields (Stops false cp) (skip_loop n c l cp)
unfolding skip_loop
skip_loop-Stops n c l [] h = (IsLeft-refl [], inl refl)
skip_loop-Stops zero c l (d ∷ t) h = absurd (omega (arith, h))
skip_loop-Stops (suc n) c l (d ∷ t) h =
    follow-Stops n (skip_loop-Stops n) c l (d ∷ t) h (round c l (d ∷ t)) (round-Proceeds c l d t)

skip_space-Stops :
    (l : Linestate) (cp : Text)
    → IsLeft (skip_space l cp).1 cp × (starts_space (skip_space l cp).1 ≡ false)
unfolding skip_space
skip_space-Stops l [] = (IsLeft-refl [], refl)
skip_space-Stops l (c ∷ cp) = elim (Bool-cases (is_space c)) [
  | inl e ↦
      let k = if c == 10 then ls_start else l in
      let h = skip_space-Stops k cp in
      simp e (IsLeft-trans (skip_space k cp).1 cp (c ∷ cp) h.0 (IsLeft-skip 1 (c ∷ cp)), h.1)
  | inr e ↦ simp e (IsLeft-refl (c ∷ cp), refl)
]

pub skipcomment-Stops :
    (n : ℕ) (plain : Bool) (c : Comment) (l : Linestate) (cp : Text)
    → 2 * length cp + 1 ≤ n
    → Yields (Stops plain cp) (skipcomment n plain c l cp)
unfolding skipcomment
skipcomment-Stops n true c l cp h = skip_space-Stops l cp
skipcomment-Stops n false c l cp h =
    let p = pending-bound c in skip_loop-Stops n c l cp (omega (arith, h, p))
