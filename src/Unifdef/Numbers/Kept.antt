-- ===== src/Unifdef/Numbers/Kept.antt =====
-- scripts/unifdef.c: the options -n and -b and the line numbers of what is left.
use embtoolkit.Base.{
  ℕ, ◌+◌, ◌≡◌, refl, Bool, true, false, List, [], ◌∷◌, ◌++◌, Text, Bool-cases, inl, inr, arith, ltb,
  ◌&&◌, not, ◌==◌, if◌then◌else◌,
}
use embtoolkit.Unifdef.Machine.{
  Options, Line, State, Written, text, line_number, flushline, flush_kept, differ, is_blank,
  process,
}
use embtoolkit.Unifdef.Numbers.{newlines, position, AreLines}
use embtoolkit.Unifdef.Numbers.Flushed.{Account, Holds, Survives, process-Survives}

position-++ : (n : ℕ) (v w : List Written) → position n (v ++ w) ≡ position (position n v) w
position-++ n [] w = refl
position-++ n (text t ∷ v) w = position-++ (n + newlines t) v w
position-++ n (line_number m ∷ v) w = position-++ m v w

-- If the last line was written, the next line of the output has the number of the next line read.
abbrev pub Synchronised : Account
Synchronised n d w = d ≡ 0 → position 1 w ≡ n + 1

-- The same with the next line counted already.
abbrev Counted : Account
Counted n d w = d ≡ 0 → position 1 w ≡ n

-- There are as many newlines in the output as lines have been read.
abbrev pub OnePerLine : Account
OnePerLine n d w = position 1 w ≡ n + 1

abbrev OnePerCounted : Account
OnePerCounted n d w = position 1 w ≡ n

-- A line that is printed with the directive that a deletion before it asks for.
numbered-position :
    (s : State) (t : Text)
    → newlines t ≡ 1
    → Holds Counted s
    → position 1 (
        s.written
        ++ (if ltb 0 s.delcount then line_number s.linenum ∷ text t ∷ [] else text t ∷ []))
      ≡ s.linenum + 1
numbered-position s t n h = elim (Bool-cases (ltb 0 s.delcount)) [
  | inl e ↦
      let k = position-++ 1 s.written (line_number s.linenum ∷ text t ∷ []) in
      simp e (omega (arith, k, n))
  | inr e ↦
      let k = position-++ 1 s.written (text t ∷ []) in
      let c = h (ground arith) in simp e (omega (arith, k, c, n))
]

printed-one_per_line :
    (s : State) (t : Text)
    → newlines t ≡ 1
    → Holds OnePerCounted s
    → position 1 (s.written ++ (text t ∷ [])) ≡ s.linenum + 1
printed-one_per_line s t n h =
    let k = position-++ 1 s.written (text t ∷ []) in omega (arith, k, n, h)

module _ (o : Options) where
  flush_kept-numbered :
      (t : Text) (s : State)
      → o.lnnum ≡ true
      → newlines t ≡ 1
      → Holds Counted s
      → Holds Synchronised (flush_kept o t s)
  flush_kept-numbered t s n w h =
      elim (Bool-cases (is_blank t && (o.compblank && not (s.blankcount == s.blankmax)))) [
        | inl e ↦ simp e (λ z. absurd (omega arith))
        | inr e ↦ simp (e, n) (λ z. numbered-position s t w h)
      ]

  flushline-numbered :
      o.lnnum ≡ true
      → o.symlist ≡ false
      → (keep : Bool) (t : Text) (s : State) → newlines t ≡ 1
      → Holds Counted s
      → Holds Synchronised (flushline o keep t s)
  unfolding flushline
  flushline-numbered n y keep t s w h = elim (Bool-cases (differ keep o.complement)) [
    | inl e ↦ simp (y, e) (flush_kept-numbered t s n w h)
    | inr e ↦ simp (y, e) (λ z. absurd (omega arith))
  ]

  -- With -n and without -s and -o, as long as the program has not ended, on lines with one newline each,
  -- a directive's behind the first four characters of the keyword, and with one newline to be put for
  -- them: if the last line read was written, then the next line of standard output has the number of the
  -- next line of the input, for a reader that counts newlines and follows the #line directives. (With
  -- -o the directives and the lines go to two files.)
  pub process-Synchronised :
      o.lnnum ≡ true
      → o.symlist ≡ false
      → newlines o.newline ≡ 1
      → (ls : List Line) → (s : State) → AreLines ls
      → Holds Synchronised s
      → Survives Synchronised (process o ls s)
  process-Synchronised n y z =
      process-Survives o Counted Synchronised (flushline-numbered n y) z (λ n d w h. h)

  flushline-one_per_line :
      o.lnblank ≡ true
      → o.compblank ≡ false
      → o.lnnum ≡ false
      → o.symlist ≡ false
      → newlines o.newline ≡ 1
      → (keep : Bool) (t : Text) (s : State) → newlines t ≡ 1
      → Holds OnePerCounted s
      → Holds OnePerLine (flushline o keep t s)
  unfolding flushline
  flushline-one_per_line b c n y z keep t s w h = elim (Bool-cases (differ keep o.complement)) [
    | inl e ↦ elim (Bool-cases (is_blank t)) [
      | inl f ↦ simp (y, e, f, c, n) (printed-one_per_line s t w h)
      | inr f ↦ simp (y, e, f, n) (printed-one_per_line s t w h)
    ]
    | inr e ↦
        let k = position-++ 1 s.written (text o.newline ∷ []) in
        simp (y, e, b) (omega (arith, k, z, h))
  ]

  -- With -b and without -B, -n and -s, as long as the program has not ended, on lines with one newline
  -- each, a directive's behind the first four characters of the keyword, and with one newline to be put
  -- for them: the output has as many newlines as lines have been read.
  pub process-OnePerLine :
      o.lnblank ≡ true
      → o.compblank ≡ false
      → o.lnnum ≡ false
      → o.symlist ≡ false
      → newlines o.newline ≡ 1
      → (ls : List Line) → (s : State) → AreLines ls
      → Holds OnePerLine s
      → Survives OnePerLine (process o ls s)
  process-OnePerLine b c n y z =
      process-Survives o OnePerCounted OnePerLine (flushline-one_per_line b c n y z) z
        (λ n d w h. h)
