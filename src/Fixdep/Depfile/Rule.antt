-- ===== src/Fixdep/Depfile/Rule.antt =====
-- scripts/basic/fixdep.c: parse_dep_file on the rule that the compiler writes.
use embtoolkit.Base.{
  ℕ, zero, suc, ◌-◌, ◌≤◌, ◌<◌, ◌≡◌, refl, ap, ◌∙◌, Bool, true, false, not, ◌&&◌, List, [], ◌∷◌,
  ◌++◌, Option, none, some, Text, codes, ◌==◌, skip, length, length-append, arith, ltb, lt→ltb,
  if-true,
}
use embtoolkit.Fixdep.Set.{Hashtab, clear_config}
use embtoolkit.Fixdep.Depfile.{
  Outcome, done, exit, overrun, after, is_gap, skip_gaps, is_alnum, name_at, cut, cut_at_end,
  name_and_rest, next_name, print, visit_name, follow_names, behind_colon, closing, parse_behind,
  parse_dep_file, path_max,
}

-- A prerequisite as it is written: whether a new line starts before it, and its name.
abbrev pub Prerequisite : Type 0
Prerequisite = Bool × Text

abbrev pub new_line : Bool → Text
new_line true = codes "\\\n "
new_line false = []

abbrev pub prerequisites : List Prerequisite → Text
prerequisites [] = codes "\n"
prerequisites ((b, s) ∷ ds) = 32 ∷ (new_line b ++ (s ++ prerequisites ds))

-- `object: a.c b.h \` and so on
abbrev pub rule : Text → List Prerequisite → Text
rule object ds = object ++ (58 ∷ prerequisites ds)

abbrev pub plain : Text → Bool
plain [] = true
plain (c ∷ s) = not (c == 32) && plain s

abbrev pub heads : Text → Bool
heads [] = false
heads (c ∷ s) = not (is_gap c)

abbrev pub ends_alnum : Text → Bool
ends_alnum [] = false
ends_alnum (c ∷ []) = is_alnum c
ends_alnum (c ∷ d ∷ s) = ends_alnum (d ∷ s)

-- Names without a blank that do not start with a backslash or a line end, the last with a letter or
-- a digit at its end.
unfoldable pub AreNames : Text → List Prerequisite → Type 0
AreNames s [] = (heads s ≡ true) × (plain s ≡ true) × (ends_alnum s ≡ true)
AreNames s ((b, s') ∷ ds) = (heads s ≡ true) × (plain s ≡ true) × AreNames s' ds

abbrev pub no_colon : Text → Bool
no_colon [] = true
no_colon (c ∷ s) = not (c == 58) && no_colon s

abbrev pub names : List Prerequisite → List Text
names [] = []
names ((b, s) ∷ ds) = s ∷ names ds

abbrev gaps : Text → Bool
gaps [] = true
gaps (c ∷ s) = is_gap c && gaps s

skip_gaps-append :
    (g s t : Text) → gaps g ≡ true → heads s ≡ true → skip_gaps (g ++ (s ++ t)) ≡ s ++ t
unfolding skip_gaps
skip_gaps-append [] [] t h k = cc
skip_gaps-append [] (c ∷ s) t h k = ground (arith, k)
skip_gaps-append (c ∷ g) s t h k = ground (arith, h, skip_gaps-append g s t)

name_at-blank :
    (s t : Text) → plain s ≡ true → name_at (s ++ (32 ∷ t)) ≡ record { name = s; behind = some t }
unfolding name_at
name_at-blank [] t h = refl
name_at-blank (c ∷ s) t h =
    let e : (c == 32) ≡ false = ground (arith, h) in
    let i = name_at-blank s t (ground (arith, h)) in simp (e, i)

name_at-plain : (s : Text) → plain s ≡ true → name_at s ≡ record { name = s; behind = none }
unfolding name_at
name_at-plain [] h = refl
name_at-plain (c ∷ s) h =
    let e : (c == 32) ≡ false = ground (arith, h) in
    let i = name_at-plain s (ground (arith, h)) in simp (e, i)

plain-append : (s t : Text) → plain s ≡ true → plain t ≡ true → plain (s ++ t) ≡ true
plain-append [] t h k = k
plain-append (c ∷ s) t h k = ground (arith, h, plain-append s t)

cut-some : (c : ℕ) (t s r : Text) → cut t ≡ some (s, r) → cut (c ∷ t) ≡ some (c ∷ s, r)
unfolding cut
cut-some c t s r h = rw h

cut-line : (s : Text) → ends_alnum s ≡ true → cut (s ++ codes "\n") ≡ some (s, codes "\n")
unfolding cut
cut-line [] h = cc
cut-line (c ∷ []) h = rw h
cut-line (c ∷ d ∷ s) h =
    cut-some c (d ∷ (s ++ codes "\n")) (d ∷ s) (codes "\n") (cut-line (d ∷ s) h)

next_name-behind :
    (m s t : Text) → name_at m ≡ record { name = s; behind = some t } → next_name m ≡ some (s, t)
unfolding next_name
next_name-behind m s t h = ap cut_at_end h

next_name-cut :
    (m n s r : Text)
    → name_at m ≡ record { name = n; behind = none }
    → cut n ≡ some (s, r)
    → next_name m ≡ some (s, skip 1 r)
unfolding next_name
next_name-cut m n s r h k = ap cut_at_end h ∙ ap name_and_rest k

next_name-nil : next_name (skip_gaps []) ≡ none
unfolding next_name skip_gaps name_at cut
next_name-nil = refl

next_name-blank :
    (g s t : Text)
    → gaps g ≡ true
    → heads s ≡ true
    → plain s ≡ true
    → next_name (skip_gaps (g ++ (s ++ (32 ∷ t)))) ≡ some (s, t)
next_name-blank g s t h k l =
    ap next_name (skip_gaps-append g s (32 ∷ t) h k)
    ∙ next_name-behind (s ++ (32 ∷ t)) s t (name_at-blank s t l)

next_name-last :
    (g s : Text)
    → gaps g ≡ true
    → heads s ≡ true
    → plain s ≡ true
    → ends_alnum s ≡ true
    → next_name (skip_gaps (g ++ (s ++ codes "\n"))) ≡ some (s, [])
next_name-last g s h k l a =
    ap next_name (skip_gaps-append g s (codes "\n") h k)
    ∙ next_name-cut (s ++ codes "\n") (s ++ codes "\n") s (codes "\n")
        (name_at-plain (s ++ codes "\n") (plain-append s (codes "\n") l refl)) (cut-line s a)

prerequisites-length : (ds : List Prerequisite) → 1 ≤ length (prerequisites ds)
prerequisites-length [] = omega arith
prerequisites-length ((b, s) ∷ ds) = omega arith

new_line-gaps : (b : Bool) → gaps (new_line b) ≡ true
new_line-gaps true = refl
new_line-gaps false = refl

module _ (target : Text) (files : Text → Option Text) where
  -- The names one after another.
  abbrev pub visit_names : Bool → Hashtab → List Text → Outcome
  visit_names first hashtab [] = done (record { hashtab = hashtab; out = [] })
  visit_names first hashtab (s ∷ ss) =
      after (visit_name target files first hashtab s) (λ t. visit_names false t ss)

  follow_names-nil :
      (fuel : ℕ) (first : Bool) (hashtab : Hashtab)
      → follow_names target files fuel first hashtab []
        ≡ done (record { hashtab = hashtab; out = [] })
  unfolding follow_names
  follow_names-nil zero first hashtab = refl
  follow_names-nil (suc fuel) first hashtab = refl

  follow_names-next :
      (fuel : ℕ) (first : Bool) (hashtab : Hashtab) (m s rest : Text)
      → next_name (skip_gaps m) ≡ some (s, rest)
      → follow_names target files (suc fuel) first hashtab m
        ≡ after
            (visit_name target files first hashtab s)
            (λ t. follow_names target files fuel false t rest)
  unfolding follow_names
  follow_names-next fuel first hashtab [] s rest h = let n = next_name-nil in cc
  follow_names-next fuel first hashtab (c ∷ m) s rest h =
      ap
        (λ o. elim o as (λ x. Outcome) [
          | none ↦ overrun
          | some (s, rest) ↦
              after (visit_name target files first hashtab s)
                (λ t. follow_names target files fuel false t rest)
        ])
        h

  pub after-cong :
      (o : Outcome) (f g : Hashtab → Outcome) → ((t : Hashtab) → f t ≡ g t) → after o f ≡ after o g
  after-cong (done u) f g h = ap (print u.out) (h u.hashtab)
  after-cong (exit n) f g h = refl
  after-cong overrun f g h = refl

  follow_names-visit_names :
      (fuel : ℕ) (first : Bool) (hashtab : Hashtab) (g s : Text) (ds : List Prerequisite)
      → gaps g ≡ true
      → AreNames s ds
      → length (g ++ (s ++ prerequisites ds)) ≤ fuel
      → follow_names target files fuel first hashtab (g ++ (s ++ prerequisites ds))
        ≡ visit_names first hashtab (s ∷ names ds)
  unfolding AreNames
  follow_names-visit_names zero first hashtab g s ds h n l =
      let e = length-append g (s ++ prerequisites ds) in
      let f = length-append s (prerequisites ds) in
      let k = prerequisites-length ds in absurd (omega arith)
  follow_names-visit_names (suc fuel) first hashtab g s [] h (k, p, a) l =
      follow_names-next fuel first hashtab (g ++ (s ++ codes "\n")) s []
        (next_name-last g s h k p a)
      ∙ after-cong (visit_name target files first hashtab s)
          (λ t. follow_names target files fuel false t [])
          (λ t. done (record { hashtab = t; out = [] })) (λ t. follow_names-nil fuel false t)
  follow_names-visit_names (suc fuel) first hashtab g s ((b, v) ∷ ds) h (k, p, n) l =
      let rest = new_line b ++ (v ++ prerequisites ds) in
      let e = length-append g (s ++ (32 ∷ rest)) in
      let f = length-append s (32 ∷ rest) in
      let short : length rest ≤ fuel = omega arith in
      follow_names-next fuel first hashtab (g ++ (s ++ (32 ∷ rest))) s rest
        (next_name-blank g s rest h k p)
      ∙ after-cong (visit_name target files first hashtab s)
          (λ t. follow_names target files fuel false t rest)
          (λ t. visit_names false t (v ∷ names ds))
          (λ t. follow_names-visit_names fuel false t (new_line b) v ds (new_line-gaps b) n short)

behind_colon-append : (s t : Text) → no_colon s ≡ true → behind_colon (s ++ (58 ∷ t)) ≡ some t
behind_colon-append [] t h = refl
behind_colon-append (c ∷ s) t h =
    let e : (c == 58) ≡ false = ground (arith, h) in
    let i = behind_colon-append s t (ground (arith, h)) in simp (e, i)

-- On a rule as the compiler writes it, with an object name that fits its buffer and has no colon,
-- and at least one prerequisite, parse_dep_file stops, and does for every name of the rule, in the
-- rule's order and with the options of the names before, what its loop does with a name; it then
-- prints the closing lines. The prerequisites have no blank, none starts with a backslash or a line
-- end, and the last ends in a letter or a digit.
pub parse_dep_file-rule :
    (target : Text) (files : Text → Option Text) (hashtab : Hashtab) (object : Text) (b : Bool)
    (s : Text) (ds : List Prerequisite)
    → no_colon object ≡ true
    → length object < path_max
    → AreNames s ds
    → parse_dep_file target files hashtab (rule object ((b, s) ∷ ds))
      ≡ after
          (visit_names target files true (clear_config hashtab) (s ∷ names ds))
          (λ t. done (record { hashtab = t; out = closing target }))
unfolding parse_dep_file
parse_dep_file-rule target files hashtab object b s ds h l n =
    let m = prerequisites ((b, s) ∷ ds) in
    let c = behind_colon-append object m h in
    let e = length-append object (58 ∷ m) in
    let fits : ltb (length (object ++ (58 ∷ m)) - length m - 1) path_max ≡ true =
      lt→ltb (length (object ++ (58 ∷ m)) - length m - 1) path_max (omega arith) in
    let f =
      follow_names-visit_names target files (length m) true (clear_config hashtab) (32 ∷ new_line b)
        s ds (new_line-gaps b) n (omega arith) in
    let end : Hashtab → Outcome = λ t. done (record { hashtab = t; out = closing target }) in
    ap (parse_behind target files hashtab (object ++ (58 ∷ m))) c
    ∙ if-true (after (follow_names target files (length m) true (clear_config hashtab) m) end)
        overrun fits
    ∙ ap (λ o. after o end) f
