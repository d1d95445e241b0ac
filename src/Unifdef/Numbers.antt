-- ===== src/Unifdef/Numbers.antt =====
-- scripts/unifdef.c: the line numbers that a compiler sees in the output.
pub mod Flushed
pub mod Kept
use embtoolkit.Base.{
  ℕ, ◌+◌, ◌-◌, ◌≡◌, refl, List, [], ◌∷◌, ◌++◌, ◌==◌, Text, codes, skip, if◌then◌else◌, arith,
  Bool-cases, inl, inr, ap, ◌∙◌,
}
use embtoolkit.Unifdef.{
  Linetype, directive, dodgy, plain, eof, unevaluable, Ifstate, outside, Action, mpass, mtrue,
  melif, melse, transition,
}
use embtoolkit.Unifdef.Machine.{
  Line, Options, Written, text, line_number, whole, keyword_if, keyword_edit,
}

-- The ends of lines in a text
abbrev pub newlines : Text → ℕ
newlines [] = 0
newlines (c ∷ t) = let rest = newlines t in if c == 10 then rest + 1 else rest

pub newlines-append : (t u : Text) → newlines (t ++ u) ≡ newlines t + newlines u
newlines-append [] u = omega arith
newlines-append (c ∷ t) u =
    let h = newlines-append t u in
    elim (Bool-cases (c == 10)) [
      | inl e ↦ rw e (omega (arith, h))
      | inr e ↦ rw e (omega (arith, h))
    ]

-- The number of the next line after w, which starts at line n: a #line directive sets it.
abbrev pub position : ℕ → List Written → ℕ
position n [] = n
position n (text t ∷ w) = position (n + newlines t) w
position n (line_number m ∷ w) = position m w

-- One line with its newline, which for a directive is behind the first four characters of the keyword.
abbrev IsDirective : Line → Type 0
IsDirective l =
    (newlines l.before ≡ 0) × (newlines l.keyword ≡ 1) × (newlines (skip 4 l.keyword) ≡ 1)

abbrev pub IsOneLine : Linetype → Line → Type 0
IsOneLine plain l = newlines (whole l) ≡ 1
IsOneLine _ l = IsDirective l

abbrev pub AreLines : List Line → Type 0
AreLines [] = Unit
AreLines (l ∷ ls) = IsOneLine l.linetype l × AreLines ls

-- What an action needs that edits the keyword.
abbrev pub CanEdit : Action → Line → Type 0
CanEdit mpass l = IsDirective l
CanEdit mtrue l = IsDirective l
CanEdit melif l = IsDirective l
CanEdit melse l = IsDirective l
CanEdit _ l = Unit

IsDirective-whole : (l : Line) → IsDirective l → newlines (whole l) ≡ 1
IsDirective-whole l (b, k, s) = let h = newlines-append l.before l.keyword in omega (arith, h, b, k)

pub IsOneLine-whole : (t : Linetype) (l : Line) → IsOneLine t l → newlines (whole l) ≡ 1
IsOneLine-whole plain l h = h
IsOneLine-whole (directive d) l h = IsDirective-whole l h
IsOneLine-whole t l h = IsDirective-whole l h

CanEdit-any : (a : Action) (l : Line) → IsDirective l → CanEdit a l
CanEdit-any mpass l h = h
CanEdit-any mtrue l h = h
CanEdit-any melif l h = h
CanEdit-any melse l h = h
CanEdit-any _ l h = tt

-- The table edits no line that is not a directive.
CanEdit-plain : (i : Ifstate) (l : Line) → CanEdit (transition i plain) l
CanEdit-plain outside l = tt
CanEdit-plain _ l = tt

pub IsOneLine-CanEdit :
    (i : Ifstate) (t : Linetype) (l : Line) → IsOneLine t l → CanEdit (transition i t) l
IsOneLine-CanEdit i plain l h = CanEdit-plain i l
IsOneLine-CanEdit i (directive d) l h = CanEdit-any (transition i (directive d)) l h
IsOneLine-CanEdit i t l h = CanEdit-any (transition i t) l h

-- The edits keep the newline, or put one.
pub keyword_if-whole : (l : Line) → IsDirective l → newlines (whole (keyword_if l)) ≡ 1
keyword_if-whole l (b, k, s) =
    let h = newlines-append l.before (codes "if  " ++ skip 4 l.keyword) in omega (arith, h, b, s)

pub keyword_edit-whole :
    (o : Options) (r : Text) (l : Line)
    → newlines o.newline ≡ 1
    → newlines r ≡ 0
    → IsDirective l
    → newlines (whole (keyword_edit o r l)) ≡ 1
keyword_edit-whole o r l n z (b, k, s) =
    let h = newlines-append l.before (r ++ o.newline) in
    let g = newlines-append r o.newline in omega (arith, h, g, n, z, b)
