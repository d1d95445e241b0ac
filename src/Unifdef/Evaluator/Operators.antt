-- ===== src/Unifdef/Evaluator/Operators.antt =====
-- scripts/unifdef.c: the loop of eval_table over a row finds the operator that is printed.
use embtoolkit.Base.{
  ℕ, ◌≡◌, refl, ap, ◌∙◌, Bool, true, false, not, ◌&&◌, List, [], ◌∷◌, ◌++◌, none, some, Text, ◌==◌,
  if-true, if-false, starts, skip, length, arith, Bool-cases, inl, inr,
}
use embtoolkit.Unifdef.Comment.{Linestate, at}
use embtoolkit.Unifdef.Evaluator.{
  Op, op_or, op_and, op_eq, op_ne, op_le, op_ge, op_lt, op_gt, str, find_op, ok, skip_at,
}
use embtoolkit.Unifdef.Evaluator.Skip.{cur, ordinary, skip_at-ordinary, skip_at-blank}
use embtoolkit.Unifdef.Evaluator.Syntax.{same_op, has_op, begins, begins_row}
use embtoolkit.Unifdef.Evaluator.Reads.{Tail, NoOps}

abbrev no_blank : Text → Bool
no_blank [] = true
no_blank (c ∷ s) = not (c == 32) && no_blank s

str-no_blank : (op : Op) → no_blank (str op) ≡ true
str-no_blank op_or = refl
str-no_blank op_and = refl
str-no_blank op_eq = refl
str-no_blank op_ne = refl
str-no_blank op_le = refl
str-no_blank op_ge = refl
str-no_blank op_lt = refl
str-no_blank op_gt = refl

-- A blank ends what an operator may begin.
starts-blank : (s u t : Text) → no_blank s ≡ true → starts s (u ++ (32 ∷ t)) ≡ starts s u
starts-blank [] u t h = refl
starts-blank (c ∷ s) [] t h = ground (arith, h)
starts-blank (c ∷ s) (d ∷ u) t h = ap (λ b. (c == d) && b) (starts-blank s u t (ground (arith, h)))

starts_refl : (s t : Text) → starts s (s ++ t) ≡ true
starts_refl [] t = refl
starts_refl (c ∷ s) t = ground (arith, starts_refl s t)

same_op→eq : (a b : Op) → same_op a b ≡ true → a ≡ b
same_op→eq a b h = ground (arith, h)

pub find_op-printed :
    (row : List Op) (op : Op) (t : Text)
    → has_op row op ≡ true
    → find_op row (str op ++ (32 ∷ t)) ≡ some op
unfolding find_op
find_op-printed [] op t h = cc
find_op-printed (o ∷ row) op t h = elim (Bool-cases (same_op o op)) [
  | inl e ↦ rw (same_op→eq o op e) (if-true (some op) _ (starts_refl (str op) (32 ∷ t)))
  | inr e ↦
      let k : starts (str o) (str op) ≡ false = ground (arith, h, e) in
      let i : has_op row op ≡ true = ground (arith, h, e) in
      if-false (some o) _ (starts-blank (str o) (str op) t (str-no_blank o) ∙ k)
      ∙ find_op-printed row op t i
]

find_op-none :
    (row : List Op) (op : Op) (t : Text)
    → begins_row row op ≡ false
    → find_op row (str op ++ (32 ∷ t)) ≡ none
unfolding find_op
find_op-none [] op t h = refl
find_op-none (o ∷ row) op t h =
    let k : starts (str o) (str op) ≡ false = ground (arith, h) in
    let i : begins_row row op ≡ false = ground (arith, h) in
    if-false (some o) _ (starts-blank (str o) (str op) t (str-no_blank o) ∙ k)
    ∙ find_op-none row op t i

pub begins-NoOps :
    (rows : List (List Op)) (op : Op) (t : Text)
    → begins rows op ≡ false
    → NoOps rows (str op ++ (32 ∷ t))
begins-NoOps [] op t h = tt
begins-NoOps (row ∷ rows) op t h =
    (find_op-none row op t (ground (arith, h)), begins-NoOps rows op t (ground (arith, h)))

-- The first character of an operator
op_first :
    (op : Op) (t : Text)
    → (d : ℕ) × (u : Text) × (str op ++ t ≡ d ∷ u) × (ordinary d ≡ true) × ((d == 40) ≡ false)
op_first op_or t = (124, 124 ∷ t, refl, refl, refl)
op_first op_and t = (38, 38 ∷ t, refl, refl, refl)
op_first op_eq t = (61, 61 ∷ t, refl, refl, refl)
op_first op_ne t = (33, 61 ∷ t, refl, refl, refl)
op_first op_le t = (60, 61 ∷ t, refl, refl, refl)
op_first op_ge t = (62, 61 ∷ t, refl, refl, refl)
op_first op_lt t = (60, t, refl, refl, refl)
op_first op_gt t = (62, t, refl, refl, refl)

-- Behind an operand come a blank and the operator.
pub op-Tail : (l : Linestate) (op : Op) (t : Text) → Tail l (32 ∷ (str op ++ t)) l (str op ++ t)
op-Tail l op t =
    let (d, u, e, o, p) = op_first op t in
    let s : (q : Bool) → skip_at false (cur l q (str op ++ t)) ≡ ok (cur l q (str op ++ t)) =
      λ q. rw e (skip_at-ordinary l q d u o) in
    (λ q. skip_at-blank l q (str op ++ t) _ (s q), s, refl, ap (at 40) e ∙ p)

pub skip-append : (s t : Text) → skip (length s) (s ++ t) ≡ t
skip-append [] t = refl
skip-append (c ∷ s) t = skip-append s t
