-- ===== src/Kconfig/Confdata/Comment.antt =====
-- scripts/kconfig/confdata.c: the lines of a file, and the comments that are written into it.
use embtoolkit.Base.{
  ℕ, ◌≡◌, refl, sym, ap, subst, ◌∙◌, true, false, List, [], ◌∷◌, ◌++◌, Text, codes, ◌==◌,
  if◌then◌else◌, if-true, if-false, starts, arith, append_assoc, Bool-cases, inl, inr,
}
use embtoolkit.Kconfig.Confdata.Line.{prefix, read_statement}
use embtoolkit.Kconfig.Confdata.Store.{Store, follow_statement, read_line, read_lines}
use embtoolkit.Kconfig.Confdata.Statement.{lacks}

abbrev pub push : ℕ → List Text → List Text
push c [] = (c ∷ []) ∷ []
push c (l ∷ ls) = (c ∷ l) ∷ ls

-- The lines that the calls of compat_getline return, each with its line end, the last perhaps
-- without.
unfoldable pub compat_getlines : Text → List Text
compat_getlines [] = []
compat_getlines (c ∷ t) =
    let rest = compat_getlines t in if c == 10 then (c ∷ []) ∷ rest else push c rest

-- The parts of a comment between its line ends.
unfoldable pub comment_parts : Text → List Text
comment_parts [] = [] ∷ []
comment_parts (c ∷ t) = let rest = comment_parts t in if c == 10 then [] ∷ rest else push c rest

-- A round of the loop of kconfig_print_comment
abbrev pub comment_part : Text → Text
comment_part [] = codes "#"
comment_part (c ∷ t) = codes "# " ++ (c ∷ t)

abbrev pub comment_parts_text : List Text → Text
comment_parts_text [] = []
comment_parts_text (l ∷ ls) = comment_part l ++ (10 ∷ comment_parts_text ls)

unfoldable pub kconfig_print_comment : Text → Text
unfolding comment_parts
kconfig_print_comment value = comment_parts_text (comment_parts value)

-- None of the lines starts with CONFIG_.
abbrev pub AreRemarks : List Text → Type 0
AreRemarks [] = Unit
AreRemarks (l ∷ ls) = (starts prefix l ≡ false) × AreRemarks ls

abbrev pub LackEnds : List Text → Type 0
LackEnds [] = Unit
LackEnds (l ∷ ls) = (lacks 10 l ≡ true) × LackEnds ls

pub compat_getlines-line :
    (l t : Text)
    → lacks 10 l ≡ true
    → compat_getlines (l ++ (10 ∷ t)) ≡ (l ++ (10 ∷ [])) ∷ compat_getlines t
unfolding compat_getlines
compat_getlines-line [] t h = refl
compat_getlines-line (c ∷ l) t h =
    let e : (c == 10) ≡ false = ground (arith, h) in
    let i = compat_getlines-line l t (ground (arith, h)) in
    if-false ((c ∷ []) ∷ compat_getlines (l ++ (10 ∷ t))) _ e ∙ ap (push c) i

push-LackEnds : (c : ℕ) (ls : List Text) → (c == 10) ≡ false → LackEnds ls → LackEnds (push c ls)
push-LackEnds c [] h k = (ground (arith, h), tt)
push-LackEnds c (l ∷ ls) h (k, ks) = (ground (arith, h, k), ks)

comment_parts-LackEnds : (value : Text) → LackEnds (comment_parts value)
unfolding comment_parts
comment_parts-LackEnds [] = (refl, tt)
comment_parts-LackEnds (c ∷ t) = elim (Bool-cases (c == 10)) [
  | inl e ↦
      subst LackEnds (sym (if-true ([] ∷ comment_parts t) (push c (comment_parts t)) e))
        (refl, comment_parts-LackEnds t)
  | inr e ↦
      subst LackEnds (sym (if-false ([] ∷ comment_parts t) (push c (comment_parts t)) e))
        (push-LackEnds c (comment_parts t) e (comment_parts-LackEnds t))
]

comment_part-lacks : (l : Text) → lacks 10 l ≡ true → lacks 10 (comment_part l) ≡ true
comment_part-lacks [] h = refl
comment_part-lacks (c ∷ l) h = h

starts-line :
    (p l : Text) → lacks 10 p ≡ true → starts p l ≡ false → starts p (l ++ (10 ∷ [])) ≡ false
starts-line [] l h k = k
starts-line (c ∷ p) [] h k = ground (arith, h)
starts-line (c ∷ p) (d ∷ l) h k = ground (arith, h, k, starts-line p l)

read_line-comment :
    (l : Text) (s : Store) → starts prefix l ≡ false → read_line (comment_part l ++ (10 ∷ [])) s ≡ s
unfolding read_line read_statement
read_line-comment [] s h = refl
read_line-comment (c ∷ l) s h =
    let e = starts-line prefix (c ∷ l) refl h in ap (λ x. follow_statement x s) (if-false _ _ e)

read_lines-parts :
    (ls : List Text) (t : Text) (s : Store)
    → LackEnds ls
    → AreRemarks ls
    → read_lines (compat_getlines (comment_parts_text ls ++ t)) s ≡ read_lines (compat_getlines t) s
unfolding read_lines
read_lines-parts [] t s k a = refl
read_lines-parts (l ∷ ls) t s (k, ks) (a, rs) =
    let rest = comment_parts_text ls ++ t in
    ap (λ x. read_lines (compat_getlines x) s)
      (append_assoc (comment_part l) (10 ∷ comment_parts_text ls) t)
    ∙ ap (λ x. read_lines x s) (compat_getlines-line (comment_part l) rest (comment_part-lacks l k))
    ∙ ap (read_lines (compat_getlines rest)) (read_line-comment l s a)
    ∙ read_lines-parts ls t s ks rs

-- A comment that is written into a file, of which no line starts with CONFIG_, sets nothing when the
-- file is read: the symbols are what the rest of the file makes them.
pub kconfig_print_comment-read :
    (value t : Text) (s : Store)
    → AreRemarks (comment_parts value)
    → read_lines (compat_getlines (kconfig_print_comment value ++ t)) s
      ≡ read_lines (compat_getlines t) s
unfolding kconfig_print_comment
kconfig_print_comment-read value t s a =
    read_lines-parts (comment_parts value) t s (comment_parts-LackEnds value) a
