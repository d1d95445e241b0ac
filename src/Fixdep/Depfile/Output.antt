-- ===== src/Fixdep/Depfile/Output.antt =====
-- scripts/basic/fixdep.c: what fixdep writes for a rule of the compiler.
use embtoolkit.Base.{
  ◌≡◌, refl, ap, ◌∙◌, Bool, true, false, List, [], ◌∷◌, ◌++◌, Option, some, Text, skip, length, ◌<◌,
  lt→ltb, if-true, if-false, if◌then◌else◌, append_assoc, Bool-cases, inl, inr,
}
use embtoolkit.Fixdep.Words.Bytes.{words_at_bytes, parse_config_file-bytes}
use embtoolkit.Fixdep.Set.{Hashtab, use_configs, clear_config}
use embtoolkit.Fixdep.Set.Once.{
  Holds, lines, fresh, seen_after, use_configs-Holds, use_configs-fresh, clear_config-Holds,
}
use embtoolkit.Fixdep.Depfile.{
  Outcome, done, exit, overrun, print, after, is_listed, do_config_file, name_line, closing,
  visit_name, parse_dep_file, path_max,
}
use embtoolkit.Fixdep.Depfile.Rule.{
  Prerequisite, rule, names, AreNames, no_colon, visit_names, parse_dep_file-rule,
}

abbrev pub Fit : List Text → Type 0
Fit [] = Unit
Fit (s ∷ ss) = (length s < path_max) × Fit ss

module _ (target : Text) (contents : Text → Text) where
  abbrev pub options : Text → List Text
  options s = words_at_bytes (skip 1 (contents s))

  -- The prerequisites that count, each with the options that its contents name and no prerequisite
  -- before it does.
  abbrev pub listing : Bool → List Text → List Text → Text
  listing first seen [] = []
  listing first seen (s ∷ ss) =
      let with_options = listing false (seen_after seen (options s)) ss in
      let without = listing false seen ss in
      if is_listed s
      then name_line target first s ++ (lines (fresh seen (options s)) ++ with_options)
      else without

  -- The outcome is output, this one.
  abbrev pub Writes : Outcome → Text → Type 0
  Writes (done u) t = u.out ≡ t
  Writes (exit n) t = ⊥
  Writes overrun t = ⊥

  Writes-print : (p t : Text) (o : Outcome) → Writes o t → Writes (print p o) (p ++ t)
  Writes-print p t (done u) h = ap (λ x. p ++ x) h
  Writes-print p t (exit n) h = h
  Writes-print p t overrun h = h

  Writes-eq : (o o' : Outcome) (t t' : Text) → o ≡ o' → t ≡ t' → Writes o' t' → Writes o t
  Writes-eq o o' t t' e f h = rw (e, f) h

  abbrev pub files : Text → Option Text
  files s = some (contents s)

  visit_name-passed :
      (first : Bool) (hashtab : Hashtab) (s : Text)
      → length s < path_max
      → is_listed s ≡ false
      → visit_name target files first hashtab s ≡ done (record { hashtab = hashtab; out = [] })
  unfolding visit_name
  visit_name-passed first hashtab s l e =
      if-true _ overrun (lt→ltb (length s) path_max l) ∙ if-false _ _ e

  visit_name-listed :
      (first : Bool) (hashtab : Hashtab) (s : Text)
      → length s < path_max
      → is_listed s ≡ true
      → visit_name target files first hashtab s
        ≡ print (name_line target first s) (done (use_configs hashtab (options s)))
  unfolding visit_name do_config_file
  visit_name-listed first hashtab s l e =
      if-true _ overrun (lt→ltb (length s) path_max l)
      ∙ if-true _ _ e
      ∙ ap (λ ws. print (name_line target first s) (done (use_configs hashtab ws)))
          (parse_config_file-bytes (contents s))

  visit_names-Writes :
      (first : Bool) (hashtab : Hashtab) (seen ss : List Text)
      → Fit ss
      → Holds hashtab seen
      → Writes (visit_names target files first hashtab ss) (listing first seen ss)
  visit_names-Writes first hashtab seen [] f h = refl
  visit_names-Writes first hashtab seen (s ∷ ss) (l, f) h = elim (Bool-cases (is_listed s)) [
    | inl e ↦
        let u = use_configs hashtab (options s) in
        let line = name_line target first s in
        let i =
          visit_names-Writes false u.hashtab (seen_after seen (options s)) ss f
            (use_configs-Holds hashtab seen (options s) h) in
        let o = use_configs-fresh hashtab seen (options s) h in
        let rest : Hashtab → Outcome = λ t. visit_names target files false t ss in
        let below = listing false (seen_after seen (options s)) ss in
        let same : line ++ (lines (fresh seen (options s)) ++ below) ≡ (line ++ u.out) ++ below =
          simp (o, append_assoc) in
        Writes-eq _ (print (line ++ u.out) (rest u.hashtab)) _ ((line ++ u.out) ++ below)
          (ap (λ x. after x rest) (visit_name-listed first hashtab s l e)) (if-true _ _ e ∙ same)
          (Writes-print (line ++ u.out) below (rest u.hashtab) i)
    | inr e ↦
        let i = visit_names-Writes false hashtab seen ss f h in
        let rest : Hashtab → Outcome = λ t. visit_names target files false t ss in
        Writes-eq _ (print [] (rest hashtab)) _ (listing false seen ss)
          (ap (λ x. after x rest) (visit_name-passed first hashtab s l e)) (if-false _ _ e)
          (Writes-print [] (listing false seen ss) (rest hashtab) i)
  ]

  Writes-closing :
      (o : Outcome) (t : Text)
      → Writes o t
      → Writes
          (after o (λ h. done (record { hashtab = h; out = closing target })))
          (t ++ closing target)
  Writes-closing (done u) t h = ap (λ x. x ++ closing target) h
  Writes-closing (exit n) t h = h
  Writes-closing overrun t h = h

-- Where every file can be opened, fixdep reads a rule of the compiler without leaving its buffers
-- and writes: for every prerequisite that counts, in the rule's order, its line, and below it the
-- line of every option that a search at every byte of its contents (from the second on) finds and
-- that no prerequisite before it has, once; then the closing lines. The names are those of a rule
-- as the compiler writes it and fit the buffer.
pub parse_dep_file-Writes :
    (target : Text) (contents : Text → Text) (hashtab : Hashtab) (object : Text) (b : Bool)
    (s : Text) (ds : List Prerequisite)
    → no_colon object ≡ true
    → length object < path_max
    → AreNames s ds
    → Fit (s ∷ names ds)
    → Writes target contents
        (parse_dep_file target (λ n. some (contents n)) hashtab (rule object ((b, s) ∷ ds)))
        (listing target contents true [] (s ∷ names ds) ++ closing target)
parse_dep_file-Writes target contents hashtab object b s ds h l n f =
    let o =
      visit_names target (λ n. some (contents n)) true (clear_config hashtab) (s ∷ names ds) in
    let w =
      visit_names-Writes target contents true (clear_config hashtab) [] (s ∷ names ds) f
        (clear_config-Holds hashtab) in
    let e = parse_dep_file-rule target (λ n. some (contents n)) hashtab object b s ds h l n in
    Writes-eq target contents _ _ _ _ e refl (Writes-closing target contents o _ w)
