-- ===== src/Fixdep/Depfile/Missing.antt =====
-- scripts/basic/fixdep.c: a prerequisite that cannot be opened ends the program.
use embtoolkit.Base.{
  ◌≡◌, refl, sym, ap, ◌∙◌, Bool, true, false, ◌&&◌, ◌||◌, List, [], ◌∷◌, Option, none, some, Text,
  length, ◌<◌, lt→ltb, if-true, if◌then◌else◌, Bool-cases, inl, inr,
}
use embtoolkit.Fixdep.Words.{parse_config_file}
use embtoolkit.Fixdep.Set.{Hashtab, Used, use_configs, clear_config}
use embtoolkit.Fixdep.Depfile.{
  Outcome, done, exit, overrun, print, after, is_listed, do_config_file, name_line, closing,
  visit_name, parse_dep_file, path_max,
}
use embtoolkit.Fixdep.Depfile.Rule.{
  Prerequisite, rule, names, AreNames, no_colon, visit_names, parse_dep_file-rule,
}
use embtoolkit.Fixdep.Depfile.Output.{Fit}

abbrev pub is_none : Option Text → Bool
is_none none = true
is_none (some t) = false

-- What is done with a name: whether it counts, its file's contents and its line are those.
abbrev count : Hashtab → Text → Bool → Option Text → Outcome
count hashtab line true none = exit 2
count hashtab line true (some map) = print line (done (use_configs hashtab (parse_config_file map)))
count hashtab line false o = done (record { hashtab = hashtab; out = [] })

count-exit :
    (hashtab : Hashtab) (line : Text) (b : Bool) (o : Option Text)
    → (b && is_none o) ≡ true
    → count hashtab line b o ≡ exit 2
count-exit hashtab line true none h = refl
count-exit hashtab line true (some t) h = cc
count-exit hashtab line false o h = cc

count-done :
    (hashtab : Hashtab) (line : Text) (b : Bool) (o : Option Text)
    → (b && is_none o) ≡ false
    → (u : Used) × (count hashtab line b o ≡ done u)
count-done hashtab line true none h = cc
count-done hashtab line true (some t) h = (_, refl)
count-done hashtab line false o h = (_, refl)

module _ (target : Text) (files : Text → Option Text) where
  -- Some name counts and its file cannot be opened.
  abbrev pub misses : List Text → Bool
  misses [] = false
  misses (s ∷ ss) = (is_listed s && is_none (files s)) || misses ss

  visit_name-count :
      (first : Bool) (hashtab : Hashtab) (s : Text)
      → length s < path_max
      → visit_name target files first hashtab s
        ≡ count hashtab (name_line target first s) (is_listed s) (files s)
  unfolding visit_name do_config_file
  visit_name-count first hashtab s l =
      if-true _ overrun (lt→ltb (length s) path_max l) ∙ go (is_listed s) (files s)
    where
      go :
          (b : Bool) (o : Option Text)
          → (if b
              then print (name_line target first s) (elim o [
                | none ↦ exit 2
                | some map ↦ done (use_configs hashtab (parse_config_file map))
              ])
              else done (record { hashtab = hashtab; out = [] }))
            ≡ count hashtab (name_line target first s) b o
      go true none = refl
      go true (some t) = refl
      go false o = refl

  visit_names-exit :
      (first : Bool) (hashtab : Hashtab) (ss : List Text)
      → Fit ss
      → misses ss ≡ true
      → visit_names target files first hashtab ss ≡ exit 2
  visit_names-exit first hashtab [] f h = cc
  visit_names-exit first hashtab (s ∷ ss) (l, f) h =
      elim (Bool-cases (is_listed s && is_none (files s))) [
        | inl e ↦
            let c = count-exit hashtab (name_line target first s) (is_listed s) (files s) e in
            ap (λ o. after o (λ t. visit_names target files false t ss))
              (visit_name-count first hashtab s l ∙ c)
        | inr e ↦
            let (u, c) = count-done hashtab (name_line target first s) (is_listed s) (files s) e in
            let later : misses ss ≡ true = ap (λ b. b || misses ss) (sym e) ∙ h in
            ap (λ o. after o (λ t. visit_names target files false t ss))
              (visit_name-count first hashtab s l ∙ c)
            ∙ ap (print u.out) (visit_names-exit false u.hashtab ss f later)
      ]

-- On a rule of the compiler whose names fit the buffer, fixdep ends with exit(2) when some
-- prerequisite that counts cannot be opened, wherever it stands and whatever is read before it.
pub parse_dep_file-missing :
    (target : Text) (files : Text → Option Text) (hashtab : Hashtab) (object : Text) (b : Bool)
    (s : Text) (ds : List Prerequisite)
    → no_colon object ≡ true
    → length object < path_max
    → AreNames s ds
    → Fit (s ∷ names ds)
    → misses target files (s ∷ names ds) ≡ true
    → parse_dep_file target files hashtab (rule object ((b, s) ∷ ds)) ≡ exit 2
parse_dep_file-missing target files hashtab object b s ds h l n f m =
    parse_dep_file-rule target files hashtab object b s ds h l n
    ∙ ap (λ o. after o (λ t. done (record { hashtab = t; out = closing target })))
        (visit_names-exit target files true (clear_config hashtab) (s ∷ names ds) f m)
