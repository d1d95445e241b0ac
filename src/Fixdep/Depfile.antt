-- ===== src/Fixdep/Depfile.antt =====
-- scripts/basic/fixdep.c: parse_dep_file, which reads the rule that the compiler wrote, lists the
-- prerequisites and reads each of them for options.
pub mod Rule
pub mod Output
pub mod Missing
use embtoolkit.Base.{
  ℕ, zero, suc, ◌-◌, Bool, true, false, not, ◌&&◌, ◌||◌, List, [], ◌∷◌, ◌++◌, Option, none, some,
  Text, codes, str_eq, ◌==◌, ltb, leb, if◌then◌else◌, skip, length,
}
use embtoolkit.Fixdep.Words.{parse_config_file, between}
use embtoolkit.Fixdep.Set.{Hashtab, Used, use_configs, clear_config}

-- What a function leaves: the table and its output; a call of exit(), without what was printed
-- before; or a copy with memcpy that leaves its buffer.
pub data Outcome : Type 0 where
  done : Used → Outcome
  exit : ℕ → Outcome
  overrun : Outcome

-- First this text, then the rest of the output.
abbrev pub print : Text → Outcome → Outcome
print t (done u) = done (record u { out = t ++ u.out })
print t (exit n) = exit n
print t overrun = overrun

abbrev pub after : Outcome → (Hashtab → Outcome) → Outcome
after (done u) f = print u.out (f u.hashtab)
after (exit n) f = exit n
after overrun f = overrun

abbrev pub path_max : ℕ
path_max = 4096

-- `strrcmp(s, sub)` is 0: s ends in sub
abbrev pub ends_in : Text → Text → Bool
ends_in s sub = not (ltb (length s) (length sub)) && str_eq (skip (length s - length sub) s) sub

-- The while loop that passes blanks, backslashes and line ends.
abbrev pub is_gap : ℕ → Bool
is_gap c = c == 32 || (c == 92 || c == 10)

unfoldable pub skip_gaps : Text → Text
skip_gaps [] = []
skip_gaps (c ∷ m) = let rest = skip_gaps m in if is_gap c then rest else c ∷ m

-- `isalnum`
abbrev pub is_alnum : ℕ → Bool
is_alnum c = between 48 57 c || (between 65 90 c || between 97 122 c)

-- The text to the blank, and the text behind the blank, where there is one.
pub record Name : Type 0 where
  pub name : Text
  pub behind : Option Text

unfoldable pub name_at : Text → Name
name_at [] = record { name = []; behind = none }
name_at (c ∷ p) =
    let rest = name_at p in
    if c == 32
    then record { name = []; behind = some p }
    else record { name = c ∷ rest.name; behind = rest.behind }

-- At the end of the map p goes back behind the last letter or digit: the name to there, and what
-- stands behind it. Where the name has none, p would go before the name: the character there is no
-- letter or digit, and memcpy gets a negative length.
unfoldable pub cut : Text → Option (Text × Text)
cut [] = none
cut (c ∷ t) = elim (cut t) [
  | some (s, rest) ↦ some (c ∷ s, rest)
  | none ↦ if is_alnum c then some (c ∷ [], t) else none
]

abbrev pub name_and_rest : Option (Text × Text) → Option (Text × Text)
name_and_rest none = none
name_and_rest (some (s, rest)) = some (s, skip 1 rest)

abbrev pub cut_at_end : Name → Option (Text × Text)
cut_at_end n = elim n.behind [ none ↦ name_and_rest (cut n.name) | some rest ↦ some (n.name, rest) ]

-- The name of the next prerequisite, and the text from `p + 1` on.
unfoldable pub next_name : Text → Option (Text × Text)
unfolding name_at cut
next_name m = cut_at_end (name_at m)

-- The files whose contents count for nothing.
abbrev pub is_listed : Text → Bool
is_listed s =
    not (ends_in s (codes "include/generated/autoconf.h"))
    && (not (ends_in s (codes "arch/um/include/uml-config.h"))
        && (not (ends_in s (codes "include/linux/kconfig.h")) && not (ends_in s (codes ".ver"))))

-- With the files' contents: exit(2) where a file cannot be opened.
unfoldable pub do_config_file : (Text → Option Text) → Hashtab → Text → Outcome
do_config_file files hashtab filename = elim (files filename) [
  | none ↦ exit 2
  | some map ↦ done (use_configs hashtab (parse_config_file map))
]

-- `strchr(m, ':')`: the text behind the colon
abbrev pub behind_colon : Text → Option Text
behind_colon [] = none
behind_colon (c ∷ m) = let rest = behind_colon m in if c == 58 then some m else rest

module _ (target : Text) where
  -- The line of a name
  abbrev pub name_line : Bool → Text → Text
  name_line true s =
      codes "source_"
      ++ (target ++ (codes " := " ++ (s ++ (codes "\n\ndeps_" ++ (target ++ codes " := \\\n")))))
  name_line false s = codes "  " ++ (s ++ codes " \\\n")

  abbrev pub closing : Text
  closing =
      codes "\n"
      ++ (target
          ++ (codes ": $(deps_" ++ (target ++ (codes ")\n\n$(deps_" ++ (target ++ codes "):\n")))))

module _ (target : Text) (files : Text → Option Text) where
  -- What the loop does with a name
  unfoldable pub visit_name : Bool → Hashtab → Text → Outcome
  visit_name first hashtab s =
      if ltb (length s) path_max
      then (if is_listed s
          then print (name_line target first s) (do_config_file files hashtab s)
          else done (record { hashtab = hashtab; out = [] }))
      else overrun

  -- The loop of parse_dep_file. A round passes a character at least.
  unfoldable pub follow_names : ℕ → Bool → Hashtab → Text → Outcome
  unfolding next_name skip_gaps visit_name
  follow_names fuel first hashtab [] = done (record { hashtab = hashtab; out = [] })
  follow_names zero first hashtab (c ∷ m) = overrun
  follow_names (suc fuel) first hashtab (c ∷ m) = elim (next_name (skip_gaps (c ∷ m))) [
    | none ↦ overrun
    | some (s, rest) ↦ after (visit_name first hashtab s) (λ t. follow_names fuel false t rest)
  ]

  -- From `p = strchr(m, ':')` on
  abbrev pub parse_behind : Hashtab → Text → Option Text → Outcome
  parse_behind hashtab map none = exit 1
  parse_behind hashtab map (some m) =
      if ltb (length map - length m - 1) path_max
      then after (follow_names (length m) true (clear_config hashtab) m)
          (λ t. done (record { hashtab = t; out = closing target }))
      else overrun

  unfoldable pub parse_dep_file : Hashtab → Text → Outcome
  unfolding follow_names
  parse_dep_file hashtab map = parse_behind hashtab map (behind_colon map)
