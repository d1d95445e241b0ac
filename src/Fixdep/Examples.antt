-- ===== src/Fixdep/Examples.antt =====
-- Concrete files and rules for the model of scripts/basic/fixdep.c.
use embtoolkit.Base.{
  ◌≡◌, refl, true, false, List, [], ◌∷◌, ◌++◌, Option, none, some, Text, codes, str_eq,
  if◌then◌else◌, skip, arith,
}
use embtoolkit.Fixdep.Words.{parse_config_file}
use embtoolkit.Fixdep.Words.Bytes.{words_at_bytes, parse_config_file-bytes}
use embtoolkit.Fixdep.Set.{Hashtab, use_configs, clear_config}
use embtoolkit.Fixdep.Set.Once.{lines, fresh, use_configs-once}
use embtoolkit.Fixdep.Depfile.{done, exit, overrun, after, parse_dep_file, closing, do_config_file}
use embtoolkit.Fixdep.Depfile.Rule.{rule, names, AreNames, visit_names, parse_dep_file-rule}
use embtoolkit.Fixdep.Depfile.Output.{Writes, listing, parse_dep_file-Writes}
use embtoolkit.Fixdep.Depfile.Missing.{parse_dep_file-missing}

abbrev empty_table : Hashtab
empty_table i = []

abbrev sample : Text
sample = codes "#if CONFIG_NET || UML_CONFIG_USB_MODULE\n#ifdef CONFIG_NET\n"

sample-words : parse_config_file sample ≡ codes "NET" ∷ codes "USB" ∷ codes "NET" ∷ []
unfolding parse_config_file
sample-words = refl

-- A word at the very start of a file is not found.
parse_config_file-start : parse_config_file (codes "CONFIG_NET\n") ≡ []
unfolding parse_config_file
parse_config_file-start = refl

parse_config_file-bytes_example : parse_config_file sample ≡ words_at_bytes (skip 1 sample)
parse_config_file-bytes_example = parse_config_file-bytes sample

abbrev options : List Text
options = codes "NET" ∷ codes "USB" ∷ codes "NET" ∷ []

use_configs-once_example :
    (use_configs (clear_config empty_table) options).out ≡ lines (fresh [] options)
use_configs-once_example = use_configs-once empty_table options

abbrev header : Text
header = codes "include/a.h"

-- One header exists.
abbrev one_file : Text → Option Text
one_file s = if str_eq s header then some sample else none

abbrev texts : Text → Text
texts s = sample

prerequisites-AreNames :
    AreNames (codes "a.c") ((true, header) ∷ (false, codes "include/linux/kconfig.h") ∷ [])
unfolding AreNames
prerequisites-AreNames = (refl, refl, (refl, refl, (refl, refl, refl)))

parse_dep_file-rule_example :
    parse_dep_file (codes "a.o") one_file empty_table (
      rule
        (codes "a.o")
        ((false, codes "a.c") ∷ (true, header) ∷ (false, codes "include/linux/kconfig.h") ∷ []))
    ≡ after
        (visit_names
          (codes "a.o")
          one_file
          true
          (clear_config empty_table)
          (codes "a.c" ∷ names ((true, header) ∷ (false, codes "include/linux/kconfig.h") ∷ [])))
        (λ t. done (record { hashtab = t; out = closing (codes "a.o") }))
parse_dep_file-rule_example =
    parse_dep_file-rule (codes "a.o") one_file empty_table (codes "a.o") false (codes "a.c")
      ((true, header) ∷ (false, codes "include/linux/kconfig.h") ∷ []) refl (omega arith)
      prerequisites-AreNames

parse_dep_file-Writes_example :
    Writes
      (codes "a.o")
      texts
      (parse_dep_file
        (codes "a.o")
        (λ n. some (texts n))
        empty_table
        (rule
          (codes "a.o")
          ((false, codes "a.c") ∷ (true, header) ∷ (false, codes "include/linux/kconfig.h") ∷ [])))
      (listing
          (codes "a.o")
          texts
          true
          []
          (codes "a.c" ∷ names ((true, header) ∷ (false, codes "include/linux/kconfig.h") ∷ []))
        ++ closing (codes "a.o"))
parse_dep_file-Writes_example =
    parse_dep_file-Writes (codes "a.o") texts empty_table (codes "a.o") false (codes "a.c")
      ((true, header) ∷ (false, codes "include/linux/kconfig.h") ∷ []) refl (omega arith)
      prerequisites-AreNames (omega arith, (omega arith, (omega arith, tt)))

two-AreNames : AreNames header ((true, codes "a.h") ∷ [])
unfolding AreNames
two-AreNames = (refl, refl, (refl, refl, refl))

parse_dep_file-missing_example :
    parse_dep_file
      (codes "a.o")
      one_file
      empty_table
      (rule (codes "a.o") ((false, header) ∷ (true, codes "a.h") ∷ []))
    ≡ exit 2
parse_dep_file-missing_example =
    parse_dep_file-missing (codes "a.o") one_file empty_table (codes "a.o") false header
      ((true, codes "a.h") ∷ []) refl (omega arith) two-AreNames (omega arith, (omega arith, tt))
      refl

-- A rule without prerequisites, and one with a line end too many: memcpy gets a negative length.
parse_dep_file-none : parse_dep_file (codes "a.o") one_file empty_table (codes "a.o:\n") ≡ overrun
unfolding parse_dep_file
parse_dep_file-none = refl

parse_dep_file-line_end :
    parse_dep_file (codes "a.o") one_file empty_table (codes "a.o: include/a.h\n\n") ≡ overrun
unfolding parse_dep_file do_config_file
parse_dep_file-line_end = refl
