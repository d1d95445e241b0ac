-- ===== src/Kconfig/Confdata/Examples.antt =====
-- scripts/kconfig/confdata.c: a file of three lines.
use embtoolkit.Base.{
  ◌&&◌, ◌++◌, ◌+◌, ◌≡◌, refl, true, false, [], ◌∷◌, List, none, Text, codes, length, if◌then◌else◌,
  str_eq, inl, inr,
}
use embtoolkit.Kconfig.Tristate.{tri_no}
use embtoolkit.Kconfig.Symbol.{boolean, string, other}
use embtoolkit.Kconfig.Confdata.Escape.{
  sym_escape_string_value, escaped_size, sym_escape_string_value-size,
}
use embtoolkit.Kconfig.Confdata.Line.{unexpected, read_statement}
use embtoolkit.Kconfig.Confdata.Store.{Slot, Store, conf_set_sym_val, read_lines, is_other, reset}
use embtoolkit.Kconfig.Confdata.Comment.{
  AreRemarks, comment_parts, kconfig_print_comment, compat_getlines,
}
use embtoolkit.Kconfig.Confdata.Whole.{written, compat_getlines-read}
use embtoolkit.Kconfig.Confdata.File.{Setting, All, Other, Restored}

abbrev quoted : Text
quoted = codes "a \"b\" \\ c"

sym_escape_string_value-quoted : sym_escape_string_value quoted ≡ codes "\"a \\\"b\\\" \\\\ c\""
unfolding sym_escape_string_value
sym_escape_string_value-quoted = refl

sym_escape_string_value-size_example :
    length (sym_escape_string_value quoted) + 1 ≡ escaped_size quoted
sym_escape_string_value-size_example = sym_escape_string_value-size quoted

read_statement-garbage : read_statement (codes "FOO=y\n") ≡ unexpected
unfolding read_statement
read_statement-garbage = refl

abbrev settings : List Setting
settings =
    record { sym_type = boolean; name = codes "FOO"; value = codes "y" }
    ∷ record { sym_type = boolean; name = codes "BAR"; value = codes "n" }
    ∷ record { sym_type = string; name = codes "NAME"; value = quoted }
    ∷ []

abbrev slot_of : Text → Slot
slot_of n = record {
  sym_type = if str_eq n (codes "NAME") then string else boolean;
  tri = tri_no;
  val = none;
  is_set = false;
}

abbrev store : Store
store = record {
  known = λ n. true;
  slots = slot_of;
  choice_of = λ n. none;
  choices = λ i. record { tri = tri_no; chosen = none; is_set = false };
  change_count = 0;
}

abbrev heading : Text
heading = codes "\nAutomatically generated file; DO NOT EDIT.\nEmbtoolkit\n"

heading-AreRemarks : AreRemarks (comment_parts heading)
unfolding comment_parts
heading-AreRemarks = (refl, (refl, (refl, (refl, tt))))

compat_getlines-read_example :
    All
      (Restored (
        read_lines
          (compat_getlines (kconfig_print_comment heading ++ written settings))
          (reset store)))
      settings
    × ((m : Text)
        → All (Other m) settings
        → ((read_lines
              (compat_getlines (kconfig_print_comment heading ++ written settings))
              (reset store)).slots
            m).is_set
          ≡ (is_other (store.slots m).sym_type && (store.slots m).is_set))
compat_getlines-read_example =
    compat_getlines-read heading settings store heading-AreRemarks
      ((refl, (refl, tt)), ((refl, tt), (tt, tt)))
      (
        (refl, refl, (refl, refl), inr refl),
        ((refl, refl, (refl, refl), inl refl), ((refl, refl, (refl, refl), refl), tt)),
      )
      (refl, (refl, (refl, tt)))

-- A quoted value of a symbol whose type is not known yet is refused.
conf_set_sym_val-other :
    (conf_set_sym_val (record (slot_of []) { sym_type = other }) (codes "\"a\"")).1 ≡ true
unfolding conf_set_sym_val
conf_set_sym_val-other = refl
