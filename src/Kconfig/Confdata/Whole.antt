-- ===== src/Kconfig/Confdata/Whole.antt =====
-- scripts/kconfig/confdata.c: the text of a whole file, a comment and then the lines of symbols.
use embtoolkit.Base.{
  ◌&&◌, ◌≡◌, refl, sym, ap, ap₂, subst, ◌∙◌, inl, inr, true, List, [], ◌∷◌, ◌++◌, map, Text, codes,
  append_assoc, arith,
}
use embtoolkit.Kconfig.Symbol.{SymbolType, boolean, tristate, string, int, hex, unknown, other}
use embtoolkit.Kconfig.Confdata.Escape.{sym_escape_string_value, escape}
use embtoolkit.Kconfig.Confdata.Line.{
  conf_write_symbol, kconfig_print_symbol, not_set_line, value_line, prefix,
}
use embtoolkit.Kconfig.Confdata.Store.{Store, read_lines, is_other, reset}
use embtoolkit.Kconfig.Confdata.Statement.{
  lacks, IsValue, lacks-append, lacks-escape, valid_int-lacks, valid_hex-lacks,
}
use embtoolkit.Kconfig.Confdata.File.{
  Setting, line_of, All, Other, Distinct, IsWritable, Restored, read_lines-write,
}
use embtoolkit.Kconfig.Confdata.Comment.{
  AreRemarks, comment_parts, kconfig_print_comment, kconfig_print_comment-read, compat_getlines,
  compat_getlines-line,
}

-- A text with one line end, at its end.
abbrev IsLine : Text → Type 0
IsLine t = (l : Text) × (t ≡ l ++ (10 ∷ [])) × (lacks 10 l ≡ true)

not_set_line-IsLine : (name : Text) → lacks 10 name ≡ true → IsLine (not_set_line name)
not_set_line-IsLine name h = (
  codes "# CONFIG_" ++ (name ++ codes " is not set"),
  ap (λ z. codes "# CONFIG_" ++ z) (sym (append_assoc name (codes " is not set") (10 ∷ []))),
  lacks-append 10 name (codes " is not set") h refl,
)

value_line-IsLine :
    (name value : Text)
    → lacks 10 name ≡ true
    → lacks 10 value ≡ true
    → IsLine (value_line name value)
value_line-IsLine name value h k = (
  prefix ++ (name ++ (61 ∷ value)),
  ap (λ z. prefix ++ z) (sym (append_assoc name (61 ∷ value) (10 ∷ []))),
  lacks-append 10 name (61 ∷ value) h k,
)

conf_write_symbol-IsLine :
    (k : SymbolType) (name value : Text)
    → lacks 10 name ≡ true
    → IsValue k value
    → IsLine (conf_write_symbol k name value)
unfolding conf_write_symbol kconfig_print_symbol
conf_write_symbol-IsLine boolean name value n (inl e) = rw e (not_set_line-IsLine name n)
conf_write_symbol-IsLine boolean name value n (inr e) =
    rw e (value_line-IsLine name (codes "y") n refl)
conf_write_symbol-IsLine tristate name value n (inl e) = rw e (not_set_line-IsLine name n)
conf_write_symbol-IsLine tristate name value n (inr (inl e)) =
    rw e (value_line-IsLine name (codes "m") n refl)
conf_write_symbol-IsLine tristate name value n (inr (inr e)) =
    rw e (value_line-IsLine name (codes "y") n refl)
conf_write_symbol-IsLine string name value n h =
    value_line-IsLine name (sym_escape_string_value value) n (
      unfold sym_escape_string_value in
      lacks-append 10 (escape value) (34 ∷ []) (lacks-escape 10 value refl h) refl)
conf_write_symbol-IsLine int name value n h =
    value_line-IsLine name value n (valid_int-lacks 10 value (omega arith) h)
conf_write_symbol-IsLine hex name value n h =
    value_line-IsLine name value n (valid_hex-lacks 10 value (omega arith) h)
conf_write_symbol-IsLine unknown name value n h = absurd h
conf_write_symbol-IsLine other name value n h = absurd h

abbrev pub written : List Setting → Text
written [] = []
written (e ∷ es) = line_of e ++ written es

abbrev pub OneLine : Setting → Type 0
OneLine e = lacks 10 e.name ≡ true

compat_getlines-written :
    (s : Store) (es : List Setting)
    → All (IsWritable s) es
    → All OneLine es
    → compat_getlines (written es) ≡ map line_of es
unfolding compat_getlines
compat_getlines-written s [] w n = refl
compat_getlines-written s (e ∷ es) (w, ws) (n, ns) =
    let (l, q, k) = conf_write_symbol-IsLine e.sym_type e.name e.value n w.3 in
    ap (λ z. compat_getlines (z ++ written es)) q
    ∙ ap compat_getlines (append_assoc l (10 ∷ []) (written es))
    ∙ compat_getlines-line l (written es) k
    ∙ ap₂ (λ x y. x ∷ y) (sym q) (compat_getlines-written s es ws ns)

-- The text of a file, a comment of which no line starts with CONFIG_ and then symbols with distinct
-- one-line names, known by them, each with a value of its type: reading it after the reset gives each
-- symbol its value back and leaves every other symbol unset, but one of the type S_OTHER, which is set
-- exactly where it was.
pub compat_getlines-read :
    (heading : Text) (es : List Setting) (s : Store)
    → AreRemarks (comment_parts heading)
    → Distinct es
    → All (IsWritable s) es
    → All OneLine es
    → All
        (Restored
          (read_lines (compat_getlines (kconfig_print_comment heading ++ written es)) (reset s)))
        es
      × ((m : Text)
          → All (Other m) es
          → ((read_lines
                (compat_getlines (kconfig_print_comment heading ++ written es))
                (reset s)).slots
              m).is_set
            ≡ (is_other (s.slots m).sym_type && (s.slots m).is_set))
compat_getlines-read heading es s a d w n =
    let e =
      kconfig_print_comment-read heading (written es) (reset s) a
      ∙ ap (λ ls. read_lines ls (reset s)) (compat_getlines-written s es w n) in
    let r = read_lines-write es s d w in
    (subst (λ t. All (Restored t) es) (sym e) r.0, λ m o. ap (λ t. (t.slots m).is_set) e ∙ r.1 m o)
