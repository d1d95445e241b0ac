-- ===== src/Kconfig/Confdata/Escape.antt =====
-- scripts/kconfig/symbol.c and confdata.c: a text between quotes, as sym_escape_string_value writes
-- it and as conf_set_sym_val reads it.
use embtoolkit.Base.{
  ℕ, ◌+◌, ◌≡◌, refl, ap, ◌∙◌, Bool-cases, inl, inr, Bool, false, ◌||◌, [], ◌∷◌, ◌++◌, Option, none,
  some, Text, length, length-append, ◌==◌, if◌then◌else◌, append_assoc, arith, ◌>>=◌,
}

-- `strcspn(p, "\"\\")` stops at these.
abbrev pub is_special : ℕ → Bool
is_special c = c == 34 || c == 92

-- The second loop of sym_escape_string_value.
unfoldable pub escape : Text → Text
escape [] = []
escape (c ∷ s) = (if is_special c then 92 ∷ c ∷ [] else c ∷ []) ++ escape s

-- The first loop: how many characters it counts on top of `reslen`.
unfoldable pub special_count : Text → ℕ
special_count [] = 0
special_count (c ∷ s) = (if is_special c then 1 else 0) + special_count s

-- sym_escape_string_value, and the size of the memory that it allocates.
unfoldable pub sym_escape_string_value : Text → Text
unfolding escape
sym_escape_string_value s = 34 ∷ (escape s ++ (34 ∷ []))

unfoldable pub escaped_size : Text → ℕ
unfolding special_count
escaped_size s = length s + 2 + 1 + special_count s

-- The loop of the S_STRING case of conf_set_sym_val, from behind the first quote: a backslash is
-- taken out and the character behind it is passed. `none` where no quote ends the text, and where a
-- backslash does: the source then goes on behind the text's 0.
unfoldable pub unquote : Text → Option Text
unquote [] = none
unquote (c ∷ []) = if c == 34 then some [] else none
unquote (c ∷ d ∷ s) =
    let inner = unquote s in
    let rest = unquote (d ∷ s) in
    if c == 34
    then some []
    else if c == 92
    then (inner >>= λ t. some (d ∷ t))
    else (rest >>= λ t. some (c ∷ t))

unquote_plain :
    (c : ℕ) (t : Text) → is_special c ≡ false → unquote (c ∷ t) ≡ (unquote t >>= λ u. some (c ∷ u))
unfolding unquote
unquote_plain c [] h = ground (arith, h)
unquote_plain c (d ∷ t) h = ground (arith, h)

unquote_shown :
    (c : ℕ) (t : Text)
    → unquote ((if is_special c then 92 ∷ c ∷ [] else c ∷ []) ++ t)
      ≡ (unquote t >>= λ u. some (c ∷ u))
unquote_shown c t = elim (Bool-cases (is_special c)) [
  | inl e ↦ simp e (unfold unquote in refl)
  | inr e ↦ simp e (unquote_plain c t e)
]

-- Reading undoes the escapes, and stops at the first quote behind them.
pub unquote-escape : (s rest : Text) → unquote (escape s ++ (34 ∷ rest)) ≡ some s
unfolding escape
unquote-escape [] [] = unfold unquote in refl
unquote-escape [] (c ∷ rest) = unfold unquote in refl
unquote-escape (c ∷ s) rest =
    ap unquote (append_assoc (if is_special c then 92 ∷ c ∷ [] else c ∷ []) (escape s) (34 ∷ rest))
    ∙ unquote_shown c (escape s ++ (34 ∷ rest))
    ∙ ap (λ m. m >>= λ u. some (c ∷ u)) (unquote-escape s rest)

length-escape : (s : Text) → length (escape s) ≡ length s + special_count s
unfolding escape special_count
length-escape [] = omega arith
length-escape (c ∷ s) = ground (arith, length-escape s)

-- The memory that sym_escape_string_value allocates holds the text that it writes and the NUL
-- behind it, and no more.
pub sym_escape_string_value-size :
    (s : Text) → length (sym_escape_string_value s) + 1 ≡ escaped_size s
unfolding sym_escape_string_value escaped_size
sym_escape_string_value-size s = omega (arith, length-append (escape s) (34 ∷ []), length-escape s)
