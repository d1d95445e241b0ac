-- ===== src/Unifdef/Symbols/Words.antt =====
-- scripts/unifdef.c: an identifier or a number in front of a text that does not go on with it.
use embtoolkit.Base.{
  ℕ, suc, ◌+◌, ◌-◌, ◌*◌, ◌%◌, ◌^◌, ◌≤◌, ◌≡◌, refl, sym, ap, ap₂, ◌∙◌, Bool, true, false, ◌&&◌, ◌||◌,
  List, [], ◌∷◌, ◌++◌, Option, none, some, Text, codes, ◌==◌, if◌then◌else◌, if-true, if-false, ltb,
  leb, starts, skip, length, str_eq, arith, Bool-cases, inl, inr,
}
use embtoolkit.Unifdef.Comment.{is_space}
use embtoolkit.Unifdef.Symbols.{
  is_word, endsym, skipsym, length_sym, strlcmp, Symbol, search, findsym,
}
use embtoolkit.Unifdef.Numerals.{
  digit, starts_digit, digits, is_hex, is_octal, magnitude, strtol, signed, positive, negative,
  smaller, map_some, skip_spaces,
}

abbrev pub all_word : Text → Bool
all_word [] = true
all_word (c ∷ t) = is_word c && all_word t

pub skipsym-append : (x r : Text) → all_word x ≡ true → endsym r ≡ true → skipsym (x ++ r) ≡ r
unfolding skipsym
skipsym-append [] [] h k = refl
skipsym-append [] (c ∷ r) h k = let e : is_word c ≡ false = ground (arith, k) in if-false _ _ e
skipsym-append (c ∷ x) r h k =
    let e : is_word c ≡ true = ground (arith, h) in
    if-true _ _ e ∙ skipsym-append x r (ground (arith, h)) k

pub length_sym-append :
    (x r : Text) → all_word x ≡ true → endsym r ≡ true → length_sym (x ++ r) ≡ length x
unfolding length_sym
length_sym-append [] [] h k = refl
length_sym-append [] (c ∷ r) h k = let e : is_word c ≡ false = ground (arith, k) in if-false _ _ e
length_sym-append (c ∷ x) r h k =
    let e : is_word c ≡ true = ground (arith, h) in
    if-true _ _ e ∙ ap suc (length_sym-append x r (ground (arith, h)) k)

pub strlcmp-append : (s x r : Text) → strlcmp s (x ++ r) (length x) ≡ str_eq s x
strlcmp-append [] [] r = refl
strlcmp-append (c ∷ s) [] r = refl
strlcmp-append [] (d ∷ x) r = refl
strlcmp-append (c ∷ s) (d ∷ x) r = ap (λ b. (c == d) && b) (strlcmp-append s x r)

-- The first entry with the name
abbrev pub lookup : List Symbol → Text → Option Symbol
lookup [] x = none
lookup (s ∷ ss) x = let rest = lookup ss x in if str_eq s.symname x then some s else rest

search-lookup : (ss : List Symbol) (x r : Text) → search ss (x ++ r) (length x) ≡ lookup ss x
search-lookup [] x r = refl
search-lookup (s ∷ ss) x r =
    ap₂ (λ b o. if b then some s else o) (strlcmp-append s.symname x r) (search-lookup ss x r)

-- findsym finds the entry of the identifier.
pub findsym-lookup :
    (ss : List Symbol) (c : ℕ) (x r : Text)
    → all_word (c ∷ x) ≡ true
    → endsym r ≡ true
    → findsym ss ((c ∷ x) ++ r) ≡ lookup ss (c ∷ x)
unfolding findsym
findsym-lookup ss c x r h k =
    let z : (suc (length x) == 0) ≡ false = ground arith in
    ap (λ n. if n == 0 then none else search ss ((c ∷ x) ++ r) n) (length_sym-append (c ∷ x) r h k)
    ∙ if-false none (search ss ((c ∷ x) ++ r) (length (c ∷ x))) z
    ∙ search-lookup ss (c ∷ x) r

-- A keyword in front of something that does not go on with it is found there exactly if it is the
-- identifier.
pub keyword-str_eq :
    (w x r : Text)
    → all_word w ≡ true
    → all_word x ≡ true
    → endsym r ≡ true
    → (starts w (x ++ r) && endsym (skip (length w) (x ++ r))) ≡ str_eq w x
keyword-str_eq [] [] r v h k = k
keyword-str_eq [] (c ∷ x) r v h k = ground (arith, h)
keyword-str_eq (d ∷ w) [] [] v h k = refl
keyword-str_eq (d ∷ w) [] (e ∷ r) v h k =
    let n : (d == e) ≡ false = ground (arith, v, k) in
    ap (λ b. (b && starts w r) && endsym (skip (length w) r)) n
keyword-str_eq (d ∷ w) (c ∷ x) r v h k =
    let i = keyword-str_eq w x r (ground (arith, v)) (ground (arith, h)) k in
    elim (Bool-cases (d == c)) [
      | inl e ↦
          ap (λ b. (b && starts w (x ++ r)) && endsym (skip (length w) (x ++ r))) e
          ∙ i
          ∙ ap (λ b. b && str_eq w x) (sym e)
      | inr e ↦
          ap (λ b. (b && starts w (x ++ r)) && endsym (skip (length w) (x ++ r))) e
          ∙ ap (λ b. b && str_eq w x) (sym e)
    ]

endsym-digit : (base : ℕ) (r : Text) → base ≤ 36 → endsym r ≡ true → starts_digit base r ≡ false
endsym-digit base [] l k = refl
endsym-digit base (c ∷ r) l k = ground (arith, l, k)

number_of : ℕ × Text → ℕ
number_of p = p.0

digits-append :
    (base v : ℕ) (t r : Text)
    → starts_digit base r ≡ false
    → number_of (digits base v (t ++ r)) ≡ number_of (digits base v t)
unfolding digits number_of
digits-append base v [] [] k = refl
digits-append base v [] (c ∷ r) k =
    ap number_of (if-false (digits base (v * base + digit c) r) (v, c ∷ r) k)
digits-append base v (c ∷ t) r k = elim (Bool-cases (ltb (digit c) base)) [
  | inl e ↦
      ap number_of (if-true (digits base (v * base + digit c) (t ++ r)) (v, c ∷ (t ++ r)) e)
      ∙ digits-append base (v * base + digit c) t r k
      ∙ ap number_of (sym (if-true (digits base (v * base + digit c) t) (v, c ∷ t) e))
  | inr e ↦
      ap number_of (if-false (digits base (v * base + digit c) (t ++ r)) (v, c ∷ (t ++ r)) e)
      ∙ ap number_of (sym (if-false (digits base (v * base + digit c) t) (v, c ∷ t) e))
]

-- Neither test on the digits of a number looks at what follows them.
is_hex-append : (c : ℕ) (t r : Text) → endsym r ≡ true → is_hex ((c ∷ t) ++ r) ≡ is_hex (c ∷ t)
is_hex-append c [] [] k = refl
is_hex-append c [] (e ∷ r) k = ground (arith, k)
is_hex-append c (d ∷ []) r k =
    ap (λ b. (starts (codes "0x") (c ∷ d ∷ []) || starts (codes "0X") (c ∷ d ∷ [])) && b)
      (endsym-digit 16 r (omega arith) k)
is_hex-append c (d ∷ e ∷ t) r k = refl

-- A number: its first character is a digit, and letters, digits and _ follow.
abbrev pub IsNumber : Text → Type 0
IsNumber [] = ⊥
IsNumber (c ∷ t) = ((leb 48 c && leb c 57) ≡ true) × (all_word t ≡ true)

-- Its int
abbrev pub number_or_0 : Option (ℕ × Text) → ℕ
number_or_0 none = 0
number_or_0 (some (v, t)) = v

unfoldable pub number_value : Text → ℕ
unfolding strtol
number_value t = number_or_0 (strtol t)

skip_spaces-digit : (c : ℕ) (t : Text) → (leb 48 c && leb c 57) ≡ true → skip_spaces (c ∷ t) ≡ c ∷ t
unfolding skip_spaces is_space
skip_spaces-digit c t h = let e : is_space c ≡ false = ground (arith, h) in if-false _ _ e

signed-digit :
    (c : ℕ) (t : Text)
    → (leb 48 c && leb c 57) ≡ true
    → signed (c ∷ t) ≡ map_some positive (magnitude (c ∷ t))
signed-digit c t h =
    let m : (45 == c) ≡ false = ground (arith, h) in
    let p : (43 == c) ≡ false = ground (arith, h) in
    if-false (map_some negative (magnitude t)) _ (ap (λ b. b && true) m)
    ∙ if-false (map_some positive (magnitude t)) _ (ap (λ b. b && true) p)

is_hex-skip :
    (c : ℕ) (t r : Text) → is_hex (c ∷ t) ≡ true → skip 2 ((c ∷ t) ++ r) ≡ skip 2 (c ∷ t) ++ r
is_hex-skip c [] r h = absurd (ground (arith, h))
is_hex-skip c (d ∷ t) r h = refl

magnitude-append :
    (c : ℕ) (t r : Text)
    → (leb 48 c && leb c 57) ≡ true
    → endsym r ≡ true
    → (p : ℕ × Text) × (q : ℕ × Text) × (magnitude ((c ∷ t) ++ r) ≡ some p)
      × (magnitude (c ∷ t) ≡ some q)
      × (p.0 ≡ q.0)
unfolding magnitude number_of
magnitude-append c t r h k =
    let T = c ∷ t in
    let x = is_hex-append c t r k in
    elim (Bool-cases (is_hex T)) [
      | inl e ↦ (
        digits 16 0 (skip 2 (T ++ r)),
        digits 16 0 (skip 2 T),
        if-true _ _ (x ∙ e),
        if-true _ _ e,
        ap (λ z. number_of (digits 16 0 z)) (is_hex-skip c t r e)
            ∙ digits-append 16 0 (skip 2 T) r (endsym-digit 16 r (omega arith) k),
      )
      | inr e ↦ elim (Bool-cases (is_octal T)) [
        | inl o ↦ (
          digits 8 0 (T ++ r),
          digits 8 0 T,
          if-false _ _ (x ∙ e) ∙ if-true _ _ o,
          if-false _ _ e ∙ if-true _ _ o,
          digits-append 8 0 T r (endsym-digit 8 r (omega arith) k),
        )
        | inr o ↦
            let d : starts_digit 10 T ≡ true = ground (arith, h) in
            (
              digits 10 0 (T ++ r),
              digits 10 0 T,
              if-false _ _ (x ∙ e) ∙ if-false _ _ o ∙ if-true _ _ d,
              if-false _ _ e ∙ if-false _ _ o ∙ if-true _ _ d,
              digits-append 10 0 T r (endsym-digit 10 r (omega arith) k),
            )
      ]
    ]

-- strtol reads a number as it stands, whatever follows.
pub strtol-number :
    (t r : Text)
    → IsNumber t
    → endsym r ≡ true
    → (ep : Text) × (strtol (t ++ r) ≡ some (number_value t, ep))
unfolding strtol number_value
strtol-number [] r h k = absurd h
strtol-number (c ∷ t) r (h, w) k =
    let (p, q, e, f, g) = magnitude-append c t r h k in
    let whole =
      ap signed (skip_spaces-digit c (t ++ r) h)
      ∙ signed-digit c (t ++ r) h
      ∙ ap (map_some positive) e in
    let alone =
      ap signed (skip_spaces-digit c t h) ∙ signed-digit c t h ∙ ap (map_some positive) f in
    let int : ℕ → ℕ = λ m. smaller m (2 ^ 63 - 1) % 2 ^ 32 in
    let result : ℕ → Option (ℕ × Text) = λ v. some (v, p.1) in
    (p.1, whole ∙ ap result (ap int g ∙ sym (ap number_or_0 alone)))
