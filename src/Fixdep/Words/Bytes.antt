-- ===== src/Fixdep/Words/Bytes.antt =====
-- scripts/basic/fixdep.c: the search by words finds what a search at every byte finds.
use embtoolkit.Base.{
  ◌==◌, ℕ, zero, suc, ◌+◌, ◌-◌, ◌*◌, ◌≤◌, ◌≡◌, refl, sym, ap, ◌∙◌, true, false, List, [], ◌∷◌, ◌++◌,
  Option, none, some, Text, codes, ltb, starts, skip, length, ap₂, append_assoc, append-nil, arith,
  Bool-cases, inl, inr,
}
use embtoolkit.Fixdep.Words.{
  config, conf_at, to_list, word_offset, visit, scan_words, parse_config_file,
}

-- The search at every byte.
unfoldable pub words_at_bytes : Text → List Text
words_at_bytes [] = []
words_at_bytes (c ∷ t) = to_list (conf_at (c ∷ t)) ++ words_at_bytes t

found : Text → List Text
found t = to_list (conf_at t)

words-unroll : (t : Text) → words_at_bytes t ≡ found t ++ words_at_bytes (skip 1 t)
unfolding words_at_bytes found
words-unroll [] = unfold conf_at in refl
words-unroll (c ∷ t) = refl

skip-nil : (n : ℕ) → skip n [] ≡ []
skip-nil zero = refl
skip-nil (suc n) = refl

skip-skip : (a b : ℕ) (t : Text) → skip a (skip b t) ≡ skip (b + a) t
skip-skip a zero t = ap (λ n. skip n t) (omega arith)
skip-skip a (suc b) [] = skip-nil a ∙ sym (skip-nil (suc b + a))
skip-skip a (suc b) (c ∷ t) =
    let e : suc (b + a) ≡ suc b + a = omega arith in skip-skip a b t ∙ ap (λ n. skip n (c ∷ t)) e

found-none : (t : Text) → starts config t ≡ false → found t ≡ []
unfolding found conf_at
found-none t h = rw h

length-skip : (n : ℕ) (t : Text) → length (skip n t) ≡ length t - n
length-skip zero t = omega arith
length-skip (suc n) [] = omega arith
length-skip (suc n) (c ∷ t) = omega (arith, length-skip n t)

starts-append : (x y t : Text) → starts (x ++ y) t ≡ true → starts x t ≡ true
starts-append [] y t h = refl
starts-append (c ∷ x) y [] h = cc
starts-append (c ∷ x) y (d ∷ t) h = ground (arith, h, starts-append x y t)

starts-middle :
    (a x y t : Text) → starts (a ++ (x ++ y)) t ≡ true → starts x (skip (length a) t) ≡ true
starts-middle [] x y t h = starts-append x y t h
starts-middle (c ∷ a) x y [] h = cc
starts-middle (c ∷ a) x y (d ∷ t) h = starts-middle a x y t (ground (arith, h))

exclusive :
    (c d : ℕ) (s s' t : Text)
    → (c == d) ≡ false
    → starts (c ∷ s) t ≡ true
    → starts (d ∷ s') t ≡ false
exclusive c d s s' [] n h = refl
exclusive c d s s' (e ∷ t) n h = ground (arith, n, h)

-- CONFIG_ does not start at a byte where the part x of it is not found behind it.
absent : (a x y t : Text) → starts x (skip (length a) t) ≡ false → starts (a ++ (x ++ y)) t ≡ false
absent a x y t h = elim (Bool-cases (starts (a ++ (x ++ y)) t)) [
  | inl e ↦ let m = starts-middle a x y t e in cc
  | inr e ↦ e
]

module _ (u : Text) where
  absent_conf : starts (codes "CONF") (skip 3 u) ≡ false → found (skip 3 u) ≡ []
  absent_conf h = found-none (skip 3 u) (absent [] (codes "CONF") (codes "IG_") (skip 3 u) h)

  absent_onfi : starts (codes "ONFI") (skip 3 u) ≡ false → found (skip 2 u) ≡ []
  absent_onfi h = found-none (skip 2 u) (
      absent (codes "C") (codes "ONFI") (codes "G_") (skip 2 u)
        (ap (starts (codes "ONFI")) (skip-skip 1 2 u) ∙ h))

  absent_nfig : starts (codes "NFIG") (skip 3 u) ≡ false → found (skip 1 u) ≡ []
  absent_nfig h = found-none (skip 1 u) (
      absent (codes "CO") (codes "NFIG") (codes "_") (skip 1 u)
        (ap (starts (codes "NFIG")) (skip-skip 2 1 u) ∙ h))

  absent_fig : starts (codes "FIG_") (skip 3 u) ≡ false → found u ≡ []
  absent_fig h = found-none u (absent (codes "CON") (codes "FIG_") [] u h)

  -- Four bytes from the one behind the last word: at most one of them starts CONFIG_, and the next
  -- word says which.
  block :
      found u ++ (found (skip 1 u) ++ (found (skip 2 u) ++ found (skip 3 u)))
      ≡ (elim (word_offset (skip 3 u)) [ none ↦ [] | some d ↦ found (skip (3 - d) u) ])
  unfolding word_offset
  block = elim (Bool-cases (starts (codes "CONF") (skip 3 u))) [
    | inl e ↦ simp (
      e,
      absent_onfi (exclusive 67 79 (codes "ONF") (codes "NFI") (skip 3 u) refl e),
      absent_nfig (exclusive 67 78 (codes "ONF") (codes "FIG") (skip 3 u) refl e),
      absent_fig (exclusive 67 70 (codes "ONF") (codes "IG_") (skip 3 u) refl e),
    )
    | inr n ↦ elim (Bool-cases (starts (codes "ONFI") (skip 3 u))) [
      | inl e ↦ simp (
        n,
        e,
        absent_conf n,
        absent_nfig (exclusive 79 78 (codes "NFI") (codes "FIG") (skip 3 u) refl e),
        absent_fig (exclusive 79 70 (codes "NFI") (codes "IG_") (skip 3 u) refl e),
        append-nil,
      )
      | inr k ↦ elim (Bool-cases (starts (codes "NFIG") (skip 3 u))) [
        | inl e ↦ simp (
          n,
          k,
          e,
          absent_conf n,
          absent_onfi k,
          absent_fig (exclusive 78 70 (codes "FIG") (codes "IG_") (skip 3 u) refl e),
          append-nil,
        )
        | inr l ↦ elim (Bool-cases (starts (codes "FIG_") (skip 3 u))) [
          | inl e ↦ simp (n, k, l, e, absent_conf n, absent_onfi k, absent_nfig l, append-nil)
          | inr o ↦ simp (n, k, l, o, absent_conf n, absent_onfi k, absent_nfig l, absent_fig o)
        ]
      ]
    ]
  ]

words-step :
    (n : ℕ) (u : Text)
    → words_at_bytes (skip n u) ≡ found (skip n u) ++ words_at_bytes (skip (n + 1) u)
words-step n u =
    words-unroll (skip n u) ∙ ap (λ t. found (skip n u) ++ words_at_bytes t) (skip-skip 1 n u)

-- The search at every byte, four bytes at once.
words-block :
    (u : Text)
    → words_at_bytes u
      ≡ (found u ++ (found (skip 1 u) ++ (found (skip 2 u) ++ found (skip 3 u))))
        ++ words_at_bytes (skip 4 u)
words-block u = simp (words-step 0 u, words-step 1 u, words-step 2 u, words-step 3 u, append_assoc)

starts-length : (x t : Text) → starts x t ≡ true → length x ≤ length t
starts-length [] t h = omega arith
starts-length (c ∷ x) [] h = cc
starts-length (c ∷ x) (d ∷ t) h = ground (arith, h, starts-length x t)

found-short : (u : Text) → length u ≤ 6 → found u ≡ []
found-short u h = found-none u (elim (Bool-cases (starts config u)) [
  | inl e ↦ let l : 7 ≤ length u = starts-length config u e in ground (arith, l, h)
  | inr e ↦ e
])

words-short : (u : Text) → length u ≤ 6 → words_at_bytes u ≡ []
unfolding words_at_bytes found
words-short [] h = refl
words-short (c ∷ u) h =
    ap (λ x. x ++ words_at_bytes u) (found-short (c ∷ u) h) ∙ words-short u (omega arith)

word_offset-bound : (w : Text) (d : ℕ) → word_offset w ≡ some d → d ≤ 3
unfolding word_offset
word_offset-bound w d h = ground arith

visit-block :
    (map : Text) (n : ℕ) (o : Option ℕ)
    → ((d : ℕ) → o ≡ some d → d ≤ 3)
    → visit map (n + 3) o ≡ (elim o [ none ↦ [] | some d ↦ found (skip (3 - d) (skip n map)) ])
unfolding found
visit-block map n none b = refl
visit-block map n (some d) b =
    let l : d ≤ 3 = b d refl in
    let e : n + 3 - d ≡ n + (3 - d) = omega arith in
    ap (λ k. found (skip k map)) e ∙ ap found (sym (skip-skip (3 - d) n map))

visit-word :
    (map : Text) (k : ℕ)
    → visit map (k + 3) (word_offset (skip (k + 3) map)) ++ words_at_bytes (skip (k + 3 + 1) map)
      ≡ words_at_bytes (skip k map)
visit-word map k =
    let u = skip k map in
    let back : Option ℕ → List Text = λ o. elim o [ none ↦ [] | some d ↦ found (skip (3 - d) u) ] in
    let word = skip (k + 3) map in
    let here : visit map (k + 3) (word_offset word)
        ≡ found u ++ (found (skip 1 u) ++ (found (skip 2 u) ++ found (skip 3 u))) =
      visit-block map k (word_offset word) (word_offset-bound word)
      ∙ sym (ap (λ t. back (word_offset t)) (skip-skip 3 k map))
      ∙ sym (block u) in
    let behind : words_at_bytes (skip (k + 3 + 1) map) ≡ words_at_bytes (skip 4 u) =
      ap (λ a. words_at_bytes (skip a map)) (omega arith)
      ∙ sym (ap words_at_bytes (skip-skip 4 k map)) in
    ap₂ (λ x y. x ++ y) here behind ∙ sym (words-block u)

-- The words from the m-th on, four bytes each, and the bytes from the one behind the word before.
scan_words-bytes :
    (f : ℕ) (map : Text) (n : ℕ)
    → length map ≤ 4 * (f + (n + 1))
    → scan_words f map (n + 1) ≡ words_at_bytes (skip (4 * n + 1) map)
unfolding scan_words
scan_words-bytes zero map n h =
    let e = length-skip (4 * n + 1) map in sym (words-short (skip (4 * n + 1) map) (omega arith))
scan_words-bytes (suc f) map n h = elim (Bool-cases (ltb (4 * (n + 1)) (length map))) [
  | inl e ↦
      let i = scan_words-bytes f map (n + 1) (omega arith) in
      let word : 4 * (n + 1) ≡ 4 * n + 1 + 3 = omega arith in
      let next : 4 * (n + 1) + 1 ≡ 4 * n + 1 + 3 + 1 = omega arith in
      let start : scan_words (suc f) map (n + 1)
          ≡ visit map (4 * (n + 1)) (word_offset (skip (4 * (n + 1)) map))
            ++ scan_words f map (n + 1 + 1) =
        rw e in
      start
      ∙ ap₂ (λ x y. x ++ y) refl (i ∙ ap (λ a. words_at_bytes (skip a map)) next)
      ∙ ap
          (λ a.
            visit map a (word_offset (skip a map)) ++ words_at_bytes (skip (4 * n + 1 + 3 + 1) map))
          word
      ∙ visit-word map (4 * n + 1)
  | inr e ↦
      let l = length-skip (4 * n + 1) map in
      let s : length (skip (4 * n + 1) map) ≤ 6 = ground (arith, e, l) in
      let stop : scan_words (suc f) map (n + 1) ≡ [] = rw e in
      stop ∙ sym (words-short (skip (4 * n + 1) map) s)
]

-- The search that reads a file four bytes at a time finds, in order, exactly the CONFIG_ words that
-- a test at every byte finds, from the second byte of the file on.
pub parse_config_file-bytes : (map : Text) → parse_config_file map ≡ words_at_bytes (skip 1 map)
unfolding parse_config_file
parse_config_file-bytes map = scan_words-bytes (length map) map 0 (omega arith)
