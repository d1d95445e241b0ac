-- ===== src/Fixdep/Set/Once.antt =====
-- scripts/basic/fixdep.c: the table holds a set of words, and each word is printed once.
use embtoolkit.Base.{
  ℕ, ◌≡◌, refl, sym, ap, ◌∙◌, Bool, true, false, ◌||◌, List, [], ◌∷◌, ◌++◌, Text, str_eq, str_eq→eq,
  length, ◌==◌, leb, if◌then◌else◌, arith, Bool-cases, inl, inr, ◌%◌,
}
use embtoolkit.Fixdep.Words.{take}
use embtoolkit.Fixdep.Set.{
  Hashtab, hashsz, is_item, strhash, is_defined_config, define_config, clear_config, config_line,
  use_config, use_configs,
}

-- The set of the words seen, as a list.
abbrev pub member : Text → List Text → Bool
member w [] = false
member w (v ∷ seen) = str_eq v w || member w seen

-- The words of a list that are new, each where it occurs first.
abbrev pub fresh : List Text → List Text → List Text
fresh seen [] = []
fresh seen (w ∷ ws) =
    let again = fresh seen ws in
    let first = fresh (w ∷ seen) ws in if member w seen then again else w ∷ first

abbrev pub lines : List Text → Text
lines [] = []
lines (w ∷ ws) = config_line w ++ lines ws

-- What the table is to hold: is_defined_config answers as the set does.
unfoldable pub Holds : Hashtab → List Text → Type 0
Holds hashtab seen = (w : Text) → is_defined_config hashtab w (length w) (strhash w) ≡ member w seen

take-all : (t : Text) → take (length t) t ≡ t
unfolding take
take-all [] = refl
take-all (c ∷ t) = ap (λ s. c ∷ s) (take-all t)

==_refl : (n : ℕ) → (n == n) ≡ true
==_refl n = ground arith

==→eq : (a b : ℕ) → (a == b) ≡ true → a ≡ b
==→eq a b h = ground arith

-- The name that an item keeps, cut again to the length of the word asked for.
take-name : (v w : Text) → length v ≡ length w → take (length w) (take (length v) v) ≡ v
take-name v w e = ap (take (length w)) (take-all v) ∙ ap (λ n. take n v) (sym e) ∙ take-all v

is_item-str_eq :
    (v w : Text)
    → is_item
        (record { len = length v; hash = strhash v; name = take (length v) v })
        w
        (length w)
        (strhash w)
      ≡ str_eq v w
is_item-str_eq v w = elim (Bool-cases (str_eq v w)) [
  | inl h ↦
      let e = str_eq→eq v w h in
      let l : (length v == length w) ≡ true =
        ap (λ t. length t == length w) e ∙ ==_refl (length w) in
      let k : (strhash v == strhash w) ≡ true =
        ap (λ t. strhash t == strhash w) e ∙ ==_refl (strhash w) in
      simp (l, k, take-name v w (ap length e), take-all w)
  | inr h ↦ elim (Bool-cases (length v == length w)) [
    | inl l ↦
        let e = ==→eq (length v) (length w) l in
        elim (Bool-cases (strhash v == strhash w)) [
          | inl k ↦ simp (h, k, l, take-name v w e, take-all w)
          | inr k ↦ simp (h, k)
        ]
    | inr l ↦ elim (Bool-cases (strhash v == strhash w)) [
      | inl k ↦ simp (h, k, l)
      | inr k ↦ simp (h, k)
    ]
  ]
]

pub clear_config-Holds : (hashtab : Hashtab) → Holds (clear_config hashtab) []
unfolding Holds clear_config is_defined_config
clear_config-Holds hashtab w =
    let l : leb hashsz (strhash w % hashsz) ≡ false = ground arith in simp l

||-if : (a b : Bool) → (if a then true else b) ≡ a || b
||-if true b = refl
||-if false b = refl

define_config-Holds :
    (hashtab : Hashtab) (seen : List Text) (v : Text)
    → Holds hashtab seen
    → Holds (define_config hashtab v (length v) (strhash v)) (v ∷ seen)
unfolding Holds is_defined_config define_config
define_config-Holds hashtab seen v h w =
    elim (Bool-cases (strhash w % hashsz == strhash v % hashsz)) [
      | inl e ↦
          let q = is_item-str_eq v w in
          let k = h w in
          let i = ==→eq (strhash w % hashsz) (strhash v % hashsz) e in
          let chain = ap hashtab (sym i) in simp (e, chain, q, k, ||-if)
      | inr e ↦
          let n : str_eq v w ≡ false = elim (Bool-cases (str_eq v w)) [
            | inl a ↦
                let b = ap (λ t. strhash t % hashsz) (str_eq→eq v w a) in
                let c = ==_refl (strhash w % hashsz) in ground (arith, b, c, e)
            | inr a ↦ a
          ] in
          simp (e, n, h w)
    ]

use_config-again :
    (hashtab : Hashtab) (seen : List Text) (m : Text)
    → Holds hashtab seen
    → member m seen ≡ true
    → use_config hashtab m ≡ record { hashtab = hashtab; out = [] }
unfolding use_config Holds
use_config-again hashtab seen m h e = let d = h m ∙ e in rw d

use_config-first :
    (hashtab : Hashtab) (seen : List Text) (m : Text)
    → Holds hashtab seen
    → member m seen ≡ false
    → use_config hashtab m
      ≡ record { hashtab = define_config hashtab m (length m) (strhash m); out = config_line m }
unfolding use_config Holds
use_config-first hashtab seen m h e = let d = h m ∙ e in rw d

pub use_configs-fresh :
    (hashtab : Hashtab) (seen ms : List Text)
    → Holds hashtab seen
    → (use_configs hashtab ms).out ≡ lines (fresh seen ms)
unfolding use_configs
use_configs-fresh hashtab seen [] h = refl
use_configs-fresh hashtab seen (m ∷ ms) h = elim (Bool-cases (member m seen)) [
  | inl e ↦
      let u = use_config-again hashtab seen m h e in
      let i = use_configs-fresh hashtab seen ms h in simp (e, u, i)
  | inr e ↦
      let u = use_config-first hashtab seen m h e in
      let t = define_config hashtab m (length m) (strhash m) in
      let i = use_configs-fresh t (m ∷ seen) ms (define_config-Holds hashtab seen m h) in
      simp (e, u, i)
]

-- The set after the words of a list
abbrev pub seen_after : List Text → List Text → List Text
seen_after seen [] = seen
seen_after seen (w ∷ ws) =
    let again = seen_after seen ws in
    let first = seen_after (w ∷ seen) ws in if member w seen then again else first

pub use_configs-Holds :
    (hashtab : Hashtab) (seen ms : List Text)
    → Holds hashtab seen
    → Holds (use_configs hashtab ms).hashtab (seen_after seen ms)
unfolding use_configs
use_configs-Holds hashtab seen [] h = h
use_configs-Holds hashtab seen (m ∷ ms) h = elim (Bool-cases (member m seen)) [
  | inl e ↦
      let u = use_config-again hashtab seen m h e in
      let i = use_configs-Holds hashtab seen ms h in rw (e, u) i
  | inr e ↦
      let u = use_config-first hashtab seen m h e in
      let t = define_config hashtab m (length m) (strhash m) in
      let i = use_configs-Holds t (m ∷ seen) ms (define_config-Holds hashtab seen m h) in
      rw (e, u) i
]

-- From a cleared table the calls of use_config print the line of every word once, in the order of
-- first occurrence, whatever the words' hashes are and however the chains of the table collide.
pub use_configs-once :
    (hashtab : Hashtab) (ms : List Text)
    → (use_configs (clear_config hashtab) ms).out ≡ lines (fresh [] ms)
use_configs-once hashtab ms =
    use_configs-fresh (clear_config hashtab) [] ms (clear_config-Holds hashtab)
