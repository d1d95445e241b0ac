-- ===== src/Kconfig/Toggle/Reached.antt =====
-- scripts/kconfig/symbol.c: what toggling a symbol leads to.
use embtoolkit.Base.{
  ◌&&◌, ℕ, suc, sym, ap, ◌∙◌, if-true, if-false, ◌≡◌, refl, ◌⊎◌, inl, inr, if◌then◌else◌, Bool,
  true, false, Option, some, Bool-cases,
}
use embtoolkit.Kconfig.Tristate.{Tristate, tri_no, tri_mod, tri_yes, tri_eq}
use embtoolkit.Kconfig.Calc.{Entry, Limits, sym_tristate_within_range}
use embtoolkit.Kconfig.Toggle.{
  UserState, sym_set_tristate_value, toggle_rounds, sym_toggle_tristate_value, next_value, set_user,
  set_chosen, end_round,
}

-- The value after c: the first in the order of the rounds that is within the range, or c again.
abbrev pub target : (Tristate → Bool) → Tristate → Tristate
target range c =
    if range (next_value c)
    then next_value c
    else if range (next_value (next_value c))
    then next_value (next_value c)
    else c

next_value-other : (c : Tristate) → tri_eq c (next_value c) ≡ false
next_value-other tri_no = refl
next_value-other tri_mod = refl
next_value-other tri_yes = refl

next_value-third : (c : Tristate) → tri_eq c (next_value (next_value c)) ≡ false
next_value-third tri_no = refl
next_value-third tri_mod = refl
next_value-third tri_yes = refl

next_value-cycle : (c : Tristate) → next_value (next_value (next_value c)) ≡ c
next_value-cycle tri_no = refl
next_value-cycle tri_mod = refl
next_value-cycle tri_yes = refl

tri_eq_refl : (c : Tristate) → tri_eq c c ≡ true
tri_eq_refl tri_no = refl
tri_eq_refl tri_mod = refl
tri_eq_refl tri_yes = refl

-- Whatever the range is, a value of it is reached in two rounds.
target-twice :
    (range : Tristate → Bool) (c b : Tristate)
    → range b ≡ true
    → (c ≡ b) ⊎ ((target range c ≡ b) ⊎ (target range (target range c) ≡ b))
target-twice range tri_no tri_no h = inl refl
target-twice range tri_mod tri_mod h = inl refl
target-twice range tri_yes tri_yes h = inl refl
target-twice range tri_no tri_mod h = inr (inl (rw h))
target-twice range tri_mod tri_yes h = inr (inl (rw h))
target-twice range tri_yes tri_no h = inr (inl (rw h))
target-twice range tri_no tri_yes h = elim (Bool-cases (range tri_mod)) [
  | inl e ↦ inr (inr (simp (e, h)))
  | inr e ↦ inr (inl (simp (e, h)))
]
target-twice range tri_mod tri_no h = elim (Bool-cases (range tri_yes)) [
  | inl e ↦ inr (inr (simp (e, h)))
  | inr e ↦ inr (inl (simp (e, h)))
]
target-twice range tri_yes tri_mod h = elim (Bool-cases (range tri_no)) [
  | inl e ↦ inr (inr (simp (e, h)))
  | inr e ↦ inr (inl (simp (e, h)))
]

target-allowed :
    (range : Tristate → Bool) (c : Tristate)
    → (range (target range c) ≡ true) ⊎ (target range c ≡ c)
target-allowed range c = elim (Bool-cases (range (next_value c))) [
  | inl e ↦ inl (ap range (if-true _ _ e) ∙ e)
  | inr e ↦ elim (Bool-cases (range (next_value (next_value c)))) [
    | inl k ↦ inl (ap range (if-false _ _ e ∙ if-true _ _ k) ∙ k)
    | inr k ↦ inr (if-false _ _ e ∙ if-false _ _ k)
  ]
]

module _ (modules_val : Tristate) (s : Entry) (l : Limits) where
  abbrev in_range : Tristate → Bool
  in_range = sym_tristate_within_range modules_val s l

  set-in_range :
      (u : UserState) (v : Tristate)
      → in_range v ≡ true
      → sym_set_tristate_value modules_val s l u v ≡ (true, set_user modules_val s l u v)
  unfolding sym_set_tristate_value
  set-in_range u v h = elim (Bool-cases (tri_eq u.curr v)) [
    | inl e ↦ simp (e, h)
    | inr e ↦ simp (e, h)
  ]

  set-same :
      (u : UserState) (v : Tristate)
      → tri_eq u.curr v ≡ true
      → sym_set_tristate_value modules_val s l u v ≡ (true, set_user modules_val s l u v)
  unfolding sym_set_tristate_value
  set-same u v e = simp e

  set-refused :
      (u : UserState) (v : Tristate)
      → tri_eq u.curr v ≡ false
      → in_range v ≡ false
      → sym_set_tristate_value modules_val s l u v ≡ (false, u)
  unfolding sym_set_tristate_value
  set-refused u v e h = simp (e, h)

  toggle_rounds-set :
      (f : ℕ) (v : Tristate) (u t : UserState)
      → sym_set_tristate_value modules_val s l u (next_value v) ≡ (true, t)
      → toggle_rounds modules_val s l (suc f) v u ≡ some (next_value v, t)
  unfolding toggle_rounds
  toggle_rounds-set f v u t h =
      ap
        (λ r.
          end_round u.curr (next_value v) r (toggle_rounds modules_val s l f (next_value v) r.1))
        h

  toggle_rounds-refused :
      (f : ℕ) (v : Tristate) (u : UserState)
      → sym_set_tristate_value modules_val s l u (next_value v) ≡ (false, u)
      → tri_eq u.curr (next_value v) ≡ false
      → toggle_rounds modules_val s l (suc f) v u ≡ toggle_rounds modules_val s l f (next_value v) u
  unfolding toggle_rounds
  toggle_rounds-refused f v u h e =
      ap
        (λ r.
          end_round u.curr (next_value v) r (toggle_rounds modules_val s l f (next_value v) r.1))
        h
      ∙ if-false _ _ e

  toggle-target :
      (u : UserState)
      → sym_toggle_tristate_value modules_val s l u
        ≡ some (target in_range u.curr, set_user modules_val s l u (target in_range u.curr))
  unfolding sym_toggle_tristate_value
  toggle-target u =
      let c = u.curr in
      let a = next_value c in
      let b = next_value a in
      let result : Tristate → Option (Tristate × UserState) =
        λ v. some (v, set_user modules_val s l u v) in
      elim (Bool-cases (in_range a)) [
        | inl h ↦
            toggle_rounds-set 2 c u (set_user modules_val s l u a) (set-in_range u a h)
            ∙ ap result (sym (if-true _ _ h))
        | inr h ↦
            let first =
              toggle_rounds-refused 2 c u (set-refused u a (next_value-other c) h)
                (next_value-other c) in
            elim (Bool-cases (in_range b)) [
              | inl k ↦
                  first
                  ∙ toggle_rounds-set 1 a u (set_user modules_val s l u b) (set-in_range u b k)
                  ∙ ap result (sym (if-false _ _ h ∙ if-true _ _ k))
              | inr k ↦
                  let back = next_value-cycle c in
                  let same = ap (tri_eq c) back ∙ tri_eq_refl c in
                  first
                  ∙ toggle_rounds-refused 1 a u (set-refused u b (next_value-third c) k)
                      (next_value-third c)
                  ∙ toggle_rounds-set 0 b u (set_user modules_val s l u (next_value b))
                      (set-same u (next_value b) same)
                  ∙ ap result (back ∙ sym (if-false _ _ h ∙ if-false _ _ k))
            ]
      ]

  set_user-set :
      (u : UserState) (v : Tristate)
      → ((set_user modules_val s l u v).tri ≡ v) × ((set_user modules_val s l u v).is_set ≡ true)
  set_user-set u v = (refl, kept (s.is_choice_value && tri_eq v tri_yes) u.is_set refl)
    where
      kept :
          (b c : Bool)
          → c ≡ u.is_set
          → (if b
              then set_chosen (if c then u else record u { is_set = true; changed = true })
              else (if c then u else record u { is_set = true; changed = true })).is_set
            ≡ true
      kept true true e = sym e
      kept true false e = refl
      kept false true e = sym e
      kept false false e = refl

-- Toggling a symbol ends by the third round of its loop, with a value that is within the symbol's
-- range or the old one, and that value is then the one set by the user.
pub sym_toggle_tristate_value-sets :
    (modules_val : Tristate) (s : Entry) (l : Limits) (u : UserState)
    → (r : Tristate × UserState) × (sym_toggle_tristate_value modules_val s l u ≡ some r)
      × ((sym_tristate_within_range modules_val s l r.0 ≡ true) ⊎ (r.0 ≡ u.curr))
      × (r.1.tri ≡ r.0)
      × (r.1.is_set ≡ true)
sym_toggle_tristate_value-sets modules_val s l u =
    let v = target (in_range modules_val s l) u.curr in
    let k = set_user-set modules_val s l u v in
    (
      (v, set_user modules_val s l u v),
      toggle-target modules_val s l u,
      target-allowed (in_range modules_val s l) u.curr,
      k.0,
      k.1,
    )

-- Every value within the range is reached by toggling at most twice, where the value that is set
-- becomes the symbol's value in between.
pub sym_toggle_tristate_value-reaches :
    (modules_val : Tristate) (s : Entry) (l : Limits) (u : UserState) (b : Tristate)
    → sym_tristate_within_range modules_val s l b ≡ true
    → (u.curr ≡ b)
      ⊎ ((r : Tristate × UserState) × (sym_toggle_tristate_value modules_val s l u ≡ some r)
          × ((r.0 ≡ b)
              ⊎ ((q : Tristate × UserState) × (sym_toggle_tristate_value modules_val s l
                      (record r.1 { curr = r.0 })
                    ≡ some q)
                  × (q.0 ≡ b))))
sym_toggle_tristate_value-reaches modules_val s l u b h =
    let range = in_range modules_val s l in
    let v = target range u.curr in
    let t = set_user modules_val s l u v in
    let w : UserState = record t { curr = v } in
    elim (target-twice range u.curr b h) [
      | inl e ↦ inl e
      | inr (inl e) ↦ inr ((v, t), toggle-target modules_val s l u, inl e)
      | inr (inr e) ↦ inr (
        (v, t),
        toggle-target modules_val s l u,
        inr (
          (target range v, set_user modules_val s l w (target range v)),
          toggle-target modules_val s l w,
          e,
        ),
      )
    ]
