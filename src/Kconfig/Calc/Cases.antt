-- ===== src/Kconfig/Calc/Cases.antt =====
-- scripts/kconfig/symbol.c: the steps by which sym_calc_value finds the value of a symbol.
use embtoolkit.Base.{
  ◌⊎◌, ◌≡◌, ◌≢◌, ◌≤◌, refl, Bool, true, false, not, Option, none, some, ◌&&◌, ◌||◌, if◌then◌else◌,
  arith, ap, sym, subst, ◌∙◌, inl, inr,
}
use embtoolkit.Kconfig.Tristate.{
  Tristate, tri_no, tri_mod, tri_yes, rank, expr_or, expr_and, tri_eq,
}
use embtoolkit.Kconfig.Symbol.{Symbols, SymbolType, Values}
use embtoolkit.Kconfig.Calc.{
  Entry, Limits, is_boolean, is_tristate, sym_get_type, promote, sym_get_default_prop,
  visible_value, fallback, user_value, user_or_default, has_default, default_value, calc_tristate,
  calc_write, prompts_value,
}

pub promote-mod : (b : Bool) (t : Tristate) → promote b t ≡ tri_mod → b ≡ false
promote-mod b t h = ground (arith, h)

rank-promote : (b : Bool) (t : Tristate) → rank t ≤ rank (promote b t)
rank-promote b t = ground arith

not-true : (b : Bool) → not b ≡ false → b ≡ true
not-true true h = refl
not-true false h = cc

if_false : (b : Bool) (x y : Tristate) → b ≡ false → (if b then x else y) ≡ y
if_false true x y h = cc
if_false false x y h = refl

rank-expr_or : (a b : Tristate) → rank b ≤ rank (expr_or a b)
rank-expr_or a b = ground arith

expr_or-no : (a b : Tristate) → expr_or a b ≢ tri_no → (a ≢ tri_no) ⊎ (b ≢ tri_no)
expr_or-no a b h = ground (arith, h)

promote-no : (b : Bool) (t : Tristate) → promote b t ≢ tri_no → t ≢ tri_no
promote-no b t h = ground (arith, h)

module _ (st : Symbols) (v : Values) (modules_val : Tristate) (s : Entry) where
  get_type-tristate :
      (t : Tristate)
      → is_boolean (sym_get_type modules_val s t) ≡ false
      → is_boolean s.sym_type || is_tristate s.sym_type ≡ true
      → (is_tristate s.sym_type ≡ true) × (modules_val ≢ tri_no)
  get_type-tristate t h k = ground (arith, h, k)

  fallback-write :
      fallback st v s ≢ tri_no
      → not s.is_choice && has_default (sym_get_default_prop st v s.defaults) ≡ true
  fallback-write h =
      elim (sym_get_default_prop st v s.defaults)
          as (λ d.
            (if s.is_choice then tri_no else default_value st v d) ≢ tri_no
            → not s.is_choice && has_default d ≡ true) [
              | none ↦ λ k. ground (arith, k)
              | some d ↦ λ k. ground (arith, k)
            ]
        h

  user_value-write :
      (visible : Tristate) (u : Option Tristate)
      → user_value (fallback st v s) visible u ≢ tri_no
      → (visible ≢ tri_no) ⊎ (fallback st v s ≢ tri_no)
  user_value-write visible none h = inr h
  user_value-write visible (some u) h = ground (arith, h)

  pub calc_tristate-mod :
      (chosen : Bool) (l : Limits)
      → is_boolean s.sym_type || is_tristate s.sym_type ≡ true
      → calc_tristate st v modules_val s chosen l ≡ tri_mod
      → (is_tristate s.sym_type ≡ true) × (modules_val ≢ tri_no)
  calc_tristate-mod chosen l k h =
      get_type-tristate l.visible
        (promote-mod (is_boolean (sym_get_type modules_val s l.visible))
          (if s.is_choice_value && tri_eq l.visible tri_yes
            then (if chosen then tri_yes else tri_no)
            else expr_or (user_or_default st v s l.visible) l.rev_dep)
          h)
        k

  pub unchosen :
      (chosen : Bool) (l : Limits)
      → s.is_choice_value && tri_eq l.visible tri_yes ≡ false
      → calc_tristate st v modules_val s chosen l
        ≡ promote
            (is_boolean (sym_get_type modules_val s l.visible))
            (expr_or (user_or_default st v s l.visible) l.rev_dep)
  unchosen chosen l h = ap (promote (is_boolean (sym_get_type modules_val s l.visible))) (
      if_false (s.is_choice_value && tri_eq l.visible tri_yes) (if chosen then tri_yes else tri_no)
        (expr_or (user_or_default st v s l.visible) l.rev_dep) h)

  pub calc_tristate-selected :
      (chosen : Bool) (l : Limits)
      → s.is_choice_value && tri_eq l.visible tri_yes ≡ false
      → rank l.rev_dep ≤ rank (calc_tristate st v modules_val s chosen l)
  calc_tristate-selected chosen l h =
      let a = expr_or (user_or_default st v s l.visible) l.rev_dep in
      let p = rank-promote (is_boolean (sym_get_type modules_val s l.visible)) a in
      let q = rank-expr_or (user_or_default st v s l.visible) l.rev_dep in
      subst (λ t. rank l.rev_dep ≤ rank t) (sym (unchosen chosen l h)) (omega (arith, p, q))

  write-reason :
      (write : Bool) (l : Limits)
      → s.is_choice_value && tri_eq l.visible tri_yes ≡ false
      → not (tri_eq l.visible tri_no)
          || (not (tri_eq l.rev_dep tri_no)
              || not s.is_choice && has_default (sym_get_default_prop st v s.defaults))
        ≡ true
      → calc_write st v s write l ≡ true
  write-reason write l h k = ground (arith, h, k)

  pub calc_write-tri :
      (chosen write : Bool) (l : Limits)
      → s.is_choice_value && tri_eq l.visible tri_yes ≡ false
      → calc_tristate st v modules_val s chosen l ≢ tri_no
      → calc_write st v s write l ≡ true
  calc_write-tri chosen write l h k =
      let a = expr_or (user_or_default st v s l.visible) l.rev_dep in
      let n =
        promote-no (is_boolean (sym_get_type modules_val s l.visible)) a
          (λ z. k (unchosen chosen l h ∙ z)) in
      elim (expr_or-no (user_or_default st v s l.visible) l.rev_dep n) [
        | inr r ↦ write-reason write l h (ground (arith, r))
        | inl u ↦ elim (user_value-write l.visible s.user u) [
          | inl x ↦ write-reason write l h (ground (arith, x))
          | inr f ↦ let w = fallback-write f in write-reason write l h (ground (arith, w))
        ]
      ]

pub if_false_limits : (b : Bool) (x y : Limits) → b ≡ false → (if b then x else y) ≡ y
if_false_limits true x y h = cc
if_false_limits false x y h = refl

tristate-boolean : (k : SymbolType) → is_tristate k ≡ true → is_boolean k ≡ false
tristate-boolean k h = ground (arith, h)

neither : (a b : Bool) → a || b ≡ false → (a ≡ false) × (b ≡ false)
neither a b h = ground (arith, h)

pub true-false : true ≡ false → ⊥
true-false h = cc

pub user_value-some :
    (f visible u : Tristate) → visible ≢ tri_no → user_value f visible (some u) ≡ expr_and u visible
user_value-some f visible u h = ground (arith, h)

pub and_false : (a b : Bool) → a ≡ false → a && b ≡ false
and_false a b h = ground (arith, h)

bounded :
    (b : Bool) (u visible rev : Tristate)
    → (b ≡ true → visible ≢ tri_mod)
    → (b ≡ true → rev ≢ tri_mod)
    → rank (promote b (expr_or (expr_and u visible) rev)) ≤ rank (expr_or visible rev)
bounded b u visible rev h k = ground (arith, h, k)

module _ (st : Symbols) (v : Values) (modules_val : Tristate) (s : Entry) where
  type-not_boolean :
      s.is_choice_value ≡ false
      → (t : Tristate) → is_tristate s.sym_type ≡ true
      → tri_eq modules_val tri_no ≡ false
      → is_boolean (sym_get_type modules_val s t) ≡ false
  type-not_boolean c t i m = simp (i, c, m) (tristate-boolean s.sym_type i)

  pub visible-other :
      s.is_choice_value ≡ false
      → (t : Tristate) → is_boolean (sym_get_type modules_val s t) ≡ true
      → visible_value st v modules_val s ≢ tri_mod
  visible-other c t b h =
      let e =
        promote-mod (not (is_tristate s.sym_type) || tri_eq modules_val tri_no)
          (prompts_value st v tri_no s.prompts) h in
      let i = neither (not (is_tristate s.sym_type)) (tri_eq modules_val tri_no) e in
      absurd (true-false (sym b ∙ type-not_boolean c t (not-true (is_tristate s.sym_type) i.0) i.1))

  pub user_value-bound :
      (u : Tristate) (l : Limits)
      → s.user ≡ some u
      → s.is_choice_value ≡ false
      → l.visible ≢ tri_no
      → (is_boolean (sym_get_type modules_val s l.visible) ≡ true → l.visible ≢ tri_mod)
      → (is_boolean (sym_get_type modules_val s l.visible) ≡ true → l.rev_dep ≢ tri_mod)
      → (chosen : Bool)
      → rank (calc_tristate st v modules_val s chosen l) ≤ rank (expr_or l.visible l.rev_dep)
  user_value-bound u l e c n h k chosen =
      let b = is_boolean (sym_get_type modules_val s l.visible) in
      let f =
        unchosen st v modules_val s chosen l
          (and_false s.is_choice_value (tri_eq l.visible tri_yes) c) in
      let g =
        ap (user_value (fallback st v s) l.visible) e
        ∙ user_value-some (fallback st v s) l.visible u n in
      subst (λ t. rank t ≤ rank (expr_or l.visible l.rev_dep))
        (sym (f ∙ ap (λ t. promote b (expr_or t l.rev_dep)) g))
        (bounded b u l.visible l.rev_dep h k)
