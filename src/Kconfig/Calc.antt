-- ===== src/Kconfig/Calc.antt =====
-- scripts/kconfig/symbol.c: visibility and value of a boolean or tristate symbol, from the values
-- that the symbols of its expressions have.
pub mod Cases
pub mod Bounds
pub mod Range
mod Examples
use embtoolkit.Base.{
  ltb, ℕ, ◌≡◌, Bool, true, false, not, List, [], ◌∷◌, Option, none, some, ◌&&◌, ◌||◌, if◌then◌else◌,
}
use embtoolkit.Kconfig.Tristate.{
  Tristate, tri_no, tri_mod, tri_yes, expr_or, expr_and, tri_eq, rank,
}
use embtoolkit.Kconfig.Symbol.{Symbols, SymbolType, boolean, tristate, Values}
use embtoolkit.Kconfig.Expr.{Expr, expr_calc_value, calc_value}

-- `struct property` of a default: its condition, and the value.
pub record Default : Type 0 where
  pub condition : Option Expr
  pub value : Expr

-- What parsing and the user leave in a `struct symbol`. `prompts` are the conditions of its prompts
-- and `user` is `def[S_DEF_USER].tri` where SYMBOL_DEF_USER is set.
pub record Entry : Type 0 where
  pub sym_type : SymbolType
  pub is_choice : Bool
  pub is_choice_value : Bool
  pub prompts : List (Option Expr)
  pub defaults : List Default
  pub dir_dep : Option Expr
  pub rev_dep : Option Expr
  pub user : Option Tristate

-- `visible`, `dir_dep.tri` and `rev_dep.tri`
pub record Limits : Type 0 where
  pub visible : Tristate
  pub dir_dep : Tristate
  pub rev_dep : Tristate

-- What sym_calc_value sets: the limits, SYMBOL_WRITE and `newval.tri`.
pub record Calculated : Type 0 where
  pub limits : Limits
  pub write : Bool
  pub tri : Tristate

abbrev pub is_boolean : SymbolType → Bool
is_boolean boolean = true
is_boolean _ = false

abbrev pub is_tristate : SymbolType → Bool
is_tristate tristate = true
is_tristate _ = false

-- sym_get_type
abbrev pub sym_get_type : Tristate → Entry → Tristate → SymbolType
sym_get_type modules_val s visible =
    if is_tristate s.sym_type
    then (if s.is_choice_value && tri_eq visible tri_yes
        then boolean
        else if tri_eq modules_val tri_no
        then boolean
        else s.sym_type)
    else s.sym_type

abbrev pub leb_tristate : Tristate → Tristate → Bool
leb_tristate a b = not (ltb (rank b) (rank a))

-- sym_tristate_within_range
unfoldable pub sym_tristate_within_range : Tristate → Entry → Limits → Tristate → Bool
sym_tristate_within_range modules_val s l val =
    let type = sym_get_type modules_val s l.visible in
    if tri_eq l.visible tri_no
    then false
    else if not (is_boolean type) && not (is_tristate type)
    then false
    else if is_boolean type && tri_eq val tri_mod
    then false
    else if leb_tristate l.visible l.rev_dep
    then false
    else if s.is_choice_value && tri_eq l.visible tri_yes
    then tri_eq val tri_yes
    else leb_tristate l.rev_dep val && leb_tristate val l.visible

-- `if (tri == mod && …) tri = yes;`
abbrev pub promote : Bool → Tristate → Tristate
promote b t = if tri_eq t tri_mod && b then tri_yes else t

abbrev pub has_default : Option (Default × Tristate) → Bool
has_default none = false
has_default (some d) = true

abbrev pub user_value : Tristate → Tristate → Option Tristate → Tristate
user_value fallback visible none = fallback
user_value fallback visible (some u) =
    if tri_eq visible tri_no then fallback else expr_and u visible

module _ (st : Symbols) (v : Values) where
  -- The loop over the prompts.
  unfoldable pub prompts_value : Tristate → List (Option Expr) → Tristate
  prompts_value tri [] = tri
  prompts_value tri (p ∷ ps) = prompts_value (expr_or tri (calc_value st v p)) ps

  -- sym_get_default_prop, with `prop->visible.tri`
  unfoldable pub sym_get_default_prop : List Default → Option (Default × Tristate)
  sym_get_default_prop [] = none
  sym_get_default_prop (d ∷ ds) =
      let rest = sym_get_default_prop ds in
      if tri_eq (calc_value st v d.condition) tri_no
      then rest
      else some (d, calc_value st v d.condition)

  abbrev pub rev_dep_value : Option Expr → Tristate
  rev_dep_value none = tri_no
  rev_dep_value (some e) = expr_calc_value st v e

  abbrev pub visible_value : Tristate → Entry → Tristate
  visible_value modules_val s =
      promote (not (is_tristate s.sym_type) || tri_eq modules_val tri_no)
        (prompts_value tri_no s.prompts)

  abbrev pub fresh_limits : Tristate → Entry → Limits
  fresh_limits modules_val s =
      let visible = visible_value modules_val s in
      record {
        visible = visible;
        dir_dep = promote true (calc_value st v s.dir_dep);
        rev_dep =
            promote (is_boolean (sym_get_type modules_val s visible)) (rev_dep_value s.rev_dep);
      }

  -- sym_calc_visibility: the limits of a choice value but `visible` stay as they were.
  abbrev pub sym_calc_visibility : Tristate → Entry → Limits → Limits
  sym_calc_visibility modules_val s old =
      if s.is_choice_value
      then record old { visible = visible_value modules_val s }
      else fresh_limits modules_val s

  abbrev pub default_value : Option (Default × Tristate) → Tristate
  default_value none = tri_no
  default_value (some (d, visible)) = expr_and (expr_calc_value st v d.value) visible

  abbrev pub fallback : Entry → Tristate
  fallback s = if s.is_choice then tri_no else default_value (sym_get_default_prop s.defaults)

  -- The value before the selects: the user's where the symbol is visible, or the default.
  abbrev pub user_or_default : Entry → Tristate → Tristate
  user_or_default s visible = user_value (fallback s) visible s.user

  -- The S_BOOLEAN and S_TRISTATE case of sym_calc_value. `chosen` says that the value of the choice
  -- that the symbol belongs to is the symbol.
  abbrev pub calc_tristate : Tristate → Entry → Bool → Limits → Tristate
  calc_tristate modules_val s chosen l =
      let type = sym_get_type modules_val s l.visible in
      promote (is_boolean type) (
        if s.is_choice_value && tri_eq l.visible tri_yes
        then (if chosen then tri_yes else tri_no)
        else expr_or (user_or_default s l.visible) l.rev_dep)

  -- SYMBOL_WRITE, which a choice value keeps.
  abbrev pub calc_write : Entry → Bool → Limits → Bool
  calc_write s write l =
      let kept = s.is_choice_value && write in
      if s.is_choice_value && tri_eq l.visible tri_yes
      then kept
      else kept
        || (not (tri_eq l.visible tri_no)
            || (not (tri_eq l.rev_dep tri_no)
                || (not s.is_choice && has_default (sym_get_default_prop s.defaults))))

  -- The part of sym_calc_value for a boolean or tristate symbol: the limits, SYMBOL_WRITE and the
  -- tristate of `newval`. `sym_calc_choice` may still reset the value of a choice.
  unfoldable pub calc_newval : Tristate → Entry → Bool → Bool → Limits → Calculated
  calc_newval modules_val s chosen write old =
      let l = sym_calc_visibility modules_val s old in
      record {
        limits = l;
        write = calc_write s write l;
        tri = calc_tristate modules_val s chosen l;
      }
