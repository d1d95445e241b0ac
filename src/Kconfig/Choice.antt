-- ===== src/Kconfig/Choice.antt =====
-- scripts/kconfig/symbol.c: the symbol that a choice selects, once the visibility of its values has
-- been calculated.
pub mod Visible
mod Examples
use embtoolkit.Base.{
  ℕ, ◌≡◌, Bool, true, false, not, List, [], ◌∷◌, Option, none, some, ◌&&◌, if◌then◌else◌,
}
use embtoolkit.Kconfig.Tristate.{Tristate, tri_no, tri_eq}
use embtoolkit.Kconfig.Symbol.{Symbols, Values}
use embtoolkit.Kconfig.Expr.{Expr, calc_value}

-- A default of a choice: its condition and its symbol.
pub record ChoiceDefault : Type 0 where
  pub condition : Option Expr
  pub chosen : ℕ

-- A choice. `values` are the symbols of its P_CHOICE property, `user` is `def[S_DEF_USER].val`, and
-- `tri` and `has_user` are `curr.tri` and SYMBOL_DEF_USER of its symbol.
pub record Choice : Type 0 where
  pub defaults : List ChoiceDefault
  pub values : List ℕ
  pub user : Option ℕ
  pub tri : Tristate
  pub has_user : Bool

-- `visible` and SYMBOL_DEF_USER of each symbol
pub record Shown : Type 0 where
  pub visible : ℕ → Tristate
  pub def_user : ℕ → Bool

abbrev pub is_visible : Shown → ℕ → Bool
is_visible w s = not (tri_eq (w.visible s) tri_no)

abbrev pub or_else : Option ℕ → Option ℕ → Option ℕ
or_else none m = m
or_else (some s) m = some s

-- `if (def_sym->visible != no) return def_sym;`
abbrev pub if_visible : Shown → ℕ → Option ℕ
if_visible w s = if is_visible w s then some s else none

-- The loop over the values of the choice.
unfoldable pub first_visible : Shown → List ℕ → Option ℕ
first_visible w [] = none
first_visible w (s ∷ ss) = or_else (if_visible w s) (first_visible w ss)

module _ (st : Symbols) (v : Values) (w : Shown) where
  abbrev pub default_symbol : ChoiceDefault → Option ℕ
  default_symbol d =
      if tri_eq (calc_value st v d.condition) tri_no then none else if_visible w d.chosen

  -- The loop over the defaults.
  unfoldable pub first_default : List ChoiceDefault → Option ℕ
  first_default [] = none
  first_default (d ∷ ds) = or_else (default_symbol d) (first_default ds)

  -- sym_choice_default
  abbrev pub sym_choice_default : Choice → Option ℕ
  sym_choice_default c = or_else (first_default c.defaults) (first_visible w c.values)

  abbrev pub user_symbol : Option ℕ → Option ℕ
  user_symbol none = none
  user_symbol (some s) = if_visible w s

  -- Whether every visible value has SYMBOL_DEF_USER.
  unfoldable pub all_user : List ℕ → Bool
  all_user [] = true
  all_user (s ∷ ss) = (if is_visible w s then w.def_user s else true) && all_user ss

  abbrev pub tri_after : Option ℕ → Tristate → Tristate
  tri_after none tri = tri_no
  tri_after (some s) tri = tri

  -- sym_calc_choice: the symbol, and the choice with the two fields that change.
  unfoldable pub sym_calc_choice : Choice → Option ℕ × Choice
  sym_calc_choice c =
      let r = or_else (user_symbol c.user) (sym_choice_default c) in
      (r, record c { has_user = c.has_user && all_user c.values; tri = tri_after r c.tri })
