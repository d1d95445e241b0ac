-- ===== src/Kconfig/Toggle.antt =====
-- scripts/kconfig/symbol.c: sym_set_tristate_value and sym_toggle_tristate_value, with which a user
-- interface changes a symbol.
pub mod Reached
mod Examples
use embtoolkit.Base.{
  ℕ, zero, suc, Bool, true, false, not, ◌&&◌, ◌||◌, List, [], ◌∷◌, Option, none, some, map,
  if◌then◌else◌,
}
use embtoolkit.Kconfig.Tristate.{Tristate, tri_no, tri_mod, tri_yes, tri_eq}
use embtoolkit.Kconfig.Calc.{Entry, Limits, sym_tristate_within_range}

-- Another value of the choice: its visibility, and whether SYMBOL_DEF_USER is set.
pub record Member : Type 0 where
  pub visible : Tristate
  pub is_set : Bool

-- What the functions read and change: `curr.tri`, `def[S_DEF_USER].tri` and SYMBOL_DEF_USER of the
-- symbol; whether the choice has this symbol as its value, its SYMBOL_DEF_USER and its other values;
-- and what sym_set_changed and sym_clear_all_valid leave.
pub record UserState : Type 0 where
  pub curr : Tristate
  pub tri : Tristate
  pub is_set : Bool
  pub chosen : Bool
  pub choice_set : Bool
  pub members : List Member
  pub changed : Bool
  pub all_valid : Bool

-- The loop over the values of the choice
abbrev pub set_member : Member → Member
set_member m = record m { is_set = m.is_set || not (tri_eq m.visible tri_no) }

abbrev pub set_chosen : UserState → UserState
set_chosen u = record u { chosen = true; choice_set = true; members = map set_member u.members }

-- `newval` of the next round
abbrev pub next_value : Tristate → Tristate
next_value tri_no = tri_mod
next_value tri_mod = tri_yes
next_value tri_yes = tri_no

-- The end of a round, with the old value, the new one, and what setting it gave.
abbrev pub end_round :
    Tristate
    → Tristate
    → Bool × UserState
    → Option (Tristate × UserState)
    → Option (Tristate × UserState)
end_round oldval newval (true, u) rest = some (newval, u)
end_round oldval newval (false, u) rest = if tri_eq oldval newval then some (newval, u) else rest

module _ (modules_val : Tristate) (s : Entry) (l : Limits) where
  -- After the tests: what is set.
  abbrev pub set_user : UserState → Tristate → UserState
  set_user u val =
      let v = if u.is_set then u else record u { is_set = true; changed = true } in
      let w = if s.is_choice_value && tri_eq val tri_yes then set_chosen v else v in
      record w { tri = val; all_valid = w.all_valid && tri_eq u.curr val }

  -- Whether the value was set, and the state.
  unfoldable pub sym_set_tristate_value : UserState → Tristate → Bool × UserState
  sym_set_tristate_value u val =
      if not (tri_eq u.curr val) && not (sym_tristate_within_range modules_val s l val)
      then (false, u)
      else (true, set_user u val)

  -- The rounds of the loop, with a bound on their number.
  unfoldable pub toggle_rounds : ℕ → Tristate → UserState → Option (Tristate × UserState)
  unfolding sym_set_tristate_value
  toggle_rounds zero newval u = none
  toggle_rounds (suc f) newval u =
      let next = next_value newval in
      let r = sym_set_tristate_value u next in end_round u.curr next r (toggle_rounds f next r.1)

  -- The loop ends by the third round, when `newval` is the old value again.
  unfoldable pub sym_toggle_tristate_value : UserState → Option (Tristate × UserState)
  unfolding toggle_rounds
  sym_toggle_tristate_value u = toggle_rounds 3 u.curr u
