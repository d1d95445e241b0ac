-- ===== src/Kconfig/Print.antt =====
-- scripts/kconfig/expr.c: the printer of expressions, as the list of its calls of `fn`.
pub mod Scan
pub mod Binding
mod Examples
use embtoolkit.Base.{
  ℕ, ◌≡◌, Bool, true, false, List, [], ◌∷◌, ◌++◌, ◌==◌, Option, none, some, if◌then◌else◌,
}
use embtoolkit.Kconfig.Expr.{Expr, symbol, not_expr, equal, unequal, or_expr, and_expr, list, range}

-- enum expr_type
pub data ExprType : Type 0 where
  e_none e_or e_and e_not e_equal e_unequal e_list e_symbol e_range : ExprType

abbrev pub type_index : ExprType → ℕ
type_index e_none = 0
type_index e_or = 1
type_index e_and = 2
type_index e_not = 3
type_index e_equal = 4
type_index e_unequal = 5
type_index e_list = 6
type_index e_symbol = 7
type_index e_range = 8

abbrev pub type_of : Expr → ExprType
type_of (symbol s) = e_symbol
type_of (not_expr e) = e_not
type_of (equal l r) = e_equal
type_of (unequal l r) = e_unequal
type_of (or_expr l r) = e_or
type_of (and_expr l r) = e_and
type_of (list s rest) = e_list
type_of (range l r) = e_range

-- The cases of the switch, each with those that it falls through to: whether the result is 1.
abbrev list_case : ExprType → Bool
list_case t2 = type_index t2 == 0

abbrev or_case : ExprType → Bool
or_case t2 = if type_index t2 == 6 then true else list_case t2

abbrev and_case : ExprType → Bool
and_case t2 = if type_index t2 == 1 then true else or_case t2

abbrev not_case : ExprType → Bool
not_case t2 = if type_index t2 == 2 then true else and_case t2

abbrev equal_case : ExprType → Bool
equal_case t2 = if type_index t2 == 3 then true else not_case t2

abbrev switch_case : ExprType → ExprType → Bool
switch_case e_equal t2 = equal_case t2
switch_case e_unequal t2 = equal_case t2
switch_case e_not t2 = not_case t2
switch_case e_and t2 = and_case t2
switch_case e_or t2 = or_case t2
switch_case e_list t2 = list_case t2
switch_case _ t2 = false

-- `expr_compare_type(t1, t2) > 0`
abbrev pub binds_tighter : ExprType → ExprType → Bool
binds_tighter t1 t2 = if type_index t1 == type_index t2 then false else switch_case t1 t2

-- A call of `fn`: with a symbol, or with a text.
pub data Token : Type 0 where
  name : ℕ → Token
  choice_text yes_text open_sign close_sign not_sign equal_sign unequal_sign or_sign and_sign caret
        open_bracket space close_bracket :
      Token

abbrev pub enclose : Bool → List Token → List Token
enclose b ts = (if b then open_sign ∷ [] else []) ++ (ts ++ (if b then close_sign ∷ [] else []))

-- The E_LIST case: the nodes of the rest are printed with the same type before them.
unfoldable pub print_list : ℕ → List ℕ → List Token
print_list s [] = name s ∷ []
print_list s (t ∷ rest) = name s ∷ caret ∷ print_list t rest

-- `named s` says that the symbol has a name.
module _ (named : ℕ → Bool) where
  abbrev pub left_name : ℕ → Token
  left_name s = if named s then name s else choice_text

  -- expr_print
  unfoldable pub expr_print : Expr → ExprType → List Token
  expr_print (symbol s) prev = enclose (binds_tighter prev e_symbol) (left_name s ∷ [])
  expr_print (not_expr e) prev = enclose (binds_tighter prev e_not) (not_sign ∷ expr_print e e_not)
  expr_print (equal l r) prev =
      enclose (binds_tighter prev e_equal) (left_name l ∷ equal_sign ∷ name r ∷ [])
  expr_print (unequal l r) prev =
      enclose (binds_tighter prev e_unequal) (left_name l ∷ unequal_sign ∷ name r ∷ [])
  expr_print (or_expr l r) prev =
      enclose (binds_tighter prev e_or) (expr_print l e_or ++ (or_sign ∷ expr_print r e_or))
  expr_print (and_expr l r) prev =
      enclose (binds_tighter prev e_and) (expr_print l e_and ++ (and_sign ∷ expr_print r e_and))
  expr_print (list s rest) prev = enclose (binds_tighter prev e_list) (print_list s rest)
  expr_print (range l r) prev =
      enclose (binds_tighter prev e_range)
        (open_bracket ∷ name l ∷ space ∷ name r ∷ close_bracket ∷ [])
