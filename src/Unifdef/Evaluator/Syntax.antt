-- ===== src/Unifdef/Evaluator/Syntax.antt =====
-- The grammar of #if expressions, what unifdef can know of their values, and their values for a
-- compiler, which knows every symbol.
use embtoolkit.Base.{
  ℕ, ◌≡◌, Bool, true, false, not, ◌&&◌, ◌||◌, List, [], ◌∷◌, ◌++◌, Option, none, some, Text, codes,
  ◌==◌, if◌then◌else◌, leb, ltb, ◌+◌, ◌%◌, ◌^◌, str_eq, starts,
}
use embtoolkit.Unifdef.Symbols.{is_word, Symbol}
use embtoolkit.Unifdef.Symbols.Words.{all_word, lookup, IsNumber, number_value}
use embtoolkit.Unifdef.Evaluator.{
  Op, op_or, op_and, op_eq, op_ne, op_le, op_ge, op_lt, op_gt, str, apply, eval_ops, to_int,
  symbol_value,
}

-- The expressions whose operators outside parentheses are of these rows or of later ones: operators of
-- a row group to the left, and those of later rows bind tighter.
pub data Expr : List (List Op) → Type 0 where
  number name : Text → Expr []
  defined : Bool → Text → Expr []
  negated : Expr [] → Expr []
  parens : Expr eval_ops → Expr []
  tighter : (row : List Op) (inner : List (List Op)) → Expr inner → Expr (row ∷ inner)
  binary :
      (row : List Op) (inner : List (List Op)) (op : Op)
      → Expr (row ∷ inner)
      → Expr inner
      → Expr (row ∷ inner)

-- An expression without binary operators outside parentheses
abbrev pub atom : Expr [] → Expr eval_ops
atom e = tighter _ _ (tighter _ _ (tighter _ _ (tighter _ _ e)))

-- How an expression is written, with blanks round the binary operators.
unfoldable pub print : {rows : List (List Op)} → Expr rows → Text
print (number t) = t
print (name x) = x
print (defined true x) = codes "defined(" ++ (x ++ codes ")")
print (defined false x) = codes "defined " ++ x
print (negated e) = 33 ∷ print e
print (parens e) = 40 ∷ (print e ++ codes ")")
print (tighter row inner e) = print e
print (binary row inner op a b) = print a ++ (32 ∷ (str op ++ (32 ∷ print b)))

abbrev pub same_op : Op → Op → Bool
same_op op_or op_or = true
same_op op_and op_and = true
same_op op_eq op_eq = true
same_op op_ne op_ne = true
same_op op_le op_le = true
same_op op_ge op_ge = true
same_op op_lt op_lt = true
same_op op_gt op_gt = true
same_op _ _ = false

-- Whether an operator of the row begins the operator.
abbrev pub begins_row : List Op → Op → Bool
begins_row [] op = false
begins_row (o ∷ row) op = starts (str o) (str op) || begins_row row op

abbrev pub begins : List (List Op) → Op → Bool
begins [] op = false
begins (row ∷ rows) op = begins_row row op || begins rows op

-- Whether the operator stands in the row, and none before it begins it.
abbrev pub has_op : List Op → Op → Bool
has_op [] op = false
has_op (o ∷ row) op = same_op o op || not (starts (str o) (str op)) && has_op row op

-- An identifier other than the operator `defined`.
abbrev pub IsName : Text → Type 0
IsName [] = ⊥
IsName (c ∷ x) =
    (is_word c ≡ true)
    × ((leb 48 c && leb c 57) ≡ false)
    × (all_word x ≡ true)
    × (str_eq (codes "defined") (c ∷ x) ≡ false)

-- The value of a name, for unifdef: none for LT_ERROR, and none inside where it is not known.
abbrev pub entry_value : Option Symbol → Option (Option ℕ)
entry_value none = some none
entry_value (some s) = elim (symbol_value s.value) [ none ↦ none | some v ↦ some (some v) ]

abbrev pub is_defined_by : Option Text → Bool
is_defined_by none = false
is_defined_by (some t) = true

abbrev pub join : Option (Option ℕ) → Option ℕ
join none = none
join (some v) = v

abbrev pub entry_defined : Option Symbol → Option ℕ
entry_defined none = none
entry_defined (some s) = some (to_int (is_defined_by s.value))

abbrev pub not_known : Option ℕ → Option ℕ
not_known none = none
not_known (some v) = some (to_int (v == 0))

abbrev pub strict_known : (ℕ → ℕ → Bool) → Option ℕ → Option ℕ → Option ℕ
strict_known f none b = none
strict_known f (some a) none = none
strict_known f (some a) (some b) = some (to_int (f a b))

-- An operand that decides alone
abbrev pub is_known : Bool → Option ℕ → Bool
is_known at_zero none = false
is_known at_zero (some v) = if at_zero then v == 0 else not (v == 0)

abbrev pub op_known : Bool → Op → Option ℕ → Option ℕ → Option ℕ
op_known strictlogic op_or a b =
    if not strictlogic && (is_known false a || is_known false b)
    then some 1
    else strict_known (apply op_or) a b
op_known strictlogic op_and a b =
    if not strictlogic && (is_known true a || is_known true b)
    then some 0
    else strict_known (apply op_and) a b
op_known strictlogic op a b = strict_known (apply op) a b

abbrev pub or_0 : Option ℕ → ℕ
or_0 none = 0
or_0 (some v) = v

-- Two's complement in order: the least int, -2^31, is 0.
abbrev pub ordered : ℕ → ℕ
ordered a = (a + 2 ^ 31) % 2 ^ 32

-- What C says of an operator on two ints.
abbrev pub holds : Op → ℕ → ℕ → Bool
holds op_or a b = if a == 0 then not (b == 0) else true
holds op_and a b = if a == 0 then false else not (b == 0)
holds op_eq a b = a == b
holds op_ne a b = if a == b then false else true
holds op_le a b = leb (ordered a) (ordered b)
holds op_ge a b = leb (ordered b) (ordered a)
holds op_lt a b = ltb (ordered a) (ordered b)
holds op_gt a b = ltb (ordered b) (ordered a)

-- What C puts for a name: 0 where it is not defined, and the number that its value is.
abbrev pub replacement_value : Option Text → ℕ
replacement_value none = 0
replacement_value (some t) = number_value t

-- Whether no symbol occurs
unfoldable pub constant : {rows : List (List Op)} → Expr rows → Bool
constant (number t) = true
constant (name x) = false
constant (defined b x) = false
constant (negated e) = constant e
constant (parens e) = constant e
constant (tighter row inner e) = constant e
constant (binary row inner op a b) = constant a && constant b

module _ (syms : List Symbol) where
  -- The tokens are tokens, the operators stand in their rows and are begun by none of a later row (so
  -- it is in eval_ops), and the values of the symbols that are
  -- used are numbers.
  unfoldable pub IsValid : {rows : List (List Op)} → Expr rows → Type 0
  IsValid (number t) = IsNumber t
  IsValid (name x) = IsName x × ((v : Option ℕ) × (entry_value (lookup syms x) ≡ some v))
  IsValid (defined b x) = IsName x
  IsValid (negated e) = IsValid e
  IsValid (parens e) = IsValid e
  IsValid (tighter row inner e) = IsValid e
  IsValid (binary row inner op a b) =
      (has_op row op ≡ true) × (begins inner op ≡ false) × IsValid a × IsValid b

  -- The value, where unifdef knows it.
  unfoldable pub known_value : {rows : List (List Op)} → Bool → Expr rows → Option ℕ
  known_value strictlogic (number t) = some (number_value t)
  known_value strictlogic (name x) = join (entry_value (lookup syms x))
  known_value strictlogic (defined b x) = entry_defined (lookup syms x)
  known_value strictlogic (negated e) = not_known (known_value strictlogic e)
  known_value strictlogic (parens e) = known_value strictlogic e
  known_value strictlogic (tighter row inner e) = known_value strictlogic e
  known_value strictlogic (binary row inner op a b) =
      op_known strictlogic op (known_value strictlogic a) (known_value strictlogic b)

  -- The value for a compiler, whose numbers are what strtol reads: `others` says of a symbol that unifdef
  -- does not know whether it is defined, and its value.
  module _ (others : Text → Option ℕ) where
    abbrev pub name_value : Text → Option Symbol → ℕ
    name_value x none = or_0 (others x)
    name_value x (some s) = replacement_value s.value

    abbrev pub defined_in : Text → Option Symbol → Bool
    defined_in x none = elim (others x) [ none ↦ false | some v ↦ true ]
    defined_in x (some s) = is_defined_by s.value

    unfoldable pub compiled_value : {rows : List (List Op)} → Expr rows → ℕ
    compiled_value (number t) = number_value t
    compiled_value (name x) = name_value x (lookup syms x)
    compiled_value (defined b x) = to_int (defined_in x (lookup syms x))
    compiled_value (negated e) = to_int (compiled_value e == 0)
    compiled_value (parens e) = compiled_value e
    compiled_value (tighter row inner e) = compiled_value e
    compiled_value (binary row inner op a b) =
        to_int (holds op (compiled_value a) (compiled_value b))
