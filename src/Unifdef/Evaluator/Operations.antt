-- ===== src/Unifdef/Evaluator/Operations.antt =====
-- scripts/unifdef.c: the operators of #if expressions on values, and the table of their precedence.
use embtoolkit.Base.{
  ℕ, Bool, true, false, not, ◌&&◌, ◌||◌, List, [], ◌∷◌, Option, none, some, Text, codes, ◌==◌,
  if◌then◌else◌, starts,
}
use embtoolkit.Unifdef.Numerals.{less}

-- LT_IF, LT_TRUE and LT_FALSE
pub data Truth : Type 0 where
  lt_if lt_true lt_false : Truth

-- `v ? LT_TRUE : LT_FALSE`
abbrev pub truth : ℕ → Truth
truth v = if v == 0 then lt_false else lt_true

abbrev pub is_if : Truth → Bool
is_if lt_if = true
is_if _ = false

abbrev pub is_true : Truth → Bool
is_true lt_true = true
is_true _ = false

abbrev pub is_false : Truth → Bool
is_false lt_false = true
is_false _ = false

abbrev pub to_int : Bool → ℕ
to_int true = 1
to_int false = 0

-- The truth, and what is at the pointer `valp`.
abbrev pub Value : Type 0
Value = Truth × ℕ

-- `!v` where it is known
abbrev pub negate : Value → Value
negate (lt_if, v) = (lt_if, v)
negate (_, v) = (truth (to_int (v == 0)), to_int (v == 0))

pub data Op : Type 0 where
  op_or op_and op_eq op_ne op_le op_ge op_lt op_gt : Op

abbrev pub str : Op → Text
str op_or = codes "||"
str op_and = codes "&&"
str op_eq = codes "=="
str op_ne = codes "!="
str op_le = codes "<="
str op_ge = codes ">="
str op_lt = codes "<"
str op_gt = codes ">"

-- The operator on two ints, as C has it.
abbrev pub apply : Op → ℕ → ℕ → Bool
apply op_or a b = not (a == 0) || not (b == 0)
apply op_and a b = not (a == 0) && not (b == 0)
apply op_eq a b = a == b
apply op_ne a b = not (a == b)
apply op_le a b = not (less b a)
apply op_ge a b = not (less a b)
apply op_lt a b = less a b
apply op_gt a b = less b a

abbrev pub op_strict : Bool → Value → Value → Value
op_strict v (at, a) (bt, b) =
    if is_if at || is_if bt then (lt_if, a) else (truth (to_int v), to_int v)

-- `op->fn(valp, lt, *valp, rt, val)`, with -K as `strictlogic`.
abbrev pub op_fn : Bool → Op → Value → Value → Value
op_fn strictlogic op_or (at, a) (bt, b) =
    if not strictlogic && (is_true at || is_true bt)
    then (lt_true, 1)
    else op_strict (apply op_or a b) (at, a) (bt, b)
op_fn strictlogic op_and (at, a) (bt, b) =
    if not strictlogic && (is_false at || is_false bt)
    then (lt_false, 0)
    else op_strict (apply op_and a b) (at, a) (bt, b)
op_fn strictlogic op (at, a) (bt, b) = op_strict (apply op a b) (at, a) (bt, b)

-- The rows of eval_ops. Behind the last row comes eval_unary.
abbrev pub eval_ops : List (List Op)
eval_ops =
    (op_or ∷ []) ∷ (op_and ∷ []) ∷ (op_eq ∷ op_ne ∷ []) ∷ (op_le ∷ op_ge ∷ op_lt ∷ op_gt ∷ []) ∷ []

-- The loop over the operators of a row
unfoldable pub find_op : List Op → Text → Option Op
find_op [] cp = none
find_op (op ∷ ops) cp = let rest = find_op ops cp in if starts (str op) cp then some op else rest
