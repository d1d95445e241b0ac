-- ===== src/Kconfig/Expr/Extract.antt =====
-- scripts/kconfig/expr.c: expr_extract_eq, expr_extract_eq_and and expr_extract_eq_or, which take
-- the operands that two expressions share out of both and return them joined.
pub mod Correct
use embtoolkit.Base.{ℕ, zero, suc, ◌≡◌, Bool, true, false, Option, none, some, if◌then◌else◌, ◌>>=◌}
use embtoolkit.Kconfig.Expr.{Expr}
use embtoolkit.Kconfig.Expr.Yn.{expr_eliminate_yn}
use embtoolkit.Kconfig.Expr.Eq.{Junction, or_type, and_type, operands, join, neutral, expr_eq}

-- What `*ep`, `*ep1` and `*ep2` point to.
pub record Extraction : Type 0 where
  pub shared : Option Expr
  pub first : Expr
  pub second : Expr

-- `*ep ? expr_alloc_two(type, *ep, e1) : e1`
abbrev pub add_shared : Junction → Option Expr → Expr → Expr
add_shared type none e1 = e1
add_shared type (some e) e1 = join type e e1

-- The body of expr_extract_eq, given the calls that it makes and the operands of `e1` and of `e2`,
-- for those of them that are of the type.
abbrev pub extract_node :
    (Expr → Expr → Option Bool)
    → (Option Expr → Expr → Expr → Option Extraction)
    → Junction
    → Option Expr
    → Expr
    → Expr
    → Option (Expr × Expr)
    → Option (Expr × Expr)
    → Option Extraction
extract_node eq again type ep e1 e2 (some (l, r)) o2 = do
  a ← again ep l e2
  b ← again a.shared r a.second
  some (record { shared = b.shared; first = join type a.first b.first; second = b.second })
extract_node eq again type ep e1 e2 none (some (l, r)) = do
  a ← again ep e1 l
  b ← again a.shared a.first r
  some (record { shared = b.shared; first = b.first; second = join type a.second b.second })
extract_node eq again type ep e1 e2 none none = do
  same ← eq e1 e2
  some (
      if same
      then record {
        shared = some (add_shared type ep e1);
        first = neutral type;
        second = neutral type;
      }
      else record { shared = ep; first = e1; second = e2 })

-- expr_extract_eq
unfoldable pub expr_extract_eq : ℕ → Junction → Option Expr → Expr → Expr → Option Extraction
expr_extract_eq zero type ep e1 e2 = none
expr_extract_eq (suc f) type ep e1 e2 =
    extract_node (expr_eq f) (expr_extract_eq f type) type ep e1 e2 (operands type e1)
      (operands type e2)

-- The end of expr_extract_eq_and and expr_extract_eq_or: `if (tmp)`.
abbrev pub tidy : Option Expr → Expr → Expr → Extraction
tidy none e1 e2 = record { shared = none; first = e1; second = e2 }
tidy (some e) e1 e2 = record {
  shared = some e;
  first = expr_eliminate_yn e1;
  second = expr_eliminate_yn e2;
}

abbrev pub extract_and_tidy : ℕ → Junction → Expr → Expr → Option Extraction
extract_and_tidy f type e1 e2 = do
  x ← expr_extract_eq f type none e1 e2
  some (tidy x.shared x.first x.second)

-- expr_extract_eq_and
unfoldable pub expr_extract_eq_and : ℕ → Expr → Expr → Option Extraction
expr_extract_eq_and f e1 e2 = extract_and_tidy f and_type e1 e2

-- expr_extract_eq_or
unfoldable pub expr_extract_eq_or : ℕ → Expr → Expr → Option Extraction
expr_extract_eq_or f e1 e2 = extract_and_tidy f or_type e1 e2
