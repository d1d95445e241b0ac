-- ===== src/Kconfig/Confdata/File.antt =====
-- scripts/kconfig/confdata.c: a whole file of written symbols, read back.
use embtoolkit.Base.{
  ℕ, ◌≡◌, refl, sym, ap, ◌∙◌, subst, Bool, true, false, ◌&&◌, List, [], ◌∷◌, map, Option, none,
  some, Text, if◌then◌else◌, arith, Bool-cases, inl, inr, str_eq, str_eq_refl,
}
use embtoolkit.Kconfig.Symbol.{SymbolType}
use embtoolkit.Kconfig.Confdata.Line.{is_not_set, set_to, conf_write_symbol, is_bool, at_n}
use embtoolkit.Kconfig.Confdata.Statement.{IsName, IsValue, shown, read_statement-write}
use embtoolkit.Kconfig.Confdata.Store.{
  Slot, Assigned, conf_set_sym_val, Store, put, set_choice, at_symbol, unset, follow_statement,
  read_line, read_lines, is_other, reset,
}
use embtoolkit.Kconfig.Confdata.RoundTrip.{Represents, assign_of, assign_of-Represents}

-- A symbol that is written, with its value.
pub record Setting : Type 0 where
  pub sym_type : SymbolType
  pub name : Text
  pub value : Text

abbrev pub line_of : Setting → Text
line_of e = conf_write_symbol e.sym_type e.name e.value

abbrev pub All : {A : Type 0} → (A → Type 0) → List A → Type 0
All P [] = Unit
All P (x ∷ xs) = P x × All P xs

abbrev pub Other : Text → Setting → Type 0
Other m e = str_eq m e.name ≡ false

abbrev pub Distinct : List Setting → Type 0
Distinct [] = Unit
Distinct (e ∷ es) = All (Other e.name) es × Distinct es

-- The symbol is known by its name and type, and has a value of the type.
abbrev pub IsWritable : Store → Setting → Type 0
IsWritable s e =
    (s.known e.name ≡ true)
    × ((s.slots e.name).sym_type ≡ e.sym_type)
    × IsName e.name
    × IsValue e.sym_type e.value

abbrev assigned : Store → Setting → Slot
assigned s e = (assign_of e.sym_type e.value (s.slots e.name)).0

set_choice-slots :
    (s : Store) (name : Text) (c : Option ℕ)
    → ((set_choice s name c).slots ≡ s.slots) × ((set_choice s name c).known ≡ s.known)
set_choice-slots s name none = (refl, refl)
set_choice-slots s name (some i) = (refl, refl)

at_symbol-slots :
    (f : Slot → Assigned) (s : Store) (name : Text)
    → s.known name ≡ true
    → ((at_symbol f s name).slots ≡ put s.slots name (f (s.slots name)).0)
      × ((at_symbol f s name).known ≡ s.known)
at_symbol-slots f s name k =
    let t = record s { slots = put s.slots name (f (s.slots name)).0 } in
    let c = set_choice-slots t name (s.choice_of name) in
    elim (Bool-cases (f (s.slots name)).1) [
      | inl e ↦ simp (k, e) (refl, refl)
      | inr e ↦ simp (k, e) c
    ]

follow_choice :
    (b : Bool) (name value : Text) (s : Store)
    → follow_statement (if b then is_not_set name else set_to name value) s
      ≡ at_symbol (λ slot. if b then unset slot else conf_set_sym_val slot value) s name
follow_choice true name value s = refl
follow_choice false name value s = refl

read_line-write :
    (e : Setting) (s : Store)
    → IsName e.name
    → IsValue e.sym_type e.value
    → read_line (line_of e) s ≡ at_symbol (assign_of e.sym_type e.value) s e.name
unfolding read_line
read_line-write e s n h =
    ap (λ t. follow_statement t s) (read_statement-write e.sym_type e.name e.value n h)
    ∙ follow_choice (is_bool e.sym_type && at_n e.value) e.name (shown e.sym_type e.value) s

-- A line that was written changes the slot of its symbol only.
read_line-slots :
    (e : Setting) (s : Store)
    → IsWritable s e
    → ((read_line (line_of e) s).slots ≡ put s.slots e.name (assigned s e))
      × ((read_line (line_of e) s).known ≡ s.known)
read_line-slots e s w =
    subst (λ t. (t.slots ≡ put s.slots e.name (assigned s e)) × (t.known ≡ s.known))
      (sym (read_line-write e s w.2 w.3))
      (at_symbol-slots (assign_of e.sym_type e.value) s e.name w.0)

str_eq_comm : (s t : Text) → str_eq s t ≡ str_eq t s
str_eq_comm [] [] = refl
str_eq_comm [] (b ∷ t) = refl
str_eq_comm (a ∷ s) [] = refl
str_eq_comm (a ∷ s) (b ∷ t) = ground (arith, str_eq_comm s t)

put-other :
    (f : Text → Slot) (name : Text) (a : Slot) (m : Text)
    → str_eq m name ≡ false
    → put f name a m ≡ f m
put-other f name a m h = rw (h, put)

put_self : (f : Text → Slot) (name : Text) (a : Slot) → put f name a name ≡ a
put_self f name a = rw (str_eq_refl name, put)

module _ (e : Setting) (s : Store) (w : IsWritable s e) where
  read_line-other :
      (m : Text) → str_eq m e.name ≡ false → (read_line (line_of e) s).slots m ≡ s.slots m
  read_line-other m h =
      ap (λ f. f m) (read_line-slots e s w).0 ∙ put-other s.slots e.name (assigned s e) m h

  read_line_self : (read_line (line_of e) s).slots e.name ≡ assigned s e
  read_line_self =
      ap (λ f. f e.name) (read_line-slots e s w).0 ∙ put_self s.slots e.name (assigned s e)

  read_line-IsWritable :
      (es : List Setting)
      → All (Other e.name) es
      → All (IsWritable s) es
      → All (IsWritable (read_line (line_of e) s)) es
  read_line-IsWritable [] d v = tt
  read_line-IsWritable (x ∷ es) d v =
      let o = read_line-other x.name (str_eq_comm x.name e.name ∙ d.0) in
      (
        (
          ap (λ f. f x.name) (read_line-slots e s w).1 ∙ v.0.0,
          ap (λ slot. slot.sym_type) o ∙ v.0.1,
          v.0.2,
          v.0.3,
        ),
        read_line-IsWritable es d.1 v.1,
      )

-- Slots of other symbols stay as they are.
read_lines-Other :
    (es : List Setting) (s : Store) (m : Text)
    → Distinct es
    → All (IsWritable s) es
    → All (Other m) es
    → (read_lines (map line_of es) s).slots m ≡ s.slots m
unfolding read_lines
read_lines-Other [] s m d w o = refl
read_lines-Other (e ∷ es) s m d w o =
    read_lines-Other es (read_line (line_of e) s) m d.1 (read_line-IsWritable e s w.0 es d.0 w.1)
      o.1
    ∙ read_line-other e s w.0 m o.0

abbrev pub Restored : Store → Setting → Type 0
Restored s e = Represents e.sym_type e.value (s.slots e.name)

All-map :
    {A : Type 0} (P Q : A → Type 0) (xs : List A) → ((x : A) → P x → Q x) → All P xs → All Q xs
All-map P Q [] k h = tt
All-map P Q (x ∷ xs) k h = (k x h.0, All-map P Q xs k h.1)

read_lines-Restored :
    (es : List Setting) (s : Store)
    → Distinct es
    → All (IsWritable s) es
    → All (Restored (read_lines (map line_of es) s)) es
unfolding read_lines
read_lines-Restored [] s d w = tt
read_lines-Restored (e ∷ es) s d w =
    let t = read_line (line_of e) s in
    let v = read_line-IsWritable e s w.0 es d.0 w.1 in
    (
      subst (Represents e.sym_type e.value)
          (sym (read_lines-Other es t e.name d.1 v d.0 ∙ read_line_self e s w.0))
          (assign_of-Represents e.sym_type e.value (s.slots e.name) w.0.1 w.0.3),
      read_lines-Restored es t d.1 v,
    )

-- Symbols with distinct names, known by them, each written with a value of its type: reading the
-- lines after the reset gives each symbol its value back and leaves every other symbol unset, but one of
-- the type S_OTHER, which is set exactly where it was.
pub read_lines-write :
    (es : List Setting) (s : Store)
    → Distinct es
    → All (IsWritable s) es
    → All (Restored (read_lines (map line_of es) (reset s))) es
      × ((m : Text)
          → All (Other m) es
          → ((read_lines (map line_of es) (reset s)).slots m).is_set
            ≡ (is_other (s.slots m).sym_type && (s.slots m).is_set))
unfolding reset
read_lines-write es s d w = (
  read_lines-Restored es (reset s) d w,
  λ m o. ap (λ slot. slot.is_set) (read_lines-Other es (reset s) m d w o),
)
