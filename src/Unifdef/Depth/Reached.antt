-- ===== src/Unifdef/Depth/Reached.antt =====
-- scripts/unifdef.c: the transition functions and the driver keep the nesting depth right.
use embtoolkit.Base.{
  ◌+◌, ◌≡◌, ◌≢◌, refl, Bool, true, false, ap, ◌∙◌, ◌≤◌, not, List, [], ◌∷◌, if◌then◌else◌,
  Bool-cases, inl, inr, codes, ◌==◌, arith,
}
use embtoolkit.Unifdef.{
  unevaluable, Ifstate, outside, false_prefix, true_prefix, pass_middle, false_middle, true_middle,
  pass_else, false_else, true_else, false_trailer, Action, eelif, eelse, eendif, eeof, eioccc,
  print, drop, strue, sfalse, selse, pelif, pelse, pendif, dfalse, delif, delse, dendif, fdrop,
  fpass, ftrue, ffalse, oiffy, oif, oelif, idrop, itrue, ifalse, mpass, mtrue, melif, melse, done,
  abort, transition,
}
use embtoolkit.Unifdef.Machine.{
  Line, Options, State, eof_in_comment, Outcome, failed, finished, ◌⨾◌, flushline, ignoreoff,
  ignoreon, nest, unnest, set_state, finish, drop_to, pass_to, pedantic, perform, step, process,
  initial, whole, keyword_if, keyword_edit,
}
use embtoolkit.Unifdef.Depth.{
  IsValid, IsOpen, Reaches, Reaches-then, flushline-IsOpen, flushline-IsValid, ignoreoff-Reaches,
  ignoreon-Reaches, set_state-Reaches, nest-Reaches, unnest-Reaches, IsValid-IsOpen, IsValid-same,
}
use embtoolkit.Unifdef.Depth.Table.{
  Place, anywhere, within, at_end, never, place, allowed, is_outside, transition-allowed,
}

-- What a function called at a place needs.
Needs : Place → State → Type 0
Needs anywhere s = IsValid s
Needs within s = IsOpen s
Needs at_end s = IsValid s × (s.depth ≡ 0)
Needs never s = ⊥

Reaches-if :
    (P : State → Type 0) (b : Bool) (m n : Outcome)
    → Reaches P m
    → Reaches P n
    → Reaches P (if b then m else n)
Reaches-if P true m n h k = h
Reaches-if P false m n h k = k

finish-Reaches : (s : State) → IsValid s → s.depth ≡ 0 → Reaches IsValid (finish s)
unfolding finish
finish-Reaches s h d =
    Reaches-if IsValid s.incomment (failed eof_in_comment s) (finished s) h (h, d)

module _ (o : Options) where
  drop_to-Reaches :
      (x : Ifstate) (l : Line) (s : State)
      → x ≢ outside
      → IsOpen s
      → Reaches IsValid (drop_to o x l s)
  drop_to-Reaches x l s ne h =
      let t = flushline o false (whole l) s in
      Reaches-then IsOpen IsValid (ignoreoff t) (set_state x)
        (ignoreoff-Reaches t (flushline-IsOpen o false (whole l) s h))
        (λ u. set_state-Reaches x u ne)

  pass_to-Reaches : (l : Line) (s : State) → IsOpen s → Reaches IsValid (pass_to o l s)
  pass_to-Reaches l s h =
      let t = flushline o true (whole l) s in
      Reaches-then IsOpen IsValid (ignoreoff t) (set_state pass_middle)
        (ignoreoff-Reaches t (flushline-IsOpen o true (whole l) s h))
        (λ u. set_state-Reaches pass_middle u (λ e. cc))

  nest-drop_to :
      (x : Ifstate) (l : Line) (s : State)
      → x ≢ outside
      → IsValid s
      → Reaches IsValid (nest s ⨾ drop_to o x l)
  nest-drop_to x l s ne h =
      Reaches-then IsOpen IsValid (nest s) (drop_to o x l) (nest-Reaches s h)
        (λ t. drop_to-Reaches x l t ne)

  nest-pass_to : (l : Line) (s : State) → IsValid s → Reaches IsValid (nest s ⨾ pass_to o l)
  nest-pass_to l s h =
      Reaches-then IsOpen IsValid (nest s) (pass_to o l) (nest-Reaches s h) (pass_to-Reaches l)

  pedantic-nest-pass_to :
      (l : Line) (s : State) → IsValid s → Reaches IsValid (pedantic o s ⨾ nest ⨾ pass_to o l)
  pedantic-nest-pass_to l s h = elim (Bool-cases o.iocccok) [
    | inl e ↦ simp e (nest-pass_to l s h)
    | inr e ↦ simp e h
  ]

  pedantic-pass_to :
      (l : Line) (s : State) → IsValid s → IsOpen s → Reaches IsValid (pedantic o s ⨾ pass_to o l)
  pedantic-pass_to l s v h = elim (Bool-cases o.iocccok) [
    | inl e ↦ simp e (pass_to-Reaches l s h)
    | inr e ↦ simp e v
  ]

  then-ignoreon : (m : Outcome) → Reaches IsValid m → Reaches IsValid (m ⨾ ignoreon)
  then-ignoreon m h = Reaches-then IsValid IsValid m ignoreon h ignoreon-Reaches

  flushline-then :
      (Q : State → Type 0) (keep : Bool) (l : Line) (s : State) (f : State → Outcome)
      → IsOpen s
      → ((t : State) → IsOpen t → Reaches Q (f t))
      → Reaches Q (f (flushline o keep (whole l) s))
  flushline-then Q keep l s f h k =
      k (flushline o keep (whole l) s) (flushline-IsOpen o keep (whole l) s h)

  flushline-set_state :
      (keep : Bool) (x : Ifstate) (l : Line) (s : State)
      → x ≢ outside
      → IsOpen s
      → Reaches IsValid (set_state x (flushline o keep (whole l) s))
  flushline-set_state keep x l s ne h =
      flushline-then IsValid keep l s (set_state x) h (λ t. set_state-Reaches x t ne)

  flushline-unnest :
      (keep : Bool) (l : Line) (s : State)
      → IsOpen s
      → Reaches IsValid (unnest (flushline o keep (whole l) s))
  flushline-unnest keep l s h = flushline-then IsValid keep l s unnest h unnest-Reaches

  perform-Reaches :
      (a : Action) (l : Line) (s : State)
      → IsValid s
      → Needs (place a) s
      → Reaches IsValid (perform o a l s)
  unfolding perform Needs place finish nest unnest ignoreoff ignoreon set_state
  perform-Reaches eelif l s v h = h
  perform-Reaches eelse l s v h = h
  perform-Reaches eendif l s v h = h
  perform-Reaches eeof l s v h = h
  perform-Reaches eioccc l s v h = h
  perform-Reaches print l s v h = flushline-IsValid o true (whole l) s h
  perform-Reaches drop l s v h = flushline-IsValid o false (whole l) s h
  perform-Reaches strue l s v h = drop_to-Reaches true_prefix l s (λ e. cc) h
  perform-Reaches sfalse l s v h = drop_to-Reaches false_prefix l s (λ e. cc) h
  perform-Reaches selse l s v h = flushline-set_state false true_else l s (λ e. cc) h
  perform-Reaches pelif l s v h = pass_to-Reaches l s h
  perform-Reaches pelse l s v h = flushline-set_state true pass_else l s (λ e. cc) h
  perform-Reaches pendif l s v h = flushline-unnest true l s h
  perform-Reaches dfalse l s v h = drop_to-Reaches false_trailer l s (λ e. cc) h
  perform-Reaches delif l s v h = drop_to-Reaches false_middle l s (λ e. cc) h
  perform-Reaches delse l s v h = flushline-set_state false false_else l s (λ e. cc) h
  perform-Reaches dendif l s v h = flushline-unnest false l s h
  perform-Reaches fdrop l s v h = nest-drop_to false_trailer l s (λ e. cc) h
  perform-Reaches fpass l s v h = nest-pass_to l s h
  perform-Reaches ftrue l s v h = nest-drop_to true_prefix l s (λ e. cc) h
  perform-Reaches ffalse l s v h = nest-drop_to false_prefix l s (λ e. cc) h
  perform-Reaches oiffy l s v h =
      then-ignoreon (pedantic o s ⨾ nest ⨾ pass_to o l) (pedantic-nest-pass_to l s h)
  perform-Reaches oif l s v h = pedantic-nest-pass_to l s h
  perform-Reaches oelif l s v h = pedantic-pass_to l s v h
  perform-Reaches idrop l s v h =
      then-ignoreon (nest s ⨾ drop_to o false_trailer l)
        (nest-drop_to false_trailer l s (λ e. cc) h)
  perform-Reaches itrue l s v h =
      then-ignoreon (nest s ⨾ drop_to o true_prefix l) (nest-drop_to true_prefix l s (λ e. cc) h)
  perform-Reaches ifalse l s v h =
      then-ignoreon (nest s ⨾ drop_to o false_prefix l) (nest-drop_to false_prefix l s (λ e. cc) h)
  perform-Reaches mpass l s v h = pass_to-Reaches (keyword_if l) s h
  perform-Reaches mtrue l s v h =
      flushline-set_state true true_middle (keyword_edit o (codes "else") l) s (λ e. cc) h
  perform-Reaches melif l s v h =
      flushline-set_state true false_trailer (keyword_edit o (codes "endif") l) s (λ e. cc) h
  perform-Reaches melse l s v h =
      flushline-set_state true false_else (keyword_edit o (codes "endif") l) s (λ e. cc) h
  perform-Reaches done l s v h = finish-Reaches s h.0 h.1
  perform-Reaches abort l s v h = h

is_outside-true : (i : Ifstate) → is_outside i ≡ true → i ≡ outside
unfolding is_outside
is_outside-true outside h = refl
is_outside-true false_prefix h = absurd cc
is_outside-true true_prefix h = absurd cc
is_outside-true pass_middle h = absurd cc
is_outside-true false_middle h = absurd cc
is_outside-true true_middle h = absurd cc
is_outside-true pass_else h = absurd cc
is_outside-true false_else h = absurd cc
is_outside-true true_else h = absurd cc
is_outside-true false_trailer h = absurd cc

-- The bottom state is the only one that is IS_OUTSIDE.
outside-depth : (s : State) → IsValid s → s.ifstate s.depth ≡ outside → s.depth ≡ 0
outside-depth s v h = elim (Bool-cases (s.depth == 0)) [
  | inl e ↦ ground arith
  | inr e ↦ absurd (v.nested s.depth (ground arith) (omega arith) h)
]

depth-outside : (s : State) → IsValid s → is_outside (s.ifstate s.depth) ≡ false → 1 ≤ s.depth
unfolding is_outside
depth-outside s v h = elim (Bool-cases (s.depth == 0)) [
  | inl e ↦
      let d : s.depth ≡ 0 = ground arith in
      let b = ap s.ifstate d ∙ v.base in absurd (cc (ap is_outside b, h))
  | inr e ↦ ground arith
]

not-true : (b : Bool) → not b ≡ true → b ≡ false
not-true true h = absurd cc
not-true false h = refl

allowed-Needs :
    (p : Place) (s : State) → IsValid s → allowed (s.ifstate s.depth) p ≡ true → Needs p s
unfolding Needs allowed
allowed-Needs anywhere s v h = v
allowed-Needs within s v h =
    IsValid-IsOpen s (depth-outside s v (not-true (is_outside (s.ifstate s.depth)) h)) v
allowed-Needs at_end s v h = (v, outside-depth s v (is_outside-true (s.ifstate s.depth) h))
allowed-Needs never s v h = absurd cc

pub initial-IsValid : IsValid initial
initial-IsValid = record { base = refl; nested = λ k a b. absurd (omega arith); fits = omega arith }

-- parseline returns no LT_ERROR: ifeval makes LT_IF of it.
abbrev pub Evaluable : List Line → Type 0
Evaluable [] = Unit
Evaluable (l ∷ ls) = (l.linetype ≢ unevaluable) × Evaluable ls

module _ (o : Options) where
  pub step-Reaches :
      (l : Line) (s : State) → l.linetype ≢ unevaluable → IsValid s → Reaches IsValid (step o l s)
  unfolding step
  step-Reaches l s ne v =
      let i = s.ifstate s.depth in
      let t = record s { linenum = s.linenum + 1; incomment = l.incomment } in
      let w = IsValid-same s t refl refl v in
      perform-Reaches o (transition i l.linetype) l t w
        (allowed-Needs (place (transition i l.linetype)) t w (transition-allowed i l.linetype ne))

  -- From a state where the bottom of the stack is IS_OUTSIDE, nothing else on it is and the depth is
  -- below MAXDEPTH, and over lines without LT_ERROR, process keeps the state so or ends the program
  -- by an error or by done; done is called at depth 0 only, and abort() is never called.
  pub process-Reaches :
      (ls : List Line) (s : State) → Evaluable ls → IsValid s → Reaches IsValid (process o ls s)
  unfolding process
  process-Reaches [] s ne v = v
  process-Reaches (l ∷ ls) s ne v =
      Reaches-then IsValid IsValid (step o l s) (process o ls) (step-Reaches l s ne.0 v)
        (λ t. process-Reaches ls t ne.1)
