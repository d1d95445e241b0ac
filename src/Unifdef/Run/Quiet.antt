-- ===== src/Unifdef/Run/Quiet.antt =====
-- scripts/unifdef.c: which transition functions leave `ignoring` false at all levels.
use embtoolkit.Base.{
  ℕ, ◌+◌, ◌-◌, ◌≡◌, refl, ◌∙◌, Bool, true, false, not, ◌&&◌, ◌==◌, if◌then◌else◌, ltb, Text, codes,
  subst, arith, Bool-cases, inl, inr,
}
use embtoolkit.Unifdef.{
  truei, falsei, Linetype, directive, plain, eof, Ifstate, false_prefix, true_prefix, pass_middle,
  false_middle, false_trailer, Action, eelif, eelse, eendif, eeof, eioccc, print, drop, strue,
  sfalse, selse, pelif, pelse, pendif, dfalse, delif, delse, dendif, fdrop, fpass, ftrue, ffalse,
  oiffy, oif, oelif, idrop, itrue, ifalse, mpass, mtrue, melif, melse, done, abort, transition,
}
use embtoolkit.Unifdef.Machine.{
  Options, State, Line, Outcome, running, failed, finished, aborted, too_many_levels, flush_kept,
  flush_deleted, ◌⨾◌, flushline, is_blank, differ, ignoreoff, nest, unnest, set_state, perform,
  pedantic, update, finish, step, maxdepth, whole, eof_in_comment, obfuscated, keyword_if,
  keyword_edit, drop_to, pass_to,
}

-- The actions that do not call ignoreon
abbrev pub quiet : Action → Bool
quiet oiffy = false
quiet idrop = false
quiet itrue = false
quiet ifalse = false
quiet _ = true

-- The lines whose directives stand on one line and ignore no text.
abbrev pub quiet_type : Linetype → Bool
quiet_type (directive truei) = false
quiet_type (directive falsei) = false
quiet_type (directive d) = true
quiet_type plain = true
quiet_type eof = true
quiet_type _ = false

transition-quiet :
    (x : Ifstate) (t : Linetype) → quiet_type t ≡ true → quiet (transition x t) ≡ true
transition-quiet x t h = ground (arith, h)

-- Nothing is ignored.
abbrev pub Clear : State → Type 0
Clear s = (k : ℕ) → s.ignoring k ≡ false

abbrev Keeps : Outcome → Type 0
Keeps (running s) = Clear s
Keeps _ = Unit

then-Keeps :
    (r : Outcome) (f : State → Outcome)
    → Keeps r
    → ((s : State) → Clear s → Keeps (f s))
    → Keeps (r ⨾ f)
then-Keeps (running s) f h g = g s h
then-Keeps (failed m s) f h g = tt
then-Keeps (finished s) f h g = tt
then-Keeps aborted f h g = tt

if-Keeps : (b : Bool) (p q : Outcome) → Keeps p → Keeps q → Keeps (if b then p else q)
if-Keeps true p q h k = h
if-Keeps false p q h k = k

if-same :
    {v : Bool} (b : Bool) (s t : State) (k : ℕ)
    → s.ignoring k ≡ v
    → t.ignoring k ≡ v
    → (if b then s else t).ignoring k ≡ v
if-same true s t k h g = h
if-same false s t k h g = g

flush_kept-ignoring :
    (o : Options) (t : Text) (s : State) (k : ℕ) → (flush_kept o t s).ignoring k ≡ s.ignoring k
flush_kept-ignoring o t s k =
    elim (Bool-cases (is_blank t && (o.compblank && not (s.blankcount == s.blankmax)))) [
      | inl e ↦ simp e
      | inr e ↦ simp e
    ]

flushline-Clear :
    (o : Options) (keep : Bool) (t : Text) (s : State) → Clear s → Clear (flushline o keep t s)
unfolding flushline
flushline-Clear o keep t s h k =
    if-same (o.symlist) s (if differ keep o.complement then flush_kept o t s else flush_deleted o s)
      k refl
      (if-same (differ keep o.complement) (flush_kept o t s) (flush_deleted o s) k
        (flush_kept-ignoring o t s k) refl)
    ∙ h k

update-clear :
    (f : ℕ → Bool) (i k : ℕ) → ((k : ℕ) → f k ≡ false) → (j : ℕ) → update f i (f j) k ≡ false
update-clear f i k h j = elim (Bool-cases (k == i)) [ inl e ↦ simp (e, h) | inr e ↦ simp (e, h) ]

ignoreoff-Keeps : (s : State) → Clear s → Keeps (ignoreoff s)
unfolding ignoreoff
ignoreoff-Keeps s h = elim (Bool-cases (s.depth == 0)) [
  | inl e ↦ rw e tt
  | inr e ↦ rw e (λ k. update-clear s.ignoring s.depth k h (s.depth - 1))
]

nest-Keeps : (s : State) → Clear s → Keeps (nest s)
unfolding nest
nest-Keeps s h =
    if-Keeps (ltb (maxdepth - 1) s.depth) aborted _ tt
      (if-Keeps (s.depth == maxdepth - 1) (failed too_many_levels s) _ tt h)

unnest-Keeps : (s : State) → Clear s → Keeps (unnest s)
unfolding unnest
unnest-Keeps s h = elim (Bool-cases (s.depth == 0)) [ inl e ↦ rw e tt | inr e ↦ rw e h ]

set_state-Keeps : (x : Ifstate) (s : State) → Clear s → Keeps (set_state x s)
unfolding set_state
set_state-Keeps x s h = h

finish-Keeps : (s : State) → Clear s → Keeps (finish s)
unfolding finish
finish-Keeps s h = if-Keeps s.incomment (failed eof_in_comment s) (finished s) tt tt

module _ (o : Options) where
  flushed-Clear :
      (keep : Bool) (l : Line) (s : State) → Clear s → Clear (flushline o keep (whole l) s)
  flushed-Clear keep l s h = flushline-Clear o keep (whole l) s h

  drop_to-Keeps : (x : Ifstate) (l : Line) (s : State) → Clear s → Keeps (drop_to o x l s)
  drop_to-Keeps x l s h =
      let f = flushline o false (whole l) s in
      then-Keeps (ignoreoff f) (set_state x) (ignoreoff-Keeps f (flushed-Clear false l s h))
        (set_state-Keeps x)

  pass_to-Keeps : (l : Line) (s : State) → Clear s → Keeps (pass_to o l s)
  pass_to-Keeps l s h =
      let f = flushline o true (whole l) s in
      then-Keeps (ignoreoff f) (set_state pass_middle)
        (ignoreoff-Keeps f (flushed-Clear true l s h)) (set_state-Keeps pass_middle)

  pedantic-Keeps : (s : State) → Clear s → Keeps (pedantic o s)
  pedantic-Keeps s h = if-Keeps o.iocccok (running s) (failed obfuscated s) h tt

  perform-Keeps :
      (a : Action) (l : Line) (s : State) → quiet a ≡ true → Clear s → Keeps (perform o a l s)
  unfolding perform set_state
  perform-Keeps eelif l s q h = tt
  perform-Keeps eelse l s q h = tt
  perform-Keeps eendif l s q h = tt
  perform-Keeps eeof l s q h = tt
  perform-Keeps eioccc l s q h = tt
  perform-Keeps print l s q h = flushed-Clear true l s h
  perform-Keeps drop l s q h = flushed-Clear false l s h
  perform-Keeps strue l s q h = drop_to-Keeps true_prefix l s h
  perform-Keeps sfalse l s q h = drop_to-Keeps false_prefix l s h
  perform-Keeps selse l s q h = flushed-Clear false l s h
  perform-Keeps pelif l s q h = pass_to-Keeps l s h
  perform-Keeps pelse l s q h = flushed-Clear true l s h
  perform-Keeps pendif l s q h = unnest-Keeps _ (flushed-Clear true l s h)
  perform-Keeps dfalse l s q h = drop_to-Keeps false_trailer l s h
  perform-Keeps delif l s q h = drop_to-Keeps false_middle l s h
  perform-Keeps delse l s q h = flushed-Clear false l s h
  perform-Keeps dendif l s q h = unnest-Keeps _ (flushed-Clear false l s h)
  perform-Keeps fdrop l s q h =
      then-Keeps (nest s) _ (nest-Keeps s h) (drop_to-Keeps false_trailer l)
  perform-Keeps fpass l s q h = then-Keeps (nest s) _ (nest-Keeps s h) (pass_to-Keeps l)
  perform-Keeps ftrue l s q h = then-Keeps (nest s) _ (nest-Keeps s h) (drop_to-Keeps true_prefix l)
  perform-Keeps ffalse l s q h =
      then-Keeps (nest s) _ (nest-Keeps s h) (drop_to-Keeps false_prefix l)
  perform-Keeps oiffy l s q h = cc
  perform-Keeps oif l s q h =
      then-Keeps (pedantic o s ⨾ nest) (pass_to o l)
        (then-Keeps (pedantic o s) nest (pedantic-Keeps s h) nest-Keeps) (pass_to-Keeps l)
  perform-Keeps oelif l s q h =
      then-Keeps (pedantic o s) (pass_to o l) (pedantic-Keeps s h) (pass_to-Keeps l)
  perform-Keeps idrop l s q h = cc
  perform-Keeps itrue l s q h = cc
  perform-Keeps ifalse l s q h = cc
  perform-Keeps mpass l s q h = pass_to-Keeps (keyword_if l) s h
  perform-Keeps mtrue l s q h = flushed-Clear true (keyword_edit o (codes "else") l) s h
  perform-Keeps melif l s q h = flushed-Clear true (keyword_edit o (codes "endif") l) s h
  perform-Keeps melse l s q h = flushed-Clear true (keyword_edit o (codes "endif") l) s h
  perform-Keeps done l s q h = finish-Keeps s h
  perform-Keeps abort l s q h = tt

  -- A line that ignores no text leaves nothing ignored.
  pub step-Clear :
      (l : Line) (s s' : State)
      → quiet_type l.linetype ≡ true
      → Clear s
      → step o l s ≡ running s'
      → Clear s'
  unfolding step
  step-Clear l s s' q h e =
      let s1 : State = record s { linenum = s.linenum + 1; incomment = l.incomment } in
      let k =
        perform-Keeps (transition (s.ifstate s.depth) l.linetype) l s1
          (transition-quiet (s.ifstate s.depth) l.linetype q) h in
      subst Keeps e k
