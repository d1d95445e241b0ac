-- ===== src/Unifdef/Numbers/Flushed.antt =====
-- scripts/unifdef.c: every transition function that goes on has flushed one line, and writes nothing
-- else; what it does to the stack of states is not seen in the output.
use embtoolkit.Base.{
  ℕ, ◌+◌, Bool, true, false, List, [], ◌∷◌, Bool-cases, inl, inr, codes, ◌==◌, ltb, Text, ◌≡◌, refl,
}
use embtoolkit.Unifdef.{
  Ifstate, false_prefix, true_prefix, pass_middle, false_middle, false_trailer, Action, eelif,
  eelse, eendif, eeof, eioccc, print, drop, strue, sfalse, selse, pelif, pelse, pendif, dfalse,
  delif, delse, dendif, fdrop, fpass, ftrue, ffalse, oiffy, oif, oelif, idrop, itrue, ifalse, mpass,
  mtrue, melif, melse, done, abort, transition,
}
use embtoolkit.Unifdef.Machine.{
  Line, Options, State, Outcome, running, failed, finished, aborted, ◌⨾◌, flushline, ignoreoff,
  ignoreon, nest, unnest, set_state, finish, drop_to, pass_to, pedantic, perform, step, process,
  whole, keyword_if, keyword_edit,
}
use embtoolkit.Unifdef.Machine.{Written}
use embtoolkit.Unifdef.Numbers.{
  newlines, AreLines, CanEdit, IsOneLine-whole, IsOneLine-CanEdit, keyword_if-whole,
  keyword_edit-whole,
}

-- A statement on the line count, the count of deleted lines and the output.
abbrev pub Account : Type 1
Account = ℕ → ℕ → List Written → Type 0

abbrev pub Holds : Account → State → Type 0
Holds p s = p s.linenum s.delcount s.written

-- Where the program has not ended.
abbrev pub Survives : Account → Outcome → Type 0
Survives p (running s) = Holds p s
Survives p (failed m s) = Unit
Survives p (finished s) = Unit
Survives p aborted = Unit

Survives-then :
    (p q : Account) (m : Outcome) (f : State → Outcome)
    → Survives p m
    → ((s : State) → Holds p s → Survives q (f s))
    → Survives q (m ⨾ f)
Survives-then p q (running s) f h k = k s h
Survives-then p q (failed m s) f h k = tt
Survives-then p q (finished s) f h k = tt
Survives-then p q aborted f h k = tt

module _ (p : Account) where
  nest-Survives : (s : State) → Holds p s → Survives p (nest s)
  unfolding nest
  nest-Survives s h = elim (Bool-cases (ltb 63 s.depth)) [
    | inl e ↦ simp e tt
    | inr e ↦ elim (Bool-cases (s.depth == 63)) [ inl f ↦ simp (e, f) tt | inr f ↦ simp (e, f) h ]
  ]

  unnest-Survives : (s : State) → Holds p s → Survives p (unnest s)
  unfolding unnest
  unnest-Survives s h = elim (Bool-cases (s.depth == 0)) [ inl e ↦ simp e tt | inr e ↦ simp e h ]

  ignoreoff-Survives : (s : State) → Holds p s → Survives p (ignoreoff s)
  unfolding ignoreoff
  ignoreoff-Survives s h = elim (Bool-cases (s.depth == 0)) [ inl e ↦ simp e tt | inr e ↦ simp e h ]

  ignoreon-Survives : (s : State) → Holds p s → Survives p (ignoreon s)
  unfolding ignoreon
  ignoreon-Survives s h = h

  set_state-Survives : (x : Ifstate) (s : State) → Holds p s → Survives p (set_state x s)
  unfolding set_state
  set_state-Survives x s h = h

  finish-Survives : (s : State) → Survives p (finish s)
  unfolding finish
  finish-Survives s = elim (Bool-cases (s.incomment)) [ inl e ↦ simp e tt | inr e ↦ simp e tt ]

  then-set_state : (x : Ifstate) (m : Outcome) → Survives p m → Survives p (m ⨾ set_state x)
  then-set_state x m h = Survives-then p p m (set_state x) h (set_state-Survives x)

  then-ignoreon : (m : Outcome) → Survives p m → Survives p (m ⨾ ignoreon)
  then-ignoreon m h = Survives-then p p m ignoreon h ignoreon-Survives

  then-nest : (m : Outcome) → Survives p m → Survives p (m ⨾ nest)
  then-nest m h = Survives-then p p m nest h nest-Survives

  pedantic-Survives : (o : Options) (s : State) → Holds p s → Survives p (pedantic o s)
  pedantic-Survives o s h = elim (Bool-cases (o.iocccok)) [ inl e ↦ simp e h | inr e ↦ simp e tt ]

module _ (o : Options) (p q : Account)
    (flush : (keep : Bool) (t : Text) (s : State)
      → newlines t ≡ 1
      → Holds p s
      → Holds q (flushline o keep t s))
    (ends : newlines o.newline ≡ 1) where
  drop_to-Survives :
      (x : Ifstate) (l : Line) (s : State)
      → newlines (whole l) ≡ 1
      → Holds p s
      → Survives q (drop_to o x l s)
  drop_to-Survives x l s n h =
      let t = flushline o false (whole l) s in
      then-set_state q x (ignoreoff t) (ignoreoff-Survives q t (flush false (whole l) s n h))

  pass_to-Survives :
      (l : Line) (s : State) → newlines (whole l) ≡ 1 → Holds p s → Survives q (pass_to o l s)
  pass_to-Survives l s n h =
      let t = flushline o true (whole l) s in
      then-set_state q pass_middle (ignoreoff t)
        (ignoreoff-Survives q t (flush true (whole l) s n h))

  then-drop_to :
      (x : Ifstate) (l : Line) (m : Outcome)
      → newlines (whole l) ≡ 1
      → Survives p m
      → Survives q (m ⨾ drop_to o x l)
  then-drop_to x l m n h = Survives-then p q m (drop_to o x l) h (λ s. drop_to-Survives x l s n)

  then-pass_to :
      (l : Line) (m : Outcome)
      → newlines (whole l) ≡ 1
      → Survives p m
      → Survives q (m ⨾ pass_to o l)
  then-pass_to l m n h = Survives-then p q m (pass_to o l) h (λ s. pass_to-Survives l s n)

  pub perform-Survives :
      (a : Action) (l : Line) (s : State)
      → newlines (whole l) ≡ 1
      → CanEdit a l
      → Holds p s
      → Survives q (perform o a l s)
  unfolding perform set_state
  perform-Survives eelif l s n c h = tt
  perform-Survives eelse l s n c h = tt
  perform-Survives eendif l s n c h = tt
  perform-Survives eeof l s n c h = tt
  perform-Survives eioccc l s n c h = tt
  perform-Survives print l s n c h = flush true (whole l) s n h
  perform-Survives drop l s n c h = flush false (whole l) s n h
  perform-Survives strue l s n c h = drop_to-Survives true_prefix l s n h
  perform-Survives sfalse l s n c h = drop_to-Survives false_prefix l s n h
  perform-Survives selse l s n c h = flush false (whole l) s n h
  perform-Survives pelif l s n c h = pass_to-Survives l s n h
  perform-Survives pelse l s n c h = flush true (whole l) s n h
  perform-Survives pendif l s n c h =
      unnest-Survives q (flushline o true (whole l) s) (flush true (whole l) s n h)
  perform-Survives dfalse l s n c h = drop_to-Survives false_trailer l s n h
  perform-Survives delif l s n c h = drop_to-Survives false_middle l s n h
  perform-Survives delse l s n c h = flush false (whole l) s n h
  perform-Survives dendif l s n c h =
      unnest-Survives q (flushline o false (whole l) s) (flush false (whole l) s n h)
  perform-Survives fdrop l s n c h = then-drop_to false_trailer l (nest s) n (nest-Survives p s h)
  perform-Survives fpass l s n c h = then-pass_to l (nest s) n (nest-Survives p s h)
  perform-Survives ftrue l s n c h = then-drop_to true_prefix l (nest s) n (nest-Survives p s h)
  perform-Survives ffalse l s n c h = then-drop_to false_prefix l (nest s) n (nest-Survives p s h)
  perform-Survives oiffy l s n c h = then-ignoreon q (pedantic o s ⨾ nest ⨾ pass_to o l) (
      then-pass_to l (pedantic o s ⨾ nest) n
        (then-nest p (pedantic o s) (pedantic-Survives p o s h)))
  perform-Survives oif l s n c h =
      then-pass_to l (pedantic o s ⨾ nest) n
        (then-nest p (pedantic o s) (pedantic-Survives p o s h))
  perform-Survives oelif l s n c h = then-pass_to l (pedantic o s) n (pedantic-Survives p o s h)
  perform-Survives idrop l s n c h =
      then-ignoreon q (nest s ⨾ drop_to o false_trailer l)
        (then-drop_to false_trailer l (nest s) n (nest-Survives p s h))
  perform-Survives itrue l s n c h =
      then-ignoreon q (nest s ⨾ drop_to o true_prefix l)
        (then-drop_to true_prefix l (nest s) n (nest-Survives p s h))
  perform-Survives ifalse l s n c h =
      then-ignoreon q (nest s ⨾ drop_to o false_prefix l)
        (then-drop_to false_prefix l (nest s) n (nest-Survives p s h))
  perform-Survives mpass l s n c h = pass_to-Survives (keyword_if l) s (keyword_if-whole l c) h
  perform-Survives mtrue l s n c h =
      flush true (whole (keyword_edit o (codes "else") l)) s
        (keyword_edit-whole o (codes "else") l ends refl c) h
  perform-Survives melif l s n c h =
      flush true (whole (keyword_edit o (codes "endif") l)) s
        (keyword_edit-whole o (codes "endif") l ends refl c) h
  perform-Survives melse l s n c h =
      flush true (whole (keyword_edit o (codes "endif") l)) s
        (keyword_edit-whole o (codes "endif") l ends refl c) h
  perform-Survives done l s n c h = finish-Survives q s
  perform-Survives abort l s n c h = tt

  -- With p for the line just read.
  pub process-Survives :
      ((n d : ℕ) (w : List Written) → q n d w → p (n + 1) d w)
      → (ls : List Line) → (s : State) → AreLines ls
      → Holds q s
      → Survives q (process o ls s)
  unfolding process step
  process-Survives next [] s a h = h
  process-Survives next (l ∷ ls) s a h =
      let t = record s { linenum = s.linenum + 1; incomment = l.incomment } in
      Survives-then q q (step o l s) (process o ls)
        (perform-Survives (transition (s.ifstate s.depth) l.linetype) l t
          (IsOneLine-whole l.linetype l a.0)
          (IsOneLine-CanEdit (s.ifstate s.depth) l.linetype l a.0)
          (next s.linenum s.delcount s.written h))
        (λ u. process-Survives next ls u a.1)
