-- ===== src/Unifdef/Depth.antt =====
-- scripts/unifdef.c: the nesting depth stays within the arrays, the bottom of the stack of states
-- is IS_OUTSIDE and nothing above it is, and abort() is not reached.
pub mod Table
pub mod Reached
use embtoolkit.Base.{
  ℕ, zero, suc, ◌+◌, ◌-◌, ◌≤◌, ◌<◌, ◌≡◌, ◌≢◌, refl, sym, subst, ltb, Bool, true, false, List, [],
  ◌∷◌, ◌==◌, if◌then◌else◌, Bool-cases, inl, inr, Text, arith,
}
use embtoolkit.Unifdef.{
  Directive, Linetype, directive, dodgy, plain, eof, unevaluable, Ifstate, outside, false_prefix,
  true_prefix, pass_middle, false_middle, true_middle, pass_else, false_else, true_else,
  false_trailer, Action, eelif, eelse, eendif, eeof, eioccc, print, drop, strue, sfalse, selse,
  pelif, pelse, pendif, dfalse, delif, delse, dendif, fdrop, fpass, ftrue, ffalse, oiffy, oif,
  oelif, idrop, itrue, ifalse, mpass, mtrue, melif, melse, done, abort, transition,
}
use embtoolkit.Unifdef.Machine.{
  Line, Options, State, Message, Outcome, running, failed, finished, aborted, ◌⨾◌, maxdepth, update,
  flushline, ignoreoff, ignoreon, nest, unnest, set_state, finish, printed, dropped, drop_to,
  pass_to, pedantic, perform, step, process, initial, whole, keyword_if, keyword_edit,
}

-- The states up to the n-th are those of open groups.
pub record Frames (s : State) (n : ℕ) : Type 0 where
  pub base : s.ifstate 0 ≡ outside
  pub nested : (k : ℕ) → 1 ≤ k → k ≤ n → s.ifstate k ≢ outside
  pub fits : s.depth < maxdepth

abbrev pub IsValid : State → Type 0
IsValid s = Frames s s.depth

-- Within a group whose state is about to be set.
abbrev IsOpen : State → Type 0
IsOpen s = (1 ≤ s.depth) × Frames s (s.depth - 1)

-- What holds after a call: the program may have ended with an error, or regularly at depth 0, but
-- not by abort().
abbrev pub Reaches : (State → Type 0) → Outcome → Type 0
Reaches P (running s) = P s
Reaches P (failed m s) = IsValid s
Reaches P (finished s) = IsValid s × (s.depth ≡ 0)
Reaches P aborted = ⊥

Reaches-then :
    (P Q : State → Type 0) (m : Outcome) (f : State → Outcome)
    → Reaches P m
    → ((s : State) → P s → Reaches Q (f s))
    → Reaches Q (m ⨾ f)
Reaches-then P Q (running s) f h k = k s h
Reaches-then P Q (failed m s) f h k = h
Reaches-then P Q (finished s) f h k = h
Reaches-then P Q aborted f h k = h

-- A change that leaves the depth and the states alone.
Frames-same :
    (s t : State) (n : ℕ) → t.depth ≡ s.depth → t.ifstate ≡ s.ifstate → Frames s n → Frames t n
Frames-same s t n d e h = record {
  base = rw e h.base;
  nested = λ k a b. rw e (h.nested k a b);
  fits = omega (arith, h.fits);
}

IsOpen-same : (s t : State) → t.depth ≡ s.depth → t.ifstate ≡ s.ifstate → IsOpen s → IsOpen t
IsOpen-same s t d e h = (
  omega (arith, d, h.0),
  subst (λ n. Frames t (n - 1)) (sym d) (Frames-same s t (s.depth - 1) d e h.1),
)

pub IsValid-same : (s t : State) → t.depth ≡ s.depth → t.ifstate ≡ s.ifstate → IsValid s → IsValid t
IsValid-same s t d e h = subst (λ n. Frames t n) (sym d) (Frames-same s t s.depth d e h)

module _ (o : Options) where
  flushline-depth : (keep : Bool) (t : Text) (s : State) → (flushline o keep t s).depth ≡ s.depth
  unfolding flushline
  flushline-depth keep t s = ground arith

  flushline-ifstate :
      (keep : Bool) (t : Text) (s : State) → (flushline o keep t s).ifstate ≡ s.ifstate
  unfolding flushline
  flushline-ifstate keep t s = ground arith

  flushline-IsOpen : (keep : Bool) (t : Text) (s : State) → IsOpen s → IsOpen (flushline o keep t s)
  flushline-IsOpen keep t s h =
      let d = flushline-depth keep t s in
      IsOpen-same s (flushline o keep t s) d (flushline-ifstate keep t s) h

  flushline-IsValid :
      (keep : Bool) (t : Text) (s : State) → IsValid s → IsValid (flushline o keep t s)
  flushline-IsValid keep t s h =
      let d = flushline-depth keep t s in
      IsValid-same s (flushline o keep t s) d (flushline-ifstate keep t s) h

-- A group is open wherever the depth is not 0.
IsValid-IsOpen : (s : State) → 1 ≤ s.depth → IsValid s → IsOpen s
IsValid-IsOpen s d h =
    (d, record { base = h.base; nested = λ k a b. h.nested k a (omega arith); fits = h.fits })

ignoreoff-Reaches : (s : State) → IsOpen s → Reaches IsOpen (ignoreoff s)
unfolding ignoreoff
ignoreoff-Reaches s h = elim (Bool-cases (s.depth == 0)) [
  | inl e ↦ absurd (ground (arith, h.0))
  | inr e ↦ rw e (h.0, Frames-same s _ (s.depth - 1) refl refl h.1)
]

ignoreon-Reaches : (s : State) → IsValid s → Reaches IsValid (ignoreon s)
unfolding ignoreon
ignoreon-Reaches s h = Frames-same s _ s.depth refl refl h

set_state-Reaches :
    (x : Ifstate) (s : State) → x ≢ outside → IsOpen s → Reaches IsValid (set_state x s)
unfolding set_state
set_state-Reaches x s ne h = record {
  base = ground (arith, h.0, h.1.base);
  nested = λ k a b. ground (arith, ne, h.1.nested k a);
  fits = h.1.fits;
}

nest-Reaches : (s : State) → IsValid s → Reaches IsOpen (nest s)
unfolding nest
nest-Reaches s h = elim (Bool-cases (ltb 63 s.depth)) [
  | inl e ↦ absurd (ground (arith, h.fits))
  | inr e ↦ elim (Bool-cases (s.depth == 63)) [
    | inl f ↦ rw e (rw f h)
    | inr f ↦ rw e (
        rw f (
          omega arith,
          record {
            base = h.base;
            nested = λ k a b. h.nested k a (omega (arith, b));
            fits = ground (arith, h.fits);
          },
        ))
  ]
]

unnest-Reaches : (s : State) → IsOpen s → Reaches IsValid (unnest s)
unfolding unnest
unnest-Reaches s h = elim (Bool-cases (s.depth == 0)) [
  | inl e ↦ absurd (ground (arith, h.0))
  | inr e ↦ rw e (record { base = h.1.base; nested = h.1.nested; fits = omega (arith, h.1.fits) })
]
