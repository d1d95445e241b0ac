-- ===== src/Unifdef/Run/Ends.antt =====
-- scripts/unifdef.c: the program ends on every text.
use embtoolkit.Base.{
  ℕ, zero, suc, ◌+◌, ◌≤◌, ◌≡◌, refl, ap, ◌∙◌, Bool, true, false, ◌||◌, Text, length, arith,
  Bool-cases, inl, inr,
}
use embtoolkit.Unifdef.{
  eof, transition, Ifstate, outside, false_prefix, true_prefix, pass_middle, false_middle,
  true_middle, pass_else, false_else, true_else, false_trailer,
}
use embtoolkit.Unifdef.Depth.{IsValid, IsValid-same, Reaches}
use embtoolkit.Unifdef.Depth.Reached.{initial-IsValid, step-Reaches}
use embtoolkit.Unifdef.Machine.{
  Options, State, Line, Outcome, running, failed, finished, aborted, perform, step, finish, initial,
}
use embtoolkit.Unifdef.Parseline.{
  Reader, Parsed, parsed, unterminated, obfuscated_keyword, stuck, in_comment, parseline,
}
use embtoolkit.Unifdef.Run.{
  Settings, Ending, ending, unterminated_literal, run, unifdef, go_on, on_parsed, or_unset,
}
use embtoolkit.Unifdef.Run.Advances.{Rest, Advances, parseline-Advances}

-- The program has ended: not by abort(), within MAXDEPTH, and by exit(exitstat) at depth 0 only.
abbrev pub Ends : Ending → Type 0
Ends (ending (failed m s)) = IsValid s
Ends (ending (finished s)) = IsValid s × (s.depth ≡ 0)
Ends (unterminated_literal c s) = IsValid s
Ends _ = ⊥

abbrev is_running : Outcome → Bool
is_running (running s) = true
is_running _ = false

finish-not_running : (s : State) → is_running (finish s) ≡ false
unfolding finish
finish-not_running s = elim (Bool-cases s.incomment) [ inl e ↦ rw e refl | inr e ↦ rw e refl ]

-- At the end of the file the program ends.
eof-not_running :
    (o : Options) (l : Line) (s : State) (x : Ifstate)
    → is_running (perform o (transition x eof) l s) ≡ false
unfolding perform
eof-not_running o l s outside = finish-not_running s
eof-not_running o l s false_prefix = refl
eof-not_running o l s true_prefix = refl
eof-not_running o l s pass_middle = refl
eof-not_running o l s false_middle = refl
eof-not_running o l s true_middle = refl
eof-not_running o l s pass_else = refl
eof-not_running o l s false_else = refl
eof-not_running o l s true_else = refl
eof-not_running o l s false_trailer = refl

-- The state with which a line is parsed
read :
    (c : Bool) (s : State)
    → IsValid s
    → IsValid (record s { linenum = s.linenum + 1; incomment = c })
read c s h = IsValid-same s _ refl refl h

module _ (o : Options) (u : Settings) where
  go_on-Ends :
      (f : State → Ending) (r : Outcome)
      → Reaches IsValid r
      → ((s : State) → IsValid s → Ends (f s))
      → Ends (go_on o u f r)
  go_on-Ends f (running s) v h = h s v
  go_on-Ends f (failed m s) v h = v
  go_on-Ends f (finished s) v h = v
  go_on-Ends f aborted v h = v

  ended-Ends :
      (f : State → Ending) (r : Outcome)
      → Reaches IsValid r
      → is_running r ≡ false
      → Ends (go_on o u f r)
  ended-Ends f (running s) v h = cc
  ended-Ends f (failed m s) v h = v
  ended-Ends f (finished s) v h = v
  ended-Ends f aborted v h = v

  on_parsed-Ends :
      (again : Reader → State → Ending) (s : State) (m : ℕ) (p : Parsed)
      → Rest m p
      → IsValid s
      → ((r : Reader) (s : State) → length r.input ≤ m → IsValid s → Ends (again r s))
      → Ends (on_parsed o u again s p)
  unfolding Rest
  on_parsed-Ends again s m (parsed l r) h v k =
      let o' = record o { newline = or_unset r.newline } in
      go_on-Ends (again r) (step o' l s) (step-Reaches o' l s h.1 v) (λ s. k r s h.0)
  on_parsed-Ends again s m (unterminated c) h v k = read (in_comment c) s v
  on_parsed-Ends again s m obfuscated_keyword h v k = read false s v
  on_parsed-Ends again s m stuck h v k = absurd h

  -- At the end of the file
  eof-Ends :
      (f : State → Ending) (w : Text) (l : Line) (s : State)
      → l.linetype ≡ eof
      → IsValid s
      → Ends (go_on o u f (step (record o { newline = w }) l s))
  unfolding step
  eof-Ends f w l s i v =
      let o' = record o { newline = w } in
      let t = record s { linenum = s.linenum + 1; incomment = l.incomment } in
      ended-Ends f (step o' l s) (step-Reaches o' l s (λ e. cc (i, e)) v) (
        ap (λ k. is_running (perform o' (transition (s.ifstate s.depth) k) l t)) i
        ∙ eof-not_running o' l t (s.ifstate s.depth))

  run-Ends :
      (n : ℕ) (r : Reader) (s : State) → length r.input + 1 ≤ n → IsValid s → Ends (run o u n r s)
  unfolding run Advances
  run-Ends zero r s h v = absurd (omega (arith, h))
  run-Ends (suc n) r s h v =
      let plain = u.textfile || s.ignoring s.depth in
      elim (parseline-Advances plain u.syms u.strictlogic u.killconsts r) [
        | inl (l, e, i) ↦ rw e (eof-Ends (run o u n r) (or_unset r.newline) l s i v)
        | inr (m, b, k) ↦
            on_parsed-Ends (run o u n) s m (parseline plain u.syms u.strictlogic u.killconsts r) k v
              (λ r' s' j. run-Ends n r' s' (omega (arith, h, b, j)))
      ]

  -- On every text, with all symbols and all options but -s and -S, the program ends, and not by a call
  -- of abort(): the fuel of the model is enough. It ends regularly at depth 0, or with a message; the
  -- depth is then less than MAXDEPTH, and IS_OUTSIDE stands at the bottom of the stack of states and
  -- nowhere above.
  pub unifdef-Ends : (t : Text) → Ends (unifdef o u t)
  unfolding unifdef
  unifdef-Ends t = run-Ends (length t + 1) _ initial (omega arith) initial-IsValid
