-- ===== src/Unifdef/Run/Follows.antt =====
-- scripts/unifdef.c: parseline and the transitions together do what the transitions do on the lines.
use embtoolkit.Base.{
  ℕ, zero, suc, ◌+◌, ◌<◌, ◌≡◌, refl, sym, ap, ap₂, ◌∙◌, Bool, true, false, List, [], ◌∷◌, ◌++◌,
  Option, none, some, Text, codes, length, length-append, ◌||◌, ◌≤◌, arith, ◌⊎◌, inl, inr,
}
use embtoolkit.Unifdef.{
  Ifstate, outside, false_prefix, true_prefix, pass_middle, false_middle, true_middle, pass_else,
  false_else, true_else, false_trailer, eof, transition,
}
use embtoolkit.Unifdef.Comment.{no_comment, ls_start}
use embtoolkit.Unifdef.Machine.{
  Line, State, Outcome, running, failed, finished, aborted, ◌⨾◌, perform, step, process,
}
use embtoolkit.Unifdef.Groups.{line_of}
use embtoolkit.Unifdef.Groups.Moves.{defaults}
use embtoolkit.Unifdef.Parseline.{Reader, parsed, parseline, fgets}
use embtoolkit.Unifdef.Run.{Settings, Ending, ending, run, go_on, on_parsed, or_unset}
use embtoolkit.Unifdef.Run.Quiet.{Clear, quiet_type, step-Clear}

-- The reader at the start of a line, outside comments
abbrev pub at_start : Text → Option Text → Reader
at_start t w = record { input = t; newline = w; comment = no_comment; linestate = ls_start }

abbrev pub IsUnix : Option Text → Type 0
IsUnix none = Unit
IsUnix (some w) = w ≡ codes "\n"

abbrev pub unix : Option Text
unix = some (codes "\n")

abbrev pub end_of_file : Line
end_of_file = line_of eof ([], [])

end-step :
    (v w : Text) (l : Line) (s : State) (x : Ifstate)
    → perform (defaults v) (transition x eof) l s ≡ perform (defaults w) (transition x eof) l s
unfolding perform
end-step v w l s outside = refl
end-step v w l s false_prefix = refl
end-step v w l s true_prefix = refl
end-step v w l s pass_middle = refl
end-step v w l s false_middle = refl
end-step v w l s true_middle = refl
end-step v w l s pass_else = refl
end-step v w l s false_else = refl
end-step v w l s true_else = refl
end-step v w l s false_trailer = refl

module _ (u : Settings) where
  -- parseline gives this line for the text, and is then at the start of the next line.
  abbrev pub Parses : Line → Text → Type 0
  Parses l t =
      (w : Option Text) (rest : Text)
      → IsUnix w
      → parseline false u.syms u.strictlogic u.killconsts (at_start (t ++ rest) w)
        ≡ parsed l (at_start rest unix)

  -- The lines of the text, to the end of the file; none ignores text.
  abbrev pub Follows : List Line → Text → Type 0
  Follows [] t = ⊥
  Follows (l ∷ ls) t =
      ((l ≡ end_of_file) × (ls ≡ []) × (t ≡ []))
      ⊎ ((a : Text) × (b : Text) × (t ≡ a ++ b)
          × (1 ≤ length a)
          × Parses l a
          × (quiet_type l.linetype ≡ true)
          × Follows ls b)

  -- Every line has a character.
  pub Follows-length : (ls : List Line) (t : Text) → Follows ls t → length ls ≤ length t + 1
  Follows-length [] t f = absurd f
  Follows-length (l ∷ ls) t (inl (i, j, k)) = let e = ap length j in omega (arith, e)
  Follows-length (l ∷ ls) t (inr (a, d, k, m, p, q, f)) =
      let e = ap length k ∙ length-append a d in
      let h = Follows-length ls d f in omega (arith, e, h, m)

  module _ (v : Text) (out : u.textfile ≡ false) where
    on_step :
        (again : State → Ending) (ls : List Line) (r : Outcome) (s' : State)
        → ((s1 : State)
            → r ≡ running s1
            → process (defaults (codes "\n")) ls s1 ≡ finished s'
            → again s1 ≡ ending (finished s'))
        → (r ⨾ process (defaults (codes "\n")) ls) ≡ finished s'
        → go_on (defaults v) u again r ≡ ending (finished s')
    on_step again ls (running s1) s' h e = h s1 refl e
    on_step again ls (failed m s1) s' h e = cc
    on_step again ls (finished s1) s' h e = ap ending e
    on_step again ls aborted s' h e = cc

    -- On a text of such lines, with enough fuel, the program ends as the transitions on the lines do.
    pub run-process :
        (ls : List Line) (t : Text) (n : ℕ) (w : Option Text) (s s' : State)
        → Follows ls t
        → IsUnix w
        → Clear s
        → length ls < suc n
        → process (defaults (codes "\n")) ls s ≡ finished s'
        → run (defaults v) u n (at_start t w) s ≡ ending (finished s')
    unfolding run process parseline fgets step
    run-process [] t n w s s' f x c b e = absurd f
    run-process (l ∷ ls) t zero w s s' f x c b e = absurd (omega (arith, b))
    run-process (l ∷ ls) t (suc n) w s s' (inl (i, j, k)) x c b e =
        let here =
          λ (t : Text) (b : Bool). parseline b u.syms u.strictlogic u.killconsts (at_start t w) in
        let e' : (step (defaults (codes "\n")) end_of_file s ⨾ process (defaults (codes "\n")) [])
            ≡ finished s' =
          ap₂ (λ l ls. step (defaults (codes "\n")) l s ⨾ process (defaults (codes "\n")) ls)
            (sym i) (sym j)
          ∙ e in
        ap
          (λ t.
            on_parsed (defaults v) u (run (defaults v) u n) s
              (here t (u.textfile || s.ignoring s.depth)))
          k
        ∙ ap (go_on (defaults v) u (run (defaults v) u n (at_start [] w))) (
            end-step (or_unset w) (codes "\n") end_of_file
              (record s { linenum = s.linenum + 1; incomment = false }) (s.ifstate s.depth))
        ∙ on_step (run (defaults v) u n (at_start [] w)) []
            (step (defaults (codes "\n")) end_of_file s) s' (λ s1 p q. cc) e'
    run-process (l ∷ ls) t (suc n) w s s' (inr (a, d, k, m, p, q, f)) x c b e =
        let here =
          λ (t : Text) (b : Bool). parseline b u.syms u.strictlogic u.killconsts (at_start t w) in
        let i : here t (u.textfile || s.ignoring s.depth) ≡ parsed l (at_start d unix) =
          ap₂ here k (ap₂ (λ a b. a || b) out (c s.depth)) ∙ p w d x in
        ap (on_parsed (defaults v) u (run (defaults v) u n) s) i
        ∙ on_step (run (defaults v) u n (at_start d unix)) ls (step (defaults (codes "\n")) l s) s'
            (λ s1 h j.
              run-process ls d n unix s1 s' f refl (step-Clear (defaults (codes "\n")) l s s1 q c h)
                (omega (arith, b)) j)
            e
