-- ===== src/Unifdef/Groups/Reach.antt =====
-- scripts/unifdef.c: what the driver does on lines, and the states of a group by what they do with
-- the lines in them.
use embtoolkit.Base.{
  ℕ, ◌+◌, ◌≤◌, ◌≡◌, refl, sym, ap, ◌∙◌, subst, List, [], ◌∷◌, ◌++◌, append-nil, Text,
}
use embtoolkit.Unifdef.{Ifstate, Action, transition}
use embtoolkit.Unifdef.Machine.{Line, State, ◌⨾◌, perform, step, process}
use embtoolkit.Unifdef.Groups.Moves.{
  At, Below, Moves, Moves-At, Moves-Below, Moves-trans, Acts, defaults,
}

module _ (newline : Text) where
  -- From the lines and the state the driver comes to the other lines, with this move.
  pub record Reach (ls ls' : List Line) (s : State) (d : ℕ) (x : Ifstate) (w : List Text)
      : Type 0 where
    pub end : State
    pub runs : process (defaults newline) ls s ≡ process (defaults newline) ls' end
    pub moves : Moves d x s end w

  pub stays : (ls : List Line) (s : State) (d : ℕ) (x : Ifstate) → At d x s → Reach ls ls s d x []
  unfolding Moves
  stays ls s d x a = record {
    end = s;
    runs = refl;
    moves = (a, (λ k h. refl), sym (append-nil s.written));
  }

  pub seq :
      {ls ls1 ls2 : List Line} {s : State} {d e : ℕ} {x y : Ifstate} {v w : List Text}
      → e ≤ d
      → Reach ls ls1 s d x v
      → ((s1 : State) → At d x s1 → Below d s s1 → Reach ls1 ls2 s1 e y w)
      → Reach ls ls2 s e y (v ++ w)
  seq {s} {d} {e} {x} {y} {v} {w} l r f =
      let t = f r.end (Moves-At d x s r.end v r.moves) (Moves-Below d x s r.end v r.moves) in
      record {
        end = t.end;
        runs = r.runs ∙ t.runs;
        moves = Moves-trans d e x y s r.end t.end v w l r.moves t.moves;
      }

  pub writes :
      {ls ls' : List Line} {s : State} {d : ℕ} {x : Ifstate} {v w : List Text}
      → v ≡ w
      → Reach ls ls' s d x v
      → Reach ls ls' s d x w
  writes {ls} {ls'} {s} {d} {x} e r = subst (Reach ls ls' s d x) e r

  -- One line, in a state whose action on it is known.
  pub one :
      (l : Line) (ls : List Line) (s : State) (d : ℕ) (x : Ifstate) (a : Action) (e : ℕ)
      (y : Ifstate) (w : List Text)
      → At d x s
      → transition x l.linetype ≡ a
      → ((s1 : State)
          → At d x s1
          → Below d s s1
          → s1.written ≡ s.written
          → Acts newline (perform (defaults newline) a l s1) s1 e y w)
      → Reach (l ∷ ls) ls s e y w
  unfolding process step Moves
  one l ls s d x a e y w (p, q) t f =
      let s1 : State = record s { linenum = s.linenum + 1; incomment = l.incomment } in
      let (s', r, m) = f s1 (p, q) (λ k h. refl) refl in
      let here : s.ifstate s.depth ≡ x = ap s.ifstate p ∙ q in
      let b : transition (s.ifstate s.depth) l.linetype ≡ a =
        ap (λ z. transition z l.linetype) here ∙ t in
      record {
        end = s';
        runs =
            ap (λ z. perform (defaults newline) z l s1 ⨾ process (defaults newline) ls) b
            ∙ ap (λ z. z ⨾ process (defaults newline) ls) r;
        moves = m;
      }
