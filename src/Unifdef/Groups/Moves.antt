-- ===== src/Unifdef/Groups/Moves.antt =====
-- scripts/unifdef.c: what one line does to the nesting and to the output, with the options as main
-- leaves them when none is given.
use embtoolkit.Base.{
  ℕ, suc, ◌+◌, ◌≤◌, ◌<◌, ◌≡◌, refl, sym, ap, ◌∙◌, subst, ◌-◌, Bool, true, false, List, [], ◌∷◌,
  ◌++◌, Text, map, ◌==◌, append_assoc, append-nil, Bool-cases, inl, inr, arith, ltb,
}
use embtoolkit.Unifdef.{Ifstate}
use embtoolkit.Unifdef.Machine.{
  Options, Line, State, text, Outcome, running, ◌⨾◌, whole, flushline, is_blank, nest, unnest,
  ignoreoff, set_state, update, maxdepth,
}

abbrev pub defaults : Text → Options
defaults newline = record {
  compblank = false;
  lnblank = false;
  complement = false;
  iocccok = false;
  lnnum = false;
  symlist = false;
  newline = newline;
}

abbrev pub At : ℕ → Ifstate → State → Type 0
At d x s = (s.depth ≡ d) × (s.ifstate d ≡ x)

abbrev pub Below : ℕ → State → State → Type 0
Below d s s' = (k : ℕ) → k < d → s'.ifstate k ≡ s.ifstate k

-- The new depth and its state; the levels below are as before; and these lines have been written.
unfoldable pub Moves : ℕ → Ifstate → State → State → List Text → Type 0
Moves d x s s' w = At d x s' × Below d s s' × (s'.written ≡ s.written ++ map text w)

pub Moves-At : (d : ℕ) (x : Ifstate) (s s' : State) (w : List Text) → Moves d x s s' w → At d x s'
unfolding Moves
Moves-At d x s s' w m = m.0

pub Moves-Below :
    (d : ℕ) (x : Ifstate) (s s' : State) (w : List Text) → Moves d x s s' w → Below d s s'
unfolding Moves
Moves-Below d x s s' w m = m.1

ignored :
    (d : ℕ) (y : Ifstate) (s s' : State) (w : List Text) (v : ℕ → Bool)
    → Moves d y (record s { ignoring = v }) s' w
    → Moves d y s s' w
unfolding Moves
ignored d y s s' w v m = m

map-append : (v w : List Text) → map text (v ++ w) ≡ map text v ++ map text w
map-append [] w = refl
map-append (t ∷ v) w = ap (λ x. text t ∷ x) (map-append v w)

pub Moves-trans :
    (d e : ℕ) (x y : Ifstate) (s s1 s2 : State) (v w : List Text)
    → e ≤ d
    → Moves d x s s1 v
    → Moves e y s1 s2 w
    → Moves e y s s2 (v ++ w)
unfolding Moves
Moves-trans d e x y s s1 s2 v w l (a, b, c) (a', b', c') =
    (a', (λ k h. b' k h ∙ b k (omega arith)), simp (c', c, map-append v w, append_assoc))

abbrev out : Bool → Text → List Text
out true t = t ∷ []
out false t = []

module _ (newline : Text) where
  abbrev o : Options
  o = defaults newline

  flushline-depth : (keep : Bool) (t : Text) (s : State) → (flushline o keep t s).depth ≡ s.depth
  unfolding flushline
  flushline-depth true t s = elim (Bool-cases (is_blank t)) [ inl e ↦ simp e | inr e ↦ simp e ]
  flushline-depth false t s = refl

  flushline-ifstate :
      (keep : Bool) (t : Text) (s : State) → (flushline o keep t s).ifstate ≡ s.ifstate
  unfolding flushline
  flushline-ifstate true t s = elim (Bool-cases (is_blank t)) [ inl e ↦ simp e | inr e ↦ simp e ]
  flushline-ifstate false t s = refl

  flushline-written :
      (keep : Bool) (t : Text) (s : State)
      → (flushline o keep t s).written ≡ s.written ++ map text (out keep t)
  unfolding flushline
  flushline-written true t s = elim (Bool-cases (is_blank t)) [ inl e ↦ simp e | inr e ↦ simp e ]
  flushline-written false t s = refl

  -- The line written or not.
  pub flushed :
      (keep : Bool) (t : Text) (d : ℕ) (x : Ifstate) (s : State)
      → At d x s
      → Moves d x s (flushline o keep t s) (out keep t)
  unfolding Moves
  flushed keep t d x s (a, b) =
      let i = flushline-ifstate keep t s in
      (
        (flushline-depth keep t s ∙ a, ap (λ f. f d) i ∙ b),
        (λ k h. ap (λ f. f k) i),
        flushline-written keep t s,
      )

  -- The state of the level set.
  moved :
      (x y : Ifstate) (d : ℕ) (s : State)
      → At d x s
      → Moves d y s (record s { ifstate = update s.ifstate s.depth y }) []
  unfolding Moves
  moved x y d s (a, b) =
      let same : (d == s.depth) ≡ true = ground (arith, a) in
      (
        (a, simp same),
        (λ k h. let e : (k == s.depth) ≡ false = ground (arith, a, h) in simp e),
        sym (append-nil s.written),
      )

  abbrev pub Acts : Outcome → State → ℕ → Ifstate → List Text → Type 0
  Acts r s d y w = (s' : State) × (r ≡ running s') × Moves d y s s' w

  -- The line, and the state of the level.
  pub sets :
      (keep : Bool) (l : Line) (x y : Ifstate) (d : ℕ) (s : State)
      → At d x s
      → Acts (running (flushline o keep (whole l) s) ⨾ set_state y) s d y (out keep (whole l))
  unfolding set_state
  sets keep l x y d s a =
      let f = flushline o keep (whole l) s in
      let m = flushed keep (whole l) d x s a in
      let n = moved x y d f (Moves-At d x s f (out keep (whole l)) m) in
      (
        _,
        refl,
        subst (Moves d y s _) (append-nil (out keep (whole l)))
            (Moves-trans d d x y s f _ (out keep (whole l)) [] (omega arith) m n),
      )

  -- The same with ignoreoff between, inside a group.
  pub shifts :
      (keep : Bool) (l : Line) (x y : Ifstate) (d : ℕ) (s : State)
      → At (suc d) x s
      → Acts
          (running (flushline o keep (whole l) s) ⨾ ignoreoff ⨾ set_state y)
          s
          (suc d)
          y
          (out keep (whole l))
  unfolding set_state ignoreoff
  shifts keep l x y d s a =
      let f = flushline o keep (whole l) s in
      let m = flushed keep (whole l) (suc d) x s a in
      let at = Moves-At (suc d) x s f (out keep (whole l)) m in
      let inside : (f.depth == 0) ≡ false = let e = at.0 in ground (arith, e) in
      let g : State = record f {
        ignoring = update f.ignoring f.depth (f.ignoring (f.depth - 1));
      } in
      let t : State = record g { ifstate = update g.ifstate g.depth y } in
      let n =
        ignored (suc d) y f t [] (update f.ignoring f.depth (f.ignoring (f.depth - 1)))
          (moved x y (suc d) g at) in
      (
        t,
        simp inside,
        subst (Moves (suc d) y s t) (append-nil (out keep (whole l)))
            (Moves-trans (suc d) (suc d) x y s f t (out keep (whole l)) [] (omega arith) m n),
      )

  pub closes :
      (keep : Bool) (l : Line) (x y : Ifstate) (d : ℕ) (s : State)
      → At (suc d) x s
      → s.ifstate d ≡ y
      → Acts (running (flushline o keep (whole l) s) ⨾ unnest) s d y (out keep (whole l))
  unfolding unnest Moves
  closes keep l x y d s a b =
      let f = flushline o keep (whole l) s in
      let t = flushline-depth keep (whole l) s ∙ a.0 in
      let i = flushline-ifstate keep (whole l) s in
      let inside : (f.depth == 0) ≡ false = ground (arith, t) in
      let down : f.depth - 1 ≡ d = omega arith in
      (
        record f { depth = f.depth - 1 },
        simp inside,
        ((down, ap (λ z. z d) i ∙ b), (λ k h. ap (λ z. z k) i), flushline-written keep (whole l) s),
      )

  -- A new level.
  nests :
      (x : Ifstate) (d : ℕ) (s : State)
      → At d x s
      → d < 63
      → Acts (nest s) s (suc d) (s.ifstate (suc d)) []
  unfolding nest Moves
  nests x d s a l =
      let e = a.0 in
      let low : ltb (maxdepth - 1) s.depth ≡ false = ground (arith, e, l) in
      let fits : (s.depth == maxdepth - 1) ≡ false = ground (arith, e, l) in
      let up : s.depth + 1 ≡ suc d = omega arith in
      (
        record s { depth = s.depth + 1; stifline = update s.stifline (s.depth + 1) s.linenum },
        simp (low, fits),
        ((up, refl), (λ k h. refl), sym (append-nil s.written)),
      )

  pub opens :
      (keep : Bool) (l : Line) (x y : Ifstate) (d : ℕ) (s : State)
      → At d x s
      → d < 63
      → Acts
          (nest s ⨾ λ n. running (flushline o keep (whole l) n) ⨾ ignoreoff ⨾ set_state y)
          s
          (suc d)
          y
          (out keep (whole l))
  opens keep l x y d s a h =
      let (n, e, m) = nests x d s a h in
      let at = Moves-At (suc d) (s.ifstate (suc d)) s n [] m in
      let (t, e', m') = shifts keep l (s.ifstate (suc d)) y d n at in
      (
        t,
        ap (λ r. r ⨾ λ n. running (flushline o keep (whole l) n) ⨾ ignoreoff ⨾ set_state y) e ∙ e',
        Moves-trans (suc d) (suc d) (s.ifstate (suc d)) y s n t [] (out keep (whole l))
            (omega arith) m m',
      )
