-- ===== src/Unifdef/Groups/Output.antt =====
-- scripts/unifdef.c: the output of the state machine on well nested groups, part by part.
use embtoolkit.Base.{
  ℕ, suc, ◌<◌, ◌≡◌, refl, sym, ap, ◌∙◌, true, false, List, [], ◌∷◌, ◌++◌, append_assoc, append-nil,
  Text, codes, arith,
}
use embtoolkit.Unifdef.{
  Ifstate, false_prefix, true_prefix, pass_middle, false_middle, true_middle, pass_else, false_else,
  true_else, false_trailer, plain, directive, print, drop, elif_unknown, elif_true, elif_false,
  endif_line, else_line, dfalse, delse, pelif, mtrue, delif, pelse, pendif, melif, melse, mpass,
  strue, sfalse, selse,
}
use embtoolkit.Unifdef.Machine.{Line, State, perform, keyword_if, keyword_edit}
use embtoolkit.Unifdef.Groups.{
  unknown, known, elif_type, Source, nothing, text_line, group, Parts, at_endif, at_else, at_elif,
  joined, line_of, lines, part_lines, texts, part_texts, append, resolve, first_part, resolve_parts,
  last_line, as_if, as_keyword,
}
use embtoolkit.Unifdef.Groups.Moves.{At, defaults, flushed, sets, shifts, closes}
use embtoolkit.Unifdef.Groups.Reach.{Reach, stays, seq, writes, one}
use embtoolkit.Unifdef.Groups.Lines.{
  Showing, showing, Hiding, hiding, Settled, settled, Passing, passing, showing-plain, hiding-plain,
  settled-elif, settled-else, passing-unknown, passing-true, passing-false, passing-else,
  passing-endif, settled-endif, true_middle-elif, in_true_prefix, in_pass_middle, in_true_middle,
  in_pass_else, in_true_else, in_false_prefix, in_false_middle, in_false_else, in_false_trailer,
  behind_true, behind_all, behind_kept, behind_false, ends_shown, ends_hidden, opens_unknown,
  opens_true, opens_false, opens_hidden,
}

-- A group needs a level below MAXDEPTH.
unfoldable mutual
  pub Fits : ℕ → Source → Type 0
  Fits d nothing = Unit
  Fits d (text_line p s) = Fits d s
  Fits d (group c p s r after) = (d < 63) × (Fits (suc d) s × (PartsFit (suc d) r × Fits d after))

  pub PartsFit : ℕ → Parts → Type 0
  PartsFit d (at_endif p) = Unit
  PartsFit d (at_else p s q) = Fits d s
  PartsFit d (at_elif c p s r) = Fits d s × PartsFit d r

texts-append : (s t : Source) → texts (append s t) ≡ texts s ++ texts t
unfolding texts append
texts-append nothing t = refl
texts-append (text_line p s) t = ap (λ x. joined p ∷ x) (texts-append s t)
texts-append (group c p s r after) t = let i = texts-append after t in simp (i, append_assoc)

module _ (newline : Text) where
  mutual
    unfolding perform lines part_lines texts part_texts resolve first_part resolve_parts Fits
        PartsFit

    pub show :
        (t : Source) (ls : List Line) (s : State) (d : ℕ) (x : Showing)
        → At d (showing x) s
        → Fits d t
        → Reach newline (lines t ls) ls s d (showing x) (texts (resolve newline t))
    show nothing ls s d x a f = stays newline ls s d (showing x) a
    show (text_line p t) ls s d x a f =
        seq newline (omega arith)
          (one newline (line_of plain p) (lines t ls) s d (showing x) print d (showing x)
            (joined p ∷ []) a (showing-plain x)
            (λ s1 a1 k w. (_, refl, flushed newline true (joined p) d (showing x) s1 a1)))
          (λ s1 a1 k. show t ls s1 d x a1 f)
    show (group (unknown n) p t r after) ls s d x a (h, (ft, (fr, fa))) =
        seq newline (omega arith) (opens_unknown newline n p _ s d x a h) (λ s1 a1 k1.
          seq newline (omega arith) (show t _ s1 (suc d) in_pass_middle a1 ft) (λ s2 a2 k2.
            seq newline (omega arith)
              (pass r _ s2 d (showing x) behind_kept a2
                (k2 d (omega arith) ∙ k1 d (omega arith) ∙ a.1) fr)
              (λ s3 a3 k3. show after ls s3 d x a3 fa)))
    show (group (known true) p t r after) ls s d x a (h, (ft, (fr, fa))) =
        writes newline (sym (texts-append (resolve newline t) (resolve newline after))) (
          seq newline (omega arith) (opens_true newline p _ s d x a h) (λ s1 a1 k1.
            seq newline (omega arith) (show t _ s1 (suc d) in_true_prefix a1 ft) (λ s2 a2 k2.
              seq newline (omega arith)
                (discard r _ s2 d (showing x) behind_true a2
                  (k2 d (omega arith) ∙ k1 d (omega arith) ∙ a.1) fr)
                (λ s3 a3 k3. show after ls s3 d x a3 fa))))
    show (group (known false) p t r after) ls s d x a (h, (ft, (fr, fa))) =
        writes newline (sym (texts-append (first_part newline r) (resolve newline after))) (
          seq newline (omega arith) (opens_false newline p _ s d x a h) (λ s1 a1 k1.
            seq newline (omega arith) (hide t _ s1 (suc d) in_false_prefix a1 ft) (λ s2 a2 k2.
              seq newline (omega arith)
                (pend r _ s2 d (showing x) a2 (k2 d (omega arith) ∙ k1 d (omega arith) ∙ a.1) fr)
                (λ s3 a3 k3. show after ls s3 d x a3 fa))))

    hide :
        (t : Source) (ls : List Line) (s : State) (d : ℕ) (x : Hiding)
        → At d (hiding x) s
        → Fits d t
        → Reach newline (lines t ls) ls s d (hiding x) []
    hide nothing ls s d x a f = stays newline ls s d (hiding x) a
    hide (text_line p t) ls s d x a f =
        seq newline (omega arith)
          (one newline (line_of plain p) (lines t ls) s d (hiding x) drop d (hiding x) [] a
            (hiding-plain x)
            (λ s1 a1 k w. (_, refl, flushed newline false (joined p) d (hiding x) s1 a1)))
          (λ s1 a1 k. hide t ls s1 d x a1 f)
    hide (group c p t r after) ls s d x a (h, (ft, (fr, fa))) =
        seq newline (omega arith) (opens_hidden newline c p _ s d x a h) (λ s1 a1 k1.
          seq newline (omega arith) (hide t _ s1 (suc d) in_false_trailer a1 ft) (λ s2 a2 k2.
            seq newline (omega arith)
              (discard r _ s2 d (hiding x) behind_all a2
                (k2 d (omega arith) ∙ k1 d (omega arith) ∙ a.1) fr)
              (λ s3 a3 k3. hide after ls s3 d x a3 fa)))

    discard :
        (r : Parts) (ls : List Line) (s : State) (d : ℕ) (x : Ifstate) (y : Settled)
        → At (suc d) (settled y) s
        → s.ifstate d ≡ x
        → PartsFit (suc d) r
        → Reach newline (part_lines r ls) ls s d x []
    discard (at_endif p) ls s d x y a b f =
        ends_hidden newline p ls s d x (settled y) (settled-endif y) a b
    discard (at_else p t q) ls s d x y a b f =
        let l = line_of (directive else_line) p in
        seq newline (omega arith)
          (one newline l _ s (suc d) (settled y) delse (suc d) false_else [] a (settled-else y)
            (λ s1 a1 k w. sets newline false l (settled y) false_else (suc d) s1 a1))
          (λ s1 a1 k1.
            seq newline (omega arith) (hide t _ s1 (suc d) in_false_else a1 f) (λ s2 a2 k2.
              ends_hidden newline q ls s2 d x false_else refl a2
                (k2 d (omega arith) ∙ k1 d (omega arith) ∙ b)))
    discard (at_elif c p t r) ls s d x y a b (ft, fr) =
        let l = line_of (directive (elif_type c)) p in
        seq newline (omega arith)
          (one newline l _ s (suc d) (settled y) dfalse (suc d) false_trailer [] a
            (settled-elif y c)
            (λ s1 a1 k w. shifts newline false l (settled y) false_trailer d s1 a1))
          (λ s1 a1 k1.
            seq newline (omega arith) (hide t _ s1 (suc d) in_false_trailer a1 ft) (λ s2 a2 k2.
              discard r ls s2 d x behind_all a2 (k2 d (omega arith) ∙ k1 d (omega arith) ∙ b) fr))

    pend :
        (r : Parts) (ls : List Line) (s : State) (d : ℕ) (x : Ifstate)
        → At (suc d) false_prefix s
        → s.ifstate d ≡ x
        → PartsFit (suc d) r
        → Reach newline (part_lines r ls) ls s d x (texts (first_part newline r))
    pend (at_endif p) ls s d x a b f = ends_hidden newline p ls s d x false_prefix refl a b
    pend (at_else p t q) ls s d x a b f =
        let l = line_of (directive else_line) p in
        writes newline (append-nil (texts (resolve newline t))) (
          seq newline (omega arith)
            (one newline l _ s (suc d) false_prefix selse (suc d) true_else [] a refl
              (λ s1 a1 k w. sets newline false l false_prefix true_else (suc d) s1 a1))
            (λ s1 a1 k1.
              seq newline (omega arith) (show t _ s1 (suc d) in_true_else a1 f) (λ s2 a2 k2.
                ends_hidden newline q ls s2 d x true_else refl a2
                  (k2 d (omega arith) ∙ k1 d (omega arith) ∙ b))))
    pend (at_elif (unknown n) p t r) ls s d x a b (ft, fr) =
        let l = line_of (directive elif_unknown) p in
        let kept = part_texts (resolve_parts newline r) in
        writes newline
          (ap (λ z. joined (as_if p) ∷ (texts (resolve newline t) ++ z)) (sym (append-nil kept)))
          (seq newline (omega arith)
            (one newline l _ s (suc d) false_prefix mpass (suc d) pass_middle
              (joined (as_if p) ∷ []) a refl
              (λ s1 a1 k w. shifts newline true (keyword_if l) false_prefix pass_middle d s1 a1))
            (λ s1 a1 k1.
              seq newline (omega arith) (show t _ s1 (suc d) in_pass_middle a1 ft) (λ s2 a2 k2.
                pass r ls s2 d x behind_kept a2 (k2 d (omega arith) ∙ k1 d (omega arith) ∙ b) fr)))
    pend (at_elif (known true) p t r) ls s d x a b (ft, fr) =
        let l = line_of (directive elif_true) p in
        writes newline (append-nil (texts (resolve newline t))) (
          seq newline (omega arith)
            (one newline l _ s (suc d) false_prefix strue (suc d) true_prefix [] a refl
              (λ s1 a1 k w. shifts newline false l false_prefix true_prefix d s1 a1))
            (λ s1 a1 k1.
              seq newline (omega arith) (show t _ s1 (suc d) in_true_prefix a1 ft) (λ s2 a2 k2.
                discard r ls s2 d x behind_true a2 (k2 d (omega arith) ∙ k1 d (omega arith) ∙ b)
                  fr)))
    pend (at_elif (known false) p t r) ls s d x a b (ft, fr) =
        let l = line_of (directive elif_false) p in
        seq newline (omega arith)
          (one newline l _ s (suc d) false_prefix sfalse (suc d) false_prefix [] a refl
            (λ s1 a1 k w. shifts newline false l false_prefix false_prefix d s1 a1))
          (λ s1 a1 k1.
            seq newline (omega arith) (hide t _ s1 (suc d) in_false_prefix a1 ft)
              (λ s2 a2 k2. pend r ls s2 d x a2 (k2 d (omega arith) ∙ k1 d (omega arith) ∙ b) fr))

    pass :
        (r : Parts) (ls : List Line) (s : State) (d : ℕ) (x : Ifstate) (y : Passing)
        → At (suc d) (passing y) s
        → s.ifstate d ≡ x
        → PartsFit (suc d) r
        → Reach newline (part_lines r ls) ls s d x (part_texts (resolve_parts newline r))
    pass (at_endif p) ls s d x y a b f =
        let l = line_of (directive endif_line) p in
        one newline l ls s (suc d) (passing y) pendif d x (joined p ∷ []) a (passing-endif y)
          (λ s1 a1 k w. closes newline true l (passing y) x d s1 a1 (k d (omega arith) ∙ b))
    pass (at_else p t q) ls s d x y a b f =
        let l = line_of (directive else_line) p in
        seq newline (omega arith)
          (one newline l _ s (suc d) (passing y) pelse (suc d) pass_else (joined p ∷ []) a
            (passing-else y) (λ s1 a1 k w. sets newline true l (passing y) pass_else (suc d) s1 a1))
          (λ s1 a1 k1.
            seq newline (omega arith) (show t _ s1 (suc d) in_pass_else a1 f) (λ s2 a2 k2.
              ends_shown newline q ls s2 d x a2 (k2 d (omega arith) ∙ k1 d (omega arith) ∙ b)))
    pass (at_elif (unknown n) p t r) ls s d x y a b (ft, fr) =
        let l = line_of (directive elif_unknown) p in
        seq newline (omega arith)
          (one newline l _ s (suc d) (passing y) pelif (suc d) pass_middle (joined p ∷ []) a
            (passing-unknown y)
            (λ s1 a1 k w. shifts newline true l (passing y) pass_middle d s1 a1))
          (λ s1 a1 k1.
            seq newline (omega arith) (show t _ s1 (suc d) in_pass_middle a1 ft) (λ s2 a2 k2.
              pass r ls s2 d x behind_kept a2 (k2 d (omega arith) ∙ k1 d (omega arith) ∙ b) fr))
    pass (at_elif (known true) p t r) ls s d x y a b (ft, fr) =
        let l = line_of (directive elif_true) p in
        let e = keyword_edit (defaults newline) (codes "else") l in
        seq newline (omega arith)
          (one newline l _ s (suc d) (passing y) mtrue (suc d) true_middle
            (joined (as_keyword newline (codes "else") p) ∷ []) a (passing-true y)
            (λ s1 a1 k w. sets newline true e (passing y) true_middle (suc d) s1 a1))
          (λ s1 a1 k1.
            seq newline (omega arith) (show t _ s1 (suc d) in_true_middle a1 ft)
              (λ s2 a2 k2. take r ls s2 d x a2 (k2 d (omega arith) ∙ k1 d (omega arith) ∙ b) fr))
    pass (at_elif (known false) p t r) ls s d x y a b (ft, fr) =
        let l = line_of (directive elif_false) p in
        seq newline (omega arith)
          (one newline l _ s (suc d) (passing y) delif (suc d) false_middle [] a (passing-false y)
            (λ s1 a1 k w. shifts newline false l (passing y) false_middle d s1 a1))
          (λ s1 a1 k1.
            seq newline (omega arith) (hide t _ s1 (suc d) in_false_middle a1 ft) (λ s2 a2 k2.
              pass r ls s2 d x behind_false a2 (k2 d (omega arith) ∙ k1 d (omega arith) ∙ b) fr))

    take :
        (r : Parts) (ls : List Line) (s : State) (d : ℕ) (x : Ifstate)
        → At (suc d) true_middle s
        → s.ifstate d ≡ x
        → PartsFit (suc d) r
        → Reach newline (part_lines r ls) ls s d x (joined (last_line newline r) ∷ [])
    take (at_endif p) ls s d x a b f =
        let l = line_of (directive endif_line) p in
        one newline l ls s (suc d) true_middle pendif d x (joined p ∷ []) a refl
          (λ s1 a1 k w. closes newline true l true_middle x d s1 a1 (k d (omega arith) ∙ b))
    take (at_else p t q) ls s d x a b f =
        let l = line_of (directive else_line) p in
        let e = keyword_edit (defaults newline) (codes "endif") l in
        seq newline (omega arith)
          (one newline l _ s (suc d) true_middle melse (suc d) false_else
            (joined (as_keyword newline (codes "endif") p) ∷ []) a refl
            (λ s1 a1 k w. sets newline true e true_middle false_else (suc d) s1 a1))
          (λ s1 a1 k1.
            seq newline (omega arith) (hide t _ s1 (suc d) in_false_else a1 f) (λ s2 a2 k2.
              ends_hidden newline q ls s2 d x false_else refl a2
                (k2 d (omega arith) ∙ k1 d (omega arith) ∙ b)))
    take (at_elif c p t r) ls s d x a b (ft, fr) =
        let l = line_of (directive (elif_type c)) p in
        let e = keyword_edit (defaults newline) (codes "endif") l in
        seq newline (omega arith)
          (one newline l _ s (suc d) true_middle melif (suc d) false_trailer
            (joined (as_keyword newline (codes "endif") p) ∷ []) a (true_middle-elif c)
            (λ s1 a1 k w. sets newline true e true_middle false_trailer (suc d) s1 a1))
          (λ s1 a1 k1.
            seq newline (omega arith) (hide t _ s1 (suc d) in_false_trailer a1 ft) (λ s2 a2 k2.
              discard r ls s2 d x behind_all a2 (k2 d (omega arith) ∙ k1 d (omega arith) ∙ b) fr))
