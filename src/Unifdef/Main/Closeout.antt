-- ===== src/Unifdef/Main/Closeout.antt =====
-- scripts/unifdef.c: done, error and closeout, and what becomes of the file that is edited in place. The
-- calls of the C library on the files are parameters, with what their documentation says.
use embtoolkit.Base.{
  ℕ, ◌≡◌, ◌≢◌, refl, sym, ap, append-nil, append_assoc, ◌∙◌, Bool, true, false, List, [], ◌∷◌, ◌++◌,
  Option, none, some, Text, if◌then◌else◌, Bool-cases, inl, inr, ◌⊎◌,
}
use embtoolkit.Unifdef.Machine.{
  Options, State, running, failed, finished, aborted, Written, text, line_number,
}
use embtoolkit.Unifdef.Run.{Settings, Ending, ending, unterminated_literal, unfinished, unifdef}
use embtoolkit.Unifdef.Run.Ends.{Ends, unifdef-Ends}
use embtoolkit.Unifdef.Main.{Target, standard_output, to_file, to_temporary}

-- The contents of the files by their names
abbrev pub Files : Type 0
Files = Text → Option Text

-- What the lines put into `output`
abbrev pub output_text : List Written → Text
output_text [] = []
output_text (text t ∷ ws) = t ++ output_text ws
output_text (line_number n ∷ ws) = output_text ws

-- What `output` has of the text, and its error indicator, which a failed fputs sets. Nothing is known of
-- the text once it is set.
pub record Stream : Type 0 where
  pub has_error : Bool
  pub content : Text

-- fputs on a stream; fclose on a file with its stream, rename and unlink, with whether they succeed, and
-- the files after them; fclose of standard output leaves the files.
pub record Calls : Type 0 where
  pub fputs : Text → Stream → Stream
  pub fclose : Text → Stream → Files → Bool × Files
  pub fclose_stdout : Bool
  pub rename : Text → Text → Files → Bool × Files
  pub unlink : Text → Files → Files

-- What the calls promise: without an error indicator all fputs have written their texts, and where fclose
-- then succeeds too they are in the file.
pub record IsDocumented (calls : Calls) : Type 0 where
  pub fputs_sticky :
      (t : Text) (w : Stream) → (calls.fputs t w).has_error ≡ false → w.has_error ≡ false
  pub fputs_written :
      (t : Text) (w : Stream)
      → (calls.fputs t w).has_error ≡ false
      → (calls.fputs t w).content ≡ w.content ++ t
  pub fclose_written :
      (f : Text) (w : Stream) (s : Files)
      → w.has_error ≡ false
      → (calls.fclose f w s).0 ≡ true
      → (calls.fclose f w s).1 f ≡ some w.content
  pub fclose_others : (f g : Text) (w : Stream) (s : Files) → f ≢ g → (calls.fclose f w s).1 g ≡ s g
  pub rename_renamed :
      (f g : Text) (s : Files) → (calls.rename f g s).0 ≡ true → (calls.rename f g s).1 g ≡ s f
  pub rename_failed :
      (f g h : Text) (s : Files) → (calls.rename f g s).0 ≡ false → (calls.rename f g s).1 h ≡ s h
  pub unlink_others : (f g : Text) (s : Files) → f ≢ g → calls.unlink f s g ≡ s g

-- The files that closeout leaves, or those with which it exits.
pub data Closed : Type 0 where
  closed exited : Files → Closed

module _ (calls : Calls) where
  -- The calls of fputs for the lines; their results are not looked at.
  abbrev pub put_lines : List Written → Stream → Stream
  put_lines [] w = w
  put_lines (text t ∷ ws) w = put_lines ws (calls.fputs t w)
  put_lines (line_number n ∷ ws) w = put_lines ws w

  abbrev opened : Stream
  opened = record { has_error = false; content = [] }

  -- The error indicator that `output` has when it is closed.
  abbrev pub write_error : List Written → Bool
  write_error ws = (put_lines ws opened).has_error

  abbrev close_file : Target → Stream → Files → Bool × Files
  close_file standard_output w s = (calls.fclose_stdout, s)
  close_file (to_file f) w s = calls.fclose f w s
  close_file (to_temporary tempname f) w s = calls.fclose tempname w s

  -- `if (overwriting) unlink(tempname)`
  abbrev unlink_temporary : Target → Files → Files
  unlink_temporary (to_temporary tempname f) s = calls.unlink tempname s
  unlink_temporary _ s = s

  abbrev closeout : Target → Stream → Files → Closed
  closeout target w s =
      let (done, s') = close_file target w s in
      if done then closed s' else exited (unlink_temporary target s')

  abbrev rename_output : Target → ℕ → Files → ℕ × Files
  rename_output (to_temporary tempname ofilename) exitstat s =
      let (done, s') = calls.rename tempname ofilename s in
      if done then (exitstat, s') else (2, calls.unlink tempname s')
  rename_output _ exitstat s = (exitstat, s)

  -- done, but for its test of `incomment`
  abbrev on_done : Target → ℕ → Closed → ℕ × Files
  on_done target exitstat (closed s) = rename_output target exitstat s
  on_done target exitstat (exited s) = (2, s)

  -- error
  abbrev on_error : Closed → ℕ × Files
  on_error (closed s) = (2, s)
  on_error (exited s) = (2, s)

  -- The status of exit() and the files. abort() is not modelled: the program does not call it.
  unfoldable pub end_program : Target → Ending → Files → Option (ℕ × Files)
  end_program target (ending (finished z)) s =
      some (on_done target z.exitstat (closeout target (put_lines z.written opened) s))
  end_program target (ending (failed m z)) s =
      some (on_error (closeout target (put_lines z.written opened) s))
  end_program target (unterminated_literal k z) s =
      some (on_error (closeout target (put_lines z.written opened) s))
  end_program _ _ s = none

  -- How a program that edits the file f in place leaves it.
  abbrev pub Leaves : Text → Ending → Files → ℕ × Files → Type 0
  Leaves f e s (status, s') =
      ((z : State) × (e ≡ ending (finished z))
        × (status ≡ z.exitstat)
        × ((s' f ≡ some (output_text z.written)) ⊎ (write_error z.written ≡ true)))
      ⊎ ((status ≡ 2) × (s' f ≡ s f))

  module _ (law : IsDocumented calls) (tempname f : Text) (other : tempname ≢ f) where
    abbrev target : Target
    target = to_temporary tempname f

    put_lines-written :
        (ws : List Written) (w : Stream)
        → (put_lines ws w).has_error ≡ false
        → (w.has_error ≡ false) × ((put_lines ws w).content ≡ w.content ++ output_text ws)
    put_lines-written [] w h = (h, sym (append-nil w.content))
    put_lines-written (text t ∷ ws) w h =
        let (e, k) = put_lines-written ws (calls.fputs t w) h in
        (
          law.fputs_sticky t w e,
          k
              ∙ ap (λ u. u ++ output_text ws) (law.fputs_written t w e)
              ∙ append_assoc w.content t (output_text ws),
        )
    put_lines-written (line_number n ∷ ws) w h = put_lines-written ws w h

    -- fclose and unlink of the temporary file leave f.
    fclose-unchanged : (w : Stream) (s : Files) → (calls.fclose tempname w s).1 f ≡ s f
    fclose-unchanged w s = law.fclose_others tempname f w s other

    unlink-unchanged :
        (w : Stream) (s : Files) → calls.unlink tempname (calls.fclose tempname w s).1 f ≡ s f
    unlink-unchanged w s = law.unlink_others tempname f _ other ∙ fclose-unchanged w s

    on_error-Leaves :
        (e : Ending) (w : Stream) (s : Files) → Leaves f e s (on_error (closeout target w s))
    on_error-Leaves e w s = elim (Bool-cases (calls.fclose tempname w s).0) [
      | inl h ↦ rw h (inr (refl, fclose-unchanged w s))
      | inr h ↦ rw h (inr (refl, unlink-unchanged w s))
    ]

    on_done-Leaves :
        (z : State) (s : Files)
        → Leaves f
            (ending (finished z))
            s
            (on_done target z.exitstat (closeout target (put_lines z.written opened) s))
    on_done-Leaves z s =
        let w = put_lines z.written opened in
        let s' = (calls.fclose tempname w s).1 in
        elim (Bool-cases (calls.fclose tempname w s).0) [
          | inr h ↦ rw h (inr (refl, unlink-unchanged w s))
          | inl h ↦ elim (Bool-cases (calls.rename tempname f s').0) [
            | inl r ↦ rw h (
                rw r (
                  inl (
                    z,
                    refl,
                    refl,
                    elim (Bool-cases (write_error z.written)) [
                      | inl e ↦ inr e
                      | inr e ↦ inl (
                          law.rename_renamed tempname f s' r
                          ∙ law.fclose_written tempname w s e h
                          ∙ ap some (put_lines-written z.written opened e).1)
                    ],
                  )))
            | inr r ↦ rw h (
                rw r (
                  inr (
                    refl,
                    law.unlink_others tempname f _ other
                        ∙ law.rename_failed tempname f f s' r
                        ∙ fclose-unchanged w s,
                  )))
          ]
        ]

    ended-Leaves :
        (e : Ending) (s : Files)
        → Ends e
        → (r : ℕ × Files) × (end_program target e s ≡ some r) × Leaves f e s r
    unfolding end_program
    ended-Leaves (ending (finished z)) s h = (_, refl, on_done-Leaves z s)
    ended-Leaves (ending (failed m z)) s h =
        (_, refl, on_error-Leaves _ (put_lines z.written opened) s)
    ended-Leaves (unterminated_literal k z) s h =
        (_, refl, on_error-Leaves _ (put_lines z.written opened) s)
    ended-Leaves (ending (running z)) s h = absurd h
    ended-Leaves (ending aborted) s h = absurd h
    ended-Leaves unfinished s h = absurd h

    -- On every text, with the output going to a temporary file that is to take the place of the file f,
    -- the program exits. Either it ended regularly, and f holds all of its output, or a call of fputs has
    -- failed, of which the program takes no notice; or the status is 2 and f is as it was. This rests on
    -- what fputs, fclose, rename and unlink promise, on a name of the temporary file that is not f, and on
    -- options without -s and -S.
    pub in_place-Leaves :
        (o : Options) (u : Settings) (t : Text) (s : Files)
        → (r : ℕ × Files) × (end_program target (unifdef o u t) s ≡ some r)
          × Leaves f (unifdef o u t) s r
    in_place-Leaves o u t s = ended-Leaves (unifdef o u t) s (unifdef-Ends o u t)
