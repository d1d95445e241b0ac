-- ===== src/Unifdef/Machine.antt =====
-- scripts/unifdef.c: the state of the processor, the transition functions on it, and the driver.
-- A line comes with the type that parseline gives it, with its text, cut where `keyword` points, and
-- with what skipcomment leaves in `incomment`.
use embtoolkit.Base.{
  ℕ, ◌+◌, ◌-◌, ◌%◌, ◌^◌, Bool, true, false, not, ◌&&◌, ◌||◌, List, [], ◌∷◌, ◌++◌, ◌==◌, ltb,
  if◌then◌else◌, Text, codes, skip,
}
use embtoolkit.Unifdef.{
  Linetype, Ifstate, outside, false_prefix, true_prefix, pass_middle, false_middle, true_middle,
  pass_else, false_else, true_else, false_trailer, Action, eelif, eelse, eendif, eeof, eioccc,
  print, drop, strue, sfalse, selse, pelif, pelse, pendif, dfalse, delif, delse, dendif, fdrop,
  fpass, ftrue, ffalse, oiffy, oif, oelif, idrop, itrue, ifalse, mpass, mtrue, melif, melse, done,
  abort, transition,
}

-- `tline` is `before` and then `keyword`.
pub record Line : Type 0 where
  pub linetype : Linetype
  pub before : Text
  pub keyword : Text
  pub incomment : Bool

-- The options of the command line that the state machine reads, and `newline`.
pub record Options : Type 0 where
  pub compblank : Bool
  pub lnblank : Bool
  pub complement : Bool
  pub iocccok : Bool
  pub lnnum : Bool
  pub symlist : Bool
  pub newline : Text

-- What goes out: a line of text, by fputs to `output`, or a #line directive with its number, by printf to
-- standard output. The two go to one file only without -o.
pub data Written : Type 0 where
  text : Text → Written
  line_number : ℕ → Written

-- The globals. The arrays have MAXDEPTH elements; `exitstat` is 0 or 1. The ints `linenum` and `delcount`
-- do not overflow in a file of fewer than 2^31 lines.
pub record State : Type 0 where
  pub ifstate : ℕ → Ifstate
  pub ignoring : ℕ → Bool
  pub stifline : ℕ → ℕ
  pub depth : ℕ
  pub linenum : ℕ
  pub delcount : ℕ
  pub blankcount : ℕ
  pub blankmax : ℕ
  pub exitstat : ℕ
  pub incomment : Bool
  pub written : List Written

pub data Message : Type 0 where
  inappropriate_elif inappropriate_else inappropriate_endif premature_eof obfuscated too_many_levels
        eof_in_comment :
      Message

-- A transition goes on, ends the program by `error` or by `done`, or calls abort().
pub data Outcome : Type 0 where
  running : State → Outcome
  failed : Message → State → Outcome
  finished : State → Outcome
  aborted : Outcome

infixl 5 ◌⨾◌
abbrev pub ◌⨾◌ : Outcome → (State → Outcome) → Outcome
running s ⨾ f = f s
failed m s ⨾ f = failed m s
finished s ⨾ f = finished s
aborted ⨾ f = aborted

abbrev pub maxdepth : ℕ
maxdepth = 64

-- `a[i] = v`
abbrev pub update {ℓ} : {A : Type ℓ} → (ℕ → A) → ℕ → A → ℕ → A
update a i v k = if k == i then v else a k

abbrev is_blank_char : ℕ → Bool
is_blank_char c = c == 32 || (c == 9 || (c == 13 || c == 10))

-- `tline[strspn(tline, " \t\r\n")] == '\0'`
abbrev pub is_blank : Text → Bool
is_blank [] = true
is_blank (c ∷ t) = is_blank_char c && is_blank t

-- `keep ^ complement`
abbrev pub differ : Bool → Bool → Bool
differ true c = not c
differ false c = c

-- The branch of flushline that prints the line.
abbrev pub flush_kept : Options → Text → State → State
flush_kept o line s =
    let blankline = is_blank line in
    if blankline && (o.compblank && not (s.blankcount == s.blankmax))
    then record s { delcount = s.delcount + 1; blankcount = (s.blankcount + 1) % 2 ^ 32 }
    else (let count = if blankline then (s.blankcount + 1) % 2 ^ 32 else 0 in
        record s {
          delcount = 0;
          blankcount = count;
          blankmax = count;
          written =
              s.written
              ++ (if o.lnnum && ltb 0 s.delcount
                  then line_number s.linenum ∷ text line ∷ []
                  else text line ∷ []);
        })

-- The branch that leaves it out.
abbrev pub flush_deleted : Options → State → State
flush_deleted o s = record s {
  delcount = s.delcount + 1;
  blankcount = 0;
  exitstat = 1;
  written = s.written ++ (if o.lnblank then text o.newline ∷ [] else []);
}

-- flushline
unfoldable pub flushline : Options → Bool → Text → State → State
flushline o keep line s =
    if o.symlist
    then s
    else if differ keep o.complement
    then flush_kept o line s
    else flush_deleted o s

-- ignoreoff
unfoldable pub ignoreoff : State → Outcome
ignoreoff s =
    if s.depth == 0
    then aborted
    else running (record s { ignoring = update s.ignoring s.depth (s.ignoring (s.depth - 1)) })

-- ignoreon
unfoldable pub ignoreon : State → Outcome
ignoreon s = running (record s { ignoring = update s.ignoring s.depth true })

-- nest
unfoldable pub nest : State → Outcome
nest s =
    if ltb (maxdepth - 1) s.depth
    then aborted
    else if s.depth == maxdepth - 1
    then failed too_many_levels s
    else running
        (record s { depth = s.depth + 1; stifline = update s.stifline (s.depth + 1) s.linenum })

-- unnest
unfoldable pub unnest : State → Outcome
unnest s = if s.depth == 0 then aborted else running (record s { depth = s.depth - 1 })

-- state
unfoldable pub set_state : Ifstate → State → Outcome
set_state x s = running (record s { ifstate = update s.ifstate s.depth x })

abbrev pub whole : Line → Text
whole l = l.before ++ l.keyword

-- `strncpy(keyword, "if  ", 4)`
abbrev pub keyword_if : Line → Line
keyword_if l = record l { keyword = codes "if  " ++ skip 4 l.keyword }

-- The line after `snprintf(keyword, …, "%s%s", replacement, newline)`; the buffer has room for it.
abbrev pub keyword_edit : Options → Text → Line → Line
keyword_edit o replacement l = record l { keyword = replacement ++ o.newline }

-- done: without output errors.
unfoldable pub finish : State → Outcome
finish s = if s.incomment then failed eof_in_comment s else finished s

module _ (o : Options) where
  abbrev pub printed : Line → State → Outcome
  printed l s = running (flushline o true (whole l) s)

  abbrev pub dropped : Line → State → Outcome
  dropped l s = running (flushline o false (whole l) s)

  -- Strue, Sfalse, Dfalse, Delif: drop(); ignoreoff(); state(x)
  abbrev pub drop_to : Ifstate → Line → State → Outcome
  drop_to x l s = dropped l s ⨾ ignoreoff ⨾ set_state x

  -- Pelif: print(); ignoreoff(); state(IS_PASS_MIDDLE)
  abbrev pub pass_to : Line → State → Outcome
  pass_to l s = printed l s ⨾ ignoreoff ⨾ set_state pass_middle

  -- `if (!iocccok) Eioccc();`
  abbrev pub pedantic : State → Outcome
  pedantic s = if o.iocccok then running s else failed obfuscated s

  -- The state transition functions.
  unfoldable pub perform : Action → Line → State → Outcome
  unfolding nest unnest ignoreoff ignoreon set_state finish
  perform eelif l s = failed inappropriate_elif s
  perform eelse l s = failed inappropriate_else s
  perform eendif l s = failed inappropriate_endif s
  perform eeof l s = failed premature_eof s
  perform eioccc l s = failed obfuscated s
  perform print l s = printed l s
  perform drop l s = dropped l s
  perform strue l s = drop_to true_prefix l s
  perform sfalse l s = drop_to false_prefix l s
  perform selse l s = dropped l s ⨾ set_state true_else
  perform pelif l s = pass_to l s
  perform pelse l s = printed l s ⨾ set_state pass_else
  perform pendif l s = printed l s ⨾ unnest
  perform dfalse l s = drop_to false_trailer l s
  perform delif l s = drop_to false_middle l s
  perform delse l s = dropped l s ⨾ set_state false_else
  perform dendif l s = dropped l s ⨾ unnest
  perform fdrop l s = nest s ⨾ drop_to false_trailer l
  perform fpass l s = nest s ⨾ pass_to l
  perform ftrue l s = nest s ⨾ drop_to true_prefix l
  perform ffalse l s = nest s ⨾ drop_to false_prefix l
  perform oiffy l s = pedantic s ⨾ nest ⨾ pass_to l ⨾ ignoreon
  perform oif l s = pedantic s ⨾ nest ⨾ pass_to l
  perform oelif l s = pedantic s ⨾ pass_to l
  perform idrop l s = nest s ⨾ drop_to false_trailer l ⨾ ignoreon
  perform itrue l s = nest s ⨾ drop_to true_prefix l ⨾ ignoreon
  perform ifalse l s = nest s ⨾ drop_to false_prefix l ⨾ ignoreon
  perform mpass l s = pass_to (keyword_if l) s
  perform mtrue l s = printed (keyword_edit o (codes "else") l) s ⨾ set_state true_middle
  perform melif l s = printed (keyword_edit o (codes "endif") l) s ⨾ set_state false_trailer
  perform melse l s = printed (keyword_edit o (codes "endif") l) s ⨾ set_state false_else
  perform done l s = finish s
  perform abort l s = aborted

  -- One round of the loop of process: parseline counts the line, and the table is followed.
  unfoldable pub step : Line → State → Outcome
  unfolding perform
  step l s =
      perform (transition (s.ifstate s.depth) l.linetype) l
        (record s { linenum = s.linenum + 1; incomment = l.incomment })

  -- process, over the lines that parseline returns.
  unfoldable pub process : List Line → State → Outcome
  process [] s = running s
  process (l ∷ ls) s = step l s ⨾ process ls

-- The globals at the start: process sets the two blank counts.
abbrev pub initial : State
initial = record {
  ifstate = λ k. outside;
  ignoring = λ k. false;
  stifline = λ k. 0;
  depth = 0;
  linenum = 0;
  delcount = 0;
  blankcount = 1000;
  blankmax = 1000;
  exitstat = 0;
  incomment = false;
  written = [];
}
