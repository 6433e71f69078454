-- ===== src/Tasks/Ending.antt =====
-- How the interactive shell of examples/tasks/main.go ends: its loop over all lines of the input.
use objectbox_go.Base.{
  ℕ, zero, suc, ◌<◌, ◌≡◌, ◌≢◌, refl, sym, ap, subst, ◌∙◌, arith, Bool, true, false, List, [], ◌∷◌,
  ◌++◌, length, length-append, Option, none, some, if◌then◌else◌, Outcome, ok, err, panic, GoError,
}
use mathlib.Core.List.{append_assoc}
use objectbox_go.Tasks.{TaskHeap}
use objectbox_go.Tasks.Texts.{read_string, fields, trim_space}
use objectbox_go.Tasks.Lines.{
  is_exit, is_line, split_lines, read_string-split, read_string-length, read_string-line,
  read_string-ended, line_length,
}
use objectbox_go.Tasks.Shell.{
  TaskOps, Console, prompt, help, welcome, round, commanded, goes_on, shell_loop,
  run_interactive_shell,
}
use objectbox_go.Tasks.Rounds.{round-NoError}
use objectbox_go.Tasks.Exits.{round-StaysOpen, round-exit}

-- No line of an input is one with exit.
abbrev pub NoneExits : List (List ℕ) → Type 0
NoneExits [] = Unit
NoneExits (line ∷ lines) = (is_exit line ≡ false) × NoneExits lines

-- The shell has run these lines, in this order, and goes on.
pub data Runs {W : Type 0} (heap : TaskHeap W) (ops : TaskOps W)
    : List (List ℕ) → Console W → Console W → Type 0 where
  nothing : {s : Console W} → Runs heap ops [] s s
  next_line :
      {line : List ℕ} {lines : List (List ℕ)} {s s' s'' : Console W}
      → is_line line ≡ true
      → round heap ops line false s ≡ (ok false, s')
      → Runs heap ops lines s' s''
      → Runs heap ops (line ∷ lines) s s''

abbrev pub concat_lines : List (List ℕ) → List ℕ
concat_lines [] = []
concat_lines (line ∷ lines) = line ++ concat_lines lines

module _ {W : Type 0} (heap : TaskHeap W) (ops : TaskOps W) where
  step_of : ℕ → List ℕ → Outcome Bool × Console W → Option (Outcome (Unit {0}) × Console W)
  step_of fuel rest (r, s') = elim (goes_on heap ops r) [
    | some r' ↦ some (r', s')
    | none ↦ shell_loop heap ops fuel rest s'
  ]

  shell_loop-step :
      (fuel : ℕ) (input line rest : List ℕ) (ended : Bool) (s : Console W)
      → read_string input ≡ (line, ended, rest)
      → shell_loop heap ops (suc fuel) input s ≡ step_of fuel rest (round heap ops line ended s)
  unfolding shell_loop step_of
  shell_loop-step fuel input line rest ended s e =
      ap (λ t. step_of fuel t.2 (round heap ops t.0 t.1 s)) e

  loop_returns :
      (fuel : ℕ) (lines : List (List ℕ)) (last rest : List ℕ) {s mid : Console W}
      → Runs heap ops lines s mid
      → is_line last ≡ true
      → is_exit last ≡ true
      → length (concat_lines lines) < fuel
      → shell_loop heap ops fuel (concat_lines lines ++ (last ++ rest)) s
        ≡ some (ok tt, record mid { output = prompt ∷ mid.output })
  unfolding step_of goes_on
  loop_returns zero lines last rest r l x h = absurd (omega arith)
  loop_returns (suc fuel) [] last rest {s} nothing l x h =
      shell_loop-step fuel (last ++ rest) last rest false s (read_string-line last rest l)
      ∙ ap (step_of fuel rest) (round-exit heap ops last s x)
  loop_returns (suc fuel) (line ∷ lines) last rest {s} (next_line i e r) l x h =
      let after = concat_lines lines ++ (last ++ rest) in
      ap (λ t. shell_loop heap ops (suc fuel) t s)
        (append_assoc line (concat_lines lines) (last ++ rest))
      ∙ shell_loop-step fuel (line ++ after) line after false s (read_string-line line after i)
      ∙ ap (step_of fuel after) e
      ∙ loop_returns fuel lines last rest r l x
          (omega (arith, length-append line (concat_lines lines), line_length line i))

  abbrev pub EndsInPanic : Option (Outcome (Unit {0}) × Console W) → Type 0
  EndsInPanic r = (e : GoError) × (s : Console W) × (r ≡ some (panic e, s))

  step_panics :
      (fuel : ℕ) (rest : List ℕ) (r : Outcome Bool × Console W)
      → r.0 ≢ ok true
      → ((e : GoError) → r.0 ≢ err e)
      → EndsInPanic (shell_loop heap ops fuel rest r.1)
      → EndsInPanic (step_of fuel rest r)
  unfolding step_of goes_on
  step_panics fuel rest (ok true, s) n m h = absurd (n refl)
  step_panics fuel rest (ok false, s) n m h = h
  step_panics fuel rest (err e, s) n m h = absurd (m e refl)
  step_panics fuel rest (panic e, s) n m h = (e, s, refl)

  none_behind :
      (ended : Bool) (rest : List ℕ)
      → (ended ≡ true → rest ≡ [])
      → NoneExits (if ended then [] else split_lines rest)
      → NoneExits (split_lines rest)
  unfolding split_lines is_exit fields trim_space
  none_behind true rest e n = subst (λ t. NoneExits (split_lines t)) (sym (e refl)) (refl, tt)
  none_behind false rest e n = n

  -- At the end of the input there is no word, and args[0] panics.
  at_end : (fuel : ℕ) (s : Console W) → EndsInPanic (shell_loop heap ops (suc fuel) [] s)
  unfolding shell_loop round commanded goes_on read_string
  at_end fuel s = (_, _, refl)

  loop_panics :
      (fuel : ℕ) (input : List ℕ) (s : Console W)
      → NoneExits (split_lines input)
      → length input < fuel
      → EndsInPanic (shell_loop heap ops fuel input s)
  loop_panics zero input s n h = absurd (omega arith)
  loop_panics (suc fuel) [] s n h = at_end fuel s
  loop_panics (suc fuel) (c ∷ input) s n h =
      let (line, ended, rest) = read_string (c ∷ input) in
      let (first, behind) = subst NoneExits (read_string-split (c ∷ input)) n in
      subst EndsInPanic (sym (shell_loop-step fuel (c ∷ input) line rest ended s refl)) (
        step_panics fuel rest (round heap ops line ended s)
          (round-StaysOpen heap ops line ended s first) (round-NoError heap ops line ended s)
          (loop_panics fuel rest (round heap ops line ended s).1
            (none_behind ended rest (read_string-ended (c ∷ input)) behind)
            (omega (arith, read_string-length c input))))

  -- On an input of whole lines that the shell runs, of a line with exit and of anything more, the
  -- shell returns: after it has run these lines, in this order, and printed one more prompt; what
  -- stands behind the exit is not read.
  pub shell_returns :
      (lines : List (List ℕ)) (last rest : List ℕ) {s mid : Console W}
      → Runs heap ops lines (record s { output = help ∷ welcome ∷ s.output }) mid
      → is_line last ≡ true
      → is_exit last ≡ true
      → run_interactive_shell heap ops (concat_lines lines ++ (last ++ rest)) s
        ≡ some (ok tt, record mid { output = prompt ∷ mid.output })
  unfolding run_interactive_shell
  shell_returns lines last rest {s} r l x =
      loop_returns (suc (length (concat_lines lines ++ (last ++ rest)))) lines last rest r l x
        (omega (arith, length-append (concat_lines lines) (last ++ rest)))

  -- On an input without a line with exit, whatever the other lines are and the operations do, the
  -- shell ends in a panic: it neither returns nor runs for ever.
  pub shell_panics :
      (input : List ℕ) (s : Console W)
      → NoneExits (split_lines input)
      → EndsInPanic (run_interactive_shell heap ops input s)
  unfolding run_interactive_shell
  shell_panics input s n =
      loop_panics (suc (length input)) input (record s { output = help ∷ welcome ∷ s.output }) n
        (omega arith)
