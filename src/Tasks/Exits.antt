-- ===== src/Tasks/Exits.antt =====
-- When a round of the shell of examples/tasks/main.go tells it to return.
use objectbox_go.Base.{
  ℕ, ◌≡◌, ◌≢◌, refl, ap, arith, Bool, true, false, List, [], ◌∷◌, Outcome, ok, err, panic, Exec,
  ◌>>◌, pure, continue, message, if◌then◌else◌,
}
use objectbox_go.Tasks.{TaskHeap}
use objectbox_go.Tasks.Texts.{trim_space, fields, to_lower, same_text, join_blank}
use objectbox_go.Tasks.Lines.{is_exit, exit_word}
use objectbox_go.Tasks.Shell.{
  TaskOps, Console, prompt, help, print, read_error, unknown_command, create_task, done_command,
  ls_command, command, commanded, round,
}

abbrev exit_name : List ℕ
exit_name = b'e' ∷ b'x' ∷ b'i' ∷ b't' ∷ []

same_text-eq : (s t : List ℕ) → same_text s t ≡ true → s ≡ t
unfolding same_text
same_text-eq [] [] h = refl
same_text-eq [] (b ∷ t) h = absurd (ground arith)
same_text-eq (a ∷ s) [] h = absurd (ground arith)
same_text-eq (a ∷ s) (b ∷ t) h = ground (arith, same_text-eq s t)

module _ {W : Type 0} where
  -- What returns no matter what says false at the end.
  abbrev StaysOpen : Exec (Console W) Bool → Type 0
  StaysOpen m = (s : Console W) → (m s).0 ≢ ok true

  then-StaysOpen :
      {A : Type 0} (m : Exec (Console W) A) (n : Exec (Console W) Bool)
      → StaysOpen n
      → StaysOpen (m >> n)
  then-StaysOpen {A} m n h s = go (m s).0 (m s).1
    where
      go : (r : Outcome A) (v : Console W) → (continue r (λ a. n) v).0 ≢ ok true
      go (ok a) v = h v
      go (err e) v = λ p. cc
      go (panic e) v = λ p. cc

  false-StaysOpen : StaysOpen (pure false)
  false-StaysOpen s = λ p. cc

  if-StaysOpen :
      (b : Bool) (m n : Exec (Console W) Bool)
      → StaysOpen m
      → StaysOpen n
      → StaysOpen (if b then m else n)
  if-StaysOpen true m n h k = h
  if-StaysOpen false m n h k = k

  if_false :
      (b : Bool) (m n : Exec (Console W) Bool)
      → b ≡ false
      → StaysOpen n
      → StaysOpen (if b then m else n)
  if_false b m n e h = rw e h

module _ {W : Type 0} (heap : TaskHeap W) (ops : TaskOps W) where
  command-StaysOpen :
      (input name : List ℕ) (args : List (List ℕ))
      → same_text name exit_name ≡ false
      → StaysOpen (command heap ops input name args)
  unfolding command
  command-StaysOpen input name args h =
      if-StaysOpen _ _ _
        (then-StaysOpen (create_task heap ops (join_blank args)) (pure false) false-StaysOpen)
        (if-StaysOpen _ _ _
          (then-StaysOpen (done_command heap ops args) (pure false) false-StaysOpen)
          (if-StaysOpen _ _ _
            (then-StaysOpen (ls_command heap ops args) (pure false) false-StaysOpen)
            (if_false _ _ _ h (
              if-StaysOpen _ _ _ (then-StaysOpen (print help) (pure false) false-StaysOpen) (
                then-StaysOpen (print (unknown_command input)) (print help >> pure false)
                  (then-StaysOpen (print help) (pure false) false-StaysOpen))))))

  commanded-StaysOpen :
      (input : List ℕ) (args : List (List ℕ))
      → exit_word args ≡ false
      → StaysOpen (commanded heap ops input args)
  unfolding commanded exit_word
  commanded-StaysOpen input [] h = λ s. λ p. cc
  commanded-StaysOpen input (name ∷ args) h = command-StaysOpen input (to_lower name) args h

  -- A line that is no exit does not make the shell return.
  pub round-StaysOpen :
      (line : List ℕ) (ended : Bool) (s : Console W)
      → is_exit line ≡ false
      → (round heap ops line ended s).0 ≢ ok true
  unfolding round is_exit
  round-StaysOpen line ended s h =
      then-StaysOpen (print prompt)
        ((if ended then print (read_error (message "EOF")) else pure tt)
          >> commanded heap ops (trim_space line) (fields (trim_space line)))
        (then-StaysOpen (if ended then print (read_error (message "EOF")) else pure tt)
          (commanded heap ops (trim_space line) (fields (trim_space line)))
          (commanded-StaysOpen (trim_space line) (fields (trim_space line)) h))
        s

  exit_command :
      (input name : List ℕ) (args : List (List ℕ)) (s : Console W)
      → same_text name exit_name ≡ true
      → command heap ops input name args s ≡ (ok true, s)
  unfolding command same_text
  exit_command input name args s h =
      ap (λ n. command heap ops input n args s) (same_text-eq name exit_name h)

  exit_commanded :
      (input : List ℕ) (args : List (List ℕ)) (s : Console W)
      → exit_word args ≡ true
      → commanded heap ops input args s ≡ (ok true, s)
  unfolding commanded exit_word
  exit_commanded input [] s h = cc
  exit_commanded input (name ∷ args) s h = exit_command input (to_lower name) args s h

  -- On a line with exit the shell prints its prompt and returns.
  pub round-exit :
      (line : List ℕ) (s : Console W)
      → is_exit line ≡ true
      → round heap ops line false s ≡ (ok true, record s { output = prompt ∷ s.output })
  unfolding round is_exit
  round-exit line s h =
      exit_commanded (trim_space line) (fields (trim_space line))
        (record s { output = prompt ∷ s.output }) h
