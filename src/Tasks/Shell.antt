-- ===== src/Tasks/Shell.antt =====
-- examples/tasks/main.go: the commands of the interactive shell and its loop. Its operations on the
-- box of tasks are `TaskOps`. What it prints is a list of what is printed, the last one first; how a
-- time is written is left out.
use objectbox_go.Base.{
  ℕ, zero, suc, Bool, true, false, List, [], ◌∷◌, Option, none, some, if◌then◌else◌, Outcome, ok,
  err, panic, Exec, pure, panics, GoError, message, ◌>>◌, length,
}
use objectbox_go.Base.Int.{pos}
use objectbox_go.Converters.{Time, parse_digits}
use objectbox_go.Tasks.{Task, TaskHeap, with_pointer}
use objectbox_go.Tasks.Boxes.{Tasks}
use objectbox_go.Tasks.Texts.{read_string, trim_space, fields, to_lower, join_blank, same_text}

-- The operations of TaskBox that the shell uses, and the clock. `unfinished` is Find of the query for
-- tasks with the date 0.
pub record TaskOps (W : Type 0) : Type 0 where
  pub put : Option ℕ → Exec W ℕ
  pub get : ℕ → Exec W (Option ℕ)
  pub get_all : Exec W Tasks
  pub unfinished : Exec W Tasks
  pub now : W → Time × W

pub data Printed : Type 0 where
  welcome help prompt wrong_number new_line header : Printed
  read_error unparsed not_created not_listed : GoError → Printed
  unknown_argument unknown_command : List ℕ → Printed
  created not_there : ℕ → Printed
  row : Task → Printed
  not_read not_updated : ℕ → GoError → Printed
  completed : ℕ → Time → Printed

pub record Console (W : Type 0) : Type 0 where
  pub world : W
  pub output : List Printed

abbrev pub print : {W : Type 0} → Printed → Exec (Console W) Unit
print line s = pure tt (record s { output = line ∷ s.output })

-- What follows a call on the world that can fail; a panic ends the program.
unfoldable pub after_call :
    {W A B : Type 0}
    → Outcome A × W
    → (GoError → Exec (Console W) B)
    → (A → Exec (Console W) B)
    → Exec (Console W) B
after_call (ok a, w) failed done s = done a (record s { world = w })
after_call (err e, w) failed done s = failed e (record s { world = w })
after_call (panic e, w) failed done s = panics e (record s { world = w })

unfoldable pub call :
    {W A B : Type 0}
    → Exec W A
    → (GoError → Exec (Console W) B)
    → (A → Exec (Console W) B)
    → Exec (Console W) B
unfolding after_call
call m failed done s = after_call (m s.world) failed done s

abbrev pub index_out_of_range : GoError
index_out_of_range = message "index out of range [0] with length 0"

module _ {W : Type 0} (heap : TaskHeap W) (ops : TaskOps W) where
  unfoldable pub set_task : ℕ → Task → Exec (Console W) Unit
  set_task p task s = pure tt (record s { world = heap.write p task s.world })

  -- The identifier that Put gave, in the task and on the screen.
  unfoldable pub numbered : ℕ → ℕ → Exec (Console W) Unit
  unfolding set_task
  numbered p id = do
    (λ s. set_task p (record (heap.read p s.world) { id = id }) s)
    (λ s. print (created (heap.read p s.world).id) s)

  -- createTask: the new task, and what follows once it is in memory.
  unfoldable pub new_task : List ℕ → W → ℕ × W
  new_task text w =
      let (now, w1) = ops.now w in
      heap.alloc
        (record {
          id = 0;
          text = text;
          date_created = now;
          date_finished = record { seconds = pos 0; nanosecond = 0 };
        })
        w1

  unfoldable pub put_task : ℕ → Exec (Console W) Unit
  unfolding call numbered
  put_task p = call (ops.put (some p)) (λ e. print (not_created e)) (numbered p)

  unfoldable pub create_task : List ℕ → Exec (Console W) Unit
  unfolding new_task put_task
  create_task text s = let (p, w) = new_task text s.world in put_task p (record s { world = w })

  unfoldable pub print_rows : Tasks → Exec (Console W) Unit
  unfolding with_pointer
  print_rows [] = pure tt
  print_rows (task ∷ tasks) = do
    with_pointer task (λ p s. print (row (heap.read p s.world)) s)
    print_rows tasks

  unfoldable pub print_table : Tasks → Exec (Console W) Unit
  unfolding print_rows
  print_table tasks = do print header; print_rows tasks

  -- printList; after an error the list is nil, and the header is printed all the same.
  unfoldable pub print_list : Bool → Exec (Console W) Unit
  unfolding call print_table
  print_list all =
      call (if all then ops.get_all else ops.unfinished)
        (λ e. do print (not_listed e); print_table []) print_table

  unfoldable pub finish_task : ℕ → Option ℕ → Exec (Console W) Unit
  unfolding call set_task
  finish_task id none s = print (not_there id) s
  finish_task id (some p) s =
      let (now, w) = ops.now s.world in
      let task = heap.read p w in
      call (ops.put (some p)) (λ e. print (not_updated id e))
        (λ put_id v. print (completed id (heap.read p v.world).date_finished) v)
        (record s { world = heap.write p (record task { date_finished = now }) w })

  -- setDone
  unfoldable pub set_done : ℕ → Exec (Console W) Unit
  unfolding call finish_task
  set_done id = call (ops.get id) (λ e. print (not_read id e)) (finish_task id)

  unfoldable pub done_parsed : Outcome ℕ → Exec (Console W) Unit
  unfolding set_done
  done_parsed (ok id) = set_done id
  done_parsed (err e) = print (unparsed e)
  done_parsed (panic e) = panics e

  -- The cases of the switch.
  unfoldable pub done_command : List (List ℕ) → Exec (Console W) Unit
  unfolding done_parsed parse_digits
  done_command (text ∷ []) = done_parsed (parse_digits 0 text)
  done_command _ = print wrong_number

  unfoldable pub ls_command : List (List ℕ) → Exec (Console W) Unit
  unfolding print_list same_text
  ls_command [] = print_list false
  ls_command (flag ∷ rest) =
      if same_text flag (b'-' ∷ b'a' ∷ [])
      then print_list true
      else (do print (unknown_argument flag); print new_line)

  -- Whether the shell returns.
  unfoldable pub command : List ℕ → List ℕ → List (List ℕ) → Exec (Console W) Bool
  unfolding create_task done_command ls_command same_text join_blank
  command input name args =
      if same_text name (b'n' ∷ b'e' ∷ b'w' ∷ [])
      then create_task (join_blank args) >> pure false
      else if same_text name (b'd' ∷ b'o' ∷ b'n' ∷ b'e' ∷ [])
      then done_command args >> pure false
      else if same_text name (b'l' ∷ b's' ∷ [])
      then ls_command args >> pure false
      else if same_text name (b'e' ∷ b'x' ∷ b'i' ∷ b't' ∷ [])
      then pure true
      else if same_text name (b'h' ∷ b'e' ∷ b'l' ∷ b'p' ∷ [])
      then print help >> pure false
      else (do print (unknown_command input); print help; pure false)

  -- args[0] panics on a line without a word.
  unfoldable pub commanded : List ℕ → List (List ℕ) → Exec (Console W) Bool
  unfolding command to_lower
  commanded input [] = panics index_out_of_range
  commanded input (name ∷ args) = command input (to_lower name) args

  -- One round of the loop on what ReadString gave.
  unfoldable pub round : List ℕ → Bool → Exec (Console W) Bool
  unfolding commanded trim_space fields
  round line ended = do
    print prompt
    if ended then print (read_error (message "EOF")) else pure tt
    commanded (trim_space line) (fields (trim_space line))

  unfoldable pub goes_on : Outcome Bool → Option (Outcome (Unit {0}))
  goes_on (ok true) = some (ok tt)
  goes_on (ok false) = none
  goes_on (err e) = some (err e)
  goes_on (panic e) = some (panic e)

  -- The loop of runInteractiveShell, none if the fuel is used up before it ends.
  unfoldable pub shell_loop : ℕ → List ℕ → Console W → Option (Outcome (Unit {0}) × Console W)
  unfolding round read_string goes_on
  shell_loop zero input s = none
  shell_loop (suc fuel) input s =
      let (line, ended, rest) = read_string input in
      let (r, s') = round line ended s in
      let next = shell_loop fuel rest s' in
      elim (goes_on r) [ some r' ↦ some (r', s') | none ↦ next ]

  -- runInteractiveShell; a round for each byte of the input and one for its end are enough.
  unfoldable pub run_interactive_shell :
      List ℕ → Console W → Option (Outcome (Unit {0}) × Console W)
  unfolding shell_loop
  run_interactive_shell input s =
      shell_loop (suc (length input)) input (record s { output = help ∷ welcome ∷ s.output })
