-- ===== src/Tasks/Rounds.antt =====
-- A round of the shell of examples/tasks/main.go: when it ends the shell, and that it has no error.
use objectbox_go.Base.{
  ℕ, ◌≢◌, Bool, true, false, List, [], ◌∷◌, Option, none, some, Outcome, ok, err, panic, Exec,
  GoError, Bool-cases, inl, inr, ◌>>=◌, ◌>>◌, pure, continue, message, if◌then◌else◌,
}
use objectbox_go.Converters.{parse_digits}
use objectbox_go.Tasks.{TaskHeap, with_pointer}
use objectbox_go.Tasks.Boxes.{Tasks}
use objectbox_go.Tasks.Texts.{trim_space, fields, to_lower, same_text, join_blank}
use objectbox_go.Tasks.Shell.{
  TaskOps, Console, Printed, prompt, help, print, read_error, call, after_call, create_task,
  new_task, put_task, set_task, numbered, row, header, not_created, created, not_listed, not_there,
  not_updated, completed, not_read, unparsed, wrong_number, unknown_argument, unknown_command,
  new_line, print_rows, print_table, print_list, finish_task, set_done, done_parsed, done_command,
  ls_command, command, commanded, round,
}

-- A call that returns or panics.
abbrev NoError : {W A : Type 0} → Exec (Console W) A → Type 0
NoError {W} m = (s : Console W) (e : GoError) → (m s).0 ≢ err e

module _ {W A B : Type 0} where
  bind-NoError :
      (m : Exec (Console W) A) (f : A → Exec (Console W) B)
      → NoError m
      → ((a : A) → NoError (f a))
      → NoError (m >>= f)
  bind-NoError m f h k s e = go (m s).0 (m s).1 (h s e)
    where
      go : (r : Outcome A) (v : Console W) → r ≢ err e → (continue r f v).0 ≢ err e
      go (ok a) v n = k a v e
      go (err e') v n = λ p. n (cc)
      go (panic e') v n = λ p. cc

  call-NoError :
      (m : Exec W A) (failed : GoError → Exec (Console W) B) (done : A → Exec (Console W) B)
      → ((e : GoError) → NoError (failed e))
      → ((a : A) → NoError (done a))
      → NoError (call m failed done)
  unfolding call after_call
  call-NoError m failed done h k s e = go (m s.world)
    where
      go : (r : Outcome A × W) → (after_call r failed done s).0 ≢ err e
      go (ok a, w) = k a (record s { world = w }) e
      go (err e', w) = h e' (record s { world = w }) e
      go (panic e', w) = λ p. cc

module _ {W : Type 0} where
  print-NoError : (line : Printed) → NoError {W = W} (print line)
  print-NoError line s e = λ p. cc

  pure-NoError : {A : Type 0} (a : A) → NoError {W = W} (pure a)
  pure-NoError a s e = λ p. cc

  show-NoError : (line : Console W → Printed) → NoError {W = W} (λ s. print (line s) s)
  show-NoError line s e = λ p. cc

  change-NoError : (f : Console W → Console W) → NoError {W = W} (λ s. pure tt (f s))
  change-NoError f s e = λ p. cc

  then-NoError :
      {A B : Type 0} (m : Exec (Console W) A) (n : Exec (Console W) B)
      → NoError m
      → NoError n
      → NoError (m >> n)
  then-NoError m n h k = bind-NoError m (λ a. n) h (λ a. k)

  returns : (m : Exec (Console W) Unit) → NoError m → NoError (m >> pure false)
  returns m h = then-NoError m (pure false) h (pure-NoError false)

  if-NoError :
      {A : Type 0} (b : Bool) (m n : Exec (Console W) A)
      → NoError m
      → NoError n
      → NoError (if b then m else n)
  if-NoError true m n h k = h
  if-NoError false m n h k = k

module _ {W : Type 0} (heap : TaskHeap W) (ops : TaskOps W) where
  numbered-NoError : (p id : ℕ) → NoError (numbered heap ops p id)
  unfolding numbered set_task
  numbered-NoError p id =
      then-NoError (λ s. set_task heap ops p (record (heap.read p s.world) { id = id }) s)
        (λ s. print (created (heap.read p s.world).id) s) (λ s e r. cc)
        (show-NoError (λ s. created (heap.read p s.world).id))

  put_task-NoError : (p : ℕ) → NoError (put_task heap ops p)
  unfolding put_task
  put_task-NoError p =
      call-NoError (ops.put (some p)) (λ e. print (not_created e)) (numbered heap ops p)
        (λ e. print-NoError (not_created e)) (numbered-NoError p)

  create_task-NoError : (text : List ℕ) → NoError (create_task heap ops text)
  unfolding create_task
  create_task-NoError text s =
      let (p, w) = new_task heap ops text s.world in put_task-NoError p (record s { world = w })

  print_rows-NoError : (tasks : Tasks) → NoError (print_rows heap ops tasks)
  unfolding print_rows with_pointer
  print_rows-NoError [] = pure-NoError tt
  print_rows-NoError (none ∷ tasks) = λ s e. λ p. cc
  print_rows-NoError (some t ∷ tasks) =
      then-NoError (λ s. print (row (heap.read t s.world)) s) (print_rows heap ops tasks)
        (show-NoError (λ s. row (heap.read t s.world))) (print_rows-NoError tasks)

  print_table-NoError : (tasks : Tasks) → NoError (print_table heap ops tasks)
  unfolding print_table
  print_table-NoError tasks =
      then-NoError (print header) (print_rows heap ops tasks) (print-NoError header)
        (print_rows-NoError tasks)

  print_list-NoError : (all : Bool) → NoError (print_list heap ops all)
  unfolding print_list
  print_list-NoError all =
      call-NoError (if all then ops.get_all else ops.unfinished)
        (λ e. do print (not_listed e); print_table heap ops []) (print_table heap ops)
        (λ e.
          then-NoError (print (not_listed e)) (print_table heap ops [])
            (print-NoError (not_listed e)) (print_table-NoError []))
        print_table-NoError

  finish_task-NoError : (id : ℕ) (p : Option ℕ) → NoError (finish_task heap ops id p)
  unfolding finish_task
  finish_task-NoError id none s e = print-NoError (not_there id) s e
  finish_task-NoError id (some q) s e =
      call-NoError (ops.put (some q)) (λ e'. print (not_updated id e'))
        (λ i v. print (completed id (heap.read q v.world).date_finished) v)
        (λ e'. print-NoError (not_updated id e'))
        (λ i. show-NoError (λ v. completed id (heap.read q v.world).date_finished)) _ e

  done_parsed-NoError : (r : Outcome ℕ) → NoError (done_parsed heap ops r)
  unfolding done_parsed set_done
  done_parsed-NoError (ok id) =
      call-NoError (ops.get id) (λ e. print (not_read id e)) (finish_task heap ops id)
        (λ e. print-NoError (not_read id e)) (finish_task-NoError id)
  done_parsed-NoError (err e) = print-NoError (unparsed e)
  done_parsed-NoError (panic e) = λ s e'. λ p. cc

  done_command-NoError : (args : List (List ℕ)) → NoError (done_command heap ops args)
  unfolding done_command
  done_command-NoError [] = print-NoError wrong_number
  done_command-NoError (text ∷ []) = done_parsed-NoError (parse_digits 0 text)
  done_command-NoError (text ∷ more ∷ args) = print-NoError wrong_number

  ls_command-NoError : (args : List (List ℕ)) → NoError (ls_command heap ops args)
  unfolding ls_command
  ls_command-NoError [] = print_list-NoError false
  ls_command-NoError (flag ∷ args) = elim (Bool-cases (same_text flag (b'-' ∷ b'a' ∷ []))) [
    | inl e ↦ rw e (print_list-NoError true)
    | inr e ↦ rw e (
        then-NoError (print (unknown_argument flag)) (print new_line)
          (print-NoError (unknown_argument flag)) (print-NoError new_line))
  ]

  command-NoError :
      (input name : List ℕ) (args : List (List ℕ)) → NoError (command heap ops input name args)
  unfolding command
  command-NoError input name args =
      if-NoError _ _ _ (returns _ (create_task-NoError (join_blank args))) (
        if-NoError _ _ _ (returns _ (done_command-NoError args)) (
          if-NoError _ _ _ (returns _ (ls_command-NoError args)) (
            if-NoError _ _ _ (pure-NoError true) (
              if-NoError _ _ _ (returns (print help) (print-NoError help)) (
                then-NoError (print (unknown_command input)) (print help >> pure false)
                  (print-NoError (unknown_command input))
                  (returns (print help) (print-NoError help)))))))

  commanded-NoError :
      (input : List ℕ) (args : List (List ℕ)) → NoError (commanded heap ops input args)
  unfolding commanded
  commanded-NoError input [] = λ s e. λ p. cc
  commanded-NoError input (name ∷ args) = command-NoError input (to_lower name) args

  -- A round returns or panics.
  pub round-NoError :
      (line : List ℕ) (ended : Bool) (s : Console W) (e : GoError)
      → (round heap ops line ended s).0 ≢ err e
  unfolding round
  round-NoError line ended =
      then-NoError (print prompt)
        ((if ended then print (read_error (message "EOF")) else pure tt)
          >> commanded heap ops (trim_space line) (fields (trim_space line)))
        (print-NoError prompt)
        (then-NoError (if ended then print (read_error (message "EOF")) else pure tt)
          (commanded heap ops (trim_space line) (fields (trim_space line)))
          (if-NoError ended (print (read_error (message "EOF"))) (pure tt)
            (print-NoError (read_error (message "EOF"))) (pure-NoError tt))
          (commanded-NoError (trim_space line) (fields (trim_space line))))
