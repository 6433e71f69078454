-- ===== src/Tasks/Examples.antt =====
-- Examples for the list of tasks.
mod Buffers
mod Memory
use objectbox_go.Base.{
  ℕ, zero, suc, ◌≡◌, refl, arith, List, [], ◌∷◌, ◌++◌, Option, none, some, true, false, Outcome, ok,
  panic, pure, lookup, insert,
}
use objectbox_go.Base.Int.{pos}
use objectbox_go.Converters.{time_to_database}
use objectbox_go.Model.Names.{same_name}
use objectbox_go.Version.{less_than, version_lib_min}
use objectbox_go.Model.{ModelApi, validate}
use objectbox_go.Store.{StoreApi, ObjectBox, new_builder, with_model, build_store}
use objectbox_go.Tasks.Setup.{init_object_box, init_object_box-Task}
use objectbox_go.Tasks.{Task}
use objectbox_go.Tasks.Binding.{flatten, task_binding}
use objectbox_go.Tasks.Reading.{load-flatten, as_stored, Loads}
use objectbox_go.FbUtils.Buffers.{finished}
use objectbox_go.Tasks.Boxes.{Tasks, task_put, task_get}
use objectbox_go.Tasks.Kept.{task_box, Keeps, put-Keeps, get-put}
use objectbox_go.Tasks.Schema.{
  Declares, task_entity_info, object_box_model, object_box_model-Declares,
}
use objectbox_go.Tasks.Shell.{
  TaskOps, Console, Printed, prompt, help, welcome, created, completed, round,
  run_interactive_shell, create_task, set_done,
}
use objectbox_go.Tasks.Lines.{is_line, is_exit, split_lines}
use objectbox_go.Tasks.Ending.{nothing, next_line, EndsInPanic, shell_returns, shell_panics}
use objectbox_go.Tasks.Created.{the_ops, get-create_task}
use objectbox_go.Tasks.Finished.{get-set_done}
use objectbox_go.Tasks.Finished
use objectbox_go.Tasks.App.{box_ops}
use objectbox_go.Tasks.Texts.{same_text, fields, trim_space, to_lower}
use objectbox_go.Tasks.Examples.Buffers.{buffers}
use objectbox_go.Tasks.Examples.Buffers.Laws.{buffers_laws}
use objectbox_go.Tasks.Examples.Memory.{
  World, heap, heap_laws, core, tx, store_laws, give_id, get_bytes, give_id-given, now, milk, start,
}

fields_lem :
    fields (32 ∷ 110 ∷ 101 ∷ 0xC2 ∷ 0xA0 ∷ 97 ∷ 10 ∷ []) ≡ (110 ∷ 101 ∷ []) ∷ (97 ∷ []) ∷ []
unfolding fields
fields_lem = refl

trim_space_lem : trim_space (32 ∷ 110 ∷ 32 ∷ 97 ∷ 10 ∷ []) ≡ 110 ∷ 32 ∷ 97 ∷ []
unfolding trim_space
trim_space_lem = refl

to_lower_lem : to_lower (78 ∷ 0xE2 ∷ 0x84 ∷ 0xAA ∷ []) ≡ 110 ∷ 107 ∷ []
unfolding to_lower
to_lower_lem = refl

load-flatten_example :
    (bytes : List ℕ) × (flatten heap buffers (some 1) 7 start ≡ (ok bytes, start))
    × ((w' : World) → Loads heap buffers bytes milk w')
load-flatten_example =
    load-flatten heap heap_laws buffers buffers_laws 1 7 start (omega arith) (omega arith)

-- A task that has been put.
abbrev put_world : World
put_world = (task_put tx (task_box heap buffers core) (some 1) start).1

put_id : (task_put tx (task_box heap buffers core) (some 1) start).0 ≡ ok 7
unfolding task_put task_binding finished buffers give_id
put_id = refl

get-put_example :
    (q : ℕ) × ((task_get tx (task_box heap buffers core) 7 put_world).0 ≡ ok (some q))
    × (heap.read q (task_get tx (task_box heap buffers core) 7 put_world).1 ≡ milk)
get-put_example =
    get-put heap buffers core tx store_laws buffers_laws heap_laws 1 1 start put_world (omega arith)
      (omega arith) put_id refl refl (λ w. refl)

abbrev model_api : ModelApi World
model_api = record {
  errors = record { last_error_message = λ w. none };
  new_model = λ w. (some 3, w);
  call = λ m op w. (0, w);
}

object_box_model-Declares_example : Declares model_api 6 (object_box_model model_api 6 start).0
object_box_model-Declares_example =
    object_box_model-Declares model_api 3 6 start (λ w. refl) (λ m op w. refl)

abbrev ops : TaskOps World
ops = the_ops heap buffers core tx store_laws buffers_laws heap_laws (pure []) now

abbrev console : Console World
console = record { world = start; output = [] }

-- help, exit and more, in capitals too
abbrev session : List ℕ
session =
    (b'h' ∷ b'e' ∷ b'l' ∷ b'p' ∷ 10 ∷ [])
    ++ ((b'E' ∷ b'x' ∷ b'I' ∷ b'T' ∷ 10 ∷ []) ++ (b'l' ∷ b's' ∷ []))

shell_returns_example :
    run_interactive_shell heap ops session console
    ≡ some (ok tt, record { world = start; output = prompt ∷ help ∷ prompt ∷ help ∷ welcome ∷ [] })
unfolding fields trim_space to_lower is_line is_exit round
shell_returns_example =
    shell_returns heap ops ((b'h' ∷ b'e' ∷ b'l' ∷ b'p' ∷ 10 ∷ []) ∷ [])
      (b'E' ∷ b'x' ∷ b'I' ∷ b'T' ∷ 10 ∷ []) (b'l' ∷ b's' ∷ []) (next_line refl refl nothing) refl
      refl

shell_panics_example :
    EndsInPanic heap ops (run_interactive_shell heap ops (b'l' ∷ b's' ∷ 10 ∷ b'n' ∷ []) console)
unfolding fields trim_space to_lower is_exit split_lines same_text
shell_panics_example =
    shell_panics heap ops (b'l' ∷ b's' ∷ 10 ∷ b'n' ∷ []) console (refl, (refl, tt))

created_seven : (create_task heap ops (b'm' ∷ []) console).1.output ≡ created 7 ∷ []
unfolding create_task the_ops box_ops task_put task_binding finished buffers give_id
created_seven = refl

get-create_task_example :
    (q : ℕ) × ((task_get tx
        (task_box heap buffers core)
        7
        (create_task heap ops (b'm' ∷ []) console).1.world).0
      ≡ ok (some q))
    × (heap.read q
          (task_get tx
            (task_box heap buffers core)
            7
            (create_task heap ops (b'm' ∷ []) console).1.world).1
        ≡ record {
          id = 7;
          text = b'm' ∷ [];
          date_created = record { seconds = pos 1700000000; nanosecond = 123000000 };
          date_finished = record { seconds = pos 0; nanosecond = 0 };
        })
get-create_task_example =
    get-create_task heap buffers core tx store_laws buffers_laws heap_laws (pure []) now (b'm' ∷ [])
      1 console (omega arith) (omega arith) (omega arith) created_seven refl (λ w. refl)

-- The shell after the task has been put.
abbrev put_console : Console World
put_console = record { world = put_world; output = [] }

put_kept : Keeps heap buffers core tx store_laws 7 milk put_world
put_kept =
    put-Keeps heap buffers core tx store_laws buffers_laws heap_laws 1 start (omega arith)
      (omega arith) put_id

abbrev more_ops : TaskOps World
more_ops =
    Finished.the_ops heap buffers core tx store_laws buffers_laws heap_laws (pure []) now
      (λ w p. refl) give_id-given

completed_seven :
    (set_done heap more_ops 7 put_console).1.output
    ≡ completed 7 (record { seconds = pos 1700000000; nanosecond = 123456789 }) ∷ []
unfolding set_done Finished.the_ops box_ops task_put task_get task_binding finished buffers give_id
    get_bytes time_to_database
completed_seven = refl

get-set_done_example :
    (q : ℕ) × ((task_get tx
        (task_box heap buffers core)
        7
        (set_done heap more_ops 7 put_console).1.world).0
      ≡ ok (some q))
    × (heap.read q
          (task_get tx
            (task_box heap buffers core)
            7
            (set_done heap more_ops 7 put_console).1.world).1
        ≡ record {
          id = 7;
          text = b'm' ∷ b'i' ∷ b'l' ∷ b'k' ∷ [];
          date_created = record { seconds = pos 1600000000; nanosecond = 5000000 };
          date_finished = record { seconds = pos 1700000000; nanosecond = 123000000 };
        })
unfolding task_put task_get task_binding finished buffers give_id get_bytes
get-set_done_example =
    get-set_done heap buffers core tx store_laws buffers_laws heap_laws (pure []) now (λ w p. refl)
      give_id-given 6 1 1 milk put_console put_kept refl (omega arith) (omega arith) refl refl
      (λ k w. refl) completed_seven

abbrev store_api : StoreApi World
store_api = record {
  errors = record { last_error_message = λ w. none };
  opt = λ w. (some 1, w);
  opt_free = λ options w. w;
  opt_directory = λ options path w. (0, w);
  opt_max_db_size_in_kb = λ options n w. w;
  opt_max_readers = λ options n w. w;
  opt_model = λ options m w. w;
  store_open = λ options w. (some 9, w);
}

abbrev opened_store : ObjectBox
opened_store = record {
  store = some 9;
  entities_by_id = (1, task_entity_info) ∷ [];
  entities_by_name = ("Task", task_entity_info) ∷ [];
  boxes = [];
  async_timeout = 1000;
}

opens_store : (init_object_box model_api store_api version_lib_min 6 start).0 ≡ ok opened_store
unfolding init_object_box new_builder less_than object_box_model with_model build_store validate
    insert same_name
opens_store = refl

init_object_box-Task_example :
    (◌≡◌ {A = ℕ} 6 6) × (lookup 1 opened_store.entities_by_id ≡ some task_entity_info)
init_object_box-Task_example =
    init_object_box-Task model_api store_api 3 (λ w. refl) (λ m op w. refl) version_lib_min 6 start
      opens_store
