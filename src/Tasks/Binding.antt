-- ===== src/Tasks/Binding.antt =====
-- examples/tasks/internal/model/task.obx.go: the binding of the entity Task. The two converters of
-- times return no error, so that its checks of their errors never report one.
use objectbox_go.Base.{ℕ, Option, none, some, List, [], ◌∷◌, ◌++◌, Exec, pure, fail, message}
use objectbox_go.Converters.{time_to_property, time_to_database}
use objectbox_go.FbUtils.Setters.{
  set_uint64_slot, set_int64_slot, set_offset_slot, create_string_offset,
}
use objectbox_go.FbUtils.Getters.{Table, get_int64_slot, get_string_slot}
use objectbox_go.FbUtils.Buffers.{FlatBuffers, finished}
use objectbox_go.Box.Api.{Binding}
use objectbox_go.Tasks.{Task, TaskHeap, with_pointer}

-- The builder after the table of a task has been written, before the table is ended.
unfoldable pub flatten_task : {F : Type 0} → FlatBuffers F → Task → ℕ → F → F
unfolding set_uint64_slot set_int64_slot set_offset_slot create_string_offset
flatten_task fb task id b =
    let prop_date_created = time_to_database task.date_created in
    let prop_date_finished = time_to_database task.date_finished in
    let (offset_text, b1) = create_string_offset fb.builder task.text b in
    let b2 = fb.start_object 5 b1 in
    let b3 = set_uint64_slot fb.builder 0 id b2 in
    let b4 = set_offset_slot fb.builder 1 offset_text b3 in
    let b5 = set_int64_slot fb.builder 3 prop_date_created b4 in
    set_int64_slot fb.builder 4 prop_date_finished b5

unfoldable pub task_of_table : Table → Task
unfolding get_int64_slot get_string_slot
task_of_table table = record {
  id = table.uint64_slot 4 0;
  text = get_string_slot table 6;
  date_created = time_to_property (get_int64_slot table 10);
  date_finished = time_to_property (get_int64_slot table 12);
}

-- MakeSlice and AppendToSlice
unfoldable pub make_slice : ℕ → List (Option ℕ)
make_slice capacity = []

unfoldable pub append_to_slice : List (Option ℕ) → Option (Option ℕ) → List (Option ℕ)
append_to_slice slice none = slice ++ (none ∷ [])
append_to_slice slice (some object) = slice ++ (object ∷ [])

module _ {W F : Type 0} (heap : TaskHeap W) (fb : FlatBuffers F) where
  -- GetId, SetId and PutRelated
  unfoldable pub get_id : Option ℕ → Exec W ℕ
  unfolding with_pointer
  get_id object = with_pointer object (λ p w. pure (heap.read p w).id w)

  unfoldable pub set_id : Option ℕ → ℕ → Exec W Unit
  unfolding with_pointer
  set_id object id =
      with_pointer object (λ p w. pure tt (heap.write p (record (heap.read p w) { id = id }) w))

  unfoldable pub put_related : Option ℕ → ℕ → Exec W Unit
  put_related object id = pure tt

  -- Flatten, and the bytes of the builder that withObjectBytes finishes
  unfoldable pub flatten : Option ℕ → ℕ → Exec W (List ℕ)
  unfolding flatten_task with_pointer finished
  flatten object id =
      with_pointer object
        (λ p w. pure (finished fb (flatten_task fb (heap.read p w) id fb.empty)) w)

  -- Load
  unfoldable pub load : List ℕ → Exec W (Option ℕ)
  unfolding task_of_table
  load [] w = fail (message "can't deserialize an object of type 'Task' - no data received") w
  load (b ∷ bytes) w =
      let (p, w') = heap.alloc (task_of_table (fb.table_of (b ∷ bytes))) w in pure (some p) w'

  -- TaskBinding
  unfoldable pub task_binding : Binding W (Option ℕ) (List (Option ℕ))
  unfolding get_id set_id put_related flatten load make_slice append_to_slice
  task_binding = record {
    get_id = get_id;
    set_id = set_id;
    put_related = put_related;
    flatten = flatten;
    load = load;
    make_slice = make_slice;
    append_to_slice = append_to_slice;
  }
