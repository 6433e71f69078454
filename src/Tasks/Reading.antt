-- ===== src/Tasks/Reading.antt =====
-- That examples/tasks/internal/model/task.obx.go reads what it wrote: Flatten and Load of a task.
use objectbox_go.Base.{ℕ, ◌^◌, ◌<◌, ◌≡◌, ◌≢◌, refl, ap, ◌∙◌, arith, List, [], ◌∷◌, length, some, ok}
use objectbox_go.Base.Int.{ℤ, pos}
use objectbox_go.Converters.{time_to_property, time_to_database}
use objectbox_go.Converters.Millis.{
  InMillis, to_millis, time_to_property-time_to_database, time_to_database-Int64,
}
use objectbox_go.FbUtils.Setters.{
  set_uint64_slot, set_int64_slot, set_offset_slot, create_string_offset,
}
use objectbox_go.FbUtils.Getters.{when_set, or_empty, get_string_slot, get_int64_slot}
use objectbox_go.FbUtils.Buffers.{
  FlatBuffers, FlatBuffersLaws, finished, uint64_field, int64_field, offset_field,
}
use objectbox_go.Tasks.{Task, TaskHeap, TaskHeapLaws}
use objectbox_go.Tasks.Binding.{flatten_task, flatten, task_of_table, load}

-- A task of values that Go can hold, whose times fit into milliseconds.
abbrev pub InRange : Task → Type 0
InRange task =
    (length task.text < 2 ^ 30) × InMillis task.date_created × InMillis task.date_finished

-- What comes back of a task that was put under an identifier.
abbrev pub as_stored : Task → ℕ → Task
as_stored task id = record {
  id = id;
  text = task.text;
  date_created = to_millis task.date_created;
  date_finished = to_millis task.date_finished;
}

module _ {F : Type 0} (fb : FlatBuffers F) (laws : FlatBuffersLaws fb) where
  open laws use {fields, strings, slot_count}

  -- An offset that is not zero is written.
  offset_written :
      (n v : ℕ) (b : F)
      → v ≢ 0
      → set_offset_slot fb.builder n v b ≡ fb.builder.slot n (fb.builder.put_offset v b)
  unfolding set_offset_slot
  offset_written n v b h = ground (arith, h)

  -- The four slots of the table of a task, and its text.
  record Written (task : Task) (id : ℕ) (b : F) : Type 0 where
    text_offset : ℕ
    has_id : fields b 0 ≡ some (uint64_field id)
    has_text : fields b 1 ≡ some (offset_field text_offset)
    text_there : strings b text_offset ≡ some task.text
    has_created : fields b 3 ≡ some (int64_field (time_to_database task.date_created))
    has_finished : fields b 4 ≡ some (int64_field (time_to_database task.date_finished))

  module _ (task : Task) (id o : ℕ) (b2 : F) where
    abbrev created : ℤ
    created = time_to_database task.date_created

    abbrev finish_date : ℤ
    finish_date = time_to_database task.date_finished

    abbrev b3 : F
    b3 = fb.builder.slot 0 (fb.builder.put_uint64 id b2)

    abbrev b4 : F
    b4 = fb.builder.slot 1 (fb.builder.put_offset o b3)

    abbrev b5 : F
    b5 = fb.builder.slot 3 (fb.builder.put_int64 created b4)

    abbrev b6 : F
    b6 = fb.builder.slot 4 (fb.builder.put_int64 finish_date b5)

    four_slots-Written :
        slot_count b2 ≡ 5 → id < 2 ^ 64 → strings b2 o ≡ some task.text → Written task id b6
    four_slots-Written n h s =
        let i = λ (j : ℕ). laws.uint64_sets 0 id b2 (omega arith) h j in
        let n3 : slot_count b3 ≡ 5 = laws.uint64_counts 0 id b2 ∙ n in
        let t = λ (j : ℕ). laws.offset_sets 1 o b3 (omega arith) j in
        let n4 : slot_count b4 ≡ 5 = laws.offset_counts 1 o b3 ∙ n3 in
        let c = λ (j : ℕ).
          laws.int64_sets 3 created b4 (omega arith) (time_to_database-Int64 task.date_created) j in
        let n5 : slot_count b5 ≡ 5 = laws.int64_counts 3 created b4 ∙ n4 in
        let f = λ (j : ℕ).
          laws.int64_sets 4 finish_date b5 (omega arith) (time_to_database-Int64 task.date_finished)
            j in
        record {
          text_offset = o;
          has_id = f 0 ∙ c 0 ∙ t 0 ∙ i 0;
          has_text = f 1 ∙ c 1 ∙ t 1;
          text_there =
              ap (λ k. k o)
                (laws.int64_strings 4 finish_date b5
                  ∙ laws.int64_strings 3 created b4
                  ∙ laws.offset_strings 1 o b3
                  ∙ laws.uint64_strings 0 id b2)
              ∙ s;
          has_created = f 3 ∙ c 3;
          has_finished = f 4;
        }

  flatten_task-Written :
      (task : Task) (id : ℕ) (b : F)
      → id < 2 ^ 64
      → length task.text < 2 ^ 30
      → Written task id (flatten_task fb task id b)
  unfolding flatten_task set_uint64_slot set_int64_slot create_string_offset
  flatten_task-Written task id b h l =
      let (o, b1) = fb.builder.create_string task.text b in
      let b2 = fb.start_object 5 b1 in
      rw
        (offset_written 1 o (fb.builder.slot 0 (fb.builder.put_uint64 id b2))
          (laws.create_string_nonzero task.text b l))
        (four_slots-Written task id o b2 (laws.start_counts 5 b1) h
          (ap (λ k. k o) (laws.start_strings 5 b1) ∙ laws.create_string_strings task.text b l))

  read_table :
      (task : Task) (id : ℕ) (b : F)
      → Written task id b
      → InMillis task.date_created
      → InMillis task.date_finished
      → task_of_table (fb.table_of (finished fb b)) ≡ as_stored task id
  unfolding task_of_table get_int64_slot get_string_slot
  read_table task id b r c f =
      let table = fb.table_of (finished fb b) in
      let text : or_empty (when_set table 6 table.byte_vector) ≡ task.text =
        ap or_empty
          (laws.read_offset b 1 r.text_offset task.text (omega arith) r.has_text r.text_there) in
      let created : time_to_property (table.int64_slot 10 (pos 0)) ≡ to_millis task.date_created =
        ap time_to_property (
          laws.read_int64 b 3 (time_to_database task.date_created) (pos 0) (omega arith)
            r.has_created)
        ∙ time_to_property-time_to_database task.date_created c in
      let done : time_to_property (table.int64_slot 12 (pos 0)) ≡ to_millis task.date_finished =
        ap time_to_property (
          laws.read_int64 b 4 (time_to_database task.date_finished) (pos 0) (omega arith)
            r.has_finished)
        ∙ time_to_property-time_to_database task.date_finished f in
      λ i. record {
        id = laws.read_uint64 b 0 id 0 (omega arith) r.has_id i;
        text = text i;
        date_created = created i;
        date_finished = done i;
      }

-- To load these bytes makes a new object, which is this task.
abbrev pub Loads : {W F : Type 0} → TaskHeap W → FlatBuffers F → List ℕ → Task → W → Type 0
Loads heap fb bytes task w =
    (q : ℕ) × ((load heap fb bytes w).0 ≡ ok (some q))
    × (heap.read q (load heap fb bytes w).1 ≡ task)

module _ {W F : Type 0} (heap : TaskHeap W) (heap_laws : TaskHeapLaws heap) (fb : FlatBuffers F)
    (laws : FlatBuffersLaws fb) where
  load_some :
      (bytes : List ℕ) (w : W)
      → bytes ≢ []
      → load heap fb bytes w ≡ (
        ok (some (heap.alloc (task_of_table (fb.table_of bytes)) w).0),
        (heap.alloc (task_of_table (fb.table_of bytes)) w).1,
      )
  unfolding load
  load_some [] w h = absurd (h refl)
  load_some (b ∷ bytes) w h = refl

  pub load-finished :
      (task : Task) (id : ℕ) (w : W)
      → InRange task
      → id < 2 ^ 64
      → Loads heap fb (finished fb (flatten_task fb task id fb.empty)) (as_stored task id) w
  load-finished task id w (l, c, f) h =
      let b = flatten_task fb task id fb.empty in
      let t = task_of_table (fb.table_of (finished fb b)) in
      let e = load_some (finished fb b) w (laws.finished_some b) in
      (
        (heap.alloc t w).0,
        ap (λ r. r.0) e,
        ap (λ r. heap.read (heap.alloc t w).0 r.1) e
            ∙ heap_laws.read-alloc t w
            ∙ read_table fb laws task id b (flatten_task-Written fb laws task id fb.empty h l) c f,
      )

  -- Flatten of a task returns bytes and changes nothing, and to load these bytes, in any later state,
  -- makes a new task with the identifier that Flatten was given, the same text, and the same times up
  -- to the millisecond; if the text has less than 2^30 bytes, the identifier fits into 64 bits and the
  -- times fit into milliseconds of an int64.
  pub load-flatten :
      (p id : ℕ) (w : W)
      → InRange (heap.read p w)
      → id < 2 ^ 64
      → (bytes : List ℕ) × (flatten heap fb (some p) id w ≡ (ok bytes, w))
        × ((w' : W) → Loads heap fb bytes (as_stored (heap.read p w) id) w')
  unfolding flatten
  load-flatten p id w r h = (
    finished fb (flatten_task fb (heap.read p w) id fb.empty),
    refl,
    λ w'. load-finished (heap.read p w) id w' r h,
  )
