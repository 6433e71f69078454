-- ===== src/Tasks/Kept.antt =====
-- A task that is put into the box of tasks and read again: examples/tasks/internal/model/task.obx.go
-- on objectbox/box.go.
use objectbox_go.Base.{
  ℕ, ◌^◌, ◌<◌, ◌≡◌, refl, sym, ap, subst, ◌∙◌, ◌==◌, arith, List, Option, none, some, false,
  if◌then◌else◌, ok, continue, ok-injective, Exec,
}
use objectbox_go.Transactions.{TxnApi, run_in_read_tx}
use objectbox_go.Transactions.Results.{run_in_read_tx-closed}
use objectbox_go.Box.Api.{Box, BoxApi, PutMode, put}
use objectbox_go.Box.{put_new_or_existing}
use objectbox_go.Box.Storing.{StoreLaws, put_object-StoresUnder}
use objectbox_go.Box.Reads.{get, load_result}
use objectbox_go.FbUtils.Buffers.{FlatBuffers, FlatBuffersLaws, finished}
use objectbox_go.Tasks.{Task, TaskHeap, TaskHeapLaws, with_pointer}
use objectbox_go.Tasks.Binding.{get_id, set_id, flatten, load, task_binding, flatten_task}
use objectbox_go.Tasks.Reading.{InRange, as_stored, Loads, load-finished}
use objectbox_go.Tasks.Boxes.{Tasks, task_put, task_get, or_nil}

-- The box of the tasks: the entity has no relations.
abbrev pub task_box :
    {W F : Type 0} → TaskHeap W → FlatBuffers F → BoxApi W → Box W (Option ℕ) Tasks
task_box heap fb core = record {
  has_relations = false;
  binding = task_binding heap fb;
  core = core;
}

-- The documented behaviour of the C functions of a box and of transactions, for `stored`, the bytes
-- under each identifier. The C library does not write into the memory of Go, nor Go into the store.
pub record TaskStoreLaws {W : Type 0} (heap : TaskHeap W) (core : BoxApi W) (tx : TxnApi W)
    : Type 0 where
  pub stored : W → ℕ → Option (List ℕ)
  pub write_stored : (p : ℕ) (task : Task) (w : W) → stored (heap.write p task w) ≡ stored w
  pub id_for_put_stored : (id : ℕ) (w : W) → stored (core.id_for_put id w).1 ≡ stored w
  pub id_for_put_memory :
      (id : ℕ) (w : W) (p : ℕ) → heap.read p (core.id_for_put id w).1 ≡ heap.read p w
  pub put5_stores :
      (id : ℕ) (bytes : List ℕ) (mode : PutMode) (w : W)
      → (core.put5 id bytes mode w).0 ≡ 0
      → (j : ℕ)
      → stored (core.put5 id bytes mode w).1 j ≡ (if id == j then some bytes else stored w j)
  pub get_stored :
      (id : ℕ) (w : W) (bytes : List ℕ) → stored w id ≡ some bytes → (core.get id w).0 ≡ (0, bytes)
  pub txn_read_stored : (w : W) → stored (tx.txn_read w).1 ≡ stored w
  pub txn_close_memory :
      (txn : ℕ) (w : W) (p : ℕ) → heap.read p (tx.txn_close txn w).1 ≡ heap.read p w

module _ {W F : Type 0} (heap : TaskHeap W) (fb : FlatBuffers F) (core : BoxApi W) (tx : TxnApi W)
    (laws : TaskStoreLaws heap core tx) where
  open laws use {stored}

  set_id_stored :
      (object : Option ℕ) (id : ℕ) (w : W) → stored (set_id heap fb object id w).1 ≡ stored w
  unfolding set_id with_pointer
  set_id_stored none id w = refl
  set_id_stored (some p) id w = laws.write_stored p (record (heap.read p w) { id = id }) w

  get_id_keeps : (object : Option ℕ) (w : W) → (get_id heap fb object w).1 ≡ w
  unfolding get_id with_pointer
  get_id_keeps none w = refl
  get_id_keeps (some p) w = refl

  flatten_keeps : (object : Option ℕ) (id : ℕ) (w : W) → (flatten heap fb object id w).1 ≡ w
  unfolding flatten with_pointer
  flatten_keeps none id w = refl
  flatten_keeps (some p) id w = refl

  task_box_laws : StoreLaws (task_box heap fb core)
  unfolding task_binding
  task_box_laws = record {
    stored = stored;
    get_id_keeps = λ o w. ap stored (get_id_keeps o w);
    set_id_keeps = set_id_stored;
    flatten_keeps = λ o id w. ap stored (flatten_keeps o id w);
    id_for_put_keeps = laws.id_for_put_stored;
    put5_stores = laws.put5_stores;
  }

  -- The bytes under an identifier load as this task, in every state.
  abbrev pub Keeps : ℕ → Task → W → Type 0
  Keeps id task w =
      (bytes : List ℕ) × (stored w id ≡ some bytes) × ((w' : W) → Loads heap fb bytes task w')

  pub put-Keeps :
      (fb_laws : FlatBuffersLaws fb) (heap_laws : TaskHeapLaws heap) (p : ℕ) (w : W) {id : ℕ}
      → InRange (heap.read p w)
      → id < 2 ^ 64
      → (task_put tx (task_box heap fb core) (some p) w).0 ≡ ok id
      → Keeps id (as_stored (heap.read p w) id) (task_put tx (task_box heap fb core) (some p) w).1
  unfolding task_put put_new_or_existing task_binding flatten with_pointer task_box_laws
  put-Keeps fb_laws heap_laws p w {id} r l h =
      let (w', same, bytes, flat, holds) =
        put_object-StoresUnder tx (task_box heap fb core) task_box_laws refl (heap.read p)
          (λ o v. ap (heap.read p) (get_id_keeps o v)) (λ i v. laws.id_for_put_memory i v p)
          (some p) false put w h in
      let made : finished fb (flatten_task fb (heap.read p w) id fb.empty) ≡ bytes =
        ap (λ t. finished fb (flatten_task fb t id fb.empty)) (sym same) ∙ ok-injective flat in
      (
        bytes,
        holds id ∙ ground arith,
        λ v.
            subst (λ b. Loads heap fb b (as_stored (heap.read p w) id) v) made
              (load-finished heap heap_laws fb fb_laws (heap.read p w) id v r l),
      )

  loaded_result :
      (bytes : List ℕ) (r : (ℕ × List ℕ) × W) {q : ℕ}
      → r.0 ≡ (0, bytes)
      → (load heap fb bytes r.1).0 ≡ ok (some q)
      → load_result tx (task_box heap fb core) r ≡ (ok (some (some q)), (load heap fb bytes r.1).1)
  unfolding load_result task_binding
  loaded_result bytes r {q} e l =
      ap (λ k. load_result tx (task_box heap fb core) (k, r.1)) e
      ∙ ap (λ k. continue k (λ o v. (ok (some o), v)) (load heap fb bytes r.1).1) l

  pub get-Keeps :
      (id txn : ℕ) (task : Task) (w : W)
      → Keeps id task w
      → (tx.txn_read w).0 ≡ some txn
      → ((w' : W) → (tx.txn_close txn w').0 ≡ 0)
      → (q : ℕ) × ((task_get tx (task_box heap fb core) id w).0 ≡ ok (some q))
        × (heap.read q (task_get tx (task_box heap fb core) id w).1 ≡ task)
  unfolding task_get or_nil get
  get-Keeps id txn task w (bytes, there, loads) opens closes =
      let fn : Exec W (Option (Option ℕ)) =
        λ v. load_result tx (task_box heap fb core) (core.get id v) in
      let w1 = (tx.txn_read w).1 in
      let w2 = (core.get id w1).1 in
      let w3 = (load heap fb bytes w2).1 in
      let (q, l, m) = loads w2 in
      let got = laws.get_stored id w1 bytes (ap (λ s. s id) (laws.txn_read_stored w) ∙ there) in
      let ran = loaded_result bytes (core.get id w1) got l in
      let whole : run_in_read_tx tx fn w ≡ (ok (some (some q)), (tx.txn_close txn w3).1) =
        run_in_read_tx-closed tx fn txn w opens closes
        ∙ ap (λ r. (r.0, (tx.txn_close txn r.1).1)) ran in
      (
        q,
        ap (λ r. (continue r.0 (λ o v. (ok (or_nil o), v)) r.1).0) whole,
        ap (λ r. heap.read q (continue r.0 (λ o v. (ok (or_nil o), v)) r.1).1) whole
            ∙ laws.txn_close_memory txn w3 q
            ∙ m,
      )

  -- If Put of a task returns an identifier, then Get with this identifier, in any later state in which
  -- what is stored under it is what Put left there, returns a new object: a task with this identifier,
  -- the text of the task as it was before Put, and its times up to the millisecond. The text has less
  -- than 2^30 bytes, the identifier fits into 64 bits, the times fit into milliseconds of an int64,
  -- and a read transaction can be opened and closed.
  pub get-put :
      (fb_laws : FlatBuffersLaws fb) (heap_laws : TaskHeapLaws heap) (p txn : ℕ) (w later : W)
      {id : ℕ}
      → InRange (heap.read p w)
      → id < 2 ^ 64
      → (task_put tx (task_box heap fb core) (some p) w).0 ≡ ok id
      → stored later id ≡ stored (task_put tx (task_box heap fb core) (some p) w).1 id
      → (tx.txn_read later).0 ≡ some txn
      → ((w' : W) → (tx.txn_close txn w').0 ≡ 0)
      → (q : ℕ) × ((task_get tx (task_box heap fb core) id later).0 ≡ ok (some q))
        × (heap.read q (task_get tx (task_box heap fb core) id later).1
            ≡ as_stored (heap.read p w) id)
  get-put fb_laws heap_laws p txn w later {id} r l h same =
      let (bytes, there, loads) = put-Keeps fb_laws heap_laws p w r l h in
      get-Keeps id txn (as_stored (heap.read p w) id) later (bytes, same ∙ there, loads)
