-- ===== src/Tasks/Created.antt =====
-- What createTask and setDone of examples/tasks/main.go leave in the store.
use objectbox_go.Base.{
  ℕ, ◌^◌, ◌<◌, ◌≡◌, ◌≢◌, sym, ap, subst, ◌∙◌, arith, List, ◌∷◌, length, Option, some, Outcome, ok,
  err, panic, Exec, ==_refl, if◌then◌else◌,
}
use objectbox_go.Base.Int.{pos}
use objectbox_go.Converters.{Time}
use objectbox_go.Converters.Millis.{InMillis, to_millis}
use objectbox_go.Transactions.{TxnApi}
use objectbox_go.Box.Api.{Box, BoxApi}
use objectbox_go.FbUtils.Buffers.{FlatBuffers, FlatBuffersLaws}
use objectbox_go.Tasks.{Task, TaskHeap, TaskHeapLaws}
use objectbox_go.Tasks.Reading.{InRange, as_stored}
use objectbox_go.Tasks.App.{box_ops}
use objectbox_go.Tasks.Boxes.{Tasks, task_put, task_get}
use objectbox_go.Tasks.Kept.{task_box, TaskStoreLaws, Keeps, put-Keeps, get-Keeps}
use objectbox_go.Tasks.Shell.{
  TaskOps, Console, created, not_created, print, after_call, call, numbered, set_task, put_task,
  new_task, create_task,
}

-- A list is not longer than itself.
pub not_behind : {A : Type 0} (a : A) (l : List A) → l ≢ (a ∷ l)
not_behind a l h = absurd (omega (arith, ap length h))

module _ {W : Type 0} (heap : TaskHeap W) (heap_laws : TaskHeapLaws heap) (ops : TaskOps W) where
  pub read_back : (p : ℕ) (task : Task) (w : W) → heap.read p (heap.write p task w) ≡ task
  read_back p task w =
      heap_laws.read-write p task w p ∙ ap (λ b. if b then task else heap.read p w) (==_refl p)

  -- Only a Put that returned an identifier is reported as a new task.
  put_task-created :
      (p : ℕ) (r : Outcome ℕ × W) (s : Console W) {id : ℕ}
      → (after_call r (λ e. print (not_created e)) (numbered heap ops p) s).1.output
        ≡ created id ∷ s.output
      → (r.0 ≡ ok id)
        × ((after_call r (λ e. print (not_created e)) (numbered heap ops p) s).1.world
            ≡ heap.write p (record (heap.read p r.1) { id = id }) r.1)
  unfolding after_call numbered set_task
  put_task-created p (ok a, w) s {id} h =
      let task = record (heap.read p w) { id = a } in
      let shown : (heap.read p (heap.write p task w)).id ≡ id = cc in
      let same : a ≡ id = sym (ap (λ t. t.id) (read_back p task w)) ∙ shown in
      (ap ok same, ap (λ k. heap.write p (record (heap.read p w) { id = k }) w) same)
  put_task-created p (err e, w) s h = cc
  put_task-created p (panic e, w) s h = absurd (not_behind _ _ h)

-- What the clock tells and the memory is given stay out of the store, for the box of tasks.
module _ {W F : Type 0} (heap : TaskHeap W) (fb : FlatBuffers F) (core : BoxApi W) (tx : TxnApi W)
    (laws : TaskStoreLaws heap core tx) (fb_laws : FlatBuffersLaws fb)
    (heap_laws : TaskHeapLaws heap) (unfinished : Exec W Tasks) (now : W → Time × W) where
  abbrev pub the_box : Box W (Option ℕ) Tasks
  the_box = task_box heap fb core

  unfoldable pub the_ops : TaskOps W
  unfolding box_ops
  the_ops = box_ops tx the_box unfinished now

  put_task-Keeps :
      (p : ℕ) (s : Console W) {id : ℕ}
      → InRange (heap.read p s.world)
      → id < 2 ^ 64
      → (put_task heap the_ops p s).1.output ≡ created id ∷ s.output
      → Keeps heap fb core tx laws id
          (as_stored (heap.read p s.world) id)
          (put_task heap the_ops p s).1.world
  unfolding put_task call the_ops
  put_task-Keeps p s {id} r l h =
      let ran = task_put tx the_box (some p) s.world in
      let (e, world) = put_task-created heap heap_laws the_ops p ran s h in
      let (bytes, there, loads) =
        put-Keeps heap fb core tx laws fb_laws heap_laws p s.world r l e in
      (
        bytes,
        ap (λ w. laws.stored w id) world
            ∙ ap (λ k. k id) (laws.write_stored p (record (heap.read p ran.1) { id = id }) ran.1)
            ∙ there,
        loads,
      )

  -- The task that createTask makes at a time.
  abbrev pub fresh : List ℕ → Time → Task
  fresh text t = record {
    id = 0;
    text = text;
    date_created = t;
    date_finished = record { seconds = pos 0; nanosecond = 0 };
  }

  create_task-Keeps :
      (text : List ℕ) (s : Console W) {id : ℕ}
      → InRange (fresh text (now s.world).0)
      → id < 2 ^ 64
      → (create_task heap the_ops text s).1.output ≡ created id ∷ s.output
      → Keeps heap fb core tx laws id
          (as_stored (fresh text (now s.world).0) id)
          (create_task heap the_ops text s).1.world
  unfolding create_task new_task the_ops box_ops
  create_task-Keeps text s {id} r l h =
      let task = fresh text (now s.world).0 in
      let (p, w) = heap.alloc task (now s.world).1 in
      let same : heap.read p w ≡ task = heap_laws.read-alloc task (now s.world).1 in
      subst
        (λ t.
          Keeps heap fb core tx laws id (as_stored t id)
            (put_task heap the_ops p (record s { world = w })).1.world)
        same (put_task-Keeps p (record s { world = w }) (subst InRange (sym same) r) l h)

  -- If `new` reports that a task was created, then Get with the reported identifier returns a new
  -- object: a task with this identifier, the given text, the time of its creation up to the
  -- millisecond, and the beginning of 1970 as the time when it was finished. The text has less than
  -- 2^30 bytes, the identifier fits into 64 bits, the time fits into milliseconds of an int64, and a
  -- read transaction can be opened and closed.
  pub get-create_task :
      (text : List ℕ) (txn : ℕ) (s : Console W) {id : ℕ}
      → length text < 2 ^ 30
      → InMillis (now s.world).0
      → id < 2 ^ 64
      → (create_task heap the_ops text s).1.output ≡ created id ∷ s.output
      → (tx.txn_read (create_task heap the_ops text s).1.world).0 ≡ some txn
      → ((w' : W) → (tx.txn_close txn w').0 ≡ 0)
      → (q : ℕ) × ((task_get tx the_box id (create_task heap the_ops text s).1.world).0
          ≡ ok (some q))
        × (heap.read q (task_get tx the_box id (create_task heap the_ops text s).1.world).1
            ≡ (record (fresh text (to_millis (now s.world).0)) { id = id }))
  get-create_task text txn s {id} n m l h =
      get-Keeps heap fb core tx laws id txn (as_stored (fresh text (now s.world).0) id)
        (create_task heap the_ops text s).1.world (create_task-Keeps text s (n, m, omega arith) l h)
