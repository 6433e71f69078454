-- ===== src/Tasks/Finished.antt =====
-- What setDone of examples/tasks/main.go leaves in the store.
use objectbox_go.Base.{
  ℕ, suc, ◌^◌, ◌<◌, ◌≡◌, ◌≢◌, refl, sym, ap, subst, ◌∙◌, ◌∷◌, Option, some, Outcome, ok, err, panic,
  Exec, false,
}
use objectbox_go.Converters.{Time}
use objectbox_go.Converters.Millis.{to_millis}
use objectbox_go.Transactions.{TxnApi}
use objectbox_go.Box.Api.{Box, BoxApi}
use objectbox_go.Box.{put_new_or_existing}
use objectbox_go.Box.Numbered.{put_object-given}
use objectbox_go.FbUtils.Buffers.{FlatBuffers, FlatBuffersLaws}
use objectbox_go.Tasks.{Task, TaskHeap, TaskHeapLaws, with_pointer}
use objectbox_go.Tasks.Binding.{get_id, task_binding}
use objectbox_go.Tasks.Reading.{InRange, as_stored, Loads}
use objectbox_go.Tasks.Boxes.{Tasks, task_put, task_get}
use objectbox_go.Tasks.Kept.{task_box, TaskStoreLaws, Keeps, put-Keeps, get-Keeps}
use objectbox_go.Tasks.Shell.{
  TaskOps, Console, completed, not_updated, not_read, print, after_call, call, finish_task,
  set_done,
}
use objectbox_go.Tasks.App.{box_ops}
use objectbox_go.Tasks.Created.{not_behind, read_back}

module _ {W : Type 0} (heap : TaskHeap W) where
  -- Only a Put that returned is reported as a finished task.
  completed_put :
      (id p : ℕ) (r : Outcome ℕ × W) (s : Console W) {t : Time}
      → (after_call r
          (λ e. print (not_updated id e))
          (λ i v. print (completed id (heap.read p v.world).date_finished) v)
          s).1.output
        ≡ completed id t ∷ s.output
      → (i : ℕ) × (r.0 ≡ ok i)
        × ((after_call r
              (λ e. print (not_updated id e))
              (λ i v. print (completed id (heap.read p v.world).date_finished) v)
              s).1.world
            ≡ r.1)
  unfolding after_call
  completed_put id p (ok a, w) s h = (a, refl, refl)
  completed_put id p (err e, w) s h = cc
  completed_put id p (panic e, w) s h = absurd (not_behind _ _ h)

module _ {W F : Type 0} (heap : TaskHeap W) (fb : FlatBuffers F) (core : BoxApi W) (tx : TxnApi W)
    (laws : TaskStoreLaws heap core tx) (fb_laws : FlatBuffersLaws fb)
    (heap_laws : TaskHeapLaws heap) (unfinished : Exec W Tasks) (now : W → Time × W)
    (now_memory : (w : W) (p : ℕ) → heap.read p (now w).1 ≡ heap.read p w)
    (keeps_given : (n : ℕ) (w : W)
      → (core.id_for_put (suc n) w).0 ≢ 0
      → (core.id_for_put (suc n) w).0 ≡ suc n) where
  abbrev the_box : Box W (Option ℕ) Tasks
  the_box = task_box heap fb core

  unfoldable pub the_ops : TaskOps W
  unfolding box_ops
  the_ops = box_ops tx the_box unfinished now

  -- Put of a task that has an identifier returns this identifier.
  task_put-given :
      (p n : ℕ) (w : W) {i : ℕ}
      → (heap.read p w).id ≡ suc n
      → (task_put tx the_box (some p) w).0 ≡ ok i
      → i ≡ suc n
  unfolding task_put put_new_or_existing task_binding get_id with_pointer
  task_put-given p n w g h = put_object-given tx the_box keeps_given (some p) false n w (ap ok g) h

  finish_task-Keeps :
      (n p : ℕ) (task : Task) (s : Console W) {t : Time}
      → heap.read p s.world ≡ task
      → task.id ≡ suc n
      → suc n < 2 ^ 64
      → InRange (record task { date_finished = (now s.world).0 })
      → (finish_task heap the_ops (suc n) (some p) s).1.output ≡ completed (suc n) t ∷ s.output
      → Keeps heap fb core tx laws
          (suc n)
          (as_stored (record task { date_finished = (now s.world).0 }) (suc n))
          (finish_task heap the_ops (suc n) (some p) s).1.world
  unfolding finish_task call the_ops box_ops
  finish_task-Keeps n p task s m g l r h =
      let (t, w) = now s.world in
      let old : heap.read p w ≡ task = now_memory s.world p ∙ m in
      let w' = heap.write p (record (heap.read p w) { date_finished = t }) w in
      let there : heap.read p w' ≡ record task { date_finished = t } =
        read_back heap heap_laws the_ops p (record (heap.read p w) { date_finished = t }) w
        ∙ ap (λ (k : Task). record k { date_finished = t }) old in
      let ran = task_put tx the_box (some p) w' in
      let (i, e, world) = completed_put heap (suc n) p ran (record s { world = w' }) h in
      let same : i ≡ suc n = task_put-given p n w' (ap (λ k. k.id) there ∙ g) e in
      let e' : ran.0 ≡ ok (suc n) = e ∙ ap ok same in
      let (bytes, stores, loads) =
        put-Keeps heap fb core tx laws fb_laws heap_laws p w' (subst InRange (sym there) r) l e' in
      (
        bytes,
        ap (λ k. laws.stored k (suc n)) world ∙ stores,
        λ v. subst (λ k. Loads heap fb bytes (as_stored k (suc n)) v) there (loads v),
      )

  set_done-Keeps :
      (n txn : ℕ) (task : Task) (s : Console W) {t : Time}
      → Keeps heap fb core tx laws (suc n) task s.world
      → task.id ≡ suc n
      → suc n < 2 ^ 64
      → InRange (record task { date_finished = (now (task_get tx the_box (suc n) s.world).1).0 })
      → (tx.txn_read s.world).0 ≡ some txn
      → ((w' : W) → (tx.txn_close txn w').0 ≡ 0)
      → (set_done heap the_ops (suc n) s).1.output ≡ completed (suc n) t ∷ s.output
      → Keeps heap fb core tx laws
          (suc n)
          (as_stored
            (record task { date_finished = (now (task_get tx the_box (suc n) s.world).1).0 })
            (suc n))
          (set_done heap the_ops (suc n) s).1.world
  unfolding set_done call after_call the_ops box_ops
  set_done-Keeps n txn task s k g l r opens closes h =
      let (q, found, m) = get-Keeps heap fb core tx laws (suc n) txn task s.world k opens closes in
      let w = (task_get tx the_box (suc n) s.world).1 in
      let same : set_done heap the_ops (suc n) s
          ≡ finish_task heap the_ops (suc n) (some q) (record s { world = w }) =
        ap
          (λ o.
            after_call (o, w) (λ e. print (not_read (suc n) e)) (finish_task heap the_ops (suc n))
              s)
          found in
      subst
        (λ o.
          Keeps heap fb core tx laws (suc n)
            (as_stored (record task { date_finished = (now w).0 }) (suc n)) o.1.world)
        (sym same)
        (finish_task-Keeps n q task (record s { world = w }) m g l r
          (ap (λ o. o.1.output) (sym same) ∙ h))

  -- If a task is stored under its identifier, which is not 0, and `done` reports that it completed
  -- this task, then Get with the identifier returns a new object: the task with the same identifier,
  -- text and time of creation, and with the time that the clock told, when setDone had read the task,
  -- as the time when it was finished, both times up to the millisecond. The text has less than 2^30
  -- bytes, the identifier fits into 64 bits, the times fit into milliseconds of an int64, the read
  -- transactions of setDone and of Get can be opened and closed, the clock does not write into the
  -- memory of tasks, and C reserves a given identifier or none.
  pub get-set_done :
      (n txn txn' : ℕ) (task : Task) (s : Console W) {t : Time}
      → Keeps heap fb core tx laws (suc n) task s.world
      → task.id ≡ suc n
      → suc n < 2 ^ 64
      → InRange (record task { date_finished = (now (task_get tx the_box (suc n) s.world).1).0 })
      → (tx.txn_read s.world).0 ≡ some txn
      → (tx.txn_read (set_done heap the_ops (suc n) s).1.world).0 ≡ some txn'
      → ((k : ℕ) (w' : W) → (tx.txn_close k w').0 ≡ 0)
      → (set_done heap the_ops (suc n) s).1.output ≡ completed (suc n) t ∷ s.output
      → (q : ℕ) × ((task_get tx the_box (suc n) (set_done heap the_ops (suc n) s).1.world).0
          ≡ ok (some q))
        × (heap.read q (task_get tx the_box (suc n) (set_done heap the_ops (suc n) s).1.world).1
            ≡ (record task {
              id = suc n;
              date_created = to_millis task.date_created;
              date_finished = to_millis (now (task_get tx the_box (suc n) s.world).1).0;
            }))
  get-set_done n txn txn' task s k g l r opens opens' closes h =
      get-Keeps heap fb core tx laws (suc n) txn' _ (set_done heap the_ops (suc n) s).1.world
        (set_done-Keeps n txn task s k g l r opens (closes txn) h) opens' (closes txn')
