-- ===== src/Tasks/Boxes.antt =====
-- examples/tasks/internal/model/task.obx.go: TaskBox, TaskQuery and TaskAsyncBox, which give the
-- operations of a box, of a query and of an asynchronous box the type of a task. A TaskQuery is the
-- query with the world around it. A slice of tasks is a list of pointers, none for nil.
use objectbox_go.Base.{
  ℕ, Option, none, some, Bool, List, [], ◌∷◌, Outcome, ok, err, panic, Exec, pure, panics,
  message_wrapping, ◌>>=◌,
}
use objectbox_go.Transactions.{TxnApi}
use objectbox_go.Box.Api.{Box}
use objectbox_go.Box.{put_new_or_existing, insert_new, update_existing, remove}
use objectbox_go.Box.Batch.{put_many}
use objectbox_go.Box.Reads.{get, get_many, get_many_existing, get_all, remove_ids}
use objectbox_go.QueryBuilder.{OrderFlags, QueryApi}
use objectbox_go.QueryBuilder.Finish.{BuiltQuery}
use objectbox_go.Condition.{Conditions}
use objectbox_go.Query.{Query, QueryState, QueryCalls, find, offset, limit}
use objectbox_go.Query.Making.{query, query_or_error}
use objectbox_go.Store.{BoxHandle}
use objectbox_go.Store.Boxes.{BoxCalls, StoreState, internal_box}
use objectbox_go.AsyncBox.{
  AsyncApi, AsyncBox, new_async_box, async_put, async_insert, async_update, async_remove,
  box_put_async, box_async,
}
use objectbox_go.Tasks.{TaskHeap, with_pointer}

-- The entity of TaskBinding.
abbrev pub task_entity : ℕ
task_entity = 1

abbrev pub Tasks : Type 0
Tasks = List (Option ℕ)

-- BoxForTask
unfoldable pub box_for_task : {W : Type 0} → BoxCalls W → Exec (StoreState W) BoxHandle
unfolding internal_box
box_for_task calls = internal_box calls task_entity

-- Async
unfoldable pub task_async : BoxHandle → AsyncBox
unfolding box_async
task_async handle = box_async handle

or_panic : {S : Type 0} → Outcome AsyncBox × S → Outcome AsyncBox × S
or_panic (ok async, s) = pure async s
or_panic (err e, s) = panics (message_wrapping "Could not create async box for entity ID 1: %s" e) s
or_panic (panic e, s) = panics e s

-- AsyncBoxForTask; the text of the panic keeps the %s.
unfoldable pub async_box_for_task :
    {W : Type 0} → BoxCalls W → (ℕ → ℕ → W → Option ℕ × W) → ℕ → Exec (StoreState W) AsyncBox
unfolding new_async_box or_panic
async_box_for_task calls create timeout_ms s =
    or_panic (new_async_box calls create task_entity timeout_ms s)

-- A nil object becomes a nil pointer.
unfoldable pub or_nil : Option (Option ℕ) → Option ℕ
or_nil none = none
or_nil (some object) = object

-- A query that was built, when it has not been run yet.
unfoldable pub new_query : BuiltQuery → Query
new_query built = record {
  c_query = built.c_query;
  entity = built.entity;
  linked_entity_ids = built.linked_entity_ids;
  offset_err = none;
  limit_err = none;
}

-- The loop of RemoveMany.
unfoldable pub task_ids : {W : Type 0} → TaskHeap W → List (Option ℕ) → Exec W (List ℕ)
unfolding with_pointer
task_ids heap [] = pure []
task_ids heap (object ∷ objects) = do
  id ← with_pointer object (λ p w. pure (heap.read p w).id w)
  ids ← task_ids heap objects
  pure (id ∷ ids)

module _ {W : Type 0} (tx : TxnApi W) (box : Box W (Option ℕ) Tasks) where
  unfoldable pub task_put : Option ℕ → Exec W ℕ
  unfolding put_new_or_existing
  task_put object = put_new_or_existing tx box object

  unfoldable pub task_insert : Option ℕ → Exec W ℕ
  unfolding insert_new
  task_insert object = insert_new tx box object

  unfoldable pub task_update : Option ℕ → Exec W Unit
  unfolding update_existing
  task_update object = update_existing tx box object

  unfoldable pub task_put_many : Bool → List (Option ℕ) → Exec W (List ℕ)
  unfolding put_many
  task_put_many supports_result_array objects = put_many tx box supports_result_array objects

  -- Get
  unfoldable pub task_get : ℕ → Exec W (Option ℕ)
  unfolding get or_nil
  task_get id = do object ← get tx box id; pure (or_nil object)

  unfoldable pub task_get_many : List ℕ → Exec W Tasks
  unfolding get_many
  task_get_many ids = get_many tx box ids

  unfoldable pub task_get_many_existing : List ℕ → Exec W Tasks
  unfolding get_many_existing
  task_get_many_existing ids = get_many_existing tx box ids

  unfoldable pub task_get_all : Exec W Tasks
  unfolding get_all
  task_get_all = get_all tx box

  unfoldable pub task_remove : Option ℕ → Exec W Unit
  unfolding remove
  task_remove object = remove tx box object

  unfoldable pub task_remove_many : TaskHeap W → List (Option ℕ) → Exec W ℕ
  unfolding task_ids remove_ids
  task_remove_many heap objects = do ids ← task_ids heap objects; remove_ids tx box ids

  -- PutAsync, on the asynchronous box that belongs to the box.
  unfoldable pub task_put_async : AsyncApi W → ℕ → Option ℕ → Exec W ℕ
  unfolding box_put_async
  task_put_async api c_async object = box_put_async tx box api c_async object

  -- TaskAsyncBox
  unfoldable pub task_async_put : AsyncApi W → AsyncBox → Option ℕ → Exec W ℕ
  unfolding async_put
  task_async_put api async object = async_put tx box api async object

  unfoldable pub task_async_insert : AsyncApi W → AsyncBox → Option ℕ → Exec W ℕ
  unfolding async_insert
  task_async_insert api async object = async_insert tx box api async object

  unfoldable pub task_async_update : AsyncApi W → AsyncBox → Option ℕ → Exec W Unit
  unfolding async_update
  task_async_update api async object = async_update tx box api async object

  unfoldable pub task_async_remove : AsyncApi W → AsyncBox → Option ℕ → Exec W Unit
  unfolding async_remove
  task_async_remove api async object = async_remove tx box api async object

  -- Find, Offset and Limit of TaskQuery
  module _ {F : Type 0} (calls : QueryCalls W F) where
    unfoldable pub task_find : Exec (QueryState W) Tasks
    unfolding find
    task_find = find tx box calls

    unfoldable pub task_offset : ℕ → QueryState W → QueryState W
    unfolding offset
    task_offset n s = offset tx box calls n s

    unfoldable pub task_limit : ℕ → QueryState W → QueryState W
    unfolding limit
    task_limit n s = limit tx box calls n s

-- Query and QueryOrError
module _ {W F : Type 0} (builders : QueryApi W F)
    (walk : List (ℕ × OrderFlags) → List (ℕ × OrderFlags)) where
  unfoldable pub task_query : Conditions W → Exec W Query
  unfolding query new_query
  task_query conditions = do
    built ← query builders walk task_entity conditions
    pure (new_query built)

  unfoldable pub task_query_or_error : Conditions W → Exec W Query
  unfolding query_or_error new_query
  task_query_or_error conditions = do
    built ← query_or_error builders walk task_entity conditions
    pure (new_query built)

  -- box.Query(conditions).Find()
  unfoldable pub found :
      TxnApi W → Box W (Option ℕ) Tasks → QueryCalls W F → Conditions W → Exec W Tasks
  unfolding task_query task_find
  found tx box calls conditions = do
    made ← task_query conditions
    (λ w. let (r, s) = task_find tx box calls (record { query = made; world = w }) in (r, s.world))
