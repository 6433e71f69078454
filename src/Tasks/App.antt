-- ===== src/Tasks/App.antt =====
-- examples/tasks: the properties of a task in internal/model/task.obx.go, and the box of tasks that
-- main.go gives to its shell.
use objectbox_go.Base.{ℕ, List, Option, Exec}
use objectbox_go.Base.Int.{ℤ, pos}
use objectbox_go.Converters.{Time}
use objectbox_go.Transactions.{TxnApi}
use objectbox_go.Box.Api.{Box}
use objectbox_go.QueryBuilder.{OrderFlags, QueryApi, Property}
use objectbox_go.Condition.{Conditions, no_conditions, and_condition}
use objectbox_go.Properties.{
  WideIntegerProperty, StringProperty, property_uint64, property_string, property_int64,
}
use objectbox_go.Query.{QueryCalls}
use objectbox_go.Tasks.Boxes.{Tasks, task_entity, task_put, task_get, task_get_all, found}
use objectbox_go.Tasks.Shell.{TaskOps}

-- Task_
pub record TaskProperties (W : Type 0) : Type 0 where
  pub id : WideIntegerProperty ℕ W
  pub text : StringProperty W
  pub date_created : WideIntegerProperty ℤ W
  pub date_finished : WideIntegerProperty ℤ W

abbrev pub of_task : ℕ → Property
of_task id = record { id = id; entity = task_entity }

unfoldable pub task_properties : {W F : Type 0} → QueryApi W F → TaskProperties W
unfolding property_uint64 property_string property_int64
task_properties api = record {
  id = property_uint64 api (of_task 1);
  text = property_string api (of_task 2);
  date_created = property_int64 api (of_task 4);
  date_finished = property_int64 api (of_task 5);
}

-- The condition of printList for the tasks that are not finished: Task_.DateFinished.Equals(0)
unfoldable pub unfinished_only : {W F : Type 0} → QueryApi W F → Conditions W
unfolding task_properties
unfinished_only api =
    and_condition ((task_properties api).date_finished.integer.equalities.equals (pos 0))
      no_conditions

-- The operations of the box that main gives to the shell; `now` is time.Now.
unfoldable pub box_ops :
    {W : Type 0} → TxnApi W → Box W (Option ℕ) Tasks → Exec W Tasks → (W → Time × W) → TaskOps W
unfolding task_put task_get task_get_all
box_ops tx box unfinished now = record {
  put = task_put tx box;
  get = task_get tx box;
  get_all = task_get_all tx box;
  unfinished = unfinished;
  now = now;
}

unfoldable pub task_ops :
    {W F : Type 0}
    → TxnApi W
    → Box W (Option ℕ) Tasks
    → QueryApi W F
    → QueryCalls W F
    → (List (ℕ × OrderFlags) → List (ℕ × OrderFlags))
    → (W → Time × W)
    → TaskOps W
unfolding box_ops found unfinished_only
task_ops tx box builders calls walk now =
    box_ops tx box (found builders walk tx box calls (unfinished_only builders)) now
