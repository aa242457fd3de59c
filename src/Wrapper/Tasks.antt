-- ===== src/Wrapper/Tasks.antt =====
-- The task store (internal/wrapper/taskstore.go). The tasks are the A2A library's: a type with an
-- id, a context id and a state.
pub mod Order
use ahsir.Prelude.{
  ◌++◌, is_some, if◌then◌else◌, [], ◌∷◌, ℕ, ◌≡◌, none, some, Option, arith, refl, true, false, Bool,
  suc, zero, List,
}
use ahsir.Prelude.Text.{text_eq, is_empty, Text-discrete, Text}
use ahsir.Prelude.Table.{get, put, Table}

pub record TaskStore (Task : Type 0) : Type 0 where
  pub tasks : Table Text Task
  pub order : List Text

unfoldable pub new_task_store : {Task : Type 0} → TaskStore Task
new_task_store = record { tasks = []; order = [] }

module _ {Task : Type 0} (task_id context_id state : Task → Text) where
  unfoldable save_task : Task → TaskStore Task → TaskStore Task
  save_task t ts = record {
    tasks = put Text-discrete (task_id t) t ts.tasks;
    order =
        if is_some (get Text-discrete (task_id t) ts.tasks)
        then ts.order
        else ts.order ++ (task_id t ∷ []);
  }

  unfoldable get_task : Text → TaskStore Task → Option Task
  get_task id ts = get Text-discrete id ts.tasks

  unfoldable state_of : Text → TaskStore Task → Option Text
  state_of id ts = elim (get Text-discrete id ts.tasks) [ none ↦ none | some t ↦ some (state t) ]

  -- `for _, id := range ts.order`
  unfoldable pub tasks_in : Table Text Task → List Text → List Task
  tasks_in m [] = []
  tasks_in m (id ∷ ids) =
      let rest = tasks_in m ids in elim (get Text-discrete id m) [ none ↦ rest | some t ↦ t ∷ rest ]

  unfoldable pub list_tasks : TaskStore Task → List Task
  list_tasks ts = tasks_in ts.tasks ts.order

  unfoldable pub tasks_of : Text → Table Text Task → List Text → List Task
  tasks_of cid m [] = []
  tasks_of cid m (id ∷ ids) =
      let rest = tasks_of cid m ids in
      elim (get Text-discrete id m) [
        | none ↦ rest
        | some t ↦ if text_eq (context_id t) cid then t ∷ rest else rest
      ]

  unfoldable pub list_by_context_id : Text → TaskStore Task → List Task
  list_by_context_id cid ts = if is_empty cid then [] else tasks_of cid ts.tasks ts.order
