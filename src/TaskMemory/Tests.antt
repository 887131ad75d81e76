-- ===== src/TaskMemory/Tests.antt =====
-- The store of src/adapters/task-memory.ts on concrete tasks.
use jabr.Base.{◌≡◌, refl, true, none, some, List, [], ◌∷◌, lookup}
use jabr.TaskStore.{Task, submitted, working, with_state, new_task}
use jabr.TaskMemory.{
  TaskMemory, get, empty, move_to_dlq, retry_from_dlq, get_dlq_entry, get_retry_count, dead_letter,
}
use jabr.TaskMemory.History.{Op, create_op, update_op, bury_op}
use jabr.TaskMemory.DeadLetters.{retry_from_dlq-move_to_dlq}

abbrev calls : List Op
calls = create_op "t1" ∷ update_op "t1" working 5 ∷ bury_op "t1" "timeout" 6 ∷ []

abbrev tried : Task
tried = record (new_task "t1") { state = working; retry_count = 3 }

abbrev one_task : TaskMemory
one_task = record empty { tasks = ("t1", tried) ∷ []; subscriptions = ("t1", 7 ∷ 8 ∷ []) ∷ [] }

retry_from_dlq-move_to_dlq_example :
    (get_dlq_entry (move_to_dlq one_task "t1" "timeout" 6) "t1"
      ≡ some (dead_letter "t1" "timeout" 6 tried))
    × ((retry_from_dlq (move_to_dlq one_task "t1" "timeout" 6) "t1").1 ≡ true)
    × (get_dlq_entry (retry_from_dlq (move_to_dlq one_task "t1" "timeout" 6) "t1").0 "t1" ≡ none)
    × (get (retry_from_dlq (move_to_dlq one_task "t1" "timeout" 6) "t1").0 "t1"
        ≡ some (with_state submitted tried))
    × (get_retry_count (retry_from_dlq (move_to_dlq one_task "t1" "timeout" 6) "t1").0 "t1" ≡ 3)
unfolding get lookup
retry_from_dlq-move_to_dlq_example = retry_from_dlq-move_to_dlq one_task "t1" "timeout" 6 tried refl
