-- ===== src/TaskMemory/Port.antt =====
-- The in-memory store of src/adapters/task-memory.ts as a task store port.
use jabr.Base.{
  ℕ, String, ◌≡◌, refl, some, arith, str_eq, eq_iff, lookup, lookup-insert, insert, if◌then◌else◌,
  map_option, Option-cases, inl, inr,
}
use jabr.TaskStore.{
  TaskState, Message, Task, TaskStorePort, new_task, with_state, with_message, with_retry,
  retries_of,
}
use jabr.TaskMemory.{
  TaskMemory, get, create, update_state, append_message, get_retry_count, increment_retry_count,
  move_to_dlq,
}

-- A lookup after the task found under a key was written back changed.
lookup-put :
    (s : TaskMemory) (id j : String) (task : Task) (change : Task → Task)
    → lookup id s.tasks ≡ some task
    → lookup j (insert id (change task) s.tasks)
      ≡ (if str_eq id j then map_option change (lookup j s.tasks) else lookup j s.tasks)
lookup-put s id j task change found =
    ground (arith, eq_iff id j, lookup-insert id j (change task) s.tasks)

pub get-create :
    (s : TaskMemory) (id j : String)
    → get (create s id) j ≡ (if str_eq id j then some (new_task id) else get s j)
unfolding get create
get-create s id j = lookup-insert id j (new_task id) s.tasks

pub get-update_state :
    (s : TaskMemory) (id j : String) (state : TaskState) (now : ℕ)
    → get (update_state s id state now) j
      ≡ (if str_eq id j then map_option (with_state state) (get s j) else get s j)
unfolding get update_state
get-update_state s id j state now = elim (Option-cases (lookup id s.tasks)) [
  | inl e ↦ ground (arith, eq_iff id j)
  | inr (task, e) ↦ ground (arith, lookup-put s id j task (with_state state) e)
]

pub get-append_message :
    (s : TaskMemory) (id j : String) (message : Message)
    → get (append_message s id message) j
      ≡ (if str_eq id j then map_option (with_message message) (get s j) else get s j)
unfolding get append_message
get-append_message s id j message = elim (Option-cases (lookup id s.tasks)) [
  | inl e ↦ ground (arith, eq_iff id j)
  | inr (task, e) ↦ ground (arith, lookup-put s id j task (with_message message) e)
]

pub get-increment_retry_count :
    (s : TaskMemory) (id j : String)
    → get (increment_retry_count s id) j
      ≡ (if str_eq id j then map_option with_retry (get s j) else get s j)
unfolding get increment_retry_count
get-increment_retry_count s id j = elim (Option-cases (lookup id s.tasks)) [
  | inl e ↦ ground (arith, eq_iff id j)
  | inr (task, e) ↦ ground (arith, lookup-put s id j task with_retry e)
]

pub get-move_to_dlq :
    (s : TaskMemory) (id j error : String) (now : ℕ) → get (move_to_dlq s id error now) j ≡ get s j
unfolding get move_to_dlq
get-move_to_dlq s id j error now = ground arith

pub get_retry_count_lem :
    (s : TaskMemory) (id : String) → get_retry_count s id ≡ retries_of (get s id)
unfolding get_retry_count
get_retry_count_lem s id = refl

abbrev pub task_memory_port : TaskStorePort
task_memory_port = record {
  Store = TaskMemory;
  get = get;
  create = create;
  update_state = update_state;
  append_message = append_message;
  get_retry_count = get_retry_count;
  increment_retry_count = increment_retry_count;
  move_to_dlq = move_to_dlq;
  get-create = get-create;
  get-update_state = get-update_state;
  get-append_message = get-append_message;
  get_retry_count_lem = get_retry_count_lem;
  get-increment_retry_count = get-increment_retry_count;
  get-move_to_dlq = get-move_to_dlq;
}
