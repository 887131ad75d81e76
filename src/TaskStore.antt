-- ===== src/TaskStore.antt =====
-- The tasks that agents work on, and what a task store promises: src/ports/task-store.ts and the
-- message types of src/types/types.ts. Times are numbers; a JSON or base64 payload is its text.
use jabr.Base.{
  ℕ, ◌+◌, String, ◌≡◌, Option, none, some, List, ◌∷◌, [], ◌++◌, if◌then◌else◌, str_eq, map_option,
}

pub data TaskState : Type 0 where
  submitted working input_required completed failed canceled rejected auth_required unknown :
      TaskState

pub data Part : Type 0 where
  text : String → Part
  file : (base64 : String) → Part
  blob : (json : String) → Part

pub data Role : Type 0 where
  user agent : Role

pub record Message : Type 0 where
  pub message_id : String
  pub role : Role
  pub parts : List Part
  pub context_id : String
  pub task_id : Option String
  pub reference_task_ids : Option (List String)

pub record Artifact : Type 0 where
  pub name : String
  pub parts : List Part

-- `retry_count` is the property that the stores add to the object.
pub record Task : Type 0 where
  pub id : String
  pub state : TaskState
  pub messages : List Message
  pub artifacts : List Artifact
  pub retry_count : ℕ

pub record DlqEntry : Type 0 where
  pub task_id : String
  pub state : TaskState
  pub error : String
  pub retry_count : ℕ
  pub moved_at : ℕ
  pub message_count : ℕ

abbrev pub new_task : String → Task
new_task id = record { id = id; state = submitted; messages = []; artifacts = []; retry_count = 0 }

abbrev pub with_state : TaskState → Task → Task
with_state state task = record task { state = state }

abbrev pub with_message : Message → Task → Task
with_message message task = record task { messages = task.messages ++ message ∷ [] }

abbrev pub with_retry : Task → Task
with_retry task = record task { retry_count = task.retry_count + 1 }

abbrev pub retries_of : Option Task → ℕ
retries_of none = 0
retries_of (some task) = task.retry_count

-- What the orchestrator relies on: each operation changes the task that it names, if there is one,
-- and no other.
pub record TaskStorePort : Type 1 where
  pub Store : Type 0
  pub get : Store → String → Option Task
  pub create : Store → String → Store
  pub update_state : Store → String → TaskState → ℕ → Store
  pub append_message : Store → String → Message → Store
  pub get_retry_count : Store → String → ℕ
  pub increment_retry_count : Store → String → Store
  pub move_to_dlq : Store → String → String → ℕ → Store
  pub get-create :
      (s : Store) (id j : String)
      → get (create s id) j ≡ (if str_eq id j then some (new_task id) else get s j)
  pub get-update_state :
      (s : Store) (id j : String) (state : TaskState) (now : ℕ)
      → get (update_state s id state now) j
        ≡ (if str_eq id j then map_option (with_state state) (get s j) else get s j)
  pub get-append_message :
      (s : Store) (id j : String) (message : Message)
      → get (append_message s id message) j
        ≡ (if str_eq id j then map_option (with_message message) (get s j) else get s j)
  pub get_retry_count_lem : (s : Store) (id : String) → get_retry_count s id ≡ retries_of (get s id)
  pub get-increment_retry_count :
      (s : Store) (id j : String)
      → get (increment_retry_count s id) j
        ≡ (if str_eq id j then map_option with_retry (get s j) else get s j)
  pub get-move_to_dlq :
      (s : Store) (id j error : String) (now : ℕ) → get (move_to_dlq s id error now) j ≡ get s j
