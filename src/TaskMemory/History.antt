-- ===== src/TaskMemory/History.antt =====
-- The transition history of src/adapters/task-memory.ts.
use jabr.Base.{ℕ, String, ◌≡◌, refl, List, [], ◌∷◌, arith, lookup}
use jabr.TaskStore.{TaskState, Message, Artifact}
use jabr.TaskMemory.{
  TaskMemory, empty, create, update_state, append_message, append_artifact, subscribe, unsubscribe,
  increment_retry_count, move_to_dlq, retry_from_dlq, purge_dlq, purge_all_dlq,
  get_transition_history,
}

pub data Op : Type 0 where
  create_op : (task_id : String) → Op
  update_op : (task_id : String) (state : TaskState) (now : ℕ) → Op
  message_op : (task_id : String) (message : Message) → Op
  artifact_op : (task_id : String) (artifact : Artifact) → Op
  subscribe_op : (task_id : String) (cb : ℕ) → Op
  unsubscribe_op : (task_id : String) (cb : ℕ) → Op
  retry_op : (task_id : String) → Op
  bury_op : (task_id error : String) (now : ℕ) → Op
  revive_op : (task_id : String) → Op
  purge_op : (task_id : String) → Op
  purge_all_op : Op

-- Every method of the store that changes it.
pub apply : TaskMemory → Op → TaskMemory
apply s (create_op id) = create s id
apply s (update_op id state now) = update_state s id state now
apply s (message_op id message) = append_message s id message
apply s (artifact_op id artifact) = append_artifact s id artifact
apply s (subscribe_op id cb) = subscribe s id cb
apply s (unsubscribe_op id cb) = unsubscribe s id cb
apply s (retry_op id) = increment_retry_count s id
apply s (bury_op id error now) = move_to_dlq s id error now
apply s (revive_op id) = (retry_from_dlq s id).0
apply s (purge_op id) = (purge_dlq s id).0
apply s purge_all_op = (purge_all_dlq s).0

unfoldable pub run : TaskMemory → List Op → TaskMemory
run s [] = s
run s (op ∷ ops) = run (apply s op) ops

apply-transitions : (s : TaskMemory) (op : Op) → s.transitions ≡ [] → (apply s op).transitions ≡ []
unfolding apply create update_state append_message append_artifact subscribe unsubscribe
    increment_retry_count move_to_dlq retry_from_dlq purge_dlq purge_all_dlq lookup
apply-transitions s (create_op id) h = h
apply-transitions s _ h = ground arith

run-transitions :
    (s : TaskMemory) (ops : List Op) → s.transitions ≡ [] → (run s ops).transitions ≡ []
unfolding run
run-transitions s [] h = h
run-transitions s (op ∷ ops) h = run-transitions (apply s op) ops (apply-transitions s op h)

-- Whatever is done with a new store, every task's transition history stays empty.
get_transition_history_nil :
    (ops : List Op) (task_id : String) → get_transition_history (run empty ops) task_id ≡ []
unfolding get_transition_history lookup
get_transition_history_nil ops task_id = rw (run-transitions empty ops refl) refl
