-- ===== src/Wire/Tasks.antt =====
-- The status of a task, artifacts and tasks: their types in src/types/a2a-v1.ts, and their parsers
-- and serializers in src/adapters/a2a/serialize.ts. The names that an object inherits, such as
-- `constructor`, are left out of the table of states.
use jabr.Base.{String, Option, none, some, List, [], ◌∷◌, get_or, map_option, Map, lookup}
use jabr.Wire.{
  Value, string, array, object, Items, nil, cons, Fields, end, field, put, get_key, get_key_string,
  get_key_object, get_key_array, filled, filled_list, map_items, collect, plain_object, Parsed,
  parsed, ◌>>=◌, parse_optional, or_option, nested,
}
use jabr.Wire.Parts.{Part, parse_part, serialize_part}
use jabr.Wire.Messages.{Message, from_wire_message, to_wire_message}

pub data TaskState : Type 0 where
  submitted working input_required auth_required completed failed canceled rejected : TaskState
  unspecified : TaskState

pub record TaskStatus : Type 0 where
  pub state : TaskState
  pub message : Option Message
  pub timestamp : Option String

pub record Artifact : Type 0 where
  pub artifact_id : String
  pub name : Option String
  pub description : Option String
  pub parts : List Part
  pub metadata : Option Fields
  pub extensions : Option Items

pub record Task : Type 0 where
  pub task_id : String
  pub context_id : Option String
  pub status : TaskStatus
  pub history : Option (List Message)
  pub artifacts : Option (List Artifact)
  pub metadata : Option Fields

unfoldable pub state_text : TaskState → String
state_text submitted = "submitted"
state_text working = "working"
state_text input_required = "input-required"
state_text auth_required = "auth-required"
state_text completed = "completed"
state_text failed = "failed"
state_text canceled = "canceled"
state_text rejected = "rejected"
state_text unspecified = "unspecified"

-- `stateMap` of parseTaskStatus
abbrev pub state_map : Map TaskState
state_map =
    ("submitted", submitted)
    ∷ ("working", working)
    ∷ ("input-required", input_required)
    ∷ ("auth-required", auth_required)
    ∷ ("completed", completed)
    ∷ ("failed", failed)
    ∷ ("canceled", canceled)
    ∷ ("rejected", rejected)
    ∷ ("unspecified", unspecified)
    ∷ ("TASK_STATE_SUBMITTED", submitted)
    ∷ ("TASK_STATE_WORKING", working)
    ∷ ("TASK_STATE_INPUT_REQUIRED", input_required)
    ∷ ("TASK_STATE_AUTH_REQUIRED", auth_required)
    ∷ ("TASK_STATE_COMPLETED", completed)
    ∷ ("TASK_STATE_FAILED", failed)
    ∷ ("TASK_STATE_CANCELED", canceled)
    ∷ ("TASK_STATE_REJECTED", rejected)
    ∷ ("TASK_STATE_UNSPECIFIED", unspecified)
    ∷ []

-- `stateMap[String(value)]`. The text of an array of one element is the element's; that of a longer
-- one has a comma, that of an object or a number is no name either.
unfoldable pub state_of : Map TaskState → Value → Option TaskState
state_of names (string t) = lookup t names
state_of names (array (cons value nil)) = state_of names value
state_of names _ = none

unfoldable pub parse_task_status : Value → Parsed TaskStatus
parse_task_status value = do
  raw ← plain_object "TaskStatus" value
  message ← parse_optional from_wire_message (get_key_object raw "message" "message")
  parsed (record {
    state = get_or (state_of state_map (get_key raw "state" "state")) unspecified;
    message = message;
    timestamp = get_key_string raw "timestamp" "timestamp";
  })

unfoldable pub serialize_task_status : TaskStatus → Fields
serialize_task_status status =
    let out = field "state" (string (state_text status.state)) end in
    let out = put "message" (nested to_wire_message status.message) out in
    put "timestamp" (map_option string status.timestamp) out

unfoldable pub parse_artifact : Value → Parsed Artifact
parse_artifact value = do
  raw ← plain_object "Artifact" value
  parts ← map_items parse_part (get_key_array raw "parts" "parts")
  parsed (record {
    artifact_id = get_or (get_key_string raw "artifactId" "artifact_id") "";
    name = get_key_string raw "name" "name";
    description = get_key_string raw "description" "description";
    parts = parts;
    metadata = get_key_object raw "metadata" "metadata";
    extensions = some (get_key_array raw "extensions" "extensions");
  })

unfoldable pub serialize_artifact : Artifact → Fields
serialize_artifact artifact =
    let out =
      field "artifactId" (string artifact.artifact_id)
        (field "parts" (array (collect serialize_part artifact.parts)) end) in
    let out = put "name" (map_option string artifact.name) out in
    let out = put "description" (map_option string artifact.description) out in
    let out = put "metadata" (map_option object artifact.metadata) out in
    put "extensions" (filled artifact.extensions) out

unfoldable pub from_wire_task : Value → Parsed Task
from_wire_task value = do
  raw ← plain_object "Task" value
  status ← parse_task_status (get_key raw "status" "status")
  history ← map_items from_wire_message (get_key_array raw "history" "history")
  artifacts ← map_items parse_artifact (get_key_array raw "artifacts" "artifacts")
  parsed (record {
    task_id =
        get_or
          (or_option (get_key_string raw "taskId" "id") (get_key_string raw "taskId" "task_id")) "";
    context_id = get_key_string raw "contextId" "context_id";
    status = status;
    history = some history;
    artifacts = some artifacts;
    metadata = get_key_object raw "metadata" "metadata";
  })

unfoldable pub to_wire_task : Task → Fields
to_wire_task task =
    let out =
      field "id" (string task.task_id)
        (field "status" (object (serialize_task_status task.status)) end) in
    let out = put "contextId" (map_option string task.context_id) out in
    let out = put "history" (filled_list (λ m. object (to_wire_message m)) task.history) out in
    let out =
      put "artifacts" (filled_list (λ a. object (serialize_artifact a)) task.artifacts) out in
    put "metadata" (map_option object task.metadata) out
