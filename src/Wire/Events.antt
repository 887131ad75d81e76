-- ===== src/Wire/Events.antt =====
-- The events of a stream of responses: their types in src/types/a2a-v1.ts, and their parsers and
-- serializers in src/adapters/a2a/serialize.ts.
use jabr.Base.{Bool, String, Option, get_or, map_option, is_some, if◌then◌else◌}
use jabr.Wire.{
  ℤ, negsuc, Value, boolean, number, string, object, Fields, end, field, find, put, property,
  property_of, has_key, either_key, get_key, get_key_string, get_key_number, get_key_boolean,
  get_key_object, as_object, plain_object, Parsed, parsed, thrown, unknown_stream_response, ◌>>=◌,
  nested,
}
use jabr.Wire.Messages.{Message, from_wire_message, to_wire_message}
use jabr.Wire.Tasks.{
  Task, TaskStatus, Artifact, parse_task_status, serialize_task_status, parse_artifact,
  serialize_artifact, from_wire_task, to_wire_task,
}

pub record TaskStatusUpdateEvent : Type 0 where
  pub task_id : String
  pub context_id : String
  pub status : TaskStatus
  pub final : Option Bool
  pub metadata : Option Fields

pub record TaskArtifactUpdateEvent : Type 0 where
  pub task_id : String
  pub context_id : String
  pub artifact : Artifact
  pub append : Option Bool
  pub last_chunk : Option Bool
  pub metadata : Option Fields

unfoldable pub from_wire_status_update : Value → Parsed TaskStatusUpdateEvent
from_wire_status_update value = do
  raw ← plain_object "TaskStatusUpdateEvent" value
  status ← parse_task_status (get_key raw "status" "status")
  parsed (record {
    task_id = get_or (get_key_string raw "taskId" "task_id") "";
    context_id = get_or (get_key_string raw "contextId" "context_id") "";
    status = status;
    final = get_key_boolean raw "final" "final";
    metadata = get_key_object raw "metadata" "metadata";
  })

unfoldable pub to_wire_status_update : TaskStatusUpdateEvent → Fields
to_wire_status_update event =
    let out = field "taskId" (string event.task_id) (
      field "contextId" (string event.context_id)
        (field "status" (object (serialize_task_status event.status)) end)) in
    let out = put "final" (map_option boolean event.final) out in
    put "metadata" (map_option object event.metadata) out

unfoldable pub from_wire_artifact_update : Value → Parsed TaskArtifactUpdateEvent
from_wire_artifact_update value = do
  raw ← plain_object "TaskArtifactUpdateEvent" value
  artifact ← parse_artifact (get_key raw "artifact" "artifact")
  parsed (record {
    task_id = get_or (get_key_string raw "taskId" "task_id") "";
    context_id = get_or (get_key_string raw "contextId" "context_id") "";
    artifact = artifact;
    append = get_key_boolean raw "append" "append";
    last_chunk = get_key_boolean raw "lastChunk" "last_chunk";
    metadata = get_key_object raw "metadata" "metadata";
  })

unfoldable pub to_wire_artifact_update : TaskArtifactUpdateEvent → Fields
to_wire_artifact_update event =
    let out = field "taskId" (string event.task_id) (
      field "contextId" (string event.context_id)
        (field "artifact" (object (serialize_artifact event.artifact)) end)) in
    let out = put "append" (map_option boolean event.append) out in
    let out = put "lastChunk" (map_option boolean event.last_chunk) out in
    put "metadata" (map_option object event.metadata) out

pub record RpcError : Type 0 where
  pub code : ℤ
  pub message : String

-- `result` is `undefined` where it is not there.
pub record RpcResponse : Type 0 where
  pub result : Value
  pub error : Option RpcError

pub data StreamResponse : Type 0 where
  task : Task → StreamResponse
  message : Message → StreamResponse
  status_update : TaskStatusUpdateEvent → StreamResponse
  artifact_update : TaskArtifactUpdateEvent → StreamResponse
  json_rpc_response : RpcResponse → StreamResponse

unfoldable pub parse_rpc_error : Fields → RpcError
parse_rpc_error error = record {
  code = get_or (get_key_number error "code" "code") (negsuc 32602);
  message = get_or (get_key_string error "message" "message") "Internal error";
}

unfoldable pub parse_rpc_response : Value → Parsed RpcResponse
parse_rpc_response jrr = do
  result ← property_of "result" jrr
  error ← property_of "error" jrr
  parsed (record { result = result; error = map_option parse_rpc_error (as_object error) })

unfoldable pub parse_task_payload : Fields → Parsed StreamResponse
parse_task_payload raw = do t ← from_wire_task (property "task" raw); parsed (task t)

unfoldable pub parse_message_payload : Fields → Parsed StreamResponse
parse_message_payload raw = do m ← from_wire_message (property "message" raw); parsed (message m)

unfoldable pub parse_status_payload : Fields → Parsed StreamResponse
parse_status_payload raw = do
  event ← from_wire_status_update (either_key raw "statusUpdate" "status_update")
  parsed (status_update event)

unfoldable pub parse_artifact_payload : Fields → Parsed StreamResponse
parse_artifact_payload raw = do
  event ← from_wire_artifact_update (either_key raw "artifactUpdate" "artifact_update")
  parsed (artifact_update event)

unfoldable pub parse_rpc_payload : Fields → Parsed StreamResponse
parse_rpc_payload raw = do
  response ← parse_rpc_response (either_key raw "jsonRpcResponse" "json_rpc_response")
  parsed (json_rpc_response response)

unfoldable pub parse_payload : Fields → Parsed StreamResponse
parse_payload raw =
    if is_some (find "task" raw)
    then parse_task_payload raw
    else if is_some (find "message" raw)
    then parse_message_payload raw
    else if has_key raw "statusUpdate" "status_update"
    then parse_status_payload raw
    else if has_key raw "artifactUpdate" "artifact_update"
    then parse_artifact_payload raw
    else if has_key raw "jsonRpcResponse" "json_rpc_response"
    then parse_rpc_payload raw
    else thrown (unknown_stream_response raw)

unfoldable pub from_wire_stream_response : Value → Parsed StreamResponse
from_wire_stream_response value = plain_object "StreamResponse" value >>= parse_payload

-- the objects of the records themselves
unfoldable pub rpc_error_object : RpcError → Fields
rpc_error_object error =
    field "code" (number error.code) (field "message" (string error.message) end)

unfoldable pub rpc_response_object : RpcResponse → Fields
rpc_response_object response =
    put "error" (nested rpc_error_object response.error) (field "result" response.result end)

unfoldable pub to_wire_stream_response : StreamResponse → Fields
to_wire_stream_response (task t) = field "task" (object (to_wire_task t)) end
to_wire_stream_response (message m) = field "message" (object (to_wire_message m)) end
to_wire_stream_response (status_update event) =
    field "statusUpdate" (object (to_wire_status_update event)) end
to_wire_stream_response (artifact_update event) =
    field "artifactUpdate" (object (to_wire_artifact_update event)) end
to_wire_stream_response (json_rpc_response response) =
    field "jsonRpcResponse" (object (rpc_response_object response)) end
