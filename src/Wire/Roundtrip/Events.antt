-- ===== src/Wire/Roundtrip/Events.antt =====
-- The round trips of the events of a stream: src/adapters/a2a/serialize.ts.
use jabr.Base.{◌≡◌, refl, none, some, Option, map_option}
use jabr.Wire.{object, find, parsed}
use jabr.Wire.Reading.{reading}
use jabr.Wire.Events.{
  TaskStatusUpdateEvent, TaskArtifactUpdateEvent, RpcError, RpcResponse, StreamResponse, task,
  message, status_update, artifact_update, json_rpc_response, from_wire_status_update,
  to_wire_status_update, from_wire_artifact_update, to_wire_artifact_update, parse_rpc_error,
  parse_rpc_response, parse_payload, parse_task_payload, parse_message_payload,
  parse_status_payload, parse_artifact_payload, parse_rpc_payload, from_wire_stream_response,
  rpc_error_object, rpc_response_object, to_wire_stream_response,
}
use jabr.Wire.Roundtrip.Messages.{normal_message, from_wire_message-to_wire_message}
use jabr.Wire.Roundtrip.Tasks.{
  normal_task, normal_status, normal_artifact, from_wire_task-to_wire_task,
  parse_task_status-serialize_task_status, parse_artifact-serialize_artifact,
}

unfoldable pub normal_status_update : TaskStatusUpdateEvent → TaskStatusUpdateEvent
normal_status_update e = record e { status = normal_status e.status }

pub from_wire_status_update-to_wire_status_update :
    (e : TaskStatusUpdateEvent)
    → from_wire_status_update (object (to_wire_status_update e)) ≡ parsed (normal_status_update e)
unfolding from_wire_status_update to_wire_status_update normal_status_update find
from_wire_status_update-to_wire_status_update e =
    simp (reading, parse_task_status-serialize_task_status)

unfoldable pub normal_artifact_update : TaskArtifactUpdateEvent → TaskArtifactUpdateEvent
normal_artifact_update e = record e { artifact = normal_artifact e.artifact }

pub from_wire_artifact_update-to_wire_artifact_update :
    (e : TaskArtifactUpdateEvent)
    → from_wire_artifact_update (object (to_wire_artifact_update e))
      ≡ parsed (normal_artifact_update e)
unfolding from_wire_artifact_update to_wire_artifact_update normal_artifact_update find
from_wire_artifact_update-to_wire_artifact_update e =
    simp (reading, parse_artifact-serialize_artifact)

error_trip : (o : Option RpcError) → map_option parse_rpc_error (map_option rpc_error_object o) ≡ o
unfolding parse_rpc_error rpc_error_object find
error_trip none = refl
error_trip (some e) = refl

rpc_trip : (r : RpcResponse) → parse_rpc_response (object (rpc_response_object r)) ≡ parsed r
unfolding parse_rpc_response rpc_response_object find
rpc_trip r = simp (reading, error_trip)

unfoldable pub normal_stream : StreamResponse → StreamResponse
normal_stream (task t) = task (normal_task t)
normal_stream (message m) = message (normal_message m)
normal_stream (status_update e) = status_update (normal_status_update e)
normal_stream (artifact_update e) = artifact_update (normal_artifact_update e)
normal_stream (json_rpc_response r) = json_rpc_response r

-- Each frame of a stream, be it a task, a message, a change of the status, an artifact or a JSON-RPC
-- response, is read back as what was written, in normal form: the lists that were not there are
-- empty ones, a file has an address, if only the empty one, and a function that answered
-- `undefined` has answered `null`.
pub from_wire_stream_response-to_wire_stream_response :
    (r : StreamResponse)
    → from_wire_stream_response (object (to_wire_stream_response r)) ≡ parsed (normal_stream r)
unfolding from_wire_stream_response to_wire_stream_response normal_stream find parse_payload
    parse_task_payload parse_message_payload parse_status_payload parse_artifact_payload
    parse_rpc_payload
from_wire_stream_response-to_wire_stream_response (task t) = rw (from_wire_task-to_wire_task t)
from_wire_stream_response-to_wire_stream_response (message m) =
    rw (from_wire_message-to_wire_message m)
from_wire_stream_response-to_wire_stream_response (status_update e) =
    rw (from_wire_status_update-to_wire_status_update e)
from_wire_stream_response-to_wire_stream_response (artifact_update e) =
    rw (from_wire_artifact_update-to_wire_artifact_update e)
from_wire_stream_response-to_wire_stream_response (json_rpc_response r) = rw (rpc_trip r)
