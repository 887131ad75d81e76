-- ===== src/Wire/Requests.antt =====
-- The requests about tasks and their responses: their types in src/types/a2a-v1.ts, and their
-- parsers and serializers in src/adapters/a2a/serialize.ts.
use jabr.Base.{
  zero, Bool, true, false, not, String, Option, none, some, List, [], ◌∷◌, get_or, map_option,
  str_eq, Map, if◌then◌else◌,
}
use jabr.Wire.{
  ℤ, pos, Value, undefined, null, boolean, number, string, array, object, Items, Fields, end, field,
  put, get_key, get_key_string, get_key_number, get_key_boolean, get_key_object, get_key_array,
  filled, map_items, collect, plain_object, Parsed, parsed, ◌>>=◌, parse_optional, as_object,
  nested,
}
use jabr.Wire.Messages.{Message, from_wire_message, to_wire_message}
use jabr.Wire.Tasks.{
  Task, TaskState, submitted, working, input_required, auth_required, completed, failed, canceled,
  rejected, unspecified, state_text, state_of, from_wire_task, to_wire_task,
}
use jabr.Wire.Push.{TaskPushNotificationConfig, parse_config, serialize_config}

pub record SendMessageConfiguration : Type 0 where
  pub accepted_output_modes : Option Items
  pub task_push_notification_config : Option TaskPushNotificationConfig
  pub history_length : Option ℤ
  pub return_immediately : Option Bool

pub record SendMessageRequest : Type 0 where
  pub message : Message
  pub notification_url : Option String
  pub send_message_configuration : Option SendMessageConfiguration
  pub metadata : Option Fields

pub record SendMessageResponse : Type 0 where
  pub task : Option Task
  pub message : Option Message

unfoldable pub parse_configuration_fields : Fields → Parsed SendMessageConfiguration
parse_configuration_fields raw = do
  config ←
      parse_optional parse_config
        (get_key_object raw "taskPushNotificationConfig" "task_push_notification_config")
  parsed (record {
    accepted_output_modes = some (get_key_array raw "acceptedOutputModes" "accepted_output_modes");
    task_push_notification_config = config;
    history_length = get_key_number raw "historyLength" "history_length";
    return_immediately = get_key_boolean raw "returnImmediately" "return_immediately";
  })

-- A value that is no object is no configuration.
unfoldable pub parse_send_message_configuration : Value → Parsed (Option SendMessageConfiguration)
parse_send_message_configuration (object raw) = do
  config ← parse_configuration_fields raw
  parsed (some config)
parse_send_message_configuration _ = parsed none

unfoldable pub serialize_send_message_configuration : SendMessageConfiguration → Fields
serialize_send_message_configuration config =
    let out = put "acceptedOutputModes" (filled config.accepted_output_modes) end in
    let out =
      put "taskPushNotificationConfig"
        (nested serialize_config config.task_push_notification_config) out in
    let out = put "historyLength" (map_option number config.history_length) out in
    put "returnImmediately" (map_option boolean config.return_immediately) out

unfoldable pub from_wire_send_message_request : Value → Parsed SendMessageRequest
from_wire_send_message_request value = do
  raw ← plain_object "SendMessageRequest" value
  message ← from_wire_message (get_key raw "message" "message")
  config ← parse_send_message_configuration (get_key raw "sendMessageConfiguration" "configuration")
  parsed (record {
    message = message;
    notification_url = get_key_string raw "notificationUrl" "notification_url";
    send_message_configuration = config;
    metadata = get_key_object raw "metadata" "metadata";
  })

unfoldable pub to_wire_send_message_request : SendMessageRequest → Fields
to_wire_send_message_request req =
    let out = field "message" (object (to_wire_message req.message)) end in
    let out = put "notificationUrl" (map_option string req.notification_url) out in
    let out =
      put "configuration"
        (nested serialize_send_message_configuration req.send_message_configuration) out in
    put "metadata" (map_option object req.metadata) out

unfoldable pub from_wire_send_message_response : Value → Parsed SendMessageResponse
from_wire_send_message_response value = do
  raw ← plain_object "SendMessageResponse" value
  task ← parse_optional from_wire_task (get_key_object raw "task" "task")
  message ← parse_optional from_wire_message (get_key_object raw "message" "message")
  parsed (record { task = task; message = message })

unfoldable pub to_wire_send_message_response : SendMessageResponse → Fields
to_wire_send_message_response resp =
    let out = put "task" (nested to_wire_task resp.task) end in
    put "message" (nested to_wire_message resp.message) out

pub record ListTasksRequest : Type 0 where
  pub context_id : Option String
  pub status : Option TaskState
  pub page_size : Option ℤ
  pub page_token : Option String
  pub history_length : Option ℤ
  pub status_timestamp_after : Option String
  pub include_artifacts : Option Bool

pub record ListTasksResponse : Type 0 where
  pub tasks : List Task
  pub next_page_token : Option String
  pub page_size : ℤ
  pub total_size : ℤ

-- `stateMap` of fromWireListTasksRequest: the short names only
abbrev pub list_state_map : Map TaskState
list_state_map =
    ("submitted", submitted)
    ∷ ("working", working)
    ∷ ("input-required", input_required)
    ∷ ("auth-required", auth_required)
    ∷ ("completed", completed)
    ∷ ("failed", failed)
    ∷ ("canceled", canceled)
    ∷ ("rejected", rejected)
    ∷ ("unspecified", unspecified)
    ∷ []

-- a value that is not falsy
abbrev pub is_truthy : Value → Bool
is_truthy undefined = false
is_truthy null = false
is_truthy (boolean b) = b
is_truthy (number (pos zero)) = false
is_truthy (string t) = not (str_eq t "")
is_truthy _ = true

unfoldable pub list_status : Value → Option TaskState
list_status value = if is_truthy value then state_of list_state_map value else none

unfoldable pub from_wire_list_tasks_request : Value → Parsed ListTasksRequest
from_wire_list_tasks_request value = do
  raw ← plain_object "ListTasksRequest" value
  parsed (record {
    context_id = get_key_string raw "contextId" "context_id";
    status = list_status (get_key raw "status" "status");
    page_size = get_key_number raw "pageSize" "page_size";
    page_token = get_key_string raw "pageToken" "page_token";
    history_length = get_key_number raw "historyLength" "history_length";
    status_timestamp_after = get_key_string raw "statusTimestampAfter" "status_timestamp_after";
    include_artifacts = get_key_boolean raw "includeArtifacts" "include_artifacts";
  })

unfoldable pub to_wire_list_tasks_request : ListTasksRequest → Fields
to_wire_list_tasks_request req =
    let out = put "contextId" (map_option string req.context_id) end in
    let out = put "status" (map_option (λ s. string (state_text s)) req.status) out in
    let out = put "pageSize" (map_option number req.page_size) out in
    let out = put "pageToken" (map_option string req.page_token) out in
    let out = put "historyLength" (map_option number req.history_length) out in
    let out = put "statusTimestampAfter" (map_option string req.status_timestamp_after) out in
    put "includeArtifacts" (map_option boolean req.include_artifacts) out

unfoldable pub from_wire_list_tasks_response : Value → Parsed ListTasksResponse
from_wire_list_tasks_response value = do
  raw ← plain_object "ListTasksResponse" value
  tasks ← map_items from_wire_task (get_key_array raw "tasks" "tasks")
  parsed (record {
    tasks = tasks;
    next_page_token = get_key_string raw "nextPageToken" "next_page_token";
    page_size = get_or (get_key_number raw "pageSize" "page_size") (pos 0);
    total_size = get_or (get_key_number raw "totalSize" "total_size") (pos 0);
  })

unfoldable pub to_wire_list_tasks_response : ListTasksResponse → Fields
to_wire_list_tasks_response resp =
    let out =
      field "tasks" (array (collect (λ t. object (to_wire_task t)) resp.tasks)) (
        field "pageSize" (number resp.page_size)
          (field "totalSize" (number resp.total_size) end)) in
    put "nextPageToken" (map_option string resp.next_page_token) out

pub record GetTaskRequest : Type 0 where
  pub id : String
  pub history_length : Option ℤ

unfoldable pub from_wire_get_task_request : Value → Parsed GetTaskRequest
from_wire_get_task_request value = do
  raw ← plain_object "GetTaskRequest" value
  parsed (record {
    id = get_or (get_key_string raw "id" "id") "";
    history_length = get_key_number raw "historyLength" "history_length";
  })

unfoldable pub to_wire_get_task_request : GetTaskRequest → Fields
to_wire_get_task_request req =
    put "historyLength" (map_option number req.history_length) (field "id" (string req.id) end)

pub record CancelTaskRequest : Type 0 where
  pub id : String
  pub metadata : Option Fields

unfoldable pub from_wire_cancel_task_request : Value → Parsed CancelTaskRequest
from_wire_cancel_task_request value = do
  raw ← plain_object "CancelTaskRequest" value
  parsed (record {
    id = get_or (get_key_string raw "id" "id") "";
    metadata = get_key_object raw "metadata" "metadata";
  })

unfoldable pub to_wire_cancel_task_request : CancelTaskRequest → Fields
to_wire_cancel_task_request req =
    put "metadata" (map_option object req.metadata) (field "id" (string req.id) end)

pub record SubscribeToTaskRequest : Type 0 where
  pub id : String

unfoldable pub from_wire_subscribe_request : Value → Parsed SubscribeToTaskRequest
from_wire_subscribe_request value = do
  raw ← plain_object "SubscribeToTaskRequest" value
  parsed (record { id = get_or (get_key_string raw "id" "id") "" })

unfoldable pub to_wire_subscribe_request : SubscribeToTaskRequest → Fields
to_wire_subscribe_request req = field "id" (string req.id) end

pub record GetExtendedAgentCardRequest : Type 0 where
  pub tenant : Option String

unfoldable pub tenant_of : Option Fields → GetExtendedAgentCardRequest
tenant_of none = record { tenant = none }
tenant_of (some raw) = record { tenant = get_key_string raw "tenant" "tenant" }

unfoldable pub from_wire_extended_card_request : Value → GetExtendedAgentCardRequest
from_wire_extended_card_request value = tenant_of (as_object value)

unfoldable pub to_wire_extended_card_request : GetExtendedAgentCardRequest → Fields
to_wire_extended_card_request req = put "tenant" (map_option string req.tenant) end
