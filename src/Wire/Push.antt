-- ===== src/Wire/Push.antt =====
-- The configurations of push notifications and the requests about them: their types in
-- src/types/a2a-v1.ts, and their parsers and serializers in src/adapters/a2a/serialize.ts.
use jabr.Base.{String, Option, List, get_or, map_option}
use jabr.Wire.{
  ℤ, Value, number, string, array, object, Items, Fields, end, field, put, get_key_string,
  get_key_number, get_key_object, get_key_array, map_items, collect, plain_object, Parsed, parsed,
  ◌>>=◌, nested,
}

pub record Authentication : Type 0 where
  pub schemes : Items
  pub credentials : Option String

pub record TaskPushNotificationConfig : Type 0 where
  pub id : String
  pub task_id : String
  pub url : String
  pub token : Option String
  pub authentication : Option Authentication
  pub tenant : Option String

unfoldable pub parse_authentication : Fields → Authentication
parse_authentication auth = record {
  schemes = get_key_array auth "schemes" "schemes";
  credentials = get_key_string auth "credentials" "credentials";
}

unfoldable pub parse_config : Value → Parsed TaskPushNotificationConfig
parse_config value = do
  raw ← plain_object "TaskPushNotificationConfig" value
  parsed (record {
    id = get_or (get_key_string raw "id" "id") "";
    task_id = get_or (get_key_string raw "taskId" "task_id") "";
    url = get_or (get_key_string raw "url" "url") "";
    token = get_key_string raw "token" "token";
    authentication =
        map_option parse_authentication (get_key_object raw "authentication" "authentication");
    tenant = get_key_string raw "tenant" "tenant";
  })

-- the object of the record itself
unfoldable pub authentication_object : Authentication → Fields
authentication_object auth =
    put "credentials" (map_option string auth.credentials)
      (field "schemes" (array auth.schemes) end)

unfoldable pub serialize_config : TaskPushNotificationConfig → Fields
serialize_config config =
    let out =
      field "id" (string config.id)
        (field "taskId" (string config.task_id) (field "url" (string config.url) end)) in
    let out = put "token" (map_option string config.token) out in
    let out = put "authentication" (nested authentication_object config.authentication) out in
    put "tenant" (map_option string config.tenant) out

-- The requests that get and delete a configuration have the same two fields.
pub record ConfigRequest : Type 0 where
  pub task_id : String
  pub id : String

-- A Get and a Delete request differ in the name that the error has.
unfoldable pub from_wire_config_request : String → Value → Parsed ConfigRequest
from_wire_config_request name value = do
  raw ← plain_object name value
  parsed (record {
    task_id = get_or (get_key_string raw "taskId" "task_id") "";
    id = get_or (get_key_string raw "id" "id") "";
  })

unfoldable pub from_wire_get_config_request : Value → Parsed ConfigRequest
from_wire_get_config_request = from_wire_config_request "GetTaskPushNotificationConfigRequest"

unfoldable pub from_wire_delete_config_request : Value → Parsed ConfigRequest
from_wire_delete_config_request = from_wire_config_request "DeleteTaskPushNotificationConfigRequest"

unfoldable pub to_wire_get_config_request : ConfigRequest → Fields
to_wire_get_config_request req =
    field "taskId" (string req.task_id) (field "id" (string req.id) end)

unfoldable pub to_wire_delete_config_request : ConfigRequest → Fields
to_wire_delete_config_request req =
    field "taskId" (string req.task_id) (field "id" (string req.id) end)

pub record ListConfigsRequest : Type 0 where
  pub task_id : String
  pub page_size : Option ℤ
  pub page_token : Option String

unfoldable pub from_wire_list_configs_request : Value → Parsed ListConfigsRequest
from_wire_list_configs_request value = do
  raw ← plain_object "ListTaskPushNotificationConfigsRequest" value
  parsed (record {
    task_id = get_or (get_key_string raw "taskId" "task_id") "";
    page_size = get_key_number raw "pageSize" "page_size";
    page_token = get_key_string raw "pageToken" "page_token";
  })

unfoldable pub to_wire_list_configs_request : ListConfigsRequest → Fields
to_wire_list_configs_request req =
    let out = field "taskId" (string req.task_id) end in
    let out = put "pageSize" (map_option number req.page_size) out in
    put "pageToken" (map_option string req.page_token) out

pub record ListConfigsResponse : Type 0 where
  pub configs : List TaskPushNotificationConfig
  pub next_page_token : Option String

unfoldable pub from_wire_list_configs_response : Value → Parsed ListConfigsResponse
from_wire_list_configs_response value = do
  raw ← plain_object "ListTaskPushNotificationConfigsResponse" value
  configs ← map_items parse_config (get_key_array raw "configs" "configs")
  parsed (record {
    configs = configs;
    next_page_token = get_key_string raw "nextPageToken" "next_page_token";
  })

unfoldable pub to_wire_list_configs_response : ListConfigsResponse → Fields
to_wire_list_configs_response resp =
    let out =
      field "configs" (array (collect (λ c. object (serialize_config c)) resp.configs)) end in
    put "nextPageToken" (map_option string resp.next_page_token) out
