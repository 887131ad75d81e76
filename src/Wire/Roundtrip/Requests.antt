-- ===== src/Wire/Roundtrip/Requests.antt =====
-- The round trips of the requests and responses about tasks and of the configurations of push
-- notifications: src/adapters/a2a/serialize.ts.
use jabr.Base.{◌≡◌, refl, none, some, Option, List, map, get_or, map_option, lookup}
use jabr.Wire.{string, object, nil, map_items, collect, find, parse_optional, parsed, undefined}
use jabr.Wire.Reading.{
  reading, parse_optional-normal, map_items-collect, map_items_back, parse_optional_back,
}
use jabr.Wire.Tasks.{
  Task, TaskState, submitted, working, input_required, auth_required, completed, failed, canceled,
  rejected, unspecified, state_text, state_of, from_wire_task, to_wire_task,
}
use jabr.Wire.Push.{
  TaskPushNotificationConfig, Authentication, parse_authentication, authentication_object,
  parse_config, serialize_config, ListConfigsResponse, from_wire_list_configs_response,
  to_wire_list_configs_response,
}
use jabr.Wire.Requests.{
  SendMessageConfiguration, SendMessageRequest, SendMessageResponse, ListTasksRequest,
  ListTasksResponse, parse_configuration_fields, parse_send_message_configuration,
  serialize_send_message_configuration, from_wire_send_message_request,
  to_wire_send_message_request, from_wire_send_message_response, to_wire_send_message_response,
  list_status, from_wire_list_tasks_request, to_wire_list_tasks_request,
  from_wire_list_tasks_response, to_wire_list_tasks_response,
}
use jabr.Wire.Roundtrip.Messages.{normal_message, from_wire_message-to_wire_message}
use jabr.Wire.Roundtrip.Tasks.{normal_task, from_wire_task-to_wire_task, parse_optional_message}

authentication_trip : (a : Authentication) → parse_authentication (authentication_object a) ≡ a
unfolding parse_authentication authentication_object find
authentication_trip a = simp reading

authentications_trip :
    (o : Option Authentication)
    → map_option parse_authentication (map_option authentication_object o) ≡ o
authentications_trip none = refl
authentications_trip (some a) = rw (authentication_trip a)

pub parse_config-serialize_config :
    (c : TaskPushNotificationConfig) → parse_config (object (serialize_config c)) ≡ parsed c
unfolding parse_config serialize_config find
parse_config-serialize_config c = simp (reading, authentications_trip)

configs_trip :
    (list : List TaskPushNotificationConfig)
    → map_items parse_config (collect (λ c. object (serialize_config c)) list) ≡ parsed list
configs_trip =
    map_items_back parse_config (λ c. object (serialize_config c)) parse_config-serialize_config

config_trip :
    (o : Option TaskPushNotificationConfig)
    → parse_optional parse_config (map_option serialize_config o) ≡ parsed o
config_trip = parse_optional_back parse_config serialize_config parse_config-serialize_config

unfoldable pub normal_configuration : SendMessageConfiguration → SendMessageConfiguration
normal_configuration c = record c {
  accepted_output_modes = some (get_or c.accepted_output_modes nil);
}

configuration_trip :
    (c : SendMessageConfiguration)
    → parse_configuration_fields (serialize_send_message_configuration c)
      ≡ parsed (normal_configuration c)
unfolding parse_configuration_fields serialize_send_message_configuration normal_configuration find
configuration_trip c = simp (reading, config_trip)

configurations_trip :
    (o : Option SendMessageConfiguration)
    → parse_send_message_configuration
        (get_or (map_option object (map_option serialize_send_message_configuration o)) undefined)
      ≡ parsed (map_option normal_configuration o)
unfolding parse_send_message_configuration
configurations_trip none = refl
configurations_trip (some c) = rw (configuration_trip c)

unfoldable pub normal_request : SendMessageRequest → SendMessageRequest
normal_request r = record r {
  message = normal_message r.message;
  send_message_configuration = map_option normal_configuration r.send_message_configuration;
}

from_wire_send_message_request-to_wire_send_message_request :
    (r : SendMessageRequest)
    → from_wire_send_message_request (object (to_wire_send_message_request r))
      ≡ parsed (normal_request r)
unfolding from_wire_send_message_request to_wire_send_message_request normal_request find
from_wire_send_message_request-to_wire_send_message_request r =
    simp (reading, from_wire_message-to_wire_message, configurations_trip)

parse_optional_task :
    (o : Option Task)
    → parse_optional from_wire_task (map_option to_wire_task o) ≡ parsed (map_option normal_task o)
parse_optional_task =
    parse_optional-normal from_wire_task to_wire_task normal_task from_wire_task-to_wire_task

unfoldable pub normal_response : SendMessageResponse → SendMessageResponse
normal_response r = record {
  task = map_option normal_task r.task;
  message = map_option normal_message r.message;
}

pub from_wire_send_message_response-to_wire_send_message_response :
    (r : SendMessageResponse)
    → from_wire_send_message_response (object (to_wire_send_message_response r))
      ≡ parsed (normal_response r)
unfolding from_wire_send_message_response to_wire_send_message_response normal_response find
from_wire_send_message_response-to_wire_send_message_response r =
    simp (reading, parse_optional_task, parse_optional_message)

status_trip :
    (o : Option TaskState)
    → list_status (get_or (map_option (λ s. string (state_text s)) o) undefined) ≡ o
unfolding list_status state_of state_text lookup
status_trip none = refl
status_trip (some submitted) = refl
status_trip (some working) = refl
status_trip (some input_required) = refl
status_trip (some auth_required) = refl
status_trip (some completed) = refl
status_trip (some failed) = refl
status_trip (some canceled) = refl
status_trip (some rejected) = refl
status_trip (some unspecified) = refl

from_wire_list_tasks_request-to_wire_list_tasks_request :
    (r : ListTasksRequest)
    → from_wire_list_tasks_request (object (to_wire_list_tasks_request r)) ≡ parsed r
unfolding from_wire_list_tasks_request to_wire_list_tasks_request find
from_wire_list_tasks_request-to_wire_list_tasks_request r = simp (reading, status_trip)

tasks_trip :
    (list : List Task)
    → map_items from_wire_task (collect (λ t. object (to_wire_task t)) list)
      ≡ parsed (map normal_task list)
tasks_trip =
    map_items-collect from_wire_task (λ t. object (to_wire_task t)) normal_task
      from_wire_task-to_wire_task

from_wire_list_tasks_response-to_wire_list_tasks_response :
    (r : ListTasksResponse)
    → from_wire_list_tasks_response (object (to_wire_list_tasks_response r))
      ≡ parsed (record r { tasks = map normal_task r.tasks })
unfolding from_wire_list_tasks_response to_wire_list_tasks_response find
from_wire_list_tasks_response-to_wire_list_tasks_response r = simp (reading, tasks_trip)

from_wire_list_configs_response-to_wire_list_configs_response :
    (r : ListConfigsResponse)
    → from_wire_list_configs_response (object (to_wire_list_configs_response r)) ≡ parsed r
unfolding from_wire_list_configs_response to_wire_list_configs_response find
from_wire_list_configs_response-to_wire_list_configs_response r = simp (reading, configs_trip)

-- A request to send a message and the response to one are read back as what was written, in normal
-- form: the lists that were not there are empty ones, a file has an address, if only the empty
-- one, and a function that answered `undefined` has answered `null`.
pub send_message_roundtrip :
    (q : SendMessageRequest) (a : SendMessageResponse)
    → (from_wire_send_message_request (object (to_wire_send_message_request q))
        ≡ parsed (normal_request q))
      × (from_wire_send_message_response (object (to_wire_send_message_response a))
          ≡ parsed (normal_response a))
send_message_roundtrip q a = (
  from_wire_send_message_request-to_wire_send_message_request q,
  from_wire_send_message_response-to_wire_send_message_response a,
)

-- A request for the list of tasks and a response with the configurations of a task are read back
-- as they were written, and a response with tasks with each task in normal form.
pub lists_roundtrip :
    (q : ListTasksRequest) (a : ListTasksResponse) (configs : ListConfigsResponse)
    → (from_wire_list_tasks_request (object (to_wire_list_tasks_request q)) ≡ parsed q)
      × (from_wire_list_tasks_response (object (to_wire_list_tasks_response a))
          ≡ parsed (record a { tasks = map normal_task a.tasks }))
      × (from_wire_list_configs_response (object (to_wire_list_configs_response configs))
          ≡ parsed configs)
lists_roundtrip q a configs = (
  from_wire_list_tasks_request-to_wire_list_tasks_request q,
  from_wire_list_tasks_response-to_wire_list_tasks_response a,
  from_wire_list_configs_response-to_wire_list_configs_response configs,
)
