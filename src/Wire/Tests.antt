-- ===== src/Wire/Tests.antt =====
-- Values of the wire format that the theorems are applied to.
use jabr.Base.{◌≡◌, refl, true, false, Option, some, none, [], ◌∷◌, map, values}
use jabr.Wire.{
  pos, negsuc, undefined, number, string, array, object, nil, cons, Fields, end, field, find, put,
  set, parsed, type_error,
}
use jabr.Wire.Parts.{
  text, file, function_response, parse_part, parse_fields, parse_file, serialize_part,
}
use jabr.Wire.Messages.{Message, agent, from_wire_message}
use jabr.Wire.Tasks.{Task, working, input_required}
use jabr.Wire.Push.{
  ListConfigsRequest, ListConfigsResponse, ConfigRequest, from_wire_list_configs_response,
  to_wire_list_configs_response,
}
use jabr.Wire.Events.{task, to_wire_stream_response, from_wire_stream_response}
use jabr.Wire.Security.{oauth2, api_key}
use jabr.Wire.Flows.{OauthFlows}
use jabr.Wire.Cards.{
  AgentCard, to_wire_agent_card, from_wire_agent_card, to_wire_extended_agent_card,
  from_wire_extended_agent_card,
}
use jabr.Wire.Requests.{
  from_wire_list_tasks_request, to_wire_list_tasks_request, from_wire_list_tasks_response,
  to_wire_list_tasks_response, GetTaskRequest, CancelTaskRequest, SubscribeToTaskRequest,
  GetExtendedAgentCardRequest,
}
use jabr.Wire.Requests.{
  SendMessageRequest, SendMessageResponse, ListTasksRequest, ListTasksResponse,
  from_wire_send_message_request, to_wire_send_message_request, from_wire_send_message_response,
  to_wire_send_message_response,
}
use jabr.Wire.Lenient.{from_wire_message-respell, respell, message_keys}
use jabr.Wire.Roundtrip.Tasks.{normal_task}
use jabr.Wire.Roundtrip.Events.{normal_stream, from_wire_stream_response-to_wire_stream_response}
use jabr.Wire.Roundtrip.Requests.{
  normal_request, normal_response, send_message_roundtrip, lists_roundtrip,
}
use jabr.Wire.Roundtrip.Cards.{normal_card, from_wire_agent_card-to_wire_agent_card}
use jabr.Wire.Roundtrip.Throws.{error_of, error_of-to_wire_agent_card}

abbrev report : Message
report = record {
  role = agent;
  message_id = "m1";
  context_id = none;
  task_id = some "t1";
  parts =
      text "done"
      ∷ file (record { name = "a.txt"; mime_type = "text/plain"; bytes = some "QQ=="; uri = none })
      ∷ function_response (record { id = "f"; name = "sum"; response = undefined })
      ∷ [];
  metadata = some (field "cost" (number (negsuc 2)) end);
  extensions = none;
  reference_task_ids = some (cons (string "t0") nil);
}

abbrev done : Task
done = record {
  task_id = "t1";
  context_id = some "c1";
  status = record { state = input_required; message = some report; timestamp = none };
  history = some (report ∷ []);
  artifacts = none;
  metadata = none;
}

from_wire_stream_response-to_wire_stream_response_example :
    from_wire_stream_response (object (to_wire_stream_response (task done)))
    ≡ parsed (normal_stream (task done))
from_wire_stream_response-to_wire_stream_response_example =
    from_wire_stream_response-to_wire_stream_response (task done)

abbrev asked : SendMessageRequest
asked = record {
  message = report;
  notification_url = some "http://callback";
  send_message_configuration = some (record {
    accepted_output_modes = none;
    task_push_notification_config = none;
    history_length = some (pos 3);
    return_immediately = some false;
  });
  metadata = none;
}

abbrev answered : SendMessageResponse
answered = record { task = some done; message = none }

send_message_roundtrip_example :
    (from_wire_send_message_request (object (to_wire_send_message_request asked))
      ≡ parsed (normal_request asked))
    × (from_wire_send_message_response (object (to_wire_send_message_response answered))
        ≡ parsed (normal_response answered))
send_message_roundtrip_example = send_message_roundtrip asked answered

abbrev listing : ListTasksRequest
listing = record {
  context_id = some "c1";
  status = some working;
  page_size = some (pos 10);
  page_token = none;
  history_length = none;
  status_timestamp_after = none;
  include_artifacts = some true;
}

abbrev page : ListTasksResponse
page = record { tasks = done ∷ []; next_page_token = none; page_size = pos 10; total_size = pos 1 }

abbrev configs : ListConfigsResponse
configs = record { configs = []; next_page_token = some "2" }

lists_roundtrip_example :
    (from_wire_list_tasks_request (object (to_wire_list_tasks_request listing)) ≡ parsed listing)
    × (from_wire_list_tasks_response (object (to_wire_list_tasks_response page))
        ≡ parsed (record page { tasks = map normal_task page.tasks }))
    × (from_wire_list_configs_response (object (to_wire_list_configs_response configs))
        ≡ parsed configs)
lists_roundtrip_example = lists_roundtrip listing page configs

abbrev get : GetTaskRequest
get = record { id = "t1"; history_length = some (pos 1) }

abbrev cancel : CancelTaskRequest
cancel = record { id = "t1"; metadata = none }

abbrev follow : SubscribeToTaskRequest
follow = record { id = "t1" }

abbrev card_request : GetExtendedAgentCardRequest
card_request = record { tenant = some "a" }

abbrev config_request : ConfigRequest
config_request = record { task_id = "t1"; id = "p1" }

abbrev configs_request : ListConfigsRequest
configs_request = record { task_id = "t1"; page_size = none; page_token = some "2" }

abbrev client_flow : OauthFlows
client_flow = record {
  authorization_code = none;
  client_credentials =
      some (record { token_url = "http://token"; refresh_url = none; scopes = end });
  implicit = none;
  password = none;
  device_code = none;
}

abbrev card_with : Option OauthFlows → AgentCard
card_with flows = record {
  name = "jabr";
  description = none;
  url = "http://jabr";
  version = "1.0";
  supported_interfaces = [];
  provider = none;
  documentation_url = none;
  capabilities = none;
  security_schemes = some (
      ("key", api_key (record { description = none; location = "header"; name = "X-API-Key" }))
      ∷ (
        "oauth",
        oauth2 (record { description = some "tokens"; flows = flows; oauth2_metadata_url = none }),
      )
      ∷ []);
  security_requirements = some (record { schemes = ("key", nil) ∷ [] } ∷ []);
  default_input_modes = cons (string "text") nil;
  default_output_modes = none;
  skills = some (
      record {
        id = "plan";
        name = none;
        description = none;
        tags = none;
        examples = none;
        input_modes = none;
        output_modes = none;
        security_requirements = none;
      }
      ∷ []);
  signatures = none;
  icon_url = none;
}

from_wire_agent_card-to_wire_agent_card_example :
    (w : Fields) × (to_wire_agent_card (card_with (some client_flow)) ≡ parsed w)
    × (from_wire_agent_card (object w) ≡ parsed (normal_card (card_with (some client_flow))))
    × (x : Fields) × (to_wire_extended_agent_card
          (record { agent_card = some (card_with (some client_flow)) })
        ≡ parsed x)
    × (from_wire_extended_agent_card (object x)
        ≡ parsed (record { agent_card = some (normal_card (card_with (some client_flow))) }))
unfolding values
from_wire_agent_card-to_wire_agent_card_example =
    from_wire_agent_card-to_wire_agent_card (card_with (some client_flow))
      (((refl, tt), (tt, tt)), ((tt, tt), tt), (tt, tt)) (refl, (refl, tt))

error_of-to_wire_agent_card_example :
    error_of (to_wire_agent_card (card_with none)) ≡ some type_error
unfolding values
error_of-to_wire_agent_card_example = error_of-to_wire_agent_card (card_with none)

abbrev camel_fields : Fields
camel_fields = field "messageId" (string "m1") (
    field "taskId" (string "t1")
      (field "parts" (array (cons (object (field "text" (string "hi") end)) nil)) end))

from_wire_message-respell_example :
    from_wire_message (object (respell message_keys camel_fields))
    ≡ from_wire_message (object camel_fields)
unfolding find
from_wire_message-respell_example = from_wire_message-respell camel_fields refl refl refl refl

-- A file that is only bytes comes back with an address, the empty text.
file_trip_test :
    parse_part (
      serialize_part
        (file (record { name = "a"; mime_type = "b"; bytes = some "QQ=="; uri = none })))
    ≡ parsed (file (record { name = "a"; mime_type = "b"; bytes = some "QQ=="; uri = some "" }))
unfolding parse_part parse_fields parse_file serialize_part find put set
file_trip_test = refl
