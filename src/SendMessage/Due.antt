-- ===== src/SendMessage/Due.antt =====
-- What the sender of a message is to read and the callback is to be told, without the server:
-- _v1RunSendMessage of src/adapters/http/a2a-server.ts.
use jabr.Base.{
  String, Bool, true, false, Option, none, some, List, [], ◌∷◌, if◌then◌else◌, str_eq, get_or,
  map_option, concat,
}
use jabr.World.{Result, ok, err}
use jabr.Wire.{Fields, object, Parsed, parsed}
use jabr.Wire.Parts.{Part, text}
use jabr.Wire.Messages.{Message, agent}
use jabr.Wire.Tasks.{Task, submitted, completed, failed}
use jabr.Wire.Requests.{
  SendMessageConfiguration, SendMessageRequest, SendMessageResponse,
  from_wire_send_message_response,
}
use jabr.Wire.Roundtrip.Messages.{normal_message}
use jabr.Wire.Roundtrip.Tasks.{normal_task}
use jabr.PushConfigs.{V1CoreOut, answer, refusal}
use jabr.SendMessage.{Report, Surroundings}

-- what the sender parses of an answer
abbrev pub read : V1CoreOut Fields → V1CoreOut (Parsed SendMessageResponse)
read (answer fields) = answer (from_wire_send_message_response (object fields))
read (refusal code message http_status) = refusal code message http_status

-- a response in normal form, where lists that were not there are empty ones
abbrev pub accepts : Option Task → Option Message → V1CoreOut (Parsed SendMessageResponse)
accepts task message = answer (
    parsed
      (record { task = map_option normal_task task; message = map_option normal_message message }))

-- what the agent is asked: each text part with an end of line, one after the other
unfoldable pub said : List Part → String
said [] = ""
said (text t ∷ rest) = concat t (concat "\n" (said rest))
said (_ ∷ rest) = said rest

abbrev pub outcome : Surroundings → SendMessageRequest → Result String
outcome e q = e.on_task (said q.message.parts)

-- the url to tell: the one of the request, or else the one of its configuration, if it is not empty
abbrev pub unless_empty : String → Option String
unless_empty url = if str_eq url "" then none else some url

abbrev pub url_of : Option String → Option SendMessageConfiguration → Option String
url_of (some url) c = unless_empty url
url_of none none = none
url_of none (some c) = elim c.task_push_notification_config [
  | none ↦ none
  | some p ↦ unless_empty p.url
]

abbrev pub callback : SendMessageRequest → Option String
callback q = url_of q.notification_url q.send_message_configuration

-- the ids: those of the message, or else a new one, which is that of the context too
abbrev pub own_task_id : Surroundings → SendMessageRequest → String
own_task_id e q = get_or q.message.task_id e.new_task_id

abbrev pub own_context_id : Surroundings → SendMessageRequest → String
own_context_id e q = get_or q.message.context_id (get_or q.message.task_id e.new_task_id)

-- the agent's message, and the tasks
abbrev pub said_back : Surroundings → SendMessageRequest → String → Message
said_back e q result = record {
  role = agent;
  message_id = e.new_message_id;
  context_id = some (own_context_id e q);
  task_id = some (own_task_id e q);
  parts = text result ∷ [];
  metadata = none;
  extensions = none;
  reference_task_ids = none;
}

abbrev pub done_task : Surroundings → SendMessageRequest → String → Task
done_task e q result = record {
  task_id = own_task_id e q;
  context_id = some (own_context_id e q);
  status = record {
    state = completed;
    message = some (said_back e q result);
    timestamp = some e.now;
  };
  history = some (q.message ∷ said_back e q result ∷ []);
  artifacts = none;
  metadata = none;
}

abbrev pub taken_task : Surroundings → SendMessageRequest → Task
taken_task e q = record {
  task_id = own_task_id e q;
  context_id = some (own_context_id e q);
  status = record { state = submitted; message = none; timestamp = none };
  history = none;
  artifacts = none;
  metadata = none;
}

-- The reply that is due, as a response and not as an object.
abbrev pub finished :
    Surroundings → SendMessageRequest → Result String → V1CoreOut (Parsed SendMessageResponse)
finished e q (ok result) = accepts (some (done_task e q result)) (some (said_back e q result))
finished e q (err message) = refusal 32603 (concat "Task execution failed: " message) none

abbrev pub due :
    Surroundings
    → SendMessageRequest
    → Bool
    → Option String
    → V1CoreOut (Parsed SendMessageResponse)
due e q shutting_down (some url) = accepts (some (taken_task e q)) none
due e q true none = refusal 32603 "Server is shutting down" (some 503)
due e q false none = finished e q (outcome e q)

-- the posts that are due
abbrev pub ended : Surroundings → SendMessageRequest → String → Result String → Report
ended e q url (ok result) = record {
  url = url;
  task_id = own_task_id e q;
  state = completed;
  extra = result;
}
ended e q url (err message) = record {
  url = url;
  task_id = own_task_id e q;
  state = failed;
  extra = message;
}

abbrev pub told : Surroundings → SendMessageRequest → Option String → List Report
told e q none = []
told e q (some url) =
    record {
      url = url;
      task_id = own_task_id e q;
      state = submitted;
      extra = "Task accepted for execution";
    }
    ∷ ended e q url (outcome e q)
    ∷ []
