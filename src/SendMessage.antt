-- ===== src/SendMessage.antt =====
-- The call that gives a message to the agent: _v1RunSendMessage of src/adapters/http/a2a-server.ts.
-- `onTask` is an argument, and so are new ids and the time. The background of a call with a callback
-- is run to its end; `reports` are the posts to the callback. Spans and logs are left out.
pub mod Due
pub mod Replies
mod Tests
use jabr.Base.{
  ◌≡◌, refl, String, Bool, true, false, not, Option, none, some, List, [], ◌∷◌, ◌++◌, if◌then◌else◌,
  str_eq, truthy, get_or, map_option, filter, includes, concat,
}
use jabr.World.{Result, ok, err}
use jabr.Wire.{Fields}
use jabr.Wire.Parts.{Part, text}
use jabr.Wire.Messages.{Message, agent}
use jabr.Wire.Tasks.{Task, TaskState, submitted, completed, failed}
use jabr.Wire.Requests.{
  SendMessageConfiguration, SendMessageRequest, SendMessageResponse, to_wire_send_message_response,
}
use jabr.PushConfigs.{V1CoreOut, answer, refusal}

-- A post to the callback, with the result or the message of the error; its time is left out.
pub record Report : Type 0 where
  pub url : String
  pub task_id : String
  pub state : TaskState
  pub extra : String

-- `controllers` are the ids that have an abort controller.
pub record Server : Type 0 where
  pub shutting_down : Bool
  pub controllers : List String
  pub reports : List Report

-- what the call takes from its surroundings
pub record Surroundings : Type 0 where
  pub on_task : String → Result String
  pub new_task_id : String
  pub new_message_id : String
  pub now : String

abbrev pub text_line : Part → String
text_line (text t) = concat t "\n"
text_line _ = ""

unfoldable pub extract_text : List Part → String
extract_text [] = ""
extract_text (part ∷ rest) = concat (text_line part) (extract_text rest)

abbrev pub v1_agent_message : String → String → String → String → Message
v1_agent_message message_id context_id task_id t = record {
  role = agent;
  message_id = message_id;
  context_id = some context_id;
  task_id = some task_id;
  parts = text t ∷ [];
  metadata = none;
  extensions = none;
  reference_task_ids = none;
}

abbrev pub config_url : Option SendMessageConfiguration → Option String
config_url none = none
config_url (some c) = map_option (λ p. p.url) c.task_push_notification_config

-- `notificationUrl ?? sendMessageConfiguration?.taskPushNotificationConfig?.url`
abbrev pub callback_url : SendMessageRequest → Option String
callback_url q = elim q.notification_url [
  | none ↦ config_url q.send_message_configuration
  | some url ↦ some url
]

abbrev pub task_id_of : Surroundings → SendMessageRequest → String
task_id_of e q = get_or q.message.task_id e.new_task_id

abbrev pub context_id_of : Surroundings → SendMessageRequest → String
context_id_of e q = get_or q.message.context_id (task_id_of e q)

-- `controllers.set(id, …)`
abbrev pub with_controller : String → Server → Server
with_controller id s = record s {
  controllers = if includes s.controllers id then s.controllers else id ∷ s.controllers;
}

-- `controllers.delete(id)`
abbrev pub without_controller : String → Server → Server
without_controller id s = record s {
  controllers = filter (λ other. not (str_eq other id)) s.controllers;
}

abbrev pub report_of : String → String → Result String → Report
report_of url task_id (ok result) = record {
  url = url;
  task_id = task_id;
  state = completed;
  extra = result;
}
report_of url task_id (err e) = record { url = url; task_id = task_id; state = failed; extra = e }

abbrev pub submitted_task : Surroundings → SendMessageRequest → Task
submitted_task e q = record {
  task_id = task_id_of e q;
  context_id = some (context_id_of e q);
  status = record { state = submitted; message = none; timestamp = none };
  history = none;
  artifacts = none;
  metadata = none;
}

-- The reply comes at once, the outcome goes to the callback.
unfoldable pub push_mode :
    Surroundings → SendMessageRequest → String → Server → V1CoreOut Fields × Server
push_mode e q url s =
    let id = task_id_of e q in
    let accepted : Report = record {
      url = url;
      task_id = id;
      state = submitted;
      extra = "Task accepted for execution";
    } in
    let outcome = report_of url id (e.on_task (extract_text q.message.parts)) in
    let done = without_controller id (with_controller id s) in
    (
      answer (
          to_wire_send_message_response
            (record { task = some (submitted_task e q); message = none })),
      record done { reports = s.reports ++ accepted ∷ outcome ∷ [] },
    )

abbrev pub agent_message : Surroundings → SendMessageRequest → String → Message
agent_message e q result =
    v1_agent_message e.new_message_id (context_id_of e q) (task_id_of e q) result

abbrev pub completed_task : Surroundings → SendMessageRequest → String → Task
completed_task e q result = record {
  task_id = task_id_of e q;
  context_id = some (context_id_of e q);
  status = record {
    state = completed;
    message = some (agent_message e q result);
    timestamp = some e.now;
  };
  history = some (q.message ∷ agent_message e q result ∷ []);
  artifacts = none;
  metadata = none;
}

-- The controller of a task that throws is not deleted.
abbrev pub after_task :
    Surroundings → SendMessageRequest → Server → Result String → V1CoreOut Fields × Server
after_task e q s (ok result) = (
  answer (
      to_wire_send_message_response (record {
        task = some (completed_task e q result);
        message = some (agent_message e q result);
      })),
  without_controller (task_id_of e q) s,
)
after_task e q s (err message) = (refusal 32603 (concat "Task execution failed: " message) none, s)

unfoldable pub sync_mode : Surroundings → SendMessageRequest → Server → V1CoreOut Fields × Server
sync_mode e q s =
    if s.shutting_down
    then (refusal 32603 "Server is shutting down" (some 503), s)
    else after_task e q (with_controller (task_id_of e q) s)
        (e.on_task (extract_text q.message.parts))

unfoldable pub run_send_message :
    Surroundings → SendMessageRequest → Server → V1CoreOut Fields × Server
run_send_message e q s = elim (truthy (callback_url q)) [
  | some url ↦ push_mode e q url s
  | none ↦ sync_mode e q s
]
