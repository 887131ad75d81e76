-- ===== src/SendMessage/Tests.antt =====
-- A call that the theorem is applied to.
use jabr.Base.{◌≡◌, refl, String, false, none, some, Option, [], ◌∷◌, truthy}
use jabr.World.{Result, err}
use jabr.Wire.Parts.{text}
use jabr.Wire.Messages.{Message, user}
use jabr.Wire.Requests.{SendMessageRequest}
use jabr.SendMessage.{Server, Surroundings, run_send_message, sync_mode}

abbrev greeting : Message
greeting = record {
  role = user;
  message_id = "m1";
  context_id = none;
  task_id = some "t1";
  parts = text "hello" ∷ [];
  metadata = none;
  extensions = none;
  reference_task_ids = none;
}

abbrev request : Option String → SendMessageRequest
request url = record {
  message = greeting;
  notification_url = url;
  send_message_configuration = none;
  metadata = none;
}

abbrev surroundings : Result String → Surroundings
surroundings result = record {
  on_task = λ t. result;
  new_task_id = "t2";
  new_message_id = "m2";
  now = "2026-01-01T00:00:00.000Z";
}

abbrev idle : Server
idle = record { shutting_down = false; controllers = []; reports = [] }

-- A task that throws leaves its abort controller in the table.
controller_test :
    (run_send_message (surroundings (err "Error: no")) (request none) idle).1.controllers
    ≡ "t1" ∷ []
unfolding run_send_message sync_mode truthy
controller_test = refl
