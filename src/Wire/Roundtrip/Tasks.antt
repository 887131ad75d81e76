-- ===== src/Wire/Roundtrip/Tasks.antt =====
-- The round trips of the status of a task, of artifacts and of tasks: src/adapters/a2a/serialize.ts.
use jabr.Base.{◌≡◌, refl, some, Option, List, [], map, get_or, map_option, lookup}
use jabr.Wire.{string, object, nil, map_items, collect, find, parse_optional, parsed}
use jabr.Wire.Reading.{reading, parse_optional-normal, map_items-collect}
use jabr.Wire.Messages.{Message, from_wire_message, to_wire_message}
use jabr.Wire.Tasks.{
  TaskState, submitted, working, input_required, auth_required, completed, failed, canceled,
  rejected, unspecified, TaskStatus, Artifact, Task, state_text, state_map, state_of,
  parse_task_status, serialize_task_status, parse_artifact, serialize_artifact, from_wire_task,
  to_wire_task,
}
use jabr.Wire.Roundtrip.{normal_part, parse_parts-collect}
use jabr.Wire.Roundtrip.Messages.{normal_message, from_wire_message-to_wire_message}

state_trip : (s : TaskState) → state_of state_map (string (state_text s)) ≡ some s
unfolding state_of state_text lookup
state_trip submitted = refl
state_trip working = refl
state_trip input_required = refl
state_trip auth_required = refl
state_trip completed = refl
state_trip failed = refl
state_trip canceled = refl
state_trip rejected = refl
state_trip unspecified = refl

pub parse_optional_message :
    (o : Option Message)
    → parse_optional from_wire_message (map_option to_wire_message o)
      ≡ parsed (map_option normal_message o)
parse_optional_message =
    parse_optional-normal from_wire_message to_wire_message normal_message
      from_wire_message-to_wire_message

unfoldable pub normal_status : TaskStatus → TaskStatus
normal_status s = record s { message = map_option normal_message s.message }

pub parse_task_status-serialize_task_status :
    (s : TaskStatus)
    → parse_task_status (object (serialize_task_status s)) ≡ parsed (normal_status s)
unfolding parse_task_status serialize_task_status normal_status find
parse_task_status-serialize_task_status s = simp (reading, state_trip, parse_optional_message)

unfoldable pub normal_artifact : Artifact → Artifact
normal_artifact a = record a {
  parts = map normal_part a.parts;
  extensions = some (get_or a.extensions nil);
}

pub parse_artifact-serialize_artifact :
    (a : Artifact) → parse_artifact (object (serialize_artifact a)) ≡ parsed (normal_artifact a)
unfolding parse_artifact serialize_artifact normal_artifact find
parse_artifact-serialize_artifact a = simp (reading, parse_parts-collect)

messages_trip :
    (list : List Message)
    → map_items from_wire_message (collect (λ m. object (to_wire_message m)) list)
      ≡ parsed (map normal_message list)
messages_trip =
    map_items-collect from_wire_message (λ m. object (to_wire_message m)) normal_message
      from_wire_message-to_wire_message

artifacts_trip :
    (list : List Artifact)
    → map_items parse_artifact (collect (λ a. object (serialize_artifact a)) list)
      ≡ parsed (map normal_artifact list)
artifacts_trip =
    map_items-collect parse_artifact (λ a. object (serialize_artifact a)) normal_artifact
      parse_artifact-serialize_artifact

unfoldable pub normal_task : Task → Task
normal_task t = record t {
  status = normal_status t.status;
  history = some (map normal_message (get_or t.history []));
  artifacts = some (map normal_artifact (get_or t.artifacts []));
}

pub from_wire_task-to_wire_task :
    (t : Task) → from_wire_task (object (to_wire_task t)) ≡ parsed (normal_task t)
unfolding from_wire_task to_wire_task normal_task find
from_wire_task-to_wire_task t =
    simp (reading, parse_task_status-serialize_task_status, messages_trip, artifacts_trip)
