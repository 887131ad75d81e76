-- ===== src/Wire/Messages.antt =====
-- Messages: their type in src/types/a2a-v1.ts, and
-- their parsers and serializers in src/adapters/a2a/serialize.ts.
use jabr.Base.{String, Option, some, List, if◌then◌else◌, ◌||◌, get_or, map_option, str_eq}
use jabr.Wire.{
  Value, string, array, object, Items, Fields, end, field, put, get_key, get_key_string,
  get_key_object, get_key_array, filled, map_items, collect, plain_object, Parsed, parsed, ◌>>=◌,
}
use jabr.Wire.Parts.{Part, parse_part, serialize_part}

pub data Role : Type 0 where
  user agent : Role

pub record Message : Type 0 where
  pub role : Role
  pub message_id : String
  pub context_id : Option String
  pub task_id : Option String
  pub parts : List Part
  pub metadata : Option Fields
  pub extensions : Option Items
  pub reference_task_ids : Option Items

abbrev pub role_text : Role → String
role_text user = "user"
role_text agent = "agent"

-- `roleVal === "agent" || roleVal === "ROLE_AGENT"`
unfoldable pub role_of : Value → Role
role_of (string t) = if str_eq t "agent" || str_eq t "ROLE_AGENT" then agent else user
role_of _ = user

unfoldable pub from_wire_message : Value → Parsed Message
from_wire_message value = do
  raw ← plain_object "Message" value
  parts ← map_items parse_part (get_key_array raw "parts" "parts")
  parsed (record {
    role = role_of (get_key raw "role" "role");
    message_id = get_or (get_key_string raw "messageId" "message_id") "";
    context_id = get_key_string raw "contextId" "context_id";
    task_id = get_key_string raw "taskId" "task_id";
    parts = parts;
    metadata = get_key_object raw "metadata" "metadata";
    extensions = some (get_key_array raw "extensions" "extensions");
    reference_task_ids = some (get_key_array raw "referenceTaskIds" "reference_task_ids");
  })

unfoldable pub to_wire_message : Message → Fields
to_wire_message msg =
    let out = field "role" (string (role_text msg.role)) (
      field "messageId" (string msg.message_id)
        (field "parts" (array (collect serialize_part msg.parts)) end)) in
    let out = put "contextId" (map_option string msg.context_id) out in
    let out = put "taskId" (map_option string msg.task_id) out in
    let out = put "metadata" (map_option object msg.metadata) out in
    let out = put "extensions" (filled msg.extensions) out in
    put "referenceTaskIds" (filled msg.reference_task_ids) out
