-- ===== src/Wire/Roundtrip/Messages.antt =====
-- Messages
use jabr.Base.{◌≡◌, refl, some, map, get_or}
use jabr.Wire.{string, object, nil, find, parsed}
use jabr.Wire.Reading.{reading}
use jabr.Wire.Messages.{
  Message, Role, user, agent, role_of, role_text, from_wire_message, to_wire_message,
}
use jabr.Wire.Roundtrip.{normal_part, parse_parts-collect}

unfoldable pub normal_message : Message → Message
normal_message m = record m {
  parts = map normal_part m.parts;
  extensions = some (get_or m.extensions nil);
  reference_task_ids = some (get_or m.reference_task_ids nil);
}

role_trip : (r : Role) → role_of (string (role_text r)) ≡ r
unfolding role_of
role_trip user = refl
role_trip agent = refl

pub from_wire_message-to_wire_message :
    (m : Message) → from_wire_message (object (to_wire_message m)) ≡ parsed (normal_message m)
unfolding from_wire_message to_wire_message normal_message find
from_wire_message-to_wire_message m = simp (reading, role_trip, parse_parts-collect)
