-- ===== src/Wire/Roundtrip.antt =====
-- What a parser makes of what the serializer of src/adapters/a2a/serialize.ts has written: the
-- parts.
pub mod Cards
pub mod Entries
pub mod Events
pub mod Flows
pub mod Lookups
pub mod Messages
pub mod Requests
pub mod Security
pub mod Tasks
pub mod Throws
use jabr.Base.{String, Option, none, ◌≡◌, refl, some, List, map, get_or}
use jabr.Wire.{null, or_value, map_items, collect, find, set, put, parsed}
use jabr.Wire.Reading.{reading, read_string, map_items-collect}
use jabr.Wire.Parts.{
  File, Part, text, file, raw, data_part, function_call, function_response, parse_part,
  parse_fields, parse_file, parse_function_call, parse_function_response, serialize_part,
}

-- A part as it is after one trip: a file has an address, if only the empty one, and a function
-- that answered `undefined` has answered `null`.
abbrev pub normal_part : Part → Part
normal_part (file f) = file (record f { uri = some (get_or f.uri "") })
normal_part (function_response answer) =
    function_response (record answer { response = or_value answer.response null })
normal_part part = part

file_trip :
    (name mime_type : String) (bytes uri : Option String)
    → let f : File = record { name = name; mime_type = mime_type; bytes = bytes; uri = uri } in
      parse_part (serialize_part (file f)) ≡ parsed (normal_part (file f))
unfolding parse_part parse_fields parse_file serialize_part find put set
file_trip name mime_type none uri = refl
file_trip name mime_type (some bytes) uri = refl

pub parse_part-serialize_part :
    (part : Part) → parse_part (serialize_part part) ≡ parsed (normal_part part)
unfolding parse_part parse_fields parse_function_call parse_function_response serialize_part find
parse_part-serialize_part (text t) = refl
parse_part-serialize_part (file f) = file_trip f.name f.mime_type f.bytes f.uri
parse_part-serialize_part (raw bytes) = refl
parse_part-serialize_part (data_part value) = refl
parse_part-serialize_part (function_call call) = refl
parse_part-serialize_part (function_response answer) = refl

pub parse_parts-collect :
    (parts : List Part)
    → map_items parse_part (collect serialize_part parts) ≡ parsed (map normal_part parts)
parse_parts-collect parts =
    map_items-collect parse_part serialize_part normal_part parse_part-serialize_part parts
