-- ===== src/Wire/Parts.antt =====
-- The parts of a message: Part of src/types/a2a-v1.ts, with parsePart and serializePart of
-- src/adapters/a2a/serialize.ts.
use jabr.Base.{String, Option, none, some, if◌then◌else◌, get_or, map_option, str_eq}
use jabr.Wire.{
  Value, null, string, object, Fields, end, field, find, put, property, as_string, as_object,
  get_key_string, get_key_object, or_value, plain_object, Parsed, parsed, thrown, unknown_part,
  ◌>>=◌,
}

pub record File : Type 0 where
  pub name : String
  pub mime_type : String
  pub bytes : Option String
  pub uri : Option String

pub record FunctionCall : Type 0 where
  pub id : String
  pub name : String
  pub args : Fields

pub record FunctionResponse : Type 0 where
  pub id : String
  pub name : String
  pub response : Value

pub data Part : Type 0 where
  text : String → Part
  file : File → Part
  raw : String → Part
  data_part : Value → Part
  function_call : FunctionCall → Part
  function_response : FunctionResponse → Part

-- the object of a file part, from the fields that hold it
unfoldable pub parse_file : Fields → File
parse_file fields = record {
  name = get_or (get_key_string fields "name" "filename") "";
  mime_type = get_or (get_key_string fields "mimeType" "media_type") "application/octet-stream";
  bytes = get_key_string fields "bytes" "bytes";
  uri = get_key_string fields "uri" "url";
}

unfoldable pub parse_function_call : Fields → FunctionCall
parse_function_call fields = record {
  id = get_or (get_key_string fields "id" "id") "";
  name = get_or (get_key_string fields "name" "name") "";
  args = get_or (get_key_object fields "args" "args") end;
}

unfoldable pub parse_function_response : Fields → FunctionResponse
parse_function_response fields = record {
  id = get_or (get_key_string fields "id" "id") "";
  name = get_or (get_key_string fields "name" "name") "";
  response = or_value (property "response" fields) null;
}

-- `switch (kind)`, where no field of the oneof is there
unfoldable pub parse_legacy : Fields → Value → Parsed Part
parse_legacy fields (string kind) =
    if str_eq kind "text"
    then parsed (text (get_or (get_key_string fields "text" "text") ""))
    else if str_eq kind "file"
    then parsed (file (parse_file (get_or (get_key_object fields "file" "file") fields)))
    else if str_eq kind "raw"
    then parsed (raw (get_or (get_key_string fields "raw" "raw") ""))
    else if str_eq kind "data"
    then parsed (data_part (or_value (property "data" fields) null))
    else if str_eq kind "functionCall"
    then parsed (
        function_call
          (parse_function_call (get_or (get_key_object fields "functionCall" "function_call") end)))
    else if str_eq kind "functionResponse"
    then parsed (
        function_response (
          parse_function_response
            (get_or (get_key_object fields "functionResponse" "function_response") end)))
    else thrown (unknown_part fields)
parse_legacy fields _ = thrown (unknown_part fields)

-- The fields of the oneof, in the order in which the source looks for them.
unfoldable pub parse_fields : Fields → Parsed Part
parse_fields fields = elim (as_string (property "text" fields)) [
  | some t ↦ parsed (text t)
  | none ↦ elim (as_string (property "raw" fields)) [
    | some bytes ↦ parsed (raw bytes)
    | none ↦ elim (as_string (property "url" fields)) [
      | some url ↦ parsed (file (parse_file fields))
      | none ↦ elim (find "data" fields) [
        | some value ↦ parsed (data_part value)
        | none ↦ elim (as_object (property "functionCall" fields)) [
          | some call ↦ parsed (function_call (parse_function_call call))
          | none ↦ elim (as_object (property "functionResponse" fields)) [
            | some answer ↦ parsed (function_response (parse_function_response answer))
            | none ↦
                parse_legacy fields (or_value (property "kind" fields) (property "type" fields))
          ]
        ]
      ]
    ]
  ]
]

unfoldable pub parse_part : Value → Parsed Part
parse_part value = plain_object "Part" value >>= parse_fields

unfoldable pub serialize_part : Part → Value
serialize_part (text t) = object (field "text" (string t) end)
serialize_part (file f) =
    let out =
      field "url" (string (get_or f.uri ""))
        (field "filename" (string f.name) (field "media_type" (string f.mime_type) end)) in
    object (put "bytes" (map_option string f.bytes) out)
serialize_part (raw bytes) = object (field "raw" (string bytes) end)
serialize_part (data_part value) = object (field "data" value end)
serialize_part (function_call call) = object (
    field "functionCall"
      (object (
        field "id" (string call.id)
          (field "name" (string call.name) (field "args" (object call.args) end))))
      end)
serialize_part (function_response answer) = object (
    field "functionResponse"
      (object (
        field "id" (string answer.id)
          (field "name" (string answer.name) (field "response" answer.response end))))
      end)
