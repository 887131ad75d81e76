-- ===== src/Wire/Security.antt =====
-- Security requirements and schemes: their types in src/types/a2a-v1.ts, and their parsers and
-- serializers in src/adapters/a2a/serialize.ts. The flows of an OAuth 2 scheme may be `undefined`
-- at run time, since the parser says `!` of them.
use jabr.Base.{String, Option, none, some, [], get_or, map_option, if◌then◌else◌, Map}
use jabr.Wire.{
  Value, undefined, string, array, object, Items, Fields, end, field, property, has_key, either_key,
  get_key, get_key_string, get_key_object, plain_object, Parsed, parsed, thrown, type_error, ◌>>=◌,
}
use jabr.Wire.Entries.{read_entries, write_all}
use jabr.Wire.Flows.{OauthFlows, parse_oauth_flows, serialize_oauth_flows}

pub record SecurityRequirement : Type 0 where
  pub schemes : Map Items

-- `isPlainObject(v) && Array.isArray(v.list)`, else `Array.isArray(v)`, else skipped
abbrev pub array_of : Value → Option Items
array_of (array items) = some items
array_of _ = none

unfoldable pub requirement_list : Value → Option Items
requirement_list (object fields) = array_of (property "list" fields)
requirement_list value = array_of value

unfoldable pub parse_security_requirement : Value → Parsed SecurityRequirement
parse_security_requirement value = do
  raw ← plain_object "SecurityRequirement" value
  schemes ←
      read_entries (λ v. parsed (requirement_list v))
        (get_or (get_key_object raw "schemes" "schemes") end) []
  parsed (record { schemes = schemes })

unfoldable pub listed : Items → Value
listed items = object (field "list" (array items) end)

unfoldable pub serialize_security_requirement : SecurityRequirement → Fields
serialize_security_requirement req = field "schemes" (object (write_all listed req.schemes end)) end

pub record ApiKeySecurityScheme : Type 0 where
  pub description : Option String
  pub location : String
  pub name : String

pub record HttpAuthSecurityScheme : Type 0 where
  pub description : Option String
  pub scheme : String
  pub bearer_format : Option String

pub record Oauth2SecurityScheme : Type 0 where
  pub description : Option String
  pub flows : Option OauthFlows
  pub oauth2_metadata_url : Option String

pub record OpenIdConnectSecurityScheme : Type 0 where
  pub description : Option String
  pub open_id_connect_url : String

pub record MutualTlsSecurityScheme : Type 0 where
  pub description : Option String

pub data SecurityScheme : Type 0 where
  api_key : ApiKeySecurityScheme → SecurityScheme
  http : HttpAuthSecurityScheme → SecurityScheme
  oauth2 : Oauth2SecurityScheme → SecurityScheme
  open_id_connect : OpenIdConnectSecurityScheme → SecurityScheme
  mutual_tls : MutualTlsSecurityScheme → SecurityScheme

-- a value on which `in` is used: an array has none of the keys, what is no object throws
abbrev pub keyed : Value → Parsed Fields
keyed (object fields) = parsed fields
keyed (array items) = parsed end
keyed _ = thrown type_error

unfoldable pub parse_api_key : Value → Parsed (Option SecurityScheme)
parse_api_key value = do
  s ← keyed value
  parsed (
      some (
        api_key (record {
          description = get_key_string s "description" "description";
          location = get_or (get_key_string s "location" "location") "header";
          name = get_or (get_key_string s "name" "name") "";
        })))

unfoldable pub parse_http : Value → Parsed (Option SecurityScheme)
parse_http value = do
  s ← keyed value
  parsed (
      some (
        http (record {
          description = get_key_string s "description" "description";
          scheme = get_or (get_key_string s "scheme" "scheme") "";
          bearer_format = get_key_string s "bearerFormat" "bearer_format";
        })))

unfoldable pub parse_oauth2 : Value → Parsed (Option SecurityScheme)
parse_oauth2 value = do
  s ← keyed value
  flows ← parse_oauth_flows (get_key s "flows" "flows")
  parsed (
      some (
        oauth2 (record {
          description = get_key_string s "description" "description";
          flows = flows;
          oauth2_metadata_url = get_key_string s "oauth2MetadataUrl" "oauth2_metadata_url";
        })))

unfoldable pub parse_open_id_connect : Value → Parsed (Option SecurityScheme)
parse_open_id_connect value = do
  s ← keyed value
  parsed (
      some (
        open_id_connect (record {
          description = get_key_string s "description" "description";
          open_id_connect_url =
              get_or (get_key_string s "openIdConnectUrl" "open_id_connect_url") "";
        })))

unfoldable pub parse_mutual_tls : Value → Parsed (Option SecurityScheme)
parse_mutual_tls value = do
  s ← keyed value
  parsed (some (mutual_tls (record { description = get_key_string s "description" "description" })))

unfoldable pub parse_scheme_fields : Fields → Parsed (Option SecurityScheme)
parse_scheme_fields raw =
    if has_key raw "apiKeySecurityScheme" "api_key_security_scheme"
    then parse_api_key (either_key raw "apiKeySecurityScheme" "api_key_security_scheme")
    else if has_key raw "httpAuthSecurityScheme" "http_auth_security_scheme"
    then parse_http (either_key raw "httpAuthSecurityScheme" "http_auth_security_scheme")
    else if has_key raw "oauth2SecurityScheme" "oauth2_security_scheme"
    then parse_oauth2 (either_key raw "oauth2SecurityScheme" "oauth2_security_scheme")
    else if has_key raw "openIdConnectSecurityScheme" "open_id_connect_security_scheme"
    then parse_open_id_connect
        (either_key raw "openIdConnectSecurityScheme" "open_id_connect_security_scheme")
    else if has_key raw "mutualTlsSecurityScheme" "mtls_security_scheme"
    then parse_mutual_tls (either_key raw "mutualTlsSecurityScheme" "mtls_security_scheme")
    else parsed none

unfoldable pub parse_security_scheme : Value → Parsed (Option SecurityScheme)
parse_security_scheme (object raw) = parse_scheme_fields raw
parse_security_scheme _ = parsed none

-- a property that an object literal names, be it `undefined`
abbrev pub text_or_undefined : Option String → Value
text_or_undefined text = get_or (map_option string text) undefined

unfoldable pub serialize_flows : Option OauthFlows → Parsed Fields
serialize_flows none = thrown type_error
serialize_flows (some flows) = parsed (serialize_oauth_flows flows)

unfoldable pub serialize_security_scheme : SecurityScheme → Parsed Value
serialize_security_scheme (api_key s) = parsed (
    object (
      field "api_key_security_scheme"
        (object (
          field "description" (text_or_undefined s.description)
            (field "location" (string s.location) (field "name" (string s.name) end))))
        end))
serialize_security_scheme (http s) = parsed (
    object (
      field "http_auth_security_scheme"
        (object (
          field "description" (text_or_undefined s.description) (
            field "scheme" (string s.scheme)
              (field "bearer_format" (text_or_undefined s.bearer_format) end))))
        end))
serialize_security_scheme (oauth2 s) = do
  flows ← serialize_flows s.flows
  parsed (
      object (
        field "oauth2_security_scheme"
          (object (
            field "description" (text_or_undefined s.description) (
              field "flows" (object flows)
                (field "oauth2_metadata_url" (text_or_undefined s.oauth2_metadata_url) end))))
          end))
serialize_security_scheme (open_id_connect s) = parsed (
    object (
      field "open_id_connect_security_scheme"
        (object (
          field "description" (text_or_undefined s.description)
            (field "open_id_connect_url" (string s.open_id_connect_url) end)))
        end))
serialize_security_scheme (mutual_tls s) = parsed (
    object (
      field "mtls_security_scheme"
        (object (field "description" (text_or_undefined s.description) end)) end))
