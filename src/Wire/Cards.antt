-- ===== src/Wire/Cards.antt =====
-- Agent cards and what they consist of: their types in src/types/a2a-v1.ts, and their parsers and
-- serializers in src/adapters/a2a/serialize.ts.
use jabr.Base.{Bool, false, String, Option, none, some, List, [], get_or, map_option, Map}
use jabr.Wire.{
  Value, boolean, string, array, object, Items, Fields, end, field, put, get_key, get_key_string,
  get_key_boolean, get_key_object, get_key_array, as_object, filled, filled_list, map_items,
  collect, plain_object, Parsed, parsed, ◌>>=◌, parse_optional, nested,
}
use jabr.Wire.Entries.{read_entries, write_entries}
use jabr.Wire.Security.{
  SecurityRequirement, parse_security_requirement, serialize_security_requirement, SecurityScheme,
  parse_security_scheme, serialize_security_scheme,
}

pub record AgentInterface : Type 0 where
  pub url : String
  pub protocol_binding : String
  pub protocol_version : String
  pub tenant : Option String

pub record AgentProvider : Type 0 where
  pub url : String
  pub organization : String

pub record AgentExtension : Type 0 where
  pub uri : String
  pub description : String
  pub required : Bool
  pub params : Option Fields

pub record AgentCapabilities : Type 0 where
  pub streaming : Option Bool
  pub push_notifications : Option Bool
  pub extensions : Option (List AgentExtension)
  pub extended_agent_card : Option Bool

pub record AgentSkill : Type 0 where
  pub id : String
  pub name : Option String
  pub description : Option String
  pub tags : Option Items
  pub examples : Option Items
  pub input_modes : Option Items
  pub output_modes : Option Items
  pub security_requirements : Option (List SecurityRequirement)

pub record AgentCardSignature : Type 0 where
  pub protected : String
  pub signature : String
  pub header : Option Fields

pub record AgentCard : Type 0 where
  pub name : String
  pub description : Option String
  pub url : String
  pub version : String
  pub supported_interfaces : List AgentInterface
  pub provider : Option AgentProvider
  pub documentation_url : Option String
  pub capabilities : Option AgentCapabilities
  pub security_schemes : Option (Map SecurityScheme)
  pub security_requirements : Option (List SecurityRequirement)
  pub default_input_modes : Items
  pub default_output_modes : Option Items
  pub skills : Option (List AgentSkill)
  pub signatures : Option (List AgentCardSignature)
  pub icon_url : Option String

unfoldable pub parse_agent_interface : Value → Parsed AgentInterface
parse_agent_interface value = do
  raw ← plain_object "AgentInterface" value
  parsed (record {
    url = get_or (get_key_string raw "url" "url") "";
    protocol_binding = get_or (get_key_string raw "protocolBinding" "protocol_binding") "";
    protocol_version = get_or (get_key_string raw "protocolVersion" "protocol_version") "";
    tenant = get_key_string raw "tenant" "tenant";
  })

unfoldable pub serialize_agent_interface : AgentInterface → Fields
serialize_agent_interface iface =
    let out = field "url" (string iface.url) (
      field "protocolBinding" (string iface.protocol_binding)
        (field "protocolVersion" (string iface.protocol_version) end)) in
    put "tenant" (map_option string iface.tenant) out

unfoldable pub provider_of : Fields → AgentProvider
provider_of raw = record {
  url = get_or (get_key_string raw "url" "url") "";
  organization = get_or (get_key_string raw "organization" "organization") "";
}

unfoldable pub parse_agent_provider : Value → Option AgentProvider
parse_agent_provider value = map_option provider_of (as_object value)

unfoldable pub serialize_agent_provider : AgentProvider → Fields
serialize_agent_provider provider =
    field "url" (string provider.url) (field "organization" (string provider.organization) end)

unfoldable pub parse_agent_extension : Value → Parsed AgentExtension
parse_agent_extension value = do
  raw ← plain_object "AgentExtension" value
  parsed (record {
    uri = get_or (get_key_string raw "uri" "uri") "";
    description = get_or (get_key_string raw "description" "description") "";
    required = get_or (get_key_boolean raw "required" "required") false;
    params = get_key_object raw "params" "params";
  })

unfoldable pub serialize_agent_extension : AgentExtension → Fields
serialize_agent_extension ext =
    let out = field "uri" (string ext.uri) (
      field "description" (string ext.description) (field "required" (boolean ext.required) end)) in
    put "params" (map_option object ext.params) out

unfoldable pub capabilities_of : Fields → Parsed AgentCapabilities
capabilities_of raw = do
  extensions ← map_items parse_agent_extension (get_key_array raw "extensions" "extensions")
  parsed (record {
    streaming = get_key_boolean raw "streaming" "streaming";
    push_notifications = get_key_boolean raw "pushNotifications" "push_notifications";
    extensions = some extensions;
    extended_agent_card = get_key_boolean raw "extendedAgentCard" "extended_agent_card";
  })

-- A value that is no object is no capabilities.
unfoldable pub parse_agent_capabilities : Value → Parsed (Option AgentCapabilities)
parse_agent_capabilities (object raw) = do
  capabilities ← capabilities_of raw
  parsed (some capabilities)
parse_agent_capabilities _ = parsed none

unfoldable pub serialize_agent_capabilities : AgentCapabilities → Fields
serialize_agent_capabilities caps =
    let out = put "streaming" (map_option boolean caps.streaming) end in
    let out = put "pushNotifications" (map_option boolean caps.push_notifications) out in
    let out =
      put "extensions" (filled_list (λ e. object (serialize_agent_extension e)) caps.extensions)
        out in
    put "extendedAgentCard" (map_option boolean caps.extended_agent_card) out

unfoldable pub parse_agent_skill : Value → Parsed AgentSkill
parse_agent_skill value = do
  raw ← plain_object "AgentSkill" value
  requirements ←
      map_items parse_security_requirement
        (get_key_array raw "securityRequirements" "security_requirements")
  parsed (record {
    id = get_or (get_key_string raw "id" "id") "";
    name = get_key_string raw "name" "name";
    description = get_key_string raw "description" "description";
    tags = some (get_key_array raw "tags" "tags");
    examples = some (get_key_array raw "examples" "examples");
    input_modes = some (get_key_array raw "inputModes" "input_modes");
    output_modes = some (get_key_array raw "outputModes" "output_modes");
    security_requirements = some requirements;
  })

unfoldable pub serialize_agent_skill : AgentSkill → Fields
serialize_agent_skill skill =
    let out = field "id" (string skill.id) end in
    let out = put "name" (map_option string skill.name) out in
    let out = put "description" (map_option string skill.description) out in
    let out = put "tags" (filled skill.tags) out in
    let out = put "examples" (filled skill.examples) out in
    let out = put "inputModes" (filled skill.input_modes) out in
    let out = put "outputModes" (filled skill.output_modes) out in
    put "securityRequirements"
      (filled_list (λ r. object (serialize_security_requirement r)) skill.security_requirements) out

unfoldable pub parse_agent_card_signature : Value → Parsed AgentCardSignature
parse_agent_card_signature value = do
  raw ← plain_object "AgentCardSignature" value
  parsed (record {
    protected = get_or (get_key_string raw "protected" "protected") "";
    signature = get_or (get_key_string raw "signature" "signature") "";
    header = get_key_object raw "header" "header";
  })

unfoldable pub serialize_agent_card_signature : AgentCardSignature → Fields
serialize_agent_card_signature sig =
    let out =
      field "protected" (string sig.protected) (field "signature" (string sig.signature) end) in
    put "header" (map_option object sig.header) out

-- the loop over the schemes, where there are any
unfoldable pub parse_security_schemes : Option Fields → Parsed (Option (Map SecurityScheme))
parse_security_schemes none = parsed none
parse_security_schemes (some schemes) = do
  result ← read_entries parse_security_scheme schemes []
  parsed (some result)

unfoldable pub from_wire_agent_card : Value → Parsed AgentCard
from_wire_agent_card value = do
  raw ← plain_object "AgentCard" value
  interfaces ←
      map_items parse_agent_interface
        (get_key_array raw "supportedInterfaces" "supported_interfaces")
  capabilities ← parse_agent_capabilities (get_key raw "capabilities" "capabilities")
  schemes ← parse_security_schemes (get_key_object raw "securitySchemes" "security_schemes")
  requirements ←
      map_items parse_security_requirement
        (get_key_array raw "securityRequirements" "security_requirements")
  skills ← map_items parse_agent_skill (get_key_array raw "skills" "skills")
  signatures ← map_items parse_agent_card_signature (get_key_array raw "signatures" "signatures")
  parsed (record {
    name = get_or (get_key_string raw "name" "name") "";
    description = get_key_string raw "description" "description";
    url = get_or (get_key_string raw "url" "url") "";
    version = get_or (get_key_string raw "version" "version") "";
    supported_interfaces = interfaces;
    provider = parse_agent_provider (get_key raw "provider" "provider");
    documentation_url = get_key_string raw "documentationUrl" "documentation_url";
    capabilities = capabilities;
    security_schemes = schemes;
    security_requirements = some requirements;
    default_input_modes = get_key_array raw "defaultInputModes" "default_input_modes";
    default_output_modes = some (get_key_array raw "defaultOutputModes" "default_output_modes");
    skills = some skills;
    signatures = some signatures;
    icon_url = get_key_string raw "iconUrl" "icon_url";
  })

-- the loop over the schemes of the card, where it has any
unfoldable pub serialize_security_schemes : Option (Map SecurityScheme) → Parsed (Option Fields)
serialize_security_schemes none = parsed none
serialize_security_schemes (some schemes) = do
  out ← write_entries serialize_security_scheme schemes end
  parsed (some out)

-- the object with all that stands before the schemes
unfoldable pub card_start : AgentCard → Fields
card_start card =
    let out = field "name" (string card.name) (
      field "url" (string card.url) (
        field "version" (string card.version) (
          field "supportedInterfaces"
            (array (collect (λ i. object (serialize_agent_interface i)) card.supported_interfaces))
            (field "defaultInputModes" (array card.default_input_modes) end)))) in
    let out = put "description" (map_option string card.description) out in
    let out = put "provider" (nested serialize_agent_provider card.provider) out in
    let out = put "documentationUrl" (map_option string card.documentation_url) out in
    put "capabilities" (nested serialize_agent_capabilities card.capabilities) out

-- what is written after the schemes
unfoldable pub card_rest : AgentCard → Fields → Fields
card_rest card out =
    let out =
      put "security_requirements"
        (filled_list (λ r. object (serialize_security_requirement r)) card.security_requirements)
        out in
    let out = put "defaultOutputModes" (filled card.default_output_modes) out in
    let out = put "skills" (filled_list (λ s. object (serialize_agent_skill s)) card.skills) out in
    let out =
      put "signatures"
        (filled_list (λ s. object (serialize_agent_card_signature s)) card.signatures) out in
    put "iconUrl" (map_option string card.icon_url) out

unfoldable pub to_wire_agent_card : AgentCard → Parsed Fields
to_wire_agent_card card = do
  schemes ← serialize_security_schemes card.security_schemes
  parsed (card_rest card (put "security_schemes" (map_option object schemes) (card_start card)))

pub record ExtendedAgentCard : Type 0 where
  pub agent_card : Option AgentCard

unfoldable pub from_wire_extended_agent_card : Value → Parsed ExtendedAgentCard
from_wire_extended_agent_card (object raw) = do
  card ← parse_optional from_wire_agent_card (get_key_object raw "agentCard" "agent_card")
  parsed (record { agent_card = card })
from_wire_extended_agent_card _ = parsed (record { agent_card = none })

unfoldable pub serialize_card : Option AgentCard → Parsed (Option Fields)
serialize_card none = parsed none
serialize_card (some card) = do out ← to_wire_agent_card card; parsed (some out)

unfoldable pub to_wire_extended_agent_card : ExtendedAgentCard → Parsed Fields
to_wire_extended_agent_card card = do
  out ← serialize_card card.agent_card
  parsed (put "agentCard" (map_option object out) end)
