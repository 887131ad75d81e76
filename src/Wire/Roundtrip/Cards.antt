-- ===== src/Wire/Roundtrip/Cards.antt =====
-- The round trips of agent cards: src/adapters/a2a/serialize.ts.
use jabr.Base.{
  ◌≡◌, refl, true, Option, some, none, List, [], ◌∷◌, Map, All, All-map, HasDistinctKeys, values,
  get_or, map_option, map,
}
use jabr.Wire.{undefined, object, nil, Fields, end, find, put, set, map_items, collect, parsed}
use jabr.Wire.Reading.{reading, map_items_back}
use jabr.Wire.Entries.{write_all}
use jabr.Wire.Security.{
  SecurityRequirement, SecurityScheme, parse_security_scheme, serialize_security_scheme,
}
use jabr.Wire.Cards.{
  AgentInterface, AgentProvider, AgentExtension, AgentCapabilities, AgentSkill, AgentCardSignature,
  AgentCard, parse_agent_interface, serialize_agent_interface, provider_of, parse_agent_provider,
  serialize_agent_provider, parse_agent_extension, serialize_agent_extension, capabilities_of,
  parse_agent_capabilities, serialize_agent_capabilities, parse_agent_skill, serialize_agent_skill,
  parse_agent_card_signature, serialize_agent_card_signature, parse_security_schemes,
  from_wire_agent_card, serialize_security_schemes, card_start, card_rest, serialize_card,
  from_wire_extended_agent_card, to_wire_extended_agent_card, to_wire_agent_card,
}
use jabr.Wire.Roundtrip.Entries.{read_entries-write_all, write_entries-write_all}
use jabr.Wire.Roundtrip.Security.{
  requirements_trip, has_flows, wire_of, serialize_security_scheme-wire_of,
  parse_security_scheme-wire_of,
}

interface_trip :
    (i : AgentInterface) → parse_agent_interface (object (serialize_agent_interface i)) ≡ parsed i
unfolding parse_agent_interface serialize_agent_interface find
interface_trip i = simp reading

interfaces_trip :
    (list : List AgentInterface)
    → map_items parse_agent_interface (collect (λ i. object (serialize_agent_interface i)) list)
      ≡ parsed list
interfaces_trip =
    map_items_back parse_agent_interface (λ i. object (serialize_agent_interface i)) interface_trip

provider_trip :
    (o : Option AgentProvider)
    → parse_agent_provider
        (get_or (map_option object (map_option serialize_agent_provider o)) undefined)
      ≡ o
unfolding parse_agent_provider provider_of serialize_agent_provider find
provider_trip none = refl
provider_trip (some p) = refl

extension_trip :
    (e : AgentExtension) → parse_agent_extension (object (serialize_agent_extension e)) ≡ parsed e
unfolding parse_agent_extension serialize_agent_extension find
extension_trip e = simp reading

extensions_trip :
    (list : List AgentExtension)
    → map_items parse_agent_extension (collect (λ e. object (serialize_agent_extension e)) list)
      ≡ parsed list
extensions_trip =
    map_items_back parse_agent_extension (λ e. object (serialize_agent_extension e)) extension_trip

unfoldable pub normal_capabilities : AgentCapabilities → AgentCapabilities
normal_capabilities c = record c { extensions = some (get_or c.extensions []) }

capabilities_trip :
    (c : AgentCapabilities)
    → capabilities_of (serialize_agent_capabilities c) ≡ parsed (normal_capabilities c)
unfolding capabilities_of serialize_agent_capabilities normal_capabilities find
capabilities_trip c = simp (reading, extensions_trip)

optional_capabilities_trip :
    (o : Option AgentCapabilities)
    → parse_agent_capabilities
        (get_or (map_option object (map_option serialize_agent_capabilities o)) undefined)
      ≡ parsed (map_option normal_capabilities o)
unfolding parse_agent_capabilities
optional_capabilities_trip none = refl
optional_capabilities_trip (some c) = rw (capabilities_trip c)

signature_trip :
    (s : AgentCardSignature)
    → parse_agent_card_signature (object (serialize_agent_card_signature s)) ≡ parsed s
unfolding parse_agent_card_signature serialize_agent_card_signature find
signature_trip s = simp reading

signatures_trip :
    (list : List AgentCardSignature)
    → map_items parse_agent_card_signature
        (collect (λ s. object (serialize_agent_card_signature s)) list)
      ≡ parsed list
signatures_trip =
    map_items_back parse_agent_card_signature (λ s. object (serialize_agent_card_signature s))
      signature_trip

-- Each requirement names each scheme once, as the keys of an object are distinct.
abbrev pub HasDistinctSchemes : Option (List SecurityRequirement) → Type 0
HasDistinctSchemes o = All (λ r. HasDistinctKeys r.schemes) (get_or o [])

unfoldable pub normal_skill : AgentSkill → AgentSkill
normal_skill s = record s {
  tags = some (get_or s.tags nil);
  examples = some (get_or s.examples nil);
  input_modes = some (get_or s.input_modes nil);
  output_modes = some (get_or s.output_modes nil);
  security_requirements = some (get_or s.security_requirements []);
}

skill_trip :
    (s : AgentSkill)
    → HasDistinctSchemes s.security_requirements
    → parse_agent_skill (object (serialize_agent_skill s)) ≡ parsed (normal_skill s)
unfolding parse_agent_skill serialize_agent_skill normal_skill find
skill_trip s h = simp (reading, requirements_trip (get_or s.security_requirements []) h)

skills_trip :
    (list : List AgentSkill)
    → All (λ s. HasDistinctSchemes s.security_requirements) list
    → map_items parse_agent_skill (collect (λ s. object (serialize_agent_skill s)) list)
      ≡ parsed (map normal_skill list)
unfolding map_items collect
skills_trip [] h = refl
skills_trip (s ∷ rest) h = rw (skill_trip s h.0, skills_trip rest h.1)

-- the schemes as they are written where each OAuth 2 scheme has its flows
wire_schemes : Option (Map SecurityScheme) → Option Fields
wire_schemes schemes = map_option (λ m. write_all wire_of m end) schemes

abbrev pub HasFlows : Option (Map SecurityScheme) → Type 0
HasFlows schemes = All (λ s. has_flows s ≡ true) (values (get_or schemes []))

serialize_schemes_lem :
    (schemes : Option (Map SecurityScheme))
    → HasFlows schemes
    → serialize_security_schemes schemes ≡ parsed (wire_schemes schemes)
unfolding serialize_security_schemes wire_schemes
serialize_schemes_lem none h = refl
serialize_schemes_lem (some m) h =
    let each =
      All-map (λ s. has_flows s ≡ true) (λ s. serialize_security_scheme s ≡ parsed (wire_of s))
        (values m) serialize_security_scheme-wire_of h in
    rw (write_entries-write_all serialize_security_scheme wire_of m end each)

schemes_trip :
    (schemes : Option (Map SecurityScheme))
    → HasDistinctKeys (get_or schemes [])
    → parse_security_schemes (wire_schemes schemes) ≡ parsed schemes
unfolding parse_security_schemes wire_schemes
schemes_trip none h = refl
schemes_trip (some m) h =
    rw (read_entries-write_all parse_security_scheme wire_of parse_security_scheme-wire_of m h)

-- The keys of the card's objects are distinct.
abbrev pub IsKeyed : AgentCard → Type 0
IsKeyed c =
    HasDistinctKeys (get_or c.security_schemes [])
    × HasDistinctSchemes c.security_requirements
    × All (λ s. HasDistinctSchemes s.security_requirements) (get_or c.skills [])

unfoldable pub normal_card : AgentCard → AgentCard
normal_card c = record c {
  capabilities = map_option normal_capabilities c.capabilities;
  security_requirements = some (get_or c.security_requirements []);
  default_output_modes = some (get_or c.default_output_modes nil);
  skills = some (map normal_skill (get_or c.skills []));
  signatures = some (get_or c.signatures []);
}

card_trip :
    (c : AgentCard)
    → IsKeyed c
    → from_wire_agent_card (
        object (
          card_rest c (
            put "security_schemes"
              (map_option object (wire_schemes c.security_schemes))
              (card_start c))))
      ≡ parsed (normal_card c)
unfolding from_wire_agent_card card_rest card_start normal_card find
card_trip c h = simp (
  reading,
  interfaces_trip,
  provider_trip,
  optional_capabilities_trip,
  schemes_trip c.security_schemes h.0,
  requirements_trip (get_or c.security_requirements []) h.1,
  skills_trip (get_or c.skills []) h.2,
  signatures_trip,
)

extended_trip :
    (c : AgentCard) (w : Fields)
    → to_wire_agent_card c ≡ parsed w
    → to_wire_extended_agent_card (record { agent_card = some c })
      ≡ parsed (put "agentCard" (some (object w)) end)
unfolding to_wire_extended_agent_card serialize_card
extended_trip c w written = rw written

extended_back :
    (c : AgentCard) (w : Fields)
    → from_wire_agent_card (object w) ≡ parsed (normal_card c)
    → from_wire_extended_agent_card (object (put "agentCard" (some (object w)) end))
      ≡ parsed (record { agent_card = some (normal_card c) })
unfolding from_wire_extended_agent_card find put set
extended_back c w back = rw back

-- A card whose objects have distinct keys and whose OAuth 2 schemes have their flows is written,
-- and what is written is read back as the card in normal form, where lists that were not there are
-- empty ones; so is an extended card that holds it.
pub from_wire_agent_card-to_wire_agent_card :
    (c : AgentCard)
    → IsKeyed c
    → HasFlows c.security_schemes
    → (w : Fields) × (to_wire_agent_card c ≡ parsed w)
      × (from_wire_agent_card (object w) ≡ parsed (normal_card c))
      × (x : Fields) × (to_wire_extended_agent_card (record { agent_card = some c }) ≡ parsed x)
      × (from_wire_extended_agent_card (object x)
          ≡ parsed (record { agent_card = some (normal_card c) }))
unfolding to_wire_agent_card
from_wire_agent_card-to_wire_agent_card c keyed flows =
    let written : to_wire_agent_card c ≡ parsed _ =
      rw (serialize_schemes_lem c.security_schemes flows) refl in
    let back = card_trip c keyed in
    (_, written, back, _, extended_trip c _ written, extended_back c _ back)
