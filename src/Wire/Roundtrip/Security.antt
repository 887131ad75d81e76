-- ===== src/Wire/Roundtrip/Security.antt =====
-- The round trips of security requirements and schemes: src/adapters/a2a/serialize.ts.
use jabr.Base.{
  arith, ◌≡◌, refl, Bool, true, Option, some, none, List, [], ◌∷◌, String, All, HasDistinctKeys,
  is_some,
}
use jabr.Wire.{
  as_string, Value, undefined, object, end, field, find, map_items, collect, parsed, Parsed, thrown,
}
use jabr.Wire.Flows.{OauthFlows, parse_oauth_flows, serialize_oauth_flows}
use jabr.Wire.Security.{
  SecurityRequirement, listed, requirement_list, parse_security_requirement,
  serialize_security_requirement, SecurityScheme, api_key, http, oauth2, open_id_connect,
  mutual_tls, parse_api_key, parse_http, parse_oauth2, parse_open_id_connect, parse_mutual_tls,
  parse_scheme_fields, parse_security_scheme, serialize_flows, serialize_security_scheme,
  text_or_undefined,
}
use jabr.Wire.Roundtrip.Flows.{parse_flows-serialize_oauth_flows}
use jabr.Wire.Roundtrip.Entries.{read_entries-write_all}

pub parse_security_requirement-serialize_security_requirement :
    (r : SecurityRequirement)
    → HasDistinctKeys r.schemes
    → parse_security_requirement (object (serialize_security_requirement r)) ≡ parsed r
unfolding parse_security_requirement serialize_security_requirement requirement_list listed find
parse_security_requirement-serialize_security_requirement r h =
    rw (read_entries-write_all (λ v. parsed (requirement_list v)) listed (λ v. refl) r.schemes h)

-- Each list of requirements is read back where no requirement names a scheme twice.
pub requirements_trip :
    (list : List SecurityRequirement)
    → All (λ r. HasDistinctKeys r.schemes) list
    → map_items parse_security_requirement
        (collect (λ r. object (serialize_security_requirement r)) list)
      ≡ parsed list
unfolding map_items collect
requirements_trip [] h = refl
requirements_trip (r ∷ rest) h =
    rw (parse_security_requirement-serialize_security_requirement r h.0, requirements_trip rest h.1)

-- A scheme that is no OAuth 2 scheme, or one whose flows are there.
abbrev pub has_flows : SecurityScheme → Bool
has_flows (oauth2 s) = is_some s.flows
has_flows _ = true

abbrev flows_value : Option OauthFlows → Value
flows_value none = undefined
flows_value (some flows) = object (serialize_oauth_flows flows)

abbrev value_of : Parsed Value → Value
value_of (parsed value) = value
value_of (thrown e) = undefined

-- what a scheme is written as, with `undefined` for flows that are not there
pub wire_of : SecurityScheme → Value
wire_of (oauth2 s) = object (
    field "oauth2_security_scheme"
      (object (
        field "description" (text_or_undefined s.description) (
          field "flows" (flows_value s.flows)
            (field "oauth2_metadata_url" (text_or_undefined s.oauth2_metadata_url) end))))
      end)
wire_of scheme = value_of (serialize_security_scheme scheme)

pub serialize_security_scheme-wire_of :
    (s : SecurityScheme) → has_flows s ≡ true → serialize_security_scheme s ≡ parsed (wire_of s)
unfolding serialize_security_scheme wire_of serialize_flows
serialize_security_scheme-wire_of (api_key s) h = refl
serialize_security_scheme-wire_of (http s) h = refl
serialize_security_scheme-wire_of (oauth2 s) h = ground arith
serialize_security_scheme-wire_of (open_id_connect s) h = refl
serialize_security_scheme-wire_of (mutual_tls s) h = refl

text_trip : (o : Option String) → as_string (text_or_undefined o) ≡ o
text_trip none = refl
text_trip (some t) = refl

flows_trip : (o : Option OauthFlows) → parse_oauth_flows (flows_value o) ≡ parsed o
unfolding parse_oauth_flows
flows_trip none = refl
flows_trip (some flows) = rw (parse_flows-serialize_oauth_flows flows)

pub parse_security_scheme-wire_of :
    (s : SecurityScheme) → parse_security_scheme (wire_of s) ≡ parsed (some s)
unfolding parse_security_scheme parse_scheme_fields wire_of serialize_security_scheme find
    parse_api_key parse_http parse_oauth2 parse_open_id_connect parse_mutual_tls
parse_security_scheme-wire_of (api_key s) = rw text_trip
parse_security_scheme-wire_of (http s) = simp text_trip
parse_security_scheme-wire_of (oauth2 s) = simp (flows_trip, text_trip)
parse_security_scheme-wire_of (open_id_connect s) = rw text_trip
parse_security_scheme-wire_of (mutual_tls s) = rw text_trip
