-- ===== src/Wire/Roundtrip/Throws.antt =====
-- When the serializer of agent cards throws: serializeOAuthFlows of src/adapters/a2a/serialize.ts
-- reads the flows of each OAuth 2 scheme, which the parser may have left `undefined`.
use jabr.Base.{
  ◌≡◌, ◌∙◌, refl, Bool, false, not, Option, some, none, [], ◌∷◌, Map, any, values, get_or,
  Bool-cases, inl, inr, if◌then◌else◌, arith,
}
use jabr.Wire.{Fields, end, set, parsed, Parsed, thrown, Thrown, type_error, ◌>>=◌}
use jabr.Wire.Entries.{write_entries}
use jabr.Wire.Security.{
  SecurityScheme, api_key, http, oauth2, open_id_connect, mutual_tls, serialize_flows,
  serialize_security_scheme,
}
use jabr.Wire.Cards.{AgentCard, serialize_security_schemes, to_wire_agent_card}
use jabr.Wire.Roundtrip.Security.{has_flows, wire_of, serialize_security_scheme-wire_of}

-- what is thrown, if anything is
abbrev pub error_of {ℓ} : {A : Type ℓ} → Parsed A → Option Thrown
error_of (parsed a) = none
error_of (thrown e) = some e

error_of_then {ℓ κ} :
    {A : Type ℓ} {B : Type κ} (f : A → B) (m : Parsed A)
    → error_of (m >>= λ a. parsed (f a)) ≡ error_of m
error_of_then f (parsed a) = refl
error_of_then f (thrown e) = refl

abbrev pub lacks_flows : SecurityScheme → Bool
lacks_flows s = not (has_flows s)

flowless_throws :
    (s : SecurityScheme) → has_flows s ≡ false → serialize_security_scheme s ≡ thrown type_error
unfolding serialize_security_scheme serialize_flows
flowless_throws (api_key s) h = ground arith
flowless_throws (http s) h = ground arith
flowless_throws (oauth2 s) h = ground arith
flowless_throws (open_id_connect s) h = ground arith
flowless_throws (mutual_tls s) h = ground arith

error_of-write_entries :
    (m : Map SecurityScheme) (out : Fields)
    → error_of (write_entries serialize_security_scheme m out)
      ≡ (if any lacks_flows (values m) then some type_error else none)
unfolding write_entries values
error_of-write_entries [] out = refl
error_of-write_entries ((key, s) ∷ rest) out = elim (Bool-cases (has_flows s)) [
  | inl e ↦
      rw (serialize_security_scheme-wire_of s e, e)
        (error_of-write_entries rest (set key (wire_of s) out))
  | inr e ↦ rw (flowless_throws s e, e) refl
]

error_of-schemes :
    (schemes : Option (Map SecurityScheme))
    → error_of (serialize_security_schemes schemes)
      ≡ (if any lacks_flows (values (get_or schemes [])) then some type_error else none)
unfolding serialize_security_schemes values
error_of-schemes none = refl
error_of-schemes (some m) = error_of_then _ _ ∙ error_of-write_entries m end

-- Writing a card throws the engine's type error if one of its OAuth 2 schemes has no flows, and
-- nothing otherwise.
pub error_of-to_wire_agent_card :
    (c : AgentCard)
    → error_of (to_wire_agent_card c)
      ≡ (if any lacks_flows (values (get_or c.security_schemes [])) then some type_error else none)
unfolding to_wire_agent_card
error_of-to_wire_agent_card c = error_of_then _ _ ∙ error_of-schemes c.security_schemes
