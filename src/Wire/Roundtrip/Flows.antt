-- ===== src/Wire/Roundtrip/Flows.antt =====
-- The round trips of the OAuth 2 flows: src/adapters/a2a/serialize.ts.
use jabr.Base.{◌≡◌, Option, map_option}
use jabr.Wire.{object, find, parse_optional, parsed}
use jabr.Wire.Reading.{reading, parse_optional_back}
use jabr.Wire.Flows.{
  AuthorizationCodeOauthFlow, parse_authorization_code_flow, serialize_authorization_code_flow,
  ClientCredentialsOauthFlow, parse_client_credentials_flow, serialize_client_credentials_flow,
  ImplicitOauthFlow, parse_implicit_flow, serialize_implicit_flow, PasswordOauthFlow,
  parse_password_flow, serialize_password_flow, DeviceCodeOauthFlow, parse_device_code_flow,
  serialize_device_code_flow, OauthFlows, parse_flows, serialize_oauth_flows,
}

parse_authorization_code_flow-serialize_authorization_code_flow :
    (flow : AuthorizationCodeOauthFlow)
    → parse_authorization_code_flow (object (serialize_authorization_code_flow flow)) ≡ parsed flow
unfolding parse_authorization_code_flow serialize_authorization_code_flow find
parse_authorization_code_flow-serialize_authorization_code_flow flow = simp reading

optional_authorization_code_flow :
    (o : Option AuthorizationCodeOauthFlow)
    → parse_optional parse_authorization_code_flow (map_option serialize_authorization_code_flow o)
      ≡ parsed o
optional_authorization_code_flow =
    parse_optional_back parse_authorization_code_flow serialize_authorization_code_flow
      parse_authorization_code_flow-serialize_authorization_code_flow

parse_client_credentials_flow-serialize_client_credentials_flow :
    (flow : ClientCredentialsOauthFlow)
    → parse_client_credentials_flow (object (serialize_client_credentials_flow flow)) ≡ parsed flow
unfolding parse_client_credentials_flow serialize_client_credentials_flow find
parse_client_credentials_flow-serialize_client_credentials_flow flow = simp reading

optional_client_credentials_flow :
    (o : Option ClientCredentialsOauthFlow)
    → parse_optional parse_client_credentials_flow (map_option serialize_client_credentials_flow o)
      ≡ parsed o
optional_client_credentials_flow =
    parse_optional_back parse_client_credentials_flow serialize_client_credentials_flow
      parse_client_credentials_flow-serialize_client_credentials_flow

parse_implicit_flow-serialize_implicit_flow :
    (flow : ImplicitOauthFlow)
    → parse_implicit_flow (object (serialize_implicit_flow flow)) ≡ parsed flow
unfolding parse_implicit_flow serialize_implicit_flow find
parse_implicit_flow-serialize_implicit_flow flow = simp reading

optional_implicit_flow :
    (o : Option ImplicitOauthFlow)
    → parse_optional parse_implicit_flow (map_option serialize_implicit_flow o) ≡ parsed o
optional_implicit_flow =
    parse_optional_back parse_implicit_flow serialize_implicit_flow
      parse_implicit_flow-serialize_implicit_flow

parse_password_flow-serialize_password_flow :
    (flow : PasswordOauthFlow)
    → parse_password_flow (object (serialize_password_flow flow)) ≡ parsed flow
unfolding parse_password_flow serialize_password_flow find
parse_password_flow-serialize_password_flow flow = simp reading

optional_password_flow :
    (o : Option PasswordOauthFlow)
    → parse_optional parse_password_flow (map_option serialize_password_flow o) ≡ parsed o
optional_password_flow =
    parse_optional_back parse_password_flow serialize_password_flow
      parse_password_flow-serialize_password_flow

parse_device_code_flow-serialize_device_code_flow :
    (flow : DeviceCodeOauthFlow)
    → parse_device_code_flow (object (serialize_device_code_flow flow)) ≡ parsed flow
unfolding parse_device_code_flow serialize_device_code_flow find
parse_device_code_flow-serialize_device_code_flow flow = simp reading

optional_device_code_flow :
    (o : Option DeviceCodeOauthFlow)
    → parse_optional parse_device_code_flow (map_option serialize_device_code_flow o) ≡ parsed o
optional_device_code_flow =
    parse_optional_back parse_device_code_flow serialize_device_code_flow
      parse_device_code_flow-serialize_device_code_flow

pub parse_flows-serialize_oauth_flows :
    (flows : OauthFlows) → parse_flows (serialize_oauth_flows flows) ≡ parsed flows
unfolding parse_flows serialize_oauth_flows find
parse_flows-serialize_oauth_flows flows = simp (
  reading, optional_authorization_code_flow, optional_client_credentials_flow,
  optional_implicit_flow, optional_password_flow, optional_device_code_flow,
)
