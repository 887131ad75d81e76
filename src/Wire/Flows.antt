-- ===== src/Wire/Flows.antt =====
-- The flows of an OAuth 2 security scheme: their types in src/types/a2a-v1.ts, and their parsers and
-- serializers in src/adapters/a2a/serialize.ts.
use jabr.Base.{Bool, String, Option, none, some, get_or, map_option}
use jabr.Wire.{
  Value, boolean, string, object, Fields, end, field, put, get_key_string, get_key_boolean,
  get_key_object, plain_object, Parsed, parsed, ◌>>=◌, parse_optional, nested,
}

pub record AuthorizationCodeOauthFlow : Type 0 where
  pub authorization_url : String
  pub token_url : String
  pub refresh_url : Option String
  pub scopes : Fields
  pub pkce_required : Option Bool

pub record ClientCredentialsOauthFlow : Type 0 where
  pub token_url : String
  pub refresh_url : Option String
  pub scopes : Fields

pub record ImplicitOauthFlow : Type 0 where
  pub authorization_url : String
  pub refresh_url : Option String
  pub scopes : Fields

pub record PasswordOauthFlow : Type 0 where
  pub token_url : String
  pub refresh_url : Option String
  pub scopes : Fields

pub record DeviceCodeOauthFlow : Type 0 where
  pub device_authorization_url : String
  pub token_url : String
  pub refresh_url : Option String
  pub scopes : Fields

unfoldable pub parse_authorization_code_flow : Value → Parsed AuthorizationCodeOauthFlow
parse_authorization_code_flow value = do
  raw ← plain_object "AuthorizationCodeOAuthFlow" value
  parsed (record {
    authorization_url = get_or (get_key_string raw "authorizationUrl" "authorization_url") "";
    token_url = get_or (get_key_string raw "tokenUrl" "token_url") "";
    refresh_url = get_key_string raw "refreshUrl" "refresh_url";
    scopes = get_or (get_key_object raw "scopes" "scopes") end;
    pkce_required = get_key_boolean raw "pkceRequired" "pkce_required";
  })

unfoldable pub serialize_authorization_code_flow : AuthorizationCodeOauthFlow → Fields
serialize_authorization_code_flow flow =
    let out =
      field "authorization_url" (string flow.authorization_url)
        (field "token_url" (string flow.token_url) (field "scopes" (object flow.scopes) end)) in
    let out = put "refresh_url" (map_option string flow.refresh_url) out in
    put "pkce_required" (map_option boolean flow.pkce_required) out

unfoldable pub parse_client_credentials_flow : Value → Parsed ClientCredentialsOauthFlow
parse_client_credentials_flow value = do
  raw ← plain_object "ClientCredentialsOAuthFlow" value
  parsed (record {
    token_url = get_or (get_key_string raw "tokenUrl" "token_url") "";
    refresh_url = get_key_string raw "refreshUrl" "refresh_url";
    scopes = get_or (get_key_object raw "scopes" "scopes") end;
  })

unfoldable pub serialize_client_credentials_flow : ClientCredentialsOauthFlow → Fields
serialize_client_credentials_flow flow =
    let out = field "token_url" (string flow.token_url) (field "scopes" (object flow.scopes) end) in
    put "refresh_url" (map_option string flow.refresh_url) out

unfoldable pub parse_implicit_flow : Value → Parsed ImplicitOauthFlow
parse_implicit_flow value = do
  raw ← plain_object "ImplicitOAuthFlow" value
  parsed (record {
    authorization_url = get_or (get_key_string raw "authorizationUrl" "authorization_url") "";
    refresh_url = get_key_string raw "refreshUrl" "refresh_url";
    scopes = get_or (get_key_object raw "scopes" "scopes") end;
  })

unfoldable pub serialize_implicit_flow : ImplicitOauthFlow → Fields
serialize_implicit_flow flow =
    let out =
      field "authorization_url" (string flow.authorization_url)
        (field "scopes" (object flow.scopes) end) in
    put "refresh_url" (map_option string flow.refresh_url) out

unfoldable pub parse_password_flow : Value → Parsed PasswordOauthFlow
parse_password_flow value = do
  raw ← plain_object "PasswordOAuthFlow" value
  parsed (record {
    token_url = get_or (get_key_string raw "tokenUrl" "token_url") "";
    refresh_url = get_key_string raw "refreshUrl" "refresh_url";
    scopes = get_or (get_key_object raw "scopes" "scopes") end;
  })

unfoldable pub serialize_password_flow : PasswordOauthFlow → Fields
serialize_password_flow flow =
    let out = field "token_url" (string flow.token_url) (field "scopes" (object flow.scopes) end) in
    put "refresh_url" (map_option string flow.refresh_url) out

unfoldable pub parse_device_code_flow : Value → Parsed DeviceCodeOauthFlow
parse_device_code_flow value = do
  raw ← plain_object "DeviceCodeOAuthFlow" value
  parsed (record {
    device_authorization_url =
        get_or (get_key_string raw "deviceAuthorizationUrl" "device_authorization_url") "";
    token_url = get_or (get_key_string raw "tokenUrl" "token_url") "";
    refresh_url = get_key_string raw "refreshUrl" "refresh_url";
    scopes = get_or (get_key_object raw "scopes" "scopes") end;
  })

unfoldable pub serialize_device_code_flow : DeviceCodeOauthFlow → Fields
serialize_device_code_flow flow =
    let out =
      field "device_authorization_url" (string flow.device_authorization_url)
        (field "token_url" (string flow.token_url) (field "scopes" (object flow.scopes) end)) in
    put "refresh_url" (map_option string flow.refresh_url) out

pub record OauthFlows : Type 0 where
  pub authorization_code : Option AuthorizationCodeOauthFlow
  pub client_credentials : Option ClientCredentialsOauthFlow
  pub implicit : Option ImplicitOauthFlow
  pub password : Option PasswordOauthFlow
  pub device_code : Option DeviceCodeOauthFlow

unfoldable pub parse_flows : Fields → Parsed OauthFlows
parse_flows raw = do
  authorization_code ←
      parse_optional parse_authorization_code_flow
        (get_key_object raw "authorizationCode" "authorization_code")
  client_credentials ←
      parse_optional parse_client_credentials_flow
        (get_key_object raw "clientCredentials" "client_credentials")
  implicit ← parse_optional parse_implicit_flow (get_key_object raw "implicit" "implicit")
  password ← parse_optional parse_password_flow (get_key_object raw "password" "password")
  device_code ←
      parse_optional parse_device_code_flow (get_key_object raw "deviceCode" "device_code")
  parsed (record {
    authorization_code = authorization_code;
    client_credentials = client_credentials;
    implicit = implicit;
    password = password;
    device_code = device_code;
  })

-- A value that is no object is no flows.
unfoldable pub parse_oauth_flows : Value → Parsed (Option OauthFlows)
parse_oauth_flows (object raw) = do flows ← parse_flows raw; parsed (some flows)
parse_oauth_flows _ = parsed none

unfoldable pub serialize_oauth_flows : OauthFlows → Fields
serialize_oauth_flows flows =
    let out =
      put "authorization_code" (nested serialize_authorization_code_flow flows.authorization_code)
        end in
    let out =
      put "client_credentials" (nested serialize_client_credentials_flow flows.client_credentials)
        out in
    let out = put "implicit" (nested serialize_implicit_flow flows.implicit) out in
    let out = put "password" (nested serialize_password_flow flows.password) out in
    put "device_code" (nested serialize_device_code_flow flows.device_code) out
