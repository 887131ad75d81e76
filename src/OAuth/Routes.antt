-- ===== src/OAuth/Routes.antt =====
-- The HTTP routes of src/security/oauth-server.ts. A URL is its path and its base; `JSON.stringify`
-- of a body is left to the body's type.
use jabr.Base.{
  ℕ, String, ◌&&◌, Option, none, some, if◌then◌else◌, str_eq, truthy, starts_with, concat, is_some,
  not,
}
use jabr.ApiKeys.{ApiKeyRegistry}
use jabr.TokenStore.{TokenStore}
use jabr.Jwt.{Crypto}
use jabr.OAuth.{
  OAuthTokenRequest, OAuthTokenResponse, oauth_error, other_error, granted, refused, Moment,
  Outcome, handle_client_credentials_grant, handle_refresh_token_grant, revoke_token,
}

pub data Body : Type 0 where
  token_body : OAuthTokenResponse → Body
  error_body : (error description : String) → Body
  metadata_body : (base_url : String) → Body
  keys_body empty_body : Body

pub record HttpResponse : Type 0 where
  pub status : ℕ
  pub body : Body
  pub allow_origin : Option String

pub record HttpRequest : Type 0 where
  pub method : String
  pub pathname : String
  pub base_url : String
  pub origin : Option String
  pub text : String

-- `new URLSearchParams(text)` and `JSON.parse(text)`, for the two bodies
pub record BodyParser : Type 0 where
  pub form : String → OAuthTokenRequest
  pub json : String → Option OAuthTokenRequest
  pub form_token : String → Option String
  pub json_token : String → Option (Option String)

abbrev pub json_response : Body → ℕ → HttpRequest → HttpResponse
unfolding truthy
json_response body status req = record {
  status = status;
  body = body;
  allow_origin = truthy req.origin;
}

abbrev pub malformed : Body
malformed = error_body "invalid_request" "Malformed request body"

parse_body : BodyParser → String → Option OAuthTokenRequest
unfolding truthy
parse_body p text =
    if not (is_some (truthy (p.form text).grant_type)) && starts_with text "{"
    then p.json text
    else some (p.form text)

parse_token : BodyParser → String → Option (Option String)
unfolding truthy
parse_token p text =
    if not (is_some (truthy (p.form_token text))) && starts_with text "{"
    then p.json_token text
    else some (p.form_token text)

abbrev pub status_of : String → ℕ
status_of code = if str_eq code "invalid_client" then 401 else 400

abbrev pub Answer : Type 0
Answer = TokenStore × Option HttpResponse

pub answer : HttpRequest → Outcome → Answer
unfolding json_response
answer req (s, granted r) = (s, some (json_response (token_body r) 200 req))
answer req (s, refused (oauth_error code description)) =
    (s, some (json_response (error_body code description) (status_of code) req))
answer req (s, refused (other_error text)) =
    (s, some (json_response (error_body "server_error" text) 500 req))

by_grant :
    Crypto
    → ApiKeyRegistry
    → TokenStore
    → HttpRequest
    → Moment
    → OAuthTokenRequest
    → Option String
    → Answer
unfolding answer json_response
by_grant c registry s req m body none =
    (s, some (json_response (error_body "invalid_request" "grant_type is required") 400 req))
by_grant c registry s req m body (some grant_type) =
    if str_eq grant_type "client_credentials"
    then answer req (handle_client_credentials_grant c registry s body m)
    else if str_eq grant_type "refresh_token"
    then answer req (handle_refresh_token_grant c s body m)
    else (
      s,
      some (
          json_response
            (error_body "unsupported_grant_type" (concat "Unsupported grant_type: " grant_type)) 400
            req),
    )

token_route :
    Crypto → ApiKeyRegistry → TokenStore → HttpRequest → Moment → Option OAuthTokenRequest → Answer
unfolding by_grant json_response truthy
token_route c registry s req m none = (s, some (json_response malformed 400 req))
token_route c registry s req m (some body) =
    by_grant c registry s req m body (truthy body.grant_type)

-- a revocation is answered with 200 whether or not the token was known
revoke_given : Crypto → TokenStore → HttpRequest → Option String → Answer
unfolding json_response
revoke_given c s req none =
    (s, some (json_response (error_body "invalid_request" "token is required") 400 req))
revoke_given c s req (some token) =
    ((revoke_token c s token).0, some (json_response empty_body 200 req))

revoke_route : Crypto → TokenStore → HttpRequest → Option (Option String) → Answer
unfolding revoke_given json_response truthy
revoke_route c s req none = (s, some (json_response malformed 400 req))
revoke_route c s req (some token) = revoke_given c s req (truthy token)

-- `none` is a request that is not handled here.
pub handle_oauth_routes :
    Crypto → BodyParser → ApiKeyRegistry → TokenStore → HttpRequest → Moment → Answer
unfolding token_route revoke_route parse_body parse_token json_response
handle_oauth_routes c p registry s req m =
    if str_eq req.pathname "/oauth/token" && str_eq req.method "POST"
    then token_route c registry s req m (parse_body p req.text)
    else if str_eq req.pathname "/oauth/revoke" && str_eq req.method "POST"
    then revoke_route c s req (parse_token p req.text)
    else if str_eq req.pathname "/.well-known/oauth-authorization-server" && str_eq req.method "GET"
    then (s, some (json_response (metadata_body req.base_url) 200 req))
    else if str_eq req.pathname "/.well-known/jwks.json" && str_eq req.method "GET"
    then (s, some (json_response keys_body 200 req))
    else (s, none)
