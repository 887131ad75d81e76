-- ===== src/OAuth.antt =====
-- The OAuth token server: src/security/oauth-server.ts over the token store, the key registry and the
-- tokens of src/security/jwt.ts. A call has one time, in seconds, and the ids of the tokens that it
-- makes; parsing of a form or of JSON is an argument.
pub mod Routes
pub mod Replay
pub mod Grants
pub mod Escalation
mod Tests
use jabr.Base.{
  ℕ, String, Bool, true, false, not, ◌&&◌, Option, none, some, List, [], ◌∷◌, if◌then◌else◌, str_eq,
  filter, includes, join, truthy, starts_with, concat,
}
use jabr.World.{Result, ok, err}
use jabr.Agents.{ResolvedCaller}
use jabr.ApiKeys.{ApiKeyRegistry, authenticate}
use jabr.TokenStore.{
  RefreshTokenRecord, TokenStore, store, get, rotate, revoke, revoke_all_for_subject, is_revoked,
}
use jabr.Jwt.{
  Claims, Crypto, VerifiedToken, default_scopes, parse_scopes, mint_access_token,
  mint_refresh_token, verify_token,
}

pub record OAuthTokenRequest : Type 0 where
  pub grant_type : Option String
  pub client_assertion : Option String
  pub scope : Option String
  pub refresh_token : Option String

pub record OAuthTokenResponse : Type 0 where
  pub access_token : String
  pub expires_in : ℕ
  pub refresh_token : String
  pub refresh_expires_in : ℕ
  pub scope : String

-- An `OAuthError`, or another throw with its `String(e)`.
pub data Failure : Type 0 where
  oauth_error : (code description : String) → Failure
  other_error : (text : String) → Failure

pub data Reply : Type 0 where
  granted : OAuthTokenResponse → Reply
  refused : Failure → Reply

-- the time of a call and the ids of the two tokens that it may make
pub record Moment : Type 0 where
  pub now : ℕ
  pub access_id : String
  pub refresh_id : String

abbrev pub Outcome : Type 0
Outcome = TokenStore × Reply

abbrev pub refuse : TokenStore → String → String → Outcome
refuse s code description = (s, refused (oauth_error code description))

abbrev or_default : List String → List String
or_default [] = default_scopes
or_default (x ∷ xs) = x ∷ xs

-- the requested scopes within the default ones, or these
abbrev scopes_of : Option String → List String
unfolding parse_scopes
scopes_of none = default_scopes
scopes_of (some text) = or_default (filter (includes (parse_scopes text)) default_scopes)

pub granted_scopes : Option String → List String
unfolding scopes_of truthy
granted_scopes scope = scopes_of (truthy scope)

response : Crypto → String → String → List String → OAuthTokenResponse
unfolding join
response c access refresh scopes = record {
  access_token = access;
  expires_in = c.access_ttl;
  refresh_token = refresh;
  refresh_expires_in = c.refresh_ttl;
  scope = join " " scopes;
}

-- both tokens are made before the refresh token is stored
issued :
    Crypto
    → TokenStore
    → ResolvedCaller
    → List String
    → Moment
    → Result String
    → Result String
    → Outcome
unfolding response
issued c s caller scopes m (err e) refresh = (s, refused (other_error e))
issued c s caller scopes m (ok access) (err e) = (s, refused (other_error e))
issued c s caller scopes m (ok access) (ok refresh) = (
  (store s (c.sha256 refresh) caller.description caller.allowed_agents c.refresh_ttl m.now).0,
  granted (response c access refresh scopes),
)

issue : Crypto → TokenStore → ResolvedCaller → List String → Moment → Outcome
unfolding issued mint_access_token mint_refresh_token
issue c s caller scopes m =
    issued c s caller scopes m
      (mint_access_token c caller.description scopes caller.allowed_agents m.now m.access_id)
      (mint_refresh_token c caller.description caller.allowed_agents m.now m.refresh_id)

for_caller : Crypto → TokenStore → List String → Moment → Option ResolvedCaller → Outcome
unfolding issue
for_caller c s scopes m none = refuse s "invalid_client" "Invalid API key"
for_caller c s scopes m (some caller) = issue c s caller scopes m

with_assertion :
    Crypto → ApiKeyRegistry → TokenStore → List String → Moment → Option String → Outcome
unfolding for_caller authenticate
with_assertion c registry s scopes m none =
    refuse s "invalid_request" "client_assertion is required"
with_assertion c registry s scopes m (some key) =
    for_caller c s scopes m (authenticate registry (some key))

pub handle_client_credentials_grant :
    Crypto → ApiKeyRegistry → TokenStore → OAuthTokenRequest → Moment → Outcome
unfolding with_assertion granted_scopes truthy
handle_client_credentials_grant c registry s body m =
    with_assertion c registry s (granted_scopes body.scope) m (truthy body.client_assertion)

-- a token that is not usable takes its subject's tokens with it, where it is known
pub revoke_known : TokenStore → Option RefreshTokenRecord → TokenStore
revoke_known s none = s
revoke_known s (some existing) = (revoke_all_for_subject s existing.subject).0

access_granted : Crypto → TokenStore → String → List String → Result String → Outcome
unfolding response
access_granted c s refresh scopes (err e) = (s, refused (other_error e))
access_granted c s refresh scopes (ok access) = (s, granted (response c access refresh scopes))

abbrev pub reuse_detected : String
reuse_detected = "Refresh token reuse detected. All tokens revoked."

rotated : Crypto → Claims → String → Moment → TokenStore × Option RefreshTokenRecord → Outcome
unfolding access_granted parse_scopes mint_access_token
rotated c claims refresh m (s, none) =
    refuse (revoke_all_for_subject s claims.sub).0 "invalid_grant" reuse_detected
rotated c claims refresh m (s, some record_) =
    let scopes = or_default (parse_scopes claims.scope) in
    access_granted c s refresh scopes
      (mint_access_token c claims.sub scopes record_.agents m.now m.access_id)

exchange : Crypto → TokenStore → String → Claims → Moment → Result String → Outcome
unfolding rotated
exchange c s old_thumbprint claims m (err e) = (s, refused (other_error e))
exchange c s old_thumbprint claims m (ok refresh) =
    rotated c claims refresh m (rotate s old_thumbprint (c.sha256 refresh) c.refresh_ttl m.now)

with_token : Crypto → TokenStore → String → Moment → Result VerifiedToken → Outcome
unfolding exchange mint_refresh_token
with_token c s old_thumbprint m (err e) =
    refuse s "invalid_grant" "Invalid or expired refresh token"
with_token c s old_thumbprint m (ok v) =
    if str_eq v.claims.token_type "refresh"
    then exchange c s old_thumbprint v.claims m
        (mint_refresh_token c v.claims.sub v.claims.allowed_agents m.now m.refresh_id)
    else refuse s "invalid_grant" "Token is not a refresh token"

abbrev pub revoked_text : String
revoked_text = "Refresh token has been revoked (possible replay detected)"

present : Crypto → TokenStore → Moment → Option String → Outcome
unfolding with_token verify_token revoke_known get
present c s m none = refuse s "invalid_request" "refresh_token is required"
present c s m (some raw) =
    if is_revoked s (c.sha256 raw) m.now
    then refuse (revoke_known s (get s (c.sha256 raw))) "invalid_grant" revoked_text
    else with_token c s (c.sha256 raw) m (verify_token c raw m.now)

pub handle_refresh_token_grant : Crypto → TokenStore → OAuthTokenRequest → Moment → Outcome
unfolding present truthy
handle_refresh_token_grant c s body m = present c s m (truthy body.refresh_token)

pub revoke_token : Crypto → TokenStore → String → TokenStore × Bool
revoke_token c s raw = revoke s (c.sha256 raw)
