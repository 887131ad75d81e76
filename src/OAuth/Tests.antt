-- ===== src/OAuth/Tests.antt =====
-- One caller gets tokens, exchanges the refresh token, and presents the old one again.
use jabr.Base.{
  ◌≤◌, String, ◌≡◌, ◌≢◌, refl, true, false, Option, none, some, List, [], ◌∷◌, arith, truthy,
  split_on, split_on_from, first_chars, eq_iff, lookup, join, split_spaces,
}
use jabr.World.{ok, err}
use jabr.Agents.{ResolvedCaller}
use jabr.ApiKeys.{ApiKeyRegistry, authenticate}
use jabr.TokenStore.{
  RefreshTokenRecord, TokenStore, empty_store, get, rotate, is_revoked, as_revoked,
  revoke_all_for_subject,
}
use jabr.Jwt.{
  Claims, Crypto, VerifiedToken, sign_compact, signing_input, kid, get_secret, verify_token,
  verify_with_scopes, check_claims, refresh_claims, access_claims, mint, mint_access_token,
  mint_refresh_token, insufficient, parse_scopes, scope_words,
}
use jabr.Jwt.Roundtrip.{payload_of}
use jabr.Jwt.Sample.{platform, platform-IsCodec, encode, decode}
use jabr.OAuth.{
  OAuthTokenRequest, OAuthTokenResponse, oauth_error, granted, refused, Moment, revoked_text,
  handle_client_credentials_grant, handle_refresh_token_grant, granted_scopes, scopes_of, present,
  with_token, exchange, rotated, access_granted, response,
}
use jabr.OAuth.Grants.{refresh_granted}
use jabr.OAuth.Replay.{AreRevoked, replay_revokes_family}
use jabr.OAuth.Escalation.{admin, grants_no_admin}
use jabr.AuthMiddleware.{scopes_for_method}

abbrev agents : List String
agents = "build" ∷ []

abbrev key : String
key = "0123456789abcdef"

abbrev request : Option String → Option String → Option String → OAuthTokenRequest
request assertion scope token = record {
  grant_type = none;
  client_assertion = assertion;
  scope = scope;
  refresh_token = token;
}

abbrev first : Moment
first = record { now = 100; access_id = "a1"; refresh_id = "r1" }

abbrev second : Moment
second = record { now = 200; access_id = "a2"; refresh_id = "r2" }

abbrev third : Moment
third = record { now = 300; access_id = "a3"; refresh_id = "r3" }

abbrev ci : ResolvedCaller
ci = record { description = "ci"; allowed_agents = agents }

abbrev registry : ApiKeyRegistry
registry = record {
  keys =
      ("k", record { key = "k"; description = "ci"; allowed_agents = agents; enabled = true }) ∷ [];
}

abbrev refresh : Claims
refresh = record {
  sub = "ci";
  scope = "a2a:read";
  allowed_agents = agents;
  token_type = "refresh";
  iat = 100;
  exp = 86500;
  jti = some "r1";
}

abbrev c : Crypto
c = platform (payload_of refresh)

abbrev old_token : String
unfolding sign_compact
old_token = sign_compact c key refresh

abbrev stored : RefreshTokenRecord
unfolding old_token
stored = record {
  thumbprint = c.sha256 old_token;
  subject = "ci";
  agents = agents;
  expires_at = 86500;
  revoked = false;
  parent = none;
}

abbrev s : TokenStore
unfolding old_token stored
s = record { refresh_tokens = (c.sha256 old_token, stored) ∷ [] }

abbrev body : OAuthTokenRequest
unfolding old_token
body = request none none (some old_token)

abbrev claims : Claims
unfolding access_claims
claims = access_claims c "ci" ("a2a:read" ∷ []) agents 200 "a2"

abbrev resp : OAuthTokenResponse
unfolding sign_compact claims
resp = record {
  access_token = sign_compact c key claims;
  expires_in = 3600;
  refresh_token = sign_compact c key (refresh_claims c "ci" agents 200 "r2");
  refresh_expires_in = 86400;
  scope = "a2a:read";
}

abbrev s' : TokenStore
unfolding s body handle_refresh_token_grant
s' = (handle_refresh_token_grant c s body second).0

done : handle_refresh_token_grant c s body second ≡ (s', granted resp)
unfolding handle_refresh_token_grant present is_revoked with_token exchange rotate rotated
    access_granted response verify_token sign_compact signing_input kid get_secret check_claims mint
    mint_access_token mint_refresh_token parse_scopes scope_words split_spaces split_on
    split_on_from first_chars join access_claims s' s body old_token stored resp claims encode
    decode truthy get lookup
done = refl

digests_differ : c.sha256 old_token ≢ c.sha256 resp.refresh_token
unfolding old_token resp sign_compact signing_input kid encode first_chars
digests_differ e = ground (arith, eq_iff (c.sha256 old_token) (c.sha256 resp.refresh_token), e)

given : truthy (some old_token) ≡ some old_token
unfolding truthy old_token sign_compact signing_input kid encode first_chars
given = refl

refresh_granted_example :
    (old : RefreshTokenRecord) × (new : RefreshTokenRecord) × (v : VerifiedToken) × (verify_token c
        old_token 200
      ≡ ok v)
    × (v.claims.token_type ≡ "refresh")
    × (get s (c.sha256 old_token) ≡ some old)
    × (old.revoked ≡ false)
    × (200 ≤ old.expires_at)
    × (get s' (c.sha256 old_token) ≡ some (as_revoked old))
    × (get s' (c.sha256 resp.refresh_token) ≡ some new)
    × (new.subject ≡ old.subject)
    × (new.agents ≡ old.agents)
    × (new.parent ≡ some (c.sha256 old_token))
unfolding body
refresh_granted_example =
    refresh_granted c s s' body second old_token resp given digests_differ done

replay_revokes_family_example :
    (old : RefreshTokenRecord) × (new : RefreshTokenRecord) × (get s (c.sha256 old_token)
      ≡ some old)
    × (handle_refresh_token_grant c s' body third ≡ (
      (revoke_all_for_subject s' old.subject).0,
      refused (oauth_error "invalid_grant" revoked_text),
    ))
    × AreRevoked (handle_refresh_token_grant c s' body third).0 old.subject
    × (get (handle_refresh_token_grant c s' body third).0 (c.sha256 resp.refresh_token)
        ≡ some (as_revoked new))
unfolding body
replay_revokes_family_example =
    replay_revokes_family c s s' body body second third old_token resp given given digests_differ
      done

abbrev asked : OAuthTokenRequest
asked = request (some "k") (some "a2a:admin a2a:read") none

abbrev plain : Crypto
unfolding claims
plain = platform (payload_of (access_claims c "ci" ("a2a:read" ∷ []) agents 100 "a1"))

grants_no_admin_example :
    (s'' : TokenStore) × (r' : OAuthTokenResponse) × (v : VerifiedToken) × (r : RefreshTokenRecord)
    × (handle_client_credentials_grant plain registry empty_store asked first ≡ (s'', granted r'))
    × (verify_token plain r'.access_token 150 ≡ ok v)
    × (v.claims.sub ≡ "ci")
    × (v.claims.allowed_agents ≡ agents)
    × (verify_with_scopes plain r'.access_token (scopes_for_method "CancelTask") 150
        ≡ err (insufficient admin v.claims))
    × (get s'' (plain.sha256 r'.refresh_token) ≡ some r)
    × (r.subject ≡ "ci")
    × (r.agents ≡ agents)
    × (r.revoked ≡ false)
unfolding plain truthy authenticate lookup get_secret access_claims granted_scopes scopes_of
    parse_scopes scope_words split_spaces join
grants_no_admin_example =
    grants_no_admin plain (platform-IsCodec _) registry empty_store asked first "k" key ci 150 refl
      refl refl refl (omega arith)
