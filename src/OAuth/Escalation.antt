-- ===== src/OAuth/Escalation.antt =====
-- What the tokens of the client credentials grant may do, and may not: src/security/oauth-server.ts,
-- src/security/jwt.ts and src/security/auth-middleware.ts.
use jabr.Base.{
  ℕ, ◌<◌, ◌+◌, String, ◌≡◌, refl, Bool, true, false, Option, none, some, List, [], ◌∷◌, arith,
  includes, join, any, truthy, split_spaces, if◌then◌else◌, lookup-insert, eq_refl,
}
use jabr.World.{ok, err}
use jabr.Agents.{ResolvedCaller}
use jabr.ApiKeys.{ApiKeyRegistry, authenticate}
use jabr.TokenStore.{RefreshTokenRecord, TokenStore, store, get}
use jabr.Jwt.{
  Claims, Crypto, VerifiedToken, sign_compact, get_secret, verify_token, verify_with_scopes,
  has_scope, access_claims, refresh_claims, scope_words, insufficient, mint, mint_access_token,
  mint_refresh_token,
}
use jabr.Jwt.Roundtrip.{IsCodec, payload_of, verify_token-sign_compact}
use jabr.OAuth.{
  OAuthTokenRequest, OAuthTokenResponse, granted, Moment, granted_scopes, scopes_of, or_default,
  handle_client_credentials_grant, with_assertion, for_caller, issue, issued, response,
}
use jabr.AuthMiddleware.{scopes_for_method}

abbrev pub admin : List String
admin = "a2a:admin" ∷ []

-- the three default scopes, each one kept or not
abbrev chosen : Bool → Bool → Bool → List String
chosen reads writes streams =
    let s = if streams then "a2a:stream" ∷ [] else [] in
    let w = if writes then "a2a:write" ∷ s else s in if reads then "a2a:read" ∷ w else w

chosen_not_admin :
    (reads writes streams : Bool)
    → any (includes (scope_words (join " " (or_default (chosen reads writes streams))))) admin
      ≡ false
unfolding scope_words split_spaces join
chosen_not_admin true true true = refl
chosen_not_admin true true false = refl
chosen_not_admin true false true = refl
chosen_not_admin true false false = refl
chosen_not_admin false true true = refl
chosen_not_admin false true false = refl
chosen_not_admin false false true = refl
chosen_not_admin false false false = refl

scopes_not_admin :
    (o : Option String) → any (includes (scope_words (join " " (scopes_of o)))) admin ≡ false
unfolding scopes_of
scopes_not_admin none = chosen_not_admin true true true
scopes_not_admin (some text) = chosen_not_admin _ _ _

access_claims_not_admin :
    (c : Crypto) (subject : String) (scope : Option String) (agents : List String) (now : ℕ)
    (jti : String)
    → has_scope admin (access_claims c subject (granted_scopes scope) agents now jti) ≡ false
unfolding has_scope access_claims granted_scopes
access_claims_not_admin c subject scope agents now jti = scopes_not_admin (truthy scope)

verify_with_scopes_refused :
    (c : Crypto) (token : String) (required : List String) (now : ℕ) (v : VerifiedToken)
    → verify_token c token now ≡ ok v
    → has_scope required v.claims ≡ false
    → verify_with_scopes c token required now ≡ err (insufficient required v.claims)
unfolding verify_with_scopes
verify_with_scopes_refused c token required now v passed poor = rw passed (rw poor refl)

module _ (c : Crypto) (registry : ApiKeyRegistry) (s : TokenStore) (body : OAuthTokenRequest)
    (m : Moment) (key secret : String) (caller : ResolvedCaller) where
  abbrev caller_claims : Claims
  caller_claims =
      access_claims c caller.description (granted_scopes body.scope) caller.allowed_agents m.now
        m.access_id

  abbrev caller_refresh : String
  unfolding sign_compact
  caller_refresh =
      sign_compact c secret
        (refresh_claims c caller.description caller.allowed_agents m.now m.refresh_id)

  granted_to :
      truthy body.client_assertion ≡ some key
      → authenticate registry (some key) ≡ some caller
      → get_secret c ≡ ok secret
      → handle_client_credentials_grant c registry s body m ≡ (
        (store s
            (c.sha256 caller_refresh)
            caller.description
            caller.allowed_agents
            c.refresh_ttl
            m.now).0,
        granted (
            response c
              (sign_compact c secret caller_claims)
              caller_refresh
              (granted_scopes body.scope)),
      )
  unfolding handle_client_credentials_grant with_assertion for_caller issue issued mint_access_token
      mint_refresh_token mint
  granted_to given known found = rw given (rw known (rw found refl))

-- On a platform that decodes what it encodes, in segments without dots, and parses what it prints, the
-- client credentials grant with the key of a caller and a secret that is set gives tokens. The access
-- token is verified before its expiry, with the subject and the agents of the caller, and it is refused
-- where `a2a:admin` is asked for, as for `CancelTask`, whatever scopes the request named. The refresh
-- token is stored for the caller and not revoked.
pub grants_no_admin :
    (c : Crypto) (codec : IsCodec c) (registry : ApiKeyRegistry) (s : TokenStore)
    (body : OAuthTokenRequest) (m : Moment) (key secret : String) (caller : ResolvedCaller)
    (later : ℕ)
    → truthy body.client_assertion ≡ some key
    → authenticate registry (some key) ≡ some caller
    → get_secret c ≡ ok secret
    → c.parse_claims (
        c.print_claims (
          access_claims c caller.description
            (granted_scopes body.scope)
            caller.allowed_agents
            m.now
            m.access_id))
      ≡ some (
          payload_of (
            access_claims c caller.description
              (granted_scopes body.scope)
              caller.allowed_agents
              m.now
              m.access_id))
    → later < m.now + c.access_ttl
    → (s' : TokenStore) × (resp : OAuthTokenResponse) × (v : VerifiedToken)
      × (r : RefreshTokenRecord) × (handle_client_credentials_grant c registry s body m
          ≡ (s', granted resp))
      × (verify_token c resp.access_token later ≡ ok v)
      × (v.claims.sub ≡ caller.description)
      × (v.claims.allowed_agents ≡ caller.allowed_agents)
      × (verify_with_scopes c resp.access_token (scopes_for_method "CancelTask") later
          ≡ err (insufficient admin v.claims))
      × (get s' (c.sha256 resp.refresh_token) ≡ some r)
      × (r.subject ≡ caller.description)
      × (r.agents ≡ caller.allowed_agents)
      × (r.revoked ≡ false)
unfolding get store response scopes_for_method access_claims
grants_no_admin c codec registry s body m key secret caller later given known found printed alive =
    let claims = caller_claims c registry s body m key secret caller in
    let refresh = caller_refresh c registry s body m key secret caller in
    let token = sign_compact c secret claims in
    let passed = verify_token-sign_compact c codec claims secret later printed found refl alive in
    let poor =
      access_claims_not_admin c caller.description body.scope caller.allowed_agents m.now
        m.access_id in
    let r : RefreshTokenRecord =
      (store s (c.sha256 refresh) caller.description caller.allowed_agents c.refresh_ttl m.now).1 in
    let stored = lookup-insert (c.sha256 refresh) (c.sha256 refresh) r s.refresh_tokens in
    (
      _,
      _,
      _,
      r,
      granted_to c registry s body m key secret caller given known found,
      passed,
      refl,
      refl,
      verify_with_scopes_refused c token admin later _ passed poor,
      ground (arith, stored, eq_refl (c.sha256 refresh)),
      refl,
      refl,
      refl,
    )
