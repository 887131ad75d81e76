-- ===== src/Jwt.antt =====
-- JSON web tokens: src/security/jwt.ts. `Crypto` stands for the platform: the secret in the
-- environment, SHA-256 and HMAC, base64url, JSON. `now` is `Math.floor(Date.now() / 1000)`, and the
-- new id of a token is an argument.
pub mod Roundtrip
pub mod Sound
pub mod Sample
mod Tests
use jabr.Base.{
  ℕ, ◌+◌, String, Bool, true, false, not, ◌&&◌, ◌||◌, Option, none, some, List, [], ◌∷◌, ◌++◌, ltb,
  leb, if◌then◌else◌, str_eq, filter, any, all, includes, count, concat, join, split_on,
  split_spaces, first_chars,
}
use jabr.World.{Result, ok, err, bind}

pub record Claims : Type 0 where
  pub sub : String
  pub scope : String
  pub allowed_agents : List String
  pub token_type : String
  pub iat : ℕ
  pub exp : ℕ
  pub jti : Option String

-- A parsed payload: a field is `none` where the claim is missing or of another type (the text of the
-- error for a `token_type` of another type is not kept).
pub record Payload : Type 0 where
  pub sub : Option String
  pub scope : Option String
  pub allowed_agents : Option (List String)
  pub token_type : Option String
  pub iat : Option ℕ
  pub exp : Option ℕ
  pub jti : Option String

pub record Crypto : Type 0 where
  pub secret : Option String
  pub access_ttl : ℕ
  pub refresh_ttl : ℕ
  -- in hexadecimal
  pub sha256 : String → String
  pub hmac : String → String → String
  pub encode : String → String
  pub decode : String → String
  pub print_header : String → String → String
  -- the `alg` of a header, where it is a text
  pub parse_header : String → Option (Option String)
  pub print_claims : Claims → String
  pub parse_claims : String → Option Payload

pub record VerifiedToken : Type 0 where
  pub claims : Claims
  pub raw : String
  pub thumbprint : String

abbrev pub no_secret : String
no_secret = "Error: JABR_JWT_SECRET (or JABR_X402_HMAC_SECRET) must be set and at least 16 chars"

abbrev long_enough : Option String → Result String
long_enough none = err no_secret
long_enough (some secret) = if ltb (count secret) 16 then err no_secret else ok secret

-- `getSecret`
unfoldable pub get_secret : Crypto → Result String
get_secret c = long_enough c.secret

-- the first 8 bytes of the digest, in hexadecimal
unfoldable pub kid : Crypto → String → String
unfolding first_chars
kid c secret = first_chars 16 (c.sha256 secret)

abbrev pub dotted : String → String → String
dotted a b = concat a (concat "." b)

unfoldable pub signing_input : Crypto → String → Claims → String
signing_input c key_id claims =
    dotted (c.encode (c.print_header "HS256" key_id)) (c.encode (c.print_claims claims))

unfoldable pub sign_compact : Crypto → String → Claims → String
unfolding signing_input kid
sign_compact c secret claims =
    let input = signing_input c (kid c secret) claims in
    dotted input (c.encode (c.hmac secret input))

unfoldable pub access_claims : Crypto → String → List String → List String → ℕ → String → Claims
unfolding join
access_claims c subject scopes agents now jti = record {
  sub = subject;
  scope = join " " scopes;
  allowed_agents = agents;
  token_type = "access";
  iat = now;
  exp = now + c.access_ttl;
  jti = some jti;
}

abbrev pub refresh_claims : Crypto → String → List String → ℕ → String → Claims
refresh_claims c subject agents now jti = record {
  sub = subject;
  scope = "a2a:read";
  allowed_agents = agents;
  token_type = "refresh";
  iat = now;
  exp = now + c.refresh_ttl;
  jti = some jti;
}

unfoldable pub mint : Crypto → Claims → Result String
unfolding get_secret sign_compact
mint c claims = bind (get_secret c) (λ secret. ok (sign_compact c secret claims))

unfoldable pub mint_access_token :
    Crypto → String → List String → List String → ℕ → String → Result String
unfolding mint access_claims
mint_access_token c subject scopes agents now jti =
    mint c (access_claims c subject scopes agents now jti)

unfoldable pub mint_refresh_token : Crypto → String → List String → ℕ → String → Result String
unfolding mint
mint_refresh_token c subject agents now jti = mint c (refresh_claims c subject agents now jti)

abbrev pub invalid_jwt : String
invalid_jwt = "Error: Invalid JWT"

-- the three segments; further ones are not looked at
abbrev pub segments : List String → Result (String × String × String)
segments (h ∷ p ∷ s ∷ rest) = ok (h, p, s)
segments (h ∷ p ∷ []) = err invalid_jwt
segments (h ∷ []) = err invalid_jwt
segments [] = err invalid_jwt

abbrev is_hs256 : Option (Option String) → Bool
is_hs256 none = false
is_hs256 (some none) = false
is_hs256 (some (some alg)) = str_eq alg "HS256"

abbrev or_invalid {ℓ} : {A : Type ℓ} → Option A → Result A
or_invalid none = err invalid_jwt
or_invalid (some a) = ok a

-- the header is checked before the payload is read
abbrev pub read_payload : Crypto → String → String → Result Payload
read_payload c header payload =
    if is_hs256 (c.parse_header (c.decode header))
    then or_invalid (c.parse_claims (c.decode payload))
    else err invalid_jwt

abbrev pub both_texts : Option String → Option String → Result (String × String)
both_texts (some a) (some b) = ok (a, b)
both_texts (some a) none = err invalid_jwt
both_texts none b = err invalid_jwt

abbrev pub both_numbers : Option ℕ → Option ℕ → Result (ℕ × ℕ)
both_numbers (some a) (some b) = ok (a, b)
both_numbers (some a) none = err invalid_jwt
both_numbers none b = err invalid_jwt

abbrev pub type_of : Option String → Result String
type_of none = err "Error: Invalid token_type: undefined"
type_of (some t) =
    if str_eq t "access" || str_eq t "refresh"
    then ok t
    else err (concat "Error: Invalid token_type: " t)

abbrev agents_or_none : Option (List String) → List String
agents_or_none none = []
agents_or_none (some agents) = agents

-- the required claims and the expiry
unfoldable pub check_claims : Payload → ℕ → Result Claims
check_claims p now = bind (both_texts p.sub p.scope) λ (sub, scope).
    bind (type_of p.token_type) λ token_type. bind (both_numbers p.iat p.exp) λ (iat, exp).
      if leb exp now
      then err "Error: Expiration time (exp) check failed"
      else ok (record {
        sub = sub;
        scope = scope;
        allowed_agents = agents_or_none p.allowed_agents;
        token_type = token_type;
        iat = iat;
        exp = exp;
        jti = p.jti;
      })

abbrev pub check_signature : Crypto → String → String → String → String → Result (Unit {0})
check_signature c secret header payload signature =
    if str_eq (c.decode signature) (c.hmac secret (dotted header payload))
    then ok tt
    else err "Error: signature verification failed"

unfoldable pub verify_token : Crypto → String → ℕ → Result VerifiedToken
unfolding split_on get_secret check_claims
verify_token c token now = bind (segments (split_on b'.' token)) λ (header, payload, signature).
    bind (read_payload c header payload) λ p. bind (get_secret c) λ secret.
      bind (check_signature c secret header payload signature) λ _.
        bind (check_claims p now)
          λ claims. ok (record { claims = claims; raw = token; thumbprint = c.sha256 token })

-- the words of a scope claim
unfoldable pub scope_words : String → List String
unfolding split_spaces
scope_words scope = filter (λ w. not (str_eq w "")) (split_spaces scope)

abbrev pub default_scopes : List String
default_scopes = "a2a:read" ∷ "a2a:write" ∷ "a2a:stream" ∷ []

abbrev pub valid_scopes : List String
valid_scopes = "a2a:read" ∷ "a2a:write" ∷ "a2a:stream" ∷ "a2a:admin" ∷ []

unfoldable pub parse_scopes : String → List String
unfolding scope_words
parse_scopes scope = filter (includes valid_scopes) (scope_words scope)

unfoldable pub has_scope : List String → Claims → Bool
unfolding scope_words
has_scope required claims = any (includes (scope_words claims.scope)) required

as_set : List String → List String → List String
as_set seen [] = seen
as_set seen (w ∷ ws) = as_set (if includes seen w then seen else seen ++ w ∷ []) ws

pub insufficient : List String → Claims → String
unfolding as_set join
insufficient required claims = concat "Error: Insufficient scope: required one of [" (
    concat (join ", " required)
      (concat "], got [" (concat (join ", " (as_set [] (scope_words claims.scope))) "]")))

unfoldable pub verify_with_scopes : Crypto → String → List String → ℕ → Result VerifiedToken
unfolding verify_token has_scope insufficient
verify_with_scopes c token required now = bind (verify_token c token now) λ verified.
    if has_scope required verified.claims
    then ok verified
    else err (insufficient required verified.claims)
