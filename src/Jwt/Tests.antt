-- ===== src/Jwt/Tests.antt =====
-- A token of one caller, on the platform of the tests.
use jabr.Base.{String, ◌≡◌, refl, some, [], ◌∷◌, arith}
use jabr.World.{ok}
use jabr.Jwt.{Claims, Crypto, VerifiedToken, sign_compact, get_secret, verify_token}
use jabr.Jwt.Roundtrip.{payload_of, verify_token-sign_compact}
use jabr.Jwt.Sample.{platform, platform-IsCodec}

abbrev claims : Claims
claims = record {
  sub = "ci";
  scope = "a2a:read a2a:write";
  allowed_agents = "build" ∷ [];
  token_type = "access";
  iat = 100;
  exp = 3700;
  jti = some "id.1";
}

abbrev c : Crypto
c = platform (payload_of claims)

abbrev key : String
key = "0123456789abcdef"

verify_token-sign_compact_example :
    verify_token c (sign_compact c key claims) 200
    ≡ ok (record {
      claims = claims;
      raw = sign_compact c key claims;
      thumbprint = c.sha256 (sign_compact c key claims);
    })
unfolding get_secret
verify_token-sign_compact_example =
    verify_token-sign_compact c (platform-IsCodec (payload_of claims)) claims key 200 refl refl refl
      (omega arith)

abbrev verified : VerifiedToken
unfolding sign_compact
verified = record {
  claims = claims;
  raw = sign_compact c key claims;
  thumbprint = c.sha256 (sign_compact c key claims);
}
