-- ===== src/Jwt/Roundtrip.antt =====
-- Minting and verifying tokens: src/security/jwt.ts.
use Prim.Native.String
use mathlib.Core.Path.{ap₂}
use text.Mathlib.TextLemmas.{nil-append, cons-append, append_assoc}
use jabr.Base.{
  ℕ, ◌<◌, String, ◌≡◌, refl, true, false, ◌||◌, some, [], ◌∷◌, arith, leb, str_eq, eq_refl, concat,
  ap, ◌∙◌, split_on, split_on_from, split_on_from-append, split_on_from_last, has_char,
}
use jabr.World.{ok}
use jabr.Jwt.{
  Claims, Payload, Crypto, get_secret, kid, dotted, signing_input, sign_compact, verify_token,
  check_claims,
}

-- What the platform documents of base64url and of JSON on a header.
pub record IsCodec (c : Crypto) : Type 0 where
  pub decode-encode : (s : String) → c.decode (c.encode s) ≡ s
  pub encode_plain : (s : String) → has_char b'.' (c.encode s) ≡ false
  pub parse-print_header :
      (key_id : String) → c.parse_header (c.print_header "HS256" key_id) ≡ some (some "HS256")

abbrev pub payload_of : Claims → Payload
payload_of claims = record {
  sub = some claims.sub;
  scope = some claims.scope;
  allowed_agents = some claims.allowed_agents;
  token_type = some claims.token_type;
  iat = some claims.iat;
  exp = some claims.exp;
  jti = claims.jti;
}

-- a text and what a dot sets off behind it
dotted_path : (a b : String) → dotted a b ≡ String.◌++◌ a (String.◌∷◌ "." b)
dotted_path a b = rw (cons-append "." String.[] b, nil-append b) refl

dotted_twice :
    (a b d : String)
    → dotted (dotted a b) d ≡ String.◌++◌ a (String.◌∷◌ "." (String.◌++◌ b (String.◌∷◌ "." d)))
dotted_twice a b d =
    dotted_path (dotted a b) d
    ∙ ap (λ l. String.◌++◌ l (String.◌∷◌ "." d)) (dotted_path a b)
    ∙ append_assoc a (String.◌∷◌ "." b) (String.◌∷◌ "." d)
    ∙ ap (λ l. String.◌++◌ a l) (cons-append "." b (String.◌∷◌ "." d))

pub split_on-dotted :
    (a b d : String)
    → has_char b'.' a ≡ false
    → has_char b'.' b ≡ false
    → has_char b'.' d ≡ false
    → split_on b'.' (dotted (dotted a b) d) ≡ a ∷ b ∷ d ∷ []
unfolding split_on
split_on-dotted a b d pa pb pd =
    ap (λ l. split_on_from b'.' "" l) (dotted_twice a b d)
    ∙ split_on_from-append b'.' "." "" a (String.◌++◌ b (String.◌∷◌ "." d)) refl pa
    ∙ ap₂ (λ x l. x ∷ l) (nil-append a)
        (split_on_from-append b'.' "." "" b d refl pb
          ∙ ap₂ (λ x l. x ∷ l) (nil-append b)
              (split_on_from_last b'.' "" d pd ∙ ap (λ x. x ∷ []) (nil-append d)))

abbrev pub IsTokenType : String → Type 0
IsTokenType t = (str_eq t "access" || str_eq t "refresh") ≡ true

check_claims-payload_of :
    (claims : Claims) (now : ℕ)
    → IsTokenType claims.token_type
    → now < claims.exp
    → check_claims (payload_of claims) now ≡ ok claims
unfolding check_claims
check_claims-payload_of claims now known alive =
    let later : leb claims.exp now ≡ false = ground (arith, alive) in rw known (rw later refl)

-- On a platform that decodes what it encodes, in segments without dots, and parses what it prints, a
-- compact token is verified before its expiry, and gives the claims that were signed.
pub verify_token-sign_compact :
    (c : Crypto) (codec : IsCodec c) (claims : Claims) (secret : String) (now : ℕ)
    → c.parse_claims (c.print_claims claims) ≡ some (payload_of claims)
    → get_secret c ≡ ok secret
    → IsTokenType claims.token_type
    → now < claims.exp
    → verify_token c (sign_compact c secret claims) now
      ≡ ok (record {
        claims = claims;
        raw = sign_compact c secret claims;
        thumbprint = c.sha256 (sign_compact c secret claims);
      })
unfolding verify_token sign_compact signing_input
verify_token-sign_compact c codec claims secret now printed found known alive =
    let key_id = kid c secret in
    let header = c.print_header "HS256" key_id in
    let payload = c.print_claims claims in
    let input = dotted (c.encode header) (c.encode payload) in
    let signature = c.hmac secret input in
    let parts =
      split_on-dotted (c.encode header) (c.encode payload) (c.encode signature)
        (codec.encode_plain header) (codec.encode_plain payload) (codec.encode_plain signature) in
    rw parts (
      rw (codec.decode-encode header) (
        rw (codec.parse-print_header key_id) (
          rw (codec.decode-encode payload) (
            rw printed (
              rw found (
                rw (codec.decode-encode signature) (
                  rw (eq_refl signature)
                    (rw (check_claims-payload_of claims now known alive) refl))))))))
