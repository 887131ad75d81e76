-- ===== src/Jwt/Sample.antt =====
-- A platform for the tests: two characters encode one, and one claim set is known.
use Prim.Native.Char.{Char, code}
use text.Mathlib.TextEquality.{Char-path}
use jabr.Base.{
  String, ◌≡◌, refl, false, some, arith, if◌then◌else◌, ◌==◌, concat, has_char, Bool-cases, inl,
  inr, ap, get_or,
}
use jabr.Jwt.{Payload, Crypto}
use jabr.Jwt.Roundtrip.{IsCodec}

unfoldable pub encode : String → String
encode String.[] = String.[]
encode (String.◌∷◌ c s) =
    let rest = encode s in
    if code c == b'.'
    then String.◌∷◌ "a" (String.◌∷◌ "d" rest)
    else String.◌∷◌ "b" (String.◌∷◌ c rest)

abbrev shown : Char → Char → Char
shown flag c = if code flag == b'a' then "." else c

unfoldable pub decode : String → String
decode String.[] = String.[]
decode (String.◌∷◌ flag String.[]) = String.[]
decode (String.◌∷◌ flag (String.◌∷◌ c s)) = String.◌∷◌ (shown flag c) (decode s)

decode-encode : (s : String) → decode (encode s) ≡ s
unfolding encode decode
decode-encode String.[] = refl
decode-encode (String.◌∷◌ c s) = elim (Bool-cases (code c == b'.')) [
  | inl e ↦
      let dot : Char = "." in
      let same : dot ≡ c = Char-path dot c (ground (arith, e)) in
      rw e (ground (arith, same, decode-encode s))
  | inr e ↦ rw e (ap (λ l. String.◌∷◌ c l) (decode-encode s))
]

encode_plain : (s : String) → has_char b'.' (encode s) ≡ false
unfolding encode has_char
encode_plain String.[] = refl
encode_plain (String.◌∷◌ c s) = ground (arith, encode_plain s)

-- a platform that parses every payload to the one given
abbrev pub platform : Payload → Crypto
platform payload = record {
  secret = some "0123456789abcdef";
  access_ttl = 3600;
  refresh_ttl = 86400;
  sha256 = λ s. concat "digest of " s;
  hmac = λ key text. concat key text;
  encode = encode;
  decode = decode;
  print_header = λ alg key_id. concat alg key_id;
  parse_header = λ s. some (some "HS256");
  print_claims = λ claims. concat claims.sub (get_or claims.jti "");
  parse_claims = λ s. some payload;
}

pub platform-IsCodec : (payload : Payload) → IsCodec (platform payload)
platform-IsCodec payload = record {
  decode-encode = decode-encode;
  encode_plain = encode_plain;
  parse-print_header = λ key_id. refl;
}
