-- ===== src/TokenStore.antt =====
-- Refresh tokens, their rotation and revocation: src/security/token-store.ts. `now` is
-- `Math.floor(Date.now() / 1000)`. Lifetimes are natural numbers; a `Map` keeps the records, and a
-- write to a record's field is a write to its entry.
pub mod Revocation
pub mod Sweep
mod Tests
use jabr.Base.{
  ℕ, ◌+◌, String, Bool, true, false, not, Option, none, some, List, [], ◌∷◌, ltb, leb, max,
  if◌then◌else◌, length, filter, str_eq, Map, lookup, insert, map_values, filter_entries, values,
}

pub record RefreshTokenRecord : Type 0 where
  pub thumbprint : String
  pub subject : String
  pub agents : List String
  pub expires_at : ℕ
  pub revoked : Bool
  pub parent : Option String

pub record TokenStore : Type 0 where
  pub refresh_tokens : Map RefreshTokenRecord

abbrev pub empty_store : TokenStore
empty_store = record { refresh_tokens = [] }

unfoldable pub store :
    TokenStore → String → String → List String → ℕ → ℕ → TokenStore × RefreshTokenRecord
store s thumbprint subject agents ttl_seconds now =
    let token : RefreshTokenRecord = record {
      thumbprint = thumbprint;
      subject = subject;
      agents = agents;
      expires_at = now + max 0 ttl_seconds;
      revoked = false;
      parent = none;
    } in
    (record s { refresh_tokens = insert thumbprint token s.refresh_tokens }, token)

unfoldable pub get : TokenStore → String → Option RefreshTokenRecord
get s thumbprint = lookup thumbprint s.refresh_tokens

abbrev pub as_revoked : RefreshTokenRecord → RefreshTokenRecord
as_revoked token = record token { revoked = true }

-- the record that `rotate` stores, linked to its parent
abbrev pub successor : RefreshTokenRecord → String → String → ℕ → ℕ → RefreshTokenRecord
successor old old_thumbprint new_thumbprint ttl_seconds now = record {
  thumbprint = new_thumbprint;
  subject = old.subject;
  agents = old.agents;
  expires_at = now + ttl_seconds;
  revoked = false;
  parent = some old_thumbprint;
}

abbrev pub rotate_record :
    TokenStore
    → String
    → String
    → ℕ
    → ℕ
    → Option RefreshTokenRecord
    → TokenStore × Option RefreshTokenRecord
rotate_record s old_thumbprint new_thumbprint ttl_seconds now none = (s, none)
rotate_record s old_thumbprint new_thumbprint ttl_seconds now (some old) =
    if old.revoked then (s, none) else (
      record s {
        refresh_tokens =
            insert new_thumbprint (successor old old_thumbprint new_thumbprint ttl_seconds now)
              (insert old_thumbprint (as_revoked old) s.refresh_tokens);
      },
      some (successor old old_thumbprint new_thumbprint ttl_seconds now),
    )

unfoldable pub rotate :
    TokenStore → String → String → ℕ → ℕ → TokenStore × Option RefreshTokenRecord
unfolding get
rotate s old_thumbprint new_thumbprint ttl_seconds now =
    rotate_record s old_thumbprint new_thumbprint ttl_seconds now (get s old_thumbprint)

abbrev pub revoke_record : TokenStore → String → Option RefreshTokenRecord → TokenStore × Bool
revoke_record s thumbprint none = (s, false)
revoke_record s thumbprint (some token) =
    (record s { refresh_tokens = insert thumbprint (as_revoked token) s.refresh_tokens }, true)

pub revoke : TokenStore → String → TokenStore × Bool
unfolding get
revoke s thumbprint = revoke_record s thumbprint (get s thumbprint)

abbrev pub revoke_if_of : String → RefreshTokenRecord → RefreshTokenRecord
revoke_if_of subject token = if str_eq token.subject subject then as_revoked token else token

unfoldable pub revoke_all_for_subject : TokenStore → String → TokenStore × ℕ
revoke_all_for_subject s subject = (
  record s { refresh_tokens = map_values (revoke_if_of subject) s.refresh_tokens },
  length (filter (λ token. str_eq token.subject subject) (values s.refresh_tokens)),
)

abbrev pub is_unusable : ℕ → Option RefreshTokenRecord → Bool
is_unusable now none = true
is_unusable now (some token) =
    if token.revoked then true else if ltb token.expires_at now then true else false

unfoldable pub is_revoked : TokenStore → String → ℕ → Bool
unfolding get
is_revoked s thumbprint now = is_unusable now (get s thumbprint)

abbrev pub has_lapsed : ℕ → RefreshTokenRecord → Bool
has_lapsed now token = leb token.expires_at now

pub sweep : TokenStore → ℕ → TokenStore × ℕ
sweep s now = (
  record s {
    refresh_tokens =
        filter_entries (λ thumbprint token. not (has_lapsed now token)) s.refresh_tokens;
  },
  length (filter (has_lapsed now) (values s.refresh_tokens)),
)

pub size : TokenStore → ℕ → ℕ
size s now = length (filter (λ token. leb now token.expires_at) (values s.refresh_tokens))
