-- ===== src/OAuth/Grants.antt =====
-- What a granted refresh has passed and leaves: src/security/oauth-server.ts.
use jabr.Base.{
  ◌≤◌, String, ◌≡◌, ◌≢◌, refl, false, Option, none, some, List, arith, str_eq, eq_iff, eq_refl,
  truthy, Bool-cases, inl, inr, lookup-insert, insert,
}
use jabr.World.{Result, ok, err}
use jabr.TokenStore.{RefreshTokenRecord, TokenStore, get, rotate, is_revoked, successor, as_revoked}
use jabr.TokenStore.Revocation.{rotate-eq-some, is_revoked-eq-false}
use jabr.Jwt.{Claims, Crypto, VerifiedToken, verify_token, parse_scopes}
use jabr.OAuth.{
  OAuthTokenRequest, OAuthTokenResponse, granted, Moment, handle_refresh_token_grant, present,
  with_token, exchange, rotated, access_granted, or_default,
}

module _ (c : Crypto) (s' : TokenStore) (resp : OAuthTokenResponse) where
  access_granted-eq :
      (s : TokenStore) (refresh : String) (scopes : List String) (r : Result String)
      → access_granted c s refresh scopes r ≡ (s', granted resp)
      → (s ≡ s') × (resp.refresh_token ≡ refresh)
  unfolding access_granted
  access_granted-eq s refresh scopes (err e) h = cc
  access_granted-eq s refresh scopes (ok access) h = ground (arith, h)

  abbrev Rotated : String → TokenStore × Option RefreshTokenRecord → Type 0
  Rotated refresh p =
      (token : RefreshTokenRecord) × (p.1 ≡ some token)
      × (p.0 ≡ s')
      × (resp.refresh_token ≡ refresh)

  rotated-eq :
      (claims : Claims) (refresh : String) (m : Moment) (p : TokenStore × Option RefreshTokenRecord)
      → rotated c claims refresh m p ≡ (s', granted resp)
      → Rotated refresh p
  unfolding rotated
  rotated-eq claims refresh m (s, none) h = cc
  rotated-eq claims refresh m (s, some token) h =
      let (same, given) =
        access_granted-eq s refresh (or_default (parse_scopes claims.scope)) _ h in
      (token, refl, same, given)

  exchange-eq :
      (s : TokenStore) (old : String) (claims : Claims) (m : Moment) (r : Result String)
      → exchange c s old claims m r ≡ (s', granted resp)
      → Rotated resp.refresh_token (rotate s old (c.sha256 resp.refresh_token) c.refresh_ttl m.now)
  unfolding exchange
  exchange-eq s old claims m (err e) h = cc
  exchange-eq s old claims m (ok refresh) h =
      let (token, done, same, given) = rotated-eq claims refresh m _ h in
      (token, rw given done, rw given same, refl)

  with_token-eq :
      (s : TokenStore) (old : String) (m : Moment) (r : Result VerifiedToken)
      → with_token c s old m r ≡ (s', granted resp)
      → (v : VerifiedToken) × (r ≡ ok v)
        × (v.claims.token_type ≡ "refresh")
        × Rotated resp.refresh_token
            (rotate s old (c.sha256 resp.refresh_token) c.refresh_ttl m.now)
  unfolding with_token
  with_token-eq s old m (err e) h = cc
  with_token-eq s old m (ok v) h = elim (Bool-cases (str_eq v.claims.token_type "refresh")) [
    | inr other ↦ absurd (ground (arith, h, other))
    | inl known ↦ (
      v,
      refl,
      ground (arith, known, eq_iff v.claims.token_type "refresh"),
      exchange-eq s old v.claims m _ (rw known at h),
    )
  ]

  present-eq :
      (s : TokenStore) (m : Moment) (raw : String)
      → present c s m (some raw) ≡ (s', granted resp)
      → (is_revoked s (c.sha256 raw) m.now ≡ false)
        × ((v : VerifiedToken) × (verify_token c raw m.now ≡ ok v)
            × (v.claims.token_type ≡ "refresh")
            × Rotated resp.refresh_token
                (rotate s (c.sha256 raw) (c.sha256 resp.refresh_token) c.refresh_ttl m.now))
  unfolding present
  present-eq s m raw h = elim (Bool-cases (is_revoked s (c.sha256 raw) m.now)) [
    | inl dead ↦ absurd (ground (arith, h, dead))
    | inr live ↦ (live, with_token-eq s (c.sha256 raw) m _ (rw live at h))
  ]

-- A refresh is granted only for a valid refresh token whose record is stored, not revoked and not
-- expired. It leaves the old record revoked, and the record of the new token for the same subject and
-- the same agents, as its child, if the two tokens have different digests.
pub refresh_granted :
    (c : Crypto) (s s' : TokenStore) (body : OAuthTokenRequest) (m : Moment) (raw : String)
    (resp : OAuthTokenResponse)
    → truthy body.refresh_token ≡ some raw
    → c.sha256 raw ≢ c.sha256 resp.refresh_token
    → handle_refresh_token_grant c s body m ≡ (s', granted resp)
    → (old : RefreshTokenRecord) × (new : RefreshTokenRecord) × (v : VerifiedToken) × (verify_token
          c raw m.now
        ≡ ok v)
      × (v.claims.token_type ≡ "refresh")
      × (get s (c.sha256 raw) ≡ some old)
      × (old.revoked ≡ false)
      × (m.now ≤ old.expires_at)
      × (get s' (c.sha256 raw) ≡ some (as_revoked old))
      × (get s' (c.sha256 resp.refresh_token) ≡ some new)
      × (new.subject ≡ old.subject)
      × (new.agents ≡ old.agents)
      × (new.parent ≡ some (c.sha256 raw))
unfolding handle_refresh_token_grant get
refresh_granted c s s' body m raw resp given differ h =
    let (live, (v, verified, typed, (token, done, same, _))) =
      present-eq c s' resp s m raw (rw given at h) in
    let old_key = c.sha256 raw in
    let new_key = c.sha256 resp.refresh_token in
    let (old, found, issued, tokens) =
      rotate-eq-some s old_key new_key c.refresh_ttl m.now token done in
    let (stored, there, fresh, in_time) = is_revoked-eq-false s old_key m.now live in
    let inner = insert old_key (as_revoked old) s.refresh_tokens in
    let next = successor old old_key new_key c.refresh_ttl m.now in
    let added = lookup-insert new_key new_key next inner in
    let kept = lookup-insert new_key old_key next inner in
    let marked = lookup-insert old_key old_key (as_revoked old) s.refresh_tokens in
    let alike : stored ≡ old = ground (arith, there, found) in
    (
      old,
      next,
      v,
      verified,
      typed,
      found,
      rw (← alike) fresh,
      rw (← alike) in_time,
      rw (← same)
          (ground (arith, tokens, kept, marked, eq_refl old_key, eq_iff new_key old_key, differ)),
      rw (← same) (ground (arith, tokens, added, eq_refl new_key)),
      refl,
      refl,
      refl,
    )
