-- ===== src/OAuth/Replay.antt =====
-- A refresh token that is presented when it is no longer usable: src/security/oauth-server.ts.
use jabr.Base.{
  String, ◌≡◌, ◌≢◌, ◌&&◌, All, Map, map_values, refl, true, false, not, some, [], ◌∷◌, arith,
  str_eq, eq_iff, truthy, lookup-map_values,
}
use jabr.TokenStore.{
  RefreshTokenRecord, TokenStore, get, is_revoked, revoke_all_for_subject, revoke_if_of, as_revoked,
}
use jabr.TokenStore.Revocation.{is_revoked_of_revoked}
use jabr.Jwt.{Crypto}
use jabr.OAuth.{
  OAuthTokenRequest, OAuthTokenResponse, oauth_error, granted, refused, Moment,
  handle_refresh_token_grant, present, revoke_known, revoked_text,
}
use jabr.OAuth.Grants.{refresh_granted}

-- every token of the subject is revoked
abbrev pub AreRevoked : TokenStore → String → Type 0
AreRevoked s subject =
    All (λ e. (str_eq e.1.subject subject && not e.1.revoked) ≡ false) s.refresh_tokens

map_values-revoked :
    (subject : String) (m : Map RefreshTokenRecord)
    → All
        (λ e. (str_eq e.1.subject subject && not e.1.revoked) ≡ false)
        (map_values (revoke_if_of subject) m)
unfolding map_values
map_values-revoked subject [] = tt
map_values-revoked subject ((thumbprint, token) ∷ m) = (ground arith, map_values-revoked subject m)

revoke_all-AreRevoked :
    (s : TokenStore) (subject : String) → AreRevoked (revoke_all_for_subject s subject).0 subject
unfolding revoke_all_for_subject
revoke_all-AreRevoked s subject = map_values-revoked subject s.refresh_tokens

dead_refused :
    (c : Crypto) (s : TokenStore) (m : Moment) (raw : String)
    → is_revoked s (c.sha256 raw) m.now ≡ true
    → present c s m (some raw)
      ≡ (revoke_known s (get s (c.sha256 raw)), refused (oauth_error "invalid_grant" revoked_text))
unfolding present
dead_refused c s m raw dead = rw dead refl

-- A refresh token that is stored but revoked or expired is refused, and every token of its subject is
-- revoked then.
unusable_revokes_all :
    (c : Crypto) (s : TokenStore) (body : OAuthTokenRequest) (m : Moment) (raw : String)
    (existing : RefreshTokenRecord)
    → truthy body.refresh_token ≡ some raw
    → get s (c.sha256 raw) ≡ some existing
    → is_revoked s (c.sha256 raw) m.now ≡ true
    → (handle_refresh_token_grant c s body m ≡ (
      (revoke_all_for_subject s existing.subject).0,
      refused (oauth_error "invalid_grant" revoked_text),
    ))
      × AreRevoked (handle_refresh_token_grant c s body m).0 existing.subject
unfolding handle_refresh_token_grant revoke_known
unusable_revokes_all c s body m raw existing given found dead =
    let gone = revoke_all-AreRevoked s existing.subject in
    let done = dead_refused c s m raw dead in rw given (rw done (rw found (refl, gone)))

-- the record of a subject's token once the subject's tokens are revoked
get-revoke_all_for_subject :
    (s : TokenStore) (thumbprint subject : String) (r : RefreshTokenRecord)
    → get s thumbprint ≡ some r
    → r.subject ≡ subject
    → get (revoke_all_for_subject s subject).0 thumbprint ≡ some (as_revoked r)
unfolding revoke_all_for_subject get
get-revoke_all_for_subject s thumbprint subject r found owner =
    let law = lookup-map_values (revoke_if_of subject) thumbprint s.refresh_tokens in
    ground (arith, law, found, eq_iff r.subject subject, owner)

-- A refresh token that was exchanged and is presented again is refused, and every token of its
-- subject is revoked then, the one it was exchanged for among them. The two tokens have different
-- digests.
pub replay_revokes_family :
    (c : Crypto) (s s' : TokenStore) (body again : OAuthTokenRequest) (m later : Moment)
    (raw : String) (resp : OAuthTokenResponse)
    → truthy body.refresh_token ≡ some raw
    → truthy again.refresh_token ≡ some raw
    → c.sha256 raw ≢ c.sha256 resp.refresh_token
    → handle_refresh_token_grant c s body m ≡ (s', granted resp)
    → (old : RefreshTokenRecord) × (new : RefreshTokenRecord) × (get s (c.sha256 raw) ≡ some old)
      × (handle_refresh_token_grant c s' again later ≡ (
        (revoke_all_for_subject s' old.subject).0,
        refused (oauth_error "invalid_grant" revoked_text),
      ))
      × AreRevoked (handle_refresh_token_grant c s' again later).0 old.subject
      × (get (handle_refresh_token_grant c s' again later).0 (c.sha256 resp.refresh_token)
          ≡ some (as_revoked new))
replay_revokes_family c s s' body again m later raw resp given given' differ done =
    let (old, new, v, _, _, found, _, _, spent, next, owner, _, _) =
      refresh_granted c s s' body m raw resp given differ done in
    let dead =
      is_revoked_of_revoked s' (c.sha256 raw) later.now (λ r e. ground (arith, spent, e)) in
    let (refused_, all) =
      unusable_revokes_all c s' again later raw (as_revoked old) given' spent dead in
    let taken =
      get-revoke_all_for_subject s' (c.sha256 resp.refresh_token) old.subject new next owner in
    (old, new, found, refused_, all, rw refused_ taken)
