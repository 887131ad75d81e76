-- ===== src/TokenStore/Sweep.antt =====
-- Expiry, in src/security/token-store.ts.
use jabr.Base.{
  ℕ, ◌+◌, String, ◌≡◌, refl, true, false, Option, none, some, [], ◌∷◌, arith, not, lookup,
  HasDistinctKeys, lookup-filter_entries, filter_entries, values, length, filter, Map, ◌∙◌, keep_if,
  ltb,
}
use jabr.TokenStore.{RefreshTokenRecord, TokenStore, get, is_revoked, sweep, has_lapsed}

length-values-sweep :
    (now : ℕ) (m : Map RefreshTokenRecord)
    → length (values (filter_entries (λ tp t. not (has_lapsed now t)) m))
        + length (filter (has_lapsed now) (values m))
      ≡ length (values m)
unfolding values filter_entries
length-values-sweep now [] = refl
length-values-sweep now ((j, t) ∷ m) = ground (arith, length-values-sweep now m)

keep_if-not_lapsed :
    (now : ℕ) (o : Option RefreshTokenRecord)
    → keep_if (λ t. not (has_lapsed now t)) o ≡ keep_if (λ t. ltb now t.expires_at) o
keep_if-not_lapsed now none = refl
keep_if-not_lapsed now (some t) = ground arith

-- A sweep keeps exactly the tokens that expire later than now, unchanged, and returns how many
-- others there were. The keys of the table are assumed distinct, as a `Map`'s.
sweep_lem :
    (s : TokenStore) (thumbprint : String) (now : ℕ)
    → HasDistinctKeys s.refresh_tokens
    → (get (sweep s now).0 thumbprint ≡ keep_if (λ t. ltb now t.expires_at) (get s thumbprint))
      × (length (values (sweep s now).0.refresh_tokens) + (sweep s now).1
          ≡ length (values s.refresh_tokens))
unfolding get sweep
sweep_lem s thumbprint now distinct = (
  lookup-filter_entries thumbprint (λ t. not (has_lapsed now t)) s.refresh_tokens distinct
      ∙ keep_if-not_lapsed now (lookup thumbprint s.refresh_tokens),
  length-values-sweep now s.refresh_tokens,
)

-- A token in its last second is accepted before a sweep and refused after it.
sweep_drops_accepted :
    (s : TokenStore) (thumbprint : String) (token : RefreshTokenRecord)
    → HasDistinctKeys s.refresh_tokens
    → get s thumbprint ≡ some token
    → token.revoked ≡ false
    → (is_revoked s thumbprint token.expires_at ≡ false)
      × (is_revoked (sweep s token.expires_at).0 thumbprint token.expires_at ≡ true)
unfolding get sweep is_revoked
sweep_drops_accepted s thumbprint token distinct found live = ground (
  arith,
  lookup-filter_entries thumbprint (λ t. not (has_lapsed token.expires_at t)) s.refresh_tokens
      distinct,
)
