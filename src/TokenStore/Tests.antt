-- ===== src/TokenStore/Tests.antt =====
-- The refresh tokens of src/security/token-store.ts on concrete tables.
use jabr.Base.{
  String, ◌≡◌, ◌≢◌, refl, true, false, none, some, List, [], ◌∷◌, arith, lookup, str_eq, eq_iff,
}
use jabr.TokenStore.{RefreshTokenRecord, TokenStore, get, rotate, is_revoked}
use jabr.TokenStore.Revocation.{
  Op, store_op, rotate_op, revoke_all_op, sweep_op, run, rotate_once, revoked_forever,
}

abbrev live : RefreshTokenRecord
live = record {
  thumbprint = "old";
  subject = "ann";
  agents = "oracle" ∷ [];
  expires_at = 50;
  revoked = false;
  parent = none;
}

abbrev dead : RefreshTokenRecord
dead = record live { revoked = true; thumbprint = "dead" }

abbrev two_tokens : TokenStore
two_tokens = record { refresh_tokens = ("old", live) ∷ ("dead", dead) ∷ [] }

abbrev rotated : RefreshTokenRecord
rotated = record live { thumbprint = "new"; expires_at = 110; parent = some "old" }

differs : (a b : String) → str_eq a b ≡ false → a ≢ b
differs a b h = ground (arith, eq_iff a b)

rotate_once_example :
    (get (rotate two_tokens "old" "new" 100 10).0 "new" ≡ some rotated)
    × (rotated.parent ≡ some "old")
    × (is_revoked (rotate two_tokens "old" "new" 100 10).0 "old" 20 ≡ true)
    × ((rotate (rotate two_tokens "old" "new" 100 10).0 "old" "other" 100 20).1 ≡ none)
unfolding rotate get lookup
rotate_once_example =
    rotate_once two_tokens "old" "new" "other" 100 10 20 100 rotated (differs _ _ refl) refl

abbrev calls : List Op
calls =
    store_op "third" "bob" ("fixer" ∷ []) 60 20
    ∷ rotate_op "old" "new" 60 21
    ∷ revoke_all_op "bob"
    ∷ sweep_op 70
    ∷ []

revoked_forever_example : is_revoked (run two_tokens calls) "dead" 80 ≡ true
unfolding get lookup
revoked_forever_example =
    revoked_forever "dead" two_tokens calls dead 80 (ground arith) refl refl
      (differs _ _ refl, (differs _ _ refl, (tt, (tt, tt))))
