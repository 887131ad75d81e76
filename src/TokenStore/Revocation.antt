-- ===== src/TokenStore/Revocation.antt =====
-- What revoking and rotating promise, in src/security/token-store.ts.
use jabr.Base.{
  ℕ, ◌≤◌, String, ◌≡◌, ◌≢◌, refl, true, false, Option, none, some, List, [], ◌∷◌, arith, eq_iff,
  eq_refl, lookup, lookup-insert, lookup-map_values, HasDistinctKeys, lookup-filter_entries,
  insert-HasDistinctKeys, map_values-HasDistinctKeys, filter_entries-HasDistinctKeys, not, All,
  Option-cases, inl, inr, insert, Bool-cases, Map, ◌⊎◌,
}
use jabr.TokenStore.{
  RefreshTokenRecord, TokenStore, store, get, rotate, revoke, revoke_all_for_subject, is_revoked,
  sweep, revoke_if_of, has_lapsed, successor, as_revoked,
}

pub rotate-eq-some :
    (s : TokenStore) (old new : String) (ttl now : ℕ) (token : RefreshTokenRecord)
    → (rotate s old new ttl now).1 ≡ some token
    → (r : RefreshTokenRecord) × (lookup old s.refresh_tokens ≡ some r)
      × (token ≡ successor r old new ttl now)
      × ((rotate s old new ttl now).0.refresh_tokens
          ≡ insert new (successor r old new ttl now) (insert old (as_revoked r) s.refresh_tokens))
unfolding rotate
rotate-eq-some s old new ttl now token done = elim (Option-cases (lookup old s.refresh_tokens)) [
  | inl e ↦ absurd (ground arith)
  | inr (r, e) ↦ (r, e, ground arith, ground arith)
]

rotate_refused :
    (s : TokenStore) (old other : String) (ttl later : ℕ) (r : RefreshTokenRecord)
    → lookup old s.refresh_tokens ≡ some r
    → r.revoked ≡ true
    → (is_revoked s old later ≡ true) × ((rotate s old other ttl later).1 ≡ none)
unfolding rotate is_revoked
rotate_refused s old other ttl later r found spent = ground arith

-- a token that is revoked, or not there, is refused
pub is_revoked_of_revoked :
    (s : TokenStore) (thumbprint : String) (now : ℕ)
    → ((r : RefreshTokenRecord) → get s thumbprint ≡ some r → r.revoked ≡ true)
    → is_revoked s thumbprint now ≡ true
unfolding is_revoked get
is_revoked_of_revoked s thumbprint now h =
    elim (Option-cases (lookup thumbprint s.refresh_tokens)) [
      | inl e ↦ ground (arith, e)
      | inr (r, e) ↦ let dead = h r e in ground (arith, e, dead)
    ]

-- what a token that is not revoked is
pub is_revoked-eq-false :
    (s : TokenStore) (thumbprint : String) (now : ℕ)
    → is_revoked s thumbprint now ≡ false
    → (r : RefreshTokenRecord) × (get s thumbprint ≡ some r)
      × (r.revoked ≡ false)
      × (now ≤ r.expires_at)
unfolding is_revoked get
is_revoked-eq-false s thumbprint now live =
    elim (Option-cases (lookup thumbprint s.refresh_tokens)) [
      | inl e ↦ absurd (ground (arith, live, e))
      | inr (r, e) ↦ (r, e, ground (arith, live, e), ground (arith, live, e))
    ]

-- If a rotation to a different thumbprint succeeds, the new record is stored and names the old one
-- as its parent, the old token counts as revoked at every time, and rotating it again gives nothing.
pub rotate_once :
    (s : TokenStore) (old_thumbprint new_thumbprint other : String) (ttl now later ttl' : ℕ)
    (token : RefreshTokenRecord)
    → old_thumbprint ≢ new_thumbprint
    → (rotate s old_thumbprint new_thumbprint ttl now).1 ≡ some token
    → (get (rotate s old_thumbprint new_thumbprint ttl now).0 new_thumbprint ≡ some token)
      × (token.parent ≡ some old_thumbprint)
      × (is_revoked (rotate s old_thumbprint new_thumbprint ttl now).0 old_thumbprint later ≡ true)
      × ((rotate
            (rotate s old_thumbprint new_thumbprint ttl now).0
            old_thumbprint
            other
            ttl'
            later).1
          ≡ none)
unfolding get
rotate_once s old new other ttl now later ttl' token differ done =
    let s' = (rotate s old new ttl now).0 in
    let (r, found, same, tokens) = rotate-eq-some s old new ttl now token done in
    let inner = insert old (as_revoked r) s.refresh_tokens in
    let added = lookup-insert new new (successor r old new ttl now) inner in
    let kept = lookup-insert new old (successor r old new ttl now) inner in
    let marked = lookup-insert old old (as_revoked r) s.refresh_tokens in
    let spent : lookup old s'.refresh_tokens ≡ some (as_revoked r) =
      ground (arith, tokens, kept, marked, eq_refl old, eq_iff new old) in
    let (refused, again) = rotate_refused s' old other ttl' later (as_revoked r) spent refl in
    (ground (arith, added, eq_refl new), cc, refused, again)

pub data Op : Type 0 where
  store_op : (thumbprint subject : String) (agents : List String) (ttl now : ℕ) → Op
  rotate_op : (old_thumbprint new_thumbprint : String) (ttl now : ℕ) → Op
  revoke_op : (thumbprint : String) → Op
  revoke_all_op : (subject : String) → Op
  sweep_op : (now : ℕ) → Op

pub apply : TokenStore → Op → TokenStore
apply s (store_op thumbprint subject agents ttl now) = (store s thumbprint subject agents ttl now).0
apply s (rotate_op old new ttl now) = (rotate s old new ttl now).0
apply s (revoke_op thumbprint) = (revoke s thumbprint).0
apply s (revoke_all_op subject) = (revoke_all_for_subject s subject).0
apply s (sweep_op now) = (sweep s now).0

pub run : TokenStore → List Op → TokenStore
run s [] = s
run s (op ∷ ops) = run (apply s op) ops

-- The call does not issue a token under the thumbprint.
abbrev pub Spares : String → Op → Type 0
Spares tp (store_op thumbprint subject agents ttl now) = thumbprint ≢ tp
Spares tp (rotate_op old new ttl now) = new ≢ tp
Spares tp _ = Unit

abbrev IsSpentRecord : Option RefreshTokenRecord → Type 0
IsSpentRecord none = Unit
IsSpentRecord (some r) = r.revoked ≡ true

-- What no later call brings back.
record IsSpent (tp : String) (s : TokenStore) : Type 0 where
  spent : IsSpentRecord (lookup tp s.refresh_tokens)
  distinct : HasDistinctKeys s.refresh_tokens

rotate-tokens :
    (s : TokenStore) (old new : String) (ttl now : ℕ)
    → ((rotate s old new ttl now).0 ≡ s)
      ⊎ ((r : RefreshTokenRecord) × ((rotate s old new ttl now).0.refresh_tokens
            ≡ insert new
                (successor r old new ttl now)
                (insert old (as_revoked r) s.refresh_tokens)))
unfolding rotate
rotate-tokens s old new ttl now = elim (Option-cases (lookup old s.refresh_tokens)) [
  | inl e ↦ inl (ground arith)
  | inr (r, e) ↦ elim (Bool-cases r.revoked) [
    | inl dead ↦ inl (ground arith)
    | inr live ↦ inr (r, ground arith)
  ]
]

module _ (tp : String) where
  insert-IsSpent :
      (k : String) (r : RefreshTokenRecord) (m : Map RefreshTokenRecord)
      → (k ≢ tp) ⊎ (r.revoked ≡ true)
      → IsSpent tp (record { refresh_tokens = m })
      → IsSpent tp (record { refresh_tokens = insert k r m })
  insert-IsSpent k r m h p = record {
    spent = ground (arith, eq_iff k tp, lookup-insert k tp r m, p.spent);
    distinct = insert-HasDistinctKeys k r m p.distinct;
  }

  rotate-IsSpent :
      (s : TokenStore) (old new : String) (ttl now : ℕ)
      → new ≢ tp
      → IsSpent tp s
      → IsSpent tp (rotate s old new ttl now).0
  rotate-IsSpent s old new ttl now h p = elim (rotate-tokens s old new ttl now) [
    | inl same ↦ rw same p
    | inr (r, e) ↦
        let inner = insert-IsSpent old (as_revoked r) s.refresh_tokens (inr refl) p in
        let outer =
          insert-IsSpent new (successor r old new ttl now)
            (insert old (as_revoked r) s.refresh_tokens) (inl h) inner in
        record { spent = rw e outer.spent; distinct = rw e outer.distinct }
  ]

  revoke-IsSpent : (s : TokenStore) (k : String) → IsSpent tp s → IsSpent tp (revoke s k).0
  unfolding revoke
  revoke-IsSpent s k p = elim (Option-cases (lookup k s.refresh_tokens)) [
    | inl e ↦ rw e p
    | inr (r, e) ↦ rw e (insert-IsSpent k (as_revoked r) s.refresh_tokens (inr refl) p)
  ]

  apply-IsSpent : (s : TokenStore) (op : Op) → Spares tp op → IsSpent tp s → IsSpent tp (apply s op)
  unfolding apply store revoke_all_for_subject sweep
  apply-IsSpent s (store_op k subject agents ttl now) h p =
      insert-IsSpent k _ s.refresh_tokens (inl h) p
  apply-IsSpent s (rotate_op old new ttl now) h p = rotate-IsSpent s old new ttl now h p
  apply-IsSpent s (revoke_op k) h p = revoke-IsSpent s k p
  apply-IsSpent s (revoke_all_op subject) h p = record {
    spent = ground (arith, lookup-map_values (revoke_if_of subject) tp s.refresh_tokens, p.spent);
    distinct = map_values-HasDistinctKeys (revoke_if_of subject) s.refresh_tokens p.distinct;
  }
  apply-IsSpent s (sweep_op now) h p = record {
    spent = ground (
      arith,
      lookup-filter_entries tp (λ token. not (has_lapsed now token)) s.refresh_tokens p.distinct,
      p.spent,
    );
    distinct = filter_entries-HasDistinctKeys _ s.refresh_tokens p.distinct;
  }

  run-IsSpent :
      (s : TokenStore) (ops : List Op) → All (Spares tp) ops → IsSpent tp s → IsSpent tp (run s ops)
  unfolding run
  run-IsSpent s [] h p = p
  run-IsSpent s (op ∷ ops) h p = run-IsSpent (apply s op) ops h.1 (apply-IsSpent s op h.0 p)

  is_revoked_of_IsSpent : (s : TokenStore) (now : ℕ) → IsSpent tp s → is_revoked s tp now ≡ true
  unfolding is_revoked
  is_revoked_of_IsSpent s now p = ground (arith, p.spent)

  -- A revoked token stays refused at every time, whatever calls follow, as long as none of them
  -- issues a token under its thumbprint. The keys of the table are assumed distinct, as a `Map`'s.
  pub revoked_forever :
      (s : TokenStore) (ops : List Op) (token : RefreshTokenRecord) (now : ℕ)
      → HasDistinctKeys s.refresh_tokens
      → get s tp ≡ some token
      → token.revoked ≡ true
      → All (Spares tp) ops
      → is_revoked (run s ops) tp now ≡ true
  unfolding get
  revoked_forever s ops token now distinct found dead spares =
      is_revoked_of_IsSpent (run s ops) now
        (run-IsSpent s ops spares (record { spent = rw found dead; distinct = distinct }))
