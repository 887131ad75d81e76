-- ===== src/DynamicRegistry/Discovery.antt =====
-- How much discovery asks of the network: src/adapters/dynamic-registry.ts.
use jabr.Base.{
  ℕ, zero, suc, ◌+◌, ◌*◌, ◌≤◌, String, ◌≡◌, ◌∙◌, refl, Bool, true, ◌||◌, Option, none, some, [],
  ◌∷◌, ltb, ◌==◌, length, arith, Map, Bool-cases, inl, inr, ap,
}
use jabr.World.{Result, ok, err}
use jabr.Agents.{AgentCard}
use jabr.DynamicRegistry.{
  DynamicRegistry, Fetch, Done, asked, added, on_answer, after_attempt, discover_from, discover,
  is_complete, attempts, max_attempts, discover_with_retry, mark_exhausted, ensure_ready,
}

-- The second registry has the seeds of the first one, and at most `n` answers more.
record Asks (n : ℕ) (s s' : DynamicRegistry) : Type 0 where
  fetched : s'.fetches ≤ s.fetches + n
  same_seeds : s'.seed_urls ≡ s.seed_urls

Asks-trans : (m n : ℕ) (a b d : DynamicRegistry) → Asks m a b → Asks n b d → Asks (m + n) a d
Asks-trans m n a b d p q = record {
  fetched = omega (arith, p.fetched, q.fetched);
  same_seeds = q.same_seeds ∙ p.same_seeds;
}

-- the answers of `n` rounds
abbrev rounds : ℕ → ℕ → ℕ
rounds zero size = 0
rounds (suc n) size = size + rounds n size

module _ (fetch : Fetch) where
  on_answer-Asks :
      (s : DynamicRegistry) (name url : String) (r : Result (Option AgentCard))
      (next : DynamicRegistry → Done) (n : ℕ)
      → ((s' : DynamicRegistry) → Asks n s' (next s').0)
      → Asks (suc n) s (on_answer s name url r next).0
  unfolding added
  on_answer-Asks s name url (err e) next n p = record { fetched = omega arith; same_seeds = refl }
  on_answer-Asks s name url (ok none) next n p =
      let q = p (asked s) in
      record { fetched = omega (arith, q.fetched); same_seeds = q.same_seeds }
  on_answer-Asks s name url (ok (some card)) next n p =
      let q = p (added (asked s) name url card) in
      record { fetched = omega (arith, q.fetched); same_seeds = q.same_seeds }

  discover_from-Asks :
      (seeds : Map String) (s : DynamicRegistry)
      → Asks (length seeds) s (discover_from fetch s seeds).0
  unfolding discover_from
  discover_from-Asks [] s = record { fetched = omega arith; same_seeds = refl }
  discover_from-Asks ((name, url) ∷ rest) s =
      on_answer-Asks s name url (fetch s.fetches url) (λ s'. discover_from fetch s' rest)
        (length rest) (λ s'. discover_from-Asks rest s')

  discover-Asks : (s : DynamicRegistry) → Asks (length s.seed_urls) s (discover fetch s).0
  unfolding discover
  discover-Asks s =
      let p = discover_from-Asks s.seed_urls (record s { entries = []; card_cache = [] }) in
      record { fetched = p.fetched; same_seeds = p.same_seeds }

  after_attempt-Asks :
      (m n : ℕ) (s : DynamicRegistry) (d : Done) (next : DynamicRegistry → Done)
      → Asks m s d.0
      → Asks n d.0 (next d.0).0
      → Asks (m + n) s (after_attempt d next).0
  after_attempt-Asks m n s (s', err e) next p q = record {
    fetched = omega (arith, p.fetched);
    same_seeds = p.same_seeds;
  }
  after_attempt-Asks m n s (s', ok u) next p q = elim (Bool-cases (is_complete s')) [
    | inl e ↦
        rw (e, after_attempt)
          (record { fetched = omega (arith, p.fetched); same_seeds = p.same_seeds })
    | inr e ↦ rw (e, after_attempt) (Asks-trans m n s s' (next s').0 p q)
  ]

  attempts-Asks :
      (n : ℕ) (s : DynamicRegistry) → Asks (rounds n (length s.seed_urls)) s (attempts fetch s n).0
  unfolding attempts
  attempts-Asks zero s = record { fetched = omega arith; same_seeds = refl }
  attempts-Asks (suc n) s =
      let size = length s.seed_urls in
      let s' = (discover fetch s).0 in
      let first = discover-Asks s in
      let alike : length s'.seed_urls ≡ size = ap (λ m. length m) first.same_seeds in
      after_attempt-Asks size (rounds n size) s (discover fetch s) (λ x. attempts fetch x n) first
        (rw alike at (attempts-Asks n s'))

  discover_with_retry-Asks :
      (s : DynamicRegistry)
      → Asks (rounds max_attempts (length s.seed_urls)) s (discover_with_retry fetch s).0
  unfolding discover_with_retry
  discover_with_retry-Asks s = elim (Bool-cases (length s.seed_urls == 0)) [
    | inl e ↦ rw e (record { fetched = omega arith; same_seeds = refl })
    | inr e ↦ rw e (attempts-Asks max_attempts s)
  ]

  abbrev is_ready : DynamicRegistry → Bool
  is_ready s = ltb 0 (length s.entries) || s.discovery_exhausted

  mark_exhausted-is_ready : (s : DynamicRegistry) → is_ready (mark_exhausted s) ≡ true
  mark_exhausted-is_ready s = ground arith

  -- Making the registry ready asks for at most 30 cards for each seed, and keeps the seeds. Then it is
  -- ready: it has entries or has given up, and making it ready again asks nothing, succeeds and
  -- changes nothing, also where the first time threw.
  pub ensure_ready_once :
      (s : DynamicRegistry)
      → ((ensure_ready fetch s).0.fetches ≤ s.fetches + 30 * length s.seed_urls)
        × ((ensure_ready fetch s).0.seed_urls ≡ s.seed_urls)
        × ((ltb 0 (length (ensure_ready fetch s).0.entries)
              || (ensure_ready fetch s).0.discovery_exhausted)
            ≡ true)
        × (ensure_ready fetch (ensure_ready fetch s).0 ≡ ((ensure_ready fetch s).0, ok tt))
  unfolding ensure_ready
  ensure_ready_once s =
      let x = (discover_with_retry fetch s).0 in
      let p = discover_with_retry-Asks s in
      let ready = mark_exhausted-is_ready x in
      let fetched : (mark_exhausted x).fetches ≡ x.fetches = ground arith in
      let seeds : (mark_exhausted x).seed_urls ≡ x.seed_urls = ground arith in
      elim (Bool-cases (is_ready s)) [
        | inl e ↦ rw e (omega arith, refl, e, rw e refl)
        | inr e ↦
            rw e (omega (arith, p.fetched, fetched), seeds ∙ p.same_seeds, ready, rw ready refl)
      ]
