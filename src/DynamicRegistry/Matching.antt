-- ===== src/DynamicRegistry/Matching.antt =====
-- The agent that a text goes to: src/adapters/dynamic-registry.ts.
use mathlib.Core.List.{append_assoc, append-nil}
use jabr.Base.{
  ℕ, ◌≤◌, ◌<◌, String, ◌≡◌, ◌∙◌, refl, ap, true, false, Option, none, some, [], ◌∷◌, ◌++◌, arith,
  All, All-append, All-map, Map, Bool-cases, inl, inr, eq_refl,
}
use jabr.World.{ok, err}
use jabr.DynamicRegistry.{
  DynamicRegistry, Fetch, Done, and_then, ensure_ready, match_agent, RegistryEntry, Match, match_of,
  better, entry_score, best_from, find_name_by_url, fallback, chosen, match_entries,
}

module _ (text : String) where
  abbrev score : String × RegistryEntry → ℕ
  score x = entry_score text x.1

  -- The match is the entry of the table that comes first among those with the highest score.
  pub record IsFirstBest (entries : Map RegistryEntry) (m : Match) : Type 0 where
    pub entry : RegistryEntry
    pub earlier : Map RegistryEntry
    pub later : Map RegistryEntry
    pub place : entries ≡ earlier ++ (m.name, entry) ∷ later
    pub same : m ≡ match_of m.name entry
    pub above : All (λ x. score x < score (m.name, entry)) earlier
    pub no_less : All (λ x. score x ≤ score (m.name, entry)) later

  abbrev Summary : Map RegistryEntry → Option (Match × ℕ) → Type 0
  Summary seen none = All (λ x. score x ≡ 0) seen
  Summary seen (some (m, k)) = (p : IsFirstBest seen m) × (k ≡ score (m.name, p.entry)) × (0 < k)

  kept :
      (seen : Map RegistryEntry) (x : String × RegistryEntry) (best : Option (Match × ℕ))
      → better best (score x) ≡ false
      → Summary seen best
      → Summary (seen ++ x ∷ []) best
  kept seen x none worse h = All-append _ seen (x ∷ []) h (ground (arith, worse), tt)
  kept seen x (some (m, k)) worse (p, known, positive) = (
    record {
      entry = p.entry;
      earlier = p.earlier;
      later = p.later ++ x ∷ [];
      place =
          ap (λ l. l ++ x ∷ []) p.place
          ∙ append_assoc p.earlier ((m.name, p.entry) ∷ p.later) (x ∷ []);
      same = p.same;
      above = p.above;
      no_less = All-append _ p.later (x ∷ []) p.no_less (ground (arith, worse, known), tt);
    },
    known,
    positive,
  )

  below :
      (seen : Map RegistryEntry) (k : ℕ) (best : Option (Match × ℕ))
      → better best k ≡ true
      → Summary seen best
      → All (λ x. score x < k) seen
  below seen k none more h = All-map _ _ seen (λ x zero. ground (arith, zero, more)) h
  below seen k (some (m, j)) more (p, known, positive) =
      let ahead : score (m.name, p.entry) < k = ground (arith, more, known) in
      let before =
        All-map _ (λ x. score x < k) p.earlier (λ x h. omega (arith, h, ahead)) p.above in
      let after = All-map _ (λ x. score x < k) p.later (λ x h. omega (arith, h, ahead)) p.no_less in
      rw p.place (All-append _ p.earlier ((m.name, p.entry) ∷ p.later) before (ahead, after))

  positive_of : (best : Option (Match × ℕ)) (k : ℕ) → better best k ≡ true → 0 < k
  positive_of none k h = ground (arith, h)
  positive_of (some (m, j)) k h = ground (arith, h)

  best_from-Summary :
      (seen rest : Map RegistryEntry) (best : Option (Match × ℕ))
      → Summary seen best
      → Summary (seen ++ rest) (best_from text best rest)
  unfolding best_from
  best_from-Summary seen [] best h = rw (append-nil seen) h
  best_from-Summary seen ((name, e) ∷ rest) best h =
      let x : String × RegistryEntry = (name, e) in
      let assoc = append_assoc seen (x ∷ []) rest in
      elim (Bool-cases (better best (score x))) [
        | inr w ↦
            rw w (rw assoc at (best_from-Summary (seen ++ x ∷ []) rest best (kept seen x best w h)))
        | inl w ↦
            let now : Summary (seen ++ x ∷ []) (some (match_of name e, score x)) = (
              record {
                entry = e;
                earlier = seen;
                later = [];
                place = refl;
                same = refl;
                above = below seen (score x) best w h;
                no_less = tt;
              },
              refl,
              positive_of best (score x) w,
            ) in
            rw w (
              rw assoc at
                (best_from-Summary (seen ++ x ∷ []) rest (some (match_of name e, score x)) now))
      ]

  -- No entry at all, or the first one with the highest score.
  abbrev pub IsAnswer : Map RegistryEntry → Option Match → Type 0
  IsAnswer entries none = entries ≡ []
  IsAnswer entries (some m) = IsFirstBest entries m

  fallback-IsAnswer :
      (entries : Map RegistryEntry)
      → All (λ x. score x ≡ 0) entries
      → IsAnswer entries (fallback entries)
  unfolding fallback find_name_by_url
  fallback-IsAnswer [] h = refl
  fallback-IsAnswer ((name, first) ∷ rest) (zero_here, h) = rw (eq_refl first.url) (record {
    entry = first;
    earlier = [];
    later = rest;
    place = refl;
    same = refl;
    above = tt;
    no_less = All-map _ _ rest (λ x zero. omega (arith, zero, zero_here)) h;
  })

  chosen-IsAnswer :
      (entries : Map RegistryEntry) (best : Option (Match × ℕ))
      → Summary entries best
      → IsAnswer entries (chosen entries best)
  unfolding chosen
  chosen-IsAnswer entries none h = fallback-IsAnswer entries h
  chosen-IsAnswer entries (some (m, k)) (p, _, _) = p

  match_entries-IsAnswer :
      (entries : Map RegistryEntry) → IsAnswer entries (match_entries entries text)
  unfolding match_entries
  match_entries-IsAnswer entries =
      chosen-IsAnswer entries (best_from text none entries) (best_from-Summary [] entries none tt)

  and_then-IsAnswer :
      (d : Done) (o : Option Match)
      → (and_then d (λ s. match_entries s.entries text)).1 ≡ ok o
      → IsAnswer (and_then d (λ s. match_entries s.entries text)).0.entries o
  and_then-IsAnswer (s, err e) o h = cc
  and_then-IsAnswer (s, ok u) o h =
      let same : match_entries s.entries text ≡ o = ground (arith, h) in
      rw same at (match_entries-IsAnswer s.entries)

-- Where discovery does not throw, a text is matched to none only if no agent is known, and otherwise to
-- the first agent among those whose tags score highest for the text, be it that none scores at all.
pub match_agent_best :
    (fetch : Fetch) (s : DynamicRegistry) (text : String) (o : Option Match)
    → (match_agent fetch s text).1 ≡ ok o
    → IsAnswer text (match_agent fetch s text).0.entries o
unfolding match_agent
match_agent_best fetch s text o h = and_then-IsAnswer text (ensure_ready fetch s) o h
