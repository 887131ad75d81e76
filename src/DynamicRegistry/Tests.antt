-- ===== src/DynamicRegistry/Tests.antt =====
-- Two seeds, of which one answers.
use jabr.Base.{
  ◌≤◌, ◌+◌, ◌*◌, ◌≡◌, refl, true, ◌||◌, none, some, [], ◌∷◌, ltb, length, str_eq, if◌then◌else◌,
  insert,
}
use jabr.World.{ok}
use jabr.Agents.{AgentCard}
use jabr.DynamicRegistry.{
  DynamicRegistry, Fetch, new_registry, ensure_ready, match_agent, attempts, discover,
  discover_from, added, discover_with_retry, entry_score, best_from, match_entries,
  find_name_by_url,
}
use jabr.DynamicRegistry.Discovery.{ensure_ready_once}
use jabr.DynamicRegistry.Matching.{IsAnswer, match_agent_best}

abbrev card : AgentCard
card = record {
  name = "Fixer";
  skills = [];
  success_rate = none;
  response_time = none;
  pricing = none;
}

abbrev fetch : Fetch
fetch = λ n url. ok (if str_eq url "http://a" then some card else none)

abbrev s : DynamicRegistry
s = new_registry (("fixer", "http://a") ∷ ("oracle", "http://b") ∷ [])

ensure_ready_once_example :
    ((ensure_ready fetch s).0.fetches ≤ s.fetches + 30 * length s.seed_urls)
    × ((ensure_ready fetch s).0.seed_urls ≡ s.seed_urls)
    × ((ltb 0 (length (ensure_ready fetch s).0.entries)
          || (ensure_ready fetch s).0.discovery_exhausted)
        ≡ true)
    × (ensure_ready fetch (ensure_ready fetch s).0 ≡ ((ensure_ready fetch s).0, ok tt))
ensure_ready_once_example = ensure_ready_once fetch s

-- one seed, which answers at once
abbrev alone : DynamicRegistry
alone = new_registry (("fixer", "http://a") ∷ [])

matched :
    (match_agent fetch alone "fix it").1
    ≡ ok (some (record { name = "fixer"; url = "http://a"; label = "Fixer" }))
unfolding match_agent ensure_ready discover_with_retry attempts discover discover_from added
    match_entries best_from entry_score find_name_by_url insert
matched = refl

match_agent_best_example :
    IsAnswer "fix it"
      (match_agent fetch alone "fix it").0.entries
      (some (record { name = "fixer"; url = "http://a"; label = "Fixer" }))
match_agent_best_example = match_agent_best fetch alone "fix it" _ matched
