-- ===== src/DynamicRegistry.antt =====
-- Discovery of agents and the choice among them: src/adapters/dynamic-registry.ts. `fetchCard` of the
-- port answers by `Fetch`, which may depend on how many answers came before (`fetches`). `extractTags`
-- and `extractKeywords` have the text of those of src/core/tool-router.ts. The waiting time between
-- attempts and the log texts are left out.
pub mod Discovery
pub mod Matching
mod Tests
use jabr.Base.{
  ℕ, zero, suc, ◌+◌, String, Bool, true, false, ◌||◌, Option, none, some, List, [], ◌∷◌, ltb, ◌==◌,
  if◌then◌else◌, length, get_or, ◌&&◌, map_option, str_eq, includes, includes_text, to_lower_case,
  Map, lookup, insert, has, keys, map_values,
}
use jabr.World.{Result, ok, err}
use jabr.Agents.{AgentCard}
use jabr.ToolRouter.Routing.{extract_keywords, extract_tags}

pub record RegistryEntry : Type 0 where
  pub url : String
  pub card : AgentCard
  pub tags : List String

pub record DynamicRegistry : Type 0 where
  pub entries : Map RegistryEntry
  pub card_cache : Map AgentCard
  pub seed_urls : Map String
  pub discovery_exhausted : Bool
  pub fetches : ℕ

abbrev pub Fetch : Type 0
Fetch = ℕ → String → Result (Option AgentCard)

abbrev pub new_registry : Map String → DynamicRegistry
new_registry seeds = record {
  entries = [];
  card_cache = [];
  seed_urls = seeds;
  discovery_exhausted = false;
  fetches = 0;
}

-- the registry after one more answer of the port
abbrev pub asked : DynamicRegistry → DynamicRegistry
asked s = record s { fetches = suc s.fetches }

pub added : DynamicRegistry → String → String → AgentCard → DynamicRegistry
unfolding extract_tags
added s name url card =
    let entry : RegistryEntry = record { url = url; card = card; tags = extract_tags card } in
    record s { entries = insert name entry s.entries; card_cache = insert url card s.card_cache }

abbrev pub Done : Type 0
Done = DynamicRegistry × Result (Unit {0})

-- one turn of the loop of `discover`
abbrev pub on_answer :
    DynamicRegistry → String → String → Result (Option AgentCard) → (DynamicRegistry → Done) → Done
on_answer s name url (err e) next = (asked s, err e)
on_answer s name url (ok none) next = next (asked s)
on_answer s name url (ok (some card)) next = next (added (asked s) name url card)

pub discover_from : Fetch → DynamicRegistry → Map String → Done
unfolding added
discover_from fetch s [] = (s, ok tt)
discover_from fetch s ((name, url) ∷ rest) =
    on_answer s name url (fetch s.fetches url) (λ s'. discover_from fetch s' rest)

pub discover : Fetch → DynamicRegistry → Done
unfolding discover_from
discover fetch s = discover_from fetch (record s { entries = []; card_cache = [] }) s.seed_urls

abbrev pub is_complete : DynamicRegistry → Bool
is_complete s = length s.entries == length s.seed_urls

abbrev pub after_attempt : Done → (DynamicRegistry → Done) → Done
after_attempt (s, err e) next = (s, err e)
after_attempt (s, ok u) next = elim (is_complete s) [ true ↦ (s, ok tt) | false ↦ next s ]

-- the attempts that are left
pub attempts : Fetch → DynamicRegistry → ℕ → Done
unfolding discover
attempts fetch s zero = (s, ok tt)
attempts fetch s (suc n) = after_attempt (discover fetch s) (λ s'. attempts fetch s' n)

abbrev pub max_attempts : ℕ
max_attempts = 30

pub discover_with_retry : Fetch → DynamicRegistry → Done
unfolding attempts
discover_with_retry fetch s =
    if length s.seed_urls == 0 then (s, ok tt) else attempts fetch s max_attempts

-- the `finally`
abbrev pub mark_exhausted : DynamicRegistry → DynamicRegistry
mark_exhausted s = if length s.entries == 0 then record s { discovery_exhausted = true } else s

pub ensure_ready : Fetch → DynamicRegistry → Done
unfolding discover_with_retry
ensure_ready fetch s =
    if ltb 0 (length s.entries) || s.discovery_exhausted
    then (s, ok tt)
    else let (s', r) = discover_with_retry fetch s in (mark_exhausted s', r)

abbrev add_card :
    DynamicRegistry → String → Result (Option AgentCard) → DynamicRegistry × Result Bool
unfolding added has lookup
add_card s url (err e) = (s, err e)
add_card s url (ok none) = (s, ok false)
add_card s url (ok (some card)) =
    if has card.name s.entries then (s, ok false) else (added s card.name url card, ok true)

pub add_agent : Fetch → DynamicRegistry → String → DynamicRegistry × Result Bool
unfolding add_card has
add_agent fetch s url =
    if has url s.card_cache then (s, ok false) else add_card (asked s) url (fetch s.fetches url)

abbrev word_points : String → List String → ℕ
word_points tag [] = 0
word_points tag (word ∷ words) =
    (if includes_text tag word || includes_text word tag then 1 else 0) + word_points tag words

-- a whole word of the text, or a part of it and of its words
abbrev tag_points : String → List String → String → ℕ
tag_points lower words tag =
    if includes words tag
    then 3
    else (if includes_text lower tag then 1 else 0) + word_points tag words

tags_score : String → List String → List String → ℕ
unfolding to_lower_case includes_text
tags_score lower words [] = 0
tags_score lower words (tag ∷ tags) =
    tag_points lower words (to_lower_case tag) + tags_score lower words tags

pub entry_score : String → RegistryEntry → ℕ
unfolding tags_score to_lower_case extract_keywords
entry_score text entry =
    tags_score (to_lower_case text) (extract_keywords (to_lower_case text)) entry.tags

pub record Match : Type 0 where
  pub name : String
  pub url : String
  pub label : String

abbrev pub match_of : String → RegistryEntry → Match
match_of name entry = record { name = name; url = entry.url; label = entry.card.name }

-- the best match so far with its score
abbrev pub better : Option (Match × ℕ) → ℕ → Bool
better none score = ltb 0 score
better (some (m, best)) score = ltb 0 score && ltb best score

unfoldable pub best_from : String → Option (Match × ℕ) → Map RegistryEntry → Option (Match × ℕ)
unfolding entry_score
best_from text best [] = best
best_from text best ((name, entry) ∷ rest) =
    let score = entry_score text entry in
    best_from text (if better best score then some (match_of name entry, score) else best) rest

pub find_name_by_url : String → Map RegistryEntry → Option String
find_name_by_url url [] = none
find_name_by_url url ((name, entry) ∷ rest) =
    let later = find_name_by_url url rest in if str_eq entry.url url then some name else later

-- the first entry where no tag matches
abbrev pub fallback : Map RegistryEntry → Option Match
unfolding find_name_by_url
fallback [] = none
fallback ((name, first) ∷ rest) =
    some (match_of (get_or (find_name_by_url first.url ((name, first) ∷ rest)) "unknown") first)

abbrev pub chosen : Map RegistryEntry → Option (Match × ℕ) → Option Match
unfolding fallback
chosen entries (some (m, score)) = some m
chosen entries none = fallback entries

pub match_entries : Map RegistryEntry → String → Option Match
unfolding best_from chosen
match_entries entries text = chosen entries (best_from text none entries)

abbrev and_then {ℓ} : {A : Type ℓ} → Done → (DynamicRegistry → A) → DynamicRegistry × Result A
and_then (s, err e) f = (s, err e)
and_then (s, ok u) f = (s, ok (f s))

module _ (fetch : Fetch) (s : DynamicRegistry) where
  pub match_agent : String → DynamicRegistry × Result (Option Match)
  unfolding ensure_ready match_entries
  match_agent text = and_then (ensure_ready fetch s) (λ s'. match_entries s'.entries text)

  pub get_url : String → DynamicRegistry × Result (Option String)
  unfolding ensure_ready lookup
  get_url name =
      and_then (ensure_ready fetch s) (λ s'. map_option (λ e. e.url) (lookup name s'.entries))

  pub get_card : String → DynamicRegistry × Result (Option AgentCard)
  unfolding ensure_ready lookup
  get_card name =
      and_then (ensure_ready fetch s) (λ s'. map_option (λ e. e.card) (lookup name s'.entries))

  pub get_agent_names : DynamicRegistry × Result (List String)
  unfolding ensure_ready keys
  get_agent_names = and_then (ensure_ready fetch s) (λ s'. keys s'.entries)

  pub get_all_cards : DynamicRegistry × Result (Map AgentCard)
  unfolding ensure_ready map_values
  get_all_cards = and_then (ensure_ready fetch s) (λ s'. map_values (λ e. e.card) s'.entries)

pub to_url_map : DynamicRegistry → Map String
unfolding map_values
to_url_map s = map_values (λ e. e.url) s.entries
