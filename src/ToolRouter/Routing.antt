-- ===== src/ToolRouter/Routing.antt =====
-- Which agent a task goes to: `routeTask` and its helpers in src/core/tool-router.ts.
pub mod Best
mod Tests
use jabr.Base.{
  ℕ, zero, suc, ◌+◌, ◌-◌, ◌*◌, String, Bool, true, false, not, ◌&&◌, ◌||◌, Option, none, some, List,
  [], ◌∷◌, ◌++◌, ltb, ◌==◌, if◌then◌else◌, filter, get_or, map_option, str_eq, includes,
  includes_text, to_lower_case, split_words, count, Map, lookup,
}
use jabr.Agents.{AgentSkill, AgentCard, AgentConfig}

abbrev stop_words : List String
stop_words =
    "the" ∷ "a" ∷ "an" ∷ "is" ∷ "are" ∷ "was" ∷ "be" ∷ "to" ∷ "of" ∷ "in" ∷ "for" ∷ "and" ∷ "or"
    ∷ "it" ∷ "that" ∷ "this" ∷ []

unfoldable pub extract_keywords : String → List String
unfolding split_words
extract_keywords text =
    filter (λ w. ltb 2 (count w) && not (includes stop_words w)) (split_words text)

add_tags : List String → List String → List String
add_tags found [] = found
add_tags found (tag ∷ tags) =
    add_tags (if includes found tag then found else found ++ tag ∷ []) tags

tags_of_skills : List String → List AgentSkill → List String
unfolding add_tags
tags_of_skills found [] = found
tags_of_skills found (skill ∷ skills) = tags_of_skills (add_tags found skill.tags) skills

-- Each tag of the card's skills once, in order of first appearance.
unfoldable pub extract_tags : AgentCard → List String
unfolding tags_of_skills
extract_tags card = tags_of_skills [] card.skills

abbrev word_points : String → List String → ℕ
word_points tag [] = 0
word_points tag (word ∷ words) =
    (if includes_text tag word || includes_text word tag then 1 else 0) + word_points tag words

-- A whole-word match counts 3, a substring of the text 1, and each word that overlaps 1 more.
abbrev tag_points : String → List String → String → ℕ
tag_points lower words tag =
    (if includes words tag then 3 else if includes_text lower tag then 1 else 0)
    + word_points tag words

tags_score : String → List String → List String → ℕ
unfolding to_lower_case includes_text
tags_score lower words [] = 0
tags_score lower words (tag ∷ tags) =
    tag_points lower words (to_lower_case tag) + tags_score lower words tags

pub task_score : String → AgentCard → ℕ
unfolding tags_score to_lower_case extract_keywords extract_tags
task_score text card =
    tags_score (to_lower_case text) (extract_keywords (to_lower_case text)) (extract_tags card)

-- The weighted score in units of 1/50000: 0.5 * successRate + 0.3 * max(0, 1 - responseTime / 5000)
-- + 0.2 * max(0, 1 - cost / 100), exact where the code rounds floats.
pub tie_break_score : AgentCard → ℕ
tie_break_score card =
    25 * get_or card.success_rate 500
    + 3 * (5000 - get_or card.response_time 2500)
    + 100 * (100 - get_or (map_option (λ p. p.cost_per_task) card.pricing) 50)

pub record Match : Type 0 where
  pub name : String
  pub url : String
  pub label : String
  pub score : ℕ

-- `this.cfg.agents[name]!.card`; the name is always a key of the table
tie_of : Map AgentConfig → String → ℕ
unfolding tie_break_score lookup
tie_of agents name = elim (lookup name agents) [ none ↦ 0 | some a ↦ tie_break_score a.card ]

abbrev match_of : String → AgentConfig → ℕ → Match
match_of name agent score = record {
  name = name;
  url = agent.url;
  label = agent.card.name;
  score = score;
}

-- one round of the loop over the agents
abbrev better : Map AgentConfig → Option Match → String → AgentConfig → ℕ → Option Match
better agents none name agent score = some (match_of name agent score)
better agents (some best) name agent score =
    if ltb best.score score
    then some (match_of name agent score)
    else if score == best.score
    then if ltb (tie_of agents best.name) (tie_break_score agent.card)
      then some (match_of name agent score)
      else some best
    else some best

abbrev consider : String → Map AgentConfig → Option Match → String → AgentConfig → Option Match
consider text agents best name agent =
    if ltb 0 (task_score text agent.card)
    then better agents best name agent (task_score text agent.card)
    else best

best_from : String → Map AgentConfig → Option Match → Map AgentConfig → Option Match
best_from text agents best [] = best
best_from text agents best ((name, agent) ∷ rest) =
    best_from text agents (consider text agents best name agent) rest

pub best_match : String → Map AgentConfig → Option Match
unfolding best_from task_score tie_of tie_break_score
best_match text agents = best_from text agents none agents

pub record Routed : Type 0 where
  pub agent_name : String
  pub label : String

abbrev pub fallback : Map AgentConfig → Option Routed
fallback [] = none
fallback ((key, first) ∷ rest) = some (record { agent_name = first.name; label = first.card.name })

abbrev pub route_or : Map AgentConfig → Option Match → Option Routed
route_or agents none = fallback agents
route_or agents (some best) = some (record { agent_name = best.name; label = best.label })

pub route_task : String → Map AgentConfig → Option Routed
unfolding best_match
route_task text agents = route_or agents (best_match text agents)
