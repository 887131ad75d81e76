-- ===== src/ToolRouter/Routing/Tests.antt =====
-- Routing on a concrete table of agents.
use jabr.Base.{
  ◌≤◌, ◌<◌, String, ◌≡◌, ◌⊎◌, refl, none, some, [], ◌∷◌, arith, Map, lookup, to_lower_case,
  split_words, includes_text,
}
use jabr.Agents.{AgentConfig}
use jabr.ToolRouter.Routing.{
  task_score, tie_break_score, Routed, route_task, extract_keywords, extract_tags, tags_score,
  tags_of_skills, add_tags,
}
use jabr.ToolRouter.Routing.Best.{route_task_best}

abbrev agent_with : String → String → AgentConfig
agent_with name tag = record {
  name = name;
  url = "http://localhost";
  card = record {
    name = name;
    skills = record { name = tag; tags = tag ∷ [] } ∷ [];
    success_rate = some 900;
    response_time = some 100;
    pricing = none;
  };
}

abbrev table : Map AgentConfig
table = ("oracle", agent_with "oracle" "plan") ∷ ("fixer", agent_with "fixer" "bug") ∷ []

bug_score : task_score "fix the bug" (agent_with "fixer" "bug").card ≡ 4
unfolding task_score tags_score to_lower_case extract_keywords extract_tags tags_of_skills add_tags
    split_words includes_text
bug_score = refl

route_task_best_example :
    (r : Routed) × (a : AgentConfig) × (route_task "fix the bug" table ≡ some r)
    × (lookup r.agent_name table ≡ some a)
    × (r.label ≡ a.card.name)
    × ((task_score "fix the bug" (agent_with "fixer" "bug").card < task_score "fix the bug" a.card)
        ⊎ ((task_score "fix the bug" (agent_with "fixer" "bug").card
              ≡ task_score "fix the bug" a.card)
            × (tie_break_score (agent_with "fixer" "bug").card ≤ tie_break_score a.card)))
unfolding lookup
route_task_best_example =
    route_task_best "fix the bug" table "fixer" (agent_with "fixer" "bug") (ground arith) refl
      (omega (arith, bug_score))
