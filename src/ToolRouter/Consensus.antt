-- ===== src/ToolRouter/Consensus.antt =====
-- `executeConsensus` of src/core/tool-router.ts.
use jabr.Base.{
  String, Option, none, some, List, [], ◌∷◌, if◌then◌else◌, length, filter, truthy, includes, count,
  keys,
}
use jabr.Agents.{ToolRouterConfig}
use jabr.World.{
  Act, Environment, ConsensusInput, delegating, consensus_winner, pure, ask, ◌>>=◌, ◌>>◌,
}
use jabr.ToolRouter.Delegation.{
  top_score, get_agent_url, remember, delegate_task, deduct_budget, delegate_to_multiple,
}

abbrev pub participants : ToolRouterConfig → Option (List String) → List String
participants cfg none = keys cfg.agents
participants cfg (some []) = keys cfg.agents
participants cfg (some (n ∷ ns)) = filter (includes (n ∷ ns)) (keys cfg.agents)

module _ {S : Type 0} (env : Environment) (cfg : ToolRouterConfig) where
  synthesize : List ConsensusInput → String → Act S String
  synthesize [] user_text = pure "No agents responded"
  synthesize (input ∷ inputs) user_text =
      if cfg.has_cognitive_loop
      then (do
        result ← ask (λ t. env.evaluate t (input ∷ inputs) user_text)
        remember env cfg (consensus_winner result.winner.agent_name (top_score result.scores))
        pure result.synthesized)
      else pure input.response

  -- `participants.length < 2`: one agent, or the librarian, answers alone
  ask_one : String → Option String → String → Act S String
  ask_one agent_name none user_text = pure "No agents available for consensus"
  ask_one agent_name (some url) user_text = do
    deduct_budget env cfg agent_name (count user_text)
    delegate_task env cfg url user_text agent_name

  confer : String → List String → Act S String
  unfolding synthesize ask_one get_agent_url truthy keys
  confer user_text [] = ask_one "librarian" (truthy (get_agent_url cfg "librarian")) user_text
  confer user_text (name ∷ []) = ask_one name (truthy (get_agent_url cfg name)) user_text
  confer user_text (name ∷ next ∷ rest) = do
    remember env cfg (delegating (length (name ∷ next ∷ rest)))
    inputs ← delegate_to_multiple env cfg (name ∷ next ∷ rest) user_text
    synthesize inputs user_text

  unfoldable pub execute_consensus : String → Option (List String) → Act S String
  unfolding confer
  execute_consensus user_text agent_names = confer user_text (participants cfg agent_names)
