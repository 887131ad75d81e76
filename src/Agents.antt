-- ===== src/Agents.antt =====
-- The agents that the orchestrator knows: `AgentCard`, `AgentConfig`, `VerificationConfig` and their
-- parts in src/types/types.ts. Rates and scores, which are numbers in [0, 1], are in thousandths.
use jabr.Base.{ℕ, String, Bool, Option, List, Map}

pub record AgentSkill : Type 0 where
  pub name : String
  pub tags : List String

pub record AgentPricing : Type 0 where
  pub cost_per_task : ℕ
  pub cost_per_token : Option ℕ

pub record AgentCard : Type 0 where
  pub name : String
  pub skills : List AgentSkill
  pub success_rate : Option ℕ
  pub response_time : Option ℕ
  pub pricing : Option AgentPricing

pub record AgentConfig : Type 0 where
  pub name : String
  pub url : String
  pub card : AgentCard

pub record VerificationConfig : Type 0 where
  pub enabled : Bool
  pub keywords : String
  pub agent_name : String
  pub consensus_threshold : ℕ

-- Which of the optional ports are configured, beside the table of agents.
pub record ToolRouterConfig : Type 0 where
  pub agents : Map AgentConfig
  pub has_delegator : Bool
  pub has_budget : Bool
  pub has_cognitive_loop : Bool
  pub has_memory : Bool
  pub has_knowledge : Bool
  pub has_kanban : Bool
  pub has_realtime : Bool
  pub has_bus : Bool
  pub verification : Option VerificationConfig

pub record ResolvedCaller : Type 0 where
  pub description : String
  pub allowed_agents : List String

pub record HandoverRequest : Type 0 where
  pub transfer_to : String
  pub reason : String
  pub context : String
