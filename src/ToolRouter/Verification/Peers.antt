-- ===== src/ToolRouter/Verification/Peers.antt =====
-- The check by a peer, in src/core/tool-router.ts, leaves the task store alone: what the delegations
-- keep, it keeps.
use jabr.Base.{ℕ, String, Option, none, some, List, [], ◌∷◌, ◌++◌}
use jabr.Agents.{ToolRouterConfig, AgentPricing, VerificationConfig}
use jabr.World.{Result, Environment, Call, ConsensusInput, send, record_metric, ◌>>=◌}
use jabr.World.Keeps.{Keeps, keeps_rules, Keeps-send}
use jabr.ToolRouter.Delegation.{settle, delegate_task, charge, charge_if, deduct_budget, ask_agent}
use jabr.ToolRouter.Verification.{ask_peer, judge, verify_with, run_verification, enabled}

-- No delegation breaks the invariant.
abbrev pub IsOpen : {S : Type 0} → (List Call → S → Type 0) → Type 0
IsOpen {S} R = (call : Call) (calls : List Call) (s : S) → R calls s → R (calls ++ call ∷ []) s

module _ {S : Type 0} (env : Environment) (cfg : ToolRouterConfig) (R : List Call → S → Type 0)
    (open_to_all : IsOpen R) where
  sent : (call : Call) → Keeps {S = S} R (send call)
  sent call = Keeps-send call (open_to_all call)

  settle-Keeps :
      (call : Call) (answer : Result String) → Keeps {S = S} R (settle env cfg call answer)
  unfolding settle ◌>>=◌ record_metric
  settle-Keeps call answer = record { at = λ w p. p }

  delegate_task-Keeps :
      (url words name : String) → Keeps {S = S} R (delegate_task env cfg url words name)
  unfolding delegate_task
  delegate_task-Keeps url words name = search (keeps_rules, sent, settle-Keeps) depth 7

  charge_if-Keeps :
      (name : String) (length : ℕ) (pricing : Option AgentPricing)
      → Keeps {S = S} R (charge_if env cfg name length pricing)
  unfolding charge_if charge
  charge_if-Keeps name length none = search keeps_rules
  charge_if-Keeps name length (some p) = search keeps_rules depth 7

  deduct_budget-Keeps :
      (name : String) (length : ℕ) → Keeps {S = S} R (deduct_budget env cfg name length)
  unfolding deduct_budget
  deduct_budget-Keeps name length = search (keeps_rules, charge_if-Keeps)

  ask_agent-Keeps :
      (words name : String) (url : Option String)
      → Keeps {S = S} R (ask_agent env cfg words name url)
  unfolding ask_agent
  ask_agent-Keeps words name none = search keeps_rules
  ask_agent-Keeps words name (some url) =
      search (keeps_rules, deduct_budget-Keeps, delegate_task-Keeps) depth 8

  ask_peer-Keeps :
      (words : String) (names : List String) → Keeps {S = S} R (ask_peer env cfg words names)
  unfolding ask_peer
  ask_peer-Keeps words [] = search keeps_rules
  ask_peer-Keeps words (name ∷ names) = search (keeps_rules, ask_agent-Keeps)

  judge-Keeps :
      (v : VerificationConfig) (words result name : String) (inputs : List ConsensusInput)
      → Keeps {S = S} R (judge env cfg v words result name inputs)
  unfolding judge
  judge-Keeps v words result name [] = search keeps_rules
  judge-Keeps v words result name (i ∷ inputs) = search keeps_rules

  verify_with-Keeps :
      (v : Option VerificationConfig) (words result name : String)
      → Keeps {S = S} R (verify_with env cfg v words result name)
  unfolding verify_with
  verify_with-Keeps none words result name = search keeps_rules
  verify_with-Keeps (some v) words result name =
      search (keeps_rules, ask_peer-Keeps, judge-Keeps) depth 8

  pub run_verification-Keeps :
      (words result name : String) → Keeps {S = S} R (run_verification env cfg words result name)
  unfolding run_verification
  run_verification-Keeps words result name =
      verify_with-Keeps (enabled cfg.verification) words result name
