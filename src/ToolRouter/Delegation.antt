-- ===== src/ToolRouter/Delegation.antt =====
-- Delegating tasks in src/core/tool-router.ts, to one agent or several. `Promise.all` over agents is
-- the schedule in which they answer in order.
use jabr.Base.{
  ℕ, ◌+◌, ◌*◌, ◌/◌, max, String, Option, none, some, List, [], ◌∷◌, if◌then◌else◌, get_or, str_eq,
  truthy, count, lookup,
}
use jabr.Agents.{AgentCard, AgentPricing, AgentConfig, ToolRouterConfig}
use jabr.World.{
  Act, Result, ok, err, Environment, Call, ConsensusInput, Score, Line, deducted, span, pure, catch,
  ask, ◌>>=◌, ◌>>◌, when, append_memory, record_metric, send, note_consumed,
}

abbrev pub url_of : Option AgentConfig → Option String
url_of none = none
url_of (some a) = some a.url

abbrev pub card_of : Option AgentConfig → Option AgentCard
card_of none = none
card_of (some a) = some a.card

-- `costPerTask + costPerToken * Math.max(1, Math.ceil(length / 4))`
abbrev pub cost_tokens : AgentPricing → ℕ → ℕ
cost_tokens pricing text_length =
    pricing.cost_per_task + get_or pricing.cost_per_token 0 * max 1 ((text_length + 3) / 4)

abbrev pub top_score : List Score → Option ℕ
top_score [] = none
top_score (s ∷ rest) = some s.score

pub outcome_of : Result String → Result ℕ
outcome_of (ok text) = ok (count text)
outcome_of (err e) = err e

abbrev pub no_mechanism : String
no_mechanism = "Error: No delegation mechanism configured (need x402Client or registry)"

pub pricing_of : Option AgentCard → Option AgentPricing
pricing_of none = none
pricing_of (some card) = card.pricing

pub input_of : String → String → Option AgentCard → Option ConsensusInput
input_of name response none = none
input_of name response (some card) =
    some (record { agent_name = name; card = card; response = response })

unfoldable pub kept : Option ConsensusInput → List ConsensusInput → List ConsensusInput
kept none rest = rest
kept (some input) rest = input ∷ rest

unfoldable pub get_agent_url : ToolRouterConfig → String → Option String
get_agent_url cfg agent_name = url_of (lookup agent_name cfg.agents)

unfoldable pub get_card : ToolRouterConfig → String → Option AgentCard
get_card cfg agent_name = card_of (lookup agent_name cfg.agents)

module _ {S : Type 0} (env : Environment) (cfg : ToolRouterConfig) where
  abbrev pub remember : Line → Act S (Unit {0})
  remember line = when cfg.has_memory (append_memory env line)

  -- the `try`/`catch`/`finally` around the call: the span records the outcome, and a throw goes on
  unfoldable pub settle : Call → Result String → Act S String
  unfolding outcome_of
  settle call answer = do
    record_metric (span call.agent_name (count call.text) (outcome_of answer))
    λ w. (answer, w)

  unfoldable pub delegate_task : String → String → String → Act S String
  unfolding settle
  delegate_task agent_url text agent_name =
      let call : Call = record { url = agent_url; text = text; agent_name = agent_name } in
      if cfg.has_delegator
      then (do send call; answer ← ask (λ t. ok (env.reply t call)); settle call answer)
      else settle call (err no_mechanism)

  unfoldable pub charge : String → ℕ → AgentPricing → Act S (Unit {0})
  charge agent_name text_length pricing = do
    ask (λ t. env.consume t agent_name (cost_tokens pricing text_length))
    note_consumed agent_name (cost_tokens pricing text_length)
    remember (deducted (cost_tokens pricing text_length) agent_name pricing)

  unfoldable pub charge_if : String → ℕ → Option AgentPricing → Act S (Unit {0})
  unfolding charge
  charge_if agent_name text_length none = pure tt
  charge_if agent_name text_length (some pricing) = charge agent_name text_length pricing

  unfoldable pub deduct_budget : String → ℕ → Act S (Unit {0})
  unfolding charge_if pricing_of get_card
  deduct_budget agent_name text_length =
      when cfg.has_budget (charge_if agent_name text_length (pricing_of (get_card cfg agent_name)))

  -- one agent of `delegateToMultiple`; a failure leaves it out
  unfoldable pub ask_agent : String → String → Option String → Act S (Option ConsensusInput)
  unfolding input_of get_card
  ask_agent user_text name none = pure none
  ask_agent user_text name (some url) =
      catch
        (do
          deduct_budget name (count user_text)
          response ← delegate_task url user_text name
          pure (input_of name response (get_card cfg name)))
        (λ e. pure none)

  unfoldable pub delegate_to_multiple : List String → String → Act S (List ConsensusInput)
  unfolding ask_agent kept get_agent_url truthy
  delegate_to_multiple [] user_text = pure []
  delegate_to_multiple (name ∷ names) user_text =
      let others = delegate_to_multiple names user_text in
      if str_eq name "orchestrator" then others else (do
        input ← ask_agent user_text name (truthy (get_agent_url cfg name))
        rest ← others
        pure (kept input rest))
