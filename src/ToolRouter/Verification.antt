-- ===== src/ToolRouter/Verification.antt =====
-- The check of a high-stakes result by a peer: `shouldVerifyTask` and `runVerification` of
-- src/core/tool-router.ts.
pub mod Peers
use jabr.Base.{
  ℕ, ◌+◌, String, Bool, true, false, not, ◌&&◌, ◌||◌, Option, none, some, List, [], ◌∷◌, ltb, leb,
  if◌then◌else◌, length, filter, get_or, str_eq, truthy, includes_text, to_lower_case, trim,
  split_on, count, keys,
}
use jabr.Agents.{AgentCard, ToolRouterConfig, VerificationConfig}
use jabr.World.{Act, Environment, ConsensusInput, ConsensusResult, Score, pure, ask, ◌>>=◌}
use jabr.ToolRouter.Delegation.{top_score, get_agent_url, get_card, ask_agent, kept}

pub record VerificationResult : Type 0 where
  pub consensus : Bool
  pub confidence : ℕ
  pub winner : String
  pub synthesized : String
  pub scores : List Score
  pub contested : Bool
  pub threshold : ℕ
  pub participant_count : ℕ

-- what `runVerification` makes of the evaluation
abbrev pub verdict : ℕ → ℕ → ConsensusResult → VerificationResult
verdict threshold participants result =
    let top = get_or (top_score result.scores) 0 in
    record {
      consensus = leb threshold top;
      confidence = top;
      winner = result.winner.agent_name;
      synthesized = result.synthesized;
      scores = result.scores;
      contested = not (leb threshold top);
      threshold = threshold;
      participant_count = participants;
    }

-- the answer for a specialist with no peer; the score 0.5 is 500 thousandths
abbrev pub unchecked : ℕ → String → String → ℕ → VerificationResult
unchecked threshold agent_name result participants = record {
  consensus = true;
  confidence = 500;
  winner = agent_name;
  synthesized = result;
  scores =
      record {
        agent_name = agent_name;
        score = 500;
        reason = "single-agent result (no peer available)";
      }
      ∷ [];
  contested = false;
  threshold = threshold;
  participant_count = participants;
}

abbrev empty_card : String → AgentCard
empty_card name = record {
  name = name;
  skills = [];
  success_rate = none;
  response_time = none;
  pricing = none;
}

abbrev pub enabled : Option VerificationConfig → Option VerificationConfig
enabled none = none
enabled (some v) = if v.enabled then some v else none

own_input : ToolRouterConfig → String → String → ConsensusInput
unfolding get_card
own_input cfg agent_name result = record {
  agent_name = agent_name;
  card = get_or (get_card cfg agent_name) (empty_card agent_name);
  response = result;
}

module _ {S : Type 0} (env : Environment) (cfg : ToolRouterConfig) where
  -- the first other agent is asked the same; what it throws is dropped
  ask_peer : String → List String → Act S (List ConsensusInput)
  unfolding ask_agent kept get_agent_url truthy
  ask_peer task_text [] = pure []
  ask_peer task_text (name ∷ rest) = do
    input ← ask_agent env cfg task_text name (truthy (get_agent_url cfg name))
    pure (kept input [])

  judge :
      VerificationConfig → String → String → String → List ConsensusInput → Act S VerificationResult
  unfolding own_input
  judge v task_text result agent_name [] =
      pure (unchecked v.consensus_threshold agent_name result 1)
  judge v task_text result agent_name (peer ∷ peers) = do
    evaluation ←
        ask (λ t. env.evaluate t (own_input cfg agent_name result ∷ peer ∷ peers) task_text)
    pure (verdict v.consensus_threshold (length (peer ∷ peers) + 1) evaluation)

  verify_with :
      Option VerificationConfig → String → String → String → Act S (Option VerificationResult)
  unfolding ask_peer judge keys
  verify_with none task_text result agent_name = pure none
  verify_with (some v) task_text result agent_name =
      if cfg.has_cognitive_loop
      then (do
        peers ← ask_peer task_text (
            filter (λ n. not (str_eq n agent_name) && not (str_eq n v.agent_name))
              (keys cfg.agents))
        answer ← judge v task_text result agent_name peers
        pure (some answer))
      else pure none

  pub run_verification : String → String → String → Act S (Option VerificationResult)
  unfolding verify_with
  run_verification task_text result agent_name =
      verify_with (enabled cfg.verification) task_text result agent_name

keyword_hits : String → List String → Bool
unfolding to_lower_case trim includes_text
keyword_hits lower [] = false
keyword_hits lower (k ∷ ks) =
    (ltb 0 (count (to_lower_case (trim k))) && includes_text lower (to_lower_case (trim k)))
    || keyword_hits lower ks

abbrev hits : Option VerificationConfig → String → Bool
hits none task_text = false
hits (some v) task_text =
    v.enabled && keyword_hits (to_lower_case task_text) (split_on b',' v.keywords)

unfoldable pub should_verify_task : ToolRouterConfig → String → Bool
unfolding keyword_hits split_on to_lower_case
should_verify_task cfg task_text = hits cfg.verification task_text
