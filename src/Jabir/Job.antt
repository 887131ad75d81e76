-- ===== src/Jabir/Job.antt =====
-- The arguments of `executeWithDepth` in src/core/jabir.ts, and the texts that it makes.
use jabr.Base.{
  ℕ, ◌+◌, String, Bool, true, false, not, ◌&&◌, Option, none, some, List, [], ◌∷◌, ltb, length,
  filter, map, get_or, truthy, includes, includes_text, to_lower_case, first_chars, join, concat,
}
use jabr.Agents.{AgentPricing, AgentCard, ResolvedCaller, HandoverRequest}
use jabr.TaskStore.{Part, text, file, blob, Role, user, agent, Task}
use jabr.World.{Environment, Knowledge, TaskInfo}
use jabr.Handover.{strip_handover, extend_chain}
use jabr.ToolRouter.Verification.{VerificationResult}

-- MAX_HANDOVER_DEPTH and DLQ_MAX_RETRIES
abbrev pub max_handover_depth : ℕ
max_handover_depth = 3

abbrev pub dlq_max_retries : ℕ
dlq_max_retries = 3

pub record TaskMeta : Type 0 where
  pub title : Option String
  pub assignee : Option String
  pub priority : Option ℕ
  pub started_at : Option ℕ
  pub retry_count : Option ℕ

-- the arguments of `executeWithDepth`
pub record Job : Type 0 where
  pub task_id : String
  pub user_text : String
  pub depth : ℕ
  pub caller : Option ResolvedCaller
  pub reference_task_ids : List String
  pub forced_agent_name : Option String
  pub handover_chain : List String
  pub task_meta : Option TaskMeta

abbrev pub meta_field {ℓ} : {A : Type ℓ} → (TaskMeta → Option A) → Option TaskMeta → Option A
meta_field field none = none
meta_field field (some meta) = field meta

abbrev pub assignee_of : Job → String
assignee_of job = get_or (meta_field (λ m. m.assignee) job.task_meta) "JABIR"

abbrev pub title_of : Job → String
unfolding first_chars
title_of job = get_or (meta_field (λ m. m.title) job.task_meta) (first_chars 80 job.user_text)

abbrev pub started_at_of : Job → Option ℕ
started_at_of job = meta_field (λ m. m.started_at) job.task_meta

unfoldable pub info_of : Job → TaskInfo
unfolding first_chars
info_of job = record {
  title = title_of job;
  assignee = assignee_of job;
  priority = get_or (meta_field (λ m. m.priority) job.task_meta) 0;
}

abbrev pub parents_of : List String → Option (List String)
parents_of [] = none
parents_of (id ∷ ids) = some (id ∷ ids)

-- the context of a query, joined
unfoldable pub knowledge_text : List Knowledge → String
unfolding join
knowledge_text entries =
    join "\n\n"
      (map (λ k. concat "[Palace Knowledge: " (concat k.slug (concat "]\n" k.content))) entries)

unfoldable pub description_of : Option ResolvedCaller → Option String
description_of none = none
description_of (some c) = some c.description

pub denial : ResolvedCaller → String → String
unfolding join
denial c agent_name = concat "Caller \"" (
    concat c.description (
      concat "\" is not authorized to invoke agent \""
        (concat agent_name (concat "\" (allowed: [" (concat (join ", " c.allowed_agents) "])")))))

-- `caller && caller.allowedAgents.length > 0 && !caller.allowedAgents.includes(agentName)`
abbrev pub is_denied : Option ResolvedCaller → String → Bool
is_denied none agent_name = false
is_denied (some c) agent_name =
    ltb 0 (length c.allowed_agents) && not (includes c.allowed_agents agent_name)

abbrev pub denial_of : Option ResolvedCaller → String → String
unfolding denial
denial_of none agent_name = ""
denial_of (some c) agent_name = denial c agent_name

unfoldable pub contested_text : Environment → String → VerificationResult → String
contested_text env result v = concat result (
    concat "\n\n---\n**SHURA verification CONTESTED** (threshold: " (
      concat (env.show v.threshold) (
        concat ", winner score: " (
          concat (env.fixed3 v.confidence)
            (concat "). Winner: " (concat v.winner ". Review recommended."))))))

-- `result.replace(/%%HANDOVER%%.*$/, "").trim() || result`
unfoldable pub stripped_or : String → String
unfolding strip_handover truthy
stripped_or result = get_or (truthy (some (strip_handover result))) result

text_of_part : Part → String
text_of_part (text t) = t
text_of_part (file f) = ""
text_of_part (blob b) = ""

is_agent : Role → Bool
is_agent agent = true
is_agent user = false

-- the texts of the agent's messages, one to a line
unfoldable pub replies_of : Option Task → String
unfolding text_of_part is_agent join
replies_of none = ""
replies_of (some task) =
    join "\n"
      (map (λ m. join "" (map text_of_part m.parts)) (filter (λ m. is_agent m.role) task.messages))

-- `/timeout/i.test(message) && !/cancel/i.test(message)`
unfoldable pub is_retryable : String → Bool
unfolding to_lower_case includes_text
is_retryable message =
    includes_text (to_lower_case message) "timeout"
    && not (includes_text (to_lower_case message) "cancel")

unfoldable pub pricing_of : Option AgentCard → Option AgentPricing
pricing_of none = none
pricing_of (some card) = card.pricing

-- the call of `executeWithDepth` for the child of a handover
unfoldable pub child_job : Job → HandoverRequest → String → String → Option String → Job
unfolding truthy extend_chain first_chars
child_job job handover agent_name child_id forced = record {
  task_id = child_id;
  user_text = get_or (truthy (some handover.context)) job.user_text;
  depth = job.depth + 1;
  caller = job.caller;
  reference_task_ids = job.task_id ∷ job.reference_task_ids;
  forced_agent_name = forced;
  handover_chain = extend_chain job.handover_chain agent_name;
  task_meta = some (record {
    title = some (title_of job);
    assignee = some (get_or forced (assignee_of job));
    priority = some (get_or (meta_field (λ m. m.priority) job.task_meta) 0);
    started_at = started_at_of job;
    retry_count = some (get_or (meta_field (λ m. m.retry_count) job.task_meta) 0);
  });
}
