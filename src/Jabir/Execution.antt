-- ===== src/Jabir/Execution.antt =====
-- `executeWithDepth` of src/core/jabir.ts, in the order of its text. The recursion of a handover is on
-- fuel, which `Execution/Depth` is about. Durations of the metrics are left out.
pub mod Depth
pub mod Quiet
pub mod Invariant
pub mod Access
pub mod Outcome
pub mod NoThrow
pub mod Settled
pub mod Recovery
pub mod Bound
mod Tests
use jabr.Base.{
  ℕ, zero, suc, ◌+◌, ◌*◌, ◌/◌, max, String, Bool, true, false, not, ◌&&◌, Option, none, some, List,
  [], ◌∷◌, ◌++◌, ltb, leb, ◌==◌, if◌then◌else◌, length, filter, map, get_or, is_some, map_option,
  truthy, str_eq, includes, includes_text, to_lower_case, first_chars, join, count, concat,
}
use jabr.Agents.{AgentPricing, AgentCard, ToolRouterConfig, ResolvedCaller, HandoverRequest}
use jabr.TaskStore.{
  TaskState, submitted, working, completed, failed, Part, text, file, blob, Role, user, agent,
  Message, Task, TaskStorePort,
}
use jabr.World.{
  World, Act, Result, ok, err, Environment, Knowledge, Line, augmented, acl_denied, routed,
  deducted_at, contested, circular, handed_over, not_resolvable, chain_completed, max_depth,
  completed_task, retrying, buried, TaskInfo, Metric, task_created, task_completed, task_failed,
  cost, pure, throw, gets, catch, ask, ◌>>=◌, ◌>>◌, when, append_memory, record_metric,
  note_consumed, set_store,
}
use jabr.Handover.{
  decode_handover, strip_handover, would_create_cycle, extend_chain, circular_handoff,
}
use jabr.ToolRouter.Routing.{Routed, route_task}
use jabr.ToolRouter.Delegation.{cost_tokens, get_agent_url, get_card, delegate_task}
use jabr.ToolRouter.Verification.{VerificationResult, should_verify_task, run_verification}
use jabr.ToolRouter.Events.{
  emit_task_created, emit_task_progress, emit_task_completed, emit_task_failed, sync_to_kanban,
}
use jabr.Jabir.Job.{
  max_handover_depth, dlq_max_retries, Job, assignee_of, started_at_of, info_of, parents_of,
  knowledge_text, description_of, is_denied, denial_of, contested_text, stripped_or, replies_of,
  is_retryable, pricing_of, child_job,
}

module _ (port : TaskStorePort) (env : Environment) (cfg : ToolRouterConfig) where
  abbrev pub Step : Type 0
  Step = Act port.Store (Unit {0})

  pub update_state : String → TaskState → Step
  update_state task_id state = do
    time ← ask (λ t. ok (env.clock t))
    set_store (λ s. port.update_state s task_id state time)

  -- a text message with a fresh id
  pub say : String → Role → String → Option (List String) → Step
  say task_id role words references = do
    id ← ask (λ t. ok (env.uuid t))
    set_store (λ s. port.append_message s task_id (record {
      message_id = id;
      role = role;
      parts = text words ∷ [];
      context_id = task_id;
      task_id = none;
      reference_task_ids = references;
    }))

  pub begin : Job → Step
  begin job = do
    emit_task_created env cfg job.task_id (assignee_of job) (info_of job)
        (parents_of job.reference_task_ids)
    record_metric (task_created (assignee_of job) job.task_id)

  with_knowledge : Job → List Knowledge → Act port.Store String
  with_knowledge job [] = pure job.user_text
  with_knowledge job (k ∷ ks) = do
    append_memory env (augmented (length (k ∷ ks)))
    pure (concat (knowledge_text (k ∷ ks)) (concat "\n\nUser Task: " job.user_text))

  pub augment : Job → Act port.Store String
  unfolding with_knowledge
  augment job =
      if cfg.has_knowledge && (job.depth == 0)
      then catch (do entries ← ask (λ t. env.query t job.user_text); with_knowledge job entries)
          (λ e. pure job.user_text)
      else pure job.user_text

  found_or : String → Option Routed → Act port.Store Routed
  found_or message none = throw message
  found_or message (some r) = pure r

  forced_or : Option String → Option Routed → Option Routed
  forced_or none r = r
  forced_or (some name) r = some (record { agent_name = name; label = name })

  pub choose : Job → Act port.Store Routed
  unfolding found_or forced_or truthy
  choose job =
      found_or "No agents discovered — cannot route task"
        (forced_or (truthy job.forced_agent_name) (route_task job.user_text cfg.agents))

  pub authorize : Job → String → Step
  authorize job agent_name = when (is_denied job.caller agent_name) (do
    append_memory env (acl_denied (denial_of job.caller agent_name))
    throw (denial_of job.caller agent_name))

  pub url_or : String → Option String → Act port.Store String
  url_or agent_name none = throw (concat "No URL configured for agent: " agent_name)
  url_or agent_name (some url) = pure url

  pub charge : Job → String → ℕ → Option AgentPricing → Step
  charge job agent_name text_length none = pure tt
  charge job agent_name text_length (some pricing) = do
    ask (λ t. env.consume t agent_name (cost_tokens pricing text_length))
    note_consumed agent_name (cost_tokens pricing text_length)
    append_memory env (deducted_at job.depth (cost_tokens pricing text_length) agent_name pricing)
    when (ltb 0 (cost_tokens pricing text_length))
        (record_metric (cost agent_name job.task_id (cost_tokens pricing text_length)))

  pub pay : Job → String → String → Step
  unfolding charge
  pay job agent_name words =
      when cfg.has_budget
        (charge job agent_name (count words) (pricing_of (get_card cfg agent_name)))

  contest : Job → String → Option VerificationResult → Act port.Store String
  contest job result none = pure result
  contest job result (some v) =
      if v.contested
      then (do
        append_memory env (contested job.depth v.winner v.confidence v.threshold)
        pure (contested_text env result v))
      else pure result

  pub cross_check : Job → String → String → String → Act port.Store String
  unfolding contest
  cross_check job words result agent_name =
      if should_verify_task cfg words
      then catch
          (do
            verdict ← run_verification env cfg words result agent_name
            contest job result verdict)
          (λ e. pure result)
      else pure result

  -- the end of a task that no handover continues
  pub complete : Job → String → Step
  complete job result = do
    update_state job.task_id completed
    say job.task_id agent result none
    append_memory env (completed_task (count result))
    emit_task_completed env cfg job.task_id result (info_of job) (started_at_of job)
    record_metric (task_completed (assignee_of job) job.task_id)
    sync_to_kanban port env cfg job.task_id result

  pub reject_cycle : Job → String → Step
  reject_cycle job message = do
    append_memory env (circular job.depth message)
    update_state job.task_id failed
    say job.task_id agent message none
    emit_task_failed env cfg job.task_id message (info_of job) (started_at_of job) false 0
    record_metric (task_failed (assignee_of job) job.task_id message)

  resolve_target : Job → String → Option String → Act port.Store (Option String)
  resolve_target job target none = do append_memory env (not_resolvable job.depth target); pure none
  resolve_target job target (some url) = pure (some target)

  -- an empty target is neither looked up nor reported
  pub target_of : Job → Option String → Act port.Store (Option String)
  unfolding resolve_target truthy
  target_of job none = pure none
  target_of job (some target) = resolve_target job target (truthy (get_agent_url cfg target))

  -- the end of a task that a child task has continued
  pub adopt : Job → String → Step
  adopt job child_id = do
    words ← gets (λ w. replies_of (port.get w.store child_id))
    update_state job.task_id completed
    say job.task_id agent words (some (child_id ∷ []))
    append_memory env (chain_completed job.depth (count words))
    emit_task_completed env cfg job.task_id words (info_of job) (started_at_of job)
    record_metric (task_completed (assignee_of job) job.task_id)

  -- `launch` runs the child, given its id and the agent that is forced on it.
  pub hand_over : (String → Option String → Step) → Job → String → String → HandoverRequest → Step
  unfolding target_of truthy
  hand_over launch job agent_name result handover = do
    append_memory env (handed_over job.depth agent_name handover.transfer_to handover.reason)
    say job.task_id agent (strip_handover result) none
    child_id ← ask (λ t. ok (env.uuid t))
    set_store (λ s. port.create s child_id)
    update_state job.task_id working
    forced ← target_of job (truthy (some handover.transfer_to))
    say child_id user (get_or (truthy (some handover.context)) job.user_text)
        (some (job.task_id ∷ job.reference_task_ids))
    launch child_id forced
    adopt job child_id

  pub conclude : (Job → Step) → Job → String → String → Option HandoverRequest → Step
  conclude child job agent_name result none = complete job result
  conclude child job agent_name result (some handover) =
      if ltb job.depth max_handover_depth
      then (if would_create_cycle job.handover_chain handover.transfer_to
          then reject_cycle job (circular_handoff job.handover_chain handover.transfer_to)
          else hand_over (λ id forced. child (child_job job handover agent_name id forced)) job
              agent_name result handover)
      else (do append_memory env (max_depth job.depth); complete job (stripped_or result))

  -- the `try` block; `finish` is its end, from the handover test on
  pub attempt : (String → String → Option HandoverRequest → Step) → Job → Step
  unfolding augment choose url_or truthy pay cross_check
  attempt finish job = do
    update_state job.task_id working
    emit_task_progress env cfg job.task_id 5 "queued"
    words ← augment job
    target ← choose job
    authorize job target.agent_name
    append_memory env (routed job.depth job.user_text target.label (description_of job.caller))
    url ← url_or target.agent_name (truthy (get_agent_url cfg target.agent_name))
    pay job target.agent_name words
    answer ← delegate_task env cfg url words target.agent_name
    result ← cross_check job words answer target.agent_name
    finish target.agent_name result (decode_handover env.parse_handover result)

  pub give_up : Job → String → ℕ → Step
  give_up job message retries = do
    update_state job.task_id failed
    say job.task_id agent (concat "Error: " message) none
    when (is_retryable message && leb dlq_max_retries retries) (do
      time ← ask (λ t. ok (env.clock t))
      set_store (λ s. port.move_to_dlq s job.task_id message time)
      append_memory env (buried job.task_id retries))
    emit_task_failed env cfg job.task_id message (info_of job) (started_at_of job)
        (is_retryable message) retries
    record_metric (task_failed (assignee_of job) job.task_id message)

  pub retry : Job → String → ℕ → Step
  retry job message retries = do
    set_store (λ s. port.increment_retry_count s job.task_id)
    append_memory env (retrying (retries + 1) job.task_id message)
    update_state job.task_id submitted

  -- the `catch` block
  pub recover : Job → String → Step
  unfolding give_up retry
  recover job message = do
    retries ← gets (λ w. port.get_retry_count w.store job.task_id)
    (if is_retryable message && ltb retries dlq_max_retries
        then retry job message retries
        else give_up job message retries)

  pub with_depth : (Job → Step) → Job → Step
  with_depth child job = do begin job; catch (attempt (conclude child job) job) (recover job)

  pub run : ℕ → Job → Step
  run zero job = pure tt
  run (suc fuel) job = with_depth (run fuel) job

  abbrev first_job : String → String → Option ResolvedCaller → Job
  first_job task_id user_text caller = record {
    task_id = task_id;
    user_text = user_text;
    depth = 0;
    caller = caller;
    reference_task_ids = [];
    forced_agent_name = none;
    handover_chain = [];
    task_meta = none;
  }

  pub execute : String → String → Option ResolvedCaller → Step
  execute task_id user_text caller =
      run (suc max_handover_depth) (first_job task_id user_text caller)
