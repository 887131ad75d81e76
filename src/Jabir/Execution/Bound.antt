-- ===== src/Jabir/Execution/Bound.antt =====
-- How many delegations an execution of src/core/jabir.ts makes.
use jabr.Base.{
  ℕ, zero, suc, ◌+◌, ◌≤◌, String, ◌≡◌, Option, none, some, [], ◌∷◌, arith, length, length-append,
  ltb,
}
use jabr.Agents.{ToolRouterConfig, HandoverRequest, ResolvedCaller}
use jabr.TaskStore.{working, TaskStorePort}
use jabr.World.{World, Act, Result, err, Environment, Call, ◌>>=◌, send, record_metric}
use jabr.World.Keeps.{Keeps, keeps_rules, Keeps-set_store, Keeps-ask, Keeps-append_memory}
use jabr.World.Takes.{AtMost, Takes, Takes-bind, Takes-of-Keeps, Takes-if, Takes-catch}
use jabr.Handover.{would_create_cycle}
use jabr.ToolRouter.Delegation.{delegate_task, settle, no_mechanism}
use jabr.Jabir.Job.{max_handover_depth, Job, child_job}
use jabr.Jabir.Execution.Access.{calls_only, cross_check-Sends}
use jabr.Jabir.Execution.Invariant.{
  IsClosed, update_state-Sends, say-Sends, complete-Sends, reject_cycle-Sends, adopt-Sends,
  recover-Sends,
}
use jabr.Jabir.Execution.Quiet.{
  begin-Quiet, progress-Quiet, augment-Quiet, choose-Quiet, url_or-Quiet, pay-Quiet,
  target_of-Quiet,
}
use jabr.Jabir.Execution.{
  Step, authorize, hand_over, conclude, attempt, with_depth, run, execute, first_job,
}

module _ (port : TaskStorePort) (env : Environment) (cfg : ToolRouterConfig) where
  closed : (n : ℕ) → IsClosed port env cfg (AtMost n)
  closed n = calls_only port env cfg (λ calls. length calls ≤ n)

  -- a step that delegates nothing, before the rest
  first :
      {A B : Type 0} (n k : ℕ) (m : Act port.Store A) (f : A → Act port.Store B)
      → n ≤ k
      → Keeps (AtMost n) m
      → ((a : A) → Takes n k (f a))
      → Takes n k (m >>= f)
  first n k m f le km tf = Takes-bind n n k m f le (Takes-of-Keeps n n m (omega arith) km) tf

  settle-Keeps :
      (n : ℕ) (call : Call) (answer : Result String)
      → Keeps {S = port.Store} (AtMost n) (settle env cfg call answer)
  unfolding settle ◌>>=◌ record_metric
  settle-Keeps n call answer = record { at = λ w p. p }

  send-Takes : (n : ℕ) (call : Call) → Takes {S = port.Store} n (suc n) (send call)
  unfolding send
  send-Takes n call = record {
    at = λ w h. let law = length-append w.calls (call ∷ []) in omega arith;
  }

  delegate_task-Takes :
      (n : ℕ) (url words agent_name : String)
      → Takes {S = port.Store} n (suc n) (delegate_task env cfg url words agent_name)
  unfolding delegate_task
  delegate_task-Takes n url words agent_name =
      let call : Call = record { url = url; text = words; agent_name = agent_name } in
      Takes-if n (suc n) cfg.has_delegator _ _
        (Takes-bind n (suc n) (suc n) _ _ (omega arith) (send-Takes n call) λ _.
          Takes-bind (suc n) (suc n) (suc n) _ _ (omega arith)
            (Takes-of-Keeps (suc n) (suc n) _ (omega arith) (Keeps-ask _))
            λ answer.
              Takes-of-Keeps (suc n) (suc n) _ (omega arith) (settle-Keeps (suc n) call answer))
        (Takes-of-Keeps n (suc n) _ (omega arith) (settle-Keeps n call (err no_mechanism)))

  hand_over-Takes :
      (n k : ℕ) (launch : String → Option String → Step port env cfg) (job : Job)
      (agent_name result : String) (t : HandoverRequest)
      → n ≤ k
      → ((id : String) (forced : Option String) → Takes n k (launch id forced))
      → Takes n k (hand_over port env cfg launch job agent_name result t)
  unfolding hand_over
  hand_over-Takes n k launch job agent_name result t le launched =
      let said = say-Sends port env cfg (AtMost n) (closed n) in
      first n k _ _ le (Keeps-append_memory _ _) λ _. first n k _ _ le (said job.task_id _ _ _) λ _.
        first n k _ _ le (Keeps-ask _) λ child_id.
          first n k _ _ le (Keeps-set_store _ (λ calls s h. h)) λ _.
            first n k _ _ le
              (update_state-Sends port env cfg (AtMost n) (closed n) job.task_id working)
              λ _. first n k _ _ le (target_of-Quiet port env cfg _ job _) λ forced.
                first n k _ _ le (said child_id _ _ _) λ _.
                  Takes-bind n k k _ _ (omega arith) (launched child_id forced) λ _.
                    Takes-of-Keeps k k _ (omega arith)
                      (adopt-Sends port env cfg (AtMost k) (closed k) job child_id)

  conclude-Takes :
      (n k : ℕ) (child : Job → Step port env cfg) (job : Job) (agent_name result : String)
      (t : Option HandoverRequest)
      → n ≤ k
      → ((j : Job) → Takes n k (child j))
      → Takes n k (conclude port env cfg child job agent_name result t)
  unfolding conclude
  conclude-Takes n k child job agent_name result none le h =
      Takes-of-Keeps n k _ le (complete-Sends port env cfg (AtMost n) (closed n) job result)
  conclude-Takes n k child job agent_name result (some t) le h =
      Takes-if n k (ltb job.depth max_handover_depth) _ _
        (Takes-if n k (would_create_cycle job.handover_chain t.transfer_to) _ _
          (Takes-of-Keeps n k _ le (reject_cycle-Sends port env cfg (AtMost n) (closed n) job _))
          (hand_over-Takes n k _ job agent_name result t le
            (λ id forced. h (child_job job t agent_name id forced))))
        (first n k _ _ le (Keeps-append_memory _ _)
          λ _. Takes-of-Keeps n k _ le (complete-Sends port env cfg (AtMost n) (closed n) job _))

  authorize-Keeps :
      (n : ℕ) (job : Job) (agent_name : String)
      → Keeps (AtMost n) (authorize port env cfg job agent_name)
  unfolding authorize
  authorize-Keeps n job agent_name = search keeps_rules

  attempt-Takes :
      (n k : ℕ) (finish : String → String → Option HandoverRequest → Step port env cfg) (job : Job)
      → cfg.verification ≡ none
      → suc n ≤ k
      → ((agent_name result : String) (t : Option HandoverRequest)
          → Takes (suc n) k (finish agent_name result t))
      → Takes n k (attempt port env cfg finish job)
  unfolding attempt
  attempt-Takes n k finish job off le tf =
      let le' : n ≤ k = omega arith in
      let checked = cross_check-Sends port env cfg (λ calls. length calls ≤ suc n) off in
      first n k _ _ le' (update_state-Sends port env cfg (AtMost n) (closed n) job.task_id working)
        λ _. first n k _ _ le' (progress-Quiet port env cfg _ job.task_id 5 "queued") λ _.
          first n k _ _ le' (augment-Quiet port env cfg _ job) λ words.
            first n k _ _ le' (choose-Quiet port env cfg _ job) λ target.
              first n k _ _ le' (authorize-Keeps n job target.agent_name) λ _.
                first n k _ _ le' (Keeps-append_memory _ _) λ _.
                  first n k _ _ le' (url_or-Quiet port env cfg _ target.agent_name _) λ url.
                    first n k _ _ le' (pay-Quiet port env cfg _ job target.agent_name words) λ _.
                      Takes-bind n (suc n) k _ _ le
                        (delegate_task-Takes n url words target.agent_name)
                        λ answer.
                          first (suc n) k _ _ le (checked job words answer target.agent_name)
                            λ result. tf target.agent_name result _

  run-Takes :
      (n fuel : ℕ) (job : Job)
      → cfg.verification ≡ none
      → Takes n (n + fuel) (run port env cfg fuel job)
  unfolding run with_depth
  run-Takes n zero job off = record { at = λ w h. omega arith }
  run-Takes n (suc fuel) job off =
      let k = n + suc fuel in
      let same : suc n + fuel ≡ k = omega arith in
      let child : (j : Job) → Takes (suc n) k (run port env cfg fuel j) =
        λ j. rw (← same) (run-Takes (suc n) fuel j off) in
      first n k _ _ (omega arith) (begin-Quiet port env cfg _ job) λ _.
        Takes-catch n k _ _
          (attempt-Takes n k _ job off (omega arith) (λ a r t.
            conclude-Takes (suc n) k (run port env cfg fuel) job a r t (omega arith) child))
          (λ e. recover-Sends port env cfg (AtMost k) (closed k) job e)

-- Without SHURA verification, the execution of a task makes at most four delegations, one more than
-- the greatest depth of a handover, whatever handovers the agents answer with.
pub execute-calls-le :
    (port : TaskStorePort) (env : Environment) (cfg : ToolRouterConfig) (task_id user_text : String)
    (caller : Option ResolvedCaller) (w : World port.Store)
    → cfg.verification ≡ none
    → length (execute port env cfg task_id user_text caller w).1.calls
      ≤ length w.calls + suc max_handover_depth
unfolding execute
execute-calls-le port env cfg task_id user_text caller w off =
    let job = first_job port env cfg task_id user_text caller in
    (run-Takes port env cfg (length w.calls) (suc max_handover_depth) job off).at w (omega arith)
