-- ===== src/Jabir/Execution/Invariant.antt =====
-- What the execution of a task in src/core/jabir.ts keeps: an invariant of the delegations and the
-- task store that each write of the store keeps, and each delegation that is made.
use jabr.Base.{
  ℕ, zero, suc, String, ◌≡◌, refl, false, Option, none, some, List, [], ◌∷◌, ◌++◌, ltb, Bool-cases,
  inl, inr,
}
use jabr.Agents.{ToolRouterConfig, HandoverRequest}
use jabr.TaskStore.{working, TaskState, Role, Message, TaskStorePort}
use jabr.World.{Act, Result, Environment, Call, ◌>>=◌, set_store, send, record_metric, ask, ◌>>◌}
use jabr.World.Keeps.{
  Keeps, keeps_rules, Keeps-send, Keeps-set_store, Keeps-bind, Keeps-append_memory, Keeps-stopped,
  Keeps-if, Keeps-pure, Keeps-catch, Keeps-ask,
}
use jabr.ToolRouter.Delegation.{settle, delegate_task}
use jabr.Handover.{would_create_cycle}
use jabr.Jabir.Job.{max_handover_depth, Job, child_job, is_denied}
use jabr.Jabir.Execution.Quiet.{
  begin-Quiet, kanban-Quiet, augment-Quiet, choose-Quiet, url_or-Quiet, pay-Quiet, target_of-Quiet,
  progress-Quiet, completed-Quiet, failed-Quiet,
}
use jabr.Jabir.Execution.{
  Step, update_state, say, authorize, cross_check, complete, reject_cycle, adopt, hand_over,
  conclude, attempt, recover, with_depth, run, give_up, retry,
}

module _ (port : TaskStorePort) (env : Environment) (cfg : ToolRouterConfig)
    (R : List Call → port.Store → Type 0) where
  abbrev pub Sends : {A : Type 0} → Act port.Store A → Type 0
  Sends m = Keeps R m

  -- No write of the task store breaks the invariant.
  pub record IsClosed : Type 0 where
    pub update_ok :
        (calls : List Call) (s : port.Store) (id : String) (state : TaskState) (now : ℕ)
        → R calls s
        → R calls (port.update_state s id state now)
    pub append_ok :
        (calls : List Call) (s : port.Store) (id : String) (message : Message)
        → R calls s
        → R calls (port.append_message s id message)
    pub create_ok :
        (calls : List Call) (s : port.Store) (id : String) → R calls s → R calls (port.create s id)
    pub increment_ok :
        (calls : List Call) (s : port.Store) (id : String)
        → R calls s
        → R calls (port.increment_retry_count s id)
    pub bury_ok :
        (calls : List Call) (s : port.Store) (id error : String) (now : ℕ)
        → R calls s
        → R calls (port.move_to_dlq s id error now)

  ruleset sends = (
    keeps_rules, begin-Quiet, kanban-Quiet, augment-Quiet, choose-Quiet, url_or-Quiet, pay-Quiet,
    target_of-Quiet, progress-Quiet, completed-Quiet, failed-Quiet,
  )

  module _ (closed : IsClosed) where
    updated :
        (id : String) (state : TaskState) (now : ℕ)
        → Sends (set_store (λ s. port.update_state s id state now))
    updated id state now = Keeps-set_store _ (λ calls s h. closed.update_ok calls s id state now h)

    appended :
        (id : String) (message : Message)
        → Sends (set_store (λ s. port.append_message s id message))
    appended id message = Keeps-set_store _ (λ calls s h. closed.append_ok calls s id message h)

    pub created : (id : String) → Sends (set_store (λ s. port.create s id))
    created id = Keeps-set_store _ (λ calls s h. closed.create_ok calls s id h)

    incremented : (id : String) → Sends (set_store (λ s. port.increment_retry_count s id))
    incremented id = Keeps-set_store _ (λ calls s h. closed.increment_ok calls s id h)

    put_away :
        (id error : String) (now : ℕ) → Sends (set_store (λ s. port.move_to_dlq s id error now))
    put_away id error now = Keeps-set_store _ (λ calls s h. closed.bury_ok calls s id error now h)

    pub update_state-Sends :
        (id : String) (state : TaskState) → Sends (update_state port env cfg id state)
    unfolding update_state
    update_state-Sends id state = Keeps-bind _ _ (Keeps-ask _) (λ time. updated id state time)

    pub say-Sends :
        (id : String) (role : Role) (words : String) (references : Option (List String))
        → Sends (say port env cfg id role words references)
    unfolding say
    say-Sends id role words references = Keeps-bind _ _ (Keeps-ask _) (λ m. appended id _)

    pub complete-Sends : (job : Job) (result : String) → Sends (complete port env cfg job result)
    unfolding complete
    complete-Sends job result = search (sends, update_state-Sends, say-Sends) depth 12

    pub reject_cycle-Sends :
        (job : Job) (message : String) → Sends (reject_cycle port env cfg job message)
    unfolding reject_cycle
    reject_cycle-Sends job message = search (sends, update_state-Sends, say-Sends) depth 12

    pub adopt-Sends : (job : Job) (id : String) → Sends (adopt port env cfg job id)
    unfolding adopt
    adopt-Sends job id = search (sends, update_state-Sends, say-Sends) depth 12

    give_up-Sends :
        (job : Job) (message : String) (retries : ℕ)
        → Sends (give_up port env cfg job message retries)
    unfolding give_up
    give_up-Sends job message retries =
        search (sends, update_state-Sends, say-Sends, put_away) depth 12

    retry-Sends :
        (job : Job) (message : String) (retries : ℕ)
        → Sends (retry port env cfg job message retries)
    unfolding retry
    retry-Sends job message retries = search (sends, update_state-Sends, incremented)

    pub recover-Sends : (job : Job) (message : String) → Sends (recover port env cfg job message)
    unfolding recover
    recover-Sends job message = search (sends, retry-Sends, give_up-Sends)

    pub hand_over-Sends :
        (launch : String → Option String → Step port env cfg) (job : Job) (agent result : String)
        (t : HandoverRequest)
        → ((id : String) (forced : Option String) → Sends (launch id forced))
        → Sends (hand_over port env cfg launch job agent result t)
    unfolding hand_over
    hand_over-Sends launch job agent result t h =
        search (sends, update_state-Sends, say-Sends, adopt-Sends, created, h) depth 12

    -- What follows the access check may use that it passed.
    pub authorize-Sends :
        (job : Job) (agent_name : String) (rest : Step port env cfg)
        → (is_denied job.caller agent_name ≡ false → Sends rest)
        → Sends (authorize port env cfg job agent_name >> rest)
    unfolding authorize ◌>>=◌
    authorize-Sends job agent_name rest h = elim (Bool-cases (is_denied job.caller agent_name)) [
      | inl denied ↦ rw denied (Keeps-stopped _ _ _ (Keeps-append_memory _ _))
      | inr passed ↦ rw passed (record { at = λ w p. (h passed).at w p })
    ]

    settle-Sends : (call : Call) (answer : Result String) → Sends (settle env cfg call answer)
    unfolding settle ◌>>=◌ record_metric
    settle-Sends call answer = record { at = λ w p. p }

    pub delegate-Sends :
        (url words agent_name : String)
        → ((calls : List Call) (s : port.Store)
            → R calls s
            → R (calls ++ record { url = url; text = words; agent_name = agent_name } ∷ []) s)
        → Sends (delegate_task env cfg url words agent_name)
    unfolding delegate_task ◌>>=◌ send record_metric ask
    delegate-Sends url words agent_name h =
        let call : Call = record { url = url; text = words; agent_name = agent_name } in
        let sent : Sends (send call) = Keeps-send call (λ calls s p. h calls s p) in
        search (keeps_rules, sent, settle-Sends) depth 7

    -- A delegation for the job to an agent that its caller may reach keeps `P`.
    abbrev pub IsOpenTo : Job → Type 0
    IsOpenTo job =
        (call : Call)
        → is_denied job.caller call.agent_name ≡ false
        → (calls : List Call) (s : port.Store) → R calls s
        → R (calls ++ call ∷ []) s

    -- The check by a peer keeps the invariant.
    abbrev pub IsChecked : Type 0
    IsChecked =
        (job : Job) (words result agent_name : String)
        → Sends (cross_check port env cfg job words result agent_name)

    pub attempt-Sends :
        (finish : String → String → Option HandoverRequest → Step port env cfg) (job : Job)
        → IsChecked
        → IsOpenTo job
        → ((agent_name result : String) (t : Option HandoverRequest)
            → Sends (finish agent_name result t))
        → Sends (attempt port env cfg finish job)
    unfolding attempt
    attempt-Sends finish job checked allowed kf =
        Keeps-bind _ _ (update_state-Sends job.task_id working) λ _.
          Keeps-bind _ _ (progress-Quiet port env cfg _ job.task_id 5 "queued") λ _.
            Keeps-bind _ _ (augment-Quiet port env cfg _ job) λ words.
              Keeps-bind _ _ (choose-Quiet port env cfg _ job) λ target.
                authorize-Sends job target.agent_name _ λ passed.
                  Keeps-bind _ _ (Keeps-append_memory _ _) λ _.
                    Keeps-bind _ _ (url_or-Quiet port env cfg _ target.agent_name _) λ url.
                      Keeps-bind _ _ (pay-Quiet port env cfg _ job target.agent_name words) λ _.
                        Keeps-bind _ _
                          (delegate-Sends url words target.agent_name
                            (λ calls s p. allowed _ passed calls s p))
                          λ answer.
                            Keeps-bind _ _ (checked job words answer target.agent_name)
                              λ result. kf target.agent_name result _

    pub conclude-Sends :
        (child : Job → Step port env cfg) (job : Job) (agent_name result : String)
        (t : Option HandoverRequest)
        → ((j : Job) → j.caller ≡ job.caller → Sends (child j))
        → Sends (conclude port env cfg child job agent_name result t)
    unfolding conclude child_job
    conclude-Sends child job agent_name result none h = complete-Sends job result
    conclude-Sends child job agent_name result (some t) h =
        Keeps-if (ltb job.depth max_handover_depth) _ _
          (λ _.
            Keeps-if (would_create_cycle job.handover_chain t.transfer_to) _ _
              (λ _. reject_cycle-Sends job _)
              (λ _.
                hand_over-Sends _ job agent_name result t
                  (λ id forced. h (child_job job t agent_name id forced) refl)))
          (λ _. Keeps-bind _ _ (Keeps-append_memory _ _) (λ _. complete-Sends job _))

    pub run-Sends :
        (fuel : ℕ) (job : Job) → IsChecked → IsOpenTo job → Sends (run port env cfg fuel job)
    unfolding run with_depth
    run-Sends zero job checked allowed = Keeps-pure tt
    run-Sends (suc fuel) job checked allowed = Keeps-bind _ _ (begin-Quiet port env cfg _ job) λ _.
        Keeps-catch _ _
          (attempt-Sends _ job checked allowed (λ a r t.
            conclude-Sends (run port env cfg fuel) job a r t (λ j same.
              run-Sends fuel j checked (λ call passed. allowed call (rw (← same) passed)))))
          (recover-Sends job)
