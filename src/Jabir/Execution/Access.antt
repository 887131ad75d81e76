-- ===== src/Jabir/Execution/Access.antt =====
-- Whom a restricted caller reaches through the orchestrator: the access check of src/core/jabir.ts.
use jabr.Base.{
  suc, String, ◌≡◌, refl, true, false, none, some, List, [], ◌∷◌, arith, ◌≢◌, ◌&&◌, not, All,
  All-append, includes, ltb, length,
}
use jabr.Agents.{ToolRouterConfig, ResolvedCaller}
use jabr.TaskStore.{TaskStorePort}
use jabr.World.{World, Environment, Call}
use jabr.ToolRouter.Verification.{should_verify_task}
use jabr.Jabir.Job.{max_handover_depth, Job, is_denied}
use jabr.Jabir.Execution.Invariant.{Sends, IsClosed, run-Sends}
use jabr.Jabir.Execution.{cross_check, execute, first_job}

module _ (port : TaskStorePort) (env : Environment) (cfg : ToolRouterConfig)
    (P : List Call → Type 0) where
  pub calls_only : IsClosed port env cfg (λ calls s. P calls)
  calls_only = record {
    update_ok = λ calls s id state now h. h;
    append_ok = λ calls s id message h. h;
    create_ok = λ calls s id h. h;
    increment_ok = λ calls s id h. h;
    bury_ok = λ calls s id error now h. h;
  }

  pub cross_check-Sends :
      cfg.verification ≡ none
      → (job : Job) (words result agent_name : String)
      → Sends port env cfg
          (λ calls s. P calls)
          (cross_check port env cfg job words result agent_name)
  unfolding cross_check should_verify_task
  cross_check-Sends h job words result agent_name =
      let unchecked : should_verify_task cfg words ≡ false = ground (arith, h) in
      rw unchecked (record { at = λ w p. p })

included :
    (names : List String) (agent_name : String)
    → names ≢ []
    → (ltb 0 (length names) && not (includes names agent_name)) ≡ false
    → includes names agent_name ≡ true
included [] agent_name listed passed = absurd (listed refl)
included (n ∷ ns) agent_name listed passed = ground arith

listed_of_passed :
    (caller : ResolvedCaller) (agent_name : String)
    → caller.allowed_agents ≢ []
    → is_denied (some caller) agent_name ≡ false
    → includes caller.allowed_agents agent_name ≡ true
listed_of_passed caller agent_name listed passed =
    included caller.allowed_agents agent_name listed passed

-- Without SHURA verification, and if no delegation was outside a caller's non-empty allowlist before,
-- none is after the execution of a task for the caller, through all handovers and re-routings.
pub execute_allowed :
    (port : TaskStorePort) (env : Environment) (cfg : ToolRouterConfig) (task_id user_text : String)
    (caller : ResolvedCaller) (w : World port.Store)
    → cfg.verification ≡ none
    → caller.allowed_agents ≢ []
    → All (λ call. includes caller.allowed_agents call.agent_name ≡ true) w.calls
    → All
        (λ call. includes caller.allowed_agents call.agent_name ≡ true)
        (execute port env cfg task_id user_text (some caller) w).1.calls
unfolding execute
execute_allowed port env cfg task_id user_text caller w unverified listed before =
    let allowed = λ (call : Call). includes caller.allowed_agents call.agent_name ≡ true in
    let kept =
      run-Sends port env cfg (λ calls s. All allowed calls) (calls_only port env cfg (All allowed))
        (suc max_handover_depth) (first_job port env cfg task_id user_text (some caller))
        (cross_check-Sends port env cfg (All allowed) unverified)
        (λ call passed calls s p.
          All-append allowed calls (call ∷ []) p
            (listed_of_passed caller call.agent_name listed passed, tt)) in
    kept.at w before
