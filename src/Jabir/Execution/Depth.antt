-- ===== src/Jabir/Execution/Depth.antt =====
-- The depth of a handover chain and the recursion of src/core/jabir.ts.
use mathlib.Core.Path.{fun_ext}
use jabr.Base.{
  ℕ, zero, suc, ◌+◌, ◌-◌, ◌<◌, String, ◌≡◌, refl, ap, true, Option, none, some, arith, ltb,
  Bool-cases, inl, inr, if◌then◌else◌,
}
use jabr.Agents.{ToolRouterConfig, HandoverRequest}
use jabr.TaskStore.{TaskStorePort}
use jabr.Handover.{would_create_cycle, circular_handoff}
use jabr.World.{Environment, catch, ◌>>=◌}
use jabr.Jabir.Job.{max_handover_depth, Job, child_job}
use jabr.Jabir.Execution.{
  Step, conclude, attempt, with_depth, hand_over, reject_cycle, run, begin, recover,
}

module _ (port : TaskStorePort) (env : Environment) (cfg : ToolRouterConfig) where
  -- Two ways to run children that agree one level below the job, if it may have children at all.
  abbrev Agree : Job → (Job → Step port env cfg) → (Job → Step port env cfg) → Type 0
  Agree job f g =
      (child : Job)
      → ltb job.depth max_handover_depth ≡ true
      → child.depth ≡ job.depth + 1
      → f child ≡ g child

  conclude-Agree :
      (f g : Job → Step port env cfg) (job : Job) (agent_name result : String)
      (handover : Option HandoverRequest)
      → Agree job f g
      → conclude port env cfg f job agent_name result handover
        ≡ conclude port env cfg g job agent_name result handover
  unfolding conclude child_job
  conclude-Agree f g job a r none h = refl
  conclude-Agree f g job a r (some t) h = elim (Bool-cases (ltb job.depth max_handover_depth)) [
    | inr deep ↦ rw deep refl
    | inl shallow ↦
        let same =
          ap
            (λ (launch : String → Option String → Step port env cfg).
              hand_over port env cfg launch job a r t)
            (fun_ext λ id. fun_ext λ forced. h (child_job job t a id forced) shallow refl) in
        rw shallow (
          ap
            (λ (go : Step port env cfg).
              if would_create_cycle job.handover_chain t.transfer_to
              then reject_cycle port env cfg job (circular_handoff job.handover_chain t.transfer_to)
              else go)
            same)
  ]

  with_depth-Agree :
      (f g : Job → Step port env cfg) (job : Job)
      → Agree job f g
      → with_depth port env cfg f job ≡ with_depth port env cfg g job
  unfolding with_depth
  with_depth-Agree f g job h =
      ap
        (λ (finish : String → String → Option HandoverRequest → Step port env cfg).
          begin port env cfg job >>= λ _.
          catch (attempt port env cfg finish job) (recover port env cfg job))
        (fun_ext λ a. fun_ext λ r. fun_ext λ t. conclude-Agree f g job a r t h)

  -- A run comes to its end on any fuel above the levels of handover that are left: more fuel changes
  -- nothing, whatever the agents answer.
  pub run_enough :
      (fuel more : ℕ) (job : Job)
      → max_handover_depth - job.depth < fuel
      → run port env cfg fuel job ≡ run port env cfg (fuel + more) job
  unfolding run
  run_enough zero more job h = absurd (omega arith)
  run_enough (suc fuel) more job h =
      let next : suc fuel + more ≡ suc (fuel + more) = omega arith in
      rw next (
        with_depth-Agree (run port env cfg fuel) (run port env cfg (fuel + more)) job
          (λ child shallow deeper. run_enough fuel more child (ground arith)))
