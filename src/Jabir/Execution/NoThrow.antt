-- ===== src/Jabir/Execution/NoThrow.antt =====
-- What `executeWithDepth` of src/core/jabir.ts lets escape from its `catch` block.
use jabr.Base.{◌≡◌, ℕ, zero, suc, String, refl, Option, List}
use jabr.Agents.{ToolRouterConfig}
use jabr.TaskStore.{TaskState, Role, TaskStorePort}
use jabr.World.{Environment, ok, retrying, buried, append_memory}
use jabr.World.Returns.{Returns, returns_rules, Returns-bind, Returns-catch, Returns-append_memory}
use jabr.ToolRouter.Events.{now, emit_task_created, emit_task_failed}
use jabr.Jabir.Job.{Job}
use jabr.Jabir.Execution.{update_state, say, recover, with_depth, run, give_up, retry, begin}

-- The memory takes the lines that the `catch` block writes, about a retry and about the queue.
pub record TakesRetries (env : Environment) : Type 0 where
  pub retry_line :
      (t attempt : ℕ) (task_id error : String)
      → env.append t (retrying attempt task_id error) ≡ ok tt
  pub bury_line :
      (t : ℕ) (task_id : String) (retries : ℕ) → env.append t (buried task_id retries) ≡ ok tt

module _ (port : TaskStorePort) (env : Environment) (cfg : ToolRouterConfig) where
  now-Returns : Returns {S = port.Store} (now env cfg)
  unfolding now
  now-Returns = search returns_rules

  update_state-Returns :
      (id : String) (state : TaskState) → Returns (update_state port env cfg id state)
  unfolding update_state
  update_state-Returns id state = search returns_rules

  say-Returns :
      (id : String) (role : Role) (words : String) (references : Option (List String))
      → Returns (say port env cfg id role words references)
  unfolding say
  say-Returns id role words references = search returns_rules

  begin-Returns : (job : Job) → Returns (begin port env cfg job)
  unfolding begin emit_task_created
  begin-Returns job = search (returns_rules, now-Returns) depth 10

  module _ (writes : TakesRetries env) where
    retry_line-Returns :
        (attempt : ℕ) (task_id error : String)
        → Returns {S = port.Store} (append_memory env (retrying attempt task_id error))
    retry_line-Returns attempt task_id error =
        Returns-append_memory env _ (λ t. writes.retry_line t attempt task_id error)

    bury_line-Returns :
        (task_id : String) (retries : ℕ)
        → Returns {S = port.Store} (append_memory env (buried task_id retries))
    bury_line-Returns task_id retries =
        Returns-append_memory env _ (λ t. writes.bury_line t task_id retries)

    give_up-Returns :
        (job : Job) (message : String) (retries : ℕ)
        → Returns (give_up port env cfg job message retries)
    unfolding give_up emit_task_failed
    give_up-Returns job message retries =
        search (returns_rules, now-Returns, update_state-Returns, say-Returns, bury_line-Returns)
          depth 14

    retry-Returns :
        (job : Job) (message : String) (retries : ℕ)
        → Returns (retry port env cfg job message retries)
    unfolding retry
    retry-Returns job message retries =
        search (returns_rules, update_state-Returns, retry_line-Returns)

    recover-Returns : (job : Job) (message : String) → Returns (recover port env cfg job message)
    unfolding recover
    recover-Returns job message = search (returns_rules, give_up-Returns, retry-Returns)

    -- No job throws, whatever the other ports answer.
    pub run-Returns : (fuel : ℕ) (job : Job) → Returns (run port env cfg fuel job)
    unfolding run with_depth
    run-Returns zero job = record { at = λ w. (tt, refl) }
    run-Returns (suc fuel) job =
        Returns-bind _ _ (begin-Returns job) (λ _. Returns-catch _ _ (recover-Returns job))
