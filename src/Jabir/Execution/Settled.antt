-- ===== src/Jabir/Execution/Settled.antt =====
-- How an execution of src/core/jabir.ts leaves its task: each way through `executeWithDepth`.
use jabr.Base.{◌≡◌, List}
use jabr.Agents.{ToolRouterConfig}
use jabr.TaskStore.{TaskStorePort}
use jabr.World.{World, Environment, Call}
use jabr.World.Keeps.{Keeps, keeps_rules}
use jabr.Jabir.Job.{Job}
use jabr.Jabir.Execution.Quiet.{kanban-Quiet, completed-Quiet, failed-Quiet}
use jabr.Jabir.Execution.Outcome.{Exists, HasEnded, Ends, say-HasEnded, bury-HasEnded}
use jabr.Jabir.Execution.{Step}

module _ (port : TaskStorePort) (env : Environment) (cfg : ToolRouterConfig) (job : Job) where
  abbrev InStore : List Call → port.Store → Type 0
  InStore = Exists port env cfg job.task_id

  abbrev Ended : List Call → port.Store → Type 0
  Ended = HasEnded port env cfg job.task_id

  abbrev EndsTask : Step port env cfg → Type 0
  EndsTask m = Ends port env cfg job.task_id m

  ruleset after =
      (keeps_rules, kanban-Quiet, completed-Quiet, failed-Quiet, say-HasEnded, bury-HasEnded)

  abbrev IsLaunched : (Job → Step port env cfg) → Type 0
  IsLaunched child = (j : Job) → j.caller ≡ job.caller → Keeps InStore (child j)
