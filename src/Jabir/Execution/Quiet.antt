-- ===== src/Jabir/Execution/Quiet.antt =====
-- The steps of src/core/jabir.ts that neither delegate nor write to the task store keep every
-- invariant of the two.
use jabr.Base.{ℕ, String, Bool, Option, none, some, List, [], ◌∷◌, length}
use jabr.Agents.{ToolRouterConfig, AgentPricing}
use jabr.TaskStore.{TaskStorePort, Task}
use jabr.World.{Act, Environment, Call, TaskInfo, Knowledge}
use jabr.World.Keeps.{Keeps, keeps_rules}
use jabr.ToolRouter.Routing.{Routed}
use jabr.ToolRouter.Events.{
  now, emit_task_created, emit_task_progress, emit_task_completed, emit_task_failed, sync_to_kanban,
  post,
}
use jabr.Jabir.Job.{Job}
use jabr.Jabir.Execution.{
  begin, augment, choose, url_or, pay, target_of, charge, found_or, with_knowledge, resolve_target,
}

module _ (port : TaskStorePort) (env : Environment) (cfg : ToolRouterConfig)
    (R : List Call → port.Store → Type 0) where
  abbrev Quiet : {A : Type 0} → Act port.Store A → Type 0
  Quiet m = Keeps R m

  pub now-Quiet : Quiet (now env cfg)
  unfolding now
  now-Quiet = search keeps_rules

  ruleset quiet = (keeps_rules, now-Quiet)

  pub created-Quiet :
      (id assignee : String) (info : TaskInfo) (parents : Option (List String))
      → Quiet (emit_task_created env cfg id assignee info parents)
  unfolding emit_task_created
  created-Quiet id assignee info parents = search quiet

  pub completed-Quiet :
      (id result : String) (info : TaskInfo) (started : Option ℕ)
      → Quiet (emit_task_completed env cfg id result info started)
  unfolding emit_task_completed
  completed-Quiet id result info started = search quiet

  pub failed-Quiet :
      (id error : String) (info : TaskInfo) (started : Option ℕ) (retryable : Bool) (count : ℕ)
      → Quiet (emit_task_failed env cfg id error info started retryable count)
  unfolding emit_task_failed
  failed-Quiet id error info started retryable count = search quiet

  pub progress-Quiet :
      (id : String) (percent : ℕ) (message : String)
      → Quiet (emit_task_progress env cfg id percent message)
  unfolding emit_task_progress
  progress-Quiet id percent message = search quiet

  pub begin-Quiet : (job : Job) → Quiet (begin port env cfg job)
  unfolding begin
  begin-Quiet job = search (quiet, created-Quiet)

  post-Quiet : (id result : String) (task : Option Task) → Quiet (post port env cfg id result task)
  unfolding sync_to_kanban
  post-Quiet id result none = search quiet
  post-Quiet id result (some task) = search quiet

  pub kanban-Quiet : (id result : String) → Quiet (sync_to_kanban port env cfg id result)
  unfolding sync_to_kanban
  kanban-Quiet id result = search (quiet, post-Quiet)

  with_knowledge-Quiet :
      (job : Job) (entries : List Knowledge) → Quiet (with_knowledge port env cfg job entries)
  unfolding with_knowledge
  with_knowledge-Quiet job [] = search quiet
  with_knowledge-Quiet job (k ∷ ks) = search quiet

  pub augment-Quiet : (job : Job) → Quiet (augment port env cfg job)
  unfolding augment
  augment-Quiet job = search (quiet, with_knowledge-Quiet)

  found_or-Quiet : (message : String) (r : Option Routed) → Quiet (found_or port env cfg message r)
  unfolding found_or
  found_or-Quiet message none = search quiet
  found_or-Quiet message (some r) = search quiet

  pub choose-Quiet : (job : Job) → Quiet (choose port env cfg job)
  unfolding choose
  choose-Quiet job = search found_or-Quiet

  pub url_or-Quiet : (agent : String) (url : Option String) → Quiet (url_or port env cfg agent url)
  unfolding url_or
  url_or-Quiet agent none = search quiet
  url_or-Quiet agent (some url) = search quiet

  charge-Quiet :
      (job : Job) (agent : String) (length : ℕ) (pricing : Option AgentPricing)
      → Quiet (charge port env cfg job agent length pricing)
  unfolding charge
  charge-Quiet job agent length none = search quiet
  charge-Quiet job agent length (some p) = search quiet

  pub pay-Quiet : (job : Job) (agent words : String) → Quiet (pay port env cfg job agent words)
  unfolding pay
  pay-Quiet job agent words = search (quiet, charge-Quiet)

  resolve-Quiet :
      (job : Job) (target : String) (url : Option String)
      → Quiet (resolve_target port env cfg job target url)
  unfolding resolve_target
  resolve-Quiet job target none = search quiet
  resolve-Quiet job target (some url) = search quiet

  pub target_of-Quiet :
      (job : Job) (target : Option String) → Quiet (target_of port env cfg job target)
  unfolding target_of
  target_of-Quiet job none = search quiet
  target_of-Quiet job (some t) = search resolve-Quiet
