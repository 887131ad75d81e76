-- ===== src/Jabir/Execution/Tests.antt =====
-- Execution of a task on the in-memory store, with two agents that hand over to each other.
use jabr.Base.{
  ◌≤◌, suc, length, if◌then◌else◌, ◌&&◌, ltb, ◌+◌, String, ◌≡◌, refl, true, false, none, some, [],
  ◌∷◌, arith, includes, All, lookup,
}
use jabr.Agents.{AgentConfig, ToolRouterConfig, ResolvedCaller}
use jabr.TaskMemory.{TaskMemory, empty, get}
use jabr.TaskMemory.Port.{task_memory_port}
use jabr.World.{World, Result, ok, err, Environment}
use jabr.Jabir.Job.{max_handover_depth, Job, is_retryable, dlq_max_retries}
use jabr.Jabir.Execution.{run, execute, first_job, recover}
use jabr.Jabir.Execution.Depth.{run_enough}
use jabr.Jabir.Execution.Access.{execute_allowed}
use jabr.Jabir.Execution.Recovery.{recover_lem}
use jabr.Jabir.Execution.Bound.{execute-calls-le}
use jabr.TaskStore.{Task, new_task, failed, submitted}

abbrev agent_named : String → AgentConfig
agent_named name = record {
  name = name;
  url = "http://localhost";
  card = record {
    name = name;
    skills = [];
    success_rate = none;
    response_time = none;
    pricing = none;
  };
}

abbrev config : ToolRouterConfig
config = record {
  agents = ("oracle", agent_named "oracle") ∷ ("fixer", agent_named "fixer") ∷ [];
  has_delegator = true;
  has_budget = false;
  has_cognitive_loop = false;
  has_memory = true;
  has_knowledge = false;
  has_kanban = false;
  has_realtime = false;
  has_bus = true;
  verification = none;
}

-- Each agent answers with a handover to the fixer.
abbrev environment : Environment
environment = record {
  uuid = λ t. "id";
  clock = λ t. t;
  reply = λ t call. ok "%%HANDOVER%%{}";
  consume = λ t agent tokens. ok tt;
  query = λ t text. ok [];
  evaluate = λ t inputs text. err "none";
  create_kanban_task = λ t title body. ok tt;
  parse_handover = λ text. some (record { transfer_to = "fixer"; reason = "r"; context = "c" });
  append = λ t line. ok tt;
  fixed3 = λ n. "";
  show = λ n. "";
}

abbrev world : World TaskMemory
world = record {
  store = record empty { tasks = ("t1", new_task "t1") ∷ [] };
  memory = [];
  calls = [];
  consumed = [];
  events = [];
  metrics = [];
  kanban = [];
  ticks = 0;
}

abbrev restricted : ResolvedCaller
restricted = record { description = "ci"; allowed_agents = "oracle" ∷ [] }

abbrev job : Job
job = first_job task_memory_port environment config "t1" "fix the bug" (some restricted)

run_enough_example :
    run task_memory_port environment config 4 job
    ≡ run task_memory_port environment config (4 + 7) job
run_enough_example = run_enough task_memory_port environment config 4 7 job (omega arith)

execute_allowed_example :
    All
      (λ call. includes restricted.allowed_agents call.agent_name ≡ true)
      (execute task_memory_port environment config "t1" "fix the bug"
        (some restricted)
        world).1.calls
execute_allowed_example =
    execute_allowed task_memory_port environment config "t1" "fix the bug" restricted world refl
      (ground arith) tt

abbrev settled : Result (Unit {0}) × World TaskMemory
settled = execute task_memory_port environment config "t1" "fix the bug" (some restricted) world

execute-calls-le_example : length settled.1.calls ≤ length world.calls + suc max_handover_depth
execute-calls-le_example =
    execute-calls-le task_memory_port environment config "t1" "fix the bug" (some restricted) world
      refl

recover_lem_example :
    (after : Task) × (get
        (recover task_memory_port environment config job "Error: timeout" world).1.store
        "t1"
      ≡ some after)
    × (after.state
        ≡ (if is_retryable "Error: timeout" && ltb 0 dlq_max_retries then submitted else failed))
    × (after.retry_count
        ≡ (if is_retryable "Error: timeout" && ltb 0 dlq_max_retries then 0 + 1 else 0))
unfolding get lookup is_retryable
recover_lem_example =
    recover_lem task_memory_port environment config job "Error: timeout" world (new_task "t1") refl
