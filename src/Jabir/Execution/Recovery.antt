-- ===== src/Jabir/Execution/Recovery.antt =====
-- Retries and the dead letter queue: the `catch` block of `executeWithDepth` in src/core/jabir.ts.
use jabr.Base.{
  Bool, true, false, ℕ, ◌+◌, String, ◌≡◌, refl, Option, some, List, [], ◌∷◌, ◌++◌, arith, ltb, ◌&&◌,
  if◌then◌else◌, eq_refl, Bool-cases, inl, inr,
}
use jabr.Agents.{ToolRouterConfig}
use jabr.TaskStore.{
  TaskState, submitted, failed, Role, Message, Task, TaskStorePort, with_state, with_retry,
}
use jabr.World.{
  Result, ok, err, retrying, World, Environment, Call, ◌>>=◌, ◌>>◌, set_store, ask, append_memory,
}
use jabr.World.Keeps.{Keeps, keeps_rules, Keeps-bind, Keeps-set_store, Keeps-ask}
use jabr.Jabir.Job.{dlq_max_retries, Job, is_retryable}
use jabr.Jabir.Execution.Quiet.{failed-Quiet}
use jabr.Jabir.Execution.{Step, update_state, say, recover, give_up, retry}

-- the state after an error: whether it is retried, what the memory answers, and the state before
abbrev pub state_after : Bool → Result (Unit {0}) → TaskState → TaskState
state_after true (ok u) before = submitted
state_after true (err e) before = before
state_after false written before = failed

module _ (port : TaskStorePort) (env : Environment) (cfg : ToolRouterConfig) (job : Job)
    (tries : ℕ) where
  -- the task has failed, after so many retries
  abbrev Failed : List Call → port.Store → Type 0
  Failed calls s =
      (t : Task) × (port.get s job.task_id ≡ some t) × (t.state ≡ failed) × (t.retry_count ≡ tries)

  append_message-Failed :
      (calls : List Call) (s : port.Store) (message : Message)
      → Failed calls s
      → Failed calls (port.append_message s job.task_id message)
  append_message-Failed calls s message (t, e, state, count) =
      let law = port.get-append_message s job.task_id job.task_id message in
      (
        record t { messages = t.messages ++ message ∷ [] },
        ground (arith, law, e, eq_refl job.task_id),
        state,
        count,
      )

  say-Failed :
      (role : Role) (words : String) (references : Option (List String))
      → Keeps Failed (say port env cfg job.task_id role words references)
  unfolding say
  say-Failed role words references =
      Keeps-bind _ _ (Keeps-ask _)
        (λ m. Keeps-set_store _ (λ calls s h. append_message-Failed calls s _ h))

  bury-Failed :
      (error : String) (now : ℕ)
      → Keeps Failed (set_store (λ s. port.move_to_dlq s job.task_id error now))
  bury-Failed error now = Keeps-set_store _ (λ calls s (t, e, state, count). (
    t,
    ground (arith, port.get-move_to_dlq s job.task_id job.task_id error now, e),
    state,
    count,
  ))

  -- What follows the update to failed.
  failed_then :
      (rest : Step port env cfg) (w : World port.Store) (task : Task)
      → Keeps Failed rest
      → port.get w.store job.task_id ≡ some task
      → task.retry_count ≡ tries
      → Failed
          ((update_state port env cfg job.task_id failed >> rest) w).1.calls
          ((update_state port env cfg job.task_id failed >> rest) w).1.store
  unfolding update_state ◌>>=◌ ask set_store
  failed_then rest w task kept found count =
      let law = port.get-update_state w.store job.task_id job.task_id failed (env.clock w.ticks) in
      kept.at _
        (with_state failed task, ground (arith, law, found, eq_refl job.task_id), refl, count)

  give_up-Failed :
      (message : String) (w : World port.Store) (task : Task)
      → port.get w.store job.task_id ≡ some task
      → task.retry_count ≡ tries
      → Failed
          (give_up port env cfg job message tries w).1.calls
          (give_up port env cfg job message tries w).1.store
  unfolding give_up
  give_up-Failed message w task found count =
      let buried = bury-Failed in
      let said = say-Failed in
      failed_then _ w task (search (keeps_rules, failed-Quiet, said, buried) depth 14) found count

module _ (port : TaskStorePort) (env : Environment) (cfg : ToolRouterConfig) (job : Job) where
  -- the memory's answer to the line about the retry
  abbrev pub noted : String → World port.Store → ℕ → Result (Unit {0})
  noted message w retries = env.append w.ticks (retrying (retries + 1) job.task_id message)

  -- The task is submitted again where the line was written, else it stays as it was.
  abbrev retried : Result (Unit {0}) → Task → Task
  retried (ok u) task = with_state submitted (with_retry task)
  retried (err e) task = with_retry task

  retry-get :
      (message : String) (retries : ℕ) (w : World port.Store) (task : Task)
      → port.get w.store job.task_id ≡ some task
      → port.get (retry port env cfg job message retries w).1.store job.task_id
        ≡ some (retried (noted message w retries) task)
  unfolding retry update_state ◌>>=◌ ask set_store append_memory
  retry-get message retries w task found =
      let more = port.increment_retry_count w.store job.task_id in
      let counted = port.get-increment_retry_count w.store job.task_id job.task_id in
      let updated =
        port.get-update_state more job.task_id job.task_id submitted (env.clock (w.ticks + 1)) in
      ground (arith, found, counted, updated, eq_refl job.task_id)

  retried_lem :
      (r : Result (Unit {0})) (task : Task)
      → ((retried r task).state ≡ state_after true r task.state)
        × ((retried r task).retry_count ≡ task.retry_count + 1)
  retried_lem (ok u) task = (refl, refl)
  retried_lem (err e) task = (refl, refl)

  -- After an error, a task of the store has one more retry on its count if the error is a timeout that
  -- is no cancellation and it had fewer than 3 retries; it is submitted again then, unless the memory
  -- does not take the line about the retry, where it stays in its state. Otherwise it has failed, and
  -- keeps its count.
  pub recover_lem :
      (message : String) (w : World port.Store) (task : Task)
      → port.get w.store job.task_id ≡ some task
      → (after : Task) × (port.get (recover port env cfg job message w).1.store job.task_id
          ≡ some after)
        × (after.state
            ≡ state_after
                (is_retryable message && ltb task.retry_count dlq_max_retries)
                (noted message w task.retry_count)
                task.state)
        × (after.retry_count ≡ (
            if is_retryable message && ltb task.retry_count dlq_max_retries
            then task.retry_count + 1
            else task.retry_count))
  unfolding recover ◌>>=◌
  recover_lem message w task found =
      let read : port.get_retry_count w.store job.task_id ≡ task.retry_count =
        ground (arith, port.get_retry_count_lem w.store job.task_id, found) in
      elim (Bool-cases (is_retryable message && ltb task.retry_count dlq_max_retries)) [
        | inl again ↦ rw read (
            rw again (
              retried (noted message w task.retry_count) task,
              retry-get message task.retry_count w task found,
              (retried_lem (noted message w task.retry_count) task).0,
              (retried_lem (noted message w task.retry_count) task).1,
            ))
        | inr over ↦
            rw read
              (rw over (give_up-Failed port env cfg job task.retry_count message w task found refl))
      ]
