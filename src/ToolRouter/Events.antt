-- ===== src/ToolRouter/Events.antt =====
-- What the orchestrator tells others of a task: the emissions and `syncToKanban` of
-- src/core/tool-router.ts.
use jabr.Base.{
  ℕ, String, Bool, true, false, Option, none, some, List, get_or, find, concat, first_chars,
}
use jabr.Agents.{ToolRouterConfig}
use jabr.TaskStore.{TaskStorePort, Task, Message, Part, text, file, blob, Role, user, agent}
use jabr.World.{
  Act, ok, Environment, TaskInfo, Event, room_created, room_progress, room_completed, room_failed,
  on_task_start, on_task_complete, on_task_failed, pure, gets, catch, ask, ◌>>=◌, ◌>>◌, when, emit,
  note_kanban,
}

abbrev is_user : Role → Bool
is_user user = true
is_user agent = false

abbrev is_text : Part → Bool
is_text (text t) = true
is_text (file f) = false
is_text (blob b) = false

abbrev text_of : Option Part → Option String
text_of none = none
text_of (some (text t)) = some t
text_of (some (file f)) = none
text_of (some (blob b)) = none

abbrev text_in : Option Message → Option String
text_in none = none
text_in (some m) = text_of (find is_text m.parts)

abbrev title_of : Task → String
title_of task = get_or (text_in (find (λ m. is_user m.role) task.messages)) "Jabr task"

module _ {S : Type 0} (env : Environment) (cfg : ToolRouterConfig) where
  pub emit_to_room : Event → Act S (Unit {0})
  emit_to_room event = when cfg.has_realtime (emit event)

  unfoldable pub now : Act S ℕ
  now = ask (λ t. ok (env.clock t))

  unfoldable pub emit_task_created :
      String → String → TaskInfo → Option (List String) → Act S (Unit {0})
  unfolding emit_to_room
  emit_task_created task_id assignee info parents = do
    emit_to_room (room_created task_id assignee)
    when cfg.has_bus (do time ← now; emit (on_task_start task_id info time parents))

  unfoldable pub emit_task_progress : String → ℕ → String → Act S (Unit {0})
  unfolding emit_to_room
  emit_task_progress task_id percent message = emit_to_room (room_progress task_id percent message)

  -- The event's duration is from `started` to `ended`.
  unfoldable pub emit_task_completed : String → String → TaskInfo → Option ℕ → Act S (Unit {0})
  unfolding emit_to_room
  emit_task_completed task_id result info started_at = do
    emit_to_room (room_completed task_id result)
    when cfg.has_bus
        (do time ← now; emit (on_task_complete task_id info (get_or started_at time) time result))

  unfoldable pub emit_task_failed :
      String → String → TaskInfo → Option ℕ → Bool → ℕ → Act S (Unit {0})
  unfolding emit_to_room
  emit_task_failed task_id error info started_at retryable retry_count = do
    emit_to_room (room_failed task_id error)
    when cfg.has_bus (do
      time ← now
      emit (on_task_failed task_id info (get_or started_at time) time error retryable retry_count))

module _ (port : TaskStorePort) (env : Environment) (cfg : ToolRouterConfig) where
  pub post : String → String → Option Task → Act port.Store (Unit {0})
  post task_id result none = pure tt
  post task_id result (some task) =
      let title = concat "[Jabr] " (first_chars 80 (title_of task)) in
      let body =
        concat "Task ID: " (concat task_id (concat "\nResult: " (first_chars 500 result))) in
      do ask (λ t. env.create_kanban_task t title body); note_kanban title body

  unfoldable pub sync_to_kanban : String → String → Act port.Store (Unit {0})
  unfolding post first_chars
  sync_to_kanban task_id result = when cfg.has_kanban (
      catch (do task ← gets (λ w. port.get w.store task_id); post task_id result task)
        (λ e. pure tt))
