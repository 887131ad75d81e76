-- ===== src/TaskMemory.antt =====
-- The in-memory task store of src/adapters/task-memory.ts. A subscriber is the number of its
-- callback; `notified` lists the calls of callbacks, which may throw and are caught. `now` is the
-- clock of a `new Date()`.
pub mod Port
pub mod History
pub mod DeadLetters
pub mod Subscribers
mod Tests
use mathlib.Core.List
use jabr.Base.{
  ℕ, zero, suc, ◌+◌, String, Bool, true, false, not, Option, none, some, List, [], ◌∷◌, ◌++◌, ltb,
  leb, ◌==◌, if◌then◌else◌, length, filter, any, take, get_or, str_eq, Map, lookup, insert, remove,
  has, values,
}
use jabr.TaskStore.{
  TaskState, submitted, working, input_required, completed, failed, canceled, rejected,
  auth_required, unknown, Message, Artifact, Task, DlqEntry, new_task, with_state, with_message,
  with_retry, retries_of,
}

pub record Transition : Type 0 where
  pub from : TaskState
  pub to : TaskState
  pub timestamp : ℕ

pub record TaskMemory : Type 0 where
  pub tasks : Map Task
  pub transitions : Map (List Transition)
  pub dlq : Map DlqEntry
  pub subscriptions : Map (List ℕ)
  pub notified : List (ℕ × Task)

abbrev pub empty : TaskMemory
empty = record { tasks = []; transitions = []; dlq = []; subscriptions = []; notified = [] }

abbrev pub rank : TaskState → ℕ
rank submitted = 0
rank working = 1
rank input_required = 2
rank completed = 3
rank failed = 4
rank canceled = 5
rank rejected = 6
rank auth_required = 7
rank unknown = 8

abbrev pub same_state : TaskState → TaskState → Bool
same_state a b = rank a == rank b

pub create : TaskMemory → String → TaskMemory
create s task_id = record s { tasks = insert task_id (new_task task_id) s.tasks }

unfoldable pub get : TaskMemory → String → Option Task
get s task_id = lookup task_id s.tasks

-- One call of each callback, in order of subscription.
abbrev pub calls : List ℕ → Task → List (ℕ × Task)
calls [] task = []
calls (cb ∷ cbs) task = (cb, task) ∷ calls cbs task

abbrev pub notify_subscribers : TaskMemory → String → Task → TaskMemory
notify_subscribers s task_id task = record s {
  notified = s.notified ++ calls (get_or (lookup task_id s.subscriptions) []) task;
}

-- `this.transitions.get(taskId)?.push(…)`
abbrev pub push_transition : String → Transition → Map (List Transition) → Map (List Transition)
push_transition task_id step m = elim (lookup task_id m) [
  | none ↦ m
  | some steps ↦ insert task_id (steps ++ step ∷ []) m
]

abbrev pub record_transition : TaskMemory → String → TaskState → TaskState → ℕ → TaskMemory
record_transition s task_id from to now = if same_state from to then s else record s {
  transitions =
      push_transition task_id (record { from = from; to = to; timestamp = now }) s.transitions;
}

-- Writes the task back, and tells its subscribers.
abbrev pub put_task : TaskMemory → String → Task → TaskMemory
put_task s task_id task =
    notify_subscribers (record s { tasks = insert task_id task s.tasks }) task_id task

abbrev pub update_found : TaskMemory → String → TaskState → ℕ → Option Task → TaskMemory
update_found s task_id state now none = s
update_found s task_id state now (some task) =
    put_task (record_transition s task_id task.state state now) task_id (with_state state task)

pub update_state : TaskMemory → String → TaskState → ℕ → TaskMemory
unfolding get
update_state s task_id state now = update_found s task_id state now (get s task_id)

abbrev pub put_if : TaskMemory → String → (Task → Task) → Option Task → TaskMemory
put_if s task_id change none = s
put_if s task_id change (some task) = put_task s task_id (change task)

pub append_message : TaskMemory → String → Message → TaskMemory
unfolding get
append_message s task_id message = put_if s task_id (with_message message) (get s task_id)

abbrev pub with_artifact : Artifact → Task → Task
with_artifact artifact task = record task { artifacts = task.artifacts ++ artifact ∷ [] }

pub append_artifact : TaskMemory → String → Artifact → TaskMemory
unfolding get
append_artifact s task_id artifact = put_if s task_id (with_artifact artifact) (get s task_id)

pub list_by_state : TaskMemory → TaskState → List Task
list_by_state s state = filter (λ t. same_state t.state state) (values s.tasks)

pub record TaskFilter : Type 0 where
  pub status : Option TaskState
  pub context_id : Option String
  pub page_size : Option ℕ

abbrev pub by_status : Option TaskState → List Task → List Task
by_status none tasks = tasks
by_status (some state) tasks = filter (λ t. same_state t.state state) tasks

-- An empty context id is no filter, as any falsy value.
abbrev pub by_context : Option String → List Task → List Task
by_context none tasks = tasks
by_context (some context) tasks =
    if str_eq context ""
    then tasks
    else filter (λ t. any (λ m. str_eq m.context_id context) t.messages) tasks

abbrev pub page : Option ℕ → List Task → List Task
page none tasks = tasks
page (some zero) tasks = tasks
page (some (suc n)) tasks = take (suc n) tasks

pub list : TaskMemory → TaskFilter → List Task
list s f = page f.page_size (by_context f.context_id (by_status f.status (values s.tasks)))

-- `set.add(cb)`
abbrev pub add_callback : ℕ → List ℕ → List ℕ
add_callback cb cbs = if any (λ other. other == cb) cbs then cbs else cbs ++ cb ∷ []

abbrev pub tell_now : TaskMemory → ℕ → Option Task → TaskMemory
tell_now s cb none = s
tell_now s cb (some task) = record s { notified = s.notified ++ (cb, task) ∷ [] }

pub subscribe : TaskMemory → String → ℕ → TaskMemory
unfolding get
subscribe s task_id cb =
    tell_now
      (record s {
        subscriptions =
            insert task_id (add_callback cb (get_or (lookup task_id s.subscriptions) []))
              s.subscriptions;
      })
      cb (get s task_id)

abbrev pub drop_callback : String → ℕ → Map (List ℕ) → Option (List ℕ) → Map (List ℕ)
drop_callback task_id cb m none = m
drop_callback task_id cb m (some cbs) = elim (filter (λ other. not (other == cb)) cbs) [
  | [] ↦ remove task_id m
  | c ∷ cs ↦ insert task_id (c ∷ cs) m
]

-- What `subscribe` returns.
pub unsubscribe : TaskMemory → String → ℕ → TaskMemory
unsubscribe s task_id cb = record s {
  subscriptions = drop_callback task_id cb s.subscriptions (lookup task_id s.subscriptions);
}

pub get_transition_history : TaskMemory → String → List Transition
get_transition_history s task_id = get_or (lookup task_id s.transitions) []

pub get_retry_count : TaskMemory → String → ℕ
unfolding get
get_retry_count s task_id = retries_of (get s task_id)

abbrev pub bump_found : TaskMemory → String → Option Task → TaskMemory
bump_found s task_id none = s
bump_found s task_id (some task) = record s { tasks = insert task_id (with_retry task) s.tasks }

pub increment_retry_count : TaskMemory → String → TaskMemory
unfolding get
increment_retry_count s task_id = bump_found s task_id (get s task_id)

abbrev pub dead_letter : String → String → ℕ → Task → DlqEntry
dead_letter task_id error now task = record {
  task_id = task_id;
  state = task.state;
  error = error;
  retry_count = task.retry_count;
  moved_at = now;
  message_count = length task.messages;
}

abbrev pub bury : TaskMemory → String → String → ℕ → Option Task → TaskMemory
bury s task_id error now none = s
bury s task_id error now (some task) = record s {
  dlq = insert task_id (dead_letter task_id error now task) s.dlq;
}

pub move_to_dlq : TaskMemory → String → String → ℕ → TaskMemory
unfolding get
move_to_dlq s task_id error now = bury s task_id error now (get s task_id)

-- `sort((a, b) => b.movedAt.localeCompare(a.movedAt))`: latest first, stable
abbrev pub insert_entry : DlqEntry → List DlqEntry → List DlqEntry
insert_entry e [] = e ∷ []
insert_entry e (f ∷ rest) =
    let later = f ∷ insert_entry e rest in if ltb e.moved_at f.moved_at then later else e ∷ f ∷ rest

abbrev pub sort_entries : List DlqEntry → List DlqEntry
sort_entries [] = []
sort_entries (e ∷ rest) = insert_entry e (sort_entries rest)

pub list_dlq : TaskMemory → List DlqEntry
list_dlq s = sort_entries (values s.dlq)

pub get_dlq_entry : TaskMemory → String → Option DlqEntry
get_dlq_entry s task_id = lookup task_id s.dlq

pub retry_from_dlq : TaskMemory → String → TaskMemory × Bool
unfolding get
retry_from_dlq s task_id =
    if has task_id s.dlq
    then (
      put_if (record s { dlq = remove task_id s.dlq }) task_id (with_state submitted)
          (get s task_id),
      true,
    )
    else (s, false)

pub purge_dlq : TaskMemory → String → TaskMemory × Bool
purge_dlq s task_id = (record s { dlq = remove task_id s.dlq }, has task_id s.dlq)

pub purge_all_dlq : TaskMemory → TaskMemory × ℕ
purge_all_dlq s = (record s { dlq = [] }, length (values s.dlq))
