-- ===== src/TaskMemory/Subscribers.antt =====
-- Who is told of a change, in src/adapters/task-memory.ts.
use mathlib.Core.Path.{ap₂}
use jabr.Base.{
  ℕ, String, ◌≡◌, ◌≢◌, refl, not, some, List, [], ◌∷◌, ◌++◌, arith, eq_refl, lookup, lookup-insert,
  lookup-remove, Option-cases, inl, inr, All, ◌==◌, filter, get_or, All-filter, Bool-cases, ◌∙◌,
  Map,
}
use jabr.TaskStore.{TaskState, Task, with_state}
use jabr.TaskMemory.{TaskMemory, get, update_state, unsubscribe, same_state, calls, drop_callback}

others : ℕ → List ℕ → List ℕ
others cb cbs = filter (λ c. not (c == cb)) cbs

All-calls :
    (cb : ℕ) (cbs : List ℕ) (task : Task)
    → All (λ c. c ≢ cb) cbs
    → All (λ c. c.0 ≢ cb) (calls cbs task)
All-calls cb [] task h = tt
All-calls cb (c ∷ cbs) task h = (h.0, All-calls cb cbs task h.1)

others-All : (cb : ℕ) (cbs : List ℕ) → All (λ c. c ≢ cb) (others cb cbs)
unfolding others
others-All cb cbs = All-filter (λ c. c ≢ cb) (λ c. not (c == cb)) cbs (λ c h. ground arith)

dropped :
    (task_id : String) (cb : ℕ) (m : Map (List ℕ)) (cbs kept : List ℕ)
    → others cb cbs ≡ kept
    → get_or (lookup task_id (drop_callback task_id cb m (some cbs))) [] ≡ kept
unfolding others
dropped task_id cb m cbs [] h = ground (arith, h, eq_refl task_id, lookup-remove task_id task_id m)
dropped task_id cb m cbs (c ∷ cs) h =
    ground (arith, h, eq_refl task_id, lookup-insert task_id task_id (c ∷ cs) m)

calls-All : (cbs : List ℕ) (task : Task) → All (λ c. c.1 ≡ task) (calls cbs task)
calls-All [] task = tt
calls-All (c ∷ cbs) task = (refl, calls-All cbs task)

unsubscribe_fields :
    (s : TaskMemory) (task_id : String) (cb : ℕ)
    → ((unsubscribe s task_id cb).tasks ≡ s.tasks)
      × ((unsubscribe s task_id cb).notified ≡ s.notified)
unfolding unsubscribe
unsubscribe_fields s task_id cb = (refl, refl)

subscribers-unsubscribe :
    (s : TaskMemory) (task_id : String) (cb : ℕ)
    → get_or (lookup task_id (unsubscribe s task_id cb).subscriptions) []
      ≡ others cb (get_or (lookup task_id s.subscriptions) [])
unfolding unsubscribe
subscribers-unsubscribe s task_id cb = elim (Option-cases (lookup task_id s.subscriptions)) [
  | inl e ↦ rw e (rw e (unfold others in refl))
  | inr (cbs, e) ↦ rw e (dropped task_id cb s.subscriptions cbs (others cb cbs) refl)
]

notified-update_state :
    (s : TaskMemory) (task_id : String) (state : TaskState) (now : ℕ) (task : Task)
    → get s task_id ≡ some task
    → (update_state s task_id state now).notified
      ≡ s.notified ++ calls (get_or (lookup task_id s.subscriptions) []) (with_state state task)
unfolding update_state get
notified-update_state s task_id state now task found =
    elim (Bool-cases (same_state task.state state)) [
      | inl same ↦ rw found (rw same refl)
      | inr differs ↦ rw found (rw differs refl)
    ]

-- After a callback has been unsubscribed, a change of the task's state is told to others only: the
-- calls that it adds, with the new task, leave the callback out.
update_state-unsubscribe :
    (s : TaskMemory) (task_id : String) (cb : ℕ) (state : TaskState) (now : ℕ) (task : Task)
    → get s task_id ≡ some task
    → (told : List (ℕ × Task)) × ((update_state
          (unsubscribe s task_id cb)
          task_id
          state
          now).notified
        ≡ s.notified ++ told)
      × All (λ c. c.0 ≢ cb) told
      × All (λ c. c.1 ≡ with_state state task) told
unfolding get update_state
update_state-unsubscribe s task_id cb state now task found =
    let kept = others cb (get_or (lookup task_id s.subscriptions) []) in
    let told_lem =
      ap₂ (λ (l : List (ℕ × Task)) (cbs : List ℕ). l ++ calls cbs (with_state state task))
        (unsubscribe_fields s task_id cb).1 (subscribers-unsubscribe s task_id cb) in
    (
      calls kept (with_state state task),
      notified-update_state (unsubscribe s task_id cb) task_id state now task
            (unfold unsubscribe in found)
          ∙ told_lem,
      All-calls cb kept (with_state state task)
          (others-All cb (get_or (lookup task_id s.subscriptions) [])),
      calls-All kept (with_state state task),
    )
