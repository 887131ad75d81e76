-- ===== src/TaskMemory/DeadLetters.antt =====
-- The dead letter queue of src/adapters/task-memory.ts.
use mathlib.Core.List.{Perm}
use mathlib.Core.List.Perm
use jabr.Base.{
  ℕ, ◌≤◌, String, ◌≡◌, true, none, some, List, [], ◌∷◌, arith, eq_refl, lookup-insert,
  lookup-remove, inl, inr, All, ltb, Bool-cases, values, has, insert,
}
use jabr.TaskStore.{submitted, Task, DlqEntry, with_state}
use jabr.TaskMemory.{
  TaskMemory, get, move_to_dlq, list_dlq, get_dlq_entry, retry_from_dlq, get_retry_count,
  insert_entry, sort_entries, dead_letter,
}

-- The latest entry first.
abbrev pub IsLatestFirst : List DlqEntry → Type 0
IsLatestFirst [] = Unit
IsLatestFirst (e ∷ es) = All (λ f. f.moved_at ≤ e.moved_at) es × IsLatestFirst es

All-insert_entry :
    (n : ℕ) (e : DlqEntry) (es : List DlqEntry)
    → e.moved_at ≤ n
    → All (λ f. f.moved_at ≤ n) es
    → All (λ f. f.moved_at ≤ n) (insert_entry e es)
All-insert_entry n e [] h k = (h, tt)
All-insert_entry n e (f ∷ es) h k = elim (Bool-cases (ltb e.moved_at f.moved_at)) [
  | inl lt ↦ rw lt (k.0, All-insert_entry n e es h k.1)
  | inr ge ↦ rw ge (h, k)
]

All-weaken :
    (m n : ℕ) (es : List DlqEntry)
    → m ≤ n
    → All (λ f. f.moved_at ≤ m) es
    → All (λ f. f.moved_at ≤ n) es
All-weaken m n [] h k = tt
All-weaken m n (f ∷ es) h k = (omega arith, All-weaken m n es h k.1)

insert_entry-IsLatestFirst :
    (e : DlqEntry) (es : List DlqEntry) → IsLatestFirst es → IsLatestFirst (insert_entry e es)
insert_entry-IsLatestFirst e [] h = (tt, tt)
insert_entry-IsLatestFirst e (f ∷ es) h = elim (Bool-cases (ltb e.moved_at f.moved_at)) [
  | inl lt ↦
      rw lt
        (All-insert_entry f.moved_at e es (ground arith) h.0, insert_entry-IsLatestFirst e es h.1)
  | inr ge ↦
      let le : f.moved_at ≤ e.moved_at = ground arith in
      rw ge ((le, All-weaken f.moved_at e.moved_at es le h.0), h)
]

sort_entries-IsLatestFirst : (es : List DlqEntry) → IsLatestFirst (sort_entries es)
sort_entries-IsLatestFirst [] = tt
sort_entries-IsLatestFirst (e ∷ es) =
    insert_entry-IsLatestFirst e (sort_entries es) (sort_entries-IsLatestFirst es)

insert_entry-perm : (e : DlqEntry) (es : List DlqEntry) → Perm (insert_entry e es) (e ∷ es)
insert_entry-perm e [] = Perm.refl _
insert_entry-perm e (f ∷ es) = elim (Bool-cases (ltb e.moved_at f.moved_at)) [
  | inl lt ↦ rw lt (Perm.trans (Perm.cons f (insert_entry-perm e es)) (Perm.swap e f es))
  | inr ge ↦ rw ge (Perm.refl _)
]

sort_entries-perm : (es : List DlqEntry) → Perm (sort_entries es) es
sort_entries-perm [] = Perm.refl _
sort_entries-perm (e ∷ es) =
    Perm.trans (insert_entry-perm e (sort_entries es)) (Perm.cons e (sort_entries-perm es))

-- The listing of the queue holds its entries, each as often, and the latest first.
list_dlq_lem : (s : TaskMemory) → Perm (list_dlq s) (values s.dlq) × IsLatestFirst (list_dlq s)
unfolding list_dlq
list_dlq_lem s = (sort_entries-perm (values s.dlq), sort_entries-IsLatestFirst (values s.dlq))

-- A task that is moved to the queue is found there as it was, and a retry from the queue takes it
-- out and submits the task again, but leaves its count of retries where it was.
pub retry_from_dlq-move_to_dlq :
    (s : TaskMemory) (task_id error : String) (now : ℕ) (task : Task)
    → get s task_id ≡ some task
    → (get_dlq_entry (move_to_dlq s task_id error now) task_id
        ≡ some (dead_letter task_id error now task))
      × ((retry_from_dlq (move_to_dlq s task_id error now) task_id).1 ≡ true)
      × (get_dlq_entry (retry_from_dlq (move_to_dlq s task_id error now) task_id).0 task_id ≡ none)
      × (get (retry_from_dlq (move_to_dlq s task_id error now) task_id).0 task_id
          ≡ some (with_state submitted task))
      × (get_retry_count (retry_from_dlq (move_to_dlq s task_id error now) task_id).0 task_id
          ≡ task.retry_count)
unfolding get move_to_dlq retry_from_dlq get_dlq_entry get_retry_count has
retry_from_dlq-move_to_dlq s task_id error now task found =
    let entry = dead_letter task_id error now task in
    let queued = lookup-insert task_id task_id entry s.dlq in
    let taken = lookup-remove task_id task_id (insert task_id entry s.dlq) in
    let back = lookup-insert task_id task_id (with_state submitted task) s.tasks in
    ground (arith, eq_refl task_id, queued, taken, back)
