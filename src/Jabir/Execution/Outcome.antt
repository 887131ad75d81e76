-- ===== src/Jabir/Execution/Outcome.antt =====
-- The state that a task ends in: the paths through `executeWithDepth` of src/core/jabir.ts.
use jabr.Base.{
  ℕ, String, ◌≡◌, refl, Bool, true, false, Option, some, List, [], ◌∷◌, ◌++◌, arith, ◌⊎◌, inl, inr,
  str_eq, eq_refl, if◌then◌else◌, Bool-cases,
}
use jabr.Agents.{ToolRouterConfig}
use jabr.TaskStore.{
  TaskState, submitted, completed, failed, Role, Message, Task, TaskStorePort, new_task, with_retry,
}
use jabr.World.{World, Act, Result, ok, err, Environment, Call, ◌>>=◌, ◌>>◌, set_store, catch, ask}
use jabr.World.Keeps.{Keeps, Keeps-bind, Keeps-set_store, Keeps-ask}
use jabr.Jabir.Execution.Invariant.{IsClosed}
use jabr.Jabir.Execution.{Step, update_state, say}

module _ (port : TaskStorePort) (env : Environment) (cfg : ToolRouterConfig) (id : String) where
  -- the task is in the store
  abbrev pub Exists : List Call → port.Store → Type 0
  Exists calls s = (t : Task) × (port.get s id ≡ some t)

  abbrev pub IsEnd : TaskState → Type 0
  IsEnd state = (state ≡ completed) ⊎ (state ≡ failed) ⊎ (state ≡ submitted)

  -- the task is in the store, in a state that an execution ends in
  abbrev pub HasEnded : List Call → port.Store → Type 0
  HasEnded calls s = (t : Task) × (port.get s id ≡ some t) × IsEnd t.state

  update_state-Exists :
      (calls : List Call) (s : port.Store) (j : String) (state : TaskState) (now : ℕ)
      → Exists calls s
      → Exists calls (port.update_state s j state now)
  update_state-Exists calls s j state now (t, e) =
      let law = port.get-update_state s j id state now in
      elim (Bool-cases (str_eq j id)) [
        | inl same ↦ (record t { state = state }, ground (arith, law, e, same))
        | inr other ↦ (t, ground (arith, law, e, other))
      ]

  update_state-HasEnded :
      (calls : List Call) (s : port.Store) (state : TaskState) (now : ℕ)
      → IsEnd state
      → Exists calls s
      → HasEnded calls (port.update_state s id state now)
  update_state-HasEnded calls s state now end (t, e) =
      let law = port.get-update_state s id id state now in
      (record t { state = state }, ground (arith, law, e, eq_refl id), end)

  append_message-Exists :
      (calls : List Call) (s : port.Store) (j : String) (message : Message)
      → Exists calls s
      → Exists calls (port.append_message s j message)
  append_message-Exists calls s j message (t, e) =
      let law = port.get-append_message s j id message in
      elim (Bool-cases (str_eq j id)) [
        | inl same ↦
            (record t { messages = t.messages ++ message ∷ [] }, ground (arith, law, e, same))
        | inr other ↦ (t, ground (arith, law, e, other))
      ]

  append_message-HasEnded :
      (calls : List Call) (s : port.Store) (j : String) (message : Message)
      → HasEnded calls s
      → HasEnded calls (port.append_message s j message)
  append_message-HasEnded calls s j message (t, e, end) =
      let law = port.get-append_message s j id message in
      elim (Bool-cases (str_eq j id)) [
        | inl same ↦
            (record t { messages = t.messages ++ message ∷ [] }, ground (arith, law, e, same), end)
        | inr other ↦ (t, ground (arith, law, e, other), end)
      ]

  pub Exists-IsClosed : IsClosed port env cfg Exists
  Exists-IsClosed = record {
    update_ok = update_state-Exists;
    append_ok = append_message-Exists;
    create_ok = λ calls s j (t, e).
        let law = port.get-create s j id in
        elim (Bool-cases (str_eq j id)) [
          | inl same ↦ (new_task j, ground (arith, law, same))
          | inr other ↦ (t, ground (arith, law, e, other))
        ];
    increment_ok = λ calls s j (t, e).
        let law = port.get-increment_retry_count s j id in
        elim (Bool-cases (str_eq j id)) [
          | inl same ↦ (with_retry t, ground (arith, law, e, same))
          | inr other ↦ (t, ground (arith, law, e, other))
        ];
    bury_ok =
        λ calls s j error now (t, e). (t, ground (arith, port.get-move_to_dlq s j id error now, e));
  }

  -- From a store with the task, `m` throws or ends the task.
  pub record Ends (m : Act port.Store (Unit {0})) : Type 0 where
    pub at :
        (w : World port.Store)
        → Exists w.calls w.store
        → (m w).0 ≡ ok tt
        → HasEnded (m w).1.calls (m w).1.store

  module _ {A : Type 0} where
    continued :
        (r : Result A) (w : World port.Store) (f : A → Act port.Store (Unit {0}))
        → ((a : A) → Ends (f a))
        → Exists w.calls w.store
        → (((λ v. (r, v)) >>= f) w).0 ≡ ok tt
        → HasEnded (((λ v. (r, v)) >>= f) w).1.calls (((λ v. (r, v)) >>= f) w).1.store
    unfolding ◌>>=◌
    continued (ok a) w f ef h done = (ef a).at w h done
    continued (err e) w f ef h done = absurd (ground (arith, done))

    pub Ends-bind :
        (m : Act port.Store A) (f : A → Act port.Store (Unit {0}))
        → Keeps Exists m
        → ((a : A) → Ends (f a))
        → Ends (m >>= f)
    unfolding ◌>>=◌
    Ends-bind m f km ef = record {
      at = λ w h done. let (r, w') = m w in continued r w' f ef (km.at w h) done;
    }

  caught :
      (r : Result (Unit {0})) (w : World port.Store) (handler : String → Act port.Store (Unit {0}))
      → ((e : String) → Ends (handler e))
      → Exists w.calls w.store
      → (r ≡ ok tt → HasEnded w.calls w.store)
      → (catch (λ v. (r, v)) handler w).0 ≡ ok tt
      → HasEnded (catch (λ v. (r, v)) handler w).1.calls (catch (λ v. (r, v)) handler w).1.store
  unfolding catch
  caught (ok a) w handler eh h ended done = ended refl
  caught (err e) w handler eh h ended done = (eh e).at w h done

  pub Ends-catch :
      (m : Act port.Store (Unit {0})) (handler : String → Act port.Store (Unit {0}))
      → Keeps Exists m
      → Ends m
      → ((e : String) → Ends (handler e))
      → Ends (catch m handler)
  unfolding catch
  Ends-catch m handler km em eh = record {
    at = λ w h done.
        let (r, w') = m w in unfold catch in caught r w' handler eh (km.at w h) (em.at w h) done;
  }

  pub Ends-if :
      (b : Bool) (m n : Act port.Store (Unit {0})) → Ends m → Ends n → Ends (if b then m else n)
  Ends-if true m n em en = em
  Ends-if false m n em en = en

  pub Ends-update_state :
      (state : TaskState) → IsEnd state → Ends (update_state port env cfg id state)
  unfolding update_state ◌>>=◌ ask set_store
  Ends-update_state state end = record {
    at = λ w h done. update_state-HasEnded w.calls w.store state (env.clock w.ticks) end h;
  }

  pub Ends-finish :
      (state : TaskState) (rest : Step port env cfg)
      → IsEnd state
      → Keeps HasEnded rest
      → Ends (update_state port env cfg id state >> rest)
  unfolding update_state ◌>>=◌ ask set_store
  Ends-finish state rest end kr = record {
    at =
        λ w h done. kr.at _ (update_state-HasEnded w.calls w.store state (env.clock w.ticks) end h);
  }

  pub say-HasEnded :
      (j : String) (role : Role) (words : String) (references : Option (List String))
      → Keeps HasEnded (say port env cfg j role words references)
  unfolding say
  say-HasEnded j role words references =
      Keeps-bind _ _ (Keeps-ask _)
        (λ m. Keeps-set_store _ (λ calls s h. append_message-HasEnded calls s j _ h))

  pub bury-HasEnded :
      (j error : String) (now : ℕ)
      → Keeps HasEnded (set_store (λ s. port.move_to_dlq s j error now))
  bury-HasEnded j error now =
      Keeps-set_store _
        (λ calls s (t, e, end). (t, ground (arith, port.get-move_to_dlq s j id error now, e), end))
