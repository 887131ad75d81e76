-- ===== src/EventBus/Ids.antt =====
-- The ids of the subscriptions: src/ports/plugin-event-bus.ts.
use jabr.Base.{
  ℕ, suc, ◌+◌, ◌≤◌, ◌<◌, String, ◌≡◌, ◌≢◌, refl, Option, none, some, List, [], ◌∷◌, ◌++◌, ◌==◌,
  if◌then◌else◌, arith, get_or, Map, lookup, insert, remove, All, Bool-cases, Option-cases, inl,
  inr, str_eq,
}
use jabr.World.{ok, err}
use jabr.EventBus.{
  Middleware, SubscriberEntry, EventBus, Call, subscribe_call, unsubscribe_call, clear_call,
  Runtime, empty_bus, subscribers, subscribe, delete_from, delete_first, unsubscribe, clear, apply,
  run, emit,
}
use jabr.EventBus.Chains.{passes}
use jabr.EventBus.Isolation.{deliveries, gather, due, emit_isolates}

abbrev found : ℕ → ℕ → ℕ
found id asked = if id == asked then 1 else 0

-- what ending the id takes from the count of the other id, of `n` entries with it
abbrev taken : ℕ → ℕ → ℕ → ℕ
taken id asked n = if n == 0 then 0 else found id asked

module _ {H P : Type 0} where
  -- how many entries of a set have the id
  abbrev pub times : ℕ → List (SubscriberEntry H P) → ℕ
  times id [] = 0
  times id (entry ∷ rest) = (if entry.id == id then 1 else 0) + times id rest

  -- how many entries of the bus have the id
  abbrev pub times_in : ℕ → Map (List (SubscriberEntry H P)) → ℕ
  times_in id [] = 0
  times_in id ((event, set) ∷ m) = times id set + times_in id m

  abbrev pub occurrences : ℕ → EventBus H P → ℕ
  occurrences id s = times_in id s.registry

  -- No id is there twice, or before it is given.
  pub record IsWellFormed (s : EventBus H P) : Type 0 where
    pub once : (id : ℕ) → occurrences id s ≤ 1
    pub fresh : (id : ℕ) → s.counter < id → occurrences id s ≡ 0

  times-append :
      (id : ℕ) (xs ys : List (SubscriberEntry H P))
      → times id (xs ++ ys) ≡ times id xs + times id ys
  times-append id [] ys = omega arith
  times-append id (x ∷ xs) ys = omega (arith, times-append id xs ys)

  times_in-insert :
      (id : ℕ) (event : String) (set : List (SubscriberEntry H P))
      (m : Map (List (SubscriberEntry H P)))
      → times_in id (insert event set m) + times id (get_or (lookup event m) [])
        ≡ times_in id m + times id set
  unfolding insert lookup
  times_in-insert id event set [] = omega arith
  times_in-insert id event set ((name, old) ∷ m) = elim (Bool-cases (str_eq name event)) [
    | inl e ↦ rw e (omega arith)
    | inr e ↦ rw e (omega (arith, times_in-insert id event set m))
  ]

  times_in-remove :
      (id : ℕ) (event : String) (m : Map (List (SubscriberEntry H P)))
      → times_in id (remove event m) ≤ times_in id m
  unfolding remove
  times_in-remove id event [] = omega arith
  times_in-remove id event ((name, old) ∷ m) = elim (Bool-cases (str_eq name event)) [
    | inl e ↦ rw e (omega (arith, times_in-remove id event m))
    | inr e ↦ rw e (omega (arith, times_in-remove id event m))
  ]

  -- the set with the first entry of the id taken out, if it has one
  abbrev Deleted : ℕ → ℕ → List (SubscriberEntry H P) → Option (List (SubscriberEntry H P)) → Type 0
  Deleted id asked set none = times id set ≡ 0
  Deleted id asked set (some kept) = times asked set ≡ found id asked + times asked kept

  times-delete_from :
      (id asked : ℕ) (set : List (SubscriberEntry H P)) → Deleted id asked set (delete_from id set)
  unfolding delete_from
  times-delete_from id asked [] = refl
  times-delete_from id asked (entry ∷ rest) =
      let ih = times-delete_from id asked rest in ground (arith, ih)

  times_in-delete_first :
      (id asked : ℕ) (m : Map (List (SubscriberEntry H P)))
      → times_in asked m ≡ times_in asked (delete_first id m) + taken id asked (times_in id m)
  unfolding delete_first
  times_in-delete_first id asked [] = ground arith
  times_in-delete_first id asked ((event, set) ∷ m) =
      let ih = times_in-delete_first id asked m in
      let one = times-delete_from id asked set in
      let own = times-delete_from id id set in
      elim (Option-cases (delete_from id set)) [
        | inl e ↦ let none_here = rw e at one in ground (arith, e, ih, none_here)
        | inr (kept, e) ↦
            let here = rw e at one in let same = rw e at own in ground (arith, e, here, same)
      ]

  pub unsubscribe-occurrences :
      (s : EventBus H P) (id asked : ℕ)
      → occurrences asked s
        ≡ occurrences asked (unsubscribe s id) + taken id asked (occurrences id s)
  unfolding unsubscribe
  unsubscribe-occurrences s id asked = times_in-delete_first id asked s.registry

  subscribe-occurrences :
      (s : EventBus H P) (event : String) (handler : H) (middleware : List (Middleware P))
      (asked : ℕ)
      → occurrences asked (subscribe s event handler middleware).0
        ≡ occurrences asked s + found (suc s.counter) asked
  unfolding subscribe subscribers
  subscribe-occurrences s event handler middleware asked =
      let set = subscribers s event in
      let entry : SubscriberEntry H P = record {
        id = suc s.counter;
        handler = handler;
        middleware = middleware;
      } in
      omega (
        arith,
        times_in-insert asked event (set ++ entry ∷ []) s.registry,
        times-append asked set (entry ∷ []),
      )

  subscribe-counter :
      (s : EventBus H P) (event : String) (handler : H) (middleware : List (Middleware P))
      → s.counter ≤ (subscribe s event handler middleware).0.counter
  unfolding subscribe
  subscribe-counter s event handler middleware = omega arith

  pub apply-IsWellFormed :
      (s : EventBus H P) (call : Call H P) → IsWellFormed s → IsWellFormed (apply s call)
  unfolding apply subscribe unsubscribe clear
  apply-IsWellFormed s (subscribe_call event handler middleware) p = record {
    once = λ id.
        ground (arith, p.once id, p.fresh id, subscribe-occurrences s event handler middleware id);
    fresh = λ id late.
        ground (arith, late, p.fresh id, subscribe-occurrences s event handler middleware id);
  }
  apply-IsWellFormed s (unsubscribe_call id) p = record {
    once = λ asked. omega (arith, p.once asked, unsubscribe-occurrences s id asked);
    fresh = λ asked late. omega (arith, p.fresh asked late, unsubscribe-occurrences s id asked);
  }
  apply-IsWellFormed s (clear_call none) p = record {
    once = λ id. omega arith;
    fresh = λ id late. refl;
  }
  apply-IsWellFormed s (clear_call (some event)) p = record {
    once = λ id. omega (arith, p.once id, times_in-remove id event s.registry);
    fresh = λ id late. omega (arith, p.fresh id late, times_in-remove id event s.registry);
  }

  -- a call gives out a later id, or none
  pub apply-occurrences :
      (s : EventBus H P) (call : Call H P)
      → (s.counter ≤ (apply s call).counter)
        × ((id : ℕ) → id ≤ s.counter → occurrences id (apply s call) ≤ occurrences id s)
  unfolding apply unsubscribe clear
  apply-occurrences s (subscribe_call event handler middleware) = (
    subscribe-counter s event handler middleware,
    λ id given. ground (arith, given, subscribe-occurrences s event handler middleware id),
  )
  apply-occurrences s (unsubscribe_call id) =
      (omega arith, λ asked given. omega (arith, unsubscribe-occurrences s id asked))
  apply-occurrences s (clear_call none) = (omega arith, λ id given. omega arith)
  apply-occurrences s (clear_call (some event)) =
      (omega arith, λ id given. times_in-remove id event s.registry)

  pub run-IsWellFormed :
      (s : EventBus H P) (calls : List (Call H P)) → IsWellFormed s → IsWellFormed (run s calls)
  unfolding run
  run-IsWellFormed s [] p = p
  run-IsWellFormed s (call ∷ calls) p =
      run-IsWellFormed (apply s call) calls (apply-IsWellFormed s call p)

  pub empty_bus-IsWellFormed : IsWellFormed empty_bus
  empty_bus-IsWellFormed = record { once = λ id. omega arith; fresh = λ id late. refl }

  times-subscribers :
      (id : ℕ) (event : String) (m : Map (List (SubscriberEntry H P)))
      → times id (get_or (lookup event m) []) ≤ times_in id m
  unfolding lookup
  times-subscribers id event [] = omega arith
  times-subscribers id event ((name, set) ∷ m) = ground (arith, times-subscribers id event m)

  due_others :
      (rt : Runtime H P) (event : String) (payload : P) (id : ℕ) (set : List (SubscriberEntry H P))
      → times id set ≡ 0
      → All (λ d. d.0 ≢ id) (gather (due rt event payload) set)
  due_others rt event payload id [] gone = tt
  due_others rt event payload id (entry ∷ rest) gone =
      let other : entry.id ≢ id = ground (arith, gone) in
      let later = due_others rt event payload id rest (ground (arith, gone)) in
      elim (passes rt event payload rt.global_middleware entry.middleware)
        as (λ o.
          All (λ d. d.0 ≢ id)
            (elim o [ err e ↦ [] | ok none ↦ [] | ok (some q) ↦ (entry.id, q) ∷ [] ]
              ++ gather (due rt event payload) rest)) [
                | err e ↦ later
                | ok none ↦ later
                | ok (some q) ↦ (other, later)
              ]

  -- After any calls, ending a subscription takes its id from the bus and leaves every other one, and no
  -- emission invokes it; the id of a new subscription was not there before, and is there once then.
  unsubscribe_ends :
      (calls : List (Call H P)) (id other : ℕ) (rt : Runtime H P) (event : String) (payload : P)
      (handler : H)
      → (occurrences other (unsubscribe (run empty_bus calls) id)
          ≡ (if id == other then 0 else occurrences other (run empty_bus calls)))
        × All
            (λ d. d.0 ≢ id)
            (deliveries (emit rt (unsubscribe (run empty_bus calls) id) event payload).log)
        × (occurrences (subscribe (run empty_bus calls) event handler []).1 (run empty_bus calls)
            ≡ 0)
        × (occurrences
              (subscribe (run empty_bus calls) event handler []).1
              (subscribe (run empty_bus calls) event handler []).0
            ≡ 1)
  unfolding subscribe subscribers
  unsubscribe_ends calls id other rt event payload handler =
      let s = run empty_bus calls in
      let s' = unsubscribe s id in
      let p = run-IsWellFormed empty_bus calls empty_bus-IsWellFormed in
      let gone : occurrences id s' ≡ 0 =
        ground (arith, p.once id, unsubscribe-occurrences s id id) in
      let unseen = p.fresh (suc s.counter) (omega arith) in
      let none_left : times id (subscribers s' event) ≡ 0 =
        omega (arith, gone, times-subscribers id event s'.registry) in
      (
        ground (arith, gone, unsubscribe-occurrences s id other),
        rw ((emit_isolates rt event payload s').0)
            (due_others rt event payload id (subscribers s' event) none_left),
        unseen,
        ground (arith, unseen, subscribe-occurrences s event handler [] (suc s.counter)),
      )
