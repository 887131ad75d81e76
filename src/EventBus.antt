-- ===== src/EventBus.antt =====
-- The bus of the plugins: src/ports/plugin-event-bus.ts. A subscription id is the value of its counter,
-- which the source shares between buses; the random suffix of its text is left out. A `Set` of entries
-- is a list in order of insertion. `H` is the type of the handlers and `P` that of the payloads. A
-- handler may call the bus; what it does runs to its end before the next one is invoked.
pub mod Chains
pub mod Isolation
pub mod Ids
mod Tests
use jabr.Base.{
  ℕ, suc, String, Bool, true, false, Option, none, some, List, [], ◌∷◌, ◌++◌, ◌==◌, if◌then◌else◌,
  length, get_or, Map, lookup, insert, remove,
}
use jabr.World.{Result, ok, err}

-- a result: `none` stands for `undefined`, `err` for a throw; `null` is a payload
abbrev pub Middleware : Type 0 → Type 0
Middleware P = P → String → Result (Option P)

pub record SubscriberEntry (H P : Type 0) : Type 0 where
  pub id : ℕ
  pub handler : H
  pub middleware : List (Middleware P)

pub record EventBus (H P : Type 0) : Type 0 where
  pub registry : Map (List (SubscriberEntry H P))
  pub counter : ℕ

-- the calls that change the bus
pub data Call (H P : Type 0) : Type 0 where
  subscribe_call : (event : String) (handler : H) (middleware : List (Middleware P)) → Call H P
  unsubscribe_call : (id : ℕ) → Call H P
  clear_call : (event : Option String) → Call H P

pub data HandlerResult : Type 0 where
  returned : HandlerResult
  threw : (error : String) → HandlerResult
  rejected : (error : String) → HandlerResult

pub record HandlerRun (H P : Type 0) : Type 0 where
  pub calls : List (Call H P)
  pub result : HandlerResult

-- the handlers, which payload is `null`, the options of the constructor, and whether they have an
-- `onError`
pub record Runtime (H P : Type 0) : Type 0 where
  pub run_handler : H → P → String → HandlerRun H P
  pub is_null : P → Bool
  pub global_middleware : List (Middleware P)
  pub has_on_error : Bool

-- an invocation of a handler, and one of `onError`
pub data Note (P : Type 0) : Type 0 where
  delivered : (id : ℕ) (payload : P) → Note P
  reported : (error event : String) (id : ℕ) → Note P

-- `log` are the notes of the loop, `pending` those of the promises that reject after it, `settled` those
-- of `emitAsync` when all promises have settled
pub record Emission (H P : Type 0) : Type 0 where
  pub bus : EventBus H P
  pub log : List (Note P)
  pub pending : List (Note P)
  pub settled : List (Note P)

-- `_applyGlobalMiddleware` and `_applyChain`; `none` stands for the `null` that they return
pub apply_chain : {P : Type 0} → (P → Bool) → List (Middleware P) → P → String → Result (Option P)
apply_chain is_null [] payload event = ok (some payload)
apply_chain is_null (mw ∷ chain) payload event = elim (mw payload event) [
  | err e ↦ err e
  | ok none ↦ ok none
  | ok (some next) ↦
      let rest = apply_chain is_null chain next event in if is_null next then ok none else rest
]

-- the test after a chain: a payload that no middleware has seen may be `null`
abbrev pub not_null : {P : Type 0} → (P → Bool) → Option P → Option P
not_null is_null none = none
not_null is_null (some payload) = if is_null payload then none else some payload

abbrev pub Dispatch : Type 0 → Type 0 → Type 0
Dispatch H P = EventBus H P → SubscriberEntry H P → Emission H P

module _ {H P : Type 0} where
  abbrev pub empty_bus : EventBus H P
  empty_bus = record { registry = []; counter = 0 }

  unfoldable pub subscribers : EventBus H P → String → List (SubscriberEntry H P)
  unfolding lookup
  subscribers s event = get_or (lookup event s.registry) []

  unfoldable pub subscribe : EventBus H P → String → H → List (Middleware P) → EventBus H P × ℕ
  unfolding subscribers
  subscribe s event handler middleware =
      let id = suc s.counter in
      let entry : SubscriberEntry H P = record {
        id = id;
        handler = handler;
        middleware = middleware;
      } in
      (
        record {
          registry = insert event (subscribers s event ++ entry ∷ []) s.registry;
          counter = id;
        },
        id,
      )

  -- the set without its first entry of the id, if it has one
  pub delete_from : ℕ → List (SubscriberEntry H P) → Option (List (SubscriberEntry H P))
  delete_from id [] = none
  delete_from id (entry ∷ rest) =
      let later = delete_from id rest in
      if entry.id == id
      then some rest
      else elim later [ none ↦ none | some kept ↦ some (entry ∷ kept) ]

  pub delete_first : ℕ → Map (List (SubscriberEntry H P)) → Map (List (SubscriberEntry H P))
  unfolding delete_from
  delete_first id [] = []
  delete_first id ((event, set) ∷ m) =
      let later = delete_first id m in
      elim (delete_from id set) [ none ↦ (event, set) ∷ later | some kept ↦ (event, kept) ∷ m ]

  unfoldable pub unsubscribe : EventBus H P → ℕ → EventBus H P
  unfolding delete_first
  unsubscribe s id = record s { registry = delete_first id s.registry }

  pub clear : EventBus H P → Option String → EventBus H P
  clear s none = record s { registry = [] }
  clear s (some event) = record s { registry = remove event s.registry }

  unfoldable pub listener_count : EventBus H P → String → ℕ
  unfolding subscribers
  listener_count s event = length (subscribers s event)

  unfoldable pub apply : EventBus H P → Call H P → EventBus H P
  unfolding subscribe unsubscribe clear
  apply s (subscribe_call event handler middleware) = (subscribe s event handler middleware).0
  apply s (unsubscribe_call id) = unsubscribe s id
  apply s (clear_call event) = clear s event

  unfoldable pub run : EventBus H P → List (Call H P) → EventBus H P
  unfolding apply
  run s [] = s
  run s (call ∷ calls) = run (apply s call) calls

  -- the global chain, then that of the subscription
  pub transform : Runtime H P → SubscriberEntry H P → String → P → Result (Option P)
  unfolding apply_chain
  transform rt entry event payload =
      elim (apply_chain rt.is_null rt.global_middleware payload event) [
        | err e ↦ err e
        | ok made ↦ elim (not_null rt.is_null made) [
          | none ↦ ok none
          | some next ↦ elim (apply_chain rt.is_null entry.middleware next event) [
            | err e ↦ err e
            | ok last ↦ ok (not_null rt.is_null last)
          ]
        ]
      ]

  abbrev pub report : Runtime H P → String → String → ℕ → List (Note P)
  report rt error event id = if rt.has_on_error then reported error event id ∷ [] else []

  -- what follows an invocation at once, and what follows it later
  abbrev pub after_sync : Runtime H P → String → ℕ → HandlerResult → List (Note P) × List (Note P)
  after_sync rt event id returned = ([], [])
  after_sync rt event id (threw e) = (report rt e event id, [])
  after_sync rt event id (rejected e) = ([], report rt e event id)

  -- `_dispatchTo`
  pub dispatch_to :
      Runtime H P → EventBus H P → SubscriberEntry H P → String → Result (Option P) → Emission H P
  unfolding run
  dispatch_to rt s entry event (err e) = record {
    bus = s;
    log = report rt e event entry.id;
    pending = [];
    settled = [];
  }
  dispatch_to rt s entry event (ok none) = record { bus = s; log = []; pending = []; settled = [] }
  dispatch_to rt s entry event (ok (some q)) =
      let done = rt.run_handler entry.handler q event in
      let notes = after_sync rt event entry.id done.result in
      record {
        bus = run s done.calls;
        log = delivered entry.id q ∷ notes.0;
        pending = notes.1;
        settled = [];
      }

  -- `_dispatchToAsync`: the report of a throw at once, that of a rejection after the `await`, and that
  -- of `emitAsync`
  abbrev pub after_async :
      Runtime H P → String → ℕ → HandlerResult → List (Note P) × List (Note P) × List (Note P)
  after_async rt event id returned = ([], [], [])
  after_async rt event id (threw e) = (report rt e event id, [], report rt e event id)
  after_async rt event id (rejected e) = ([], report rt e event id, report rt e event id)

  pub dispatch_to_async :
      Runtime H P → EventBus H P → SubscriberEntry H P → String → Result (Option P) → Emission H P
  unfolding run
  dispatch_to_async rt s entry event (err e) = record {
    bus = s;
    log = [];
    pending = [];
    settled = report rt e event entry.id;
  }
  dispatch_to_async rt s entry event (ok none) = record {
    bus = s;
    log = [];
    pending = [];
    settled = [];
  }
  dispatch_to_async rt s entry event (ok (some q)) =
      let done = rt.run_handler entry.handler q event in
      let notes = after_async rt event entry.id done.result in
      record {
        bus = run s done.calls;
        log = delivered entry.id q ∷ notes.0;
        pending = notes.1;
        settled = notes.2;
      }

  -- the loop over the snapshot
  abbrev pub each : Dispatch H P → EventBus H P → List (SubscriberEntry H P) → Emission H P
  each dispatch s [] = record { bus = s; log = []; pending = []; settled = [] }
  each dispatch s (entry ∷ rest) =
      let now = dispatch s entry in
      let later = each dispatch now.bus rest in
      record {
        bus = later.bus;
        log = now.log ++ later.log;
        pending = now.pending ++ later.pending;
        settled = now.settled ++ later.settled;
      }

  unfoldable pub emit : Runtime H P → EventBus H P → String → P → Emission H P
  unfolding dispatch_to subscribers transform
  emit rt s event payload =
      each (λ bus entry. dispatch_to rt bus entry event (transform rt entry event payload)) s
        (subscribers s event)

  pub emit_async : Runtime H P → EventBus H P → String → P → Emission H P
  unfolding dispatch_to_async subscribers transform
  emit_async rt s event payload =
      each (λ bus entry. dispatch_to_async rt bus entry event (transform rt entry event payload)) s
        (subscribers s event)
