-- ===== src/PluginRegistry/Starting.antt =====
-- Initializing the plugins: src/core/plugin-registry.ts.
use jabr.Base.{
  ℕ, suc, String, Bool, true, false, ◌≡◌, refl, sym, Option, none, some, List, [], ◌∷◌, ◌++◌,
  if◌then◌else◌, str_eq, ap, ◌∙◌, concat, map, Map, lookup, Bool-cases, inl, inr, get_or, arith,
}
use jabr.World.{Result, ok, err}
use jabr.EventBus.{EventBus, Call, subscribe_call, subscribe, apply, run}
use jabr.PluginRegistry.{
  PluginLifecycleState, validated, loaded, running, error_state, PluginHandler, on_event_handler,
  PluginRegistryEntry, PluginRegistry, Hooks, subscribe_all, after_initialize, initialize_entry,
  initialize_entries, initialize_all, waits,
}

abbrev pub is_waiting : PluginLifecycleState → Bool
is_waiting validated = true
is_waiting loaded = true
is_waiting _ = false

-- the events that a plugin declares
abbrev pub declared : PluginRegistryEntry → List String
declared e = get_or e.plugin.metadata.events []

-- so many ids in a row
pub upwards : ℕ → List String → List ℕ
upwards n [] = []
upwards n (event ∷ events) = n ∷ upwards (suc n) events

-- one subscription to each event, under its own name
abbrev pub subscriptions_due : {P : Type 0} → String → List String → List (Call PluginHandler P)
subscriptions_due code events =
    map (λ event. subscribe_call event (on_event_handler code event) []) events

run-append :
    {H P : Type 0} (bus : EventBus H P) (xs ys : List (Call H P))
    → run bus (xs ++ ys) ≡ run (run bus xs) ys
unfolding run
run-append bus [] ys = refl
run-append bus (x ∷ xs) ys = run-append (apply bus x) xs ys

module _ {P : Type 0} (hooks : Hooks P) where
  -- what is called on the bus for a plugin: by its hook, and then its subscriptions if the hook returned
  abbrev pub if_started : String → List String → Result (Unit {0}) → List (Call PluginHandler P)
  if_started code events (err text) = []
  if_started code events (ok u) = subscriptions_due code events

  abbrev pub calls_due : String → PluginRegistryEntry → List (Call PluginHandler P)
  calls_due name e =
      let done = hooks.on_initialize e.plugin.code name in
      if is_waiting e.state
      then done.calls ++ if_started e.plugin.code (declared e) done.result
      else []

  pub all_calls : Map PluginRegistryEntry → List (Call PluginHandler P)
  all_calls [] = []
  all_calls ((name, e) ∷ rest) = calls_due name e ++ all_calls rest

  -- what becomes of an entry, where `counter` is the last id before its subscriptions
  abbrev pub started : PluginRegistryEntry → ℕ → Result (Unit {0}) → PluginRegistryEntry
  started e counter (ok u) = record e {
    state = running;
    subscriptions = e.subscriptions ++ upwards (suc counter) (declared e);
  }
  started e counter (err text) = record e {
    state = error_state;
    error = some (concat "Initialization failed: " text);
  }

  abbrev pub outcome : EventBus PluginHandler P → String → PluginRegistryEntry → PluginRegistryEntry
  outcome bus name e =
      let done = hooks.on_initialize e.plugin.code name in
      if is_waiting e.state then started e (run bus done.calls).counter done.result else e

  -- the entry of a name, after the calls for those before it
  pub expected :
      EventBus PluginHandler P → String → Map PluginRegistryEntry → Option PluginRegistryEntry
  unfolding upwards
  expected bus asked [] = none
  expected bus asked ((name, e) ∷ rest) =
      if str_eq name asked
      then some (outcome bus name e)
      else expected (run bus (calls_due name e)) asked rest

  subscribe_all_lem :
      (bus : EventBus PluginHandler P) (code : String) (events : List String)
      → ((subscribe_all bus code events).0 ≡ run bus (subscriptions_due code events))
        × ((subscribe_all bus code events).1 ≡ upwards (suc bus.counter) events)
  unfolding subscribe_all run apply upwards subscribe
  subscribe_all_lem bus code [] = (refl, refl)
  subscribe_all_lem bus code (event ∷ events) =
      let next = (subscribe bus event (on_event_handler code event) []).0 in
      let (buses, ids) = subscribe_all_lem next code events in
      (buses, ap (λ l. suc bus.counter ∷ l) ids)

  after_initialize_lem :
      (bus : EventBus PluginHandler P) (e : PluginRegistryEntry) (r : Result (Unit {0}))
      → ((after_initialize bus e r).bus ≡ run bus (if_started e.plugin.code (declared e) r))
        × ((after_initialize bus e r).made ≡ started e bus.counter r)
  unfolding after_initialize run
  after_initialize_lem bus e (err text) = (refl, refl)
  after_initialize_lem bus e (ok u) =
      let (buses, ids) = subscribe_all_lem bus e.plugin.code (declared e) in
      (buses, ap (λ l. record e { state = running; subscriptions = e.subscriptions ++ l }) ids)

  waits_lem : (s : PluginLifecycleState) → waits s ≡ is_waiting s
  waits_lem s = ground arith

  initialize_entry_lem :
      (bus : EventBus PluginHandler P) (name : String) (e : PluginRegistryEntry)
      → ((initialize_entry hooks bus name e).bus ≡ run bus (calls_due name e))
        × ((initialize_entry hooks bus name e).made ≡ outcome bus name e)
  unfolding initialize_entry
  initialize_entry_lem bus name e =
      let done = hooks.on_initialize e.plugin.code name in
      let (buses, mades) = after_initialize_lem (run bus done.calls) e done.result in
      elim (Bool-cases (is_waiting e.state)) [
        | inl w ↦
            rw (waits_lem e.state, w)
              (
                buses
                    ∙ sym (
                        run-append bus done.calls
                          (if_started e.plugin.code (declared e) done.result)),
                mades,
              )
        | inr w ↦ rw (waits_lem e.state, w) (refl, refl)
      ]

  initialize_entries-bus :
      (m : Map PluginRegistryEntry) (bus : EventBus PluginHandler P)
      → (initialize_entries hooks bus m).bus ≡ run bus (all_calls m)
  unfolding initialize_entries all_calls
  initialize_entries-bus [] bus = refl
  initialize_entries-bus ((name, e) ∷ rest) bus =
      initialize_entries-bus rest _
      ∙ ap (λ b. run b (all_calls rest)) ((initialize_entry_lem bus name e).0)
      ∙ sym (run-append bus (calls_due name e) (all_calls rest))

  initialize_entries-lookup :
      (asked : String) (m : Map PluginRegistryEntry) (bus : EventBus PluginHandler P)
      → lookup asked (initialize_entries hooks bus m).made ≡ expected bus asked m
  unfolding initialize_entries lookup expected
  initialize_entries-lookup asked [] bus = refl
  initialize_entries-lookup asked ((name, e) ∷ rest) bus = elim (Bool-cases (str_eq name asked)) [
    | inl same ↦ rw same (ap some ((initialize_entry_lem bus name e).1))
    | inr differs ↦ rw differs (
        initialize_entries-lookup asked rest _
        ∙ ap (λ b. expected b asked rest) ((initialize_entry_lem bus name e).0))
  ]

-- Initializing all calls on the bus, for each plugin that waited, in order, what its hook calls and, if
-- the hook returned, a subscription to each event that it declares, under that event's name. It leaves
-- each plugin as its own hook decides, whatever the hooks of the others throw: one that waited runs,
-- with the ids of its subscriptions, or has failed with the text of its error; the others are as they
-- were. No plugin is added or lost.
pub initialize_all_isolates :
    {P : Type 0} (hooks : Hooks P) (s : PluginRegistry P) (name : String)
    → ((initialize_all hooks s).event_bus ≡ run s.event_bus (all_calls hooks s.registry))
      × (lookup name (initialize_all hooks s).registry ≡ expected hooks s.event_bus name s.registry)
unfolding initialize_all
initialize_all_isolates hooks s name = (
  initialize_entries-bus hooks s.registry s.event_bus,
  initialize_entries-lookup hooks name s.registry s.event_bus,
)
