-- ===== src/PluginRegistry.antt =====
-- The registry of the plugins and their lifecycle: src/core/plugin-registry.ts over the event bus. What
-- a plugin's hooks do to the bus and whether they throw is an argument (`Hooks`); a hook runs to its end
-- before the loop goes on. The texts of the logger are left out, the order of the hooks is kept.
mod Metadata
pub mod Lifecycle
pub mod Shutdown
pub mod Registering
pub mod Starting
mod Tests
unfoldable pub use Metadata.*
use jabr.Base.{
  ℕ, String, Bool, true, false, not, ◌||◌, Option, none, some, List, [], ◌∷◌, ◌++◌, if◌then◌else◌,
  concat, find, includes, truthy, get_or, Map, lookup, insert, has,
}
use jabr.World.{Result, ok, err, bind}
use jabr.EventBus.{EventBus, Call, HandlerRun, Runtime, returned, run, subscribe, unsubscribe}

pub data PluginLifecycleState : Type 0 where
  discovered validated loaded initialized running shutdown_state error_state : PluginLifecycleState

-- the plugin's code is a name for its hooks
pub record IPlugin : Type 0 where
  pub metadata : PluginMetadata
  pub code : String

-- the handlers on the bus: those of the registry, and those that plugins set by themselves
pub data PluginHandler : Type 0 where
  on_event_handler : (code event : String) → PluginHandler
  other_handler : (text : String) → PluginHandler

pub record PluginRegistryEntry : Type 0 where
  pub plugin : IPlugin
  pub state : PluginLifecycleState
  pub subscriptions : List ℕ
  pub error : Option String

pub record PluginRegistry (P : Type 0) : Type 0 where
  pub registry : Map PluginRegistryEntry
  pub event_bus : EventBus PluginHandler P

pub record HookRun (P : Type 0) : Type 0 where
  pub calls : List (Call PluginHandler P)
  pub result : Result (Unit {0})

pub record Hooks (P : Type 0) : Type 0 where
  pub on_initialize : String → String → HookRun P
  pub on_event : String → String → P → HookRun P
  pub on_shutdown : String → HookRun P
  pub run_other : String → P → String → HandlerRun PluginHandler P
  pub is_null : P → Bool

-- the hooks that were called, by the plugin's name
pub data HookCall : Type 0 where
  initialize_hook shutdown_hook : (name : String) → HookCall

-- the bus, what became of an entry or of all, and the hooks called
pub record Turn (P A : Type 0) : Type 0 where
  pub bus : EventBus PluginHandler P
  pub made : A
  pub log : List HookCall

-- a factory may throw
pub validate_plugin : Result IPlugin → Result (IPlugin × String)
unfolding validate_metadata
validate_plugin plugin_export =
    bind plugin_export λ plugin. bind (validate_metadata plugin.metadata) λ name. ok (plugin, name)

abbrev new_entry : IPlugin → PluginRegistryEntry
new_entry plugin = record { plugin = plugin; state = validated; subscriptions = []; error = none }

abbrev pub waits : PluginLifecycleState → Bool
waits validated = true
waits loaded = true
waits _ = false

abbrev pub is_shutdown : PluginLifecycleState → Bool
is_shutdown shutdown_state = true
is_shutdown _ = false

abbrev pub entry_events : PluginRegistryEntry → List String
entry_events entry = get_or entry.plugin.metadata.events []

-- a failure is kept as the entry's error, and the state is `Shutdown` then too
abbrev pub after_shutdown : PluginRegistryEntry → Result (Unit {0}) → PluginRegistryEntry
after_shutdown entry (ok u) = record entry { state = shutdown_state }
after_shutdown entry (err e) = record entry {
  state = shutdown_state;
  error = some (concat "Shutdown failed: " e);
}

module _ {P : Type 0} where
  abbrev add_new :
      PluginRegistry P → Result (IPlugin × String) → PluginRegistry P × Result (Unit {0})
  unfolding has lookup
  add_new s (err e) = (s, err (concat "Validation failed: " e))
  add_new s (ok (plugin, name)) =
      if has name s.registry
      then (s, err (concat "Plugin with name \"" (concat name "\" already registered")))
      else (record s { registry = insert name (new_entry plugin) s.registry }, ok tt)

  -- `success`, or the `error`
  pub register : PluginRegistry P → Result IPlugin → PluginRegistry P × Result (Unit {0})
  unfolding add_new validate_plugin
  register s plugin_export = add_new s (validate_plugin plugin_export)

  pub unsubscribe_all : EventBus PluginHandler P → List ℕ → EventBus PluginHandler P
  unsubscribe_all bus [] = bus
  unsubscribe_all bus (id ∷ ids) = unsubscribe_all (unsubscribe bus id) ids

  -- the subscriptions to the declared events, in their order
  pub subscribe_all :
      EventBus PluginHandler P → String → List String → EventBus PluginHandler P × List ℕ
  subscribe_all bus code [] = (bus, [])
  subscribe_all bus code (event ∷ events) =
      let (bus', id) = subscribe bus event (on_event_handler code event) [] in
      let (bus'', ids) = subscribe_all bus' code events in (bus'', id ∷ ids)

  abbrev pub after_initialize :
      EventBus PluginHandler P
      → PluginRegistryEntry
      → Result (Unit {0})
      → Turn P PluginRegistryEntry
  unfolding subscribe_all
  after_initialize bus entry (err e) = record {
    bus = bus;
    made = record entry { state = error_state; error = some (concat "Initialization failed: " e) };
    log = [];
  }
  after_initialize bus entry (ok u) =
      let (bus', ids) = subscribe_all bus entry.plugin.code (entry_events entry) in
      record {
        bus = bus';
        made = record entry { state = running; subscriptions = entry.subscriptions ++ ids };
        log = [];
      }

  -- one turn of the loop of `initializeAll`
  pub initialize_entry :
      Hooks P → EventBus PluginHandler P → String → PluginRegistryEntry → Turn P PluginRegistryEntry
  unfolding after_initialize run
  initialize_entry hooks bus name entry =
      if waits entry.state
      then (let done = hooks.on_initialize entry.plugin.code name in
          record (after_initialize (run bus done.calls) entry done.result) {
            log = initialize_hook name ∷ [];
          })
      else record { bus = bus; made = entry; log = [] }

  pub initialize_entries :
      Hooks P
      → EventBus PluginHandler P
      → Map PluginRegistryEntry
      → Turn P (Map PluginRegistryEntry)
  unfolding initialize_entry
  initialize_entries hooks bus [] = record { bus = bus; made = []; log = [] }
  initialize_entries hooks bus ((name, entry) ∷ rest) =
      let first = initialize_entry hooks bus name entry in
      let others = initialize_entries hooks first.bus rest in
      record {
        bus = others.bus;
        made = (name, first.made) ∷ others.made;
        log = first.log ++ others.log;
      }

  abbrev pub settled : Turn P (Map PluginRegistryEntry) → PluginRegistry P
  settled t = record { registry = t.made; event_bus = t.bus }

  pub initialize_all : Hooks P → PluginRegistry P → PluginRegistry P
  unfolding initialize_entries
  initialize_all hooks s = settled (initialize_entries hooks s.event_bus s.registry)

  pub shutdown_plugin :
      Hooks P → EventBus PluginHandler P → String → PluginRegistryEntry → Turn P PluginRegistryEntry
  unfolding unsubscribe_all run
  shutdown_plugin hooks bus name entry =
      if is_shutdown entry.state
      then record { bus = bus; made = entry; log = [] }
      else let done = hooks.on_shutdown entry.plugin.code in
        record {
          bus = run (unsubscribe_all bus entry.subscriptions) done.calls;
          made = after_shutdown (record entry { subscriptions = [] }) done.result;
          log = shutdown_hook name ∷ [];
        }

  -- the last entry is shut down first
  pub shutdown_entries :
      Hooks P
      → EventBus PluginHandler P
      → Map PluginRegistryEntry
      → Turn P (Map PluginRegistryEntry)
  unfolding shutdown_plugin
  shutdown_entries hooks bus [] = record { bus = bus; made = []; log = [] }
  shutdown_entries hooks bus ((name, entry) ∷ rest) =
      let others = shutdown_entries hooks bus rest in
      let last = shutdown_plugin hooks others.bus name entry in
      record {
        bus = last.bus;
        made = (name, last.made) ∷ others.made;
        log = others.log ++ last.log;
      }

  pub shutdown_all : Hooks P → PluginRegistry P → PluginRegistry P
  unfolding shutdown_entries
  shutdown_all hooks s = settled (shutdown_entries hooks s.event_bus s.registry)

  abbrev shutdown_found :
      Hooks P → PluginRegistry P → String → Option PluginRegistryEntry → PluginRegistry P
  unfolding shutdown_plugin
  shutdown_found hooks s name none = s
  shutdown_found hooks s name (some entry) =
      let t = shutdown_plugin hooks s.event_bus name entry in
      record { registry = insert name t.made s.registry; event_bus = t.bus }

  pub shutdown : Hooks P → PluginRegistry P → String → PluginRegistry P
  unfolding shutdown_found lookup
  shutdown hooks s name = shutdown_found hooks s name (lookup name s.registry)

  -- what the bus runs: `onEvent` is caught, and its promise resolves
  pub runtime : Hooks P → Runtime PluginHandler P
  runtime hooks = record {
    run_handler = λ handler payload event. elim handler [
      | on_event_handler code name ↦ record {
        calls = (hooks.on_event code name payload).calls;
        result = returned;
      }
      | other_handler text ↦ hooks.run_other text payload event
    ];
    is_null = hooks.is_null;
    global_middleware = [];
    has_on_error = false;
  }
