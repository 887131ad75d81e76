-- ===== src/PluginRegistry/Tests.antt =====
-- Two plugins, of which one fails to initialize.
use mathlib.Core.List.{reverse}
use jabr.Base.{
  ℕ, ◌≤◌, String, ◌≡◌, refl, true, false, not, ◌&&◌, none, some, [], ◌∷◌, arith, str_eq, map,
  if◌then◌else◌, lookup, insert, All, has, truthy,
}
use jabr.World.{Result, ok, err}
use jabr.EventBus.{empty_bus, subscribe, subscribers, returned, run}
use jabr.EventBus.Ids.{IsWellFormed, occurrences}
use jabr.PluginRegistry.{
  PluginMetadata, IPlugin, PluginHandler, PluginRegistryEntry, PluginRegistry, Hooks, shutdown_hook,
  waits, is_shutdown, register, add_new, validate_plugin, validate_metadata, new_entry,
  initialize_all, shutdown_entries, shutdown_all, running, validated,
}
use jabr.PluginRegistry.Lifecycle.{initialize_all_op, shutdown_op, Steps, run_ops, lifecycle}
use jabr.PluginRegistry.Shutdown.{AreShutdown, live_names, held, shutdown_all_stops}
use jabr.PluginRegistry.Registering.{IsValid, register_sound}
use jabr.PluginRegistry.Starting.{all_calls, expected, initialize_all_isolates}

abbrev metadata : String → PluginMetadata
metadata name = record {
  name = some name;
  version = some "1.0.0";
  author = some "a";
  description = some "d";
  events = some ("onTaskStart" ∷ []);
  capabilities = none;
  api_version = none;
}

abbrev good : IPlugin
good = record { metadata = metadata "good"; code = "good" }

abbrev bad : IPlugin
bad = record { metadata = metadata "bad"; code = "bad" }

abbrev hooks : Hooks ℕ
hooks = record {
  on_initialize = λ code name. record {
    calls = [];
    result = if str_eq code "bad" then err "Error: boom" else ok tt;
  };
  on_event = λ code event payload. record { calls = []; result = ok tt };
  on_shutdown = λ code. record { calls = []; result = ok tt };
  run_other = λ text payload event. record { calls = []; result = returned };
  is_null = λ payload. false;
}

abbrev empty : PluginRegistry ℕ
empty = record { registry = []; event_bus = empty_bus }

abbrev entry : IPlugin → PluginRegistryEntry
entry plugin = record { plugin = plugin; state = validated; subscriptions = []; error = none }

abbrev two : PluginRegistry ℕ
two = record { registry = ("good", entry good) ∷ ("bad", entry bad) ∷ []; event_bus = empty_bus }

lifecycle_example :
    (e' : PluginRegistryEntry) × (lookup "good"
        (run_ops hooks two (initialize_all_op ∷ shutdown_op "good" ∷ [])).registry
      ≡ some e')
    × (e'.plugin ≡ good)
    × Steps validated e'.state
    × ((waits e'.state && not true) ≡ false)
    × ((false && not (is_shutdown e'.state)) ≡ false)
unfolding lookup
lifecycle_example =
    lifecycle hooks two (initialize_all_op ∷ shutdown_op "good" ∷ []) "good" (entry good) refl

-- the state after the initialization of the first plugin
abbrev started : PluginRegistry ℕ
unfolding subscribe subscribers insert lookup
started = record {
  registry =
      ("good", record { plugin = good; state = running; subscriptions = 1 ∷ []; error = none })
      ∷ [];
  event_bus =
      (subscribe empty_bus "onTaskStart" (PluginHandler.on_event_handler "good" "onTaskStart")
        []).0;
}

started-IsWellFormed : IsWellFormed started.event_bus
unfolding started subscribe subscribers insert lookup
started-IsWellFormed = record { once = λ id. ground arith; fresh = λ id late. ground (arith, late) }

given_ids : All (λ id. id ≤ started.event_bus.counter) (held started.registry)
unfolding started subscribe subscribers insert lookup
given_ids = (omega arith, tt)

taken : (register started (ok bad)).1 ≡ ok tt
unfolding started register add_new validate_plugin validate_metadata has lookup truthy
taken = refl

shutdown_all_stops_example :
    AreShutdown (shutdown_all hooks started).registry
    × ((shutdown_entries hooks started.event_bus started.registry).log
        ≡ map shutdown_hook (reverse (live_names started.registry)))
    × All (λ id. occurrences id (shutdown_all hooks started).event_bus ≡ 0) (held started.registry)
    × (shutdown_entries hooks
          (shutdown_all hooks started).event_bus
          (shutdown_all hooks started).registry
        ≡ record {
          bus = (shutdown_all hooks started).event_bus;
          made = (shutdown_all hooks started).registry;
          log = [];
        })
shutdown_all_stops_example = shutdown_all_stops hooks started started-IsWellFormed given_ids

register_sound_example :
    (plugin : IPlugin) × (name : String) × (Result.ok bad ≡ ok plugin)
    × IsValid plugin.metadata name
    × (lookup name started.registry ≡ none)
    × (lookup "good" (register started (ok bad)).0.registry
        ≡ (if str_eq name "good" then some (new_entry plugin) else lookup "good" started.registry))
register_sound_example = register_sound started (ok bad) "good" taken

initialize_all_isolates_example :
    ((initialize_all hooks two).event_bus ≡ run two.event_bus (all_calls hooks two.registry))
    × (lookup "good" (initialize_all hooks two).registry
        ≡ expected hooks two.event_bus "good" two.registry)
initialize_all_isolates_example = initialize_all_isolates hooks two "good"
