-- ===== src/PluginRegistry/Lifecycle.antt =====
-- The states that a plugin passes through: src/core/plugin-registry.ts.
use jabr.Base.{
  String, ◌≡◌, refl, true, false, some, List, [], ◌∷◌, arith, eq_iff, str_eq, ◌∙◌, ◌&&◌, not, Map,
  lookup, insert, lookup-insert, Bool-cases, Option-cases, inl, inr,
}
use jabr.World.{Result, ok, err}
use jabr.EventBus.{EventBus}
use jabr.PluginRegistry.{
  PluginLifecycleState, validated, loaded, initialized, running, shutdown_state, error_state,
  IPlugin, PluginHandler, PluginRegistryEntry, PluginRegistry, Hooks, register, add_new, new_entry,
  validate_plugin, waits, is_shutdown, after_initialize, initialize_entry, initialize_entries,
  initialize_all, after_shutdown, shutdown_plugin, shutdown_entries, shutdown_all, shutdown_found,
  shutdown,
}

-- the assignments to an entry's state
pub data Step : PluginLifecycleState → PluginLifecycleState → Type 0 where
  load : (s : PluginLifecycleState) → waits s ≡ true → Step s loaded
  initialize : Step loaded initialized
  start : Step initialized running
  give_up : Step loaded error_state
  stop : (s : PluginLifecycleState) → is_shutdown s ≡ false → Step s shutdown_state

pub data Steps : PluginLifecycleState → PluginLifecycleState → Type 0 where
  stay : (s : PluginLifecycleState) → Steps s s
  go : (s t u : PluginLifecycleState) → Step s t → Steps t u → Steps s u

Steps-trans : (s t u : PluginLifecycleState) → Steps s t → Steps t u → Steps s u
Steps-trans s _ u (stay _) q = q
Steps-trans s t u (go _ m _ first rest) q = go s m u first (Steps-trans m t u rest q)

-- The entry is one of the same plugin, in a state that the steps lead to.
pub record Follows (e e' : PluginRegistryEntry) : Type 0 where
  pub same_plugin : e'.plugin ≡ e.plugin
  pub steps : Steps e.state e'.state

Follows-refl : (e : PluginRegistryEntry) → Follows e e
Follows-refl e = record { same_plugin = refl; steps = stay e.state }

-- each entry of the first table is followed in the second
abbrev pub Kept : Map PluginRegistryEntry → Map PluginRegistryEntry → Type 0
Kept m m' =
    (name : String) (e : PluginRegistryEntry)
    → lookup name m ≡ some e
    → (e' : PluginRegistryEntry) × (lookup name m' ≡ some e') × Follows e e'

Kept-refl : (m : Map PluginRegistryEntry) → Kept m m
Kept-refl m name e found = (e, found, Follows-refl e)

Kept-trans : (a b d : Map PluginRegistryEntry) → Kept a b → Kept b d → Kept a d
Kept-trans a b d p q name e found =
    let (e1, found1, f) = p name e found in
    let (e2, found2, g) = q name e1 found1 in
    (
      e2,
      found2,
      record {
        same_plugin = g.same_plugin ∙ f.same_plugin;
        steps = Steps-trans e.state e1.state e2.state f.steps g.steps;
      },
    )

Kept-cons :
    (name : String) (e e' : PluginRegistryEntry) (m m' : Map PluginRegistryEntry)
    → Follows e e'
    → Kept m m'
    → Kept ((name, e) ∷ m) ((name, e') ∷ m')
unfolding lookup
Kept-cons name e e' m m' f p asked x found = elim (Bool-cases (str_eq name asked)) [
  | inl same ↦ let it : e ≡ x = ground (arith, found, same) in (e', rw same refl, rw it at f)
  | inr differs ↦
      let (x', found', g) = p asked x (rw differs at found) in (x', rw differs found', g)
]

Kept-insert :
    (name : String) (e e' : PluginRegistryEntry) (m : Map PluginRegistryEntry)
    → lookup name m ≡ some e
    → Follows e e'
    → Kept m (insert name e' m)
Kept-insert name e e' m there f asked x found = elim (Bool-cases (str_eq name asked)) [
  | inl same ↦
      let alike : name ≡ asked = ground (arith, same, eq_iff name asked) in
      let it : e ≡ x = ground (arith, found, there, alike) in
      (e', ground (arith, lookup-insert name asked e' m, same), rw it at f)
  | inr differs ↦ (x, ground (arith, lookup-insert name asked e' m, differs, found), Follows-refl x)
]

module _ {P : Type 0} (hooks : Hooks P) where
  after_initialize-Follows :
      (bus : EventBus PluginHandler P) (e : PluginRegistryEntry) (r : Result (Unit {0}))
      → waits e.state ≡ true
      → Follows e (after_initialize bus e r).made
  unfolding after_initialize
  after_initialize-Follows bus e (err text) w = record {
    same_plugin = refl;
    steps =
        go e.state loaded error_state (load e.state w)
          (go loaded error_state error_state give_up (stay error_state));
  }
  after_initialize-Follows bus e (ok u) w = record {
    same_plugin = refl;
    steps = go e.state loaded running (load e.state w) (
        go loaded initialized running initialize
          (go initialized running running start (stay running)));
  }

  initialize_entry-Follows :
      (bus : EventBus PluginHandler P) (name : String) (e : PluginRegistryEntry)
      → Follows e (initialize_entry hooks bus name e).made
  unfolding initialize_entry
  initialize_entry-Follows bus name e = elim (Bool-cases (waits e.state)) [
    | inl w ↦ rw w (after_initialize-Follows _ e _ w)
    | inr w ↦ rw w (Follows-refl e)
  ]

  initialize_entries-Kept :
      (m : Map PluginRegistryEntry) (bus : EventBus PluginHandler P)
      → Kept m (initialize_entries hooks bus m).made
  unfolding initialize_entries
  initialize_entries-Kept [] bus = Kept-refl []
  initialize_entries-Kept ((name, e) ∷ rest) bus =
      Kept-cons name e _ rest _ (initialize_entry-Follows bus name e)
        (initialize_entries-Kept rest _)

  after_shutdown-Follows :
      (e : PluginRegistryEntry) (r : Result (Unit {0}))
      → is_shutdown e.state ≡ false
      → Follows e (after_shutdown (record e { subscriptions = [] }) r)
  after_shutdown-Follows e (ok u) live = record {
    same_plugin = refl;
    steps = go e.state _ _ (stop e.state live) (stay shutdown_state);
  }
  after_shutdown-Follows e (err text) live = record {
    same_plugin = refl;
    steps = go e.state _ _ (stop e.state live) (stay shutdown_state);
  }

  shutdown_plugin-Follows :
      (bus : EventBus PluginHandler P) (name : String) (e : PluginRegistryEntry)
      → Follows e (shutdown_plugin hooks bus name e).made
  unfolding shutdown_plugin
  shutdown_plugin-Follows bus name e = elim (Bool-cases (is_shutdown e.state)) [
    | inl w ↦ rw w (Follows-refl e)
    | inr w ↦ rw w (after_shutdown-Follows e _ w)
  ]

  shutdown_entries-Kept :
      (bus : EventBus PluginHandler P) (m : Map PluginRegistryEntry)
      → Kept m (shutdown_entries hooks bus m).made
  unfolding shutdown_entries
  shutdown_entries-Kept bus [] = Kept-refl []
  shutdown_entries-Kept bus ((name, e) ∷ rest) =
      Kept-cons name e _ rest _ (shutdown_plugin-Follows _ name e) (shutdown_entries-Kept bus rest)

pub data Op : Type 0 where
  register_op : (plugin_export : Result IPlugin) → Op
  initialize_all_op shutdown_all_op : Op
  shutdown_op : (name : String) → Op

module _ {P : Type 0} (hooks : Hooks P) where
  pub apply : PluginRegistry P → Op → PluginRegistry P
  apply s (register_op plugin_export) = (register s plugin_export).0
  apply s initialize_all_op = initialize_all hooks s
  apply s shutdown_all_op = shutdown_all hooks s
  apply s (shutdown_op name) = shutdown hooks s name

  pub run_ops : PluginRegistry P → List Op → PluginRegistry P
  run_ops s [] = s
  run_ops s (op ∷ ops) = run_ops (apply s op) ops

  add_new-Kept :
      (s : PluginRegistry P) (r : Result (IPlugin × String))
      → Kept s.registry (add_new s r).0.registry
  unfolding add_new
  add_new-Kept s (err e) asked x found = Kept-refl s.registry asked x found
  add_new-Kept s (ok (plugin, name)) asked x found =
      let law = lookup-insert name asked (new_entry plugin) s.registry in
      (x, ground (arith, found, law, eq_iff name asked), Follows-refl x)

  shutdown-Kept :
      (s : PluginRegistry P) (name : String) → Kept s.registry (shutdown hooks s name).registry
  unfolding shutdown shutdown_found
  shutdown-Kept s name = elim (Option-cases (lookup name s.registry)) [
    | inl e ↦ rw e (Kept-refl s.registry)
    | inr (x, e) ↦
        rw e (Kept-insert name x _ s.registry e (shutdown_plugin-Follows hooks s.event_bus name x))
  ]

  apply-Kept : (s : PluginRegistry P) (op : Op) → Kept s.registry (apply s op).registry
  unfolding apply register initialize_all shutdown_all
  apply-Kept s (register_op plugin_export) = add_new-Kept s (validate_plugin plugin_export)
  apply-Kept s initialize_all_op = initialize_entries-Kept hooks s.registry s.event_bus
  apply-Kept s shutdown_all_op = shutdown_entries-Kept hooks s.event_bus s.registry
  apply-Kept s (shutdown_op name) = shutdown-Kept s name

  run_ops-Kept : (s : PluginRegistry P) (ops : List Op) → Kept s.registry (run_ops s ops).registry
  unfolding run_ops
  run_ops-Kept s [] = Kept-refl s.registry
  run_ops-Kept s (op ∷ ops) = Kept-trans _ _ _ (apply-Kept s op) (run_ops-Kept (apply s op) ops)

step_final : (s t : PluginLifecycleState) → is_shutdown s ≡ true → Step s t → ⊥
step_final s _ final (load validated w) = cc
step_final s _ final (load loaded w) = cc
step_final s _ final (load shutdown_state w) = cc
step_final s _ final (load _ w) = cc
step_final s _ final initialize = cc
step_final s _ final start = cc
step_final s _ final give_up = cc
step_final s _ final (stop _ live) = cc

step_waits : (s t : PluginLifecycleState) → waits s ≡ false → Step s t → waits t ≡ false
step_waits s _ w (load _ w') = cc
step_waits s _ w initialize = refl
step_waits s _ w start = refl
step_waits s _ w give_up = refl
step_waits s _ w (stop _ live) = refl

Steps-final :
    (s t : PluginLifecycleState) → Steps s t → (is_shutdown s && not (is_shutdown t)) ≡ false
Steps-final s _ (stay _) = ground arith
Steps-final s t (go _ m _ first rest) = elim (Bool-cases (is_shutdown s)) [
  | inl final ↦ absurd (step_final s m final first)
  | inr live ↦ rw live refl
]

Steps-waits : (s t : PluginLifecycleState) → Steps s t → (waits t && not (waits s)) ≡ false
Steps-waits s _ (stay _) = ground arith
Steps-waits s t (go _ m _ first rest) =
    let ih = Steps-waits m t rest in
    elim (Bool-cases (waits s)) [
      | inl w ↦ ground (arith, w)
      | inr w ↦ ground (arith, w, ih, step_waits s m w first)
    ]

-- Whatever is registered, initialized or shut down afterwards, a registered plugin stays registered
-- under its name, as the same plugin, and its state moves along the steps of the lifecycle: a plugin
-- that has been initialized or has failed is never initialized again, and one that is shut down stays
-- shut down.
pub lifecycle :
    {P : Type 0} (hooks : Hooks P) (s : PluginRegistry P) (ops : List Op) (name : String)
    (e : PluginRegistryEntry)
    → lookup name s.registry ≡ some e
    → (e' : PluginRegistryEntry) × (lookup name (run_ops hooks s ops).registry ≡ some e')
      × (e'.plugin ≡ e.plugin)
      × Steps e.state e'.state
      × ((waits e'.state && not (waits e.state)) ≡ false)
      × ((is_shutdown e.state && not (is_shutdown e'.state)) ≡ false)
lifecycle hooks s ops name e found =
    let (e', found', f) = run_ops-Kept hooks s ops name e found in
    (
      e',
      found',
      f.same_plugin,
      f.steps,
      Steps-waits e.state e'.state f.steps,
      Steps-final e.state e'.state f.steps,
    )
