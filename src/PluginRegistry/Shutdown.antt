-- ===== src/PluginRegistry/Shutdown.antt =====
-- Shutting every plugin down: src/core/plugin-registry.ts.
use mathlib.Core.List.{reverse, reverse-cons, append-nil, map-append}
use jabr.Base.{
  All-append-inv, All-map, ℕ, ◌≤◌, String, ◌≡◌, refl, true, List, [], ◌∷◌, ◌++◌, map, if◌then◌else◌,
  arith, ap, sym, All, All-append, Map, Bool-cases, inl, inr, ◌∙◌,
}
use jabr.EventBus.{EventBus, Call, unsubscribe_call, apply, run, unsubscribe}
use jabr.EventBus.Ids.{
  IsWellFormed, occurrences, apply-IsWellFormed, unsubscribe-occurrences, apply-occurrences,
}
use jabr.PluginRegistry.{
  PluginHandler, PluginRegistryEntry, PluginRegistry, Hooks, shutdown_hook, is_shutdown,
  unsubscribe_all, shutdown_plugin, shutdown_entries, shutdown_all,
}

-- the names of the plugins that are not shut down, in the order of the table
abbrev pub live_names : Map PluginRegistryEntry → List String
live_names [] = []
live_names ((name, e) ∷ m) =
    let rest = live_names m in if is_shutdown e.state then rest else name ∷ rest

-- the subscriptions that these hold
abbrev pub held : Map PluginRegistryEntry → List ℕ
held [] = []
held ((name, e) ∷ m) =
    let rest = held m in if is_shutdown e.state then rest else e.subscriptions ++ rest

abbrev own_held : PluginRegistryEntry → List ℕ
own_held e = if is_shutdown e.state then [] else e.subscriptions

held_cons :
    (name : String) (e : PluginRegistryEntry) (m : Map PluginRegistryEntry)
    → held ((name, e) ∷ m) ≡ own_held e ++ held m
held_cons name e m = elim (Bool-cases (is_shutdown e.state)) [
  | inl w ↦ rw w refl
  | inr w ↦ rw w refl
]

module _ {P : Type 0} where
  -- a bus after the other one, which gives no id back that was given
  record Later (bus bus' : EventBus PluginHandler P) : Type 0 where
    sound : IsWellFormed bus'
    grows : bus.counter ≤ bus'.counter
    keeps : (id : ℕ) → id ≤ bus.counter → occurrences id bus' ≤ occurrences id bus

  Later-trans : (a b d : EventBus PluginHandler P) → Later a b → Later b d → Later a d
  Later-trans a b d p q = record {
    sound = q.sound;
    grows = omega (arith, p.grows, q.grows);
    keeps = λ id given.
        omega (arith, given, p.grows, p.keeps id given, q.keeps id (omega (arith, given, p.grows)));
  }

  Later-refl : (bus : EventBus PluginHandler P) → IsWellFormed bus → Later bus bus
  Later-refl bus p = record { sound = p; grows = omega arith; keeps = λ id given. omega arith }

  apply-Later :
      (bus : EventBus PluginHandler P) (call : Call PluginHandler P)
      → IsWellFormed bus
      → Later bus (apply bus call)
  apply-Later bus call p =
      let (grows, keeps) = apply-occurrences bus call in
      record { sound = apply-IsWellFormed bus call p; grows = grows; keeps = keeps }

  run-Later :
      (bus : EventBus PluginHandler P) (calls : List (Call PluginHandler P))
      → IsWellFormed bus
      → Later bus (run bus calls)
  unfolding run
  run-Later bus [] p = Later-refl bus p
  run-Later bus (call ∷ calls) p =
      let first = apply-Later bus call p in
      Later-trans bus (apply bus call) _ first (run-Later (apply bus call) calls first.sound)

  abbrev GoneFrom : EventBus PluginHandler P → List ℕ → Type 0
  GoneFrom bus ids = All (λ id. (occurrences id bus ≡ 0) × (id ≤ bus.counter)) ids

  gone-Later :
      (bus bus' : EventBus PluginHandler P) (ids : List ℕ)
      → Later bus bus'
      → GoneFrom bus ids
      → GoneFrom bus' ids
  gone-Later bus bus' ids p h =
      All-map _ _ ids
        (λ id (gone, given).
          (omega (arith, gone, given, p.keeps id given), omega (arith, given, p.grows)))
        h

  unsubscribe-Later :
      (bus : EventBus PluginHandler P) (id : ℕ) → IsWellFormed bus → Later bus (unsubscribe bus id)
  unfolding apply
  unsubscribe-Later bus id p = apply-Later bus (unsubscribe_call id) p

  unsubscribe_all-Later :
      (bus : EventBus PluginHandler P) (ids : List ℕ)
      → IsWellFormed bus
      → All (λ id. id ≤ bus.counter) ids
      → Later bus (unsubscribe_all bus ids) × GoneFrom (unsubscribe_all bus ids) ids
  unfolding unsubscribe_all
  unsubscribe_all-Later bus [] p given = (Later-refl bus p, tt)
  unsubscribe_all-Later bus (id ∷ ids) p (here, given) =
      let bus' = unsubscribe bus id in
      let first = unsubscribe-Later bus id p in
      let gone : occurrences id bus' ≡ 0 =
        ground (arith, p.once id, unsubscribe-occurrences bus id id) in
      let in_time =
        All-map _ (λ i. i ≤ bus'.counter) ids (λ i h. omega (arith, h, first.grows)) given in
      let (rest, others) = unsubscribe_all-Later bus' ids first.sound in_time in
      (
        Later-trans bus bus' _ first rest,
        (
          (gone-Later bus' _ (id ∷ []) rest ((gone, omega (arith, here, first.grows)), tt)).0,
          others,
        ),
      )

abbrev pub AreShutdown : Map PluginRegistryEntry → Type 0
AreShutdown m = All (λ e. is_shutdown e.1.state ≡ true) m

module _ {P : Type 0} (hooks : Hooks P) where
  shutdown_plugin-is_shutdown :
      (bus : EventBus PluginHandler P) (name : String) (e : PluginRegistryEntry)
      → is_shutdown (shutdown_plugin hooks bus name e).made.state ≡ true
  unfolding shutdown_plugin
  shutdown_plugin-is_shutdown bus name e = ground arith

  shutdown_entries-AreShutdown :
      (bus : EventBus PluginHandler P) (m : Map PluginRegistryEntry)
      → AreShutdown (shutdown_entries hooks bus m).made
  unfolding shutdown_entries
  shutdown_entries-AreShutdown bus [] = tt
  shutdown_entries-AreShutdown bus ((name, e) ∷ rest) =
      (shutdown_plugin-is_shutdown _ name e, shutdown_entries-AreShutdown bus rest)

  -- a table that is shut down is left as it is
  shutdown_entries_again :
      (bus : EventBus PluginHandler P) (m : Map PluginRegistryEntry)
      → AreShutdown m
      → shutdown_entries hooks bus m ≡ record { bus = bus; made = m; log = [] }
  unfolding shutdown_entries shutdown_plugin
  shutdown_entries_again bus [] h = refl
  shutdown_entries_again bus ((name, e) ∷ rest) (here, h) =
      rw (shutdown_entries_again bus rest h) (rw here refl)

  shutdown_entries-log :
      (bus : EventBus PluginHandler P) (m : Map PluginRegistryEntry)
      → (shutdown_entries hooks bus m).log ≡ map shutdown_hook (reverse (live_names m))
  unfolding shutdown_entries shutdown_plugin
  shutdown_entries-log bus [] = refl
  shutdown_entries-log bus ((name, e) ∷ rest) =
      let ih = shutdown_entries-log bus rest in
      elim (Bool-cases (is_shutdown e.state)) [
        | inl w ↦ rw (w, ih) (append-nil (map shutdown_hook (reverse (live_names rest))))
        | inr w ↦
            rw (w, ih)
              (sym (
                ap (map shutdown_hook) (reverse-cons name (live_names rest))
                ∙ map-append shutdown_hook (reverse (live_names rest)) (name ∷ [])))
      ]

  shutdown_plugin-Later :
      (bus : EventBus PluginHandler P) (name : String) (e : PluginRegistryEntry)
      → IsWellFormed bus
      → All (λ id. id ≤ bus.counter) (own_held e)
      → Later bus (shutdown_plugin hooks bus name e).bus
        × GoneFrom (shutdown_plugin hooks bus name e).bus (own_held e)
  unfolding shutdown_plugin
  shutdown_plugin-Later bus name e p given = elim (Bool-cases (is_shutdown e.state)) [
    | inl w ↦ rw w (Later-refl bus p, tt)
    | inr w ↦
        let (first, gone) = unsubscribe_all-Later bus e.subscriptions p (rw w at given) in
        let calls = (hooks.on_shutdown e.plugin.code).calls in
        let rest = run-Later (unsubscribe_all bus e.subscriptions) calls first.sound in
        rw w (Later-trans bus _ _ first rest, gone-Later _ _ e.subscriptions rest gone)
  ]

  shutdown_entries-Later :
      (bus : EventBus PluginHandler P) (m : Map PluginRegistryEntry)
      → IsWellFormed bus
      → All (λ id. id ≤ bus.counter) (held m)
      → Later bus (shutdown_entries hooks bus m).bus
        × GoneFrom (shutdown_entries hooks bus m).bus (held m)
  unfolding shutdown_entries
  shutdown_entries-Later bus [] p given = (Later-refl bus p, tt)
  shutdown_entries-Later bus ((name, e) ∷ rest) p given =
      let (mine, others) =
        All-append-inv _ (own_held e) (held rest) (rw (held_cons name e rest) at given) in
      let (first, gone) = shutdown_entries-Later bus rest p others in
      let bus' = (shutdown_entries hooks bus rest).bus in
      let in_time =
        All-map _ (λ i. i ≤ bus'.counter) (own_held e) (λ i h. omega (arith, h, first.grows))
          mine in
      let (last, own_gone) = shutdown_plugin-Later bus' name e first.sound in_time in
      (
        Later-trans bus bus' _ first last,
        rw (held_cons name e rest) (
            All-append _ (own_held e) (held rest) own_gone
              (gone-Later bus' _ (held rest) last gone)),
      )

-- Shutting every plugin down leaves each one shut down, has called the shutdown hooks of those that were
-- not, the last one first, whatever the hooks threw, and has taken the subscriptions that they held from
-- the bus, also where hooks subscribed anew. Doing it again calls no hook and changes nothing. The bus
-- is one whose ids are distinct, and the held ids are ones that it gave.
pub shutdown_all_stops :
    {P : Type 0} (hooks : Hooks P) (s : PluginRegistry P)
    → IsWellFormed s.event_bus
    → All (λ id. id ≤ s.event_bus.counter) (held s.registry)
    → AreShutdown (shutdown_all hooks s).registry
      × ((shutdown_entries hooks s.event_bus s.registry).log
          ≡ map shutdown_hook (reverse (live_names s.registry)))
      × All (λ id. occurrences id (shutdown_all hooks s).event_bus ≡ 0) (held s.registry)
      × (shutdown_entries hooks (shutdown_all hooks s).event_bus (shutdown_all hooks s).registry
          ≡ record {
            bus = (shutdown_all hooks s).event_bus;
            made = (shutdown_all hooks s).registry;
            log = [];
          })
unfolding shutdown_all
shutdown_all_stops hooks s p given =
    let stopped = shutdown_entries-AreShutdown hooks s.event_bus s.registry in
    let (_, gone) = shutdown_entries-Later hooks s.event_bus s.registry p given in
    (
      stopped,
      shutdown_entries-log hooks s.event_bus s.registry,
      All-map _ _ (held s.registry) (λ id h. h.0) gone,
      shutdown_entries_again hooks (shutdown_entries hooks s.event_bus s.registry).bus
          (shutdown_entries hooks s.event_bus s.registry).made stopped,
    )
