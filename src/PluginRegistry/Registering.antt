-- ===== src/PluginRegistry/Registering.antt =====
-- Registering a plugin: src/core/plugin-registry.ts.
use jabr.Base.{
  String, ◌≡◌, refl, true, not, Option, none, some, List, [], ◌∷◌, arith, str_eq, all, find,
  includes, truthy, get_or, lookup, insert, lookup-insert, has, if◌then◌else◌, Bool-cases,
  Option-cases, ◌⊎◌, inl, inr,
}
use jabr.World.{Result, ok, err, bind-eq-ok}
use jabr.PluginRegistry.{
  PluginMetadata, IPlugin, PluginRegistry, known_events, valid_capabilities, required, events_of,
  within, check_api_version, validate_metadata, validate_plugin, new_entry, register, add_new,
}

-- What the checks ask of a plugin of the name.
pub record IsValid (d : PluginMetadata) (name : String) : Type 0 where
  pub named : truthy d.name ≡ some name
  pub versioned : (v : String) × (truthy d.version ≡ some v)
  pub authored : (a : String) × (truthy d.author ≡ some a)
  pub described : (t : String) × (truthy d.description ≡ some t)
  pub listening :
      (events : List String) × (d.events ≡ some events)
      × (all (includes known_events) events ≡ true)
  pub capable : all (includes valid_capabilities) (get_or d.capabilities []) ≡ true
  pub api_text : (d.api_version ≡ none) ⊎ ((t : String) × (d.api_version ≡ some (some t)))

required_sound :
    (field : String) (o : Option String) (t : String) → required field o ≡ ok t → o ≡ some t
required_sound field none t h = cc
required_sound field (some u) t h = ground (arith, h)

events_of_sound :
    (o : Option (List String)) (events : List String) → events_of o ≡ ok events → o ≡ some events
events_of_sound none events h = cc
events_of_sound (some es) events h = ground (arith, h)

all_of_none :
    (allowed given : List String)
    → find (λ x. not (includes allowed x)) given ≡ none
    → all (includes allowed) given ≡ true
all_of_none allowed [] h = refl
all_of_none allowed (x ∷ xs) h = elim (Bool-cases (includes allowed x)) [
  | inl e ↦
      let rest : find (λ y. not (includes allowed y)) xs ≡ none = rw e at h in
      rw e (all_of_none allowed xs rest)
  | inr e ↦ absurd (ground (arith, e, h))
]

within_sound :
    (allowed : List String) (what : String) (given r : List String)
    → within allowed what given ≡ ok r
    → all (includes allowed) given ≡ true
within_sound allowed what given r h =
    elim (Option-cases (find (λ x. not (includes allowed x)) given)) [
      | inl e ↦ all_of_none allowed given e
      | inr (x, e) ↦ absurd (ground (arith, e, h))
    ]

check_api_version_sound :
    (v : Option (Option String))
    → check_api_version v ≡ ok tt
    → (v ≡ none) ⊎ ((t : String) × (v ≡ some (some t)))
check_api_version_sound none h = inl refl
check_api_version_sound (some none) h = absurd (ground (arith, h))
check_api_version_sound (some (some t)) h = inr (t, refl)

validate_metadata_sound :
    (d : PluginMetadata) (name : String) → validate_metadata d ≡ ok name → IsValid d name
unfolding validate_metadata
validate_metadata_sound d name h =
    let (n, named, h1) = bind-eq-ok (required "name" (truthy d.name)) _ name h in
    let (v, versioned, h2) = bind-eq-ok (required "version" (truthy d.version)) _ name h1 in
    let (a, authored, h3) = bind-eq-ok (required "author" (truthy d.author)) _ name h2 in
    let (t, described, h4) = bind-eq-ok (required "description" (truthy d.description)) _ name h3 in
    let (events, listening, h5) = bind-eq-ok (events_of d.events) _ name h4 in
    let (_, known, h6) = bind-eq-ok (within known_events _ events) _ name h5 in
    let (_, capable, h7) =
      bind-eq-ok (within valid_capabilities _ (get_or d.capabilities [])) _ name h6 in
    let (_, versions, h8) = bind-eq-ok (check_api_version d.api_version) _ name h7 in
    let it : n ≡ name = ground (arith, h8) in
    record {
      named = rw it at (required_sound "name" (truthy d.name) n named);
      versioned = (v, required_sound "version" (truthy d.version) v versioned);
      authored = (a, required_sound "author" (truthy d.author) a authored);
      described = (t, required_sound "description" (truthy d.description) t described);
      listening = (
        events,
        events_of_sound d.events events listening,
        within_sound known_events _ events _ known,
      );
      capable = within_sound valid_capabilities _ (get_or d.capabilities []) _ capable;
      api_text = check_api_version_sound d.api_version versions;
    }

module _ {P : Type 0} (s : PluginRegistry P) where
  add_new_sound :
      (r : Result (IPlugin × String))
      → (add_new s r).1 ≡ ok tt
      → (plugin : IPlugin) × (name : String) × (r ≡ ok (plugin, name))
        × (lookup name s.registry ≡ none)
        × ((add_new s r).0 ≡ record s { registry = insert name (new_entry plugin) s.registry })
  unfolding add_new has
  add_new_sound (err e) h = cc
  add_new_sound (ok (plugin, name)) h = elim (Option-cases (lookup name s.registry)) [
    | inl e ↦ (plugin, name, refl, e, ground (arith, e))
    | inr (x, e) ↦ absurd (ground (arith, e, h))
  ]

-- A plugin is registered only if its metadata pass the checks and no plugin of its name is there. Its
-- entry is found then, in the state `Validated`, and every other name finds what it found before.
pub register_sound :
    {P : Type 0} (s : PluginRegistry P) (plugin_export : Result IPlugin) (other : String)
    → (register s plugin_export).1 ≡ ok tt
    → (plugin : IPlugin) × (name : String) × (plugin_export ≡ ok plugin)
      × IsValid plugin.metadata name
      × (lookup name s.registry ≡ none)
      × (lookup other (register s plugin_export).0.registry
          ≡ (if str_eq name other then some (new_entry plugin) else lookup other s.registry))
unfolding register validate_plugin
register_sound s plugin_export other h =
    let (plugin, name, valid, free, after) = add_new_sound s (validate_plugin plugin_export) h in
    let (p, given, h1) = bind-eq-ok plugin_export _ (plugin, name) valid in
    let (n, checked, h2) = bind-eq-ok (validate_metadata p.metadata) _ (plugin, name) h1 in
    let same : p ≡ plugin = ground (arith, h2) in
    let same_name : n ≡ name = ground (arith, h2) in
    (
      plugin,
      name,
      rw same at given,
      validate_metadata_sound plugin.metadata name (rw (same, same_name) at checked),
      free,
      rw after (lookup-insert name other (new_entry plugin) s.registry),
    )
