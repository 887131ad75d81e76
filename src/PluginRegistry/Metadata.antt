-- ===== src/PluginRegistry/Metadata.antt =====
-- What a plugin says of itself, and its checks: src/core/plugin-registry.ts and src/ports/plugin.ts.
use jabr.Base.{
  String, not, Option, none, some, List, [], ◌∷◌, concat, find, includes, truthy, get_or,
}
use jabr.World.{Result, ok, err, bind}

-- A field is `none` where it is missing or of another type; an `apiVersion` of another type is `some none`.
pub record PluginMetadata : Type 0 where
  pub name : Option String
  pub version : Option String
  pub author : Option String
  pub description : Option String
  pub events : Option (List String)
  pub capabilities : Option (List String)
  pub api_version : Option (Option String)

abbrev pub known_events : List String
known_events =
    "onAgentStart" ∷ "onAgentComplete" ∷ "onAgentError" ∷ "onTaskStart" ∷ "onTaskComplete"
    ∷ "onTaskFailed" ∷ "onSystemAlert" ∷ []

abbrev pub valid_capabilities : List String
valid_capabilities = "network" ∷ "filesystem" ∷ "database" ∷ "shell" ∷ []

abbrev pub required : String → Option String → Result String
required field none =
    err (concat "Error: Plugin metadata." (concat field " is required and must be a string"))
required field (some text) = ok text

abbrev pub events_of : Option (List String) → Result (List String)
events_of none = err "Error: Plugin metadata.events must be an array"
events_of (some events) = ok events

-- the first one that is not in the list is named
abbrev pub within : List String → String → List String → Result (List String)
within allowed what given = elim (find (λ x. not (includes allowed x)) given) [
  | none ↦ ok given
  | some x ↦ err (concat what x)
]

abbrev pub check_api_version : Option (Option String) → Result (Unit {0})
check_api_version none = ok tt
check_api_version (some none) = err "Error: Plugin metadata.apiVersion must be a string"
check_api_version (some (some text)) = ok tt

-- the name of the plugin, after the checks in their order
unfoldable pub validate_metadata : PluginMetadata → Result String
unfolding truthy
validate_metadata d = bind (required "name" (truthy d.name)) λ name.
    bind (required "version" (truthy d.version)) λ _.
      bind (required "author" (truthy d.author)) λ _.
        bind (required "description" (truthy d.description)) λ _.
          bind (events_of d.events) λ events.
            bind (within known_events "Error: Plugin declares unknown event: " events) λ _.
              bind
                (within valid_capabilities "Error: Plugin declares unknown capability: "
                  (get_or d.capabilities []))
                λ _. bind (check_api_version d.api_version) λ _. ok name
