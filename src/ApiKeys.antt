-- ===== src/ApiKeys.antt =====
-- The keys that callers authenticate with: src/security/api-key-registry.ts, with `KeyEntry` of
-- src/types/types.ts.
use jabr.Base.{
  String, Bool, true, Option, none, some, List, [], ◌∷◌, if◌then◌else◌, str_eq, includes, Map,
  lookup, insert,
}
use jabr.Agents.{ResolvedCaller}

pub record KeyEntry : Type 0 where
  pub key : String
  pub description : String
  pub allowed_agents : List String
  pub enabled : Bool

pub record ApiKeyRegistry : Type 0 where
  pub keys : Map KeyEntry

-- `none` is the throw for an empty key.
pub add_key : ApiKeyRegistry → KeyEntry → Option ApiKeyRegistry
add_key s e = if str_eq e.key "" then none else some (record s { keys = insert e.key e s.keys })

abbrev and_then :
    Option ApiKeyRegistry → (ApiKeyRegistry → Option ApiKeyRegistry) → Option ApiKeyRegistry
and_then none f = none
and_then (some s) f = f s

add_all : ApiKeyRegistry → List KeyEntry → Option ApiKeyRegistry
unfolding add_key
add_all s [] = some s
add_all s (e ∷ es) = and_then (add_key s e) (λ s'. add_all s' es)

pub new_registry : List KeyEntry → Option ApiKeyRegistry
unfolding add_all
new_registry entries = add_all (record { keys = [] }) entries

abbrev pub resolve : Option KeyEntry → Option ResolvedCaller
resolve none = none
resolve (some e) =
    if e.enabled
    then some (record { description = e.description; allowed_agents = e.allowed_agents })
    else none

abbrev resolve_key : ApiKeyRegistry → Option String → Option ResolvedCaller
resolve_key s none = none
resolve_key s (some key) = if str_eq key "" then none else resolve (lookup key s.keys)

unfoldable pub authenticate : ApiKeyRegistry → Option String → Option ResolvedCaller
unfolding lookup
authenticate s api_key = resolve_key s api_key

abbrev pub can_invoke : ResolvedCaller → String → Bool
can_invoke caller agent_name = elim caller.allowed_agents [
  | [] ↦ true
  | name ∷ rest ↦ includes (name ∷ rest) agent_name
]
