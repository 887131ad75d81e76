-- ===== src/Subscriptions.antt =====
-- Who listens to which resource: src/adapters/subscription-manager.ts. A `Set` of ids is a list in
-- order of insertion; the new id and the time are arguments.
pub mod Table
mod Tests
use jabr.Base.{
  ℕ, String, Bool, true, false, not, Option, none, some, List, [], ◌∷◌, ◌++◌, if◌then◌else◌, length,
  filter, includes, get_or, ltb, str_eq, Map, lookup, insert, remove, values,
}

pub record Subscription : Type 0 where
  pub id : String
  pub uri : String
  pub created_at : ℕ

pub record SubscriptionManager : Type 0 where
  pub subscriptions : Map Subscription
  pub uri_listeners : Map (List String)

abbrev pub empty : SubscriptionManager
empty = record { subscriptions = []; uri_listeners = [] }

-- `set.add(id)`
abbrev pub add_id : String → List String → List String
add_id id ids = if includes ids id then ids else ids ++ id ∷ []

pub subscribe : SubscriptionManager → String → String → ℕ → SubscriptionManager × Subscription
subscribe s uri id now =
    let sub : Subscription = record { id = id; uri = uri; created_at = now } in
    (
      record {
        subscriptions = insert id sub s.subscriptions;
        uri_listeners =
            insert uri (add_id id (get_or (lookup uri s.uri_listeners) [])) s.uri_listeners;
      },
      sub,
    )

-- `set.delete(id)`
abbrev pub without : String → List String → List String
without id ids = filter (λ other. not (str_eq other id)) ids

-- a set that becomes empty is taken out of the table
abbrev pub drop_listener :
    String → String → Map (List String) → Option (List String) → Map (List String)
drop_listener uri id m none = m
drop_listener uri id m (some ids) = elim (without id ids) [
  | [] ↦ remove uri m
  | i ∷ is ↦ insert uri (i ∷ is) m
]

abbrev unsubscribe_found :
    SubscriptionManager → String → Option Subscription → SubscriptionManager × Bool
unsubscribe_found s id none = (s, false)
unsubscribe_found s id (some sub) = (
  record {
    subscriptions = remove id s.subscriptions;
    uri_listeners = drop_listener sub.uri id s.uri_listeners (lookup sub.uri s.uri_listeners);
  },
  true,
)

pub unsubscribe : SubscriptionManager → String → SubscriptionManager × Bool
unsubscribe s id = unsubscribe_found s id (lookup id s.subscriptions)

pub get_subscriber_ids : SubscriptionManager → String → List String
get_subscriber_ids s uri = get_or (lookup uri s.uri_listeners) []

pub has_subscribers : SubscriptionManager → String → Bool
has_subscribers s uri = elim (lookup uri s.uri_listeners) [
  | none ↦ false
  | some ids ↦ ltb 0 (length ids)
]

pub list_subscriptions : SubscriptionManager → List Subscription
list_subscriptions s = values s.subscriptions

pub size : SubscriptionManager → ℕ
size s = length (values s.subscriptions)
