-- ===== src/Subscriptions/Table.antt =====
-- The two maps of src/adapters/subscription-manager.ts against one table of ids with their uris.
use jabr.Base.{
  ℕ, String, ◌≡◌, refl, Bool, true, false, not, none, some, List, [], ◌∷◌, ◌++◌, arith,
  if◌then◌else◌, length, filter, any, includes, get_or, ltb, str_eq, eq_iff, Map, lookup, insert,
  remove, values, lookup-insert, lookup-remove, HasDistinctKeys, lookup_of_IsNew, Option-cases,
  Bool-cases, inl, inr, insert-HasDistinctKeys, remove-HasDistinctKeys,
}
use jabr.Subscriptions.{
  Subscription, SubscriptionManager, empty, subscribe, unsubscribe, get_subscriber_ids,
  has_subscribers, size, add_id, without, drop_listener,
}

-- The abstract state: who listens to what, the oldest first.
abbrev pub Table : Type 0
Table = List (String × String)

abbrev pub table_of : Map Subscription → Table
table_of [] = []
table_of ((id, sub) ∷ m) = (id, sub.uri) ∷ table_of m

abbrev pub ids : Table → String → List String
ids [] uri = []
ids ((id, u) ∷ t) uri = let rest = ids t uri in if str_eq u uri then id ∷ rest else rest

abbrev pub drop_id : String → Table → Table
drop_id id t = filter (λ e. not (str_eq e.0 id)) t

table_of-insert :
    (id : String) (sub : Subscription) (m : Map Subscription)
    → lookup id m ≡ none
    → table_of (insert id sub m) ≡ table_of m ++ (id, sub.uri) ∷ []
unfolding lookup insert
table_of-insert id sub [] new = refl
table_of-insert id sub ((k, s) ∷ m) new = ground (arith, new, table_of-insert id sub m)

table_of-remove :
    (id : String) (m : Map Subscription) → table_of (remove id m) ≡ drop_id id (table_of m)
unfolding remove
table_of-remove id [] = refl
table_of-remove id ((k, s) ∷ m) = ground (arith, table_of-remove id m)

ids-append :
    (t : Table) (id u uri : String)
    → ids (t ++ (id, u) ∷ []) uri ≡ (if str_eq u uri then ids t uri ++ id ∷ [] else ids t uri)
ids-append [] id u uri = ground arith
ids-append ((k, v) ∷ t) id u uri = ground (arith, ids-append t id u uri)

ids-drop_id : (t : Table) (id uri : String) → ids (drop_id id t) uri ≡ without id (ids t uri)
ids-drop_id [] id uri = refl
ids-drop_id ((k, v) ∷ t) id uri = ground (arith, ids-drop_id t id uri)

includes-ids :
    (id uri : String) (m : Map Subscription)
    → lookup id m ≡ none
    → includes (ids (table_of m) uri) id ≡ false
unfolding lookup
includes-ids id uri [] new = refl
includes-ids id uri ((k, s) ∷ m) new = ground (arith, new, includes-ids id uri m)

without_unknown : (id : String) (is : List String) → includes is id ≡ false → without id is ≡ is
without_unknown id [] h = refl
without_unknown id (i ∷ is) h = ground (arith, without_unknown id is)

-- an id listens to its own uri only
without-ids :
    (id uri : String) (m : Map Subscription) (sub : Subscription)
    → HasDistinctKeys m
    → lookup id m ≡ some sub
    → str_eq sub.uri uri ≡ false
    → without id (ids (table_of m) uri) ≡ ids (table_of m) uri
unfolding lookup
without-ids id uri [] sub distinct found other = cc
without-ids id uri ((k, s) ∷ m) sub distinct found other = elim (Bool-cases (str_eq k id)) [
  | inl here ↦
      let none_left = lookup_of_IsNew k m distinct.0 in
      ground (
        arith,
        here,
        other,
        eq_iff k id,
        without_unknown id (ids (table_of m) uri),
        includes-ids id uri m,
        none_left,
      )
  | inr later ↦ ground (arith, later, without-ids id uri m sub distinct.1, other)
]

-- The manager stands for the table.
pub record Refines (s : SubscriptionManager) (t : Table) : Type 0 where
  pub entries : table_of s.subscriptions ≡ t
  pub listeners : (uri : String) → get_or (lookup uri s.uri_listeners) [] ≡ ids t uri
  pub distinct : HasDistinctKeys s.subscriptions

pub empty-Refines : Refines empty []
unfolding lookup
empty-Refines = record { entries = refl; listeners = λ uri. refl; distinct = tt }

subscribe-Refines :
    (s : SubscriptionManager) (t : Table) (uri id : String) (now : ℕ)
    → lookup id s.subscriptions ≡ none
    → Refines s t
    → Refines (subscribe s uri id now).0 (t ++ (id, uri) ∷ [])
unfolding subscribe
subscribe-Refines s t uri id now new h =
    let sub : Subscription = record { id = id; uri = uri; created_at = now } in
    let old = get_or (lookup uri s.uri_listeners) [] in
    record {
      entries = ground (arith, table_of-insert id sub s.subscriptions new, h.entries);
      listeners = λ u. ground (
        arith,
        lookup-insert uri u (add_id id old) s.uri_listeners,
        h.entries,
        h.listeners uri,
        h.listeners u,
        includes-ids id uri s.subscriptions new,
        ids-append t id uri u,
        eq_iff uri u,
      );
      distinct = insert-HasDistinctKeys id sub s.subscriptions h.distinct;
    }

abbrev pub is_known : String → Table → Bool
is_known id t = any (λ e. str_eq e.0 id) t

is_known-table_of :
    (id : String) (m : Map Subscription)
    → is_known id (table_of m) ≡ (elim (lookup id m) [ none ↦ false | some sub ↦ true ])
unfolding lookup
is_known-table_of id [] = refl
is_known-table_of id ((k, s) ∷ m) = ground (arith, is_known-table_of id m)

drop_unknown : (id : String) (t : Table) → is_known id t ≡ false → drop_id id t ≡ t
drop_unknown id [] h = refl
drop_unknown id ((k, u) ∷ t) h = ground (arith, drop_unknown id t)

listeners-drop_listener :
    (uri u id : String) (m : Map (List String))
    → get_or (lookup u (drop_listener uri id m (lookup uri m))) []
      ≡ (if str_eq uri u then without id (get_or (lookup u m) []) else get_or (lookup u m) [])
listeners-drop_listener uri u id m = elim (Option-cases (lookup uri m)) [
  | inl e ↦ ground (arith, e, eq_iff uri u)
  | inr (is, e) ↦ rw e (dropped uri u id m is (without id is) e refl)
]
  where
    dropped :
        (uri u id : String) (m : Map (List String)) (is kept : List String)
        → lookup uri m ≡ some is
        → without id is ≡ kept
        → get_or (lookup u (drop_listener uri id m (some is))) []
          ≡ (if str_eq uri u then without id (get_or (lookup u m) []) else get_or (lookup u m) [])
    dropped uri u id m is [] e k = ground (arith, e, k, eq_iff uri u, lookup-remove uri u m)
    dropped uri u id m is (i ∷ rest) e k =
        ground (arith, e, k, eq_iff uri u, lookup-insert uri u (i ∷ rest) m)

unsubscribe-Refines :
    (s : SubscriptionManager) (t : Table) (id : String)
    → Refines s t
    → Refines (unsubscribe s id).0 (drop_id id t)
unfolding unsubscribe
unsubscribe-Refines s t id h =
    let known = is_known-table_of id s.subscriptions in
    elim (Option-cases (lookup id s.subscriptions)) [
      | inl e ↦ rw e (rw (drop_unknown id t (ground (arith, known, e, h.entries))) h)
      | inr (sub, e) ↦ rw e (record {
        entries = ground (arith, table_of-remove id s.subscriptions, h.entries);
        listeners = λ u. ground (
          arith,
          listeners-drop_listener sub.uri u id s.uri_listeners,
          h.listeners u,
          ids-drop_id t id u,
          without-ids id u s.subscriptions sub h.distinct e,
          h.entries,
        );
        distinct = remove-HasDistinctKeys id s.subscriptions h.distinct;
      })
    ]

pub data Op : Type 0 where
  subscribe_op : (uri id : String) (now : ℕ) → Op
  unsubscribe_op : (id : String) → Op

pub run : SubscriptionManager → List Op → SubscriptionManager
run s [] = s
run s (subscribe_op uri id now ∷ ops) = run (subscribe s uri id now).0 ops
run s (unsubscribe_op id ∷ ops) = run (unsubscribe s id).0 ops

-- The same calls on the table.
abbrev pub replay : Table → List Op → Table
replay t [] = t
replay t (subscribe_op uri id now ∷ ops) = replay (t ++ (id, uri) ∷ []) ops
replay t (unsubscribe_op id ∷ ops) = replay (drop_id id t) ops

-- No new id is in use: `randomUUID` does not repeat itself.
abbrev pub AreFresh : Table → List Op → Type 0
AreFresh t [] = Unit
AreFresh t (subscribe_op uri id now ∷ ops) =
    (is_known id t ≡ false) × AreFresh (t ++ (id, uri) ∷ []) ops
AreFresh t (unsubscribe_op id ∷ ops) = AreFresh (drop_id id t) ops

run-Refines :
    (s : SubscriptionManager) (t : Table) (ops : List Op)
    → Refines s t
    → AreFresh t ops
    → Refines (run s ops) (replay t ops)
unfolding run
run-Refines s t [] h fresh = h
run-Refines s t (subscribe_op uri id now ∷ ops) h (new, fresh) =
    let known = is_known-table_of id s.subscriptions in
    let unused : lookup id s.subscriptions ≡ none = ground (arith, known, new, h.entries) in
    run-Refines (subscribe s uri id now).0 (t ++ (id, uri) ∷ []) ops
      (subscribe-Refines s t uri id now unused h) fresh
run-Refines s t (unsubscribe_op id ∷ ops) h fresh =
    run-Refines (unsubscribe s id).0 (drop_id id t) ops (unsubscribe-Refines s t id h) fresh

length-table_of : (m : Map Subscription) → length (values m) ≡ length (table_of m)
unfolding values
length-table_of [] = refl
length-table_of ((k, s) ∷ m) = ground (arith, length-table_of m)

observed :
    (s : SubscriptionManager) (t : Table) (uri id : String)
    → Refines s t
    → (get_subscriber_ids s uri ≡ ids t uri)
      × (has_subscribers s uri ≡ ltb 0 (length (ids t uri)))
      × (size s ≡ length t)
      × ((unsubscribe s id).1 ≡ is_known id t)
unfolding get_subscriber_ids has_subscribers size unsubscribe
observed s t uri id h = (
  h.listeners uri,
  ground (arith, h.listeners uri),
  ground (arith, length-table_of s.subscriptions, h.entries),
  ground (arith, is_known-table_of id s.subscriptions, h.entries),
)

-- After any calls on a new manager, in which no new id is in use, it answers as one table of ids with
-- their uris does: the listeners of a uri in order of subscription, whether there are any, how many
-- subscriptions there are, and whether an id can be unsubscribed.
pub run_refines :
    (ops : List Op) (uri id : String)
    → AreFresh [] ops
    → (get_subscriber_ids (run empty ops) uri ≡ ids (replay [] ops) uri)
      × (has_subscribers (run empty ops) uri ≡ ltb 0 (length (ids (replay [] ops) uri)))
      × (size (run empty ops) ≡ length (replay [] ops))
      × ((unsubscribe (run empty ops) id).1 ≡ is_known id (replay [] ops))
run_refines ops uri id fresh =
    observed (run empty ops) (replay [] ops) uri id (run-Refines empty [] ops empty-Refines fresh)
