-- ===== src/EventBus/Isolation.antt =====
-- What one emission invokes and reports: src/ports/plugin-event-bus.ts.
use jabr.Base.{ℕ, String, ◌≡◌, refl, none, some, List, [], ◌∷◌, ◌++◌, if◌then◌else◌, arith, ap, ◌∙◌}
use jabr.World.{ok, err}
use jabr.EventBus.{
  SubscriberEntry, EventBus, returned, threw, rejected, Runtime, Note, delivered, reported,
  Dispatch, subscribers, transform, dispatch_to, dispatch_to_async, each, emit, emit_async,
}
use jabr.EventBus.Chains.{passes, transform-passes}

module _ {P : Type 0} where
  -- the invocations among the notes
  abbrev pub deliveries : List (Note P) → List (ℕ × P)
  deliveries [] = []
  deliveries (delivered id payload ∷ notes) = (id, payload) ∷ deliveries notes
  deliveries (reported error event id ∷ notes) = deliveries notes

  -- the calls of `onError` among the notes
  abbrev pub reports : List (Note P) → List (ℕ × String)
  reports [] = []
  reports (delivered id payload ∷ notes) = reports notes
  reports (reported error event id ∷ notes) = (id, error) ∷ reports notes

  deliveries-append :
      (xs ys : List (Note P)) → deliveries (xs ++ ys) ≡ deliveries xs ++ deliveries ys
  deliveries-append [] ys = refl
  deliveries-append (delivered id payload ∷ xs) ys =
      ap (λ l. (id, payload) ∷ l) (deliveries-append xs ys)
  deliveries-append (reported error event id ∷ xs) ys = deliveries-append xs ys

  reports-append : (xs ys : List (Note P)) → reports (xs ++ ys) ≡ reports xs ++ reports ys
  reports-append [] ys = refl
  reports-append (delivered id payload ∷ xs) ys = reports-append xs ys
  reports-append (reported error event id ∷ xs) ys =
      ap (λ l. (id, error) ∷ l) (reports-append xs ys)

-- the lists of the entries, one after the other
abbrev pub gather : {A B : Type 0} → (A → List B) → List A → List B
gather f [] = []
gather f (x ∷ xs) = f x ++ gather f xs

module _ {H P : Type 0} where
  -- what a dispatch leaves, for each entry alone
  abbrev Alone :
      Dispatch H P
      → (SubscriberEntry H P → List (ℕ × P))
      → (now later end : SubscriberEntry H P → List (ℕ × String)) → Type 0
  Alone dispatch got now later end =
      (s : EventBus H P) (entry : SubscriberEntry H P)
      → (deliveries (dispatch s entry).log ≡ got entry)
        × (reports (dispatch s entry).log ≡ now entry)
        × (reports (dispatch s entry).pending ≡ later entry)
        × (reports (dispatch s entry).settled ≡ end entry)

  each-gather :
      (dispatch : Dispatch H P) (got : SubscriberEntry H P → List (ℕ × P))
      (now later end : SubscriberEntry H P → List (ℕ × String)) (s : EventBus H P)
      (entries : List (SubscriberEntry H P))
      → Alone dispatch got now later end
      → (deliveries (each dispatch s entries).log ≡ gather got entries)
        × (reports (each dispatch s entries).log ≡ gather now entries)
        × (reports (each dispatch s entries).pending ≡ gather later entries)
        × (reports (each dispatch s entries).settled ≡ gather end entries)
  each-gather dispatch got now later end s [] alone = (refl, refl, refl, refl)
  each-gather dispatch got now later end s (entry ∷ rest) alone =
      let first = dispatch s entry in
      let next = each dispatch first.bus rest in
      let (a, b, d, e) = alone s entry in
      let (x, y, z, w) = each-gather dispatch got now later end first.bus rest alone in
      (
        deliveries-append first.log next.log ∙ rw (a, x) refl,
        reports-append first.log next.log ∙ rw (b, y) refl,
        reports-append first.pending next.pending ∙ rw (d, z) refl,
        reports-append first.settled next.settled ∙ rw (e, w) refl,
      )

  module _ (rt : Runtime H P) (event : String) (payload : P) where
    -- what a subscriber is to be invoked with, from the middleware alone
    abbrev pub due : SubscriberEntry H P → List (ℕ × P)
    due entry = elim (passes rt event payload rt.global_middleware entry.middleware) [
      | err e ↦ []
      | ok none ↦ []
      | ok (some q) ↦ (entry.id, q) ∷ []
    ]

    abbrev pub told : ℕ → String → List (ℕ × String)
    told id error = if rt.has_on_error then (id, error) ∷ [] else []

    abbrev pub untold : ℕ → String → List (ℕ × String)
    untold id error = []

    -- the errors of one subscriber: those of its middleware, of a throw and of a rejection, each one
    -- told or not
    abbrev pub errors :
        (middleware throws rejects : ℕ → String → List (ℕ × String))
        → SubscriberEntry H P
        → List (ℕ × String)
    errors middleware throws rejects entry =
        elim (passes rt event payload rt.global_middleware entry.middleware) [
          | err e ↦ middleware entry.id e
          | ok none ↦ []
          | ok (some q) ↦ elim (rt.run_handler entry.handler q event).result [
            | returned ↦ []
            | threw e ↦ throws entry.id e
            | rejected e ↦ rejects entry.id e
          ]
        ]

    dispatch_to-Alone :
        Alone
          (λ s entry. dispatch_to rt s entry event (transform rt entry event payload))
          due
          (errors told told untold)
          (errors untold untold told)
          (errors untold untold untold)
    unfolding dispatch_to
    dispatch_to-Alone s entry = rw (transform-passes rt event payload entry) (ground arith)

    dispatch_to_async-Alone :
        Alone
          (λ s entry. dispatch_to_async rt s entry event (transform rt entry event payload))
          due
          (errors untold told untold)
          (errors untold untold told)
          (errors told told told)
    unfolding dispatch_to_async
    dispatch_to_async-Alone s entry = rw (transform-passes rt event payload entry) (ground arith)

    -- An emission invokes, in order, each subscriber that there is when it starts and that the
    -- middleware lets through, once, with the payload that the middleware makes for it, whatever the
    -- handlers do: throw, reject, subscribe, unsubscribe or clear. A failure of the middleware and a
    -- throw are reported once in the loop, a rejection once after it. `emitAsync` invokes the same
    -- subscribers; it reports a throw in the loop, a rejection after it, and each of them and a failure
    -- of the middleware when all have settled.
    pub emit_isolates :
        (s : EventBus H P)
        → (deliveries (emit rt s event payload).log ≡ gather due (subscribers s event))
          × (reports (emit rt s event payload).log
              ≡ gather (errors told told untold) (subscribers s event))
          × (reports (emit rt s event payload).pending
              ≡ gather (errors untold untold told) (subscribers s event))
          × (reports (emit rt s event payload).settled
              ≡ gather (errors untold untold untold) (subscribers s event))
          × (deliveries (emit_async rt s event payload).log ≡ gather due (subscribers s event))
          × (reports (emit_async rt s event payload).log
              ≡ gather (errors untold told untold) (subscribers s event))
          × (reports (emit_async rt s event payload).pending
              ≡ gather (errors untold untold told) (subscribers s event))
          × (reports (emit_async rt s event payload).settled
              ≡ gather (errors told told told) (subscribers s event))
    unfolding emit emit_async
    emit_isolates s =
        let (a, b, d, e) = each-gather _ _ _ _ _ s (subscribers s event) dispatch_to-Alone in
        let (x, y, z, w) = each-gather _ _ _ _ _ s (subscribers s event) dispatch_to_async-Alone in
        (a, b, d, e, x, y, z, w)
