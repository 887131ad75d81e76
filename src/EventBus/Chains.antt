-- ===== src/EventBus/Chains.antt =====
-- What the two chains of middleware make of a payload: _applyGlobalMiddleware and _applyChain of
-- src/ports/plugin-event-bus.ts.
use jabr.Base.{
  Bool-cases, inl, inr, false, Option, String, ◌≡◌, refl, none, some, List, [], ◌∷◌, ◌++◌,
  if◌then◌else◌, arith, ap, ◌∙◌,
}
use jabr.World.{Result, ok, err}
use jabr.EventBus.{Middleware, apply_chain, not_null, SubscriberEntry, Runtime, transform}

module _ {H P : Type 0} (rt : Runtime H P) (event : String) (payload : P) where
  -- one middleware's result, and what goes on with the payload
  abbrev pub step : Result (Option P) → (P → Result (Option P)) → Result (Option P)
  step (err e) go = err e
  step (ok none) go = ok none
  step (ok (some next)) go = if rt.is_null next then ok none else go next

  -- what a chain makes of a payload: each middleware gets what the one before it made, and stops the
  -- payload with a throw, `undefined` or `null`
  abbrev pub through : List (Middleware P) → P → Result (Option P)
  through [] q = ok (some q)
  through (mw ∷ chain) q = step (mw q event) (through chain)

  -- the global chain and the own one in a row; a payload that is `null` stops where there is no
  -- global one
  abbrev pub passes : List (Middleware P) → List (Middleware P) → Result (Option P)
  passes [] own = let made = through own payload in if rt.is_null payload then ok none else made
  passes (mw ∷ chain) own = through (mw ∷ chain ++ own) payload

  step_lem :
      (onto : Result (Option P) → Result (Option P)) (go go' : P → Result (Option P))
      → ((e : String) → onto (err e) ≡ err e)
      → onto (ok none) ≡ ok none
      → ((next : P) → rt.is_null next ≡ false → onto (go next) ≡ go' next)
      → (r : Result (Option P)) → onto (step r go) ≡ step r go'
  step_lem onto go go' fails stops goes (err e) = fails e
  step_lem onto go go' fails stops goes (ok none) = stops
  step_lem onto go go' fails stops goes (ok (some next)) = elim (Bool-cases (rt.is_null next)) [
    | inl null ↦ rw null stops
    | inr h ↦ rw h (goes next h)
  ]

  -- what `transform` does with the results of the two chains
  abbrev finish : Result (Option P) → Result (Option P)
  finish (err e) = err e
  finish (ok last) = ok (not_null rt.is_null last)

  abbrev onward : SubscriberEntry H P → Option P → Result (Option P)
  onward entry none = ok none
  onward entry (some next) = finish (apply_chain rt.is_null entry.middleware next event)

  abbrev then_own : SubscriberEntry H P → Result (Option P) → Result (Option P)
  then_own entry (err e) = err e
  then_own entry (ok made) = onward entry (not_null rt.is_null made)

  apply_chain-step :
      (mw : Middleware P) (chain : List (Middleware P)) (q : P)
      → apply_chain rt.is_null (mw ∷ chain) q event
        ≡ step (mw q event) (λ next. apply_chain rt.is_null chain next event)
  unfolding apply_chain
  apply_chain-step mw chain q = ground arith

  own_chain :
      (chain : List (Middleware P)) (q : P)
      → rt.is_null q ≡ false
      → finish (apply_chain rt.is_null chain q event) ≡ through chain q
  unfolding apply_chain
  own_chain [] q h = ap (λ b. ok (if b then none else some q)) h
  own_chain (mw ∷ chain) q h =
      ap finish (apply_chain-step mw chain q)
      ∙ step_lem finish (λ next. apply_chain rt.is_null chain next event) (through chain)
          (λ e. refl) refl (own_chain chain) (mw q event)

  both_chains :
      (entry : SubscriberEntry H P) (chain : List (Middleware P)) (q : P)
      → rt.is_null q ≡ false
      → then_own entry (apply_chain rt.is_null chain q event)
        ≡ through (chain ++ entry.middleware) q
  unfolding apply_chain
  both_chains entry [] q h =
      ap (λ b. onward entry (if b then none else some q)) h ∙ own_chain entry.middleware q h
  both_chains entry (mw ∷ chain) q h =
      ap (then_own entry) (apply_chain-step mw chain q)
      ∙ step_lem (then_own entry) (λ next. apply_chain rt.is_null chain next event)
          (through (chain ++ entry.middleware)) (λ e. refl) refl (both_chains entry chain)
          (mw q event)

  from_payload :
      (entry : SubscriberEntry H P) (chain : List (Middleware P))
      → then_own entry (apply_chain rt.is_null chain payload event) ≡ passes chain entry.middleware
  unfolding apply_chain
  from_payload entry [] = elim (Bool-cases (rt.is_null payload)) [
    | inl null ↦ rw (onward, null) refl
    | inr h ↦
        ap (λ b. onward entry (if b then none else some payload)) h
        ∙ own_chain entry.middleware payload h
        ∙ rw h refl
  ]
  from_payload entry (mw ∷ chain) =
      ap (then_own entry) (apply_chain-step mw chain payload)
      ∙ step_lem (then_own entry) (λ next. apply_chain rt.is_null chain next event)
          (through (chain ++ entry.middleware)) (λ e. refl) refl (both_chains entry chain)
          (mw payload event)

  pub transform-passes :
      (entry : SubscriberEntry H P)
      → transform rt entry event payload ≡ passes rt.global_middleware entry.middleware
  unfolding transform
  transform-passes entry = from_payload entry rt.global_middleware
