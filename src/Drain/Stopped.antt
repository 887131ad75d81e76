-- ===== src/Drain/Stopped.antt =====
-- No wake-up is lost: shutdown of src/adapters/http/a2a-server.ts.
use jabr.Base.{
  ◌≡◌, refl, ◌∙◌, ◌⊎◌, zero, suc, ℕ, Bool, true, false, not, ◌&&◌, ◌||◌, List, [], ◌∷◌, ◌++◌, any,
  inl, inr, arith,
}
use jabr.Wire.{ℤ, pos, negsuc}
use jabr.Drain.{
  Waiter, A2aServer, new_server, decreased, increased, is_idle, settle, settle_all,
  resolve_drain_waiters, wait_for_drain, shutdown, time_out, is_none_left, begin_sync, end_sync,
  begin_stream, end_stream,
}

-- what happens to a server, `stop` aside
pub data Event : Type 0 where
  sync_begins sync_ends stream_begins stream_ends : Event
  shut_down : (id : ℕ) → Event
  timer : Waiter → Event

abbrev pub step : Event → A2aServer → A2aServer
step sync_begins s = begin_sync s
step sync_ends s = end_sync s
step stream_begins s = begin_stream s
step stream_ends s = end_stream s
step (shut_down id) s = shutdown id s
step (timer w) s = time_out w s

unfoldable pub run : List Event → A2aServer → A2aServer
run [] s = s
run (event ∷ events) s = run events (step event s)

abbrev is_empty : List Waiter → Bool
is_empty [] = true
is_empty (w ∷ rest) = false

abbrev will_stop : List Waiter → Bool
will_stop waiters = any (λ w. w.stops) waiters

-- A server that shuts down has stopped or will be stopped.
abbrev IsEnding : A2aServer → Type 0
IsEnding s = (not s.shutting_down || not s.serving || will_stop s.drain_waiters) ≡ true

-- Nobody waits for an idle server.
abbrev IsAwake : A2aServer → Type 0
IsAwake s = ((not (is_idle s) || is_empty s.drain_waiters) ≡ true) × IsEnding s

settle_all_lem :
    (ws : List Waiter) (s : A2aServer)
    → (is_idle (settle_all ws s) ≡ is_idle s)
      × ((settle_all ws s).drain_waiters ≡ s.drain_waiters)
      × ((settle_all ws s).shutting_down ≡ s.shutting_down)
      × ((settle_all ws s).serving ≡ (s.serving && not (will_stop ws)))
settle_all_lem [] s = (refl, refl, refl, ground arith)
settle_all_lem (w ∷ rest) s =
    let (idle, waiters, shutting, serving) = settle_all_lem rest (settle w s) in
    (idle, waiters, shutting, serving ∙ ground arith)

resolve-IsAwake : (s : A2aServer) → IsEnding s → IsAwake (resolve_drain_waiters s)
unfolding resolve_drain_waiters
resolve-IsAwake s h =
    ground (arith, h, settle_all_lem s.drain_waiters (record s { drain_waiters = [] }))

is_empty_nil : (ws : List Waiter) → is_empty ws ≡ true → ws ≡ []
is_empty_nil [] h = refl
is_empty_nil (w ∷ rest) h = ground (arith, h)

will_stop-append :
    (ws : List Waiter) (w : Waiter) → will_stop (ws ++ w ∷ []) ≡ (will_stop ws || w.stops)
will_stop-append [] w = ground arith
will_stop-append (first ∷ rest) w = ground (arith, will_stop-append rest w)

wait_for_drain-IsAwake :
    (w : Waiter) (s : A2aServer)
    → ((not (is_idle s) || is_empty s.drain_waiters) ≡ true)
    → (IsEnding s ⊎ (w.stops ≡ true))
    → IsAwake (wait_for_drain w s)
unfolding wait_for_drain
wait_for_drain-IsAwake w s first second = elim second [
  | inl ending ↦ ground (arith, first, ending, will_stop-append s.drain_waiters w)
  | inr stops ↦ ground (arith, first, stops, will_stop-append s.drain_waiters w)
]

is_none_left-increased : (n : ℤ) → (not (is_none_left (increased n)) || is_none_left n) ≡ true
is_none_left-increased (pos n) = refl
is_none_left-increased (negsuc zero) = refl
is_none_left-increased (negsuc (suc n)) = refl

step-IsAwake : (event : Event) (s : A2aServer) → IsAwake s → IsAwake (step event s)
unfolding begin_sync end_sync begin_stream end_stream shutdown time_out
step-IsAwake sync_begins s h = ground (arith, h, is_none_left-increased s.inflight_sync)
step-IsAwake sync_ends s h = resolve-IsAwake _ (h.1)
step-IsAwake stream_begins s h =
    let counted : A2aServer = record s {
      inflight_stream = decreased (increased s.inflight_stream);
    } in
    ground (arith, h, is_none_left-increased s.inflight_stream, resolve-IsAwake counted (h.1))
step-IsAwake stream_ends s h = resolve-IsAwake _ (h.1)
step-IsAwake (shut_down id) s h =
    let later : Waiter = record { id = id; stops = false } in
    let first : Waiter = record { id = id; stops = true } in
    let closing : A2aServer = record s { shutting_down = true } in
    ground (
      arith,
      wait_for_drain-IsAwake later s h.0 (inl h.1),
      wait_for_drain-IsAwake first closing h.0 (inr refl),
    )
step-IsAwake (timer w) s h = ground (arith, h)

empty_stopped :
    (s : A2aServer)
    → IsAwake s
    → s.shutting_down ≡ true
    → is_idle s ≡ true
    → (s.drain_waiters ≡ []) × (s.serving ≡ false)
empty_stopped s h shutting idle =
    let none_waits = is_empty_nil s.drain_waiters (ground (arith, h, idle)) in
    (none_waits, ground (arith, h, shutting, none_waits))

run-IsAwake : (events : List Event) (s : A2aServer) → IsAwake s → IsAwake (run events s)
unfolding run
run-IsAwake [] s h = h
run-IsAwake (event ∷ events) s h = run-IsAwake events (step event s) (step-IsAwake event s h)

-- Whatever begins, ends and times out on a new server that is not stopped by force: once it has been
-- shut down and nothing is in flight, nobody waits any more and the server is stopped.
pub run_stops :
    (events : List Event)
    → (run events new_server).shutting_down ≡ true
    → is_idle (run events new_server) ≡ true
    → ((run events new_server).drain_waiters ≡ []) × ((run events new_server).serving ≡ false)
run_stops events shutting idle =
    empty_stopped (run events new_server) (run-IsAwake events new_server (refl, refl)) shutting idle
