-- ===== src/Drain/Tests.antt =====
-- A shutdown during a request that the theorem is applied to, and one that is stopped by force.
use jabr.Base.{◌≡◌, refl, true, false, List, [], ◌∷◌}
use jabr.Drain.{
  is_idle, new_server, begin_sync, end_sync, shutdown, wait_for_drain, resolve_drain_waiters, stop,
}
use jabr.Drain.Stopped.{Event, sync_begins, sync_ends, shut_down, run, run_stops}

abbrev events : List Event
events = sync_begins ∷ shut_down 1 ∷ shut_down 2 ∷ sync_begins ∷ sync_ends ∷ []

run_stops_example :
    ((run events new_server).drain_waiters ≡ []) × ((run events new_server).serving ≡ false)
unfolding run begin_sync end_sync shutdown wait_for_drain resolve_drain_waiters
run_stops_example = run_stops events refl refl

-- Stopped by force, an idle server still has the waiter of the shutdown.
stop_test : is_idle (stop (shutdown 1 (begin_sync new_server))) ≡ true
unfolding stop shutdown begin_sync wait_for_drain
stop_test = refl
