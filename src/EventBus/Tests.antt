-- ===== src/EventBus/Tests.antt =====
-- Two handlers on one event: the first one throws and clears the bus.
use jabr.Base.{ℕ, ◌==◌, String, ◌≡◌, Bool, true, false, none, some, List, [], ◌∷◌}
use jabr.World.{ok}
use jabr.EventBus.{
  EventBus, Call, subscribe_call, clear_call, HandlerRun, threw, returned, Runtime, empty_bus,
  subscribers, run, emit, emit_async,
}
use jabr.EventBus.Isolation.{deliveries, reports, gather, due, errors, told, untold, emit_isolates}

abbrev handle : Bool → ℕ → String → HandlerRun Bool ℕ
handle true payload event = record { calls = clear_call none ∷ []; result = threw "boom" }
handle false payload event = record { calls = []; result = returned }

abbrev rt : Runtime Bool ℕ
rt = record {
  run_handler = handle;
  is_null = λ n. n == 0;
  global_middleware = (λ n event. ok (some n)) ∷ [];
  has_on_error = true;
}

abbrev calls : List (Call Bool ℕ)
calls = subscribe_call "onTaskStart" true [] ∷ subscribe_call "onTaskStart" false [] ∷ []

abbrev bus : EventBus Bool ℕ
unfolding run
bus = run empty_bus calls

emit_isolates_example :
    (deliveries (emit rt bus "onTaskStart" 7).log
      ≡ gather (due rt "onTaskStart" 7) (subscribers bus "onTaskStart"))
    × (reports (emit rt bus "onTaskStart" 7).log
        ≡ gather
            (errors rt "onTaskStart" 7
              (told rt "onTaskStart" 7)
              (told rt "onTaskStart" 7)
              (untold rt "onTaskStart" 7))
            (subscribers bus "onTaskStart"))
    × (reports (emit rt bus "onTaskStart" 7).pending
        ≡ gather
            (errors rt "onTaskStart" 7
              (untold rt "onTaskStart" 7)
              (untold rt "onTaskStart" 7)
              (told rt "onTaskStart" 7))
            (subscribers bus "onTaskStart"))
    × (reports (emit rt bus "onTaskStart" 7).settled
        ≡ gather
            (errors rt "onTaskStart" 7
              (untold rt "onTaskStart" 7)
              (untold rt "onTaskStart" 7)
              (untold rt "onTaskStart" 7))
            (subscribers bus "onTaskStart"))
    × (deliveries (emit_async rt bus "onTaskStart" 7).log
        ≡ gather (due rt "onTaskStart" 7) (subscribers bus "onTaskStart"))
    × (reports (emit_async rt bus "onTaskStart" 7).log
        ≡ gather
            (errors rt "onTaskStart" 7
              (untold rt "onTaskStart" 7)
              (told rt "onTaskStart" 7)
              (untold rt "onTaskStart" 7))
            (subscribers bus "onTaskStart"))
    × (reports (emit_async rt bus "onTaskStart" 7).pending
        ≡ gather
            (errors rt "onTaskStart" 7
              (untold rt "onTaskStart" 7)
              (untold rt "onTaskStart" 7)
              (told rt "onTaskStart" 7))
            (subscribers bus "onTaskStart"))
    × (reports (emit_async rt bus "onTaskStart" 7).settled
        ≡ gather
            (errors rt "onTaskStart" 7
              (told rt "onTaskStart" 7)
              (told rt "onTaskStart" 7)
              (told rt "onTaskStart" 7))
            (subscribers bus "onTaskStart"))
emit_isolates_example = emit_isolates rt "onTaskStart" 7 bus
