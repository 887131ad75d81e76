-- ===== src/IdempotencyLock/Tests.antt =====
-- The lock of src/adapters/idempotency-lock.ts on concrete events.
use jabr.Base.{◌*◌, List, [], ◌∷◌, arith}
use jabr.IdempotencyLock.{IdempotencyLock, new_lock}
use jabr.IdempotencyLock.Dedup.{Op, acquire_op, gc_op, processed, AreApart, processed-AreApart}

-- the same event twice, a clean-up, and once more after the time to live
abbrev calls : List Op
calls = acquire_op "evt" 2500 ∷ gc_op 1200 ∷ acquire_op "evt" 900 ∷ acquire_op "evt" 100 ∷ []

processed-AreApart_example : AreApart (2 * 1000) (processed (new_lock 2) "evt" calls)
processed-AreApart_example = processed-AreApart 2 "evt" calls (omega arith)

abbrev held : IdempotencyLock
held = record { locks = ("evt", 1900) ∷ []; ttl_ms = 2 }
