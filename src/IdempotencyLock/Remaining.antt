-- ===== src/IdempotencyLock/Remaining.antt =====
-- How far `ttlRemainingMs` of src/adapters/idempotency-lock.ts can be trusted.
use jabr.Base.{
  ℕ, ◌+◌, ◌-◌, ◌*◌, ◌/◌, ◌%◌, ◌≤◌, ◌<◌, String, ◌≡◌, ◌↔◌, true, false, some, arith, lookup, not,
}
use jabr.IdempotencyLock.{IdempotencyLock, acquire, is_locked}

-- An event can be acquired exactly when it is not locked.
acquired-eq-not-is_locked :
    (s : IdempotencyLock) (event_id : String) (now : ℕ)
    → (acquire s event_id now).1.acquired ≡ not (is_locked s event_id now)
unfolding acquire is_locked
acquired-eq-not-is_locked s event_id now = ground arith

still_locked :
    (stored now ttl : ℕ)
    → stored ≤ now
    → now - stored < ttl * 1000
    → (now + ((stored + ttl * 1000) / 1000 * 1000 - now + 999) / 1000 * 1000 - stored < ttl * 1000)
      ↔ (now % 1000 < stored % 1000)
still_locked stored now ttl h k = omega arith

-- For a lock that was stored no later than now, a caller that is rejected and waits `ttlRemainingMs`
-- finds it still held exactly when the lock was taken later within its millisecond than the rejected
-- call came within its own.
is_locked-after_wait_iff :
    (s : IdempotencyLock) (event_id : String) (stored_at now : ℕ)
    → lookup event_id s.locks ≡ some stored_at
    → stored_at ≤ now
    → (acquire s event_id now).1.acquired ≡ false
    → (is_locked s event_id (now + (acquire s event_id now).1.ttl_remaining_ms * 1000) ≡ true)
      ↔ (now % 1000 < stored_at % 1000)
unfolding acquire is_locked
is_locked-after_wait_iff s event_id stored_at now found le rejected =
    ground (arith, still_locked stored_at now s.ttl_ms)
