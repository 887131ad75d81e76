-- ===== src/IdempotencyLock.antt =====
-- The duplicate guard for webhook events of src/adapters/idempotency-lock.ts. `now` is
-- `performance.now()` in microseconds; a `Date` keeps whole milliseconds, so making one rounds down.
pub mod Dedup
pub mod Remaining
mod Tests
use jabr.Base.{
  ℕ, ◌+◌, ◌-◌, ◌*◌, ◌/◌, String, Bool, true, false, not, Option, none, some, List, [], ◌∷◌, leb,
  ltb, if◌then◌else◌, Map, lookup, insert, filter_entries, map_values,
}

pub record IdempotencyLock : Type 0 where
  pub locks : Map ℕ
  pub ttl_ms : ℕ

abbrev pub new_lock : ℕ → IdempotencyLock
new_lock ttl_ms = record { locks = []; ttl_ms = ttl_ms }

pub record LockResult : Type 0 where
  pub acquired : Bool
  pub acquired_at : ℕ
  pub expires_at : ℕ
  pub ttl_remaining_ms : ℕ

abbrev pub ttl_us : IdempotencyLock → ℕ
ttl_us s = s.ttl_ms * 1000

-- `new Date(us / 1000).getTime()`
abbrev pub date_ms : ℕ → ℕ
date_ms us = us / 1000

-- `Math.ceil(date.getTime() - now)`, where the difference is above -1
abbrev pub ceil_until : ℕ → ℕ → ℕ
ceil_until date now = (date * 1000 - now + 999) / 1000

abbrev pub win : IdempotencyLock → String → ℕ → IdempotencyLock × LockResult
win s event_id now = (
  record s { locks = insert event_id now s.locks },
  record {
    acquired = true;
    acquired_at = date_ms now;
    expires_at = date_ms (now + ttl_us s);
    ttl_remaining_ms = s.ttl_ms;
  },
)

abbrev pub reject : IdempotencyLock → ℕ → ℕ → IdempotencyLock × LockResult
reject s stored_at now = (
  s,
  record {
    acquired = false;
    acquired_at = date_ms stored_at;
    expires_at = date_ms (stored_at + ttl_us s);
    ttl_remaining_ms = ceil_until (date_ms (stored_at + ttl_us s)) now;
  },
)

abbrev pub acquire_over : IdempotencyLock → String → ℕ → Option ℕ → IdempotencyLock × LockResult
acquire_over s event_id now none = win s event_id now
acquire_over s event_id now (some stored_at) =
    if leb (ttl_us s) (now - stored_at) then win s event_id now else reject s stored_at now

pub acquire : IdempotencyLock → String → ℕ → IdempotencyLock × LockResult
acquire s event_id now = acquire_over s event_id now (lookup event_id s.locks)

abbrev pub is_held : IdempotencyLock → ℕ → Option ℕ → Bool
is_held s now none = false
is_held s now (some stored_at) = ltb (now - stored_at) (ttl_us s)

pub is_locked : IdempotencyLock → String → ℕ → Bool
is_locked s event_id now = is_held s now (lookup event_id s.locks)

-- Collects the expired keys, then deletes them.
pub gc : IdempotencyLock → ℕ → IdempotencyLock
gc s now = record s {
  locks = filter_entries (λ key stored_at. not (leb (ttl_us s) (now - stored_at))) s.locks;
}

pub record LockState : Type 0 where
  pub acquired_at : ℕ
  pub expires_at : ℕ
  pub ttl_remaining_ms : ℕ

-- One `now` for the purge and one for the report, which the code reads one after the other.
pub get_snapshot : IdempotencyLock → ℕ → ℕ → IdempotencyLock × Map LockState
unfolding gc
get_snapshot s purge_now now = (
  gc s purge_now,
  map_values
      (λ stored_at. record {
        acquired_at = date_ms stored_at;
        expires_at = date_ms (stored_at + ttl_us s);
        ttl_remaining_ms = ceil_until (date_ms (stored_at + ttl_us s)) now;
      })
      (gc s purge_now).locks,
)

pub reset : IdempotencyLock → IdempotencyLock
reset s = record s { locks = [] }
