-- ===== src/RateLimit.antt =====
-- The sliding-window limiter of src/adapters/rate-limit.ts. The caller that `resolveCaller` finds
-- and the two clocks are arguments: `now` is `performance.now()` in microseconds, `wall` is
-- `Date.now()` in microseconds, so that `Math.ceil` to milliseconds is a rounding here too.
pub mod Window
pub mod Log
pub mod Retry
mod Tests
use jabr.Base.{
  ℕ, suc, ◌+◌, ◌-◌, ◌*◌, ◌/◌, String, Bool, not, Option, none, some, List, [], ◌∷◌, ◌++◌, ltb, ◌==◌,
  if◌then◌else◌, length, filter, get_or, Map, lookup, insert, map_values,
}

pub record RateLimiter : Type 0 where
  pub windows : Map (List ℕ)
  pub window_ms : ℕ
  pub max_requests : ℕ

pub record RateLimitResult : Type 0 where
  pub allowed : Bool
  pub remaining : ℕ
  pub reset_at : ℕ
  pub retry_after_ms : ℕ

abbrev pub new_limiter : ℕ → ℕ → RateLimiter
new_limiter window_ms max_requests = record {
  windows = [];
  window_ms = window_ms;
  max_requests = max_requests;
}

abbrev pub ceil_ms : ℕ → ℕ
ceil_ms us = (us + 999) / 1000

abbrev pub window_us : RateLimiter → ℕ
window_us s = s.window_ms * 1000

-- `t > now - windowMs`, where the difference may be negative
abbrev pub is_alive : ℕ → ℕ → ℕ → Bool
is_alive window now t = ltb now (t + window)

abbrev pub stamps : RateLimiter → String → List ℕ
stamps s caller = get_or (lookup caller s.windows) []

-- `msUntilOldestExpires`, where there is an oldest stamp and it is positive
abbrev pub until_oldest_expires : ℕ → ℕ → List ℕ → Option ℕ
until_oldest_expires window now [] = none
until_oldest_expires window now (oldest ∷ rest) =
    if ltb now (oldest + window) then some (oldest + window - now) else none

abbrev pub reset_after : RateLimiter → Option ℕ → ℕ
reset_after s none = window_us s
reset_after s (some us) = us

abbrev pub retry_after : RateLimiter → Option ℕ → ℕ
retry_after s none = s.window_ms
retry_after s (some us) = ceil_ms us

-- the first write: only if a stamp was dropped
abbrev pub drop_expired : RateLimiter → String → List ℕ → List ℕ → RateLimiter
drop_expired s caller timestamps alive =
    if not (length alive == length timestamps)
    then record s { windows = insert caller alive s.windows }
    else s

pub check : RateLimiter → String → ℕ → ℕ → RateLimiter × RateLimitResult
check s caller now wall =
    let timestamps = stamps s caller in
    let alive = filter (is_alive (window_us s) now) timestamps in
    let pruned = drop_expired s caller timestamps alive in
    let allowed = ltb (length alive) s.max_requests in
    let wait = until_oldest_expires (window_us s) now alive in
    let used = if allowed then alive ++ now ∷ [] else alive in
    (
      if allowed then record pruned { windows = insert caller used pruned.windows } else pruned,
      record {
        allowed = allowed;
        remaining = s.max_requests - length used;
        reset_at = wall + reset_after s wait;
        retry_after_ms = retry_after s wait;
      },
    )

pub record Usage : Type 0 where
  pub used : ℕ
  pub cap : ℕ
  pub reset_at : ℕ

-- the write of `getSnapshot` for one caller: a window with no live stamp is left as it was
abbrev pub refresh_window : ℕ → ℕ → List ℕ → List ℕ
refresh_window window now timestamps = elim (filter (is_alive window now) timestamps) [
  | [] ↦ timestamps
  | t ∷ ts ↦ t ∷ ts
]

abbrev pub usage_of : RateLimiter → ℕ → Map (List ℕ) → Map Usage
usage_of s now [] = []
usage_of s now ((caller, timestamps) ∷ rest) =
    elim (filter (is_alive (window_us s) now) timestamps) [
      | [] ↦ usage_of s now rest
      | t ∷ ts ↦
          (
            caller,
            record { used = suc (length ts); cap = s.max_requests; reset_at = t + window_us s },
          )
          ∷ usage_of s now rest
    ]

pub get_snapshot : RateLimiter → ℕ → RateLimiter × Map Usage
get_snapshot s now = (
  record s { windows = map_values (refresh_window (window_us s) now) s.windows },
  usage_of s now s.windows,
)

pub reset : RateLimiter → RateLimiter
reset s = record s { windows = [] }
