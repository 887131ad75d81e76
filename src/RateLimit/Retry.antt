-- ===== src/RateLimit/Retry.antt =====
-- What `retryAfterMs` of src/adapters/rate-limit.ts promises to a caller that was turned away.
use jabr.Base.{
  ℕ, ◌+◌, ◌*◌, ◌≤◌, ◌<◌, String, ◌≡◌, refl, true, false, List, [], ◌∷◌, arith, length, filter,
  lookup, eq_iff, eq_refl, length-filter-le, length-append,
}
use jabr.RateLimit.{
  RateLimiter, new_limiter, check, is_alive, stamps, window_us, until_oldest_expires, retry_after,
}
use jabr.RateLimit.Window.{Request, after, stamps-check, log_step}
use jabr.RateLimit.Log.{after_window, allowed_lem, check_window}

length-log_step-le :
    (window most now : ℕ) (ts : List ℕ)
    → length ts ≤ most
    → length (log_step window most now ts) ≤ most
length-log_step-le window most now ts h =
    let alive = filter (is_alive window now) ts in
    ground (arith, length-filter-le (is_alive window now) ts, length-append alive (now ∷ []))

-- No caller ever has more stamps in store than the limit.
pub length-stamps-le :
    (window_ms most : ℕ) (caller : String) (rs : List Request)
    → length (stamps (after (new_limiter window_ms most) rs) caller) ≤ most
unfolding after lookup
length-stamps-le window_ms most caller [] = omega arith
length-stamps-le window_ms most caller (r ∷ rs) =
    let s = after (new_limiter window_ms most) rs in
    let (_, same_most) = after_window (new_limiter window_ms most) rs in
    ground (
      arith,
      same_most,
      eq_iff r.caller caller,
      stamps-check s r.caller caller r.now r.wall,
      length-stamps-le window_ms most caller rs,
      length-log_step-le (window_us s) most r.now (stamps s r.caller),
    )

-- Once the wait is over, the oldest stamp is dead.
length-filter-lt_of_wait :
    (s : RateLimiter) (now later : ℕ) (alive : List ℕ)
    → 0 < s.max_requests
    → length alive ≤ s.max_requests
    → now + retry_after s (until_oldest_expires (window_us s) now alive) * 1000 ≤ later
    → length (filter (is_alive (window_us s) later) alive) < s.max_requests
length-filter-lt_of_wait s now later [] pos le wait = pos
length-filter-lt_of_wait s now later (t ∷ rest) pos le wait =
    ground (arith, length-filter-le (is_alive (window_us s) later) rest)

retry_after_lem :
    (s : RateLimiter) (caller : String) (now wall : ℕ)
    → (check s caller now wall).1.retry_after_ms
      ≡ retry_after s (
          until_oldest_expires
            (window_us s)
            now
            (filter (is_alive (window_us s) now) (stamps s caller)))
unfolding check
retry_after_lem s caller now wall = refl

retry_of_bounded :
    (s : RateLimiter) (caller : String) (now wall later wall' : ℕ)
    → 0 < s.max_requests
    → length (stamps s caller) ≤ s.max_requests
    → (check s caller now wall).1.allowed ≡ false
    → now + (check s caller now wall).1.retry_after_ms * 1000 ≤ later
    → (check (check s caller now wall).0 caller later wall').1.allowed ≡ true
retry_of_bounded s caller now wall later wall' pos le denied wait =
    let s' = (check s caller now wall).0 in
    let alive = filter (is_alive (window_us s) now) (stamps s caller) in
    let (same_window, same_most) = check_window s caller now wall in
    ground (
      arith,
      same_window,
      same_most,
      eq_refl caller,
      allowed_lem s caller now wall,
      retry_after_lem s caller now wall,
      allowed_lem s' caller later wall',
      stamps-check s caller caller now wall,
      length-filter-le (is_alive (window_us s) now) (stamps s caller),
      length-filter-lt_of_wait s now later alive pos,
    )

module _ (window_ms most : ℕ) (rs : List Request) where
  abbrev current : RateLimiter
  current = after (new_limiter window_ms most) rs

  -- After any requests to a new limiter with a limit above 0: a caller that is turned away and waits
  -- at least as long as it is told is let in at its next request, if nothing is asked in between.
  pub retry_suffices :
      (caller : String) (now wall later wall' : ℕ)
      → 0 < most
      → (check current caller now wall).1.allowed ≡ false
      → now + (check current caller now wall).1.retry_after_ms * 1000 ≤ later
      → (check (check current caller now wall).0 caller later wall').1.allowed ≡ true
  retry_suffices caller now wall later wall' pos =
      let (_, same_most) = after_window (new_limiter window_ms most) rs in
      retry_of_bounded current caller now wall later wall' (omega arith)
        (omega (arith, length-stamps-le window_ms most caller rs))
