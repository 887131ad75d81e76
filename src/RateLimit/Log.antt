-- ===== src/RateLimit/Log.antt =====
-- The limiter against the log of the requests that it admitted.
use jabr.Base.{
  ℕ, ◌+◌, ◌≤◌, String, ◌≡◌, refl, ◌∙◌, lookup, List, [], ◌∷◌, arith, ltb, if◌then◌else◌, length,
  filter, eq_iff,
}
use jabr.RateLimit.{RateLimiter, new_limiter, check, is_alive, stamps, window_us}
use jabr.RateLimit.Window.{
  Request, after, admitted, count_within, UpTo, IsChronological, filter-filter, length-filter-push,
  stamps-check, log_step,
}

pub check_window :
    (s : RateLimiter) (caller : String) (now wall : ℕ)
    → ((check s caller now wall).0.window_ms ≡ s.window_ms)
      × ((check s caller now wall).0.max_requests ≡ s.max_requests)
unfolding check
check_window s caller now wall = ground arith

pub after_window :
    (s : RateLimiter) (earlier : List Request)
    → ((after s earlier).window_ms ≡ s.window_ms)
      × ((after s earlier).max_requests ≡ s.max_requests)
unfolding after
after_window s [] = (refl, refl)
after_window s (r ∷ earlier) =
    let (w, m) = check_window (after s earlier) r.caller r.now r.wall in
    let (w', m') = after_window s earlier in (w ∙ w', m ∙ m')

pub allowed_lem :
    (s : RateLimiter) (caller : String) (now wall : ℕ)
    → (check s caller now wall).1.allowed
      ≡ ltb (length (filter (is_alive (window_us s) now) (stamps s caller))) s.max_requests
unfolding check
allowed_lem s caller now wall = refl

UpTo-trans : (now later : ℕ) (rs : List Request) → now ≤ later → UpTo now rs → UpTo later rs
UpTo-trans now later [] h u = tt
UpTo-trans now later (r ∷ rs) h u = (omega arith, UpTo-trans now later rs h u.1)

module _ (window_ms most : ℕ) where
  abbrev start : RateLimiter
  start = new_limiter window_ms most

  abbrev live : ℕ → List ℕ → List ℕ
  live until = filter (is_alive (window_us start) until)

  -- one step of the stored stamps, as later windows count them
  live-log_step :
      (now until : ℕ) (ts : List ℕ)
      → now ≤ until
      → length (live until (log_step (window_us start) most now ts)) ≡ (
          if ltb (length (live now ts)) most
          then length (live until ts) + (if is_alive (window_us start) until now then 1 else 0)
          else length (live until ts))
  live-log_step now until ts h = ground (
    arith,
    length-filter-push (is_alive (window_us start) until) now (live now ts),
    filter-filter (window_us start) now until ts h,
  )

  -- The stored stamps of a caller are worth as much as the log, in every window that ends later.
  live-stamps-eq-log :
      (caller : String) (until : ℕ) (rs : List Request)
      → IsChronological rs
      → UpTo until rs
      → length (live until (stamps (after start rs) caller))
        ≡ length (live until (admitted start caller rs))
  unfolding after admitted lookup
  live-stamps-eq-log caller until [] ok u = refl
  live-stamps-eq-log caller until (r ∷ rs) ok u =
      let s = after start rs in
      let (same_window, same_most) = after_window start rs in
      ground (
        arith,
        same_window,
        same_most,
        eq_iff r.caller caller,
        stamps-check s r.caller caller r.now r.wall,
        allowed_lem s r.caller r.now r.wall,
        live-log_step r.now until (stamps s caller) u.0,
        live-stamps-eq-log caller until rs ok.1 (UpTo-trans r.now until rs u.0 ok.0),
      )

  -- Exactly the requests go through that find fewer than the limit in the log of their window.
  pub allowed-eq-log :
      (caller : String) (now wall : ℕ) (rs : List Request)
      → IsChronological rs
      → UpTo now rs
      → (check (after start rs) caller now wall).1.allowed
        ≡ ltb (length (live now (admitted start caller rs))) most
  allowed-eq-log caller now wall rs ok u =
      let (same_window, same_most) = after_window start rs in
      ground (
        arith,
        same_window,
        same_most,
        allowed_lem (after start rs) caller now wall,
        live-stamps-eq-log caller now rs ok u,
      )

  count_within-le-live :
      (now until : ℕ) (ts : List ℕ)
      → now ≤ until
      → count_within (window_us start) until ts ≤ length (live now ts)
  unfolding count_within
  count_within-le-live now until [] h = omega arith
  count_within-le-live now until (t ∷ ts) h = ground (arith, count_within-le-live now until ts h)

  -- In no window, wherever it ends, more requests of a caller are admitted than the limit.
  pub admitted-window-le :
      (caller : String) (until : ℕ) (rs : List Request)
      → IsChronological rs
      → count_within (window_us start) until (admitted start caller rs) ≤ most
  unfolding admitted count_within
  admitted-window-le caller until [] ok = omega arith
  admitted-window-le caller until (r ∷ rs) ok = ground (
    arith,
    eq_iff r.caller caller,
    allowed-eq-log r.caller r.now r.wall rs ok.1 ok.0,
    count_within-le-live r.now until (admitted start r.caller rs),
    admitted-window-le caller until rs ok.1,
  )
