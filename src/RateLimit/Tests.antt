-- ===== src/RateLimit/Tests.antt =====
-- The limiter of src/adapters/rate-limit.ts on concrete requests: two per millisecond.
use jabr.Base.{◌≤◌, ◌≡◌, refl, true, List, [], ◌∷◌, arith, ltb, length, filter, lookup, insert}
use jabr.RateLimit.{new_limiter, check, is_alive, window_us}
use jabr.RateLimit.Window.{Request, after, admitted, count_within}
use jabr.RateLimit.Log.{allowed-eq-log, admitted-window-le}
use jabr.RateLimit.Retry.{retry_suffices}

abbrev requests : List Request
requests =
    record { caller = "b"; now = 900; wall = 900 }
    ∷ record { caller = "a"; now = 700; wall = 700 }
    ∷ record { caller = "a"; now = 400; wall = 400 }
    ∷ record { caller = "a"; now = 100; wall = 100 }
    ∷ []

allowed-eq-log_example :
    (check (after (new_limiter 1 2) requests) "a" 1200 1200).1.allowed
    ≡ ltb
        (length (
          filter
            (is_alive (window_us (new_limiter 1 2)) 1200)
            (admitted (new_limiter 1 2) "a" requests)))
        2
allowed-eq-log_example = allowed-eq-log 1 2 "a" 1200 1200 requests (omega arith) (omega arith)

admitted-window-le_example :
    count_within (window_us (new_limiter 1 2)) 1000 (admitted (new_limiter 1 2) "a" requests) ≤ 2
admitted-window-le_example = admitted-window-le 1 2 "a" 1000 requests (omega arith)

retry_suffices_example :
    (check (check (after (new_limiter 1 2) requests) "a" 950 950).0 "a" 2000 2000).1.allowed ≡ true
unfolding check after lookup insert
retry_suffices_example =
    retry_suffices 1 2 requests "a" 950 950 2000 2000 (omega arith) refl (omega arith)
