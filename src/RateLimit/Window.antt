-- ===== src/RateLimit/Window.antt =====
-- How many requests of a caller a sliding window admits.
use jabr.Base.{
  ℕ, ◌+◌, ◌≤◌, String, ◌≡◌, refl, Bool, ◌&&◌, List, [], ◌∷◌, ◌++◌, arith, ltb, leb, if◌then◌else◌,
  length, filter, str_eq, All, lookup-insert, eq_iff, insert, length-filter-le,
}
use jabr.RateLimit.{RateLimiter, check, is_alive, stamps, window_us}

pub record Request : Type 0 where
  pub caller : String
  pub now : ℕ
  pub wall : ℕ

-- The limiter after a sequence of requests, the latest first.
unfoldable pub after : RateLimiter → List Request → RateLimiter
after s [] = s
after s (r ∷ earlier) = (check (after s earlier) r.caller r.now r.wall).0

-- When the requests of a caller were admitted, the latest first.
unfoldable pub admitted : RateLimiter → String → List Request → List ℕ
admitted s caller [] = []
admitted s caller (r ∷ earlier) =
    let before = admitted s caller earlier in
    if str_eq r.caller caller && (check (after s earlier) r.caller r.now r.wall).1.allowed
    then r.now ∷ before
    else before

-- the entries of a list in the half-open window that ends at `until`
unfoldable pub count_within : ℕ → ℕ → List ℕ → ℕ
count_within window until [] = 0
count_within window until (t ∷ ts) =
    (if leb t until && is_alive window until t then 1 else 0) + count_within window until ts

-- The clock does not run backwards: no request is earlier than `now` looks back on.
abbrev pub UpTo : ℕ → List Request → Type 0
UpTo now earlier = All (λ r. r.now ≤ now) earlier

abbrev pub IsChronological : List Request → Type 0
IsChronological [] = Unit
IsChronological (r ∷ earlier) = UpTo r.now earlier × IsChronological earlier

filter_self :
    (keep : ℕ → Bool) (ts : List ℕ) → length (filter keep ts) ≡ length ts → filter keep ts ≡ ts
filter_self keep [] h = refl
filter_self keep (t ∷ ts) h = ground (arith, filter_self keep ts, length-filter-le keep ts)

pub filter-filter :
    (window now later : ℕ) (ts : List ℕ)
    → now ≤ later
    → filter (is_alive window later) (filter (is_alive window now) ts)
      ≡ filter (is_alive window later) ts
filter-filter window now later [] h = refl
filter-filter window now later (t ∷ ts) h = ground (arith, filter-filter window now later ts h)

pub length-filter-push :
    (keep : ℕ → Bool) (t : ℕ) (ts : List ℕ)
    → length (filter keep (ts ++ t ∷ [])) ≡ length (filter keep ts) + (if keep t then 1 else 0)
length-filter-push keep t [] = ground arith
length-filter-push keep t (u ∷ ts) = ground (arith, length-filter-push keep t ts)

-- What `check` leaves for the caller itself.
abbrev pub log_step : ℕ → ℕ → ℕ → List ℕ → List ℕ
log_step window most now ts =
    let alive = filter (is_alive window now) ts in
    if ltb (length alive) most then alive ++ now ∷ [] else alive

pub stamps-check :
    (s : RateLimiter) (caller other : String) (now wall : ℕ)
    → stamps (check s caller now wall).0 other ≡ (
        if str_eq caller other
        then log_step (window_us s) s.max_requests now (stamps s caller)
        else stamps s other)
unfolding check
stamps-check s caller other now wall =
    let ts = stamps s caller in
    let alive = filter (is_alive (window_us s) now) ts in
    let used = alive ++ now ∷ [] in
    ground (
      arith,
      eq_iff caller other,
      filter_self (is_alive (window_us s) now) ts,
      lookup-insert caller other alive s.windows,
      lookup-insert caller other used s.windows,
      lookup-insert caller other used (insert caller alive s.windows),
    )
