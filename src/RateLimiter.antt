-- ===== src/RateLimiter.antt =====
-- src/framework/RESTAPI_RateLimiter.h: how often a client may call a path. Times are milliseconds of a
-- clock that does not go back. Poco's cache gives the entry of a client, or none after it expired.
use wlan_cloud_ucentralfms.Common.{
  ℕ, ◌+◌, ◌-◌, ◌<◌, ◌≡◌, Bool, false, Option, none, some, List, [], ◌∷◌, arith, ltb, leb,
  if◌then◌else◌, length, All,
}

pub record ClientCacheEntry : Type 0 where
  pub start : ℕ
  pub calls : ℕ

-- IsRateLimited, for the entry that the cache has: the answer, and the entry that is stored.
unfoldable pub is_rate_limited : ℕ → ℕ → ℕ → Option ClientCacheEntry → Bool × ClientCacheEntry
is_rate_limited period max_calls now none = (false, record { start = now; calls = 1 })
is_rate_limited period max_calls now (some e) =
    if ltb (now - e.start) period
    then (ltb max_calls (e.calls + 1), record e { calls = e.calls + 1 })
    else (false, record { start = now; calls = 1 })

-- How many calls at the given times are let through, while the cache keeps the entry.
unfoldable pub let_through : ℕ → ℕ → Option ClientCacheEntry → List ℕ → ℕ
let_through period max_calls o [] = 0
let_through period max_calls o (now ∷ times) =
    let (limited, e) = is_rate_limited period max_calls now o in
    (if limited then 0 else 1) + let_through period max_calls (some e) times

abbrev pub at_most : ℕ → ℕ → ℕ
at_most m n = if leb m n then m else n

-- All the times are within the period.
abbrev pub Within : ℕ → ℕ → List ℕ → Type 0
Within period start = All (λ now. now - start < period)

let_through-some :
    (period max_calls : ℕ) (e : ClientCacheEntry) (times : List ℕ)
    → Within period e.start times
    → let_through period max_calls (some e) times ≡ at_most (length times) (max_calls - e.calls)
unfolding let_through is_rate_limited
let_through-some period max_calls e [] h = ground arith
let_through-some period max_calls e (now ∷ times) h =
    ground
      (arith, let_through-some period max_calls (record e { calls = e.calls + 1 }) times h.1, h.0)

-- The calls of a client in one period, the first of which finds no entry: the first is let through, and
-- of the others as many as the maximum still allows, whatever their times in the period are.
pub let_through-period :
    (period max_calls first : ℕ) (times : List ℕ)
    → Within period first times
    → let_through period max_calls none (first ∷ times) ≡ 1 + at_most (length times) (max_calls - 1)
unfolding let_through is_rate_limited
let_through-period period max_calls first times h =
    ground (arith, let_through-some period max_calls (record { start = first; calls = 1 }) times h)
