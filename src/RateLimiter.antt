-- ===== src/RateLimiter.antt =====
-- shared/rate_limiter.py: the sliding window limiter.
--
-- A time is a natural number of microseconds; `second` of them make the seconds that the
-- constructor and `retry_after` count in. `cutoff_time` is never formed: `ts <= now - window` is
-- written `ts + window <= now`, since subtraction stops at 0 here. Every method runs under the
-- lock, so a method is one function of the state.
pub mod Window
pub mod Admission
pub mod Trace
pub mod Retry
pub mod Cleanup
pub mod Reachable
mod Tests
use server_api.Prelude.{
  ℕ, zero, suc, ◌+◌, ◌-◌, ◌*◌, ◌/◌, String, Bool, true, false, Option, none, some, List, [], ◌∷◌,
  ◌++◌, ltb, leb, if◌then◌else◌, length, count, min, max, Dict, get, put, remove, not,
}

abbrev pub second : ℕ
second = 1000000

pub record RateLimiter : Type 0 where
  pub max_requests : ℕ
  pub window_seconds : ℕ
  pub requests : Dict (List ℕ)

abbrev pub window : RateLimiter → ℕ
window l = l.window_seconds * second

-- `_requests[ip]` of the `defaultdict`: a missing key is an empty deque.
abbrev pub or_empty : Option (List ℕ) → List ℕ
or_empty none = []
or_empty (some ts) = ts

abbrev pub timestamps : String → RateLimiter → List ℕ
timestamps ip l = or_empty (get ip l.requests)

-- `ts <= cutoff_time`.
abbrev pub is_expired : ℕ → ℕ → ℕ → Bool
is_expired w now ts = leb (ts + w) now

-- The `popleft` loop: expired stamps go, from the left, up to the first that is not.
unfoldable pub drop_expired : ℕ → ℕ → List ℕ → List ℕ
drop_expired w now [] = []
drop_expired w now (ts ∷ rest) =
    let shorter = drop_expired w now rest in if is_expired w now ts then shorter else ts ∷ rest

-- The stamps that `sum(1 for ts in timestamps if ts > cutoff_time)` counts.
unfoldable pub valid_count : ℕ → ℕ → List ℕ → ℕ
valid_count w now = count (λ ts. not (is_expired w now ts))

abbrev pub init : ℕ → ℕ → RateLimiter
init max_requests window_seconds = record {
  max_requests = max_requests;
  window_seconds = window_seconds;
  requests = [];
}

abbrev store_stamps : String → List ℕ → RateLimiter → RateLimiter
store_stamps ip ts l = record l { requests = put ip ts l.requests }

unfoldable pub is_allowed : String → ℕ → RateLimiter → Bool × RateLimiter
unfolding drop_expired
is_allowed ip now l =
    let ts = drop_expired (window l) now (timestamps ip l) in
    if ltb (length ts) l.max_requests
    then (true, store_stamps ip (ts ++ now ∷ []) l)
    else (false, store_stamps ip ts l)

-- Reading `_requests[ip]` also creates the entry.
unfoldable pub remaining : String → ℕ → RateLimiter → ℕ × RateLimiter
unfolding valid_count
remaining ip now l =
    let ts = timestamps ip l in
    (max 0 (l.max_requests - valid_count (window l) now ts), store_stamps ip ts l)

-- `math.ceil(d)` of a duration in microseconds, in seconds.
abbrev pub ceil_seconds : ℕ → ℕ
ceil_seconds d = (d + (second - 1)) / second

-- `retry_at` is later than now, so the truncated subtraction is exact.
abbrev pub wait_seconds : ℕ → ℕ → List ℕ → ℕ
wait_seconds window_seconds now [] = 0
wait_seconds window_seconds now (oldest ∷ rest) =
    max 1 (min window_seconds (ceil_seconds (oldest + window_seconds * second - now)))

unfoldable pub retry_after : String → ℕ → RateLimiter → ℕ × RateLimiter
unfolding drop_expired
retry_after ip now l =
    let ts = drop_expired (window l) now (timestamps ip l) in
    (wait_seconds l.window_seconds now ts, store_stamps ip ts l)

-- `not timestamps or timestamps[-1] <= cutoff_time`: only the newest stamp is looked at.
unfoldable pub is_idle : ℕ → ℕ → List ℕ → Bool
is_idle w now [] = true
is_idle w now (ts ∷ []) = is_expired w now ts
is_idle w now (ts ∷ ts' ∷ rest) = is_idle w now (ts' ∷ rest)

-- The scan over at most `max_ips` entries.
unfoldable pub ips_to_remove : ℕ → ℕ → ℕ → Dict (List ℕ) → List String
ips_to_remove w now zero d = []
ips_to_remove w now (suc max_ips) [] = []
ips_to_remove w now (suc max_ips) ((ip, ts) ∷ d) =
    let rest = ips_to_remove w now max_ips d in if is_idle w now ts then ip ∷ rest else rest

unfoldable pub remove_all : List String → Dict (List ℕ) → Dict (List ℕ)
remove_all [] d = d
remove_all (ip ∷ ips) d = remove_all ips (remove ip d)

unfoldable pub cleanup : ℕ → ℕ → RateLimiter → ℕ × RateLimiter
unfolding is_idle ips_to_remove remove_all
cleanup max_ips now l =
    let ips = ips_to_remove (window l) now max_ips l.requests in
    (length ips, record l { requests = remove_all ips l.requests })

pub record Stats : Type 0 where
  pub active_ips : ℕ
  pub total_tracked_requests : ℕ
  pub max_requests_per_window : ℕ
  pub window_seconds : ℕ

unfoldable pub tally : ℕ → ℕ → Dict (List ℕ) → ℕ × ℕ
unfolding valid_count
tally w now [] = (0, 0)
tally w now ((ip, ts) ∷ d) =
    let (active, total) = tally w now d in
    let n = valid_count w now ts in if ltb 0 n then (active + 1, total + n) else (active, total)

unfoldable pub get_stats : ℕ → RateLimiter → Stats
unfolding tally
get_stats now l = record {
  active_ips = (tally (window l) now l.requests).0;
  total_tracked_requests = (tally (window l) now l.requests).1;
  max_requests_per_window = l.max_requests;
  window_seconds = l.window_seconds;
}
