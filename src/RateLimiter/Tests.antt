-- ===== src/RateLimiter/Tests.antt =====
-- The limiter on two addresses and a few calls.
use server_api.Prelude.{
  ℕ, ◌+◌, ◌*◌, ◌≤◌, ◌<◌, ◌≡◌, refl, true, false, ◌&&◌, String, List, get, put, [], ◌∷◌, arith, ltb,
  str_eq, if◌then◌else◌,
}
use server_api.RateLimiter.{
  RateLimiter, second, window, timestamps, valid_count, init, is_allowed, remaining, retry_after,
  cleanup,
}
use server_api.RateLimiter.Trace.{admissions, in_window, admissions_limited}
use server_api.RateLimiter.Retry.{retry_after_admits}
use server_api.RateLimiter.Cleanup.{cleanup_keeps}
use server_api.RateLimiter.Reachable.{
  Call, allow, ask_remaining, ask_retry, clean, run, after, IsSound, init-IsSound, run-IsSound,
  remaining-is_allowed,
}

abbrev fresh : RateLimiter
fresh = init 2 60

abbrev three_calls : List (String × ℕ)
three_calls = ("a", 5) ∷ ("b", 6) ∷ ("a", 7) ∷ ("a", 9) ∷ []

-- The third request of the address is refused.
refuses_third : admissions "a" fresh three_calls [] ≡ 7 ∷ 5 ∷ []
unfolding admissions is_allowed get put
refuses_third = refl

admissions_limited_example :
    in_window (window (init 2 60)) 9 (admissions "a" (init 2 60) three_calls []) ≤ 2
admissions_limited_example =
    admissions_limited 2 60 "a" three_calls
      (omega arith, (omega arith, (omega arith, (omega arith, tt)))) 9

abbrev full : RateLimiter
full = (is_allowed "a" 7 (is_allowed "a" 5 fresh).1).1

abbrev mixed_calls : List (Call × ℕ)
mixed_calls =
    (allow "a", 5)
    ∷ (allow "a", 7)
    ∷ (ask_remaining "b", 8)
    ∷ (ask_retry "a", 8)
    ∷ (clean 10, 9)
    ∷ []

full-IsSound : IsSound 7 full
unfolding run after
full-IsSound =
    run-IsSound ((allow "a", 5) ∷ (allow "a", 7) ∷ []) 0 7 fresh
      (omega arith, (omega arith, omega arith)) (init-IsSound 2 60 0)

run-IsSound_example : IsSound 9 (run mixed_calls fresh)
run-IsSound_example =
    run-IsSound mixed_calls 0 9 fresh
      (omega arith, (omega arith, (omega arith, (omega arith, (omega arith, omega arith)))))
      (init-IsSound 2 60 0)

full_refuses : (is_allowed "a" 9 full).0 ≡ false
unfolding is_allowed get put
full_refuses = refl

full_limits : (0 < full.max_requests) × (0 < full.window_seconds)
unfolding is_allowed get put
full_limits = (omega arith, omega arith)

retry_after_admits_example :
    let refused = (is_allowed "a" 9 full).1 in
    let (wait, asked) = retry_after "a" 9 refused in
    (1 ≤ wait)
    × (wait ≤ full.window_seconds)
    × ((is_allowed "a" (9 + wait * second) asked).0 ≡ true)
retry_after_admits_example =
    retry_after_admits {clock = 7} "a" 9 full full-IsSound.valid (omega arith) full_limits.0
      full_refuses

cleanup_keeps_example :
    let (removed, l') = cleanup 10 7 full in
    (removed ≤ 10)
    × (valid_count (window l') 30 (timestamps "a" l')
        ≡ valid_count (window full) 30 (timestamps "a" full))
cleanup_keeps_example =
    cleanup_keeps 10 7 30 "a" full full-IsSound.valid full-IsSound.keys (omega arith)

remaining-is_allowed_example :
    let (ok, l') = is_allowed "a" 9 full in
    (ok ≡ ltb 0 (remaining "a" 9 full).0)
    × ((remaining "b" 9 l').0 + (if ok && str_eq "a" "b" then 1 else 0) ≡ (remaining "b" 9 full).0)
remaining-is_allowed_example =
    remaining-is_allowed {clock = 7} "a" "b" 9 full full-IsSound.valid (omega arith) full_limits.1
