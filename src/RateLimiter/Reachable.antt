-- ===== src/RateLimiter/Reachable.antt =====
-- Every state that the methods of shared/rate_limiter.py can reach.
use server_api.Prelude.{
  ℕ, ◌+◌, ◌-◌, ◌++◌, length, inl, inr, Bool-cases, ◌≤◌, ◌<◌, ◌≡◌, true, false, String, List, [],
  ◌∷◌, arith, ltb, str_eq, if◌then◌else◌, ◌&&◌, Dict, IsDict, put-IsDict, remove-IsDict, get,
  get-remove, remove, Bool, eq_iff,
}
use server_api.RateLimiter.{
  RateLimiter, init, window, timestamps, valid_count, or_empty, is_allowed, remaining, retry_after,
  drop_expired, store_stamps, remove_all, ips_to_remove, cleanup,
}
use server_api.RateLimiter.Admission.{
  Fits, IsValid, Fits-later, is_allowed-eq, is_allowed-IsValid, remaining-IsValid,
  retry_after-IsValid, valid_count-is_allowed, window-is_allowed, max_requests-is_allowed,
}

pub data Call : Type 0 where
  allow ask_remaining ask_retry : String → Call
  clean : ℕ → Call

unfoldable pub after : Call → ℕ → RateLimiter → RateLimiter
after (allow ip) now l = (is_allowed ip now l).1
after (ask_remaining ip) now l = (remaining ip now l).1
after (ask_retry ip) now l = (retry_after ip now l).1
after (clean max_ips) now l = (cleanup max_ips now l).1

unfoldable pub run : List (Call × ℕ) → RateLimiter → RateLimiter
run [] l = l
run ((c, now) ∷ calls) l = run calls (after c now l)

-- The clock at the end of a sequence of calls, if it does not run back.
abbrev pub IsTimed : ℕ → List (Call × ℕ) → ℕ → Type 0
IsTimed clock [] end = clock ≤ end
IsTimed clock ((c, now) ∷ calls) end = (clock ≤ now) × IsTimed now calls end

pub record IsSound (now : ℕ) (l : RateLimiter) : Type 0 where
  pub valid : IsValid now l
  pub keys : IsDict l.requests

Fits-remove :
    (most now : ℕ) (ip j : String) (d : Dict (List ℕ))
    → Fits most now (or_empty (get ip d))
    → Fits most now (or_empty (get ip (remove j d)))
Fits-remove most now ip j d h = rw (get-remove j ip d) (elim (Bool-cases (str_eq j ip)) [
  | inl e ↦ rw e (record { ascending = tt; past = tt; bounded = omega arith })
  | inr e ↦ rw e h
])

remove_all-Fits :
    (most now : ℕ) (ip : String) (ips : List String) (d : Dict (List ℕ))
    → Fits most now (or_empty (get ip d))
    → Fits most now (or_empty (get ip (remove_all ips d)))
unfolding remove_all
remove_all-Fits most now ip [] d h = h
remove_all-Fits most now ip (j ∷ ips) d h =
    remove_all-Fits most now ip ips (remove j d) (Fits-remove most now ip j d h)

remove_all-IsDict : (ips : List String) (d : Dict (List ℕ)) → IsDict d → IsDict (remove_all ips d)
unfolding remove_all
remove_all-IsDict [] d h = h
remove_all-IsDict (ip ∷ ips) d h = remove_all-IsDict ips (remove ip d) (remove-IsDict ip d h)

after-IsValid :
    (c : Call) {clock : ℕ} (now : ℕ) (l : RateLimiter)
    → clock ≤ now
    → IsValid clock l
    → IsValid now (after c now l)
unfolding after
after-IsValid (allow ip) now l le v = is_allowed-IsValid ip now l v le
after-IsValid (ask_remaining ip) now l le v = remaining-IsValid ip now l v le
after-IsValid (ask_retry ip) now l le v = retry_after-IsValid ip now l v le
after-IsValid (clean max_ips) now l le v = λ ip.
    unfold cleanup in
    remove_all-Fits l.max_requests now ip (ips_to_remove (window l) now max_ips l.requests)
      l.requests (Fits-later le (v ip))

branch-IsDict :
    (ip : String) (ts us : List ℕ) (l : RateLimiter) (b : Bool)
    → IsDict l.requests
    → let next : Bool × RateLimiter =
        if b then (true, store_stamps ip ts l) else (false, store_stamps ip us l) in
      IsDict next.1.requests
branch-IsDict ip ts us l true h = put-IsDict ip ts l.requests h
branch-IsDict ip ts us l false h = put-IsDict ip us l.requests h

after-IsDict :
    (c : Call) (now : ℕ) (l : RateLimiter) → IsDict l.requests → IsDict (after c now l).requests
unfolding after is_allowed remaining retry_after cleanup
after-IsDict (allow ip) now l h =
    let stamps = drop_expired (window l) now (timestamps ip l) in
    branch-IsDict ip (stamps ++ now ∷ []) stamps l (ltb (length stamps) l.max_requests) h
after-IsDict (ask_remaining ip) now l h = put-IsDict ip _ l.requests h
after-IsDict (ask_retry ip) now l h = put-IsDict ip _ l.requests h
after-IsDict (clean max_ips) now l h =
    remove_all-IsDict (ips_to_remove (window l) now max_ips l.requests) l.requests h

-- A new limiter is sound.
pub init-IsSound : (most w clock : ℕ) → IsSound clock (init most w)
unfolding get
init-IsSound most w clock = record {
  valid = λ ip. record { ascending = tt; past = tt; bounded = omega arith };
  keys = tt;
}

-- Whatever the calls, under a clock that does not run back, the state that they lead to from a
-- sound one is sound: no address twice, and each deque ascending, in the past and within the limit.
pub run-IsSound :
    (calls : List (Call × ℕ)) (clock end : ℕ) (l : RateLimiter)
    → IsTimed clock calls end
    → IsSound clock l
    → IsSound end (run calls l)
unfolding run
run-IsSound [] clock end l t s = record { valid = λ ip. Fits-later t (s.valid ip); keys = s.keys }
run-IsSound ((c, now) ∷ calls) clock end l t s =
    run-IsSound calls now end (after c now l) t.1
      (record { valid = after-IsValid c now l t.0 s.valid; keys = after-IsDict c now l s.keys })

remaining-valid_count :
    (ip : String) (now : ℕ) (l : RateLimiter)
    → (remaining ip now l).0 ≡ l.max_requests - valid_count (window l) now (timestamps ip l)
unfolding remaining
remaining-valid_count ip now l = omega arith

valid_count_now : (w now : ℕ) → 0 < w → valid_count w now (now ∷ []) ≡ 1
unfolding valid_count
valid_count_now w now pos = ground arith

-- In a valid limiter with a positive window, `is_allowed` admits exactly when `remaining` is not
-- 0, and an admission lowers the `remaining` of its own address by one and of no other.
pub remaining-is_allowed :
    {clock : ℕ} (ip j : String) (now : ℕ) (l : RateLimiter)
    → IsValid clock l
    → clock ≤ now
    → 0 < l.window_seconds
    → let (ok, l') = is_allowed ip now l in
      (ok ≡ ltb 0 (remaining ip now l).0)
      × ((remaining j now l').0 + (if ok && str_eq ip j then 1 else 0) ≡ (remaining j now l).0)
remaining-is_allowed ip j now l v le pos = (
  rw (remaining-valid_count ip now l) (ground (arith, is_allowed-eq ip now l v le)),
  rw
      (
        remaining-valid_count j now l,
        remaining-valid_count j now (is_allowed ip now l).1,
        max_requests-is_allowed ip now l,
        window-is_allowed ip now l,
        valid_count-is_allowed ip now l v le now j (omega arith),
        valid_count_now (window l) now (omega arith),
      )
      (ground (arith, is_allowed-eq ip now l v le, eq_iff ip j)),
)
