-- ===== src/RateLimiter/Cleanup.antt =====
-- `cleanup` and `get_stats` of shared/rate_limiter.py.
use server_api.Prelude.{
  ℕ, zero, suc, ◌*◌, ◌≤◌, ◌≡◌, refl, ◌∙◌, true, String, List, [], ◌∷◌, arith, ltb, ltb→lt, none,
  some, inl, inr, Bool-cases, length, All, eq_iff, All-weaken, Dict, get, remove, get-remove,
  IsDict,
}
use mathlib.Core.Path.{subst}
use text.Mathlib.TextPositions.{eq_refl}
use server_api.RateLimiter.{
  RateLimiter, window, timestamps, or_empty, is_idle, valid_count, ips_to_remove, remove_all,
  cleanup, get_stats, tally,
}
use server_api.RateLimiter.Window.{IsAscending, valid_count_of_is_idle, valid_count-le-length}
use server_api.RateLimiter.Admission.{IsValid}

length-ips_to_remove :
    (w now max_ips : ℕ) (d : Dict (List ℕ)) → length (ips_to_remove w now max_ips d) ≤ max_ips
unfolding ips_to_remove
length-ips_to_remove w now zero d = omega arith
length-ips_to_remove w now (suc n) [] = omega arith
length-ips_to_remove w now (suc n) ((ip, ts) ∷ d) = ground (arith, length-ips_to_remove w now n d)

abbrev IdleIn : ℕ → ℕ → Dict (List ℕ) → String → Type 0
IdleIn w now d ip = (ts : List ℕ) × (get ip d ≡ some ts) × (is_idle w now ts ≡ true)

IdleIn-cons :
    (w now : ℕ) (j : String) (us : List ℕ) (d : Dict (List ℕ)) (ip : String)
    → get j d ≡ none
    → IdleIn w now d ip
    → IdleIn w now ((j, us) ∷ d) ip
unfolding get
IdleIn-cons w now j us d ip fresh (ts, here, idle) = (ts, ground (arith, eq_iff j ip), idle)

-- Each listed address has a deque that is idle.
ips_to_remove-idle :
    (w now max_ips : ℕ) (d : Dict (List ℕ))
    → IsDict d
    → All (IdleIn w now d) (ips_to_remove w now max_ips d)
unfolding ips_to_remove
ips_to_remove-idle w now zero d h = tt
ips_to_remove-idle w now (suc n) [] h = tt
ips_to_remove-idle w now (suc n) ((ip, ts) ∷ d) h =
    let rest = ips_to_remove-idle w now n d h.1 in
    let old =
      All-weaken (IdleIn w now d) (IdleIn w now ((ip, ts) ∷ d)) (ips_to_remove w now n d)
        (λ j. IdleIn-cons w now ip ts d j h.0) rest in
    elim (Bool-cases (is_idle w now ts)) [
      | inl e ↦ rw e ((ts, unfold get in rw (eq_refl ip), e), old)
      | inr e ↦ rw e old
    ]

-- The deques of `ips` hold no stamp that a call at `later` counts.
abbrev Blank : ℕ → ℕ → Dict (List ℕ) → String → Type 0
Blank w later d ip = valid_count w later (or_empty (get ip d)) ≡ 0

Blank-remove :
    (w later : ℕ) (j ip : String) (d : Dict (List ℕ))
    → Blank w later d ip
    → Blank w later (remove j d) ip
unfolding valid_count
Blank-remove w later j ip d h = ground (arith, get-remove j ip d)

-- Removing blank addresses hides no stamp that the call counts.
remove_all_keeps :
    (w later : ℕ) (ip : String) (ips : List String) (d : Dict (List ℕ))
    → All (Blank w later d) ips
    → valid_count w later (or_empty (get ip (remove_all ips d)))
      ≡ valid_count w later (or_empty (get ip d))
unfolding remove_all
remove_all_keeps w later ip [] d h = refl
remove_all_keeps w later ip (j ∷ ips) d h =
    remove_all_keeps w later ip ips (remove j d) (
      All-weaken (Blank w later d) (Blank w later (remove j d)) ips
        (λ i. Blank-remove w later j i d) h.1)
    ∙ unfold valid_count in ground (arith, get-remove j ip d, eq_iff j ip, h.0)

IdleIn-Blank :
    (now later : ℕ) (l : RateLimiter) (ip : String)
    → IsValid now l
    → now ≤ later
    → IdleIn (window l) now l.requests ip
    → Blank (window l) later l.requests ip
IdleIn-Blank now later l ip v le (ts, here, idle) = rw here (
    valid_count_of_is_idle (window l) now later ts
      (subst (λ o. IsAscending (or_empty o)) here (v ip).ascending) le idle)

-- `cleanup` removes at most `max_ips` addresses from a valid limiter, and no later call can tell:
-- at any time from then on, every address has as many counted stamps as without it.
pub cleanup_keeps :
    (max_ips now later : ℕ) (ip : String) (l : RateLimiter)
    → IsValid now l
    → IsDict l.requests
    → now ≤ later
    → let (removed, l') = cleanup max_ips now l in
      (removed ≤ max_ips)
      × (valid_count (window l') later (timestamps ip l')
          ≡ valid_count (window l) later (timestamps ip l))
unfolding cleanup
cleanup_keeps max_ips now later ip l v d le =
    let ips = ips_to_remove (window l) now max_ips l.requests in
    (
      length-ips_to_remove (window l) now max_ips l.requests,
      remove_all_keeps (window l) later ip ips l.requests (
          All-weaken (IdleIn (window l) now l.requests) (Blank (window l) later l.requests) ips
            (λ j. IdleIn-Blank now later l j v le)
            (ips_to_remove-idle (window l) now max_ips l.requests d)),
    )

-- The totals of `get_stats` are within what the limiter may hold: each active address has at
-- least one counted request and at most `max_requests`.
tally_bounds :
    (w now most : ℕ) (d : Dict (List ℕ))
    → All (λ e. valid_count w now e.1 ≤ most) d
    → ((tally w now d).0 ≤ (tally w now d).1) × ((tally w now d).1 ≤ (tally w now d).0 * most)
unfolding tally
tally_bounds w now most [] h = (omega arith, omega arith)
tally_bounds w now most ((ip, ts) ∷ d) h =
    let ih = tally_bounds w now most d h.1 in
    elim (Bool-cases (ltb 0 (valid_count w now ts))) [
      | inl e ↦
          rw e (ground (arith, ih, ltb→lt 0 (valid_count w now ts) e), omega (arith, ih.1, h.0))
      | inr e ↦ rw e ih
    ]

entries_bounded :
    (now : ℕ) (l : RateLimiter) (d : Dict (List ℕ))
    → IsDict d
    → ((ip : String) (ts : List ℕ) → get ip d ≡ some ts → length ts ≤ l.max_requests)
    → All (λ e. valid_count (window l) now e.1 ≤ l.max_requests) d
entries_bounded now l [] u h = tt
entries_bounded now l ((ip, ts) ∷ d) u h = (
  omega (arith, valid_count-le-length (window l) now ts, h ip ts (unfold get in rw (eq_refl ip))),
  entries_bounded now l d u.1
      (λ j us e. h j us (unfold get in ground (arith, eq_iff ip j, u.0, e))),
)

-- In a valid limiter the totals of `get_stats` agree: each active address accounts for at least
-- one counted request and for at most `max_requests`.
pub get_stats_bounds :
    (now : ℕ) (l : RateLimiter)
    → IsValid now l
    → IsDict l.requests
    → let s = get_stats now l in
      (s.active_ips ≤ s.total_tracked_requests)
      × (s.total_tracked_requests ≤ s.active_ips * s.max_requests_per_window)
unfolding get_stats
get_stats_bounds now l v d = tally_bounds (window l) now l.max_requests l.requests (
    entries_bounded now l l.requests d
      (λ ip ts e. subst (λ o. length (or_empty o) ≤ l.max_requests) e (v ip).bounded))
