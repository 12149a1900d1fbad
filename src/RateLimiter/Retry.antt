-- ===== src/RateLimiter/Retry.antt =====
-- `retry_after` and `remaining` of shared/rate_limiter.py against `is_allowed`.
use server_api.Prelude.{
  ℕ, ◌+◌, ◌*◌, ◌≤◌, ◌<◌, ◌≡◌, refl, sym, ap, ◌∙◌, true, false, String, List, [], ◌∷◌, arith, ltb,
  inl, inr, Bool-cases, length, le→leb, lt→ltb, All,
}
use mathlib.Core.Path.{subst}
use text.Mathlib.TextPositions.{eq_refl}
use server_api.RateLimiter.{
  RateLimiter, window, second, timestamps, is_expired, drop_expired, valid_count, is_allowed,
  retry_after, store_stamps, wait_seconds,
}
use server_api.RateLimiter.Window.{
  length-drop_expired, valid_count-le-length, drop_expired-IsAscending, All-drop_expired,
  AtMost-later, valid_count-drop_expired,
}
use server_api.RateLimiter.Admission.{
  IsValid, is_allowed-eq, retry_after-IsValid, is_allowed-IsValid, timestamps-store,
}

-- the front of the deque after the loop is a stamp that is still counted
front_current :
    (w now oldest : ℕ) (ts rest : List ℕ)
    → drop_expired w now ts ≡ oldest ∷ rest
    → is_expired w now oldest ≡ false
unfolding drop_expired
front_current w now oldest [] rest e = ground arith
front_current w now oldest (t ∷ ts) rest e = elim (Bool-cases (is_expired w now t)) [
  | inl h ↦ front_current w now oldest ts rest (ground arith)
  | inr h ↦ ground arith
]

-- one stamp fewer is counted once the oldest has expired
valid_count-oldest_expired :
    (w later oldest : ℕ) (rest : List ℕ)
    → is_expired w later oldest ≡ true
    → valid_count w later (oldest ∷ rest) ≤ length rest
unfolding valid_count
valid_count-oldest_expired w later oldest rest e =
    rw e (unfold valid_count in valid_count-le-length w later rest)

module _ (window_seconds now oldest : ℕ) (rest : List ℕ) (past : oldest ≤ now)
    (current : is_expired (window_seconds * second) now oldest ≡ false) where
  wait_bounds :
      (1 ≤ wait_seconds window_seconds now (oldest ∷ rest))
      × (wait_seconds window_seconds now (oldest ∷ rest) ≤ window_seconds)
  wait_bounds = (omega arith, ground arith)

  wait_expires :
      is_expired
        (window_seconds * second)
        (now + wait_seconds window_seconds now (oldest ∷ rest) * second)
        oldest
      ≡ true
  wait_expires = le→leb _ _ (omega arith)

abbrev kept : String → ℕ → RateLimiter → List ℕ
kept ip now l = drop_expired (window l) now (timestamps ip l)

-- What a client learns from `retry_after`, and the state that it leaves.
abbrev AdmitsAfter : ℕ → String → ℕ → RateLimiter → Type 0
AdmitsAfter longest ip now l =
    let (wait, l') = retry_after ip now l in
    (1 ≤ wait) × (wait ≤ longest) × ((is_allowed ip (now + wait * second) l').0 ≡ true)

retry_after-wait_seconds :
    (ip : String) (now : ℕ) (l : RateLimiter)
    → (retry_after ip now l).0 ≡ wait_seconds l.window_seconds now (kept ip now l)
unfolding retry_after
retry_after-wait_seconds ip now l = refl

module _ {clock : ℕ} (ip : String) (now : ℕ) (l : RateLimiter) (v : IsValid clock l)
    (le : clock ≤ now) where
  length-kept : (is_allowed ip now l).0 ≡ ltb (length (kept ip now l)) l.max_requests
  length-kept =
      is_allowed-eq ip now l v le
      ∙ ap (λ n. ltb n l.max_requests)
          (sym (length-drop_expired (window l) now (timestamps ip l) (v ip).ascending))

  bounded_rest :
      (oldest : ℕ) (rest : List ℕ) → kept ip now l ≡ oldest ∷ rest → length rest < l.max_requests
  bounded_rest oldest rest e = omega (
    arith,
    ap length e,
    length-drop_expired (window l) now (timestamps ip l) (v ip).ascending,
    valid_count-le-length (window l) now (timestamps ip l),
    (v ip).bounded,
  )

  room_later :
      (oldest : ℕ) (rest : List ℕ)
      → kept ip now l ≡ oldest ∷ rest
      → (later : ℕ) → now ≤ later
      → is_expired (window l) later oldest ≡ true
      → (is_allowed ip later (retry_after ip now l).1).0 ≡ true
  unfolding retry_after
  room_later oldest rest e later le' gone =
      is_allowed-eq ip later (retry_after ip now l).1 (retry_after-IsValid ip now l v le) le'
      ∙ rw (timestamps-store ip ip (kept ip now l) l, eq_refl ip)
          (lt→ltb _ _ (
            rw e (
              omega (
                arith,
                valid_count-oldest_expired (window l) later oldest rest gone,
                bounded_rest oldest rest e,
              ))))

  wait_admits :
      (ts : List ℕ)
      → kept ip now l ≡ ts
      → l.max_requests ≤ length ts
      → 0 < l.max_requests
      → AdmitsAfter l.window_seconds ip now l
  wait_admits [] e full pos = absurd (omega arith)
  wait_admits (oldest ∷ rest) e full pos =
      let past = subst (All (λ t. t ≤ now)) e (
        All-drop_expired (λ t. t ≤ now) (window l) now (timestamps ip l)
          (AtMost-later clock now (timestamps ip l) le (v ip).past)) in
      let current = front_current (window l) now oldest (timestamps ip l) rest e in
      let bounds = wait_bounds l.window_seconds now oldest rest past.0 current in
      let wait = retry_after-wait_seconds ip now l ∙ ap (wait_seconds l.window_seconds now) e in
      rw wait (
        bounds.0,
        bounds.1,
        room_later oldest rest e (now + wait_seconds l.window_seconds now (oldest ∷ rest) * second)
            (omega arith) (wait_expires l.window_seconds now oldest rest past.0 current),
      )

is_allowed-refused :
    (ip : String) (now : ℕ) (l : RateLimiter)
    → (is_allowed ip now l).0 ≡ false
    → (is_allowed ip now l).1 ≡ store_stamps ip (kept ip now l) l
unfolding is_allowed
is_allowed-refused ip now l h = ground arith

-- A refusal drops expired stamps only, so the deque stays full.
refused_full :
    {clock : ℕ} (ip : String) (now : ℕ) (l : RateLimiter)
    → IsValid clock l
    → clock ≤ now
    → (is_allowed ip now l).0 ≡ false
    → l.max_requests ≤ length (kept ip now (store_stamps ip (kept ip now l) l))
refused_full ip now l v le no_room =
    let stamps = timestamps ip l in
    let valid = drop_expired-IsAscending (window l) now stamps (v ip).ascending in
    rw (timestamps-store ip ip (kept ip now l) l, eq_refl ip)
      (ground (
        arith,
        length-drop_expired (window l) now (kept ip now l) valid,
        valid_count-drop_expired (window l) now now stamps (omega arith),
        is_allowed-eq ip now l v le,
        no_room,
      ))

-- A refused request, in a valid limiter that admits any, leaves a state in which `retry_after`
-- names a wait of at least one second and at most the window, and after just that wait, with no
-- call in between, the address is admitted.
pub retry_after_admits :
    {clock : ℕ} (ip : String) (now : ℕ) (l : RateLimiter)
    → IsValid clock l
    → clock ≤ now
    → 0 < l.max_requests
    → (is_allowed ip now l).0 ≡ false
    → let refused = (is_allowed ip now l).1 in
      let (wait, asked) = retry_after ip now refused in
      (1 ≤ wait)
      × (wait ≤ l.window_seconds)
      × ((is_allowed ip (now + wait * second) asked).0 ≡ true)
retry_after_admits ip now l v le pos no_room =
    let refused = store_stamps ip (kept ip now l) l in
    let same = is_allowed-refused ip now l no_room in
    let valid = subst (IsValid now) same (is_allowed-IsValid ip now l v le) in
    subst (AdmitsAfter l.window_seconds ip now) (sym same) (
      wait_admits ip now refused valid (omega arith) (kept ip now refused) refl
        (refused_full ip now l v le no_room) pos)
