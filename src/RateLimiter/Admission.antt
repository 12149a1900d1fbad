-- ===== src/RateLimiter/Admission.antt =====
-- `is_allowed`, `remaining` and `retry_after` of shared/rate_limiter.py, over any sequence of calls.
use server_api.Prelude.{
  ℕ, ◌+◌, ◌≤◌, ◌<◌, ◌≡◌, String, List, [], ◌∷◌, ◌++◌, arith, ltb, str_eq, inl, inr, if◌then◌else◌,
  Bool-cases, length, get-put, eq_iff, length-append, ◌&&◌,
}
use server_api.RateLimiter.{
  RateLimiter, window, timestamps, drop_expired, valid_count, is_allowed, remaining, retry_after,
  store_stamps,
}
use server_api.RateLimiter.Window.{
  IsAscending, AtMost, length-drop_expired, valid_count-drop_expired, valid_count-append,
  valid_count-le-length, All-drop_expired, drop_expired-IsAscending, append-IsAscending,
  append-AtMost, AtMost-later,
}

-- What holds of each deque between two calls, the clock standing at `now`.
pub record Fits (cap now : ℕ) (ts : List ℕ) : Type 0 where
  pub ascending : IsAscending ts
  pub past : AtMost now ts
  pub bounded : length ts ≤ cap

abbrev pub IsValid : ℕ → RateLimiter → Type 0
IsValid now l = (ip : String) → Fits l.max_requests now (timestamps ip l)

pub timestamps-store :
    (ip j : String) (ts : List ℕ) (l : RateLimiter)
    → timestamps j (store_stamps ip ts l) ≡ (if str_eq ip j then ts else timestamps j l)
timestamps-store ip j ts l = rw get-put (ground arith)

module _ (w cap now : ℕ) {then_ : ℕ} (ts : List ℕ) (h : Fits cap then_ ts) (le : then_ ≤ now) where
  Fits-dropped : Fits cap now (drop_expired w now ts)
  Fits-dropped = record {
    ascending = drop_expired-IsAscending w now ts h.ascending;
    past = All-drop_expired (λ t. t ≤ now) w now ts (AtMost-later then_ now ts le h.past);
    bounded = omega (
      arith,
      h.bounded,
      length-drop_expired w now ts h.ascending,
      valid_count-le-length w now ts,
    );
  }

  Fits-recorded :
      length (drop_expired w now ts) < cap → Fits cap now (drop_expired w now ts ++ now ∷ [])
  Fits-recorded room = record {
    ascending =
        append-IsAscending (drop_expired w now ts) now Fits-dropped.ascending Fits-dropped.past;
    past = append-AtMost (drop_expired w now ts) now Fits-dropped.past;
    bounded = omega (arith, room, length-append (drop_expired w now ts) (now ∷ []));
  }

pub Fits-later :
    {cap then_ now : ℕ} {ts : List ℕ} → then_ ≤ now → Fits cap then_ ts → Fits cap now ts
Fits-later {then_} {now} {ts} le h = record {
  ascending = h.ascending;
  past = AtMost-later then_ now ts le h.past;
  bounded = h.bounded;
}

IsValid-store :
    {then_ now : ℕ} (ip : String) (ts : List ℕ) (l : RateLimiter)
    → then_ ≤ now
    → IsValid then_ l
    → Fits l.max_requests now ts
    → IsValid now (store_stamps ip ts l)
IsValid-store {then_} {now} ip ts l le v h j =
    rw (timestamps-store ip j ts l)
      (elim (Bool-cases (str_eq ip j)) [ inl e ↦ rw e h | inr e ↦ rw e (Fits-later le (v j)) ])

module _ {then_ : ℕ} (ip : String) (now : ℕ) (l : RateLimiter) (v : IsValid then_ l)
    (le : then_ ≤ now) where
  -- A request is admitted exactly when `remaining` would not be 0.
  pub is_allowed-eq :
      (is_allowed ip now l).0 ≡ ltb (valid_count (window l) now (timestamps ip l)) l.max_requests
  unfolding is_allowed
  is_allowed-eq =
      ground (arith, length-drop_expired (window l) now (timestamps ip l) (v ip).ascending)

  pub is_allowed-IsValid : IsValid now (is_allowed ip now l).1
  unfolding is_allowed
  is_allowed-IsValid =
      let kept = drop_expired (window l) now (timestamps ip l) in
      elim (Bool-cases (ltb (length kept) l.max_requests)) [
        | inl e ↦ rw e (
            IsValid-store ip (kept ++ now ∷ []) l le v (
              Fits-recorded (window l) l.max_requests now (timestamps ip l) (v ip) le
                (ground arith)))
        | inr e ↦ rw e (
            IsValid-store ip kept l le v
              (Fits-dropped (window l) l.max_requests now (timestamps ip l) (v ip) le))
      ]

  pub retry_after-IsValid : IsValid now (retry_after ip now l).1
  unfolding retry_after
  retry_after-IsValid =
      IsValid-store ip (drop_expired (window l) now (timestamps ip l)) l le v
        (Fits-dropped (window l) l.max_requests now (timestamps ip l) (v ip) le)

  pub remaining-IsValid : IsValid now (remaining ip now l).1
  unfolding remaining
  remaining-IsValid = IsValid-store ip (timestamps ip l) l le v (Fits-later le (v ip))

  -- The stamps that a later call counts: one more if the request was admitted, else as before.
  pub valid_count-is_allowed :
      (later : ℕ) (j : String)
      → now ≤ later
      → valid_count (window l) later (timestamps j (is_allowed ip now l).1)
        ≡ valid_count (window l) later (timestamps j l)
          + (if (is_allowed ip now l).0 && str_eq ip j
              then valid_count (window l) later (now ∷ [])
              else 0)
  unfolding is_allowed
  valid_count-is_allowed later j h =
      let kept = drop_expired (window l) now (timestamps ip l) in
      elim (Bool-cases (ltb (length kept) l.max_requests)) [
        | inl e ↦
            rw (e, timestamps-store ip j (kept ++ now ∷ []) l)
              (ground (
                arith,
                eq_iff ip j,
                valid_count-append (window l) later kept (now ∷ []),
                valid_count-drop_expired (window l) now later (timestamps ip l),
              ))
        | inr e ↦
            rw (e, timestamps-store ip j kept l)
              (ground (
                arith,
                eq_iff ip j,
                valid_count-drop_expired (window l) now later (timestamps ip l),
              ))
      ]

-- A call changes neither the limit nor the window.
pub max_requests-is_allowed :
    (ip : String) (now : ℕ) (l : RateLimiter)
    → (is_allowed ip now l).1.max_requests ≡ l.max_requests
unfolding is_allowed
max_requests-is_allowed ip now l = ground arith

pub window-is_allowed :
    (ip : String) (now : ℕ) (l : RateLimiter) → window (is_allowed ip now l).1 ≡ window l
unfolding is_allowed
window-is_allowed ip now l = ground arith
