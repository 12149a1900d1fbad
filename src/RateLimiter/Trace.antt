-- ===== src/RateLimiter/Trace.antt =====
-- The limit of shared/rate_limiter.py over any sequence of requests from any addresses.
use server_api.Prelude.{
  ℕ, ◌+◌, ◌≤◌, ◌<◌, ◌≡◌, refl, Bool, true, false, not, String, List, [], ◌∷◌, arith, leb, ltb,
  str_eq, inl, sym, ◌∙◌, get, inr, if◌then◌else◌, Bool-cases, count, eq_iff, ◌&&◌, and_parts,
}
use mathlib.Core.Path.{subst₂}
use server_api.RateLimiter.{
  RateLimiter, window, timestamps, is_expired, valid_count, is_allowed, init,
}
use server_api.RateLimiter.Window.{AtMost, AtMost-later}
use server_api.RateLimiter.Admission.{
  IsValid, is_allowed-eq, is_allowed-IsValid, valid_count-is_allowed, max_requests-is_allowed,
  window-is_allowed,
}

-- A sequence of requests, each with its address and the clock; the list of the times at which the
-- requests of `who` were admitted, newest first.
unfoldable pub admissions : String → RateLimiter → List (String × ℕ) → List ℕ → List ℕ
admissions who l [] log = log
admissions who l ((ip, now) ∷ calls) log =
    let (ok, l') = is_allowed ip now l in
    admissions who l' calls (if ok && str_eq ip who then now ∷ log else log)

-- The clock does not run back.
abbrev pub IsMonotone : ℕ → List (String × ℕ) → Type 0
IsMonotone clock [] = Unit
IsMonotone clock ((ip, now) ∷ calls) = (clock ≤ now) × IsMonotone now calls

-- How many of the logged times lie in the window that ends at `e`: after `e - w`, up to `e`.
unfoldable pub in_window : ℕ → ℕ → List ℕ → ℕ
in_window w e = count (λ t. not (is_expired w e t) && leb t e)

-- What the log and the deque have to do with one another.
record Agrees (most w clock : ℕ) (log ts : List ℕ) : Type 0 where
  past : AtMost clock log
  same : (later : ℕ) → clock ≤ later → valid_count w later log ≡ valid_count w later ts
  fair : (e : ℕ) → in_window w e log ≤ most

in_window-le-valid_count :
    (w e now : ℕ) (log : List ℕ) → now ≤ e → in_window w e log ≤ valid_count w now log
unfolding in_window valid_count
in_window-le-valid_count w e now [] h = omega arith
in_window-le-valid_count w e now (t ∷ log) h =
    ground (arith, in_window-le-valid_count w e now log h)

in_window-cons_le : (w e now : ℕ) (log : List ℕ) → in_window w e (now ∷ log) ≤ in_window w e log + 1
unfolding in_window
in_window-cons_le w e now log = ground arith

in_window-cons_before :
    (w e now : ℕ) (log : List ℕ) → e < now → in_window w e (now ∷ log) ≡ in_window w e log
unfolding in_window
in_window-cons_before w e now log h = ground arith

-- A new entry keeps every window within the limit.
in_window-cons :
    (most w now : ℕ) (log : List ℕ)
    → valid_count w now log < most
    → ((e : ℕ) → in_window w e log ≤ most)
    → (e : ℕ) → in_window w e (now ∷ log) ≤ most
in_window-cons most w now log room fair e = elim (Bool-cases (ltb e now)) [
  | inl h ↦ rw (in_window-cons_before w e now log (ground arith)) (fair e)
  | inr h ↦ omega (
    arith,
    in_window-cons_le w e now log,
    in_window-le-valid_count w e now log (ground arith),
    room,
  )
]

valid_count-cons :
    (w later now : ℕ) (log : List ℕ)
    → valid_count w later (now ∷ log) ≡ valid_count w later log + valid_count w later (now ∷ [])
unfolding valid_count
valid_count-cons w later now log = ground arith

module _ {clock : ℕ} (who ip : String) (now : ℕ) (l : RateLimiter) (log : List ℕ)
    (v : IsValid clock l) (le : clock ≤ now)
    (a : Agrees l.max_requests (window l) clock log (timestamps who l)) where
  abbrev counted : Bool
  counted = (is_allowed ip now l).0 && str_eq ip who

  room_of_admission : counted ≡ true → valid_count (window l) now log < l.max_requests
  room_of_admission h =
      let (ok, here) = and_parts (is_allowed ip now l).0 (str_eq ip who) h in
      ground (arith, is_allowed-eq ip now l v le, eq_iff ip who, a.same now le, ok, here)

  log_counts :
      (later : ℕ)
      → now ≤ later
      → counted ≡ true
      → valid_count (window l) later (now ∷ log)
        ≡ valid_count (window l) later (timestamps who (is_allowed ip now l).1)
  log_counts later le' h =
      rw (valid_count-is_allowed ip now l v le later who le', h)
        (omega (arith, valid_count-cons (window l) later now log, a.same later (omega arith)))

  log_skips :
      (later : ℕ)
      → now ≤ later
      → counted ≡ false
      → valid_count (window l) later log
        ≡ valid_count (window l) later (timestamps who (is_allowed ip now l).1)
  log_skips later le' h =
      rw (valid_count-is_allowed ip now l v le later who le', h)
        (omega (arith, a.same later (omega arith)))

  Agrees-is_allowed :
      Agrees l.max_requests
        (window l)
        now
        (if counted then now ∷ log else log)
        (timestamps who (is_allowed ip now l).1)
  Agrees-is_allowed = elim (Bool-cases counted) [
    | inl h ↦ rw h (record {
      past = (omega arith, AtMost-later clock now log le a.past);
      same = λ later le'. log_counts later le' h;
      fair = in_window-cons l.max_requests (window l) now log (room_of_admission h) a.fair;
    })
    | inr h ↦ rw h (record {
      past = AtMost-later clock now log le a.past;
      same = λ later le'. log_skips later le' h;
      fair = a.fair;
    })
  ]

module _ (who : String) (most w : ℕ) where
  abbrev Keeps : ℕ → List ℕ → RateLimiter → Type 0
  Keeps clock log l =
      (l.max_requests ≡ most)
      × (window l ≡ w)
      × IsValid clock l
      × Agrees most w clock log (timestamps who l)

  Keeps-is_allowed :
      (ip : String) {clock : ℕ} (now : ℕ) (l : RateLimiter) (log : List ℕ)
      → clock ≤ now
      → Keeps clock log l
      → Keeps now
          (if (is_allowed ip now l).0 && str_eq ip who then now ∷ log else log)
          (is_allowed ip now l).1
  Keeps-is_allowed ip {clock} now l log le (same_most, same_window, v, a) = (
    max_requests-is_allowed ip now l ∙ same_most,
    window-is_allowed ip now l ∙ same_window,
    is_allowed-IsValid ip now l v le,
    subst₂
        (λ m u.
          Agrees m u now (if (is_allowed ip now l).0 && str_eq ip who then now ∷ log else log)
            (timestamps who (is_allowed ip now l).1))
        same_most same_window
        (Agrees-is_allowed who ip now l log v le (
          subst₂ (λ m u. Agrees m u clock log (timestamps who l)) (sym same_most) (sym same_window)
            a)),
  )

  admissions_fair :
      (l : RateLimiter) (calls : List (String × ℕ)) {clock : ℕ} (log : List ℕ)
      → Keeps clock log l
      → IsMonotone clock calls
      → (e : ℕ) → in_window w e (admissions who l calls log) ≤ most
  unfolding admissions
  admissions_fair l [] log k m e = k.3.fair e
  admissions_fair l ((ip, now) ∷ calls) log k m e =
      admissions_fair (is_allowed ip now l).1 calls _ (Keeps-is_allowed ip now l log m.0 k) m.1 e

-- From a new limiter, whatever the addresses and the order of the calls, under a clock that does
-- not run back: in no window of `window_seconds`, wherever it ends, are more than `max_requests`
-- requests of one address admitted.
pub admissions_limited :
    (max_requests window_seconds : ℕ) (who : String) (calls : List (String × ℕ))
    → IsMonotone 0 calls
    → (e : ℕ)
    → let l = init max_requests window_seconds in
      in_window (window l) e (admissions who l calls []) ≤ max_requests
unfolding in_window get
admissions_limited max_requests window_seconds who calls m e =
    let l = init max_requests window_seconds in
    admissions_fair who max_requests (window l) l calls []
      (
        refl,
        refl,
        λ ip. record { ascending = tt; past = tt; bounded = omega arith },
        record { past = tt; same = λ later h. refl; fair = λ e. omega arith },
      )
      m e
