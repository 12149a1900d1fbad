-- ===== src/Notifications/Backoff.antt =====
-- api/notifications/backoff.py: the delay before the next attempt.
--
-- A delay is a number of microseconds. `random_fn()` is given as `r` parts of `random_unit`, so
-- the factor `1 + (r - 0.5) * 0.4` is `(4 * random_unit + 2 * r) / (5 * random_unit)`, and the
-- product is rounded as `timedelta` does it: to the nearest microsecond, halfway to the even one.
use Prim.Native.Nat.{ℕ, zero, suc}
use server_api.Prelude.{
  ◌+◌, ◌-◌, ◌*◌, ◌/◌, ◌%◌, ◌≤◌, ◌<◌, ◌≡◌, ◌⊎◌, Option, none, some, List, [], ◌∷◌, arith, leb, ltb,
  leb→le, Bool-cases, inl, inr, if◌then◌else◌, max, min, length,
}

abbrev pub microseconds : ℕ
microseconds = 1000000

abbrev pub base_delays : List ℕ
base_delays = 1 ∷ 5 ∷ 25 ∷ 125 ∷ 625 ∷ []

abbrev pub max_backoff : ℕ
max_backoff = 3600 * microseconds

-- `random_fn()` lies in [0, 1), in parts of this unit.
abbrev pub random_unit : ℕ
random_unit = 1000000

-- `_BASE_DELAYS[idx]`; the index is always in range.
abbrev pub at_index : List ℕ → ℕ → ℕ
at_index [] i = 0
at_index (x ∷ xs) zero = x
at_index (x ∷ xs) (suc i) = at_index xs i

unfoldable pub scheduled : ℕ → ℕ
scheduled attempt =
    at_index base_delays (min (max (attempt - 1) 0) (length base_delays - 1)) * microseconds

-- `retry_after_sec` counts when it is given and positive.
unfoldable pub base_delay : ℕ → Option ℕ → ℕ
unfolding scheduled
base_delay attempt none = scheduled attempt
base_delay attempt (some retry_after) =
    if ltb 0 retry_after then min retry_after max_backoff else scheduled attempt

-- The nearest to `n / 5000000`, the denominator of the factor.
abbrev rounded : ℕ → ℕ
rounded n =
    let q = n / 5000000 in
    let m = n % 5000000 in if ltb m 2500000 then q else if ltb 2500000 m then q + 1 else q + q % 2

unfoldable pub with_jitter : ℕ → ℕ → ℕ
with_jitter base r = rounded (base * (4 * random_unit + 2 * r))

unfoldable pub next_delay : ℕ → ℕ → Option ℕ → ℕ → Option ℕ
unfolding base_delay with_jitter
next_delay attempt max_attempts retry_after r =
    if leb max_attempts attempt
    then none
    else some (max 0 (min (with_jitter (base_delay attempt retry_after) r) max_backoff))

-- `lambda: 0.5` makes the jitter zero.
pub with_jitter_half : (base : ℕ) → with_jitter base 500000 ≡ base
unfolding with_jitter
with_jitter_half base = ground arith

with_jitter_bounds :
    (base r : ℕ)
    → r < random_unit
    → (base * 4 / 5 ≤ with_jitter base r) × (with_jitter base r * 5 ≤ base * 6 + 2)
unfolding with_jitter
with_jitter_bounds base r h =
    let most : base * r ≤ base * random_unit = grind arith in
    (ground (arith, most), ground (arith, most))

rounded_mono : (m n : ℕ) → m ≤ n → rounded m ≤ rounded n
rounded_mono m n h = ground arith

with_jitter_mono : (a b r : ℕ) → a ≤ b → with_jitter a r ≤ with_jitter b r
unfolding with_jitter
with_jitter_mono a b r h =
    let part : a * r ≤ b * r = grind arith in
    rounded_mono (a * (4 * random_unit + 2 * r)) (b * (4 * random_unit + 2 * r))
      (omega (arith, part))

-- The five entries, by their index.
at_index_values :
    (i : ℕ)
    → i ≤ 4
    → ((i ≡ 0) × (at_index base_delays i ≡ 1))
      ⊎ ((i ≡ 1) × (at_index base_delays i ≡ 5))
      ⊎ ((i ≡ 2) × (at_index base_delays i ≡ 25))
      ⊎ ((i ≡ 3) × (at_index base_delays i ≡ 125))
      ⊎ ((i ≡ 4) × (at_index base_delays i ≡ 625))
at_index_values zero h = omega arith
at_index_values (suc zero) h = omega arith
at_index_values (suc (suc zero)) h = omega arith
at_index_values (suc (suc (suc zero))) h = omega arith
at_index_values (suc (suc (suc (suc zero)))) h = omega arith
at_index_values (suc (suc (suc (suc (suc i))))) h = absurd (omega arith)

abbrev index : ℕ → ℕ
index attempt = min (max (attempt - 1) 0) 4

pub base_delay-le-max_backoff :
    (attempt : ℕ) (retry_after : Option ℕ) → base_delay attempt retry_after ≤ max_backoff
unfolding base_delay
base_delay-le-max_backoff attempt retry_after = ground (arith, at_index_values (index attempt))

scheduled_mono : (a b : ℕ) → a ≤ b → scheduled a ≤ scheduled b
unfolding scheduled
scheduled_mono a b h =
    omega (arith, at_index_values (index a) (omega arith), at_index_values (index b) (omega arith))

-- The promise for the next attempt: none only if the attempts are used up, a delay only if one is
-- left and the delay is right.
abbrev pub IsDelay : ℕ → ℕ → ℕ → Option ℕ → Type 0
IsDelay attempt max_attempts base none = max_attempts ≤ attempt
IsDelay attempt max_attempts base (some delay) =
    (attempt < max_attempts)
    × (delay ≤ max_backoff)
    × (base * 4 / 5 ≤ delay)
    × (delay * 5 ≤ base * 6 + 2)

-- A delay is given if attempts are left, and only then; it is within a fifth of the base delay, apart
-- from rounding to the microsecond, and never above the hour.
pub next_delay_bounds :
    (attempt max_attempts r : ℕ) (retry_after : Option ℕ)
    → r < random_unit
    → IsDelay attempt max_attempts
        (base_delay attempt retry_after)
        (next_delay attempt max_attempts retry_after r)
unfolding next_delay
next_delay_bounds attempt max_attempts r retry_after h =
    elim (Bool-cases (leb max_attempts attempt)) [
      | inl e ↦ rw e (leb→le max_attempts attempt e)
      | inr e ↦ rw e (
          ground (
            arith,
            with_jitter_bounds (base_delay attempt retry_after) r,
            base_delay-le-max_backoff attempt retry_after,
          ))
    ]

-- Without a `Retry-After`, under one random draw, a later attempt waits no less.
pub next_delay_mono :
    (a b max_attempts r s t : ℕ)
    → a ≤ b
    → next_delay a max_attempts none r ≡ some s
    → next_delay b max_attempts none r ≡ some t
    → s ≤ t
unfolding next_delay
next_delay_mono a b max_attempts r s t le p q =
    ground (arith, with_jitter_mono (scheduled a) (scheduled b) r, scheduled_mono a b le)

-- Whether a further attempt is made depends on the number of attempts alone.
pub next_delay-cases :
    (attempt max_attempts : ℕ) (retry_after : Option ℕ) (r : ℕ)
    → ((max_attempts ≤ attempt) × (next_delay attempt max_attempts retry_after r ≡ none))
      ⊎ ((delay : ℕ) × (attempt < max_attempts)
          × (next_delay attempt max_attempts retry_after r ≡ some delay))
unfolding next_delay
next_delay-cases attempt max_attempts retry_after r = elim (Bool-cases (leb max_attempts attempt)) [
  | inl e ↦ inl (leb→le _ _ e, rw e)
  | inr e ↦ inr (
    max 0 (min (with_jitter (base_delay attempt retry_after) r) max_backoff),
    ground (arith, e),
    rw e,
  )
]
