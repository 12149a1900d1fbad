-- ===== src/RateLimiter/Window.antt =====
-- One deque of shared/rate_limiter.py: stamps in ascending order, none later than the clock.
use server_api.Prelude.{
  ℕ, ◌+◌, ◌≤◌, ◌≡◌, refl, sym, ap, Bool, true, false, not, List, [], ◌∷◌, ◌++◌, arith, inl, inr,
  Bool-cases, length, select, All, count-select,
}
use server_api.RateLimiter.{is_expired, drop_expired, valid_count, is_idle}

abbrev pub IsAscending : List ℕ → Type 0
IsAscending [] = Unit
IsAscending (t ∷ ts) = All (λ u. t ≤ u) ts × IsAscending ts

abbrev pub AtMost : ℕ → List ℕ → Type 0
AtMost now = All (λ t. t ≤ now)

abbrev pub is_current : ℕ → ℕ → ℕ → Bool
is_current w now t = not (is_expired w now t)

-- Behind a stamp that is current, all are.
select-current :
    (w now t : ℕ) (ts : List ℕ)
    → is_expired w now t ≡ false
    → All (λ u. t ≤ u) ts
    → select (is_current w now) ts ≡ ts
select-current w now t [] e h = refl
select-current w now t (u ∷ ts) e h = ground (arith, select-current w now t ts)

-- The `popleft` loop keeps exactly the stamps inside the window.
pub drop_expired-select :
    (w now : ℕ) (ts : List ℕ)
    → IsAscending ts
    → drop_expired w now ts ≡ select (is_current w now) ts
unfolding drop_expired
drop_expired-select w now [] h = refl
drop_expired-select w now (t ∷ ts) h = elim (Bool-cases (is_expired w now t)) [
  | inl e ↦ rw e (drop_expired-select w now ts h.1)
  | inr e ↦ rw e (ap (◌∷◌ t) (sym (select-current w now t ts e h.0)))
]

pub length-drop_expired :
    (w now : ℕ) (ts : List ℕ)
    → IsAscending ts
    → length (drop_expired w now ts) ≡ valid_count w now ts
unfolding valid_count
length-drop_expired w now ts h =
    rw (drop_expired-select w now ts h) (count-select (is_current w now) ts)

-- What has expired stays expired, so a later count does not see the loop.
pub valid_count-drop_expired :
    (w now later : ℕ) (ts : List ℕ)
    → now ≤ later
    → valid_count w later (drop_expired w now ts) ≡ valid_count w later ts
unfolding valid_count drop_expired
valid_count-drop_expired w now later [] h = refl
valid_count-drop_expired w now later (t ∷ ts) h =
    ground (arith, valid_count-drop_expired w now later ts)

pub valid_count-append :
    (w now : ℕ) (ts us : List ℕ)
    → valid_count w now (ts ++ us) ≡ valid_count w now ts + valid_count w now us
unfolding valid_count
valid_count-append w now [] us = omega arith
valid_count-append w now (t ∷ ts) us = ground (arith, valid_count-append w now ts us)

pub valid_count-le-length : (w now : ℕ) (ts : List ℕ) → valid_count w now ts ≤ length ts
unfolding valid_count
valid_count-le-length w now [] = omega arith
valid_count-le-length w now (t ∷ ts) = ground (arith, valid_count-le-length w now ts)

pub All-drop_expired :
    (P : ℕ → Type 0) (w now : ℕ) (ts : List ℕ) → All P ts → All P (drop_expired w now ts)
unfolding drop_expired
All-drop_expired P w now [] h = tt
All-drop_expired P w now (t ∷ ts) h = elim (Bool-cases (is_expired w now t)) [
  | inl e ↦ rw e (All-drop_expired P w now ts h.1)
  | inr e ↦ rw e h
]

pub drop_expired-IsAscending :
    (w now : ℕ) (ts : List ℕ) → IsAscending ts → IsAscending (drop_expired w now ts)
unfolding drop_expired
drop_expired-IsAscending w now [] h = tt
drop_expired-IsAscending w now (t ∷ ts) h = elim (Bool-cases (is_expired w now t)) [
  | inl e ↦ rw e (drop_expired-IsAscending w now ts h.1)
  | inr e ↦ rw e h
]

All-snoc : (P : ℕ → Type 0) (ts : List ℕ) (now : ℕ) → All P ts → P now → All P (ts ++ now ∷ [])
All-snoc P [] now h p = (p, tt)
All-snoc P (t ∷ ts) now h p = (h.0, All-snoc P ts now h.1 p)

-- A stamp of the present goes to the right end.
pub append-IsAscending :
    (ts : List ℕ) (now : ℕ) → IsAscending ts → AtMost now ts → IsAscending (ts ++ now ∷ [])
append-IsAscending [] now h m = (tt, tt)
append-IsAscending (t ∷ ts) now h m =
    (All-snoc (λ u. t ≤ u) ts now h.0 m.0, append-IsAscending ts now h.1 m.1)

pub append-AtMost : (ts : List ℕ) (now : ℕ) → AtMost now ts → AtMost now (ts ++ now ∷ [])
append-AtMost ts now m = All-snoc (λ t. t ≤ now) ts now m (omega arith)

pub AtMost-later : (now later : ℕ) (ts : List ℕ) → now ≤ later → AtMost now ts → AtMost later ts
AtMost-later now later [] h m = tt
AtMost-later now later (t ∷ ts) h m = (omega arith, AtMost-later now later ts h m.1)

-- On an ascending deque the newest stamp speaks for all.
pub valid_count_of_is_idle :
    (w now later : ℕ) (ts : List ℕ)
    → IsAscending ts
    → now ≤ later
    → is_idle w now ts ≡ true
    → valid_count w later ts ≡ 0
unfolding valid_count is_idle
valid_count_of_is_idle w now later [] a h e = refl
valid_count_of_is_idle w now later (t ∷ []) a h e = ground arith
valid_count_of_is_idle w now later (t ∷ u ∷ ts) a h e =
    let ih = valid_count_of_is_idle w now later (u ∷ ts) a.1 h e in ground (arith, ih)
