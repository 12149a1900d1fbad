-- ===== src/Notifications/Worker/Attempts.antt =====
-- How many attempts a delivery of api/notifications/worker.py can have.
use server_api.Prelude.{
  ℕ, zero, suc, ◌+◌, ◌≤◌, ◌<◌, ◌≡◌, ◌⊎◌, inl, inr, sym, Bool, true, false, none, List, [], ◌∷◌,
  arith, leb, if◌then◌else◌, update, All, All_at, All-weaken, Bool-cases, length, min,
}
use mathlib.Core.Path.{subst}
use server_api.Notifications.Model.{
  retrying, dead, success, status_eq, Webhook, Delivery, ClaimedDelivery, DispatchResult,
}
use server_api.Notifications.Backoff.{next_delay-cases}
use server_api.Notifications.Deliveries.{
  has_id, is_stale, back_to_queue, is_held, stamp, recover_stale_in_flight, release_claims,
  record_attempt, claim_due_deliveries, attempt_or_one,
}
use server_api.Notifications.Claims.{ids, is_taken, IsDueClaim, claim-update, claim-IsDueClaim}
use server_api.Notifications.Worker.{
  Env, Worker, lease, verdict, Verdict, is_client_error, finalize, process, tick_once, outcome_of,
}

abbrev pub InBounds : ℕ → ℕ → Type 0
InBounds most n = (1 ≤ n) × (n ≤ most)

verdict-InBounds :
    (most r now attempt : ℕ) (outcome : DispatchResult)
    → InBounds most attempt
    → InBounds most (verdict most r now attempt outcome).attempt
unfolding verdict
verdict-InBounds most r now attempt outcome h =
    elim (next_delay-cases attempt most outcome.retry_after r) [
      | inl (out, e) ↦ rw e (ground arith)
      | inr (delay, left, e) ↦ rw e (ground arith)
    ]

abbrev pub RowInBounds : ℕ → Delivery → Type 0
RowInBounds most d = InBounds most d.attempt

-- An update that leaves the attempt alone, or sets one in bounds.
attempt_or_one-InBounds : (most n : ℕ) → InBounds most n → InBounds most (attempt_or_one n)
attempt_or_one-InBounds most zero h = absurd (omega arith)
attempt_or_one-InBounds most (suc n) h = h

update-InBounds :
    (most : ℕ) (p : Delivery → Bool) (f : Delivery → Delivery) (ds : List Delivery)
    → ((d : Delivery) → RowInBounds most d → RowInBounds most (f d))
    → All (RowInBounds most) ds
    → All (RowInBounds most) (update p f ds)
update-InBounds most p f [] keep h = tt
update-InBounds most p f (d ∷ ds) keep h = (here (p d), update-InBounds most p f ds keep h.1)
  where
    here : (b : Bool) → RowInBounds most (if b then f d else d)
    here true = keep d h.0
    here false = h.0

finalize-InBounds :
    (w : Worker) (env : Env) (i : ℕ) (cd : ClaimedDelivery) (ds : List Delivery)
    → InBounds w.max_attempts cd.attempt
    → All (RowInBounds w.max_attempts) ds
    → All (RowInBounds w.max_attempts) (finalize w env i cd ds)
unfolding finalize record_attempt
finalize-InBounds w env i cd ds c h =
    let new =
      verdict-InBounds w.max_attempts (env.random i) (env.schedule_now i) cd.attempt
        (outcome_of (env.exchange i cd)) c in
    update-InBounds w.max_attempts (has_id cd.id) _ ds (λ d _. new) h

release-InBounds :
    (most : ℕ) (fails : Bool) (taken : List ℕ) (ds : List Delivery)
    → All (RowInBounds most) ds
    → All (RowInBounds most) (release_claims fails taken ds).1
unfolding release_claims
release-InBounds most fails [] ds h = h
release-InBounds most true (i ∷ taken) ds h = h
release-InBounds most false (i ∷ taken) ds h =
    update-InBounds most (is_held (i ∷ taken)) _ ds (λ d k. k) h

recover-InBounds :
    (most : ℕ) (fails : Bool) (older_than now : ℕ) (ds : List Delivery)
    → All (RowInBounds most) ds
    → All (RowInBounds most) (recover_stale_in_flight fails older_than now ds).1
unfolding recover_stale_in_flight
recover-InBounds most true older_than now ds h = h
recover-InBounds most false older_than now ds h =
    update-InBounds most (is_stale older_than now) (back_to_queue now) ds (λ d k. k) h

process-InBounds :
    (w : Worker) (env : Env) (i : ℕ) (claimed : List ClaimedDelivery) (ds : List Delivery)
    → All (λ c. InBounds w.max_attempts c.attempt) claimed
    → All (RowInBounds w.max_attempts) ds
    → All (RowInBounds w.max_attempts) (process w env i claimed ds).1
unfolding process
process-InBounds w env i [] ds c h = h
process-InBounds w env i (cd ∷ rest) ds c h = elim (Bool-cases (env.shutdown i)) [
  | inl e ↦ rw e (release-InBounds w.max_attempts env.release_fails (ids (cd ∷ rest)) ds h)
  | inr e ↦ elim (Bool-cases (env.record_fails i)) [
    | inl f ↦ rw (e, f) h
    | inr f ↦
        rw (e, f)
          (process-InBounds w env (suc i) rest (finalize w env i cd ds) c.1
            (finalize-InBounds w env i cd ds c.0 h))
  ]
]

claim-InBounds :
    (most : ℕ) (fails : Bool) (now limit : ℕ) (webhooks : List Webhook) (ds : List Delivery)
    → All (RowInBounds most) ds
    → let (claimed, ds') = claim_due_deliveries fails now limit webhooks ds in
      All (λ c. InBounds most c.attempt) claimed × All (RowInBounds most) ds'
claim-InBounds most fails now limit webhooks ds h =
    let (claimed, ds') = claim_due_deliveries fails now limit webhooks ds in
    (
      All-weaken (IsDueClaim now webhooks ds) (λ c. InBounds most c.attempt) claimed
          (λ c d.
            rw d.same
              (attempt_or_one-InBounds most d.row.attempt (All_at (RowInBounds most) d.stored h)))
          (claim-IsDueClaim fails now limit webhooks ds),
      subst (All (RowInBounds most)) (sym (claim-update fails now limit webhooks ds))
          (update-InBounds most (is_taken (ids claimed)) (stamp now) ds (λ d k. k) h),
    )

-- A tick keeps the attempt of every delivery between 1 and `max_attempts`, whatever the receivers
-- answer and whatever fails.
pub tick_once-InBounds :
    (w : Worker) (env : Env) (now : ℕ) (webhooks : List Webhook) (ds : List Delivery)
    → All (RowInBounds w.max_attempts) ds
    → All (RowInBounds w.max_attempts) (tick_once w env now webhooks ds).1
unfolding tick_once
tick_once-InBounds w env now webhooks ds h =
    let recovered = (recover_stale_in_flight env.recover_fails (lease w) now ds).1 in
    let (claimed, taken) =
      claim_due_deliveries env.claim_fails now w.batch_size webhooks recovered in
    let (claims, rows) =
      claim-InBounds w.max_attempts env.claim_fails now w.batch_size webhooks recovered
        (recover-InBounds w.max_attempts env.recover_fails (lease w) now ds h) in
    process-InBounds w env 0 claimed taken claims rows

-- A sequence of outcomes of one delivery, for as long as it is retried: the last verdict.
pub attempts : ℕ → ℕ → (ℕ → ℕ) → List DispatchResult → ℕ → Verdict
attempts most now random [] attempt = record {
  status = retrying;
  next_attempt_at = none;
  attempt = attempt;
}
attempts most now random (outcome ∷ outcomes) attempt =
    let v = verdict most (random attempt) now attempt outcome in
    let rest = attempts most now random outcomes v.attempt in
    if status_eq v.status retrying then rest else v

-- Neither delivered nor refused for good.
abbrev pub IsRetryable : DispatchResult → Type 0
IsRetryable outcome =
    (status_eq outcome.status success ≡ false) × (is_client_error outcome.response_status ≡ false)

verdict-retryable :
    (most r now attempt : ℕ) (outcome : DispatchResult)
    → IsRetryable outcome
    → ((attempt < most)
        × ((verdict most r now attempt outcome).status ≡ retrying)
        × ((verdict most r now attempt outcome).attempt ≡ attempt + 1))
      ⊎ ((most ≤ attempt)
          × ((verdict most r now attempt outcome).status ≡ dead)
          × ((verdict most r now attempt outcome).attempt ≡ attempt))
unfolding verdict
verdict-retryable most r now attempt outcome h =
    elim (next_delay-cases attempt most outcome.retry_after r) [
      | inl (out, e) ↦ inr (out, rw (h.0, h.1, e), rw (h.0, h.1, e))
      | inr (delay, left, e) ↦ inl (left, rw (h.0, h.1, e), rw (h.0, h.1, e))
    ]

-- A delivery whose every attempt fails in a way that may be retried is retried until it has had
-- `most` attempts, counted from the present one, and is dead from then on.
pub attempts_exhaust :
    (most now : ℕ) (random : ℕ → ℕ) (outcomes : List DispatchResult) (attempt : ℕ)
    → All IsRetryable outcomes
    → attempt ≤ most
    → let v = attempts most now random outcomes attempt in
      (v.status ≡ (if leb (attempt + length outcomes) most then retrying else dead))
      × (v.attempt ≡ min (attempt + length outcomes) most)
unfolding attempts
attempts_exhaust most now random [] attempt h le = (ground arith, omega arith)
attempts_exhaust most now random (outcome ∷ outcomes) attempt h le =
    elim (verdict-retryable most (random attempt) now attempt outcome h.0) [
      | inl (left, s, a) ↦
          let (ihs, iha) =
            attempts_exhaust most now random outcomes (attempt + 1) h.1 (omega arith) in
          rw (s, a) (ground (arith, ihs), omega (arith, iha))
      | inr (out, s, a) ↦ rw (s, a) (ground arith, omega arith)
    ]
