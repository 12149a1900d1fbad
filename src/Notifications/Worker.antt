-- ===== src/Notifications/Worker.antt =====
-- api/notifications/worker.py: one tick of the delivery worker.
--
-- What a tick meets outside its own code is an `Env`: at its i-th claim the shutdown flag, the
-- exchange with the receiver, two readings of the clock, the random draw, and whether the store's
-- statements raise.
pub mod Attempts
pub mod Flight
use server_api.Prelude.{
  ℕ, suc, ◌+◌, ◌*◌, Bool, false, ◌&&◌, Option, none, some, List, [], ◌∷◌, ltb, leb, if◌then◌else◌,
  max,
}
use server_api.Notifications.Model.{
  Status, success, failure, retrying, dead, status_eq, Webhook, Delivery, ClaimedDelivery,
  DispatchResult,
}
use server_api.Notifications.Backoff.{next_delay, microseconds}
use server_api.Notifications.Deliveries.{
  recover_stale_in_flight, claim_due_deliveries, release_claims, record_attempt,
}
use server_api.Notifications.Claims.{ids}
use server_api.Notifications.Dispatcher.{Exchange, Sent, returned, raised, send, failed_result}

pub record Env : Type 0 where
  pub shutdown : ℕ → Bool
  pub exchange : ℕ → ClaimedDelivery → Exchange
  pub random : ℕ → ℕ
  pub schedule_now : ℕ → ℕ
  pub record_now : ℕ → ℕ
  pub recover_fails : Bool
  pub claim_fails : Bool
  pub release_fails : Bool
  pub record_fails : ℕ → Bool

pub record Worker : Type 0 where
  pub batch_size : ℕ
  pub max_attempts : ℕ
  pub timeout : ℕ

-- `IN_FLIGHT_LEASE_SEC`.
abbrev pub lease : Worker → ℕ
lease w = max (60 * microseconds) (w.timeout * 4)

-- The `except` around the dispatcher: whatever it raises is a failure with no status.
abbrev result_or_failure : Sent → DispatchResult
result_or_failure (returned result) = result
result_or_failure (raised message) = failed_result message 0

unfoldable pub outcome_of : Exchange → DispatchResult
unfolding send
outcome_of exchange = result_or_failure (send exchange)

-- `rs is not None and 400 <= rs < 500`.
abbrev pub is_client_error : Option ℕ → Bool
is_client_error none = false
is_client_error (some rs) = leb 400 rs && ltb rs 500

-- The new status, time of the next attempt and attempt number that `_finalize` records.
pub record Verdict : Type 0 where
  pub status : Status
  pub next_attempt_at : Option ℕ
  pub attempt : ℕ

abbrev retry_or_dead : ℕ → ℕ → Option ℕ → Verdict
retry_or_dead attempt now none = record { status = dead; next_attempt_at = none; attempt = attempt }
retry_or_dead attempt now (some delay) = record {
  status = retrying;
  next_attempt_at = some (now + delay);
  attempt = attempt + 1;
}

unfoldable pub verdict : ℕ → ℕ → ℕ → ℕ → DispatchResult → Verdict
verdict max_attempts r now attempt outcome =
    if status_eq outcome.status success
    then record { status = success; next_attempt_at = none; attempt = attempt }
    else if is_client_error outcome.response_status
    then record { status = failure; next_attempt_at = none; attempt = attempt }
    else retry_or_dead attempt now (next_delay attempt max_attempts outcome.retry_after r)

unfoldable pub finalize : Worker → Env → ℕ → ClaimedDelivery → List Delivery → List Delivery
finalize w env i cd =
    let outcome = outcome_of (env.exchange i cd) in
    let v = verdict w.max_attempts (env.random i) (env.schedule_now i) cd.attempt outcome in
    record_attempt cd.id outcome v.status v.next_attempt_at v.attempt (env.record_now i)

-- The loop of `tick_once`: the number of finalized deliveries, or `none` if the store raised.
unfoldable pub process :
    Worker → Env → ℕ → List ClaimedDelivery → List Delivery → Option ℕ × List Delivery
process w env i [] ds = (some i, ds)
process w env i (cd ∷ rest) ds =
    let next = process w env (suc i) rest (finalize w env i cd ds) in
    if env.shutdown i
    then (some i, (release_claims env.release_fails (ids (cd ∷ rest)) ds).1)
    else if env.record_fails i
    then (none, ds)
    else next

unfoldable pub tick_once :
    Worker → Env → ℕ → List Webhook → List Delivery → Option ℕ × List Delivery
tick_once w env now webhooks ds =
    let recovered = (recover_stale_in_flight env.recover_fails (lease w) now ds).1 in
    let (claimed, taken) =
      claim_due_deliveries env.claim_fails now w.batch_size webhooks recovered in
    process w env 0 claimed taken
