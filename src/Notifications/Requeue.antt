-- ===== src/Notifications/Requeue.antt =====
-- api/notifications/deliveries_repo.py: requeueing failed deliveries, singly and in bulk, and the
-- queue counters.
pub mod Effective
pub mod Bulk
use server_api.Prelude.{
  ℕ, ◌+◌, ◌*◌, Bool, true, false, ◌&&◌, Option, none, some, List, [], ◌∷◌, ◌++◌, map, String, leb,
  ◌==◌, if◌then◌else◌, max, min, take, select, update, count, any, mem, sort_by, codes, strip,
  lower, codes_eq,
}
use server_api.Notifications.Model.{
  Status, queued, in_flight, retrying, success, failure, dead, status_eq, Delivery,
}
use server_api.Notifications.Deliveries.{has_id}

abbrev pub bulk_limit_max : ℕ
bulk_limit_max = 5000

-- `s2 in RETRYABLE_TERMINAL_STATUSES`, with the status that it names.
abbrev pub retryable_status : List ℕ → Option Status
retryable_status s =
    if codes_eq s (codes "dead")
    then some dead
    else if codes_eq s (codes "failure")
    then some failure
    else none

abbrev pub mem_status : Status → List Status → Bool
mem_status s [] = false
mem_status s (t ∷ ts) = let rest = mem_status s ts in if status_eq s t then true else rest

abbrev add_status : Option Status → List Status → List Status
add_status none out = out
add_status (some s) out = if mem_status s out then out else out ++ s ∷ []

-- `seen` of the source holds what `out` holds.
unfoldable pub effective_from : List Status → List String → List Status
effective_from out [] = out
effective_from out (s ∷ ss) =
    effective_from (add_status (retryable_status (lower (codes (strip s)))) out) ss

unfoldable pub effective_statuses : List String → List Status
unfolding effective_from
effective_statuses = effective_from []

abbrev pub of_webhook : Option ℕ → Delivery → Bool
of_webhook none d = true
of_webhook (some w) d = d.webhook_id == w

-- `WHERE status IN (…) AND webhook_id = ?`.
abbrev pub is_selected : List Status → Option ℕ → Delivery → Bool
is_selected statuses webhook_id d = mem_status d.status statuses && of_webhook webhook_id d

abbrev pub id_le : Delivery → Delivery → Bool
id_le a b = leb a.id b.id

abbrev pub bulk_limit : ℕ → ℕ
bulk_limit limit = max 1 (min limit bulk_limit_max)

-- The `SELECT` of the dry run: skipped if no status is left.
abbrev pub list_ids : List Status → Option ℕ → ℕ → List Delivery → List ℕ
list_ids [] webhook_id limit ds = []
list_ids (s ∷ ss) webhook_id limit ds =
    map (λ d. d.id)
      (take (bulk_limit limit) (sort_by id_le (select (is_selected (s ∷ ss) webhook_id) ds)))

unfoldable pub list_retryable_delivery_ids : List String → Option ℕ → ℕ → List Delivery → List ℕ
list_retryable_delivery_ids statuses webhook_id limit ds =
    list_ids (effective_statuses statuses) webhook_id limit ds

-- The `SELECT` inside the transaction of the requeue, which the source writes again.
abbrev pub requeue_ids : List Status → Option ℕ → ℕ → List Delivery → List ℕ
requeue_ids [] webhook_id limit ds = []
requeue_ids (s ∷ ss) webhook_id limit ds =
    let wanted = (λ (d : Delivery). mem_status d.status (s ∷ ss) && of_webhook webhook_id d) in
    map (λ d. d.id) (take (max 1 (min limit bulk_limit_max)) (sort_by id_le (select wanted ds)))

abbrev pub reset_row : ℕ → Delivery → Delivery
reset_row now d = record d {
  status = queued;
  attempt = 1;
  next_attempt_at = some now;
  response_status = none;
  response_body = none;
  error = none;
  duration_ms = 0;
}

unfoldable pub requeue_delivery : ℕ → ℕ → List Delivery → Bool × List Delivery
requeue_delivery id now ds =
    if any (has_id id) ds then (true, update (has_id id) (reset_row now) ds) else (false, ds)

-- With no id the `UPDATE` is skipped.
abbrev pub reset_ids : List ℕ → ℕ → List Delivery → List Delivery
reset_ids [] now ds = ds
reset_ids (i ∷ is) now ds = update (λ d. mem d.id (i ∷ is)) (reset_row now) ds

unfoldable pub requeue_deliveries :
    Bool → List String → Option ℕ → ℕ → ℕ → List Delivery → List ℕ × List Delivery
requeue_deliveries fails statuses webhook_id limit now ds =
    let ids = requeue_ids (effective_statuses statuses) webhook_id limit ds in
    if fails then ([], ds) else (ids, reset_ids ids now ds)

pub record QueueStats : Type 0 where
  pub queued_count : ℕ
  pub in_flight_count : ℕ
  pub retrying_count : ℕ
  pub success_24h : ℕ
  pub failure_24h : ℕ
  pub dead_count : ℕ

abbrev pub has_status : Status → Delivery → Bool
has_status s d = status_eq d.status s

-- `attempted_at >= cutoff`, the cutoff a day before now.
abbrev pub day : ℕ
day = 24 * 3600 * 1000000

abbrev pub in_last_day : ℕ → Status → Delivery → Bool
in_last_day now s d = leb now (d.attempted_at + day) && has_status s d

unfoldable pub queue_stats : ℕ → List Delivery → QueueStats
queue_stats now ds = record {
  queued_count = count (has_status queued) ds;
  in_flight_count = count (has_status in_flight) ds;
  retrying_count = count (has_status retrying) ds;
  success_24h = count (in_last_day now success) ds;
  failure_24h = count (in_last_day now failure) ds;
  dead_count = count (has_status dead) ds;
}
