-- ===== src/Notifications/Deliveries.antt =====
-- api/notifications/deliveries_repo.py: the operations of the `webhook_deliveries` table.
--
-- `fails` says that the statement raised `sqlite3.Error`: the transaction is rolled back.
use server_api.Prelude.{
  ℕ, zero, suc, ◌+◌, Bool, true, false, not, ◌&&◌, ◌||◌, Option, none, some, List, [], ◌∷◌, ◌++◌,
  map, String, ltb, leb, ◌==◌, if◌then◌else◌, max, take, select, update, count, any, find, mem,
  sort_by,
}
use server_api.Notifications.Model.{
  Status, pending, queued, in_flight, retrying, status_eq, Webhook, Delivery, Db, ClaimedDelivery,
  DispatchResult,
}

-- A foreign key that names no webhook is refused.
abbrev pub has_webhook : ℕ → Db → Bool
has_webhook webhook_id db = any (λ (w : Webhook). w.id == webhook_id) db.webhooks

abbrev pub append_delivery : Delivery → Db → Db
append_delivery d db = record db { deliveries = db.deliveries ++ d ∷ []; last_delivery_id = d.id }

-- `none` is `sqlite3.IntegrityError`.
unfoldable pub create_pending_delivery : ℕ → String → String → ℕ → Db → Option (ℕ × Db)
create_pending_delivery webhook_id event_type payload now db =
    let id = db.last_delivery_id + 1 in
    let row : Delivery = record {
      id = id;
      webhook_id = webhook_id;
      event_type = event_type;
      payload = payload;
      status = pending;
      response_status = none;
      response_body = none;
      error = none;
      attempted_at = now;
      duration_ms = 0;
      attempt = 1;
      next_attempt_at = none;
      enqueued_at = none;
    } in
    if has_webhook webhook_id db then some (id, append_delivery row db) else none

unfoldable pub enqueue_delivery : ℕ → String → String → ℕ → Db → Option (ℕ × Db)
enqueue_delivery webhook_id event_type payload now db =
    let id = db.last_delivery_id + 1 in
    let row : Delivery = record {
      id = id;
      webhook_id = webhook_id;
      event_type = event_type;
      payload = payload;
      status = queued;
      response_status = none;
      response_body = none;
      error = none;
      attempted_at = now;
      duration_ms = 0;
      attempt = 1;
      next_attempt_at = some now;
      enqueued_at = some now;
    } in
    if has_webhook webhook_id db then some (id, append_delivery row db) else none

abbrev pub has_id : ℕ → Delivery → Bool
has_id id d = d.id == id

unfoldable pub finalize_delivery : ℕ → DispatchResult → ℕ → List Delivery → List Delivery
finalize_delivery id outcome now = update (has_id id) (λ d. record d {
  status = outcome.status;
  response_status = outcome.response_status;
  response_body = outcome.response_body;
  error = outcome.error;
  duration_ms = outcome.duration_ms;
  attempted_at = now;
})

-- What the API shows of a row.
pub record DeliveryPublic : Type 0 where
  pub id : ℕ
  pub webhook_id : ℕ
  pub event_type : String
  pub status : Status
  pub response_status : Option ℕ
  pub response_body : Option String
  pub error : Option String
  pub attempted_at : ℕ
  pub duration_ms : ℕ

abbrev pub row_to_delivery : Delivery → DeliveryPublic
row_to_delivery d = record {
  id = d.id;
  webhook_id = d.webhook_id;
  event_type = d.event_type;
  status = d.status;
  response_status = d.response_status;
  response_body = d.response_body;
  error = d.error;
  attempted_at = d.attempted_at;
  duration_ms = d.duration_ms;
}

abbrev pub public_row : Option Delivery → Option DeliveryPublic
public_row none = none
public_row (some d) = some (row_to_delivery d)

unfoldable pub get_delivery : ℕ → List Delivery → Option DeliveryPublic
get_delivery id ds = public_row (find (has_id id) ds)

-- `status IN ('queued','retrying')`.
abbrev pub is_waiting : Status → Bool
is_waiting queued = true
is_waiting retrying = true
is_waiting _ = false

abbrev pub reached : Option ℕ → ℕ → Bool
reached none now = true
reached (some t) now = leb t now

-- A row of the `SELECT … JOIN`, and the key that it is ordered by.
pub record DueRow : Type 0 where
  pub claim : ClaimedDelivery
  pub next_attempt_at : Option ℕ

-- `attempt=int(r["attempt"] or 1)`.
abbrev pub attempt_or_one : ℕ → ℕ
attempt_or_one zero = 1
attempt_or_one (suc n) = suc n

abbrev pub joined : Delivery → Webhook → DueRow
joined d w = record {
  claim = record {
    id = d.id;
    webhook_id = d.webhook_id;
    event_type = d.event_type;
    payload = d.payload;
    attempt = attempt_or_one d.attempt;
    url = w.url;
    secret = w.secret;
  };
  next_attempt_at = d.next_attempt_at;
}

-- Due, as far as the delivery alone can tell.
abbrev pub is_due : ℕ → Delivery → Bool
is_due now d = is_waiting d.status && reached d.next_attempt_at now

-- The webhooks of the join that are active.
abbrev pub target : Delivery → Webhook → Bool
target d w = (w.id == d.webhook_id) && w.active

unfoldable pub due_rows : ℕ → List Webhook → List Delivery → List DueRow
due_rows now webhooks [] = []
due_rows now webhooks (d ∷ ds) =
    let rest = due_rows now webhooks ds in
    if is_due now d then map (joined d) (select (target d) webhooks) ++ rest else rest

-- NULL comes first in ascending order.
abbrev pub time_lt : Option ℕ → Option ℕ → Bool
time_lt none none = false
time_lt none (some t) = true
time_lt (some s) none = false
time_lt (some s) (some t) = ltb s t

-- `ORDER BY d.next_attempt_at ASC, d.id ASC`.
abbrev pub due_le : DueRow → DueRow → Bool
due_le a b =
    time_lt a.next_attempt_at b.next_attempt_at
    || not (time_lt b.next_attempt_at a.next_attempt_at) && leb a.claim.id b.claim.id

abbrev pub stamp : ℕ → Delivery → Delivery
stamp now d = record d { status = in_flight; attempted_at = now }

-- `WHERE id = ? AND status IN ('queued','retrying')`.
abbrev pub claimable : ℕ → Delivery → Bool
claimable id d = has_id id d && is_waiting d.status

-- The loop over the rows: one `UPDATE` each, and the row is claimed if it changed one.
unfoldable pub claim_rows : ℕ → List DueRow → List Delivery → List ClaimedDelivery × List Delivery
claim_rows now [] ds = ([], ds)
claim_rows now (r ∷ rs) ds =
    let changed = count (claimable r.claim.id) ds in
    let (claimed, ds') = claim_rows now rs (update (claimable r.claim.id) (stamp now) ds) in
    (if changed == 0 then claimed else r.claim ∷ claimed, ds')

unfoldable pub claim_due_deliveries :
    Bool → ℕ → ℕ → List Webhook → List Delivery → List ClaimedDelivery × List Delivery
unfolding due_rows claim_rows
claim_due_deliveries fails now limit webhooks ds =
    let rows = take (max 1 limit) (sort_by due_le (due_rows now webhooks ds)) in
    if fails then ([], ds) else claim_rows now rows ds

unfoldable pub record_attempt :
    ℕ → DispatchResult → Status → Option ℕ → ℕ → ℕ → List Delivery → List Delivery
record_attempt id outcome next_status next_attempt_at attempt now = update (has_id id) (λ d.
    record d {
      status = next_status;
      response_status = outcome.response_status;
      response_body = outcome.response_body;
      error = outcome.error;
      duration_ms = outcome.duration_ms;
      attempted_at = now;
      attempt = attempt;
      next_attempt_at = next_attempt_at;
    })

-- `status='in_flight' AND attempted_at <= now - older_than`.
abbrev pub is_stale : ℕ → ℕ → Delivery → Bool
is_stale older_than now d = status_eq d.status in_flight && leb (d.attempted_at + older_than) now

abbrev pub back_to_queue : ℕ → Delivery → Delivery
back_to_queue now d = record d { status = queued; next_attempt_at = some now }

unfoldable pub recover_stale_in_flight : Bool → ℕ → ℕ → List Delivery → ℕ × List Delivery
recover_stale_in_flight fails older_than now ds = if fails then (0, ds) else (
  count (is_stale older_than now) ds,
  update (is_stale older_than now) (back_to_queue now) ds,
)

abbrev pub is_held : List ℕ → Delivery → Bool
is_held ids d = status_eq d.status in_flight && mem d.id ids

unfoldable pub release_claims : Bool → List ℕ → List Delivery → ℕ × List Delivery
release_claims fails [] ds = (0, ds)
release_claims fails (i ∷ ids) ds = if fails then (0, ds) else (
  count (is_held (i ∷ ids)) ds,
  update (is_held (i ∷ ids)) (λ d. record d { status = queued }) ds,
)
