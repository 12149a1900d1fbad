-- ===== src/Notifications/Tests.antt =====
-- The delivery pipeline on two webhooks and a few deliveries.
use server_api.Prelude.{
  ℕ, ◌≤◌, ◌≡◌, ◌≢◌, ◌⊎◌, refl, Bool, true, false, none, some, String, List, [], ◌∷◌, map, arith,
  length, update, mem, any, Memᴰ, All, is_blank, text_length, mem_text, ◌==◌, min, count, not, ◌&&◌,
  ◌||◌,
}
use server_api.Notifications.Model.{
  status_eq, Status, queued, in_flight, retrying, failure, dead, Webhook, Delivery, Db,
  DispatchResult,
}
use server_api.Notifications.Backoff.{next_delay, base_delay, IsDelay, next_delay_bounds}
use server_api.Notifications.Deliveries.{
  claim_due_deliveries, row_to_delivery, stamp, is_due, enqueue_delivery,
}
use server_api.Notifications.Claims.{
  ids, IsJoinOf, is_claimable_now, claim_due_deliveries_lem, claim_twice,
}
use server_api.Notifications.Dispatcher.{Exchange, Header, send, HasOutcome, send_outcome}
use server_api.Notifications.Worker.{Env, Worker, tick_once}
use server_api.Notifications.Worker.Flight.{untouched, tick_once_settles}
use server_api.Notifications.Worker.Attempts.{
  RowInBounds, InBounds, attempts, tick_once-InBounds, attempts_exhaust,
}
use server_api.Notifications.Requeue.{
  requeue_deliveries, list_retryable_delivery_ids, effective_statuses, reset_row,
}
use server_api.Notifications.Requeue.Bulk.{IsRetryable, is_asked, requeue_deliveries_lem}
use server_api.Notifications.Pages.{history}
use server_api.Notifications.Pages.Walk.{walk, walk-history}
use server_api.Notifications.Schemas.{
  UrlHost, Url, Flags, blocked_ip_reason, validate_webhook_url, validate_event_types,
}
use server_api.Notifications.Schemas.Urls.{IsGood, validate_webhook_url_lem}
use server_api.Notifications.Schemas.EventTypes.{
  AreDistinct, is_type, is_entry, validate_event_types_lem,
}
use server_api.Notifications.Webhooks.{WebhookCreate, create_webhook, list_records}
use server_api.Notifications.Webhooks.Linked.{IsLinked}
use server_api.Notifications.Webhooks.Reach.{Reachable, Step, empty_db, Reachable-IsLinked}
use server_api.Notifications.Events.{emit_async}
use server_api.Notifications.Events.Queued.{rows_for, with_rows, emit_async_lem}

abbrev hook : ℕ → Bool → Webhook
hook id active = record {
  id = id;
  url = "http://erp/hook";
  secret = "s";
  event_types = "production.record.created" ∷ [];
  description = "";
  active = active;
  created_at = 1;
  updated_at = 1;
}

abbrev row : ℕ → Status → Delivery
row id status = record {
  id = id;
  webhook_id = 1;
  event_type = "production.record.created";
  payload = "{}";
  status = status;
  response_status = none;
  response_body = none;
  error = none;
  attempted_at = 5;
  duration_ms = 0;
  attempt = 1;
  next_attempt_at = some 7;
  enqueued_at = some 5;
}

abbrev hooks : List Webhook
hooks = hook 1 true ∷ hook 2 false ∷ []

abbrev rows : List Delivery
rows = row 1 queued ∷ row 2 dead ∷ row 3 retrying ∷ row 4 failure ∷ []

abbrev table : Db
table = record { webhooks = hooks; deliveries = rows; last_webhook_id = 2; last_delivery_id = 4 }

second_delay : next_delay 2 6 none 500000 ≡ some 5000000
unfolding next_delay
second_delay = refl

next_delay_bounds_example : IsDelay 2 6 (base_delay 2 none) (next_delay 2 6 none 500000)
next_delay_bounds_example = next_delay_bounds 2 6 500000 none (omega arith)

first_delay : next_delay 1 6 none 500000 ≡ some 1000000
unfolding next_delay
first_delay = refl

claim_due_deliveries_lem_example :
    let (claims, ds') = claim_due_deliveries false 9 5 hooks rows in
    (length claims ≤ 5)
    × ((length claims == 0) ≡ not (any (is_claimable_now 9 hooks) rows))
    × All (IsJoinOf 9 hooks rows) claims
    × (ds'
        ≡ update
            (λ d.
              mem d.id (ids claims) && (status_eq d.status queued || status_eq d.status retrying))
            (stamp 9)
            rows)
claim_due_deliveries_lem_example = claim_due_deliveries_lem false 9 5 hooks rows

claim_twice_example :
    let (first, ds') = claim_due_deliveries false 9 1 hooks rows in
    All (λ c. mem c.id (ids first) ≡ false) (claim_due_deliveries false 10 5 hooks ds').0
claim_twice_example = claim_twice false false 9 10 1 5 hooks rows

abbrev answer : Exchange
answer =
    Exchange.response 503 ((98 ∷ 117 ∷ []) ∷ (115 ∷ 121 ∷ []) ∷ []) (λ bytes. "busy")
      (Header.number 30) 12

send_outcome_example : HasOutcome answer (send answer)
send_outcome_example = send_outcome answer

abbrev worker : Worker
worker = record { batch_size = 10; max_attempts = 6; timeout = 5000000 }

abbrev env : Env
env = record {
  shutdown = λ i. false;
  exchange = λ i cd. answer;
  random = λ i. 500000;
  schedule_now = λ i. 20;
  record_now = λ i. 21;
  recover_fails = false;
  claim_fails = false;
  release_fails = false;
  record_fails = λ i. false;
}

tick_once_settles_example :
    (n : ℕ) × ((tick_once worker env 9 hooks rows).0 ≡ some n)
    × (n ≤ 10)
    × All
        (λ d. (d.status ≢ in_flight) ⊎ Memᴰ d (untouched worker 9 rows))
        (tick_once worker env 9 hooks rows).1
tick_once_settles_example =
    tick_once_settles worker env 9 hooks rows
      (record { recovers = refl; releases = refl; records = λ i. refl })

tick_once-InBounds_example : All (RowInBounds 6) (tick_once worker env 9 hooks rows).1
tick_once-InBounds_example =
    let b : InBounds 6 1 = (omega arith, omega arith) in
    tick_once-InBounds worker env 9 hooks rows (b, (b, (b, (b, tt))))

abbrev busy : DispatchResult
busy = record {
  status = failure;
  response_status = some 503;
  response_body = none;
  error = none;
  duration_ms = 12;
  retry_after = none;
}

attempts_exhaust_example :
    let v = attempts 3 9 (λ a. 500000) (busy ∷ busy ∷ busy ∷ []) 1 in
    (v.status ≡ dead) × (v.attempt ≡ 3)
attempts_exhaust_example =
    attempts_exhaust 3 9 (λ a. 500000) (busy ∷ busy ∷ busy ∷ []) 1
      ((refl, refl), ((refl, refl), ((refl, refl), tt))) (omega arith)

abbrev asked : List String
asked = " DEAD " ∷ "queued" ∷ "dead" ∷ []

-- The request asks for dead rows only.
effective_asked : effective_statuses asked ≡ dead ∷ []
unfolding effective_statuses
effective_asked = refl

requeue_deliveries_lem_example :
    let (ids, ds') = requeue_deliveries false asked none 5 9 rows in
    (ids ≡ list_retryable_delivery_ids asked none 5 rows)
    × All (IsRetryable asked none rows) ids
    × (length ids ≡ min 5 (count (is_asked asked none) rows))
    × (ds' ≡ update (λ d. mem d.id ids) (reset_row 9) rows)
requeue_deliveries_lem_example = requeue_deliveries_lem false asked none 5 9 rows

walk-history_example : walk 1 1 none rows 5 none ≡ map row_to_delivery (history 1 none none rows)
walk-history_example =
    walk-history 1 1 none rows 5 none (refl, (refl, (refl, (refl, tt)))) (omega arith)

abbrev plain : Flags
plain = record {
  is_loopback = false;
  is_unspecified = false;
  is_link_local = false;
  is_multicast = false;
  is_reserved = false;
  is_private = true;
}

abbrev parsed_url : Url
parsed_url = record { scheme = "http"; netloc = "10.0.0.5"; hostname = some "10.0.0.5" }

abbrev host : UrlHost
host = record {
  urlparse = λ url. some parsed_url;
  ip_address = λ name. some (record { flags = plain; ipv4_mapped = none });
  to_lower = λ s. s;
  block_private_ips = "0";
  blocked_hosts = "";
}

abbrev private_url : String
private_url = "http://10.0.0.5"

accepts_private : validate_webhook_url host private_url ≡ some private_url
unfolding validate_webhook_url blocked_ip_reason
accepts_private = refl

validate_webhook_url_lem_example :
    (is_blank private_url ≡ false)
    × (text_length private_url ≤ 2048)
    × (private_url ≡ private_url)
    × IsGood host (some parsed_url)
validate_webhook_url_lem_example =
    validate_webhook_url_lem host private_url private_url accepts_private

keeps_one : validate_event_types (" a " ∷ "" ∷ "a" ∷ []) ≡ some ("a" ∷ [])
unfolding validate_event_types
keeps_one = refl

validate_event_types_lem_example :
    (1 ≤ 64)
    × AreDistinct ("a" ∷ [])
    × All (λ t. is_type t ≡ true) ("a" ∷ [])
    × (mem_text "a" ("a" ∷ []) ≡ any (is_entry "a") (" a " ∷ "" ∷ "a" ∷ []))
validate_event_types_lem_example =
    validate_event_types_lem (" a " ∷ "" ∷ "a" ∷ []) ("a" ∷ []) "a" keeps_one

abbrev request : WebhookCreate
request = record { url = private_url; event_types = "a" ∷ []; description = ""; active = true }

abbrev first_hook : Webhook
first_hook = record (hook 1 true) {
  url = private_url;
  event_types = "a" ∷ [];
  created_at = 3;
  updated_at = 3;
}

abbrev one_hook : Db
one_hook = record empty_db { webhooks = first_hook ∷ []; last_webhook_id = 1 }

creates_first : create_webhook host request "s" 3 empty_db ≡ some (first_hook, one_hook)
unfolding create_webhook validate_webhook_url blocked_ip_reason validate_event_types
creates_first = refl

abbrev one_row : Db
one_row = record one_hook {
  deliveries =
      record (row 1 queued) {
        event_type = "a";
        attempted_at = 4;
        next_attempt_at = some 4;
        enqueued_at = some 4;
      }
      ∷ [];
  last_delivery_id = 1;
}

queues_first : enqueue_delivery 1 "a" "{}" 4 one_hook ≡ some (1, one_row)
unfolding enqueue_delivery
queues_first = refl

Reachable-IsLinked_example :
    IsLinked (record one_row {
      deliveries = (tick_once worker env 9 one_row.webhooks one_row.deliveries).1;
    })
Reachable-IsLinked_example = Reachable-IsLinked (
    Reachable.next
      (Reachable.next
        (Reachable.next Reachable.start (Step.created host request "s" 3 creates_first))
        (Step.enqueued 1 "a" "{}" 4 queues_first))
      (Step.ticked worker env 9))

emit_async_lem_example :
    let new =
      rows_for (λ w. false) "production.record.created" "{}" 9 4 (list_records true table) in
    (emit_async (λ w. false) "production.record.created" "{}" 9 table
      ≡ (map row_to_delivery new, with_rows table new))
    × All (λ d. is_due 9 d ≡ true) new
emit_async_lem_example =
    emit_async_lem (λ w. false) "production.record.created" "{}" 9 table
      (omega arith, (omega arith, (omega arith, (omega arith, tt))))
