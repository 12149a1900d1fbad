-- ===== src/Notifications/Model.antt =====
-- The rows of notifications.db and of the values that the worker hands around: the two tables of
-- api/notifications/_store_connection.py, `ClaimedDelivery` and `DispatchResult`.
--
-- A timestamp is a number of microseconds: ISO-8601 texts of one time zone compare as the
-- instants do. A payload mapping stands as its JSON text.
use server_api.Prelude.{ℕ, Bool, true, false, Option, List, String}

pub data Status : Type 0 where
  pending queued in_flight retrying success failure dead skipped : Status

abbrev pub status_eq : Status → Status → Bool
status_eq pending pending = true
status_eq queued queued = true
status_eq in_flight in_flight = true
status_eq retrying retrying = true
status_eq success success = true
status_eq failure failure = true
status_eq dead dead = true
status_eq skipped skipped = true
status_eq _ _ = false

pub record Webhook : Type 0 where
  pub id : ℕ
  pub url : String
  pub secret : String
  pub event_types : List String
  pub description : String
  pub active : Bool
  pub created_at : ℕ
  pub updated_at : ℕ

pub record Delivery : Type 0 where
  pub id : ℕ
  pub webhook_id : ℕ
  pub event_type : String
  pub payload : String
  pub status : Status
  pub response_status : Option ℕ
  pub response_body : Option String
  pub error : Option String
  pub attempted_at : ℕ
  pub duration_ms : ℕ
  pub attempt : ℕ
  pub next_attempt_at : Option ℕ
  pub enqueued_at : Option ℕ

-- `AUTOINCREMENT` keeps the last id that each table has given out.
pub record Db : Type 0 where
  pub webhooks : List Webhook
  pub deliveries : List Delivery
  pub last_webhook_id : ℕ
  pub last_delivery_id : ℕ

pub record ClaimedDelivery : Type 0 where
  pub id : ℕ
  pub webhook_id : ℕ
  pub event_type : String
  pub payload : String
  pub attempt : ℕ
  pub url : String
  pub secret : String

pub record DispatchResult : Type 0 where
  pub status : Status
  pub response_status : Option ℕ
  pub response_body : Option String
  pub error : Option String
  pub duration_ms : ℕ
  pub retry_after : Option ℕ
