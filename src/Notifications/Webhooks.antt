-- ===== src/Notifications/Webhooks.antt =====
-- api/notifications/webhooks_repo.py: the operations of the `webhooks` table.
--
-- The fresh secret and the time are arguments.
pub mod Linked
pub mod Kept
pub mod Reach
use server_api.Prelude.{
  ℕ, ◌+◌, Bool, true, false, not, ◌||◌, Option, none, some, List, [], ◌∷◌, ◌++◌, String, leb, ◌==◌,
  if◌then◌else◌, select, update, any, find, sort_by,
}
use server_api.Notifications.Model.{Webhook, Delivery, Db}
use server_api.Notifications.Schemas.{UrlHost, validate_webhook_url, validate_event_types}

pub record WebhookCreate : Type 0 where
  pub url : String
  pub event_types : List String
  pub description : String
  pub active : Bool

-- `None` leaves a field as it is.
pub record WebhookUpdate : Type 0 where
  pub event_types : Option (List String)
  pub description : Option String
  pub active : Option Bool
  pub rotate_secret : Bool

abbrev pub webhook_has_id : ℕ → Webhook → Bool
webhook_has_id id w = w.id == id

unfoldable pub get_record : ℕ → Db → Option Webhook
get_record id db = find (webhook_has_id id) db.webhooks

abbrev pub insert_webhook :
    WebhookCreate → String → ℕ → Db → Option String → Option (List String) → Option (Webhook × Db)
insert_webhook req secret now db (some url) (some event_types) =
    let w : Webhook = record {
      id = db.last_webhook_id + 1;
      url = url;
      secret = secret;
      event_types = event_types;
      description = req.description;
      active = req.active;
      created_at = now;
      updated_at = now;
    } in
    some (w, record db { webhooks = db.webhooks ++ w ∷ []; last_webhook_id = w.id })
insert_webhook req secret now db _ _ = none

-- `none` is `ValueError`: nothing is inserted.
unfoldable pub create_webhook : UrlHost → WebhookCreate → String → ℕ → Db → Option (Webhook × Db)
create_webhook host req secret now db =
    insert_webhook req secret now db (validate_webhook_url host req.url)
      (validate_event_types req.event_types)

abbrev pub by_id : Webhook → Webhook → Bool
by_id a b = leb a.id b.id

unfoldable pub list_records : Bool → Db → List Webhook
list_records active_only db = sort_by by_id (select (λ w. not active_only || w.active) db.webhooks)

abbrev pub or_else {ℓ} : {A : Type ℓ} → Option A → A → A
or_else none a = a
or_else (some b) a = b

-- The `SET` list, in effect, and whether it is empty.
abbrev pub apply_update : WebhookUpdate → String → ℕ → Webhook → Webhook
apply_update u secret now w = record w {
  event_types = or_else u.event_types w.event_types;
  description = or_else u.description w.description;
  active = or_else u.active w.active;
  secret = if u.rotate_secret then secret else w.secret;
  updated_at = now;
}

abbrev pub is_set {ℓ} : {A : Type ℓ} → Option A → Bool
is_set none = false
is_set (some a) = true

abbrev pub has_sets : WebhookUpdate → Bool
has_sets u = is_set u.event_types || is_set u.description || is_set u.active || u.rotate_secret

-- The event types of the request, validated if they are given; `none` is `ValueError`.
abbrev pub checked_types : Option (List String) → Option (Option (List String))
checked_types none = some none
checked_types (some types) = elim (validate_event_types types) [
  | none ↦ none
  | some ts ↦ some (some ts)
]

abbrev pub stored : ℕ → WebhookUpdate → String → ℕ → Db → Db
stored id u secret now db =
    if has_sets u
    then record db { webhooks = update (webhook_has_id id) (apply_update u secret now) db.webhooks }
    else db

abbrev pub store_update :
    ℕ
    → WebhookUpdate
    → String
    → ℕ
    → Db
    → Option (Option (List String))
    → Option (Option Webhook × Db)
store_update id u secret now db none = none
store_update id u secret now db (some types) =
    let db' = stored id (record u { event_types = types }) secret now db in
    some (get_record id db', db')

abbrev pub update_found :
    ℕ → WebhookUpdate → String → ℕ → Db → Option Webhook → Option (Option Webhook × Db)
update_found id u secret now db none = some (none, db)
update_found id u secret now db (some w) =
    store_update id u secret now db (checked_types u.event_types)

-- The record after the update, none if there is no such webhook. The whole is none on `ValueError`.
unfoldable pub update_webhook : ℕ → WebhookUpdate → String → ℕ → Db → Option (Option Webhook × Db)
update_webhook id u secret now db = update_found id u secret now db (get_record id db)

-- The webhook and, in cascade, its deliveries.
unfoldable pub delete_webhook : ℕ → Db → Bool × Db
delete_webhook id db = (
  any (webhook_has_id id) db.webhooks,
  record db {
    webhooks = select (λ w. not (webhook_has_id id w)) db.webhooks;
    deliveries = select (λ (d : Delivery). not (d.webhook_id == id)) db.deliveries;
  },
)
