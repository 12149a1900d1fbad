-- ===== src/Notifications/Events.antt =====
-- api/notifications/events.py: `emit_event`.
--
-- The registry of event types is an association list. `fails` says which webhooks' `INSERT` raises.
pub mod Queued
use server_api.Prelude.{
  ℕ, Bool, true, false, Option, none, some, List, [], ◌∷◌, ◌++◌, String, str_eq, if◌then◌else◌,
  is_blank, mem_text,
}
use server_api.Notifications.Model.{Webhook, Db, DispatchResult}
use server_api.Notifications.Deliveries.{
  create_pending_delivery, enqueue_delivery, finalize_delivery, get_delivery, DeliveryPublic,
}
use server_api.Notifications.Webhooks.{list_records}

abbrev Registry : Type 0
Registry = List (String × String)

abbrev pub is_known : String → Registry → Bool
is_known name [] = false
is_known name ((n, _) ∷ known) =
    let rest = is_known name known in if str_eq name n then true else rest

unfoldable pub register_event_type : String → String → Registry → Registry
register_event_type name description known =
    if is_blank name
    then known
    else if is_known name known
    then known
    else known ++ (name, description) ∷ []

-- The row that was just written, if it is still there.
abbrev pub cons_found : Option DeliveryPublic → List DeliveryPublic → List DeliveryPublic
cons_found none ds = ds
cons_found (some d) ds = d ∷ ds

abbrev pub subscribes : String → Webhook → Bool
subscribes event_type rec = mem_text event_type rec.event_types

-- A failed `INSERT` is logged and skipped.
abbrev pub try_enqueue : Bool → String → String → ℕ → Webhook → Db → Option (ℕ × Db)
try_enqueue true event_type payload now rec db = none
try_enqueue false event_type payload now rec db = enqueue_delivery rec.id event_type payload now db

-- The loop of `_emit_async`.
unfoldable pub queue_each :
    (ℕ → Bool) → String → String → ℕ → List Webhook → Db → List DeliveryPublic × Db
queue_each fails event_type payload now [] db = ([], db)
queue_each fails event_type payload now (rec ∷ recs) db =
    if subscribes event_type rec
    then elim (try_enqueue (fails rec.id) event_type payload now rec db) [
      | none ↦ queue_each fails event_type payload now recs db
      | some (id, db') ↦
          let (rest, after) = queue_each fails event_type payload now recs db' in
          (cons_found (get_delivery id db'.deliveries) rest, after)
    ]
    else queue_each fails event_type payload now recs db

unfoldable pub emit_async : (ℕ → Bool) → String → String → ℕ → Db → List DeliveryPublic × Db
emit_async fails event_type payload now db =
    queue_each fails event_type payload now (list_records true db) db

-- The loop of `_emit_sync`. `send` is the dispatcher's answer for each delivery; `none` is an
-- exception of the store.
unfoldable pub send_each :
    (Webhook → ℕ → DispatchResult)
    → String
    → String
    → ℕ
    → List Webhook
    → Db
    → Option (List DeliveryPublic × Db)
send_each send event_type payload now [] db = some ([], db)
send_each send event_type payload now (rec ∷ recs) db =
    if subscribes event_type rec
    then elim (create_pending_delivery rec.id event_type payload now db) [
      | none ↦ none
      | some (id, db') ↦
          let ds = finalize_delivery id (send rec id) now db'.deliveries in
          elim (send_each send event_type payload now recs (record db' { deliveries = ds })) [
            | none ↦ none
            | some (rest, after) ↦ some (cons_found (get_delivery id ds) rest, after)
          ]
    ]
    else send_each send event_type payload now recs db

unfoldable pub emit_sync :
    (Webhook → ℕ → DispatchResult) → String → String → ℕ → Db → Option (List DeliveryPublic × Db)
emit_sync send event_type payload now db =
    send_each send event_type payload now (list_records true db) db

unfoldable pub emit_event :
    (Webhook → ℕ → DispatchResult)
    → (ℕ → Bool)
    → String
    → String
    → Bool
    → ℕ
    → Registry
    → Db
    → Option (List DeliveryPublic × Db) × Registry
emit_event send fails event_type payload sync now known db = (
  if sync
      then emit_sync send event_type payload now db
      else some (emit_async fails event_type payload now db),
  register_event_type event_type "" known,
)
