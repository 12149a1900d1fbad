-- ===== src/Notifications/Webhooks/Reach.antt =====
-- The stores that the operations of the two tables can bring about.
use server_api.Prelude.{Bool, List, ℕ, ◌≡◌, refl, Option, some, [], String}
use server_api.Notifications.Model.{Webhook, Db, DispatchResult}
use server_api.Notifications.Deliveries.{
  create_pending_delivery, enqueue_delivery, finalize_delivery,
}
use server_api.Notifications.Worker.{Worker, Env, tick_once}
use server_api.Notifications.Requeue.{requeue_delivery, requeue_deliveries}
use server_api.Notifications.Webhooks.Kept.{
  with_deliveries, finalize_delivery-IsLinked, tick_once-IsLinked, requeue_delivery-IsLinked,
  requeue_deliveries-IsLinked,
}
use server_api.Notifications.Schemas.{UrlHost, validate_webhook_url, validate_event_types}
use server_api.Notifications.Webhooks.{
  WebhookCreate, WebhookUpdate, create_webhook, update_webhook, delete_webhook, get_record,
}
use server_api.Notifications.Webhooks.Linked.{
  IsLinked, inserted-IsLinked, delete_webhook-IsLinked, insert_webhook-IsLinked,
  update_found-IsLinked,
}

-- One operation on the store.
pub data Step : Db → Db → Type 0 where
  created :
      (host : UrlHost) (req : WebhookCreate) (secret : String) (now : ℕ) {db db' : Db} {w : Webhook}
      → create_webhook host req secret now db ≡ some (w, db')
      → Step db db'
  updated :
      (id : ℕ) (u : WebhookUpdate) (secret : String) (now : ℕ) {db db' : Db} {o : Option Webhook}
      → update_webhook id u secret now db ≡ some (o, db')
      → Step db db'
  deleted : (id : ℕ) {db : Db} → Step db (delete_webhook id db).1
  pending :
      (webhook_id : ℕ) (event_type payload : String) (now : ℕ) {db db' : Db} {i : ℕ}
      → create_pending_delivery webhook_id event_type payload now db ≡ some (i, db')
      → Step db db'
  enqueued :
      (webhook_id : ℕ) (event_type payload : String) (now : ℕ) {db db' : Db} {i : ℕ}
      → enqueue_delivery webhook_id event_type payload now db ≡ some (i, db')
      → Step db db'
  finalized :
      (id : ℕ) (outcome : DispatchResult) (now : ℕ) {db : Db}
      → Step db (with_deliveries db (finalize_delivery id outcome now db.deliveries))
  ticked :
      (w : Worker) (env : Env) (now : ℕ) {db : Db}
      → Step db (with_deliveries db (tick_once w env now db.webhooks db.deliveries).1)
  requeued :
      (id now : ℕ) {db : Db}
      → Step db (with_deliveries db (requeue_delivery id now db.deliveries).1)
  requeued_all :
      (fails : Bool) (statuses : List String) (webhook_id : Option ℕ) (limit now : ℕ) {db : Db}
      → Step db (
          with_deliveries db
            (requeue_deliveries fails statuses webhook_id limit now db.deliveries).1)

abbrev pub empty_db : Db
empty_db = record { webhooks = []; deliveries = []; last_webhook_id = 0; last_delivery_id = 0 }

-- The stores that operations can bring about from the empty one.
pub data Reachable : Db → Type 0 where
  start : Reachable empty_db
  next : {db db' : Db} → Reachable db → Step db db' → Reachable db'

pub Step-IsLinked : {db db' : Db} → Step db db' → IsLinked db → IsLinked db'
unfolding create_webhook update_webhook create_pending_delivery enqueue_delivery
Step-IsLinked (Step.created host req secret now {db} {db'} {w} e) h =
    insert_webhook-IsLinked req secret now db db' w (validate_webhook_url host req.url)
      (validate_event_types req.event_types) e h
Step-IsLinked (Step.updated id u secret now {db} {db'} {o} e) h =
    update_found-IsLinked id u secret now db db' o (get_record id db) e h
Step-IsLinked (Step.deleted id {db}) h = delete_webhook-IsLinked id db h
Step-IsLinked (Step.pending webhook_id event_type payload now {db} {db'} {i} e) h =
    inserted-IsLinked db db' _ i e refl h
Step-IsLinked (Step.enqueued webhook_id event_type payload now {db} {db'} {i} e) h =
    inserted-IsLinked db db' _ i e refl h
Step-IsLinked (Step.finalized id outcome now {db}) h =
    finalize_delivery-IsLinked id outcome now db h
Step-IsLinked (Step.ticked w env now {db}) h = tick_once-IsLinked w env now db h
Step-IsLinked (Step.requeued id now {db}) h = requeue_delivery-IsLinked id now db h
Step-IsLinked (Step.requeued_all fails statuses webhook_id limit now {db}) h =
    requeue_deliveries-IsLinked fails statuses webhook_id limit now db h

-- In every store that inserts, updates and deletions of webhooks, inserts and results of
-- deliveries, ticks of the worker and requeues bring about from the empty one, each delivery
-- belongs to a webhook of the store, no two deliveries have one id, and no id of either table is
-- above the last one given out.
pub Reachable-IsLinked : {db : Db} → Reachable db → IsLinked db
Reachable-IsLinked Reachable.start = record {
  linked = tt;
  keyed = tt;
  webhook_ids = tt;
  delivery_ids = tt;
}
Reachable-IsLinked (Reachable.next r s) = Step-IsLinked s (Reachable-IsLinked r)
