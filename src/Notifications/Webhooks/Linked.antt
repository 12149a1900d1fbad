-- ===== src/Notifications/Webhooks/Linked.antt =====
-- The invariant of the two tables, and the change that each operation makes to them.
use server_api.Prelude.{
  select_members, ℕ, ◌+◌, ◌≤◌, ◌<◌, ◌≡◌, refl, Bool, true, not, ◌&&◌, ◌||◌, Option, none, some,
  List, [], ◌∷◌, ◌++◌, map, String, arith, ◌==◌, if◌then◌else◌, select, update, set_where, any,
  Memᴰ, All, All-append, All-select, All-weaken, All_at, All-map, ◌∙◌, Bool-cases, inl, inr,
}
use mathlib.Core.Path.{subst}
use server_api.Notifications.Model.{Webhook, Delivery, Db}
use server_api.Notifications.Deliveries.{has_webhook, append_delivery}
use server_api.Notifications.Keys.{IsKeyed, KeepsKeys, append-IsKeyed, select-IsKeyed, map-IsKeyed}
use server_api.Notifications.Webhooks.{
  WebhookCreate, WebhookUpdate, apply_update, stored, store_update, update_found, checked_types,
  insert_webhook, has_sets, webhook_has_id, delete_webhook,
}

abbrev names : List Webhook → ℕ → Bool
names ws id = any (webhook_has_id id) ws

abbrev AreLinked : List Webhook → List Delivery → Type 0
AreLinked ws ds = All (λ d. names ws d.webhook_id ≡ true) ds

-- Every delivery has its webhook, and no id is above the last one given out.
pub record IsLinked (db : Db) : Type 0 where
  pub linked : AreLinked db.webhooks db.deliveries
  pub keyed : IsKeyed db.deliveries
  pub webhook_ids : All (λ w. w.id ≤ db.last_webhook_id) db.webhooks
  pub delivery_ids : All (λ d. d.id ≤ db.last_delivery_id) db.deliveries

any-append : (p : Webhook → Bool) (ws vs : List Webhook) → any p (ws ++ vs) ≡ (any p ws || any p vs)
any-append p [] vs = refl
any-append p (w ∷ ws) vs = ground (arith, any-append p ws vs)

-- A webhook is gone after the deletion exactly if it is the one deleted.
names-select :
    (id i : ℕ) (ws : List Webhook)
    → names (select (λ w. not (webhook_has_id id w)) ws) i ≡ (names ws i && not (i == id))
names-select id i [] = refl
names-select id i (w ∷ ws) = ground (arith, names-select id i ws)

names-update :
    (f : Webhook → Webhook) (id i : ℕ) (ws : List Webhook)
    → ((w : Webhook) → (f w).id ≡ w.id)
    → names (update (webhook_has_id id) f ws) i ≡ names ws i
names-update f id i [] e = refl
names-update f id i (w ∷ ws) e = ground (arith, names-update f id i ws e, e w)

-- What `create_pending_delivery` and `enqueue_delivery` do to the tables: a row of the next id.
append_delivery-IsLinked :
    (db : Db) (d : Delivery)
    → names db.webhooks d.webhook_id ≡ true
    → d.id ≡ db.last_delivery_id + 1
    → IsLinked db
    → IsLinked (append_delivery d db)
append_delivery-IsLinked db d known next h = record {
  linked =
      All-append (λ e. names db.webhooks e.webhook_id ≡ true) db.deliveries (d ∷ []) h.linked
        (known, tt);
  keyed =
      append-IsKeyed db.deliveries d
        (All-weaken (λ e. e.id ≤ db.last_delivery_id) (λ e. e.id < d.id) db.deliveries
          (λ e l. omega (arith, l, next)) h.delivery_ids)
        h.keyed;
  webhook_ids = h.webhook_ids;
  delivery_ids =
      All-append (λ e. e.id ≤ d.id) db.deliveries (d ∷ [])
        (All-weaken (λ e. e.id ≤ db.last_delivery_id) (λ e. e.id ≤ d.id) db.deliveries
          (λ e l. omega (arith, l, next)) h.delivery_ids)
        (omega arith, tt);
}

pub inserted-IsLinked :
    (db db' : Db) (d : Delivery) (i : ℕ)
    → if◌then◌else◌ {A = Option (ℕ × Db)}
        (has_webhook d.webhook_id db)
        (some (d.id, append_delivery d db))
        none
      ≡ some (i, db')
    → d.id ≡ db.last_delivery_id + 1
    → IsLinked db
    → IsLinked db'
inserted-IsLinked db db' d i e next h = elim (Bool-cases (has_webhook d.webhook_id db)) [
  | inl known ↦
      let same : append_delivery d db ≡ db' = ground (arith, known, e) in
      subst IsLinked same (append_delivery-IsLinked db d known next h)
  | inr unknown ↦ ground (arith, unknown, e)
]

pub delete_webhook-IsLinked : (id : ℕ) (db : Db) → IsLinked db → IsLinked (delete_webhook id db).1
unfolding delete_webhook
delete_webhook-IsLinked id db h = record {
  linked =
      let p = (λ (d : Delivery). not (d.webhook_id == id)) in
      let kept = select (λ w. not (webhook_has_id id w)) db.webhooks in
      All-weaken (λ d. Memᴰ d db.deliveries × (p d ≡ true)) (λ d. names kept d.webhook_id ≡ true)
        (select p db.deliveries)
        (λ d m.
          let known : names db.webhooks d.webhook_id ≡ true =
            All_at (λ (e : Delivery). names db.webhooks e.webhook_id ≡ true) m.0 h.linked in
          ground (arith, names-select id d.webhook_id db.webhooks, known, m.1))
        (select_members p db.deliveries);
  keyed = select-IsKeyed _ db.deliveries h.keyed;
  webhook_ids = All-select _ _ db.webhooks h.webhook_ids;
  delivery_ids = All-select _ _ db.deliveries h.delivery_ids;
}

added-IsLinked :
    (db : Db) (w : Webhook)
    → w.id ≡ db.last_webhook_id + 1
    → IsLinked db
    → IsLinked (record db { webhooks = db.webhooks ++ w ∷ []; last_webhook_id = w.id })
added-IsLinked db w next h = record {
  linked =
      All-weaken (λ d. names db.webhooks d.webhook_id ≡ true)
        (λ d. names (db.webhooks ++ w ∷ []) d.webhook_id ≡ true) db.deliveries
        (λ d known.
          ground (arith, any-append (webhook_has_id d.webhook_id) db.webhooks (w ∷ []), known))
        h.linked;
  keyed = h.keyed;
  webhook_ids =
      All-append (λ v. v.id ≤ w.id) db.webhooks (w ∷ [])
        (All-weaken (λ v. v.id ≤ db.last_webhook_id) (λ v. v.id ≤ w.id) db.webhooks
          (λ v l. omega (arith, l, next)) h.webhook_ids)
        (omega arith, tt);
  delivery_ids = h.delivery_ids;
}

pub insert_webhook-IsLinked :
    (req : WebhookCreate) (secret : String) (now : ℕ) (db db' : Db) (w : Webhook)
    (url : Option String) (types : Option (List String))
    → insert_webhook req secret now db url types ≡ some (w, db')
    → IsLinked db
    → IsLinked db'
insert_webhook-IsLinked req secret now db db' w none types e h = ground arith
insert_webhook-IsLinked req secret now db db' w (some url) none e h = ground arith
insert_webhook-IsLinked req secret now db db' w (some url) (some types) e h =
    let w' : Webhook = record {
      id = db.last_webhook_id + 1;
      url = url;
      secret = secret;
      event_types = types;
      description = req.description;
      active = req.active;
      created_at = now;
      updated_at = now;
    } in
    let same : record db { webhooks = db.webhooks ++ w' ∷ []; last_webhook_id = w'.id } ≡ db' =
      cc in
    subst IsLinked same (added-IsLinked db w' refl h)

stored-IsLinked :
    (id : ℕ) (u : WebhookUpdate) (secret : String) (now : ℕ) (db : Db)
    → IsLinked db
    → IsLinked (stored id u secret now db)
stored-IsLinked id u secret now db h = elim (Bool-cases (has_sets u)) [
  | inl e ↦ rw e (record {
    linked =
        let f = apply_update u secret now in
        All-weaken (λ d. names db.webhooks d.webhook_id ≡ true)
          (λ d. names (update (webhook_has_id id) f db.webhooks) d.webhook_id ≡ true) db.deliveries
          (λ d known. names-update f id d.webhook_id db.webhooks (λ w. refl) ∙ known) h.linked;
    keyed = h.keyed;
    webhook_ids =
        All-map (λ w. w.id ≤ db.last_webhook_id)
          (set_where (webhook_has_id id) (apply_update u secret now)) db.webhooks
          (All-weaken (λ w. w.id ≤ db.last_webhook_id)
            (λ w.
              (set_where (webhook_has_id id) (apply_update u secret now) w).id ≤ db.last_webhook_id)
            db.webhooks (λ w l. ground (arith, l)) h.webhook_ids);
    delivery_ids = h.delivery_ids;
  })
  | inr e ↦ rw e h
]

store_update-IsLinked :
    (id : ℕ) (u : WebhookUpdate) (secret : String) (now : ℕ) (db db' : Db) (o : Option Webhook)
    (types : Option (Option (List String)))
    → store_update id u secret now db types ≡ some (o, db')
    → IsLinked db
    → IsLinked db'
store_update-IsLinked id u secret now db db' o none e h = ground arith
store_update-IsLinked id u secret now db db' o (some types) e h =
    let same : stored id (record u { event_types = types }) secret now db ≡ db' = cc in
    subst IsLinked same (stored-IsLinked id (record u { event_types = types }) secret now db h)

pub update_found-IsLinked :
    (id : ℕ) (u : WebhookUpdate) (secret : String) (now : ℕ) (db db' : Db)
    (o found : Option Webhook)
    → update_found id u secret now db found ≡ some (o, db')
    → IsLinked db
    → IsLinked db'
update_found-IsLinked id u secret now db db' o none e h =
    let same : db ≡ db' = cc in subst IsLinked same h
update_found-IsLinked id u secret now db db' o (some w) e h =
    store_update-IsLinked id u secret now db db' o (checked_types u.event_types) e h

pub mapped-IsLinked :
    (f : Delivery → Delivery) (db : Db)
    → KeepsKeys f
    → IsLinked db
    → IsLinked (record db { deliveries = map f db.deliveries })
mapped-IsLinked f db keeps h = record {
  linked =
      All-map (λ d. names db.webhooks d.webhook_id ≡ true) f db.deliveries
        (All-weaken (λ d. names db.webhooks d.webhook_id ≡ true)
          (λ d. names db.webhooks (f d).webhook_id ≡ true) db.deliveries
          (λ d known. rw (keeps d).1 known) h.linked);
  keyed = map-IsKeyed f db.deliveries keeps h.keyed;
  webhook_ids = h.webhook_ids;
  delivery_ids =
      All-map (λ d. d.id ≤ db.last_delivery_id) f db.deliveries
        (All-weaken (λ d. d.id ≤ db.last_delivery_id) (λ d. (f d).id ≤ db.last_delivery_id)
          db.deliveries (λ d l. rw (keeps d).0 l) h.delivery_ids);
}
