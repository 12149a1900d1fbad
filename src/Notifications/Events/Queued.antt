-- ===== src/Notifications/Events/Queued.antt =====
-- What an asynchronous `emit_event` puts on the queue.
use server_api.Prelude.{
  ℕ, ◌+◌, ◌≤◌, ◌≡◌, refl, sym, ap, Bool, true, not, ◌&&◌, ◌||◌, Memᴰ, none, some, List, [], ◌∷◌,
  ◌++◌, map, String, arith, ◌==◌, length, select, All, All-append, All-weaken, All-sort_by,
  Bool-cases, inl, inr, any_of_mem, select_members,
}
use server_api.Notifications.Model.{queued, Webhook, Delivery, Db}
use server_api.Notifications.Deliveries.{
  enqueue_delivery, has_webhook, is_due, get_delivery, row_to_delivery, append_delivery,
}
use server_api.Notifications.Webhooks.{list_records, by_id}
use server_api.Notifications.Events.{subscribes, queue_each, emit_async}

-- The row that `enqueue_delivery` writes.
abbrev queued_row : ℕ → String → String → ℕ → ℕ → Delivery
queued_row webhook_id event_type payload now id = record {
  id = id;
  webhook_id = webhook_id;
  event_type = event_type;
  payload = payload;
  status = queued;
  response_status = none;
  response_body = none;
  error = none;
  attempted_at = now;
  duration_ms = 0;
  attempt = 1;
  next_attempt_at = some now;
  enqueued_at = some now;
}

-- The rows for these webhooks, their ids following `last`.
abbrev queued_rows : String → String → ℕ → ℕ → List Webhook → List Delivery
queued_rows event_type payload now last [] = []
queued_rows event_type payload now last (rec ∷ recs) =
    queued_row rec.id event_type payload now (last + 1)
    ∷ queued_rows event_type payload now (last + 1) recs

abbrev is_target : (ℕ → Bool) → String → Webhook → Bool
is_target fails event_type rec = subscribes event_type rec && not (fails rec.id)

find_last :
    (ds : List Delivery) (d : Delivery) (last : ℕ)
    → All (λ e. e.id ≤ last) ds
    → d.id ≡ last + 1
    → get_delivery d.id (ds ++ d ∷ []) ≡ some (row_to_delivery d)
unfolding get_delivery
find_last [] d last h e = ground arith
find_last (x ∷ xs) d last h e = ground (arith, find_last xs d last h.1 e, h.0, e)

append_assoc :
    (xs : List Delivery) (y : Delivery) (zs : List Delivery) → (xs ++ y ∷ []) ++ zs ≡ xs ++ y ∷ zs
append_assoc [] y zs = refl
append_assoc (x ∷ xs) y zs = ap (λ l. x ∷ l) (append_assoc xs y zs)

abbrev pub with_rows : Db → List Delivery → Db
with_rows db rows = record db {
  deliveries = db.deliveries ++ rows;
  last_delivery_id = db.last_delivery_id + length rows;
}

append_nil : (xs : List Delivery) → xs ++ [] ≡ xs
append_nil [] = refl
append_nil (x ∷ xs) = ap (λ l. x ∷ l) (append_nil xs)

with_rows-nil : (db : Db) → db ≡ with_rows db []
with_rows-nil db = λ i. record db {
  deliveries = sym (append_nil db.deliveries) i;
  last_delivery_id = (let e : db.last_delivery_id ≡ db.last_delivery_id + 0 = omega arith in e) i;
}

with_rows-cons :
    (db : Db) (d : Delivery) (rows : List Delivery)
    → d.id ≡ db.last_delivery_id + 1
    → with_rows (append_delivery d db) rows ≡ with_rows db (d ∷ rows)
with_rows-cons db d rows e = λ i. record db {
  deliveries = append_assoc db.deliveries d rows i;
  last_delivery_id =
      (let n : d.id + length rows ≡ db.last_delivery_id + length (d ∷ rows) = omega (arith, e) in n)
        i;
}

module _ (fails : ℕ → Bool) (event_type payload : String) (now : ℕ) where
  abbrev pub rows_for : ℕ → List Webhook → List Delivery
  rows_for last recs =
      queued_rows event_type payload now last (select (is_target fails event_type) recs)

  queue_each-rows :
      (recs : List Webhook) (db : Db)
      → All (λ w. has_webhook w.id db ≡ true) recs
      → All (λ e. e.id ≤ db.last_delivery_id) db.deliveries
      → queue_each fails event_type payload now recs db ≡ (
        map row_to_delivery (rows_for db.last_delivery_id recs),
        with_rows db (rows_for db.last_delivery_id recs),
      )
  unfolding queue_each enqueue_delivery
  queue_each-rows [] db known ids = ap (λ z. ([], z)) (with_rows-nil db)
  queue_each-rows (rec ∷ recs) db known ids = elim (Bool-cases (subscribes event_type rec)) [
    | inl e ↦ elim (Bool-cases (fails rec.id)) [
      | inl f ↦ rw (e, f) (queue_each-rows recs db known.1 ids)
      | inr f ↦
          let row = queued_row rec.id event_type payload now (db.last_delivery_id + 1) in
          let db' = append_delivery row db in
          let older =
            All-weaken (λ e. e.id ≤ db.last_delivery_id) (λ e. e.id ≤ row.id) db.deliveries
              (λ e l. omega (arith, l)) ids in
          let rest =
            queue_each-rows recs db' known.1
              (All-append (λ e. e.id ≤ row.id) db.deliveries (row ∷ []) older (omega arith, tt)) in
          let rows = rows_for row.id recs in
          rw (e, f, known.0, rest, find_last db.deliveries row db.last_delivery_id ids refl)
            (ap (λ z. (row_to_delivery row ∷ map row_to_delivery rows, z))
              (with_rows-cons db row rows refl))
    ]
    | inr e ↦ rw e (queue_each-rows recs db known.1 ids)
  ]

  rows_for-is_due :
      (last : ℕ) (recs : List Webhook)
      → All (λ d. is_due now d ≡ true) (queued_rows event_type payload now last recs)
  rows_for-is_due last [] = tt
  rows_for-is_due last (rec ∷ recs) = (ground arith, rows_for-is_due (last + 1) recs)

  -- An asynchronous event puts one delivery on the queue for each active webhook that subscribes to
  -- it and whose insertion does not fail, in the order of the webhooks' ids and with the next ids;
  -- it returns those rows, keeps every other row, and all of the new rows are due at once. The ids
  -- in the table are not above the last one given out.
  pub emit_async_lem :
      (db : Db)
      → All (λ e. e.id ≤ db.last_delivery_id) db.deliveries
      → let rows = rows_for db.last_delivery_id (list_records true db) in
        (emit_async fails event_type payload now db ≡ (map row_to_delivery rows, with_rows db rows))
        × All (λ d. is_due now d ≡ true) rows
  unfolding emit_async list_records
  emit_async_lem db ids =
      let active = (λ (w : Webhook). not true || w.active) in
      (
        queue_each-rows (list_records true db) db
            (All-sort_by by_id (λ w. has_webhook w.id db ≡ true) (select active db.webhooks)
              (All-weaken (λ w. Memᴰ w db.webhooks × (active w ≡ true))
                (λ w. has_webhook w.id db ≡ true) (select active db.webhooks)
                (λ w m. any_of_mem (λ (v : Webhook). v.id == w.id) m.0 (ground arith))
                (select_members active db.webhooks)))
            ids,
        rows_for-is_due db.last_delivery_id
            (select (is_target fails event_type) (list_records true db)),
      )
