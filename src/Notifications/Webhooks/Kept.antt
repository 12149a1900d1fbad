-- ===== src/Notifications/Webhooks/Kept.antt =====
-- The operations that change rows of `webhook_deliveries` in place, under the invariant of the tables.
use server_api.Prelude.{
  ℕ, suc, refl, sym, Bool, true, false, Option, List, [], ◌∷◌, String, update, set_where,
  Bool-cases, inl, inr, any,
}
use mathlib.Core.Path.{subst}
use server_api.Notifications.Model.{Delivery, Db, ClaimedDelivery, DispatchResult}
use server_api.Notifications.Deliveries.{
  finalize_delivery, claim_due_deliveries, record_attempt, recover_stale_in_flight, release_claims,
  stamp, is_stale, back_to_queue, is_held, has_id,
}
use server_api.Notifications.Claims.{claim-update, ids, is_taken}
use server_api.Notifications.Keys.{KeepsKeys}
use server_api.Notifications.Requeue.{requeue_delivery, requeue_deliveries, reset_row}
use server_api.Notifications.Requeue.Bulk.{requeue_deliveries_lem}
use server_api.Notifications.Worker.{Worker, Env, lease, finalize, process, tick_once}
use server_api.Notifications.Webhooks.Linked.{IsLinked, mapped-IsLinked}

abbrev pub with_deliveries : Db → List Delivery → Db
with_deliveries db ds = record db { deliveries = ds }

set_where-KeepsKeys :
    (p : Delivery → Bool) (f : Delivery → Delivery) → KeepsKeys f → KeepsKeys (set_where p f)
set_where-KeepsKeys p f keeps d = elim (Bool-cases (p d)) [
  | inl e ↦ rw e (keeps d)
  | inr e ↦ rw e (refl, refl)
]

update-IsLinked :
    (p : Delivery → Bool) (f : Delivery → Delivery) (db : Db)
    → KeepsKeys f
    → IsLinked db
    → IsLinked (with_deliveries db (update p f db.deliveries))
update-IsLinked p f db keeps h =
    mapped-IsLinked (set_where p f) db (set_where-KeepsKeys p f keeps) h

pub finalize_delivery-IsLinked :
    (id : ℕ) (outcome : DispatchResult) (now : ℕ) (db : Db)
    → IsLinked db
    → IsLinked (with_deliveries db (finalize_delivery id outcome now db.deliveries))
unfolding finalize_delivery
finalize_delivery-IsLinked id outcome now db h =
    update-IsLinked (has_id id) _ db (λ d. (refl, refl)) h

recover-IsLinked :
    (fails : Bool) (older_than now : ℕ) (db : Db)
    → IsLinked db
    → IsLinked (with_deliveries db (recover_stale_in_flight fails older_than now db.deliveries).1)
unfolding recover_stale_in_flight
recover-IsLinked true older_than now db h = h
recover-IsLinked false older_than now db h =
    update-IsLinked (is_stale older_than now) (back_to_queue now) db (λ d. (refl, refl)) h

release_claims-IsLinked :
    (fails : Bool) (held : List ℕ) (db : Db)
    → IsLinked db
    → IsLinked (with_deliveries db (release_claims fails held db.deliveries).1)
unfolding release_claims
release_claims-IsLinked fails [] db h = h
release_claims-IsLinked true (i ∷ is) db h = h
release_claims-IsLinked false (i ∷ is) db h =
    update-IsLinked (is_held (i ∷ is)) _ db (λ d. (refl, refl)) h

claim-IsLinked :
    (fails : Bool) (now limit : ℕ) (db : Db)
    → IsLinked db
    → IsLinked
        (with_deliveries db (claim_due_deliveries fails now limit db.webhooks db.deliveries).1)
claim-IsLinked fails now limit db h =
    let taken = ids (claim_due_deliveries fails now limit db.webhooks db.deliveries).0 in
    subst (λ ds. IsLinked (with_deliveries db ds))
      (sym (claim-update fails now limit db.webhooks db.deliveries))
      (update-IsLinked (is_taken taken) (stamp now) db (λ d. (refl, refl)) h)

finalize-IsLinked :
    (w : Worker) (env : Env) (i : ℕ) (cd : ClaimedDelivery) (db : Db)
    → IsLinked db
    → IsLinked (with_deliveries db (finalize w env i cd db.deliveries))
unfolding finalize record_attempt
finalize-IsLinked w env i cd db h = update-IsLinked (has_id cd.id) _ db (λ d. (refl, refl)) h

process-IsLinked :
    (w : Worker) (env : Env) (i : ℕ) (claimed : List ClaimedDelivery) (db : Db)
    → IsLinked db
    → IsLinked (with_deliveries db (process w env i claimed db.deliveries).1)
unfolding process
process-IsLinked w env i [] db h = h
process-IsLinked w env i (cd ∷ rest) db h = elim (Bool-cases (env.shutdown i)) [
  | inl e ↦ rw e (release_claims-IsLinked env.release_fails (ids (cd ∷ rest)) db h)
  | inr e ↦ elim (Bool-cases (env.record_fails i)) [
    | inl f ↦ rw (e, f) h
    | inr f ↦
        rw (e, f)
          (process-IsLinked w env (suc i) rest
            (with_deliveries db (finalize w env i cd db.deliveries))
            (finalize-IsLinked w env i cd db h))
  ]
]

pub tick_once-IsLinked :
    (w : Worker) (env : Env) (now : ℕ) (db : Db)
    → IsLinked db
    → IsLinked (with_deliveries db (tick_once w env now db.webhooks db.deliveries).1)
unfolding tick_once
tick_once-IsLinked w env now db h =
    let recovered = (recover_stale_in_flight env.recover_fails (lease w) now db.deliveries).1 in
    let (claimed, taken) =
      claim_due_deliveries env.claim_fails now w.batch_size db.webhooks recovered in
    process-IsLinked w env 0 claimed (with_deliveries db taken) (
      claim-IsLinked env.claim_fails now w.batch_size (with_deliveries db recovered)
        (recover-IsLinked env.recover_fails (lease w) now db h))

pub requeue_delivery-IsLinked :
    (id now : ℕ) (db : Db)
    → IsLinked db
    → IsLinked (with_deliveries db (requeue_delivery id now db.deliveries).1)
unfolding requeue_delivery
requeue_delivery-IsLinked id now db h = elim (Bool-cases (any (has_id id) db.deliveries)) [
  | inl e ↦ rw e (update-IsLinked (has_id id) (reset_row now) db (λ d. (refl, refl)) h)
  | inr e ↦ rw e h
]

pub requeue_deliveries-IsLinked :
    (fails : Bool) (statuses : List String) (webhook_id : Option ℕ) (limit now : ℕ) (db : Db)
    → IsLinked db
    → IsLinked (
        with_deliveries db (requeue_deliveries fails statuses webhook_id limit now db.deliveries).1)
requeue_deliveries-IsLinked fails statuses webhook_id limit now db h =
    let after = requeue_deliveries_lem fails statuses webhook_id limit now db.deliveries in
    subst (λ ds. IsLinked (with_deliveries db ds)) (sym after.3)
      (update-IsLinked _ (reset_row now) db (λ d. (refl, refl)) h)
