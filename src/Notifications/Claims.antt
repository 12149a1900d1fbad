-- ===== src/Notifications/Claims.antt =====
-- `claim_due_deliveries` of api/notifications/deliveries_repo.py: what one claim takes.
use server_api.Prelude.{
  ==_iff, fun_ext, ◌||◌, ◌⊎◌, not, any, select_members, ℕ, ◌≤◌, ◌≡◌, refl, sym, ap, ◌∙◌, Bool, true,
  false, ◌&&◌, List, [], ◌∷◌, map, Memᴰ, arith, ◌==◌, if◌then◌else◌, max, length, take, select,
  update, set_where, count, mem, sort_by, All, All-append, All-map, All_at, All-take, All-sort_by,
  All-weaken, Bool-cases, inl, inr, length-take-le, and_parts,
}
use mathlib.Core.Path.{subst}
use server_api.Notifications.Due.{
  claimable-count, claim_rows-none, due_rows-none, taken-none, waiting_by_status, waiting_cases,
  attempt_or_one-max,
}
use server_api.Notifications.Model.{
  status_eq, queued, retrying, in_flight, Webhook, Delivery, ClaimedDelivery,
}
use server_api.Notifications.Deliveries.{
  is_waiting, reached, is_due, target, DueRow, joined, due_rows, due_le, stamp, claimable,
  claim_due_deliveries,
}
pub use server_api.Notifications.Stamped.{ids, is_taken, map_id}
use server_api.Notifications.Stamped.{All-claim_rows, length-claim_rows, claim_rows-update}

-- A claim is the join of a row that was due with an active webhook of its own.
pub record IsDueClaim (now : ℕ) (webhooks : List Webhook) (ds : List Delivery) (c : ClaimedDelivery)
    : Type 0 where
  pub row : Delivery
  pub webhook : Webhook
  pub stored : Memᴰ row ds
  pub known : Memᴰ webhook webhooks
  pub due : is_due now row ≡ true
  pub active : target row webhook ≡ true
  pub same : c ≡ (joined row webhook).claim

IsDueClaim-cons :
    (now : ℕ) (webhooks : List Webhook) (d : Delivery) (ds : List Delivery) (c : ClaimedDelivery)
    → IsDueClaim now webhooks ds c
    → IsDueClaim now webhooks (d ∷ ds) c
IsDueClaim-cons now webhooks d ds c h = record {
  row = h.row;
  webhook = h.webhook;
  stored = Memᴰ.tail h.stored;
  known = h.known;
  due = h.due;
  active = h.active;
  same = h.same;
}

due_rows-IsDueClaim :
    (now : ℕ) (webhooks : List Webhook) (ds : List Delivery)
    → All (λ r. IsDueClaim now webhooks ds r.claim) (due_rows now webhooks ds)
unfolding due_rows
due_rows-IsDueClaim now webhooks [] = tt
due_rows-IsDueClaim now webhooks (d ∷ ds) =
    let later =
      All-weaken (λ r. IsDueClaim now webhooks ds r.claim)
        (λ r. IsDueClaim now webhooks (d ∷ ds) r.claim) (due_rows now webhooks ds)
        (λ r. IsDueClaim-cons now webhooks d ds r.claim) (due_rows-IsDueClaim now webhooks ds) in
    elim (Bool-cases (is_due now d)) [
      | inl e ↦ rw e (
          All-append (λ r. IsDueClaim now webhooks (d ∷ ds) r.claim)
            (map (joined d) (select (target d) webhooks)) (due_rows now webhooks ds)
            (All-map (λ r. IsDueClaim now webhooks (d ∷ ds) r.claim) (joined d)
              (select (target d) webhooks)
              (All-weaken (λ w. Memᴰ w webhooks × (target d w ≡ true))
                (λ w. IsDueClaim now webhooks (d ∷ ds) (joined d w).claim)
                (select (target d) webhooks)
                (λ w m. record {
                  row = d;
                  webhook = w;
                  stored = Memᴰ.head refl;
                  known = m.0;
                  due = e;
                  active = m.1;
                  same = refl;
                })
                (select_members (target d) webhooks)))
            later)
      | inr e ↦ rw e later
    ]

module _ (fails : Bool) (now limit : ℕ) (webhooks : List Webhook) (ds : List Delivery) where
  abbrev claimed : List ClaimedDelivery
  claimed = (claim_due_deliveries fails now limit webhooks ds).0

  abbrev rows : List DueRow
  rows = take (max 1 limit) (sort_by due_le (due_rows now webhooks ds))

  -- The table after a claim: the rows of the claims, and no others, are stamped.
  pub claim-update :
      (claim_due_deliveries fails now limit webhooks ds).1
      ≡ update (is_taken (ids claimed)) (stamp now) ds
  unfolding claim_due_deliveries
  claim-update = elim (Bool-cases fails) [
    | inl e ↦ rw e (sym (map_id _ ds (λ d. refl)))
    | inr e ↦ rw e (claim_rows-update now rows ds)
  ]

  pub claim-IsDueClaim : All (IsDueClaim now webhooks ds) claimed
  unfolding claim_due_deliveries
  claim-IsDueClaim = elim (Bool-cases fails) [
    | inl e ↦ rw e tt
    | inr e ↦ rw e (
        All-claim_rows (IsDueClaim now webhooks ds) now rows ds (
          All-take (λ r. IsDueClaim now webhooks ds r.claim) (max 1 limit)
            (sort_by due_le (due_rows now webhooks ds))
            (All-sort_by due_le (λ r. IsDueClaim now webhooks ds r.claim) (due_rows now webhooks ds)
              (due_rows-IsDueClaim now webhooks ds))))
  ]

  pub length-claim : length claimed ≤ (if fails then 0 else max 1 limit)
  unfolding claim_due_deliveries
  length-claim = elim (Bool-cases fails) [
    | inl e ↦ rw e (omega arith)
    | inr e ↦ rw e (
        omega (
          arith,
          length-claim_rows now rows ds,
          length-take-le (max 1 limit) (sort_by due_le (due_rows now webhooks ds)),
        ))
  ]

  due_rows-claimable :
      (rows : List DueRow)
      → All (λ r. IsDueClaim now webhooks ds r.claim) rows
      → All (λ r. (count (claimable r.claim.id) ds == 0) ≡ false) rows
  due_rows-claimable rows =
      All-weaken (λ r. IsDueClaim now webhooks ds r.claim)
        (λ r. (count (claimable r.claim.id) ds == 0) ≡ false) rows
        (λ r h. rw h.same (claimable-count h.row ds h.stored (and_parts _ _ h.due).0))

  -- Something is claimed if anything is due.
  claim_nothing :
      (length claimed == 0) ≡ (fails || not (any (λ d. is_due now d && any (target d) webhooks) ds))
  unfolding claim_due_deliveries
  claim_nothing = elim (Bool-cases fails) [
    | inl e ↦ rw e refl
    | inr e ↦ rw e (
        claim_rows-none now rows ds (
          due_rows-claimable rows (
            All-take (λ r. IsDueClaim now webhooks ds r.claim) (max 1 limit)
              (sort_by due_le (due_rows now webhooks ds))
              (All-sort_by due_le (λ r. IsDueClaim now webhooks ds r.claim)
                (due_rows now webhooks ds) (due_rows-IsDueClaim now webhooks ds))))
        ∙ taken-none limit (due_rows now webhooks ds)
        ∙ due_rows-none now webhooks ds)
  ]

-- What the claim says of a row and a webhook of the tables: the row waits in the queue and its time
-- has come, the webhook is its own and active, and the claim carries the data of both.
abbrev pub IsJoinOf : ℕ → List Webhook → List Delivery → ClaimedDelivery → Type 0
IsJoinOf now webhooks ds c =
    (row : Delivery) × (webhook : Webhook) × Memᴰ row ds
    × Memᴰ webhook webhooks
    × ((row.status ≡ queued) ⊎ (row.status ≡ retrying))
    × (reached row.next_attempt_at now ≡ true)
    × (webhook.id ≡ row.webhook_id)
    × (webhook.active ≡ true)
    × (c ≡ record {
      id = row.id;
      webhook_id = row.webhook_id;
      event_type = row.event_type;
      payload = row.payload;
      attempt = max 1 row.attempt;
      url = webhook.url;
      secret = webhook.secret;
    })

IsDueClaim-IsJoinOf :
    (now : ℕ) (webhooks : List Webhook) (ds : List Delivery) (c : ClaimedDelivery)
    → IsDueClaim now webhooks ds c
    → IsJoinOf now webhooks ds c
IsDueClaim-IsJoinOf now webhooks ds c h =
    let (waits, arrived) =
      and_parts (is_waiting h.row.status) (reached h.row.next_attempt_at now) h.due in
    let (own, active) = and_parts (h.webhook.id == h.row.webhook_id) h.webhook.active h.active in
    (
      h.row,
      h.webhook,
      h.stored,
      h.known,
      waiting_cases h.row.status waits,
      arrived,
      (==_iff h.webhook.id h.row.webhook_id).0 own,
      active,
      h.same
          ∙ ap (λ z. record (joined h.row h.webhook).claim { attempt = z })
              (attempt_or_one-max h.row.attempt),
    )

-- A waiting row whose time has come has an active webhook.
abbrev pub is_claimable_now : ℕ → List Webhook → Delivery → Bool
is_claimable_now now webhooks d =
    (status_eq d.status queued || status_eq d.status retrying)
    && reached d.next_attempt_at now
    && any (λ (w : Webhook). (w.id == d.webhook_id) && w.active) webhooks

-- A claim takes no more rows than its limit, which is at least 1; it takes none exactly if it fails or
-- no waiting row is due with an active webhook of its own. What it returns is the join of such a row
-- and webhook; the waiting rows of the returned ids become in flight from now, and every other row
-- stays as it was.
pub claim_due_deliveries_lem :
    (fails : Bool) (now limit : ℕ) (webhooks : List Webhook) (ds : List Delivery)
    → let (claims, ds') = claim_due_deliveries fails now limit webhooks ds in
      (length claims ≤ (if fails then 0 else max 1 limit))
      × ((length claims == 0) ≡ (fails || not (any (is_claimable_now now webhooks) ds)))
      × All (IsJoinOf now webhooks ds) claims
      × (ds'
          ≡ update
              (λ d.
                mem d.id (ids claims) && (status_eq d.status queued || status_eq d.status retrying))
              (λ d. record d { status = in_flight; attempted_at = now })
              ds)
claim_due_deliveries_lem fails now limit webhooks ds =
    let claims = (claim_due_deliveries fails now limit webhooks ds).0 in
    (
      length-claim fails now limit webhooks ds,
      claim_nothing fails now limit webhooks ds
          ∙ ap (λ p. fails || not (any p ds))
              (fun_ext (λ (d : Delivery).
                ap (λ z. (z && reached d.next_attempt_at now) && any (target d) webhooks)
                  (waiting_by_status d.status))),
      All-weaken (IsDueClaim now webhooks ds) (IsJoinOf now webhooks ds) claims
          (IsDueClaim-IsJoinOf now webhooks ds) (claim-IsDueClaim fails now limit webhooks ds),
      claim-update fails now limit webhooks ds
          ∙ ap (λ p. update p (stamp now) ds)
              (fun_ext (λ (d : Delivery).
                ap (λ z. mem d.id (ids claims) && z) (waiting_by_status d.status))),
    )

stamped_apart :
    (now : ℕ) (taken : List ℕ) (d : Delivery)
    → is_waiting (set_where (is_taken taken) (stamp now) d).status ≡ true
    → mem (set_where (is_taken taken) (stamp now) d).id taken ≡ false
stamped_apart now taken d h = ground arith

stamped-All :
    (now : ℕ) (taken : List ℕ) (ds : List Delivery)
    → All
        (λ d. is_waiting d.status ≡ true → mem d.id taken ≡ false)
        (update (is_taken taken) (stamp now) ds)
stamped-All now taken [] = tt
stamped-All now taken (d ∷ ds) = (stamped_apart now taken d, stamped-All now taken ds)

-- The claim directly after another, on the table that this one left, takes none of its rows again,
-- whatever clock and limit it has.
pub claim_twice :
    (f g : Bool) (now later limit room : ℕ) (webhooks : List Webhook) (ds : List Delivery)
    → let (first, ds') = claim_due_deliveries f now limit webhooks ds in
      All (λ c. mem c.id (ids first) ≡ false) (claim_due_deliveries g later room webhooks ds').0
claim_twice f g now later limit room webhooks ds =
    let (first, ds') = claim_due_deliveries f now limit webhooks ds in
    let apart =
      subst (All (λ d. is_waiting d.status ≡ true → mem d.id (ids first) ≡ false))
        (sym (claim-update f now limit webhooks ds)) (stamped-All now (ids first) ds) in
    All-weaken (IsDueClaim later webhooks ds') (λ c. mem c.id (ids first) ≡ false)
      (claim_due_deliveries g later room webhooks ds').0
      (λ c h. rw h.same (
        All_at (λ d. is_waiting d.status ≡ true → mem d.id (ids first) ≡ false) h.stored apart
          (and_parts _ _ h.due).0))
      (claim-IsDueClaim g later room webhooks ds')
