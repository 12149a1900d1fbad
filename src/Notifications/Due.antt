-- ===== src/Notifications/Due.antt =====
-- The rows that `claim_due_deliveries` selects, and whether there is one to claim.
use server_api.Prelude.{
  zero, suc, ==_iff, count-select, length-map, length-append, ◌||◌, ◌⊎◌, not, any, length-take,
  length-sort_by, ℕ, ◌≡◌, refl, Bool, true, false, ◌&&◌, List, [], ◌∷◌, map, Memᴰ, arith, ◌==◌, max,
  length, take, select, count, sort_by, All,
}
use mathlib.Core.Path.{subst}
use server_api.Notifications.Model.{Status, status_eq, queued, retrying, Webhook, Delivery}
use server_api.Notifications.Deliveries.{
  attempt_or_one, is_waiting, is_due, target, DueRow, joined, due_rows, due_le, claimable,
  claim_rows,
}

pub claimable-own : (d : Delivery) → is_waiting d.status ≡ true → claimable d.id d ≡ true
claimable-own d w = rw ((==_iff d.id d.id).1 refl, w) refl

pub claimable-count :
    (d : Delivery) (ds : List Delivery)
    → Memᴰ d ds
    → is_waiting d.status ≡ true
    → (count (claimable d.id) ds == 0) ≡ false
claimable-count d [] m w = elim m [ ]
claimable-count d (x ∷ xs) (Memᴰ.head e) w =
    rw (subst (λ z. claimable d.id z ≡ true) e (claimable-own d w)) (ground arith)
claimable-count d (x ∷ xs) (Memᴰ.tail m) w = ground (arith, claimable-count d xs m w)

-- The first row that is there is claimed.
pub claim_rows-none :
    (now : ℕ) (rows : List DueRow) (ds : List Delivery)
    → All (λ r. (count (claimable r.claim.id) ds == 0) ≡ false) rows
    → (length (claim_rows now rows ds).0 == 0) ≡ (length rows == 0)
unfolding claim_rows
claim_rows-none now [] ds h = refl
claim_rows-none now (r ∷ rs) ds h = rw h.0 (ground arith)

pub any-count {ℓ} : {A : Type ℓ} (p : A → Bool) (xs : List A) → (count p xs == 0) ≡ not (any p xs)
any-count p [] = refl
any-count p (x ∷ xs) = ground (arith, any-count p xs)

pub due_rows-none :
    (now : ℕ) (webhooks : List Webhook) (ds : List Delivery)
    → (length (due_rows now webhooks ds) == 0)
      ≡ not (any (λ d. is_due now d && any (target d) webhooks) ds)
unfolding due_rows
due_rows-none now webhooks [] = refl
due_rows-none now webhooks (d ∷ ds) =
    let mine = map (joined d) (select (target d) webhooks) in
    ground (
      arith,
      due_rows-none now webhooks ds,
      any-count (target d) webhooks,
      count-select (target d) webhooks,
      length-map (joined d) (select (target d) webhooks),
      length-append mine (due_rows now webhooks ds),
    )

pub taken-none :
    (limit : ℕ) (rows : List DueRow)
    → (length (take (max 1 limit) (sort_by due_le rows)) == 0) ≡ (length rows == 0)
taken-none limit rows =
    ground (arith, length-take (max 1 limit) (sort_by due_le rows), length-sort_by due_le rows)

pub waiting_by_status : (s : Status) → is_waiting s ≡ (status_eq s queued || status_eq s retrying)
waiting_by_status s = ground arith

pub waiting_cases : (s : Status) → is_waiting s ≡ true → (s ≡ queued) ⊎ (s ≡ retrying)
waiting_cases s h = ground arith

pub attempt_or_one-max : (n : ℕ) → attempt_or_one n ≡ max 1 n
attempt_or_one-max zero = refl
attempt_or_one-max (suc n) = omega arith
