-- ===== src/Notifications/Stamped.antt =====
-- The loop of `claim_due_deliveries`: the rows that it stamps and those that it returns.
use server_api.Prelude.{
  ℕ, ◌≤◌, ◌≡◌, refl, sym, ap, ◌∙◌, Bool, ◌&&◌, List, [], ◌∷◌, map, arith, ◌==◌, length, update,
  set_where, count, mem, All, Bool-cases, inl, inr, update_of_count-zero,
}
use server_api.Notifications.Model.{Delivery, ClaimedDelivery}
use server_api.Notifications.Deliveries.{is_waiting, DueRow, stamp, claimable, claim_rows}

abbrev pub ids : List ClaimedDelivery → List ℕ
ids = map (λ c. c.id)

-- What a claim does to a row, given the ids that it takes.
abbrev pub is_taken : List ℕ → Delivery → Bool
is_taken taken d = mem d.id taken && is_waiting d.status

pub update-update_stamp :
    (now id : ℕ) (taken : List ℕ) (d : Delivery)
    → set_where (is_taken taken) (stamp now) (set_where (claimable id) (stamp now) d)
      ≡ set_where (is_taken (id ∷ taken)) (stamp now) d
update-update_stamp now id taken d = ground arith

pub map-map {ℓ} :
    {A : Type ℓ} (f g h : A → A) (xs : List A)
    → ((x : A) → f (g x) ≡ h x)
    → map f (map g xs) ≡ map h xs
map-map f g h [] e = refl
map-map f g h (x ∷ xs) e = λ i. e x i ∷ map-map f g h xs e i

pub map_id {ℓ} : {A : Type ℓ} (f : A → A) (xs : List A) → ((x : A) → f x ≡ x) → map f xs ≡ xs
map_id f [] e = refl
map_id f (x ∷ xs) e = λ i. e x i ∷ map_id f xs e i

-- The row-by-row loop is one update of the rows that it returns.
pub claim_rows-update :
    (now : ℕ) (rows : List DueRow) (ds : List Delivery)
    → (claim_rows now rows ds).1 ≡ update (is_taken (ids (claim_rows now rows ds).0)) (stamp now) ds
unfolding claim_rows
claim_rows-update now [] ds = sym (map_id _ ds (λ d. refl))
claim_rows-update now (r ∷ rs) ds =
    let id = r.claim.id in
    let marked = update (claimable id) (stamp now) ds in
    let taken = ids (claim_rows now rs marked).0 in
    let ih = claim_rows-update now rs marked in
    elim (Bool-cases (count (claimable id) ds == 0)) [
      | inl e ↦ rw e (
          ih
          ∙ ap (update (is_taken taken) (stamp now))
              (update_of_count-zero (claimable id) (stamp now) ds (ground (arith, e))))
      | inr e ↦ rw e (
          ih
          ∙ map-map (set_where (is_taken taken) (stamp now)) (set_where (claimable id) (stamp now))
              (set_where (is_taken (id ∷ taken)) (stamp now)) ds (update-update_stamp now id taken))
    ]

-- The claims are among the rows that were selected, in their order.
pub All-claim_rows :
    (P : ClaimedDelivery → Type 0) (now : ℕ) (rows : List DueRow) (ds : List Delivery)
    → All (λ r. P r.claim) rows
    → All P (claim_rows now rows ds).0
unfolding claim_rows
All-claim_rows P now [] ds h = tt
All-claim_rows P now (r ∷ rs) ds h =
    let marked = update (claimable r.claim.id) (stamp now) ds in
    let ih = All-claim_rows P now rs marked h.1 in
    elim (Bool-cases (count (claimable r.claim.id) ds == 0)) [
      | inl e ↦ rw e ih
      | inr e ↦ rw e (h.0, ih)
    ]

pub length-claim_rows :
    (now : ℕ) (rows : List DueRow) (ds : List Delivery)
    → length (claim_rows now rows ds).0 ≤ length rows
unfolding claim_rows
length-claim_rows now [] ds = omega arith
length-claim_rows now (r ∷ rs) ds =
    ground (arith, length-claim_rows now rs (update (claimable r.claim.id) (stamp now) ds))
