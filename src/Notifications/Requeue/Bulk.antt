-- ===== src/Notifications/Requeue/Bulk.antt =====
-- `list_retryable_delivery_ids` and `requeue_deliveries` of api/notifications/deliveries_repo.py.
use server_api.Prelude.{
  select_members, ◌&&◌, max, min, none, some, count, count-select, length-take, length-sort_by, ℕ,
  ◌≡◌, ◌⊎◌, refl, sym, ap, ◌∙◌, Bool, true, false, Option, List, [], ◌∷◌, String, arith,
  if◌then◌else◌, length, take, select, update, any, mem, sort_by, Memᴰ, ==_iff, ◌==◌, All, All-map,
  All_at, any-eq-false, All-take, All-sort_by, All-weaken, length-map, Bool-cases, inl, inr,
  and_parts,
}
use mathlib.Core.Path.{subst}
use server_api.Notifications.Model.{Status, queued, dead, failure, Delivery}
use server_api.Notifications.Deliveries.{has_id}
use server_api.Notifications.Claims.{map_id}
use server_api.Notifications.Keys.{IsKeyed}
use server_api.Notifications.Requeue.{
  is_selected, id_le, list_ids, requeue_ids, of_webhook, bulk_limit, list_retryable_delivery_ids,
  effective_statuses, requeue_deliveries, reset_ids, reset_row, mem_status,
}
use server_api.Notifications.Requeue.Effective.{effective-terminal}

reset_ids-update :
    (ids : List ℕ) (now : ℕ) (ds : List Delivery)
    → reset_ids ids now ds ≡ update (λ d. mem d.id ids) (reset_row now) ds
reset_ids-update [] now ds = sym (map_id _ ds (λ d. refl))
reset_ids-update (i ∷ ids) now ds = refl

abbrev IsChosen : List Status → Option ℕ → List Delivery → ℕ → Type 0
IsChosen statuses webhook_id ds i =
    (d : Delivery) × Memᴰ d ds
    × (d.id ≡ i)
    × (mem_status d.status statuses ≡ true)
    × (of_webhook webhook_id d ≡ true)

list_ids-IsChosen :
    (statuses : List Status) (webhook_id : Option ℕ) (limit : ℕ) (ds : List Delivery)
    → All (IsChosen statuses webhook_id ds) (list_ids statuses webhook_id limit ds)
list_ids-IsChosen [] webhook_id limit ds = tt
list_ids-IsChosen (s ∷ ss) webhook_id limit ds =
    let p = is_selected (s ∷ ss) webhook_id in
    let P = (λ (d : Delivery). IsChosen (s ∷ ss) webhook_id ds d.id) in
    let rows = select p ds in
    All-map (IsChosen (s ∷ ss) webhook_id ds) (λ d. d.id)
      (take (bulk_limit limit) (sort_by id_le rows))
      (All-take P (bulk_limit limit) (sort_by id_le rows) (
        All-sort_by id_le P rows (
          All-weaken (λ d. Memᴰ d ds × (p d ≡ true)) P rows
            (λ d m. let (x, y) = and_parts _ _ m.1 in (d, m.0, refl, x, y)) (select_members p ds))))

count-none :
    (p : Delivery → Bool) (ds : List Delivery) → ((d : Delivery) → p d ≡ false) → count p ds ≡ 0
count-none p [] h = refl
count-none p (d ∷ ds) h = rw (h d) (count-none p ds h)

length-list_ids :
    (statuses : List Status) (webhook_id : Option ℕ) (limit : ℕ) (ds : List Delivery)
    → length (list_ids statuses webhook_id limit ds)
      ≡ min (bulk_limit limit) (count (is_selected statuses webhook_id) ds)
length-list_ids [] webhook_id limit ds =
    omega (arith, count-none (is_selected [] webhook_id) ds (λ d. refl))
length-list_ids (s ∷ ss) webhook_id limit ds =
    let p = is_selected (s ∷ ss) webhook_id in
    let rows = sort_by id_le (select p ds) in
    omega (
      arith,
      length-map (λ (d : Delivery). d.id) (take (bulk_limit limit) rows),
      length-take (bulk_limit limit) rows,
      length-sort_by id_le (select p ds),
      count-select p ds,
    )

requeue_ids-list_ids :
    (statuses : List Status) (webhook_id : Option ℕ) (limit : ℕ) (ds : List Delivery)
    → requeue_ids statuses webhook_id limit ds ≡ list_ids statuses webhook_id limit ds
requeue_ids-list_ids [] webhook_id limit ds = refl
requeue_ids-list_ids (s ∷ ss) webhook_id limit ds = refl

-- A row that a requeue may reset: dead or failed, of a status asked for and of the webhook asked for.
abbrev pub IsRetryable : List String → Option ℕ → List Delivery → ℕ → Type 0
IsRetryable statuses webhook_id ds i =
    (d : Delivery) × Memᴰ d ds
    × (d.id ≡ i)
    × ((d.status ≡ dead) ⊎ (d.status ≡ failure))
    × (mem_status d.status (effective_statuses statuses) ≡ true)
    × (of_webhook webhook_id d ≡ true)

list_ids-IsRetryable :
    (statuses : List String) (webhook_id : Option ℕ) (limit : ℕ) (ds : List Delivery)
    → All
        (IsRetryable statuses webhook_id ds)
        (list_ids (effective_statuses statuses) webhook_id limit ds)
list_ids-IsRetryable statuses webhook_id limit ds =
    let named = effective_statuses statuses in
    All-weaken (IsChosen named webhook_id ds) (IsRetryable statuses webhook_id ds)
      (list_ids named webhook_id limit ds)
      (λ i c. (c.0, c.1, c.2, effective-terminal c.0.status statuses c.3, c.3, c.4))
      (list_ids-IsChosen named webhook_id limit ds)

-- The rows that a bulk request asks for.
abbrev pub is_asked : List String → Option ℕ → Delivery → Bool
is_asked statuses webhook_id d =
    mem_status d.status (effective_statuses statuses) && of_webhook webhook_id d

-- What a bulk requeue does is what the dry run lists: it returns the same ids, each of a dead or
-- failed row that was asked for, as many as there are such rows up to the limit, which is between
-- 1 and 5000. It makes the rows of those ids queued with attempt 1, due now, and without an answer,
-- and no others; if the store raises, it returns none and the table is unchanged.
pub requeue_deliveries_lem :
    (fails : Bool) (statuses : List String) (webhook_id : Option ℕ) (limit now : ℕ)
    (ds : List Delivery)
    → let (ids, ds') = requeue_deliveries fails statuses webhook_id limit now ds in
      (ids ≡ (if fails then [] else list_retryable_delivery_ids statuses webhook_id limit ds))
      × All (IsRetryable statuses webhook_id ds) ids
      × (length ids ≡ (
          if fails
          then 0
          else min (max 1 (min limit 5000)) (count (is_asked statuses webhook_id) ds)))
      × (ds'
          ≡ update
              (λ d. mem d.id ids)
              (λ d. record d {
                status = queued;
                attempt = 1;
                next_attempt_at = some now;
                response_status = none;
                response_body = none;
                error = none;
                duration_ms = 0;
              })
              ds)
unfolding requeue_deliveries list_retryable_delivery_ids
requeue_deliveries_lem fails statuses webhook_id limit now ds =
    let named = effective_statuses statuses in
    let ids = list_ids named webhook_id limit ds in
    elim (Bool-cases fails) [
      | inl e ↦ rw e (refl, tt, refl, reset_ids-update [] now ds)
      | inr e ↦
          rw (e, requeue_ids-list_ids named webhook_id limit ds)
            (
              refl,
              list_ids-IsRetryable statuses webhook_id limit ds,
              length-list_ids named webhook_id limit ds,
              reset_ids-update ids now ds,
            )
    ]

All_at-mem : (P : ℕ → Type 0) (i : ℕ) (is : List ℕ) → All P is → mem i is ≡ true → P i
All_at-mem P i [] h e = ground arith
All_at-mem P i (j ∷ js) h e = elim (Bool-cases (i == j)) [
  | inl f ↦ subst P (sym ((==_iff i j).0 f)) h.0
  | inr f ↦ All_at-mem P i js h.1 (ground arith)
]

-- Of two rows with one id, one cannot follow the other in a keyed table.
no_twin :
    (x d : Delivery) (xs : List Delivery)
    → any (has_id x.id) xs ≡ false
    → Memᴰ d xs
    → d.id ≡ x.id
    → d ≡ x
no_twin x d xs fresh m same =
    let none_is = All_at (λ e. has_id x.id e ≡ false) m (any-eq-false (has_id x.id) xs fresh) in
    ground (arith, none_is, same)

IsKeyed-same :
    (ds : List Delivery) (d e : Delivery) → IsKeyed ds → Memᴰ d ds → Memᴰ e ds → e.id ≡ d.id → e ≡ d
IsKeyed-same [] d e k m n same = elim m [ ]
IsKeyed-same (x ∷ xs) d e k (Memᴰ.head p) (Memᴰ.head q) same = q ∙ sym p
IsKeyed-same (x ∷ xs) d e k (Memᴰ.head p) (Memᴰ.tail n) same =
    no_twin x e xs k.0 n (same ∙ ap (λ (z : Delivery). z.id) p) ∙ sym p
IsKeyed-same (x ∷ xs) d e k (Memᴰ.tail m) (Memᴰ.head q) same =
    q ∙ sym (no_twin x d xs k.0 m (sym same ∙ ap (λ (z : Delivery). z.id) q))
IsKeyed-same (x ∷ xs) d e k (Memᴰ.tail m) (Memᴰ.tail n) same = IsKeyed-same xs d e k.1 m n same

mem_of_return :
    (fails : Bool) (ids : List ℕ) (ds ds' : List Delivery) (i : ℕ)
    → mem i (if◌then◌else◌ {A = List ℕ × List Delivery} fails ([], ds) (ids, ds')).0 ≡ true
    → mem i ids ≡ true
mem_of_return true ids ds ds' i h = ground arith
mem_of_return false ids ds ds' i h = h

-- With unique ids, every row that a bulk requeue resets was a dead or a failed one: a row in
-- flight or delivered is never sent again by it.
pub requeue_deliveries_only :
    (fails : Bool) (statuses : List String) (webhook_id : Option ℕ) (limit now : ℕ)
    (ds : List Delivery) (d : Delivery)
    → IsKeyed ds
    → Memᴰ d ds
    → mem d.id (requeue_deliveries fails statuses webhook_id limit now ds).0 ≡ true
    → (d.status ≡ dead) ⊎ (d.status ≡ failure)
unfolding requeue_deliveries
requeue_deliveries_only fails statuses webhook_id limit now ds d k m h =
    let named = effective_statuses statuses in
    let ids = list_ids named webhook_id limit ds in
    let same = requeue_ids-list_ids named webhook_id limit ds in
    let c =
      All_at-mem (IsChosen named webhook_id ds) d.id ids
        (list_ids-IsChosen named webhook_id limit ds)
        (mem_of_return fails ids ds (reset_ids ids now ds) d.id (
          subst
            (λ z.
              mem d.id
                (if◌then◌else◌ {A = List ℕ × List Delivery} fails ([], ds)
                  (z, reset_ids z now ds)).0
              ≡ true)
            same h)) in
    let equal = IsKeyed-same ds d c.0 k m c.1 c.2 in
    effective-terminal d.status statuses
      (subst (λ (z : Delivery). mem_status z.status named ≡ true) equal c.3)
