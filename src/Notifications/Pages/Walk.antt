-- ===== src/Notifications/Pages/Walk.antt =====
-- A client that follows the cursor of `list_deliveries` to the end.
use server_api.Prelude.{
  ℕ, zero, suc, ◌-◌, ◌≤◌, ◌<◌, ◌≡◌, refl, sym, ap, ◌∙◌, Bool, true, false, ◌&&◌, Option, none, some,
  List, [], ◌∷◌, ◌++◌, map, String, arith, ltb, if◌then◌else◌, length, take, select, sort_by,
  insert_by, Bool-cases, Option-cases, inl, inr, All, All-select, All-weaken, All-insert_by,
  All-take, and_parts, any-eq-false, select_holds, All-sort_by,
}
use server_api.Notifications.Model.{Delivery}
use server_api.Notifications.Deliveries.{has_id, DeliveryPublic, row_to_delivery, public_row}
use server_api.Notifications.Keys.{IsKeyed}
use server_api.Notifications.Pages.{
  is_listed, is_older, newest, page_size, history, list_deliveries,
}

-- Selecting a set that is closed downwards along the order may come before or after the sort.
select-insert_by :
    (q : Delivery → Bool) (x : Delivery) (xs : List Delivery)
    → ((y : Delivery) → newest x y ≡ true → q x ≡ true → q y ≡ true)
    → select q (insert_by newest x xs)
      ≡ (if q x then insert_by newest x (select q xs) else select q xs)
select-insert_by q x [] down = refl
select-insert_by q x (y ∷ ys) down = ground (arith, select-insert_by q x ys down, down y)

select-sort_by :
    (q : Delivery → Bool) (xs : List Delivery)
    → ((x y : Delivery) → newest x y ≡ true → q x ≡ true → q y ≡ true)
    → select q (sort_by newest xs) ≡ sort_by newest (select q xs)
select-sort_by q [] down = refl
select-sort_by q (x ∷ xs) down =
    ground (arith, select-insert_by q x (sort_by newest xs) (down x), select-sort_by q xs down)

abbrev IsDescending : List Delivery → Type 0
IsDescending [] = Unit
IsDescending (d ∷ ds) = All (λ e. e.id < d.id) ds × IsDescending ds

insert_by-IsDescending :
    (x : Delivery) (xs : List Delivery)
    → All (λ y. has_id x.id y ≡ false) xs
    → IsDescending xs
    → IsDescending (insert_by newest x xs)
insert_by-IsDescending x [] f h = (tt, tt)
insert_by-IsDescending x (y ∷ ys) f h = elim (Bool-cases (newest x y)) [
  | inl e ↦
      let below : y.id < x.id = ground (arith, f.0) in
      rw e (
        (
          below,
          All-weaken (λ z. z.id < y.id) (λ z. z.id < x.id) ys (λ z l. omega (arith, l, below)) h.0,
        ),
        h,
      )
  | inr e ↦ rw e (
    All-insert_by newest (λ z. z.id < y.id) x ys (ground (arith, e)) h.0,
    insert_by-IsDescending x ys f.1 h.1,
  )
]

sort_by-IsDescending :
    (p : Delivery → Bool) (ds : List Delivery)
    → IsKeyed ds
    → IsDescending (sort_by newest (select p ds))
sort_by-IsDescending p [] k = tt
sort_by-IsDescending p (d ∷ ds) k =
    let P = (λ (e : Delivery). has_id d.id e ≡ false) in
    let ih = sort_by-IsDescending p ds k.1 in
    elim (Bool-cases (p d)) [
      | inl e ↦ rw e (
          insert_by-IsDescending d (sort_by newest (select p ds))
            (All-sort_by newest P (select p ds)
              (All-select P p ds (any-eq-false (has_id d.id) ds k.0)))
            ih)
      | inr e ↦ rw e ih
    ]

select-select :
    (p q r : Delivery → Bool) (xs : List Delivery)
    → ((x : Delivery) → r x ≡ (p x && q x))
    → select r xs ≡ select q (select p xs)
select-select p q r [] e = refl
select-select p q r (x ∷ xs) e = ground (arith, select-select p q r xs e, e x)

abbrev drop : ℕ → List Delivery → List Delivery
drop zero ds = ds
drop (suc n) [] = []
drop (suc n) (d ∷ ds) = drop n ds

abbrev last {ℓ} : {A : Type ℓ} → List A → Option A
last [] = none
last (x ∷ []) = some x
last (x ∷ y ∷ ys) = last (y ∷ ys)

abbrev below : ℕ → Delivery → Bool
below i d = ltb d.id i

select-All-below : (i : ℕ) (ds : List Delivery) → All (λ d. d.id < i) ds → select (below i) ds ≡ ds
select-All-below i [] h = refl
select-All-below i (d ∷ ds) h = ground (arith, select-All-below i ds h.1, h.0)

last-below :
    (i : ℕ) (ds : List Delivery) (d : Delivery)
    → All (λ e. e.id < i) ds
    → last ds ≡ some d
    → d.id < i
last-below i [] d h e = ground arith
last-below i (x ∷ []) d h e = ground (arith, h.0, e)
last-below i (x ∷ y ∷ ys) d h e = last-below i (y ∷ ys) d h.1 e

-- Behind the last row of a page stands what the page left out.
select-below :
    (n : ℕ) (ds : List Delivery) (d : Delivery)
    → IsDescending ds
    → last (take (suc n) ds) ≡ some d
    → select (below d.id) ds ≡ drop (suc n) ds
select-below n [] d h e = ground arith
select-below zero (x ∷ xs) d h e =
    let same : x ≡ d = cc in ground (arith, select-All-below x.id xs h.0, same)
select-below (suc n) (x ∷ []) d h e = ground arith
select-below (suc n) (x ∷ y ∷ ys) d h e =
    let P = (λ (z : Delivery). z.id < x.id) in
    let under = last-below x.id (y ∷ take n ys) d (h.0.0, All-take P n ys h.0.1) e in
    ground (arith, select-below n (y ∷ ys) d h.1 e, under)

take-drop : (n : ℕ) (ds : List Delivery) → take n ds ++ drop n ds ≡ ds
take-drop zero ds = refl
take-drop (suc n) [] = refl
take-drop (suc n) (d ∷ ds) = ap (λ z. d ∷ z) (take-drop n ds)

length-drop : (n : ℕ) (ds : List Delivery) → length (drop n ds) ≤ length ds
length-drop zero ds = omega arith
length-drop (suc n) [] = omega arith
length-drop (suc n) (d ∷ ds) = omega (arith, length-drop n ds)

length-drop-lt :
    (n : ℕ) (ds : List Delivery) (d : Delivery)
    → last (take (suc n) ds) ≡ some d
    → length (drop (suc n) ds) < length ds
length-drop-lt n [] d e = ground arith
length-drop-lt n (x ∷ xs) d e = omega (arith, length-drop n xs)

last-none : (n : ℕ) (ds : List Delivery) → last (take (suc n) ds) ≡ none → ds ≡ []
last-none n [] e = refl
last-none zero (x ∷ xs) e = ground arith
last-none (suc n) (x ∷ []) e = ground arith
last-none (suc n) (x ∷ y ∷ ys) e = let bad = last-none n (y ∷ ys) e in ground (arith, bad)

last-map : (ds : List Delivery) → last (map row_to_delivery ds) ≡ public_row (last ds)
last-map [] = refl
last-map (x ∷ []) = refl
last-map (x ∷ y ∷ ys) = last-map (y ∷ ys)

is_older-next :
    (before_id : Option ℕ) (x d : Delivery)
    → is_older before_id x ≡ true
    → is_older (some x.id) d ≡ (is_older before_id d && below x.id d)
is_older-next none x d h = refl
is_older-next (some b) x d h = ground arith

last_holds :
    (p : Delivery → Bool) (ds : List Delivery) (d : Delivery)
    → All (λ e. p e ≡ true) ds
    → last ds ≡ some d
    → p d ≡ true
last_holds p [] d h e = ground arith
last_holds p (x ∷ []) d h e = ground (arith, h.0, e)
last_holds p (x ∷ y ∷ ys) d h e = last_holds p (y ∷ ys) d h.1 e

map-append :
    (xs ys : List Delivery)
    → map row_to_delivery xs ++ map row_to_delivery ys ≡ map row_to_delivery (xs ++ ys)
map-append [] ys = refl
map-append (x ∷ xs) ys = ap (λ z. row_to_delivery x ∷ z) (map-append xs ys)

page_size-positive : (limit : ℕ) → (n : ℕ) × (page_size limit ≡ suc n)
page_size-positive limit = (page_size limit - 1, omega arith)

-- A page and what follows it are the whole history, if what follows it is the rest.
page_then :
    (follow : DeliveryPublic → List DeliveryPublic) (n : ℕ) (ds : List Delivery)
    → ((d : Delivery)
        → last (take (suc n) ds) ≡ some d
        → follow (row_to_delivery d) ≡ map row_to_delivery (drop (suc n) ds))
    → let page = map row_to_delivery (take (suc n) ds) in
      (page ++ elim (last page) as (λ o. List DeliveryPublic) [ none ↦ [] | some d ↦ follow d ])
      ≡ map row_to_delivery ds
page_then follow n ds rest = elim (Option-cases (last (take (suc n) ds))) [
  | inl e ↦ rw (last-map (take (suc n) ds), e, last-none n ds e) refl
  | inr (d, e) ↦
      rw (last-map (take (suc n) ds), e, rest d e)
        (map-append (take (suc n) ds) (drop (suc n) ds)
          ∙ ap (map row_to_delivery) (take-drop (suc n) ds))
]

module _ (webhook_id limit : ℕ) (status : Option String) (ds : List Delivery) where
  -- A client that asks for the newest page and then for what is older than the last row it got.
  abbrev pub walk : ℕ → Option ℕ → List DeliveryPublic
  walk zero before_id = []
  walk (suc fuel) before_id =
      let page = list_deliveries webhook_id limit status before_id ds in
      page ++ elim (last page) [ none ↦ [] | some d ↦ walk fuel (some d.id) ]

  history-next :
      (n : ℕ) (before_id : Option ℕ) (d : Delivery)
      → IsKeyed ds
      → last (take (suc n) (history webhook_id status before_id ds)) ≡ some d
      → history webhook_id status (some d.id) ds
        ≡ drop (suc n) (history webhook_id status before_id ds)
  history-next n before_id d k e =
      let p = is_listed webhook_id status before_id in
      let H = history webhook_id status before_id ds in
      let listed =
        last_holds p (take (suc n) H) d
          (All-take (λ e. p e ≡ true) (suc n) H
            (All-sort_by newest (λ e. p e ≡ true) (select p ds) (select_holds p ds)))
          e in
      let older : is_older before_id d ≡ true = (and_parts _ _ listed).1 in
      let narrowed =
        select-select p (below d.id) (is_listed webhook_id status (some d.id)) ds
          (λ x. ground (arith, is_older-next before_id d x older)) in
      ap (sort_by newest) narrowed
      ∙ sym (select-sort_by (below d.id) (select p ds) (λ x y l b. ground (arith, l, b)))
      ∙ select-below n H d (sort_by-IsDescending p ds k) e

  -- In a table with unique ids the pages that a client gets by the cursor, put together, are every
  -- delivery that its filters and its first cursor let through, once each and newest first, in
  -- whatever pages they come, if it asks for more pages than there are deliveries.
  pub walk-history :
      (fuel : ℕ) (before_id : Option ℕ)
      → IsKeyed ds
      → length (history webhook_id status before_id ds) < fuel
      → walk fuel before_id ≡ map row_to_delivery (history webhook_id status before_id ds)
  unfolding list_deliveries
  walk-history zero before_id k l = ground arith
  walk-history (suc fuel) before_id k l =
      let H = history webhook_id status before_id ds in
      let n = page_size-positive limit in
      rw n.1 (
        page_then (λ d. walk fuel (some d.id)) n.0 H
          (λ d e.
            let next = history-next n.0 before_id d k e in
            walk-history fuel (some d.id) k (rw next (omega (arith, length-drop-lt n.0 H d e, l)))
            ∙ ap (map row_to_delivery) next))
