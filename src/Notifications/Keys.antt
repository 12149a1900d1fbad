-- ===== src/Notifications/Keys.antt =====
-- The primary key of `webhook_deliveries`, and the changes of the table that keep it one.
use server_api.Prelude.{
  ℕ, ◌<◌, ◌≡◌, refl, ◌∙◌, Bool, false, List, [], ◌∷◌, ◌++◌, map, arith, ◌==◌, select, any, All,
  Bool-cases, inl, inr,
}
use server_api.Notifications.Model.{Delivery}
use server_api.Notifications.Deliveries.{has_id}

-- No two rows have one id.
abbrev pub IsKeyed : List Delivery → Type 0
IsKeyed [] = Unit
IsKeyed (d ∷ ds) = (any (has_id d.id) ds ≡ false) × IsKeyed ds

-- The rows stay the rows they were.
abbrev pub KeepsKeys : (Delivery → Delivery) → Type 0
KeepsKeys f = (d : Delivery) → ((f d).id ≡ d.id) × ((f d).webhook_id ≡ d.webhook_id)

any_id-append :
    (i : ℕ) (ds : List Delivery) (d : Delivery)
    → any (has_id i) ds ≡ false
    → (d.id == i) ≡ false
    → any (has_id i) (ds ++ d ∷ []) ≡ false
any_id-append i [] d h n = ground arith
any_id-append i (e ∷ es) d h n = ground (arith, any_id-append i es d)

pub append-IsKeyed :
    (ds : List Delivery) (d : Delivery)
    → All (λ e. e.id < d.id) ds
    → IsKeyed ds
    → IsKeyed (ds ++ d ∷ [])
append-IsKeyed [] d l k = (refl, tt)
append-IsKeyed (e ∷ es) d l k =
    (any_id-append e.id es d k.0 (ground (arith, l.0)), append-IsKeyed es d l.1 k.1)

any_id-select :
    (p : Delivery → Bool) (i : ℕ) (ds : List Delivery)
    → any (has_id i) ds ≡ false
    → any (has_id i) (select p ds) ≡ false
any_id-select p i [] h = refl
any_id-select p i (d ∷ ds) h = ground (arith, any_id-select p i ds)

pub select-IsKeyed : (p : Delivery → Bool) (ds : List Delivery) → IsKeyed ds → IsKeyed (select p ds)
select-IsKeyed p [] k = tt
select-IsKeyed p (d ∷ ds) k = elim (Bool-cases (p d)) [
  | inl e ↦ rw e (any_id-select p d.id ds k.0, select-IsKeyed p ds k.1)
  | inr e ↦ rw e (select-IsKeyed p ds k.1)
]

any_id-map :
    (f : Delivery → Delivery) (i : ℕ) (ds : List Delivery)
    → KeepsKeys f
    → any (has_id i) (map f ds) ≡ any (has_id i) ds
any_id-map f i [] keeps = refl
any_id-map f i (d ∷ ds) keeps = ground (arith, any_id-map f i ds keeps, (keeps d).0)

pub map-IsKeyed :
    (f : Delivery → Delivery) (ds : List Delivery) → KeepsKeys f → IsKeyed ds → IsKeyed (map f ds)
map-IsKeyed f [] keeps k = tt
map-IsKeyed f (d ∷ ds) keeps k =
    (rw (keeps d).0 (any_id-map f d.id ds keeps ∙ k.0), map-IsKeyed f ds keeps k.1)
