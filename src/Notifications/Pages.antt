-- ===== src/Notifications/Pages.antt =====
-- `list_deliveries` of api/notifications/deliveries_repo.py: keyset pages, newest first.
pub mod Walk
use server_api.Prelude.{
  ℕ, Bool, true, ◌&&◌, Option, none, some, List, [], ◌∷◌, map, String, ltb, leb, ◌==◌, str_eq, max,
  min, take, select, sort_by,
}
use server_api.Notifications.Model.{
  Status, pending, queued, in_flight, retrying, success, failure, dead, skipped, Delivery,
}
use server_api.Notifications.Deliveries.{DeliveryPublic, row_to_delivery}

abbrev pub status_text : Status → String
status_text pending = "pending"
status_text queued = "queued"
status_text in_flight = "in_flight"
status_text retrying = "retrying"
status_text success = "success"
status_text failure = "failure"
status_text dead = "dead"
status_text skipped = "skipped"

-- `if status:`: the empty text filters nothing.
abbrev pub status_is : Option String → Delivery → Bool
status_is none d = true
status_is (some String.[]) d = true
status_is (some (String.◌∷◌ c s)) d = str_eq (status_text d.status) (String.◌∷◌ c s)

abbrev pub is_older : Option ℕ → Delivery → Bool
is_older none d = true
is_older (some before_id) d = ltb d.id before_id

abbrev pub is_listed : ℕ → Option String → Option ℕ → Delivery → Bool
is_listed webhook_id status before_id d =
    (d.webhook_id == webhook_id && status_is status d) && is_older before_id d

-- `ORDER BY id DESC`.
abbrev pub newest : Delivery → Delivery → Bool
newest a b = leb b.id a.id

abbrev pub page_size : ℕ → ℕ
page_size limit = max 1 (min limit 500)

abbrev pub history : ℕ → Option String → Option ℕ → List Delivery → List Delivery
history webhook_id status before_id ds =
    sort_by newest (select (is_listed webhook_id status before_id) ds)

unfoldable pub list_deliveries :
    ℕ → ℕ → Option String → Option ℕ → List Delivery → List DeliveryPublic
list_deliveries webhook_id limit status before_id ds =
    map row_to_delivery (take (page_size limit) (history webhook_id status before_id ds))
