-- ===== src/Materials/Tests.antt =====
-- The intake of materials on two documents and a run.
use server_api.Prelude.{
  Response, ℕ, ◌+◌, ◌≤◌, ◌≡◌, refl, true, not, none, some, List, [], ◌∷◌, String, arith, str_eq,
  if◌then◌else◌, length, find, pos, text_length,
}
use server_api.Materials.Datasets.{materials}
use server_api.Materials.Model.{MaterialRow, Key, MaterialsDb, same_key}
use server_api.Materials.DocDate.{doc_date}
use server_api.Materials.DocDate.Dashes.{undashed, first_chars, ascii_digits, doc_date_roundtrip}
use server_api.Materials.Store.{
  dedupe, is_tombstoned, stored_as, row_key, upsert_row, changes, upsert_rows, upsert_materials,
  delete_document, count_materials,
}
use server_api.Materials.Store.Upsert.{merge, last_for, upsert_materials_stores}
use server_api.Materials.Store.Counts.{upsert_materials_counts}
use server_api.Materials.Store.Resend.{upsert_materials_again}
use server_api.Materials.Store.Listing.{Filters, list_materials}
use server_api.Materials.Runs.{Store, trigger_automation}
use server_api.Materials.Runs.Single.{active_total, Step, Steps, Steps-total}
use server_api.Materials.Router.{Server, backup_body, delete_row_body, get_row_body}
use server_api.Materials.Router.Buried.{NoneBuried, Steps-NoneBuried}
use server_api.Materials.Router.Buried
use server_api.Materials.Router.Deleted.{delete_row_body_stays}

abbrev no_runs : Store
no_runs _ = record { runs = []; last_id = 0 }

abbrev no_rows : MaterialsDb
no_rows = record { tables = λ _. []; tombstones = [] }

abbrev row : String → ℕ → String → MaterialRow
row doc seq name = record {
  doc_number = doc;
  seq = some (pos seq);
  material_code = none;
  material_name = some name;
  request_qty_g = some "12.5";
  reason = none;
  request_dept = some "QC";
  drafter = none;
  processed_at = none;
  keyword = some "자재";
}

abbrev batch : List MaterialRow
batch =
    row "20260105-1" 1 "a"
    ∷ row "20260105-1" 2 "b"
    ∷ row "20260106-7" 1 "c"
    ∷ row "20260105-1" 1 "d"
    ∷ []

abbrev one_key : Key
one_key = row_key (row "20260105-1" 1 "a")

abbrev filled : MaterialsDb
filled = (upsert_materials batch "material_requests" 100 no_rows).1

three_rows : (upsert_materials batch "material_requests" 100 no_rows).0.inserted ≡ 3
unfolding upsert_materials upsert_rows upsert_row changes dedupe same_key
three_rows = refl

date_of_document : doc_date "20260105-1" ≡ some "2026-01-05"
unfolding doc_date
date_of_document = refl

-- A year in full-width digits is read as one, a month is not.
reads_full_width : doc_date "２０２５1127P001" ≡ some "2025-11-27"
unfolding doc_date
reads_full_width = refl

skips_full_width : doc_date "2025１127P001" ≡ none
unfolding doc_date
skips_full_width = refl

doc_date_roundtrip_example :
    (undashed "2026-01-05" ≡ ascii_digits (first_chars 8 "20260105-1"))
    × (text_length "2026-01-05" ≡ 10)
    × (doc_date (undashed "2026-01-05") ≡ some "2026-01-05")
doc_date_roundtrip_example = doc_date_roundtrip "20260105-1" "2026-01-05" date_of_document

-- The last row of the batch for its key wins.
upsert_materials_stores_example :
    (find (stored_as one_key) (filled.tables "material_requests") ≡ (
      if str_eq "material_requests" "material_requests"
      then merge 100
          (if not (is_tombstoned "material_requests" [] "20260105-1")
            then last_for one_key batch
            else none)
          none
      else none))
    × (filled.tombstones ≡ [])
upsert_materials_stores_example =
    upsert_materials_stores batch "material_requests" "material_requests" 100 no_rows one_key

upsert_materials_counts_example :
    let (result, after) = upsert_materials batch "material_requests" 100 no_rows in
    (result.upserted + result.skipped ≡ length (dedupe batch))
    × (result.inserted + result.updated ≤ result.upserted)
    × (count_materials "material_requests" after
        ≡ count_materials "material_requests" no_rows + result.inserted)
upsert_materials_counts_example = upsert_materials_counts batch "material_requests" 100 no_rows

upsert_materials_again_example :
    let (first, once) = upsert_materials batch "material_requests" 100 no_rows in
    let (again, twice) = upsert_materials batch "material_requests" 200 once in
    (twice.tables "material_requests" ≡ once.tables "material_requests")
    × (again.upserted ≡ first.upserted)
    × (again.skipped ≡ first.skipped)
    × (again.inserted ≡ 0)
    × (again.updated ≡ 0)
upsert_materials_again_example =
    upsert_materials_again batch "material_requests" "material_requests" 100 200 no_rows

abbrev from_2026_01_06 : Filters
from_2026_01_06 = record {
  request_dept = none;
  keyword = some "자재";
  date_from = some "2026-01-06";
  date_to = none;
}

lists_one : length (list_materials "material_requests" from_2026_01_06 (pos 10) filled) ≡ 1
unfolding list_materials upsert_materials upsert_rows upsert_row changes dedupe same_key doc_date
lists_one = refl

abbrev empty_server : Server
empty_server = record { db = no_rows; store = no_runs }

abbrev with_rows : Server
with_rows = (backup_body materials batch 100 100 empty_server).1

abbrev without_one : Server
without_one = (delete_row_body materials "20260105-1" 110 with_rows).1

abbrev resent : Buried.Steps without_one (backup_body materials batch 120 120 without_one).1
resent = Buried.Steps.next Buried.Steps.done (Buried.Step.backed_up materials batch 120 120)

none_buried : NoneBuried with_rows.db
none_buried =
    Steps-NoneBuried
      (Buried.Steps.next Buried.Steps.done
        (Buried.Step.backed_up materials batch 100 100 {server = empty_server}))
      (λ t. refl)

Steps-NoneBuried_example : NoneBuried (backup_body materials batch 120 120 without_one).1.db
Steps-NoneBuried_example =
    Steps-NoneBuried
      (Buried.Steps.next
        (Buried.Steps.next Buried.Steps.done
          (Buried.Step.deleted materials "20260105-1" 110 {server = with_rows}))
        (Buried.Step.backed_up materials batch 120 120 {server = without_one}))
      none_buried

two_deleted : (delete_row_body materials "20260105-1" 110 with_rows).0 ≡ Response.ok 2
unfolding delete_row_body delete_document backup_body upsert_materials upsert_rows upsert_row
    changes dedupe same_key
two_deleted = refl

delete_row_body_stays_example :
    get_row_body materials "20260105-1" (backup_body materials batch 120 120 without_one).1
    ≡ Response.http_error 404
delete_row_body_stays_example =
    delete_row_body_stays materials "20260105-1" 110 2 with_rows
      (backup_body materials batch 120 120 without_one).1 none_buried two_deleted resent refl

abbrev two_triggers :
    Steps no_runs
      (trigger_automation true true "binder_runs" 20
        (trigger_automation true true "material_runs" 10 no_runs).1).1
two_triggers =
    Steps.next
      (Steps.next Steps.done (Step.triggered true true "material_runs" 10 {store = no_runs}))
      (Step.triggered true true "binder_runs" 20)

Steps-total_example :
    active_total
      (trigger_automation true true "binder_runs" 20
        (trigger_automation true true "material_runs" 10 no_runs).1).1
    ≤ 1
Steps-total_example = Steps-total two_triggers (omega arith)
