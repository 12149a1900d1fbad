-- ===== src/Materials/Router.antt =====
-- The bodies of the routes of api/routers/materials.py, on the tables and the run history together.
--
-- A body that reads the clock twice takes two readings. The filters of `list_rows` are those of
-- `list_materials`.
pub mod Buried
pub mod Deleted
use server_api.Prelude.{
  ℕ, Bool, Option, none, some, List, [], ◌∷◌, String, ltb, ◌==◌, if◌then◌else◌, decimal, Response,
  ok, http_error,
}
use Prim.Native.String.{◌++◌ as text_append}
use server_api.Materials.Datasets.{Dataset}
use server_api.Materials.Model.{MaterialRow, MaterialPublic, MaterialsDb, BackupResult}
use server_api.Materials.Store.{upsert_materials, get_document, delete_document, restore_document}
use server_api.Materials.Runs.{
  MaterialRun, Store, record_backup_run, get_run, Triggered, started, refused, status_code,
  trigger_automation,
}

pub record Server : Type 0 where
  pub db : MaterialsDb
  pub store : Store

abbrev skipped_note : ℕ → Option String
skipped_note n = if ltb 0 n then some (text_append "tombstone skipped=" (decimal n)) else none

unfoldable pub backup_body : Dataset → List MaterialRow → ℕ → ℕ → Server → BackupResult × Server
backup_body ds rows now recorded_at server =
    let (result, db) = upsert_materials rows ds.table now server.db in
    let (id, store) =
      record_backup_run result.upserted result.inserted result.updated ds.runs_table
        (skipped_note result.skipped) recorded_at server.store in
    (result, record { db = db; store = store })

abbrev triggered : Triggered → Response ℕ
triggered (started id) = ok id
triggered (refused why) = http_error (status_code why)

unfoldable pub trigger_run_body : Bool → Bool → Dataset → ℕ → Server → Response ℕ × Server
trigger_run_body enabled has_bot ds now server =
    let (answer, store) = trigger_automation enabled has_bot ds.runs_table now server.store in
    (triggered answer, record server { store = store })

abbrev found_run : Option MaterialRun → Response MaterialRun
found_run none = http_error 404
found_run (some run) = ok run

unfoldable pub get_run_body : Dataset → ℕ → Server → Response MaterialRun
get_run_body ds id server = found_run (get_run id ds.runs_table server.store)

abbrev found_rows : List MaterialPublic → Response (List MaterialPublic)
found_rows [] = http_error 404
found_rows (m ∷ ms) = ok (m ∷ ms)

unfoldable pub get_row_body : Dataset → String → Server → Response (List MaterialPublic)
get_row_body ds doc server = found_rows (get_document doc ds.table server.db)

abbrev or_404 : ℕ → Response ℕ
or_404 n = if n == 0 then http_error 404 else ok n

unfoldable pub delete_row_body : Dataset → String → ℕ → Server → Response ℕ × Server
delete_row_body ds doc now server =
    let (deleted, db) = delete_document doc ds.table now server.db in
    (or_404 deleted, record server { db = db })

unfoldable pub restore_row_body : Dataset → String → Server → Response ℕ × Server
restore_row_body ds doc server =
    let (restored, db) = restore_document doc ds.table server.db in
    (or_404 restored, record server { db = db })
