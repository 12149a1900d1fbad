-- ===== src/Materials/Store.antt =====
-- api/materials/store.py: the operations on the tables of material requests and on the tombstones.
--
-- The lookups by document number, which the source makes for 500 numbers at a time, are tests on the
-- tables. `now` is the one reading of the clock that each operation makes.
pub mod Upsert
pub mod Counts
pub mod Resend
pub mod Listing
use server_api.Prelude.{
  ℕ, ◌+◌, ◌-◌, Bool, true, not, ◌&&◌, Option, none, some, List, [], ◌∷◌, ◌++◌, String, ltb, ◌==◌,
  str_eq, if◌then◌else◌, text_le, length, count, any, select, sort_by, ℤ, pos, int_le,
}
use server_api.Materials.Model.{
  MaterialRow, Contents, Key, Incoming, MaterialPublic, Tombstone, MaterialsDb, BackupResult,
  same_key, same_contents,
}
use server_api.Materials.DocDate.{doc_date}

-- `_seq_key`.
abbrev pub seq_key : Option ℤ → ℤ
seq_key none = pos 0
seq_key (some n) = n

-- The key of a row, and `_row_values` with the derived date.
abbrev pub row_key : MaterialRow → Key
row_key r = record { doc_number = r.doc_number; seq = seq_key r.seq }

abbrev pub row_contents : MaterialRow → Contents
row_contents r = record {
  material_code = r.material_code;
  material_name = r.material_name;
  request_qty_g = r.request_qty_g;
  reason = r.reason;
  request_dept = r.request_dept;
  drafter = r.drafter;
  processed_at = r.processed_at;
  keyword = r.keyword;
  doc_date = doc_date r.doc_number;
}

abbrev pub project : MaterialRow → Incoming
project r = record { key = row_key r; contents = row_contents r }

-- `deduped[key] = row`.
abbrev pub put_last : Incoming → List Incoming → List Incoming
put_last x [] = x ∷ []
put_last x (y ∷ ys) = let rest = put_last x ys in if same_key y.key x.key then x ∷ ys else y ∷ rest

abbrev pub dedupe_onto : List Incoming → List MaterialRow → List Incoming
dedupe_onto out [] = out
dedupe_onto out (r ∷ rs) = dedupe_onto (put_last (project r) out) rs

unfoldable pub dedupe : List MaterialRow → List Incoming
dedupe = dedupe_onto []

abbrev pub buries : String → String → Tombstone → Bool
buries table doc t = str_eq t.table_name table && str_eq t.doc_number doc

abbrev pub is_tombstoned : String → List Tombstone → String → Bool
is_tombstoned table tombstones doc = any (buries table doc) tombstones

abbrev pub stored_as : Key → MaterialPublic → Bool
stored_as k m = same_key m.key k

abbrev pub has_key : List MaterialPublic → Key → Bool
has_key rows k = any (stored_as k) rows

abbrev pub fresh_row : ℕ → Incoming → MaterialPublic
fresh_row now x = record { key = x.key; contents = x.contents; received_at = now; updated_at = now }

-- `ON CONFLICT … DO UPDATE … WHERE` a column differs.
abbrev pub overwrite : ℕ → Incoming → MaterialPublic → MaterialPublic
overwrite now x m =
    if same_contents x.contents m.contents
    then m
    else record m { contents = x.contents; updated_at = now }

-- One `INSERT … ON CONFLICT`, and the rows after it.
unfoldable pub upsert_row : ℕ → Incoming → List MaterialPublic → List MaterialPublic
upsert_row now x [] = fresh_row now x ∷ []
upsert_row now x (m ∷ ms) =
    let rest = upsert_row now x ms in if stored_as x.key m then overwrite now x m ∷ ms else m ∷ rest

-- Whether it counts as a change.
unfoldable pub changes : Incoming → List MaterialPublic → ℕ
changes x [] = 1
changes x (m ∷ ms) =
    let rest = changes x ms in
    if stored_as x.key m then (if same_contents x.contents m.contents then 0 else 1) else rest

-- `executemany`, with the growth of `total_changes`.
unfoldable pub upsert_rows : ℕ → List Incoming → List MaterialPublic → ℕ × List MaterialPublic
unfolding upsert_row changes
upsert_rows now [] rows = (0, rows)
upsert_rows now (x ∷ xs) rows =
    let (n, final) = upsert_rows now xs (upsert_row now x rows) in (changes x rows + n, final)

abbrev pub set_rows : String → List MaterialPublic → MaterialsDb → MaterialsDb
set_rows table rows db = record db {
  tables = λ other. if str_eq table other then rows else db.tables other;
}

-- What is left of a batch without the documents that were deleted.
abbrev pub incoming_of : String → List Tombstone → List MaterialRow → List Incoming
incoming_of table tombstones rows =
    select (λ x. not (is_tombstoned table tombstones x.key.doc_number)) (dedupe rows)

unfoldable pub upsert_materials :
    List MaterialRow → String → ℕ → MaterialsDb → BackupResult × MaterialsDb
upsert_materials rows table now db =
    let incoming = incoming_of table db.tombstones rows in
    let stored = db.tables table in
    let (written, after) = upsert_rows now incoming stored in
    let inserted = count (λ x. not (has_key stored x.key)) incoming in
    (
      record {
        upserted = length incoming;
        inserted = inserted;
        updated = written - inserted;
        skipped = count (λ x. is_tombstoned table db.tombstones x.key.doc_number) (dedupe rows);
      },
      set_rows table after db,
    )

abbrev pub of_document : String → MaterialPublic → Bool
of_document doc m = str_eq m.key.doc_number doc

abbrev by_seq : MaterialPublic → MaterialPublic → Bool
by_seq a b = int_le a.key.seq b.key.seq

unfoldable pub get_document : String → String → MaterialsDb → List MaterialPublic
get_document doc table db = sort_by by_seq (select (of_document doc) (db.tables table))

abbrev first_of : List MaterialPublic → Option MaterialPublic
first_of [] = none
first_of (m ∷ ms) = some m

unfoldable pub get_material : String → String → MaterialsDb → Option MaterialPublic
get_material doc table db = first_of (get_document doc table db)

-- `INSERT OR REPLACE INTO deleted_documents`.
abbrev pub bury : String → String → ℕ → List Tombstone → List Tombstone
bury table doc now ts =
    select (λ t. not (buries table doc t)) ts
    ++ record { table_name = table; doc_number = doc; deleted_at = now } ∷ []

unfoldable pub delete_document : String → String → ℕ → MaterialsDb → ℕ × MaterialsDb
delete_document doc table now db =
    let rowcount = count (of_document doc) (db.tables table) in
    let rows = select (λ m. not (of_document doc m)) (db.tables table) in
    let gone = set_rows table rows db in
    (
      rowcount,
      if ltb 0 rowcount
          then record gone { tombstones = bury table doc now db.tombstones }
          else gone,
    )

unfoldable pub restore_document : String → String → MaterialsDb → ℕ × MaterialsDb
restore_document doc table db = (
  count (buries table doc) db.tombstones,
  record db { tombstones = select (λ t. not (buries table doc t)) db.tombstones },
)

abbrev latest_deleted : Tombstone → Tombstone → Bool
latest_deleted a b =
    if ltb b.deleted_at a.deleted_at
    then true
    else (a.deleted_at == b.deleted_at) && text_le a.doc_number b.doc_number

unfoldable pub list_tombstones : String → MaterialsDb → List Tombstone
list_tombstones table db =
    sort_by latest_deleted (select (λ (t : Tombstone). str_eq t.table_name table) db.tombstones)

unfoldable pub count_materials : String → MaterialsDb → ℕ
count_materials table db = length (db.tables table)
