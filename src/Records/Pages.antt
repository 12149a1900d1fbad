-- ===== src/Records/Pages.antt =====
-- `get_records`: the dates of a request, the statement over the databases, and the page of its rows.
--
-- A date is the number of its day; text that is no date is `malformed`. A cursor stands decoded:
-- one that does not decode is none. `cutoff` and `archive_exists` are those of the databases.
pub mod Order
pub mod Distinct
pub mod Follow
pub mod Complete
pub mod Stored
pub mod Answers
use server_api.Prelude.{
  ℕ, suc, zero, ◌+◌, Bool, true, false, ◌&&◌, Option, none, some, List, [], ◌∷◌, map, String, ltb,
  leb, ◌==◌, codes_eq, if◌then◌else◌, take, length, sort_by, Response, ok, http_error,
}
use server_api.Database.{Source, archive, live, Statement, pick_targets, build_union_sql}
use server_api.Database.Routing.{rows_of}
use server_api.Records.Filters.{
  Record, Row, Cursor, RecordsFilters, source_text, where_clause, Conditions, build_records_filters,
  codes_lt,
}
use server_api.Records.Filters.Bound.{where_holds}

pub data DateParam : Type 0 where
  absent malformed : DateParam
  date : ℕ → DateParam

-- The day of `date.max`, above which the addition raises an `OverflowError`.
abbrev pub max_day : ℕ
max_day = 3652059

abbrev pub normalize_date : ℕ → DateParam → Response (Option ℕ)
normalize_date add_days absent = ok none
normalize_date add_days malformed = http_error 400
normalize_date add_days (date d) =
    if add_days == 0
    then ok (some d)
    else if leb (d + add_days) max_day
    then ok (some (d + add_days))
    else http_error 500

-- `_validate_date_range(date_from_n, date_to)`.
abbrev pub is_range : Option ℕ → DateParam → Bool
is_range (some from) (date to) = leb from to
is_range _ _ = true

-- The dates that the statement takes, the upper one exclusive.
abbrev range_or_400 : Bool → Option ℕ → Option ℕ → Response (Option ℕ × Option ℕ)
range_or_400 valid from to = if valid then ok (from, to) else http_error 400

abbrev with_to : DateParam → Option ℕ → Response (Option ℕ) → Response (Option ℕ × Option ℕ)
with_to date_to from (http_error e) = http_error e
with_to date_to from (ok to) = range_or_400 (is_range from date_to) from to

abbrev with_from : DateParam → Response (Option ℕ) → Response (Option ℕ × Option ℕ)
with_from date_to (http_error e) = http_error e
with_from date_to (ok from) = with_to date_to from (normalize_date 1 date_to)

unfoldable pub date_range : DateParam → DateParam → Response (Option ℕ × Option ℕ)
date_range date_from date_to = with_from date_to (normalize_date 0 date_from)

pub record Page : Type 0 where
  pub data_rows : List Row
  pub next_cursor : Option Cursor
  pub has_more : Bool
  pub row_count : ℕ

abbrev pub cursor_of : Row → Cursor
cursor_of r = record { d = r.stored.production_date; src = source_text r.source; id = r.stored.id }

-- `results[-1]`, if there is one.
abbrev pub last_cursor : List Row → Option Cursor
last_cursor [] = none
last_cursor (r ∷ []) = some (cursor_of r)
last_cursor (r ∷ s ∷ rs) = last_cursor (s ∷ rs)

-- `ORDER BY production_date DESC, source DESC, id DESC`.
abbrev pub listed : Row → Row → Bool
listed a b =
    if ltb b.stored.production_date a.stored.production_date
    then true
    else (a.stored.production_date == b.stored.production_date)
      && (if codes_lt (source_text b.source) (source_text a.source)
          then true
          else codes_eq (source_text a.source) (source_text b.source)
            && leb b.stored.id a.stored.id)

abbrev pub from_source : Source → Record → Row
from_source s r = record { source = s; stored = r }

abbrev pub holds : Option Bool → Bool
holds none = false
holds (some b) = b

abbrev pub drop_rows : ℕ → List Row → List Row
drop_rows zero rs = rs
drop_rows (suc n) [] = []
drop_rows (suc n) (r ∷ rs) = drop_rows n rs

abbrev pub select_columns : String
select_columns = "id, production_date, lot_number, item_code, item_name, good_quantity"

abbrev pub order_by : String
order_by = "production_date DESC, source DESC, id DESC"

unfoldable pub page_of : ℕ → List Row → Page
page_of limit all_results =
    let has_more = ltb limit (length all_results) in
    let results = take limit all_results in
    record {
      data_rows = results;
      next_cursor = if has_more then last_cursor results else none;
      has_more = has_more;
      row_count = length results;
    }

-- The offset counts only without a cursor.
abbrev pub offset_of : Option Cursor → ℕ → ℕ
offset_of none offset = offset
offset_of (some c) offset = 0

module _ (cutoff : ℕ) (archive_exists : Bool) (old new : List Record) where
  -- The rows that the branches of a statement read, `p` the test of the `WHERE` clause.
  abbrev pub union_rows : (Row → Bool) → Statement → List Row
  union_rows p sql =
      rows_of (λ (r : Row). r.stored.production_date) cutoff p (map (from_source archive) old)
        (map (from_source live) new) sql.branches

  abbrev pub statement_of : Conditions → Option ℕ → Option ℕ → ℕ → Statement
  statement_of conditions from to limit =
      (build_union_sql archive_exists select_columns (where_clause conditions.0)
        (pick_targets cutoff from to) order_by (some (limit + 1)) true).0

  unfoldable pub query_rows :
      RecordsFilters → Option ℕ → Option ℕ → Option Cursor → ℕ → ℕ → List Row
  query_rows f from to cursor limit offset =
      let conditions = build_records_filters f from to cursor in
      let test = (λ (r : Row). holds (where_holds conditions.0 conditions.1 r)) in
      take (limit + 1) (
        drop_rows (offset_of cursor offset)
          (sort_by listed (union_rows test (statement_of conditions from to limit))))

  abbrev answer :
      RecordsFilters → Option Cursor → ℕ → ℕ → Response (Option ℕ × Option ℕ) → Response Page
  answer f cursor limit offset (http_error e) = http_error e
  answer f cursor limit offset (ok (from, to)) =
      ok (page_of limit (query_rows f from to cursor limit offset))

  unfoldable pub get_records :
      RecordsFilters → DateParam → DateParam → Option Cursor → ℕ → ℕ → Response Page
  get_records f date_from date_to cursor limit offset =
      answer f cursor limit offset (date_range date_from date_to)
