-- ===== src/Records/Tests.antt =====
-- The listing of five production records of two databases.
use server_api.Prelude.{
  ℕ, ◌≤◌, ◌≡◌, refl, true, false, ◌&&◌, none, some, List, [], ◌∷◌, String, arith, length, All,
  Response, codes, pos, map, ltb, min, sort_by,
}
use server_api.Records.Like.{
  Text, escape_like_wildcards, tokens, like, contains_pattern, prefix_pattern, contains,
  starts_with, like-escape,
}
use server_api.Records.Filters.{
  Record, Row, Cursor, RecordsFilters, build_records_filters, source_text, sql, item_code_is,
  q_like, lot_like, from_date, before_date, at_least, at_most, below_cursor,
}
use server_api.Database.{live}
use server_api.Records.Filters.Bound.{where_holds, passes, at_cursor, build_records_filters-holds}
use server_api.Records.Pages.{absent, date, date_range, get_records, listed}
use server_api.Records.Pages.Distinct.{AreUnique}
use server_api.Records.Pages.Follow.{follow}
use server_api.Records.Pages.Complete.{get_records_complete}
use server_api.Records.Pages.Stored.{matching}
use server_api.Records.Pages.Answers.{
  is_some, is_ok, is_valid, in_order, date_range_valid, get_records_answers, found, page_for,
}

abbrev hundred_percent : Text
hundred_percent = codes "100%"

escapes : escape_like_wildcards hundred_percent ≡ codes "100\\%"
unfolding escape_like_wildcards
escapes = refl

not_a_wildcard : like (contains_pattern hundred_percent) (codes "1000") ≡ false
unfolding like tokens escape_like_wildcards
not_a_wildcard = refl

like-escape_example :
    (like (contains_pattern hundred_percent) (codes "is 100% A")
      ≡ contains hundred_percent (codes "is 100% A"))
    × (like (prefix_pattern hundred_percent) (codes "is 100% A")
        ≡ starts_with hundred_percent (codes "is 100% A"))
like-escape_example = like-escape hundred_percent (codes "is 100% A")

abbrev produced : ℕ → ℕ → String → Record
produced id day code = record {
  id = id;
  production_date = day;
  item_code = some (codes code);
  item_name = some (codes "Ink");
  lot_number = none;
  good_quantity = some (pos 10);
}

abbrev archived : List Record
archived = produced 1 10 "BW0021" ∷ produced 2 20 "BW0022" ∷ []

abbrev current : List Record
current = produced 1 100 "BW0021" ∷ produced 2 120 "BW0021" ∷ produced 3 120 "XX" ∷ []

abbrev of_bw : RecordsFilters
of_bw = record {
  item_code = none;
  q = some (codes "bw");
  lot_number = none;
  min_quantity = none;
  max_quantity = some 10;
}

abbrev at_row : Row
at_row = record { source = live; stored = produced 1 100 "BW0021" }

abbrev from_last : Cursor
from_last = record { d = 120; src = source_text live; id = 2 }

build_records_filters-holds_example :
    where_holds
      (build_records_filters of_bw (some 10) none (some from_last)).0
      (build_records_filters of_bw (some 10) none (some from_last)).1
      at_row
    ≡ some (passes of_bw (some 10) none at_row && at_cursor (some from_last) at_row)
build_records_filters-holds_example =
    build_records_filters-holds of_bw (some 10) none (some from_last) at_row

all_dates : date_range absent absent ≡ Response.ok (none, none)
unfolding date_range
all_dates = refl

archived_unique : AreUnique archived
archived_unique = ((refl, tt), (tt, tt))

current_unique : AreUnique current
current_unique = ((refl, (refl, tt)), ((refl, tt), (tt, tt)))

abbrev wanted : List Row
wanted = matching 50 true archived current (passes of_bw none none)

four_rows : length wanted ≤ 4
unfolding passes
four_rows = omega arith

get_records_complete_example :
    follow 4 (λ c. get_records 50 true archived current of_bw absent absent c 2 0) none
    ≡ sort_by listed wanted
get_records_complete_example =
    get_records_complete 50 true archived current of_bw absent absent none none 2 4 archived_unique
      current_unique all_dates (omega arith) four_rows

date_range_valid_example :
    is_ok (date_range (date 10) (date 3652059))
    ≡ (is_valid 0 (date 10) && is_valid 1 (date 3652059) && in_order (date 10) (date 3652059))
date_range_valid_example = date_range_valid (date 10) (date 3652059)

get_records_answers_example :
    let rows = found 50 true archived current of_bw none none (some from_last) 0 in
    let page = page_for 2 rows in
    (get_records 50 true archived current of_bw absent absent (some from_last) 2 0
      ≡ Response.ok page)
    × All (λ r. (passes of_bw none none r && at_cursor (some from_last) r) ≡ true) page.data_rows
    × (length page.data_rows ≡ min 2 (length rows))
    × (is_some page.next_cursor ≡ ltb 2 (length rows))
get_records_answers_example =
    get_records_answers 50 true archived current of_bw absent absent none none (some from_last) 2 0
      all_dates (omega arith)

-- The texts of the clauses, as `_build_records_filters` writes them.
clause_texts :
    map sql (
      item_code_is ∷ q_like ∷ lot_like ∷ from_date ∷ before_date ∷ at_least ∷ at_most ∷ below_cursor
      ∷ [])
    ≡ "item_code = ?"
      ∷ "(item_code LIKE ? ESCAPE '\\' OR item_name LIKE ? ESCAPE '\\' OR lot_number LIKE ? ESCAPE '\\')"
      ∷ "lot_number LIKE ? ESCAPE '\\'" ∷ "production_date >= ?" ∷ "production_date < ?"
      ∷ "good_quantity >= ?" ∷ "good_quantity <= ?"
      ∷ "(production_date < ? OR (production_date = ? AND source < ?) OR (production_date = ? AND source = ? AND id < ?))"
      ∷ []
clause_texts = refl
