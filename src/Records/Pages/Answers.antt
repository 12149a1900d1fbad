-- ===== src/Records/Pages/Answers.antt =====
-- What one request to `get_records` is answered with.
use server_api.Prelude.{
  ℕ, zero, suc, ◌+◌, ◌≤◌, ◌≡◌, refl, ap, ◌∙◌, min, if◌then◌else◌, length-take, take-take, fun_ext,
  Bool, true, false, ◌&&◌, ◌||◌, Option, none, some, List, [], ◌∷◌, map, arith, ltb, leb, take,
  length, select, select_holds, sort_by, All, All-append, All-take, All-sort_by, All-weaken,
  Response, ok, http_error, Bool-cases, inl, inr, and_parts, ◌==◌,
}
use server_api.Database.{archive, live}
use server_api.Records.Filters.{Record, Row, Cursor, RecordsFilters, build_records_filters}
use server_api.Records.Filters.Bound.{where_holds, passes, at_cursor, build_records_filters-holds}
use server_api.Records.Pages.Stored.{matching, union_rows-matching, passes-in_range}
use server_api.Records.Filters.{where_clause}
use server_api.Records.Pages.{
  Page, select_columns, order_by, DateParam, absent, malformed, date, max_day, date_range,
  last_cursor, listed, from_source, holds, drop_rows, offset_of, union_rows, statement_of,
  query_rows, page_of, get_records,
}

abbrev pub is_some : Option Cursor → Bool
is_some none = false
is_some (some c) = true

abbrev pub is_ok : Response (Option ℕ × Option ℕ) → Bool
is_ok (ok r) = true
is_ok (http_error e) = false

-- A date that is given is one, and the upper one has a day after it.
abbrev pub is_valid : ℕ → DateParam → Bool
is_valid add_days absent = true
is_valid add_days malformed = false
is_valid add_days (date d) = (add_days == 0) || leb (d + add_days) max_day

abbrev pub in_order : DateParam → DateParam → Bool
in_order (date from) (date to) = leb from to
in_order _ _ = true

-- The dates of a request are taken exactly if each that is given is a date, the lower one is not
-- after the upper one, and the upper one is not the last day that there is: of this the next day
-- is taken.
pub date_range_valid :
    (date_from date_to : DateParam)
    → is_ok (date_range date_from date_to)
      ≡ (is_valid 0 date_from && is_valid 1 date_to && in_order date_from date_to)
unfolding date_range
date_range_valid absent absent = refl
date_range_valid absent malformed = refl
date_range_valid absent (date t) = ground arith
date_range_valid malformed t = refl
date_range_valid (date f) absent = refl
date_range_valid (date f) malformed = refl
date_range_valid (date f) (date t) = ground arith

last_cursor-is_some : (x : Row) (xs : List Row) → is_some (last_cursor (x ∷ xs)) ≡ true
last_cursor-is_some x [] = refl
last_cursor-is_some x (y ∷ ys) = last_cursor-is_some y ys

-- The page that `limit` cuts off the rows asked for.
abbrev pub page_for : ℕ → List Row → Page
page_for limit rows = record {
  data_rows = take limit rows;
  next_cursor = if ltb limit (length rows) then last_cursor (take limit rows) else none;
  has_more = ltb limit (length rows);
  row_count = min limit (length rows);
}

page_for-cursor :
    (limit : ℕ) (rs : List Row)
    → 1 ≤ limit
    → is_some (page_for limit rs).next_cursor ≡ ltb limit (length rs)
page_for-cursor zero rs h = absurd (omega (arith, h))
page_for-cursor (suc n) [] h = ground arith
page_for-cursor (suc n) (r ∷ rs) h = elim (Bool-cases (ltb (suc n) (suc (length rs)))) [
  | inl e ↦ rw e (last_cursor-is_some r (take n rs))
  | inr e ↦ rw e refl
]

module _ (P : Row → Type 0) where
  All-drop_rows : (n : ℕ) (rs : List Row) → All P rs → All P (drop_rows n rs)
  All-drop_rows zero rs h = h
  All-drop_rows (suc n) [] h = tt
  All-drop_rows (suc n) (r ∷ rs) h = All-drop_rows n rs h.1

more-take : (n : ℕ) (rs : List Row) → ltb n (length (take (suc n) rs)) ≡ ltb n (length rs)
more-take n rs = ground (arith, length-take (suc n) rs)

plus_one : (n : ℕ) → n + 1 ≡ suc n
plus_one n = omega arith

page_of-page_for : (limit : ℕ) (rs : List Row) → page_of limit rs ≡ page_for limit rs
unfolding page_of
page_of-page_for limit rs = rw (length-take limit rs) refl

-- A page of the first rows and one more is the page of all of them.
page_of-take : (limit : ℕ) (rs : List Row) → page_of limit (take (limit + 1) rs) ≡ page_of limit rs
unfolding page_of
page_of-take limit rs = rw (plus_one limit, take-take limit rs, more-take limit rs) refl

All-if : (P : Row → Type 0) (b : Bool) (rs : List Row) → All P rs → All P (if b then rs else [])
All-if P true rs h = h
All-if P false rs h = tt

selected : (p q : Row → Bool) (rs : List Row) → All (λ r. p r ≡ true) (select (λ r. p r && q r) rs)
selected p q rs =
    All-weaken (λ r. (p r && q r) ≡ true) (λ r. p r ≡ true) (select (λ r. p r && q r) rs)
      (λ r h. (and_parts (p r) (q r) h).0) (select_holds (λ r. p r && q r) rs)

abbrev pub is_asked : RecordsFilters → Option ℕ → Option ℕ → Option Cursor → Row → Bool
is_asked f from to cursor r = passes f from to r && at_cursor cursor r

module _ (cutoff : ℕ) (archive_exists : Bool) (old new : List Record) (f : RecordsFilters)
    (from to : Option ℕ) (cursor : Option Cursor) where
  abbrev asked : Row → Bool
  asked = is_asked f from to cursor

  -- What the request asks for, from the offset on.
  abbrev pub found : ℕ → List Row
  found offset =
      drop_rows (offset_of cursor offset)
        (sort_by listed (matching cutoff archive_exists old new asked))

  query_rows-found :
      (limit offset : ℕ)
      → query_rows cutoff archive_exists old new f from to cursor limit offset
        ≡ take (limit + 1) (found offset)
  unfolding query_rows
  query_rows-found limit offset =
      let conditions = build_records_filters f from to cursor in
      let test = (λ (r : Row). holds (where_holds conditions.0 conditions.1 r)) in
      let same : test ≡ asked =
        fun_ext (λ r. ap holds (build_records_filters-holds f from to cursor r)) in
      ap (λ z. take (limit + 1) (drop_rows (offset_of cursor offset) (sort_by listed z)))
        (ap
            (λ w.
              union_rows cutoff archive_exists old new w
                (statement_of cutoff archive_exists old new conditions from to limit))
            same
          ∙ union_rows-matching cutoff archive_exists old new from to asked select_columns
              (where_clause conditions.0) order_by (some (limit + 1))
              (λ r h.
                passes-in_range cutoff f from to r
                  (and_parts (passes f from to r) (at_cursor cursor r) h).0))

  matching-All : All (λ r. asked r ≡ true) (matching cutoff archive_exists old new asked)
  matching-All =
      let archived = map (from_source archive) old in
      let current = map (from_source live) new in
      let before = λ (r : Row). ltb r.stored.production_date cutoff in
      let after = λ (r : Row). leb cutoff r.stored.production_date in
      All-append (λ r. asked r ≡ true)
        (if archive_exists then select (λ r. asked r && before r) archived else [])
        (select (λ r. asked r && after r) current)
        (All-if (λ r. asked r ≡ true) archive_exists (select (λ r. asked r && before r) archived)
          (selected asked before archived))
        (selected asked after current)

-- A request whose dates are taken is answered with the first `limit` of the rows that it asks for, in
-- the order of the listing and from its offset on (with a cursor, which they are below, there is
-- none): the archived rows from before the cutoff and the live ones from it on that pass the
-- filters. It says that there is more exactly if there are more such rows than `limit`, and has a
-- next cursor exactly then, that of the last row of the page.
pub get_records_answers :
    (cutoff : ℕ) (archive_exists : Bool) (old new : List Record) (f : RecordsFilters)
    (date_from date_to : DateParam) (from to : Option ℕ) (cursor : Option Cursor) (limit offset : ℕ)
    → date_range date_from date_to ≡ ok (from, to)
    → 1 ≤ limit
    → let rows = found cutoff archive_exists old new f from to cursor offset in
      let page = page_for limit rows in
      (get_records cutoff archive_exists old new f date_from date_to cursor limit offset ≡ ok page)
      × All (λ r. (passes f from to r && at_cursor cursor r) ≡ true) page.data_rows
      × (length page.data_rows ≡ min limit (length rows))
      × (is_some page.next_cursor ≡ ltb limit (length rows))
unfolding get_records
get_records_answers cutoff archive_exists old new f date_from date_to from to cursor limit offset
      range some_limit =
    let rows = found cutoff archive_exists old new f from to cursor offset in
    let asked = is_asked f from to cursor in
    let P = λ (r : Row). asked r ≡ true in
    let sorted = sort_by listed (matching cutoff archive_exists old new asked) in
    (
      rw range (
          ap (λ z. Response.ok z)
            (ap (page_of limit)
                (query_rows-found cutoff archive_exists old new f from to cursor limit offset)
              ∙ page_of-take limit rows
              ∙ page_of-page_for limit rows)),
      All-take P limit rows (
          All-drop_rows P (offset_of cursor offset) sorted (
            All-sort_by listed P (matching cutoff archive_exists old new asked)
              (matching-All cutoff archive_exists old new f from to cursor))),
      length-take limit rows,
      page_for-cursor limit rows some_limit,
    )
