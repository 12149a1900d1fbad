-- ===== src/Records/Pages/Complete.antt =====
-- The pages of `get_records` together are the whole listing.
use server_api.Prelude.{
  ℕ, select-append, zero, suc, ◌+◌, ◌≤◌, ◌≡◌, refl, sym, ap, ◌∙◌, fun_ext, Bool, true, false, ◌&&◌,
  Option, none, some, List, [], ◌∷◌, map, String, arith, take, length, select, sort_by,
  length-sort_by, sort_by-IsOrdered, select-sort_by, Response, ok, Bool-cases, inl, inr,
}
use server_api.Database.{archive, live, Branch, pick_targets, build_union_sql}
use server_api.Database.Routing.{rows_of, belongs, table}
use server_api.Records.Filters.{
  Record, Row, Cursor, RecordsFilters, where_clause, build_records_filters,
}
use server_api.Records.Filters.Bound.{where_holds, passes, at_cursor, build_records_filters-holds}
use server_api.Records.Pages.{
  DateParam, date_range, listed, from_source, holds, drop_rows, offset_of, union_rows, statement_of,
  select_columns, order_by, query_rows, page_of, get_records,
}
use server_api.Records.Pages.Order.{
  before, apart, listed-before, before-listed, listed_total, before_trans, listed_trans,
}
use server_api.Records.Pages.Distinct.{AreUnique, AreApart, AreListed, union_rows-AreApart}
use server_api.Records.Pages.Stored.{matching, union_rows-matching, passes-in_range}
use server_api.Records.Pages.Follow.{follow, follow_rest}

select-and :
    (p q b : Row → Bool) (xs : List Row)
    → select (λ x. (p x && q x) && b x) xs ≡ select q (select (λ x. p x && b x) xs)
select-and p q b [] = refl
select-and p q b (x ∷ xs) = elim (Bool-cases (p x)) [
  | inl e ↦ elim (Bool-cases (b x)) [
    | inl f ↦ elim (Bool-cases (q x)) [
      | inl g ↦ rw (e, g, f) (rw g (ap (λ z. x ∷ z) (select-and p q b xs)))
      | inr g ↦ rw (e, g, f) (rw g (select-and p q b xs))
    ]
    | inr f ↦ elim (Bool-cases (q x)) [
      | inl g ↦ rw (e, g, f) (select-and p q b xs)
      | inr g ↦ rw (e, g, f) (select-and p q b xs)
    ]
  ]
  | inr e ↦ rw e (select-and p q b xs)
]

rows_of-and :
    (cutoff : ℕ) (p q : Row → Bool) (old new : List Row) (branches : List Branch)
    → rows_of (λ (r : Row). r.stored.production_date) cutoff (λ r. p r && q r) old new branches
      ≡ select q (rows_of (λ (r : Row). r.stored.production_date) cutoff p old new branches)
rows_of-and cutoff p q old new [] = refl
rows_of-and cutoff p q old new (b ∷ bs) =
    let part = (λ (w : Row → Bool).
      select (λ (r : Row). w r && belongs (λ (r : Row). r.stored.production_date) cutoff b.source r)
        (table (λ (r : Row). r.stored.production_date) cutoff b.source old new)) in
    rw
      (
        rows_of-and cutoff p q old new bs,
        select-and p q (belongs (λ (r : Row). r.stored.production_date) cutoff b.source)
            (table (λ (r : Row). r.stored.production_date) cutoff b.source old new),
      )
      (sym (
        select-append q (part p)
          (rows_of (λ (r : Row). r.stored.production_date) cutoff p old new bs)))

-- The text of the `WHERE` clause is not what chooses the databases.
union_rows-where :
    (cutoff : ℕ) (old new : List Record) (p : Row → Bool) (exists a l : Bool)
    (columns w v order : String) (limit : Option ℕ)
    → let statement = (λ (z : String).
      (build_union_sql exists columns z
        (record { use_archive = a; use_live = l })
        order
        limit
        true).0) in
      union_rows cutoff exists old new p (statement w)
      ≡ union_rows cutoff exists old new p (statement v)
unfolding build_union_sql
union_rows-where cutoff old new p true true true columns w v order limit = refl
union_rows-where cutoff old new p true true false columns w v order limit = refl
union_rows-where cutoff old new p true false true columns w v order limit = refl
union_rows-where cutoff old new p true false false columns w v order limit = refl
union_rows-where cutoff old new p false true true columns w v order limit = refl
union_rows-where cutoff old new p false true false columns w v order limit = refl
union_rows-where cutoff old new p false false true columns w v order limit = refl
union_rows-where cutoff old new p false false false columns w v order limit = refl

select-none : (xs : List Row) → select (at_cursor none) xs ≡ xs
select-none [] = refl
select-none (x ∷ xs) = ap (λ z. x ∷ z) (select-none xs)

no_offset : (c : Option Cursor) (xs : List Row) → drop_rows (offset_of c 0) xs ≡ xs
no_offset none xs = refl
no_offset (some c) xs = refl

module _ (cutoff : ℕ) (archive_exists : Bool) (old new : List Record) (f : RecordsFilters) where
  -- All rows that pass the filters, in the order of the listing.
  abbrev listing : Option ℕ → Option ℕ → ℕ → List Row
  listing from to limit = sort_by listed (
      union_rows cutoff archive_exists old new (passes f from to) (
        statement_of cutoff archive_exists old new (build_records_filters f from to none) from to
          limit))

  listing-matching :
      (from to : Option ℕ) (limit : ℕ)
      → listing from to limit
        ≡ sort_by listed (matching cutoff archive_exists old new (passes f from to))
  listing-matching from to limit = ap (sort_by listed) (
      union_rows-matching cutoff archive_exists old new from to (passes f from to) select_columns
        (where_clause (build_records_filters f from to none).0) order_by (some (limit + 1))
        (passes-in_range cutoff f from to))

module _ (cutoff : ℕ) (archive_exists : Bool) (old new : List Record) (old_unique : AreUnique old)
    (new_unique : AreUnique new) (f : RecordsFilters) where
  union_apart :
      (from to : Option ℕ) (p : Row → Bool) (w : String) (limit : ℕ)
      → AreApart (
          union_rows cutoff archive_exists old new p
            (build_union_sql archive_exists select_columns w
              (pick_targets cutoff from to)
              order_by
              (some (limit + 1))
              true).0)
  union_apart from to p w limit =
      let t = pick_targets cutoff from to in
      union_rows-AreApart cutoff archive_exists old new old_unique new_unique p archive_exists
        t.use_archive t.use_live select_columns w order_by (some (limit + 1))

  query_rows-listing :
      (from to : Option ℕ) (cursor : Option Cursor) (limit : ℕ)
      → query_rows cutoff archive_exists old new f from to cursor limit 0
        ≡ take
            (limit + 1)
            (select (at_cursor cursor) (listing cutoff archive_exists old new f from to limit))
  unfolding query_rows
  query_rows-listing from to cursor limit =
      let conditions = build_records_filters f from to cursor in
      let first = build_records_filters f from to none in
      let p = passes f from to in
      let t = pick_targets cutoff from to in
      let sql = statement_of cutoff archive_exists old new conditions from to limit in
      let rows =
        union_rows cutoff archive_exists old new p
          (statement_of cutoff archive_exists old new first from to limit) in
      let test = (λ (r : Row). holds (where_holds conditions.0 conditions.1 r)) in
      let same : test ≡ (λ r. p r && at_cursor cursor r) =
        fun_ext (λ r. ap holds (build_records_filters-holds f from to cursor r)) in
      let chosen : union_rows cutoff archive_exists old new test sql
          ≡ select (at_cursor cursor) rows =
        ap (λ w. union_rows cutoff archive_exists old new w sql) same
        ∙ rows_of-and cutoff p (at_cursor cursor) (map (from_source archive) old)
            (map (from_source live) new) sql.branches
        ∙ ap (select (at_cursor cursor)) (
            union_rows-where cutoff old new p archive_exists t.use_archive t.use_live select_columns
              (where_clause conditions.0) (where_clause first.0) order_by (some (limit + 1))) in
      let sorted : sort_by listed (select (at_cursor cursor) rows)
          ≡ select (at_cursor cursor) (sort_by listed rows) =
        sym (
          select-sort_by listed before apart listed-before before-listed listed_total before_trans
            listed_trans (at_cursor cursor) rows
            (union_apart from to p (where_clause first.0) limit)) in
      ap (take (limit + 1)) (
        no_offset cursor (sort_by listed (union_rows cutoff archive_exists old new test sql))
        ∙ ap (sort_by listed) chosen
        ∙ sorted)

  follow-listing :
      (date_from date_to : DateParam) (from to : Option ℕ) (limit fuel : ℕ)
      → date_range date_from date_to ≡ ok (from, to)
      → 1 ≤ limit
      → length (listing cutoff archive_exists old new f from to limit) ≤ fuel
      → follow fuel
          (λ c. get_records cutoff archive_exists old new f date_from date_to c limit 0)
          none
        ≡ listing cutoff archive_exists old new f from to limit
  unfolding get_records
  follow-listing date_from date_to from to zero fuel range some_limit enough =
      absurd (omega (arith, some_limit))
  follow-listing date_from date_to from to (suc n) fuel range some_limit enough =
      let L = listing cutoff archive_exists old new f from to (suc n) in
      let get = (λ (c : Option Cursor).
        get_records cutoff archive_exists old new f date_from date_to c (suc n) 0) in
      let ordered : AreListed L =
        sort_by-IsOrdered listed before apart listed-before before-listed listed_total before_trans
          listed_trans
          (union_rows cutoff archive_exists old new (passes f from to) (
            statement_of cutoff archive_exists old new (build_records_filters f from to none) from
              to (suc n)))
          (union_apart from to (passes f from to)
            (where_clause (build_records_filters f from to none).0) (suc n)) in
      let pages : (c : Option Cursor)
          → get c ≡ ok (page_of (suc n) (take (suc n + 1) (select (at_cursor c) L))) =
        λ c.
          rw range
            (ap (λ z. Response.ok (page_of (suc n) z)) (query_rows-listing from to c (suc n))) in
      let all = select-none L in
      follow_rest n get L ordered pages fuel none (λ x y h g. refl) (rw all enough) ∙ all

-- A client that asks for the first page, from tables whose ids are unique, and then for the page of
-- each cursor that it is given, reads every row of the archive from before the cutoff (if there is an
-- archive) and of the live database from the cutoff on that passes the filters, exactly once and in
-- the order of the listing, whatever the limit from 1: as many pages as there are rows are enough.
pub get_records_complete :
    (cutoff : ℕ) (archive_exists : Bool) (old new : List Record) (f : RecordsFilters)
    (date_from date_to : DateParam) (from to : Option ℕ) (limit fuel : ℕ)
    → AreUnique old
    → AreUnique new
    → date_range date_from date_to ≡ ok (from, to)
    → 1 ≤ limit
    → length (matching cutoff archive_exists old new (passes f from to)) ≤ fuel
    → follow fuel
        (λ c. get_records cutoff archive_exists old new f date_from date_to c limit 0)
        none
      ≡ sort_by listed (matching cutoff archive_exists old new (passes f from to))
get_records_complete cutoff archive_exists old new f date_from date_to from to limit fuel old_unique
      new_unique range some_limit enough =
    let same = listing-matching cutoff archive_exists old new f from to limit in
    let long =
      ap length same
      ∙ length-sort_by listed (matching cutoff archive_exists old new (passes f from to)) in
    follow-listing cutoff archive_exists old new old_unique new_unique f date_from date_to from to
      limit fuel range some_limit (omega (arith, enough, long))
    ∙ same
