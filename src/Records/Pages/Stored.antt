-- ===== src/Records/Pages/Stored.antt =====
-- The rows of the two databases that a test asks for, told without the choice of the databases, and
-- that the statement of `get_records` reads them.
use server_api.Prelude.{
  ℕ, ◌≡◌, refl, sym, ap, ◌∙◌, Bool, true, false, ◌&&◌, Option, none, some, List, [], ◌++◌, map,
  String, arith, ltb, leb, select, if◌then◌else◌,
}
use mathlib.Core.List.{append-nil}
use server_api.Database.{archive, live, pick_targets, build_union_sql}
use server_api.Database.Routing.{belongs, in_range, select_none, both, pick_targets_complete}
use server_api.Records.Filters.{Record, Row, RecordsFilters}
use server_api.Records.Filters.Bound.{
  passes, has_code, is_found, in_lot, is_from, is_before, has_least, has_most,
}
use server_api.Records.Pages.{from_source, union_rows}

abbrev pub day_of : Row → ℕ
day_of r = r.stored.production_date

and_fourth :
    (a b c d e f g : Bool) → (a && b && c && d && e && f && g) ≡ true → (d ≡ true) × (e ≡ true)
and_fourth a b c d e f g h = ground arith

dates_of :
    (f : RecordsFilters) (from to : Option ℕ) (r : Row)
    → passes f from to r ≡ true
    → (is_from from r ≡ true) × (is_before to r ≡ true)
unfolding passes
dates_of f from to r =
    and_fourth (has_code f r) (is_found f r) (in_lot f r) (is_from from r) (is_before to r)
      (has_least f r) (has_most f r)

in_range-dates :
    (cutoff : ℕ) (from to : Option ℕ) (r : Row)
    → is_from from r ≡ true
    → is_before to r ≡ true
    → in_range day_of cutoff from to r ≡ true
in_range-dates cutoff none none r x y = refl
in_range-dates cutoff none (some t) r x y = y
in_range-dates cutoff (some s) none r x y = x
in_range-dates cutoff (some s) (some t) r x y = rw (x, y) refl

-- The filters keep to the dates.
pub passes-in_range :
    (cutoff : ℕ) (f : RecordsFilters) (from to : Option ℕ) (r : Row)
    → passes f from to r ≡ true
    → in_range day_of cutoff from to r ≡ true
passes-in_range cutoff f from to r h =
    let (x, y) = dates_of f from to r h in in_range-dates cutoff from to r x y

module _ (cutoff : ℕ) (archive_exists : Bool) (old new : List Record) where
  -- Of the archive, if there is one, the rows before the cutoff; of the live database those from the
  -- cutoff on.
  abbrev pub matching : (Row → Bool) → List Row
  matching p =
      (if archive_exists
        then select (λ r. p r && ltb r.stored.production_date cutoff)
            (map (from_source archive) old)
        else [])
      ++ select (λ r. p r && leb cutoff r.stored.production_date) (map (from_source live) new)

-- Without an archive the live database may be left out if none of its rows passes.
live_alone :
    (cutoff : ℕ) (old new : List Record) (p : Row → Bool) (a l : Bool)
    (columns where_text order : String) (limit : Option ℕ)
    → (l ≡ false → (r : Row) → (p r && leb cutoff r.stored.production_date) ≡ false)
    → union_rows cutoff false old new p
        (build_union_sql false columns where_text
          (record { use_archive = a; use_live = l })
          order
          limit
          true).0
      ≡ matching cutoff false old new p
unfolding build_union_sql
live_alone cutoff old new p true true columns where_text order limit h = append-nil _
live_alone cutoff old new p false true columns where_text order limit h = append-nil _
live_alone cutoff old new p true false columns where_text order limit h =
    sym (
      select_none day_of cutoff p (belongs day_of cutoff live) (map (from_source live) new)
        (h refl))
live_alone cutoff old new p false false columns where_text order limit h =
    sym (
      select_none day_of cutoff p (belongs day_of cutoff live) (map (from_source live) new)
        (h refl))

both_read :
    (cutoff : ℕ) (old new : List Record) (p : Row → Bool) (columns where_text order : String)
    (limit : Option ℕ)
    → union_rows cutoff true old new p
        (build_union_sql true columns where_text (both day_of cutoff) order limit true).0
      ≡ matching cutoff true old new p
unfolding build_union_sql
both_read cutoff old new p columns where_text order limit =
    ap
      (λ z.
        select (λ r. p r && ltb r.stored.production_date cutoff) (map (from_source archive) old)
        ++ z)
      (append-nil _)

-- The statement over the databases that are picked for a range of dates reads every row that the
-- test asks for, where the test keeps to the range.
pub union_rows-matching :
    (cutoff : ℕ) (archive_exists : Bool) (old new : List Record) (from to : Option ℕ)
    (p : Row → Bool) (columns where_text order : String) (limit : Option ℕ)
    → ((r : Row) → p r ≡ true → in_range day_of cutoff from to r ≡ true)
    → union_rows cutoff archive_exists old new p
        (build_union_sql archive_exists columns where_text
          (pick_targets cutoff from to)
          order
          limit
          true).0
      ≡ matching cutoff archive_exists old new p
unfolding pick_targets
union_rows-matching cutoff true old new from to p columns where_text order limit h =
    pick_targets_complete day_of cutoff from to p (map (from_source archive) old)
      (map (from_source live) new) columns where_text order limit true h
    ∙ both_read cutoff old new p columns where_text order limit
union_rows-matching cutoff false old new none none p columns where_text order limit h =
    live_alone cutoff old new p true true columns where_text order limit (λ e. ground (arith, e))
union_rows-matching cutoff false old new none (some t) p columns where_text order limit h =
    live_alone cutoff old new p true (leb cutoff t) columns where_text order limit
      (λ e x. ground (arith, e, h x))
union_rows-matching cutoff false old new (some f) none p columns where_text order limit h =
    live_alone cutoff old new p (ltb f cutoff) true columns where_text order limit
      (λ e. ground (arith, e))
union_rows-matching cutoff false old new (some f) (some t) p columns where_text order limit h =
    live_alone cutoff old new p (ltb f cutoff) (leb cutoff t) columns where_text order limit
      (λ e x. ground (arith, e, h x))
