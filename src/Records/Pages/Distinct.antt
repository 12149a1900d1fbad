-- ===== src/Records/Pages/Distinct.antt =====
-- The rows of the union are distinct.
use server_api.Prelude.{
  ℕ, ◌≡◌, refl, String, All-append, Bool, true, false, not, ◌&&◌, Option, List, [], ◌∷◌, ◌++◌, map,
  ◌==◌, select, All, All-map, All-select, All-intro, All-weaken, Pairwise, Pairwise-select,
  Pairwise-append,
}
use server_api.Database.{Source, archive, live, build_union_sql}
use server_api.Database.Routing.{belongs, table}
use server_api.Records.Filters.{Record, Row}
use server_api.Records.Pages.{from_source, union_rows}
use server_api.Records.Pages.Order.{before, apart}

-- No two rows of a table have one id.
abbrev pub AreUnique : List Record → Type 0
AreUnique = Pairwise (λ x y. (not (x.id == y.id)) ≡ true)

abbrev pub AreApart : List Row → Type 0
AreApart = Pairwise (λ x y. apart x y ≡ true)

abbrev pub AreListed : List Row → Type 0
AreListed = Pairwise (λ x y. before x y ≡ true)

apart_in_table :
    (s : Source) (x y : Record)
    → (not (x.id == y.id)) ≡ true
    → apart (from_source s x) (from_source s y) ≡ true
apart_in_table archive x y h = h
apart_in_table live x y h = h

map-AreApart : (s : Source) (xs : List Record) → AreUnique xs → AreApart (map (from_source s) xs)
map-AreApart s [] h = tt
map-AreApart s (x ∷ xs) h = (
  All-map (λ y. apart (from_source s x) y ≡ true) (from_source s) xs
      (All-weaken (λ y. (not (x.id == y.id)) ≡ true)
        (λ y. apart (from_source s x) (from_source s y) ≡ true) xs (λ y. apart_in_table s x y) h.0),
  map-AreApart s xs h.1,
)

across :
    (old new : List Record)
    → All
        (λ x. All (λ y. apart x y ≡ true) (map (from_source live) new))
        (map (from_source archive) old)
across old new =
    All-map (λ x. All (λ y. apart x y ≡ true) (map (from_source live) new)) (from_source archive)
      old
      (All-intro
        (λ x. All (λ y. apart (from_source archive x) y ≡ true) (map (from_source live) new)) old
        (λ x m.
          All-map (λ y. apart (from_source archive x) y ≡ true) (from_source live) new
            (All-intro (λ y. apart (from_source archive x) (from_source live y) ≡ true) new
              (λ y n. refl))))

module _ (cutoff : ℕ) (archive_exists : Bool) (old new : List Record) (old_unique : AreUnique old)
    (new_unique : AreUnique new) where
  abbrev day_of : Row → ℕ
  day_of r = r.stored.production_date

  abbrev olds : List Row
  olds = map (from_source archive) old

  abbrev news : List Row
  news = map (from_source live) new

  abbrev part : (Row → Bool) → Source → List Row
  part p s = select (λ x. p x && belongs day_of cutoff s x) (table day_of cutoff s olds news)

  part-AreApart : (p : Row → Bool) (s : Source) → AreApart (part p s)
  part-AreApart p archive =
      Pairwise-select (λ x y. apart x y ≡ true) (λ x. p x && belongs day_of cutoff archive x) olds
        (map-AreApart archive old old_unique)
  part-AreApart p live =
      Pairwise-select (λ x y. apart x y ≡ true) (λ x. p x && belongs day_of cutoff live x) news
        (map-AreApart live new new_unique)

  one_part : (p : Row → Bool) (s : Source) → AreApart (part p s ++ [])
  one_part p s =
      Pairwise-append (λ x y. apart x y ≡ true) (part p s) [] (part-AreApart p s) tt
        (All-intro (λ x. All (λ y. apart x y ≡ true) []) (part p s) (λ x m. tt))

  two_parts : (p : Row → Bool) → AreApart (part p archive ++ (part p live ++ []))
  two_parts p =
      Pairwise-append (λ x y. apart x y ≡ true) (part p archive) (part p live ++ [])
        (part-AreApart p archive) (one_part p live)
        (All-select (λ x. All (λ y. apart x y ≡ true) (part p live ++ []))
          (λ x. p x && belongs day_of cutoff archive x) olds
          (All-weaken (λ x. All (λ y. apart x y ≡ true) news)
            (λ x. All (λ y. apart x y ≡ true) (part p live ++ [])) olds
            (λ x h.
              All-append (λ y. apart x y ≡ true) (part p live) []
                (All-select (λ y. apart x y ≡ true) (λ y. p y && belongs day_of cutoff live y) news
                  h)
                tt)
            (across old new)))

  pub union_rows-AreApart :
      (p : Row → Bool) (exists a l : Bool) (columns where_text order : String) (limit : Option ℕ)
      → AreApart (
          union_rows cutoff archive_exists old new p
            (build_union_sql exists columns where_text
              (record { use_archive = a; use_live = l })
              order
              limit
              true).0)
  unfolding build_union_sql
  union_rows-AreApart p true true true columns where_text order limit = two_parts p
  union_rows-AreApart p true true false columns where_text order limit = one_part p archive
  union_rows-AreApart p true false true columns where_text order limit = one_part p live
  union_rows-AreApart p true false false columns where_text order limit = tt
  union_rows-AreApart p false true true columns where_text order limit = one_part p live
  union_rows-AreApart p false true false columns where_text order limit = tt
  union_rows-AreApart p false false true columns where_text order limit = one_part p live
  union_rows-AreApart p false false false columns where_text order limit = tt
