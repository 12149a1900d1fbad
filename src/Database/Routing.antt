-- ===== src/Database/Routing.antt =====
-- What a statement of shared/database.py reads, and the parameters it takes.
use server_api.Prelude.{
  ℕ, ◌+◌, ◌≡◌, refl, String, Bool, true, false, ◌&&◌, Option, none, some, List, [], ◌∷◌, ◌++◌,
  arith, ltb, leb, length, length-append, select,
}
use server_api.Database.{
  DbTargets, need_union, pick_targets, Source, archive, live, Branch, union_branch,
  aggregation_branch, parts, build_union_sql, build_aggregation_sql, build_query_params,
}

-- The placeholders of a statement, where those of the `WHERE` clause are given: in each branch those
-- and the cutoff.
abbrev pub placeholders : ℕ → List Branch → ℕ
placeholders n [] = 0
placeholders n (b ∷ bs) = (n + 1) + placeholders n bs

parts_params {ℓ} :
    {A : Type ℓ} (a l : Bool) (exists : Bool) (branch : Source → Branch) (base : List A)
    (cutoff : A)
    → length (build_query_params exists base (record { use_archive = a; use_live = l }) cutoff)
      ≡ placeholders (length base) (parts exists (record { use_archive = a; use_live = l }) branch)
unfolding build_query_params
parts_params true true true branch base cutoff = omega (
  arith,
  length-append (base ++ cutoff ∷ []) (base ++ cutoff ∷ []),
  length-append base (cutoff ∷ []),
)
parts_params true false true branch base cutoff =
    omega (arith, length-append (base ++ cutoff ∷ []) [], length-append base (cutoff ∷ []))
parts_params false true true branch base cutoff = omega (arith, length-append base (cutoff ∷ []))
parts_params false false true branch base cutoff = omega arith
parts_params true true false branch base cutoff = omega (arith, length-append base (cutoff ∷ []))
parts_params true false false branch base cutoff = omega arith
parts_params false true false branch base cutoff = omega (arith, length-append base (cutoff ∷ []))
parts_params false false false branch base cutoff = omega arith

-- Rows of production records, by their date.
module _ {ℓ} {A : Type ℓ} (date : A → ℕ) (cutoff : ℕ) where
  -- The date test of a branch.
  abbrev pub belongs : Source → A → Bool
  belongs archive x = ltb (date x) cutoff
  belongs live x = leb cutoff (date x)

  abbrev pub table : Source → List A → List A → List A
  table archive old new = old
  table live old new = new

  -- The rows of `UNION ALL` of the branches, `p` the test of the `WHERE` clause.
  abbrev pub rows_of : (A → Bool) → List A → List A → List Branch → List A
  rows_of p old new [] = []
  rows_of p old new (b ∷ bs) =
      select (λ x. p x && belongs b.source x) (table b.source old new) ++ rows_of p old new bs

  -- The dates of the range, the upper one excluded.
  abbrev pub in_range : Option ℕ → Option ℕ → A → Bool
  in_range none none x = true
  in_range none (some date_to) x = ltb (date x) date_to
  in_range (some date_from) none x = leb date_from (date x)
  in_range (some date_from) (some date_to) x = leb date_from (date x) && ltb (date x) date_to

  pub select_none :
      (p q : A → Bool) (xs : List A)
      → ((x : A) → (p x && q x) ≡ false)
      → select (λ x. p x && q x) xs ≡ []
  select_none p q [] h = refl
  select_none p q (x ∷ xs) h = rw (h x) (select_none p q xs h)

  abbrev pub both : DbTargets
  both = record { use_archive = true; use_live = true }

  -- A database may be left out if none of its rows passes.
  routed :
      (a l : Bool) (branch : Source → Branch) (p : A → Bool) (old new : List A)
      → ((s : Source) → (branch s).source ≡ s)
      → (a ≡ false → (x : A) → (p x && belongs archive x) ≡ false)
      → (l ≡ false → (x : A) → (p x && belongs live x) ≡ false)
      → rows_of p old new (parts true (record { use_archive = a; use_live = l }) branch)
        ≡ rows_of p old new (parts true both branch)
  routed true true branch p old new s ha hl = refl
  routed true false branch p old new s ha hl =
      rw (s archive, s live, select_none p (belongs live) new (hl refl)) refl
  routed false true branch p old new s ha hl =
      rw (s archive, s live, select_none p (belongs archive) old (ha refl)) refl
  routed false false branch p old new s ha hl =
      rw
        (
          s archive,
          s live,
          select_none p (belongs archive) old (ha refl),
          select_none p (belongs live) new (hl refl),
        )
        refl

  -- Where the `WHERE` clause keeps to a range of dates, the statement over the databases that
  -- `pick_targets` picks for the range reads the rows that the statement over both would read, the
  -- archive being there, whatever is in the tables. Order and limit come after it.
  pub pick_targets_complete :
      (date_from date_to : Option ℕ) (p : A → Bool) (old new : List A)
      (columns where_clause order_by : String) (limit : Option ℕ) (include_source : Bool)
      → ((x : A) → p x ≡ true → in_range date_from date_to x ≡ true)
      → let statement = (λ (t : DbTargets).
        (build_union_sql true columns where_clause t order_by limit include_source).0.branches) in
        rows_of p old new (statement (pick_targets cutoff date_from date_to))
        ≡ rows_of p old new (statement both)
  unfolding build_union_sql pick_targets
  pick_targets_complete none none p old new columns where_clause order_by limit include_source h =
      refl
  pick_targets_complete none (some t) p old new columns where_clause order_by limit include_source
        h =
      let branch = union_branch columns where_clause include_source in
      routed true (leb cutoff t) branch p old new (λ s. refl) (λ e. ground (arith, e))
        (λ e x. ground (arith, e, h x))
  pick_targets_complete (some f) none p old new columns where_clause order_by limit include_source
        h =
      let branch = union_branch columns where_clause include_source in
      routed (ltb f cutoff) true branch p old new (λ s. refl) (λ e x. ground (arith, e, h x))
        (λ e. ground (arith, e))
  pick_targets_complete (some f) (some t) p old new columns where_clause order_by limit
        include_source h =
      let branch = union_branch columns where_clause include_source in
      routed (ltb f cutoff) (leb cutoff t) branch p old new (λ s. refl)
        (λ e x. ground (arith, e, h x)) (λ e x. ground (arith, e, h x))

-- The parameters are as many as the placeholders of the union and of the aggregation over the same
-- databases, and both say that the parameters are doubled exactly if the archive is there and both
-- databases are read.
pub build_query_params-placeholders {ℓ} :
    {A : Type ℓ} (exists : Bool) (base : List A) (targets : DbTargets) (cutoff : A)
    (columns where_clause outer group_by order_by : String) (limit : Option ℕ)
    (include_source : Bool)
    → let (union, twice) =
        build_union_sql exists columns where_clause targets order_by limit include_source in
      let (aggregation, twice') =
        build_aggregation_sql exists columns where_clause outer group_by targets order_by limit in
      let n = length (build_query_params exists base targets cutoff) in
      (n ≡ placeholders (length base) union.branches)
      × (n ≡ placeholders (length base) aggregation.branches)
      × (twice ≡ (exists && need_union targets))
      × (twice' ≡ (exists && need_union targets))
unfolding build_union_sql build_aggregation_sql
build_query_params-placeholders exists base targets cutoff columns where_clause outer group_by
      order_by limit include_source =
    (
      parts_params targets.use_archive targets.use_live exists
          (union_branch columns where_clause include_source) base cutoff,
      parts_params targets.use_archive targets.use_live exists
          (aggregation_branch columns where_clause group_by) base cutoff,
      ground arith,
      ground arith,
    )
