-- ===== src/Database.antt =====
-- shared/database.py: the choice between the live and the archive database, and the statements over
-- both.
--
-- A date is a natural number: ISO dates compare as their days do. A statement is kept as its parts;
-- a clause is its text. `archive_exists` is `ARCHIVE_DB_FILE.exists()`.
pub mod Routing
mod Tests
use server_api.Prelude.{
  ℕ, String, Bool, true, false, not, ◌&&◌, Option, none, some, List, [], ◌∷◌, ◌++◌, ltb, leb,
  if◌then◌else◌,
}

pub record DbTargets : Type 0 where
  pub use_archive : Bool
  pub use_live : Bool

abbrev pub need_union : DbTargets → Bool
need_union t = t.use_archive && t.use_live

abbrev pub archive_only : DbTargets → Bool
archive_only t = t.use_archive && not t.use_live

abbrev pub live_only : DbTargets → Bool
live_only t = t.use_live && not t.use_archive

-- The first argument is `ARCHIVE_CUTOFF_DATE`; the upper date is exclusive.
unfoldable pub pick_targets : ℕ → Option ℕ → Option ℕ → DbTargets
pick_targets cutoff none none = record { use_archive = true; use_live = true }
pick_targets cutoff none (some date_to) = record {
  use_archive = true;
  use_live = leb cutoff date_to;
}
pick_targets cutoff (some date_from) none = record {
  use_archive = ltb date_from cutoff;
  use_live = true;
}
pick_targets cutoff (some date_from) (some date_to) = record {
  use_archive = ltb date_from cutoff;
  use_live = leb cutoff date_to;
}

pub data Source : Type 0 where
  archive live : Source

-- One `SELECT` of a statement, its date test against the cutoff the last placeholder.
pub record Branch : Type 0 where
  pub source : Source
  pub columns : String
  pub include_source : Bool
  pub where_clause : String
  pub group_by : String

-- `UNION ALL` of the branches; with none of them, the `SELECT … WHERE 1=0`.
pub record Statement : Type 0 where
  pub branches : List Branch
  pub outer_select : String
  pub outer_group_by : String
  pub order_by : String
  pub limit : Option ℕ

-- The sources that a statement reads, the archive first.
abbrev pub archive_part : Bool → DbTargets → (Source → Branch) → List Branch
archive_part archive_exists t branch =
    if t.use_archive && archive_exists then branch archive ∷ [] else []

abbrev pub live_part : DbTargets → (Source → Branch) → List Branch
live_part t branch = if t.use_live then branch live ∷ [] else []

abbrev pub parts : Bool → DbTargets → (Source → Branch) → List Branch
parts archive_exists t branch = archive_part archive_exists t branch ++ live_part t branch

-- `len(parts) == 2`.
abbrev pub are_two : List Branch → Bool
are_two (a ∷ b ∷ []) = true
are_two _ = false

abbrev pub union_branch : String → String → Bool → Source → Branch
union_branch select_columns where_clause include_source source = record {
  source = source;
  columns = select_columns;
  include_source = include_source;
  where_clause = where_clause;
  group_by = "";
}

abbrev pub aggregation_branch : String → String → String → Source → Branch
aggregation_branch inner_select inner_where group_by source = record {
  source = source;
  columns = inner_select;
  include_source = false;
  where_clause = inner_where;
  group_by = group_by;
}

unfoldable pub build_union_sql :
    Bool → String → String → DbTargets → String → Option ℕ → Bool → Statement × Bool
build_union_sql archive_exists select_columns where_clause targets order_by limit include_source =
    let branches =
      parts archive_exists targets (union_branch select_columns where_clause include_source) in
    (
      record {
        branches = branches;
        outer_select = "*";
        outer_group_by = "";
        order_by = order_by;
        limit = limit;
      },
      are_two branches,
    )

unfoldable pub build_aggregation_sql :
    Bool → String → String → String → String → DbTargets → String → Option ℕ → Statement × Bool
build_aggregation_sql archive_exists inner_select inner_where outer_select outer_group_by targets
      outer_order_by limit =
    let branches =
      parts archive_exists targets (aggregation_branch inner_select inner_where outer_group_by) in
    (
      record {
        branches = branches;
        outer_select = outer_select;
        outer_group_by = outer_group_by;
        order_by = outer_order_by;
        limit = limit;
      },
      are_two branches,
    )

-- The parameters are of any type that dates are among.
unfoldable pub build_query_params {ℓ} : {A : Type ℓ} → Bool → List A → DbTargets → A → List A
build_query_params archive_exists base_params targets cutoff =
    (if targets.use_archive && archive_exists then base_params ++ cutoff ∷ [] else [])
    ++ (if targets.use_live then base_params ++ cutoff ∷ [] else [])
