-- ===== src/Records/Pages/Order.antt =====
-- The order of the rows and the cursors in it.
use server_api.Prelude.{ℕ, ◌≡◌, refl, Bool, true, false, not, ◌&&◌, arith, ltb, ◌==◌, codes_eq}
use server_api.Database.{Source, archive, live}
use server_api.Records.Filters.{Row, source_text, codes_lt}
use server_api.Records.Filters.Bound.{below}
use server_api.Records.Pages.{cursor_of, listed}

abbrev rank : Source → ℕ
rank archive = 0
rank live = 1

rank-lt : (s t : Source) → codes_lt (source_text s) (source_text t) ≡ ltb (rank s) (rank t)
rank-lt archive archive = refl
rank-lt archive live = refl
rank-lt live archive = refl
rank-lt live live = refl

rank-eq : (s t : Source) → codes_eq (source_text s) (source_text t) ≡ (rank s == rank t)
rank-eq archive archive = refl
rank-eq archive live = refl
rank-eq live archive = refl
rank-eq live live = refl

-- `y` is below the cursor of `x`: it is on a later page.
abbrev pub before : Row → Row → Bool
before x y = below (cursor_of x) y

-- Not the same row of the same database.
abbrev pub apart : Row → Row → Bool
apart x y =
    not (codes_eq (source_text x.source) (source_text y.source) && (x.stored.id == y.stored.id))

pub listed-before : (x y : Row) → apart x y ≡ true → listed x y ≡ true → before x y ≡ true
listed-before x y h g =
    ground (arith, rank-lt y.source x.source, rank-eq x.source y.source, rank-eq y.source x.source)

pub before-listed : (x y : Row) → before x y ≡ true → listed x y ≡ true
before-listed x y h =
    ground (arith, rank-lt y.source x.source, rank-eq x.source y.source, rank-eq y.source x.source)

pub listed_total : (x y : Row) → listed x y ≡ false → before y x ≡ true
listed_total x y h = ground (
  arith,
  rank-lt y.source x.source,
  rank-lt x.source y.source,
  rank-eq x.source y.source,
  rank-eq y.source x.source,
)

pub before_apart : (x y : Row) → before x y ≡ true → before y x ≡ false
before_apart x y h = ground (
  arith,
  rank-lt y.source x.source,
  rank-lt x.source y.source,
  rank-eq x.source y.source,
  rank-eq y.source x.source,
)

pub before_irreflexive : (x : Row) → before x x ≡ false
before_irreflexive x = ground (arith, rank-lt x.source x.source)

pub before_trans : (x y z : Row) → before x y ≡ true → before y z ≡ true → before x z ≡ true
before_trans x y z h g = ground (
  arith,
  rank-lt y.source x.source,
  rank-eq y.source x.source,
  rank-lt z.source y.source,
  rank-eq z.source y.source,
  rank-lt z.source x.source,
  rank-eq z.source x.source,
)

pub listed_trans : (x y z : Row) → listed x y ≡ true → before y z ≡ true → listed x z ≡ true
listed_trans x y z h g = ground (
  arith,
  rank-lt y.source x.source,
  rank-eq x.source y.source,
  rank-lt z.source y.source,
  rank-eq z.source y.source,
  rank-lt z.source x.source,
  rank-eq x.source z.source,
)
