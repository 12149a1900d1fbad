-- ===== src/Records/Sql.antt =====
-- The conditions of a `WHERE` clause: their text, and what SQLite makes of them for a row.
use server_api.Prelude.{
  ℕ, Bool, true, false, not, ◌&&◌, ◌||◌, Option, none, some, List, [], ◌∷◌, String, ltb, leb, ◌==◌,
  codes, codes_eq, if◌then◌else◌, ℤ, pos, int_le,
}
use Prim.Native.String.{◌++◌ as text_append}
use server_api.Database.{Source, archive, live}
use server_api.Records.Like.{Text, like}

-- A row of `production_records`, and one of the union with the database that it is from.
pub record Record : Type 0 where
  pub id : ℕ
  pub production_date : ℕ
  pub item_code : Option Text
  pub item_name : Option Text
  pub lot_number : Option Text
  pub good_quantity : Option ℤ

pub record Row : Type 0 where
  pub source : Source
  pub stored : Record

abbrev pub source_text : Source → Text
source_text archive = codes "archive"
source_text live = codes "live"

pub data Param : Type 0 where
  text : Text → Param
  day number : ℕ → Param

-- The order of texts in SQLite.
abbrev pub codes_lt : Text → Text → Bool
codes_lt s [] = false
codes_lt [] (d ∷ t) = true
codes_lt (c ∷ s) (d ∷ t) = let rest = codes_lt s t in if ltb c d then true else (c == d) && rest

-- A test of a column, which `NULL` fails.
abbrev pub column {ℓ} : {A : Type ℓ} → Option A → (A → Bool) → Bool
column none test = false
column (some x) test = test x

-- A column of the union, and a comparison of it with a placeholder.
pub data Column : Type 0 where
  code_column name_column lot_column date_column quantity_column source_column id_column : Column

pub data Comparison : Type 0 where
  is_equal is_less is_least is_most is_like : Comparison

pub data Cond : Type 0 where
  test : Column → Comparison → Cond
  group : Cond → Cond
  disjoin conjoin : Cond → Cond → Cond

abbrev column_name : Column → String
column_name code_column = "item_code"
column_name name_column = "item_name"
column_name lot_column = "lot_number"
column_name date_column = "production_date"
column_name quantity_column = "good_quantity"
column_name source_column = "source"
column_name id_column = "id"

abbrev comparison_text : Comparison → String
comparison_text is_equal = " = ?"
comparison_text is_less = " < ?"
comparison_text is_least = " >= ?"
comparison_text is_most = " <= ?"
comparison_text is_like = " LIKE ? ESCAPE '\\'"

abbrev pub render : Cond → String
render (test c o) = text_append (column_name c) (comparison_text o)
render (group a) = text_append "(" (text_append (render a) ")")
render (disjoin a b) = text_append (render a) (text_append " OR " (render b))
render (conjoin a b) = text_append (render a) (text_append " AND " (render b))

abbrev compare_text : Comparison → Text → Text → Bool
compare_text is_equal t s = codes_eq t s
compare_text is_less t s = codes_lt t s
compare_text is_least t s = not (codes_lt t s)
compare_text is_most t s = not (codes_lt s t)
compare_text is_like t s = like s t

-- `LIKE` on a number is not used.
abbrev compare_number : Comparison → ℕ → ℕ → Option Bool
compare_number is_equal m n = some (m == n)
compare_number is_less m n = some (ltb m n)
compare_number is_least m n = some (leb n m)
compare_number is_most m n = some (leb m n)
compare_number is_like m n = none

abbrev compare_int : Comparison → ℕ → ℤ → Bool
compare_int is_equal n z = int_le (pos n) z && int_le z (pos n)
compare_int is_less n z = not (int_le (pos n) z)
compare_int is_least n z = int_le (pos n) z
compare_int is_most n z = int_le z (pos n)
compare_int is_like n z = false

-- One comparison with the value bound; there is none with a value of another kind.
abbrev compare_column : Column → Comparison → Param → Row → Option Bool
compare_column code_column o (text s) r = some (column r.stored.item_code (λ t. compare_text o t s))
compare_column name_column o (text s) r = some (column r.stored.item_name (λ t. compare_text o t s))
compare_column lot_column o (text s) r = some (column r.stored.lot_number (λ t. compare_text o t s))
compare_column date_column o (day n) r = compare_number o r.stored.production_date n
compare_column quantity_column o (number n) r =
    some (column r.stored.good_quantity (compare_int o n))
compare_column source_column o (text s) r = some (compare_text o (source_text r.source) s)
compare_column id_column o (number n) r = compare_number o r.stored.id n
compare_column _ _ _ _ = none

abbrev Rest : Type 0
Rest = Option (Bool × List Param)

abbrev with_rest : Option Bool → List Param → Rest
with_rest none ps = none
with_rest (some b) ps = some (b, ps)

abbrev or_rest : Bool → Rest → Rest
or_rest b none = none
or_rest b (some (c, ps)) = some (b || c, ps)

abbrev and_rest : Bool → Rest → Rest
and_rest b none = none
and_rest b (some (c, ps)) = some (b && c, ps)

-- The placeholders take the values from the front of the list, from left to right.
abbrev pub eval : Cond → List Param → Row → Option (Bool × List Param)
eval (test c o) [] r = none
eval (test c o) (p ∷ ps) r = with_rest (compare_column c o p r) ps
eval (group a) ps r = eval a ps r
eval (disjoin a b) ps r = elim (eval a ps r) [
  | none ↦ none
  | some (x, rest) ↦ or_rest x (eval b rest r)
]
eval (conjoin a b) ps r = elim (eval a ps r) [
  | none ↦ none
  | some (x, rest) ↦ and_rest x (eval b rest r)
]
