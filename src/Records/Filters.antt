-- ===== src/Records/Filters.antt =====
-- `_build_records_filters`: the clauses of the `WHERE` text and the values bound to its placeholders.
--
-- A date is a natural number, as for the databases; the negative `id` that a made-up cursor may
-- have stands as 0, below which there is no row either.
pub mod Bound
use server_api.Prelude.{
  ℕ, Bool, ◌&&◌, ◌||◌, Option, none, some, List, [], ◌∷◌, ◌++◌, String, ltb, ◌==◌, codes_eq,
}
use Prim.Native.String.{◌++◌ as text_append}
pub use server_api.Records.Sql.{
  Record, Row, source_text, Param, text, day, number, codes_lt, column,
}
use server_api.Records.Sql.{
  code_column, name_column, lot_column, date_column, quantity_column, source_column, id_column,
  is_equal, is_less, is_least, is_most, is_like, Cond, test, group, disjoin, conjoin, render, eval,
}
use server_api.Records.Like.{Text, like, contains_pattern, prefix_pattern}

pub record Cursor : Type 0 where
  pub d : ℕ
  pub src : Text
  pub id : ℕ

-- The query parameters that the clauses depend on, but for the dates and the cursor.
pub record RecordsFilters : Type 0 where
  pub item_code : Option Text
  pub q : Option Text
  pub lot_number : Option Text
  pub min_quantity : Option ℕ
  pub max_quantity : Option ℕ

pub data Clause : Type 0 where
  item_code_is q_like lot_like from_date before_date at_least at_most below_cursor : Clause

abbrev condition : Clause → Cond
condition item_code_is = test code_column is_equal
condition q_like = group (
    disjoin (disjoin (test code_column is_like) (test name_column is_like))
      (test lot_column is_like))
condition lot_like = test lot_column is_like
condition from_date = test date_column is_least
condition before_date = test date_column is_less
condition at_least = test quantity_column is_least
condition at_most = test quantity_column is_most
condition below_cursor = group (
    disjoin
      (disjoin (test date_column is_less)
        (group (conjoin (test date_column is_equal) (test source_column is_less))))
      (group (
        conjoin (conjoin (test date_column is_equal) (test source_column is_equal))
          (test id_column is_less))))

abbrev pub sql : Clause → String
sql c = render (condition c)

-- `" AND ".join(where) if where else "1=1"`.
abbrev join_and : Clause → List Clause → String
join_and c [] = sql c
join_and c (d ∷ cs) = text_append (sql c) (text_append " AND " (join_and d cs))

abbrev pub where_clause : List Clause → String
where_clause [] = "1=1"
where_clause (c ∷ cs) = join_and c cs

abbrev pub Conditions : Type 0
Conditions = List Clause × List Param

abbrev nothing : Conditions
nothing = ([], [])

-- The clauses and parameters of a filter, before those that come later.
abbrev pub adds : Conditions → Conditions → Conditions
adds (w, p) (v, q) = (w ++ v, p ++ q)

-- `if value:` of a text.
abbrev pub if_text : Option Text → (Text → Conditions) → Conditions
if_text none f = nothing
if_text (some []) f = nothing
if_text (some (c ∷ t)) f = f (c ∷ t)

abbrev pub if_given {ℓ} : {A : Type ℓ} → Option A → (A → Conditions) → Conditions
if_given none f = nothing
if_given (some x) f = f x

unfoldable pub build_records_filters :
    RecordsFilters → Option ℕ → Option ℕ → Option Cursor → Conditions
build_records_filters f date_from_n date_to_n cursor_data =
    adds (if_text f.item_code (λ s. (item_code_is ∷ [], text s ∷ []))) (
      adds
        (if_text f.q
          (λ s. let like = text (contains_pattern s) in (q_like ∷ [], like ∷ like ∷ like ∷ [])))
        (adds (if_text f.lot_number (λ s. (lot_like ∷ [], text (prefix_pattern s) ∷ []))) (
          adds (if_given date_from_n (λ n. (from_date ∷ [], day n ∷ []))) (
            adds (if_given date_to_n (λ n. (before_date ∷ [], day n ∷ []))) (
              adds (if_given f.min_quantity (λ n. (at_least ∷ [], number n ∷ []))) (
                adds (if_given f.max_quantity (λ n. (at_most ∷ [], number n ∷ []))) (
                  if_given cursor_data (λ c. (
                    below_cursor ∷ [],
                    day c.d ∷ day c.d ∷ text c.src ∷ day c.d ∷ text c.src ∷ number c.id ∷ [],
                  )))))))))

abbrev pub is_below : ℕ → ℕ → Text → ℕ → Text → ℕ → Row → Bool
is_below d₁ d₂ src₂ d₃ src₃ id₃ r =
    ltb r.stored.production_date d₁
    || ((r.stored.production_date == d₂) && codes_lt (source_text r.source) src₂)
    || ((r.stored.production_date == d₃)
        && codes_eq (source_text r.source) src₃
        && ltb r.stored.id id₃)

abbrev pub bind : Clause → List Param → Row → Option (Bool × List Param)
bind c = eval (condition c)
