-- ===== src/Materials/Store/Listing.antt =====
-- `list_materials`: the filters, the order and the limit.
use server_api.Prelude.{
  ℕ, ◌≤◌, ◌≡◌, ap, ◌∙◌, Bool, true, false, ◌&&◌, Option, none, some, List, String, arith, str_eq,
  text_le, is_blank, if◌then◌else◌, max, min, take, length, count, select, sort_by, ℤ, to_nat,
  int_le, All, All-take, length-take, All-sort_by, length-sort_by, count-select, select_holds,
}
use server_api.Materials.Model.{MaterialPublic, MaterialsDb, text_is}

pub record Filters : Type 0 where
  pub request_dept : Option String
  pub keyword : Option String
  pub date_from : Option String
  pub date_to : Option String

-- A condition that stands in the clause only if its value is a text that is not empty.
abbrev given : Option String → (String → Bool) → Bool
given none test = true
given (some s) test = if is_blank s then true else test s

-- A comparison with a column, which `NULL` fails.
abbrev column : Option String → (String → Bool) → Bool
column none test = false
column (some s) test = test s

abbrev pub passes : Filters → MaterialPublic → Bool
passes f m =
    given f.request_dept (λ s. text_is m.contents.request_dept (some s))
    && given f.keyword (λ s. text_is m.contents.keyword (some s))
    && given f.date_from (λ s. column m.contents.doc_date (λ d. text_le s d))
    && given f.date_to (λ s. column m.contents.doc_date (λ d. text_le d s))

-- `NULL` is below every text.
abbrev null_le : Option String → Option String → Bool
null_le none o = true
null_le (some s) none = false
null_le (some s) (some t) = text_le s t

-- `ORDER BY doc_date DESC, doc_number DESC, seq ASC`.
abbrev pub listed_before : MaterialPublic → MaterialPublic → Bool
listed_before a b =
    if text_is a.contents.doc_date b.contents.doc_date
    then (if str_eq a.key.doc_number b.key.doc_number
        then int_le a.key.seq b.key.seq
        else text_le b.key.doc_number a.key.doc_number)
    else null_le b.contents.doc_date a.contents.doc_date

abbrev pub page_size : ℤ → ℕ
page_size limit = max 1 (min (to_nat limit) 5000)

unfoldable pub list_materials : String → Filters → ℤ → MaterialsDb → List MaterialPublic
list_materials table f limit db =
    take (page_size limit) (sort_by listed_before (select (passes f) (db.tables table)))

-- `list_materials` answers only with rows that pass the filters, and with all of them up to its
-- limit, which is at least 1 and at most 5000.
pub list_materials-passes :
    (table : String) (f : Filters) (limit : ℤ) (db : MaterialsDb)
    → All (λ m. passes f m ≡ true) (list_materials table f limit db)
      × (length (list_materials table f limit db)
          ≡ min (page_size limit) (count (passes f) (db.tables table)))
      × (1 ≤ page_size limit)
      × (page_size limit ≤ 5000)
unfolding list_materials
list_materials-passes table f limit db =
    let chosen = select (passes f) (db.tables table) in
    let sorted = sort_by listed_before chosen in
    (
      All-take (λ m. passes f m ≡ true) (page_size limit) sorted
          (All-sort_by listed_before (λ m. passes f m ≡ true) chosen
            (select_holds (passes f) (db.tables table))),
      length-take (page_size limit) sorted
          ∙ ap (min (page_size limit))
              (length-sort_by listed_before chosen ∙ count-select (passes f) (db.tables table)),
      omega arith,
      omega arith,
    )
