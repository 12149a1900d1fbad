-- ===== src/Records/Filters/Bound.antt =====
-- The clauses with their parameters as one test of a row.
use server_api.Prelude.{
  ℕ, ◌≡◌, refl, ap, ◌∙◌, fun_ext, Bool, true, false, ◌&&◌, ◌||◌, Option, none, some, List, [], ◌∷◌,
  ◌++◌, ltb, leb, codes_eq, pos, int_le, Bool-cases, inl, inr,
}
use server_api.Records.Like.{
  Text, like, contains_pattern, prefix_pattern, contains, starts_with, like-escape,
}
use server_api.Records.Filters.{
  Record, Row, Cursor, RecordsFilters, Clause, item_code_is, q_like, lot_like, from_date,
  before_date, at_least, at_most, below_cursor, Param, text, day, number, Conditions, if_text,
  if_given, build_records_filters, column, is_below, bind,
}

abbrev and_some : Bool → Option Bool → Option Bool
and_some b none = none
and_some b (some c) = some (b && c)

-- The whole `WHERE` of a row: no parameter may be missing and none may be left.
abbrev pub where_holds : List Clause → List Param → Row → Option Bool
where_holds [] [] r = some true
where_holds [] (p ∷ ps) r = none
where_holds (c ∷ cs) ps r = elim (bind c ps r) [
  | none ↦ none
  | some (b, rest) ↦ and_some b (where_holds cs rest r)
]

-- A filter that is a text and not empty, and one that is given.
abbrev pub with_text : Option Text → (Text → Bool) → Bool
with_text none test = true
with_text (some []) test = true
with_text (some (c ∷ t)) test = test (c ∷ t)

abbrev pub with_value {ℓ} : {A : Type ℓ} → Option A → (A → Bool) → Bool
with_value none test = true
with_value (some x) test = test x

abbrev pub has_text : (Text → Bool) → Record → Bool
has_text test s = column s.item_code test || column s.item_name test || column s.lot_number test

abbrev pub below : Cursor → Row → Bool
below c = is_below c.d c.d c.src c.d c.src c.id

abbrev pub has_code : RecordsFilters → Row → Bool
has_code f r = with_text f.item_code (λ s. column r.stored.item_code (λ t. codes_eq t s))

abbrev pub is_found : RecordsFilters → Row → Bool
is_found f r = with_text f.q (λ s. has_text (contains s) r.stored)

abbrev pub in_lot : RecordsFilters → Row → Bool
in_lot f r = with_text f.lot_number (λ s. column r.stored.lot_number (starts_with s))

abbrev pub is_from : Option ℕ → Row → Bool
is_from date_from r = with_value date_from (λ n. leb n r.stored.production_date)

abbrev pub is_before : Option ℕ → Row → Bool
is_before date_to r = with_value date_to (λ n. ltb r.stored.production_date n)

abbrev pub has_least : RecordsFilters → Row → Bool
has_least f r =
    with_value f.min_quantity (λ n. column r.stored.good_quantity (λ z. int_le (pos n) z))

abbrev pub has_most : RecordsFilters → Row → Bool
has_most f r =
    with_value f.max_quantity (λ n. column r.stored.good_quantity (λ z. int_le z (pos n)))

-- What the filters ask of a row.
unfoldable pub passes : RecordsFilters → Option ℕ → Option ℕ → Row → Bool
passes f date_from date_to r =
    has_code f r
    && is_found f r
    && in_lot f r
    && is_from date_from r
    && is_before date_to r
    && has_least f r
    && has_most f r

abbrev pub at_cursor : Option Cursor → Row → Bool
at_cursor c r = with_value c (λ k. below k r)

-- The filter takes its own parameters and adds its test.
abbrev Takes : Conditions → Bool → Row → Type 0
Takes frag b r =
    (w : List Clause) (ps : List Param)
    → where_holds (frag.0 ++ w) (frag.1 ++ ps) r ≡ and_some b (where_holds w ps r)

and_some-true : (o : Option Bool) → o ≡ and_some true o
and_some-true none = refl
and_some-true (some b) = refl

if_text-Takes :
    (o : Option Text) (f : Text → Conditions) (test : Text → Bool) (r : Row)
    → ((s : Text) → Takes (f s) (test s) r)
    → Takes (if_text o f) (with_text o test) r
if_text-Takes none f test r h = λ w ps. and_some-true (where_holds w ps r)
if_text-Takes (some []) f test r h = λ w ps. and_some-true (where_holds w ps r)
if_text-Takes (some (c ∷ t)) f test r h = h (c ∷ t)

if_given-Takes {ℓ} :
    {A : Type ℓ} (o : Option A) (f : A → Conditions) (test : A → Bool) (r : Row)
    → ((x : A) → Takes (f x) (test x) r)
    → Takes (if_given o f) (with_value o test) r
if_given-Takes none f test r h = λ w ps. and_some-true (where_holds w ps r)
if_given-Takes (some x) f test r h = h x

like-contains : (s : Text) → like (contains_pattern s) ≡ contains s
like-contains s = fun_ext (λ t. (like-escape s t).0)

like-starts_with : (s : Text) → like (prefix_pattern s) ≡ starts_with s
like-starts_with s = fun_ext (λ t. (like-escape s t).1)

cursor-holds :
    (c : Option Cursor) (r : Row)
    → let frag = if_given c (λ k. (
      below_cursor ∷ [],
      day k.d ∷ day k.d ∷ text k.src ∷ day k.d ∷ text k.src ∷ number k.id ∷ [],
    )) in
      where_holds frag.0 frag.1 r ≡ some (at_cursor c r)
cursor-holds none r = refl
cursor-holds (some k) r = elim (Bool-cases (below k r)) [ inl e ↦ rw e refl | inr e ↦ rw e refl ]

and_some_eight :
    (a b c d e f g h : Bool)
    → and_some a
        (and_some b (and_some c (and_some d (and_some e (and_some f (and_some g (some h)))))))
      ≡ some ((a && b && c && d && e && f && g) && h)
and_some_eight false b c d e f g h = refl
and_some_eight true false c d e f g h = refl
and_some_eight true true false d e f g h = refl
and_some_eight true true true false e f g h = refl
and_some_eight true true true true false f g h = refl
and_some_eight true true true true true false g h = refl
and_some_eight true true true true true true false h = refl
and_some_eight true true true true true true true h = refl

-- The clauses take exactly the parameters that the code binds, in their order, and test a row as the
-- filters ask: an item code that is the same, a search text in one of three columns and a lot
-- prefix, both literally, the dates, the quantities, and a place below the cursor.
pub build_records_filters-holds :
    (f : RecordsFilters) (date_from date_to : Option ℕ) (cursor : Option Cursor) (r : Row)
    → let (where_list, params) = build_records_filters f date_from date_to cursor in
      where_holds where_list params r ≡ some (passes f date_from date_to r && at_cursor cursor r)
unfolding build_records_filters passes
build_records_filters-holds f date_from date_to cursor r =
    let code =
      if_text-Takes f.item_code (λ s. (item_code_is ∷ [], text s ∷ []))
        (λ s. column r.stored.item_code (λ t. codes_eq t s)) r (λ s w ps. refl) in
    let search =
      if_text-Takes f.q
        (λ s. let like = text (contains_pattern s) in (q_like ∷ [], like ∷ like ∷ like ∷ []))
        (λ s. has_text (contains s) r.stored) r (λ s w ps. rw (like-contains s) refl) in
    let lot =
      if_text-Takes f.lot_number (λ s. (lot_like ∷ [], text (prefix_pattern s) ∷ []))
        (λ s. column r.stored.lot_number (starts_with s)) r
        (λ s w ps. rw (like-starts_with s) refl) in
    let from =
      if_given-Takes date_from (λ n. (from_date ∷ [], day n ∷ []))
        (λ n. leb n r.stored.production_date) r (λ n w ps. refl) in
    let before =
      if_given-Takes date_to (λ n. (before_date ∷ [], day n ∷ []))
        (λ n. ltb r.stored.production_date n) r (λ n w ps. refl) in
    let least =
      if_given-Takes f.min_quantity (λ n. (at_least ∷ [], number n ∷ []))
        (λ n. column r.stored.good_quantity (λ z. int_le (pos n) z)) r (λ n w ps. refl) in
    let most =
      if_given-Takes f.max_quantity (λ n. (at_most ∷ [], number n ∷ []))
        (λ n. column r.stored.good_quantity (λ z. int_le z (pos n))) r (λ n w ps. refl) in
    code _ _
    ∙ ap (and_some (has_code f r)) (
        search _ _
        ∙ ap (and_some (is_found f r)) (
            lot _ _
            ∙ ap (and_some (in_lot f r)) (
                from _ _
                ∙ ap (and_some (is_from date_from r)) (
                    before _ _
                    ∙ ap (and_some (is_before date_to r)) (
                        least _ _
                        ∙ ap (and_some (has_least f r))
                            (most _ _ ∙ ap (and_some (has_most f r)) (cursor-holds cursor r)))))))
    ∙ and_some_eight (has_code f r) (is_found f r) (in_lot f r) (is_from date_from r)
        (is_before date_to r) (has_least f r) (has_most f r) (at_cursor cursor r)
