-- ===== src/Records/Pages/Follow.antt =====
-- Following the cursors from page to page.
use server_api.Prelude.{
  ℕ, select-select, zero, suc, ◌+◌, ◌≤◌, ◌<◌, ◌≡◌, refl, sym, ap, ◌∙◌, true, false, Option, none,
  some, List, [], ◌∷◌, ◌++◌, arith, ltb, ltb→lt, take, length, select, All, All_middle,
  select_holds, Pairwise-select, length-take, take-take, take_all, Response, ok, http_error,
  Bool-cases, inl, inr,
}
use mathlib.Core.Path.{subst}
use server_api.Records.Filters.{Row, Cursor}
use server_api.Records.Filters.Bound.{at_cursor}
use server_api.Records.Pages.{Page, cursor_of, last_cursor, page_of}
use server_api.Records.Pages.Order.{before, before_apart, before_irreflexive, before_trans}
use server_api.Records.Pages.Distinct.{AreListed}

abbrev next_pages : (Cursor → List Row) → Option Cursor → List Row
next_pages more none = []
next_pages more (some c) = more c

abbrev pages_from : (Cursor → List Row) → Response Page → List Row
pages_from more (http_error e) = []
pages_from more (ok p) = p.data_rows ++ next_pages more p.next_cursor

-- What a client reads that asks for the next page as long as there is a cursor, `fuel` pages at most.
abbrev pub follow : ℕ → (Option Cursor → Response Page) → Option Cursor → List Row
follow zero get c = []
follow (suc fuel) get c = pages_from (λ k. follow fuel get (some k)) (get c)

select-All-before :
    (x : Row) (B : List Row) → All (λ y. before x y ≡ true) B → select (before x) B ≡ B
select-All-before x [] h = refl
select-All-before x (y ∷ ys) h = rw h.0 (ap (λ z. y ∷ z) (select-All-before x ys h.1))

-- What is below the cursor of a row is what stands after it.
select-before :
    (x : Row) (A B : List Row) → AreListed (A ++ x ∷ B) → select (before x) (A ++ x ∷ B) ≡ B
select-before x [] B h = rw (before_irreflexive x) (select-All-before x B h.0)
select-before x (y ∷ A) B h =
    let first : before y x ≡ true = All_middle (λ z. before y z ≡ true) A x B h.0 in
    rw (before_apart y x first) (select-before x A B h.1)

last_cursor-append : (D : List Row) (x : Row) → last_cursor (D ++ x ∷ []) ≡ some (cursor_of x)
last_cursor-append [] x = refl
last_cursor-append (y ∷ []) x = refl
last_cursor-append (y ∷ z ∷ D) x = last_cursor-append (z ∷ D) x

-- A list that is long enough, split at the last element that is taken.
split_at_last :
    (n : ℕ) (S : List Row)
    → n < length S
    → (cut : List Row × Row × List Row) × (S ≡ cut.0 ++ cut.1 ∷ cut.2)
      × (take (suc n) S ≡ cut.0 ++ cut.1 ∷ [])
      × (length cut.2 < length S)
split_at_last n [] h = absurd (omega (arith, h))
split_at_last zero (x ∷ xs) h = (([], x, xs), refl, refl, omega arith)
split_at_last (suc n) (x ∷ xs) h =
    let ((d, y, s), a, b, c) = split_at_last n xs (omega (arith, h)) in
    ((x ∷ d, y, s), ap (λ z. x ∷ z) a, ap (λ z. x ∷ z) b, omega (arith, c))

append_nil : (xs : List Row) → xs ++ [] ≡ xs
append_nil [] = refl
append_nil (x ∷ xs) = ap (λ z. x ∷ z) (append_nil xs)

append_assoc : (xs : List Row) (y : Row) (ys : List Row) → (xs ++ y ∷ []) ++ ys ≡ xs ++ y ∷ ys
append_assoc [] y ys = refl
append_assoc (x ∷ xs) y ys = ap (λ z. x ∷ z) (append_assoc xs y ys)

no_rows : (S : List Row) → length S ≤ 0 → [] ≡ S
no_rows [] h = refl
no_rows (x ∷ xs) h = absurd (omega (arith, h))

module _ (n : ℕ) (get : Option Cursor → Response Page) (L : List Row) (ordered : AreListed L)
    (pages : (c : Option Cursor)
      → get c ≡ ok (page_of (suc n) (take (suc n + 1) (select (at_cursor c) L)))) where
  -- The last page: it is all that is left.
  page_of-last :
      (S : List Row)
      → length S ≤ suc n
      → page_of (suc n) (take (suc n + 1) S)
        ≡ record { data_rows = S; next_cursor = none; has_more = false; row_count = length S }
  unfolding page_of
  page_of-last S h =
      let all = take_all (suc n + 1) S (omega (arith, h)) in
      let all_data = take_all (suc n) S h in
      let over : ltb (suc n) (length S) ≡ false = ground arith in rw (all, all_data, over) refl

  -- A page before the last one: its cursor is that of its last row.
  page_of-more :
      (S D : List Row) (x : Row)
      → suc n < length S
      → take (suc n) S ≡ D ++ x ∷ []
      → ((page_of (suc n) (take (suc n + 1) S)).data_rows ≡ D ++ x ∷ [])
        × ((page_of (suc n) (take (suc n + 1) S)).next_cursor ≡ some (cursor_of x))
  unfolding page_of
  page_of-more S D x h e =
      let plus : suc n + 1 ≡ suc (suc n) = omega arith in
      let over : ltb (suc n) (length (take (suc (suc n)) S)) ≡ true =
        ground (arith, length-take (suc (suc n)) S) in
      rw (plus, take-take (suc n) S, over, e, last_cursor-append D x) (refl, refl)

  pub follow_rest :
      (fuel : ℕ) (c : Option Cursor)
      → ((x y : Row) → at_cursor c x ≡ true → before x y ≡ true → at_cursor c y ≡ true)
      → length (select (at_cursor c) L) ≤ fuel
      → follow fuel get c ≡ select (at_cursor c) L
  follow_rest zero c closed h = no_rows (select (at_cursor c) L) h
  follow_rest (suc fuel) c closed h =
      let S = select (at_cursor c) L in
      elim (Bool-cases (ltb (suc n) (length S))) [
        | inl e ↦
            let longer : suc n < length S = ltb→lt (suc n) (length S) e in
            let ((D, x, later), whole, front, fewer) = split_at_last n S (omega (arith, longer)) in
            let (shown, next) = page_of-more S D x longer front in
            let x_passes : at_cursor c x ≡ true =
              All_middle (λ z. at_cursor c z ≡ true) D x later
                (subst (All (λ z. at_cursor c z ≡ true)) whole (select_holds (at_cursor c) L)) in
            let S_ordered : AreListed (D ++ x ∷ later) =
              subst AreListed whole
                (Pairwise-select (λ y z. before y z ≡ true) (at_cursor c) L ordered) in
            let left : select (at_cursor (some (cursor_of x))) L ≡ later =
              sym (select-select (before x) (at_cursor c) L (λ y. closed x y x_passes))
              ∙ ap (select (before x)) whole
              ∙ select-before x D later S_ordered in
            let read : follow fuel get (some (cursor_of x)) ≡ later =
              follow_rest fuel (some (cursor_of x)) (λ y z. before_trans x y z)
                (rw left (ground arith))
              ∙ left in
            ap (pages_from (λ k. follow fuel get (some k))) (pages c)
            ∙ rw (shown, next, read) (append_assoc D x later ∙ sym whole)
        | inr e ↦
            ap (pages_from (λ k. follow fuel get (some k))) (pages c)
            ∙ rw (page_of-last S (ground arith)) (append_nil S)
      ]
