-- ===== src/Materials/Store/Counts.antt =====
-- The counts that `upsert_materials` answers with.
use server_api.Prelude.{
  ℕ, ◌+◌, ◌≤◌, ◌≡◌, refl, sym, ap, Bool, true, false, not, List, [], ◌∷◌, String, arith,
  if◌then◌else◌, length, count, any, select, eq_iff, Bool-cases, inl, inr,
}
use mathlib.Core.Path.{subst}
use server_api.Materials.Model.{
  MaterialRow, Key, Incoming, MaterialPublic, MaterialsDb, same_key, same_key-same, same_key_refl,
}
use server_api.Materials.Store.{
  dedupe, is_tombstoned, has_key, upsert_row, changes, upsert_rows, incoming_of, upsert_materials,
  count_materials,
}
use server_api.Materials.Store.Upsert.{
  is_for, AreKeyed, dedupe-AreKeyed, select-AreKeyed, key-overwrite,
}

abbrev is_new : List MaterialPublic → Incoming → Bool
is_new rows x = not (has_key rows x.key)

abbrev one_if : Bool → ℕ
one_if b = if b then 1 else 0

length-upsert_row :
    (now : ℕ) (x : Incoming) (ms : List MaterialPublic)
    → length (upsert_row now x ms) ≡ length ms + one_if (is_new ms x)
unfolding upsert_row
length-upsert_row now x [] = refl
length-upsert_row now x (m ∷ ms) = elim (Bool-cases (same_key m.key x.key)) [
  | inl e ↦ rw e (ground arith)
  | inr e ↦ rw e (ground (arith, length-upsert_row now x ms))
]

-- Another row of the batch is as new after the row is written as it was before.
has_key-upsert_row :
    (now : ℕ) (x : Incoming) (k : Key) (ms : List MaterialPublic)
    → same_key x.key k ≡ false
    → has_key (upsert_row now x ms) k ≡ has_key ms k
unfolding upsert_row
has_key-upsert_row now x k [] h = rw h refl
has_key-upsert_row now x k (m ∷ ms) h = elim (Bool-cases (same_key m.key x.key)) [
  | inl e ↦ rw (e, key-overwrite now x m) refl
  | inr e ↦ rw e (ap (λ z. if same_key m.key k then true else z) (has_key-upsert_row now x k ms h))
]

same_key_apart_sym : (k l : Key) → same_key k l ≡ false → same_key l k ≡ false
same_key_apart_sym k l h = elim (Bool-cases (same_key l k)) [
  | inl e ↦ absurd (
      ground
        (arith, h, subst (λ z. same_key k z ≡ true) (sym (same_key-same l k e)) (same_key_refl k)))
  | inr e ↦ e
]

count-new :
    (now : ℕ) (x : Incoming) (xs : List Incoming) (ms : List MaterialPublic)
    → any (is_for x.key) xs ≡ false
    → count (is_new (upsert_row now x ms)) xs ≡ count (is_new ms) xs
count-new now x [] ms h = refl
count-new now x (y ∷ ys) ms h =
    let apart = same_key_apart_sym y.key x.key (ground arith) in
    let same = has_key-upsert_row now x y.key ms apart in
    ground (arith, same, count-new now x ys ms)

changes-new :
    (x : Incoming) (ms : List MaterialPublic)
    → (one_if (is_new ms x) ≤ changes x ms) × (changes x ms ≤ 1)
unfolding changes
changes-new x [] = ground arith
changes-new x (m ∷ ms) = elim (Bool-cases (same_key m.key x.key)) [
  | inl e ↦ rw e (ground arith)
  | inr e ↦ rw e (changes-new x ms)
]

-- Every new row is written, a written row counts once, and only the new rows make the table longer.
upsert_rows-counts :
    (now : ℕ) (xs : List Incoming) (ms : List MaterialPublic)
    → AreKeyed xs
    → (count (is_new ms) xs ≤ (upsert_rows now xs ms).0)
      × ((upsert_rows now xs ms).0 ≤ length xs)
      × (length (upsert_rows now xs ms).1 ≡ length ms + count (is_new ms) xs)
unfolding upsert_rows
upsert_rows-counts now [] ms h = (ground arith, ground arith, ground arith)
upsert_rows-counts now (x ∷ xs) ms h =
    let (a, b, c) = upsert_rows-counts now xs (upsert_row now x ms) h.1 in
    let same = count-new now x xs ms h.0 in
    let (d, e) = changes-new x ms in
    let grown = length-upsert_row now x ms in (ground arith, ground arith, ground arith)

select-count :
    (p : Incoming → Bool) (xs : List Incoming)
    → length (select (λ x. not (p x)) xs) + count p xs ≡ length xs
select-count p [] = refl
select-count p (x ∷ xs) = elim (Bool-cases (p x)) [
  | inl e ↦ rw e (ground (arith, select-count p xs))
  | inr e ↦ rw e (ground (arith, select-count p xs))
]

-- The counts of an upsert: each document row of the batch, counted once a key, is either upserted
-- or skipped; the rows inserted and the rows updated are no more than those upserted; and the
-- table has grown by the rows inserted.
pub upsert_materials_counts :
    (rows : List MaterialRow) (table : String) (now : ℕ) (db : MaterialsDb)
    → let (result, after) = upsert_materials rows table now db in
      (result.upserted + result.skipped ≡ length (dedupe rows))
      × (result.inserted + result.updated ≤ result.upserted)
      × (count_materials table after ≡ count_materials table db + result.inserted)
unfolding upsert_materials count_materials
upsert_materials_counts rows table now db =
    let buried = (λ (x : Incoming). is_tombstoned table db.tombstones x.key.doc_number) in
    let keyed = select-AreKeyed (λ x. not (buried x)) (dedupe rows) (dedupe-AreKeyed rows) in
    let (a, b, c) =
      upsert_rows-counts now (incoming_of table db.tombstones rows) (db.tables table) keyed in
    (select-count buried (dedupe rows), ground arith, rw ((eq_iff table table).1 refl) c)
