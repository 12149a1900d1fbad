-- ===== src/Materials/Store/Resend.antt =====
-- A batch that is sent again changes nothing.
use server_api.Prelude.{
  ℕ, ◌≡◌, refl, ap, ◌∙◌, Bool, true, false, not, Option, none, some, List, [], ◌∷◌, String, arith,
  str_eq, eq_iff, if◌then◌else◌, count, find, All, Bool-cases, inl, inr,
}
use mathlib.Core.Path.{subst}
use server_api.Materials.Model.{
  MaterialRow, Incoming, MaterialPublic, MaterialsDb, same_key, same_contents, same_key_refl,
  same_contents_refl,
}
use server_api.Materials.Store.{
  dedupe, is_tombstoned, stored_as, has_key, upsert_row, changes, upsert_rows, incoming_of,
  upsert_materials,
}
use server_api.Materials.Store.Upsert.{
  merge, AreKeyed, find-upsert_rows, dedupe-AreKeyed, select-AreKeyed,
}

-- What is stored for the row has its contents.
abbrev has_contents : Incoming → Option MaterialPublic → Bool
has_contents x none = false
has_contents x (some m) = same_contents x.contents m.contents

abbrev is_settled : List MaterialPublic → Incoming → Bool
is_settled ms x = has_contents x (find (stored_as x.key) ms)

merge-has_contents :
    (now : ℕ) (x : Incoming) (o : Option MaterialPublic)
    → has_contents x (merge now (some x) o) ≡ true
merge-has_contents now x none = same_contents_refl x.contents
merge-has_contents now x (some m) = same_contents_refl x.contents

upsert_rows-settled :
    (now : ℕ) (xs : List Incoming) (ms : List MaterialPublic)
    → AreKeyed xs
    → All (λ x. is_settled (upsert_rows now xs ms).1 x ≡ true) xs
unfolding upsert_rows
upsert_rows-settled now [] ms h = tt
upsert_rows-settled now (x ∷ xs) ms h = (
  ap (has_contents x) (find-upsert_rows now x.key (x ∷ xs) ms h)
      ∙ rw (same_key_refl x.key) (merge-has_contents now x (find (stored_as x.key) ms)),
  upsert_rows-settled now xs (upsert_row now x ms) h.1,
)

upsert_row-settled :
    (now : ℕ) (x : Incoming) (ms : List MaterialPublic)
    → is_settled ms x ≡ true
    → (upsert_row now x ms ≡ ms) × (changes x ms ≡ 0) × (has_key ms x.key ≡ true)
unfolding upsert_row changes
upsert_row-settled now x [] h = absurd (ground arith)
upsert_row-settled now x (m ∷ ms) h = elim (Bool-cases (same_key m.key x.key)) [
  | inl e ↦
      let same : same_contents x.contents m.contents ≡ true =
        subst (λ z. has_contents x (if z then some m else find (stored_as x.key) ms) ≡ true) e h in
      rw (e, same) (refl, refl, refl)
  | inr e ↦
      let later : is_settled ms x ≡ true =
        subst (λ z. has_contents x (if z then some m else find (stored_as x.key) ms) ≡ true) e h in
      let (a, b, c) = upsert_row-settled now x ms later in rw (e, a, b, c) (refl, refl, refl)
]

upsert_rows-again :
    (now : ℕ) (xs : List Incoming) (ms : List MaterialPublic)
    → All (λ x. is_settled ms x ≡ true) xs
    → ((upsert_rows now xs ms).1 ≡ ms)
      × ((upsert_rows now xs ms).0 ≡ 0)
      × (count (λ x. not (has_key ms x.key)) xs ≡ 0)
unfolding upsert_rows
upsert_rows-again now [] ms h = (refl, refl, refl)
upsert_rows-again now (x ∷ xs) ms h =
    let (a, b, c) = upsert_row-settled now x ms h.0 in
    let (d, e, f) = upsert_rows-again now xs ms h.1 in rw (a, b, c) (d, ground arith, f)

-- A batch that is sent again, at any later time, changes no row of any table and reports as many
-- rows upserted and as many skipped as before, none of them inserted and none updated.
pub upsert_materials_again :
    (rows : List MaterialRow) (table other : String) (now later : ℕ) (db : MaterialsDb)
    → let (first, once) = upsert_materials rows table now db in
      let (again, twice) = upsert_materials rows table later once in
      (twice.tables other ≡ once.tables other)
      × (again.upserted ≡ first.upserted)
      × (again.skipped ≡ first.skipped)
      × (again.inserted ≡ 0)
      × (again.updated ≡ 0)
unfolding upsert_materials
upsert_materials_again rows table other now later db =
    let incoming = incoming_of table db.tombstones rows in
    let kept = (λ (x : Incoming). not (is_tombstoned table db.tombstones x.key.doc_number)) in
    let after = (upsert_rows now incoming (db.tables table)).1 in
    let settled =
      upsert_rows-settled now incoming (db.tables table)
        (select-AreKeyed kept (dedupe rows) (dedupe-AreKeyed rows)) in
    let (a, b, c) = upsert_rows-again later incoming after settled in
    rw ((eq_iff table table).1 refl, a, b, c)
      (elim (Bool-cases (str_eq table other)) [
        | inl e ↦ rw e (refl, refl, refl, refl, refl)
        | inr e ↦ rw e (refl, refl, refl, refl, refl)
      ])
