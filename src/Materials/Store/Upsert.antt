-- ===== src/Materials/Store/Upsert.antt =====
-- `upsert_materials` as an update of the map from key to row.
use server_api.Prelude.{
  ℕ, ◌≡◌, ◌≢◌, refl, sym, ap, ◌∙◌, Bool, true, false, not, Option, none, some, List, [], ◌∷◌,
  String, arith, str_eq, if◌then◌else◌, any, find, select, any-select, Bool-cases, inl, inr,
}
use mathlib.Core.Path.{subst}
use server_api.Materials.Model.{
  MaterialRow, Key, Incoming, MaterialPublic, MaterialsDb, same_key, same_contents, same_key-same,
  same_contents-same, same_key_refl,
}
use server_api.Materials.Store.{
  project, put_last, dedupe_onto, dedupe, is_tombstoned, stored_as, overwrite, upsert_row,
  upsert_rows, incoming_of, upsert_materials,
}

abbrev pub is_for : Key → Incoming → Bool
is_for k x = same_key x.key k

-- What an incoming row makes of the stored one with its key: its contents are stored, the time the
-- row was first received at stays, and the time of the update is now only if a column differs.
abbrev pub merge : ℕ → Option Incoming → Option MaterialPublic → Option MaterialPublic
merge now none stored = stored
merge now (some x) none =
    some (record { key = x.key; contents = x.contents; received_at = now; updated_at = now })
merge now (some x) (some m) = some (record {
  key = m.key;
  contents = x.contents;
  received_at = m.received_at;
  updated_at = if same_contents x.contents m.contents then m.updated_at else now;
})

overwrite-merge :
    (now : ℕ) (x : Incoming) (m : MaterialPublic)
    → some (overwrite now x m) ≡ merge now (some x) (some m)
overwrite-merge now x m = elim (Bool-cases (same_contents x.contents m.contents)) [
  | inl e ↦
      let same = sym (same_contents-same x.contents m.contents e) in
      rw e (λ i. some (record {
        key = m.key;
        contents = same i;
        received_at = m.received_at;
        updated_at = m.updated_at;
      }))
  | inr e ↦ rw e refl
]

same_key-apart : (a b c : Key) → same_key a b ≡ true → same_key a c ≡ same_key b c
same_key-apart a b c h = ap (λ z. same_key z c) (same_key-same a b h)

pub same_key-other :
    (m x k : Key) → same_key m x ≡ false → same_key m k ≡ true → same_key x k ≡ false
same_key-other m x k e f = elim (Bool-cases (same_key x k)) [
  | inl g ↦ absurd (clash (sym e ∙ ap (same_key m) (same_key-same x k g) ∙ f))
  | inr g ↦ g
]
  where
    clash : false ≢ true
    clash p = ground arith

pub key-overwrite : (now : ℕ) (x : Incoming) (m : MaterialPublic) → (overwrite now x m).key ≡ m.key
key-overwrite now x m = elim (Bool-cases (same_contents x.contents m.contents)) [
  | inl e ↦ rw e refl
  | inr e ↦ rw e refl
]

find-upsert_row :
    (now : ℕ) (x : Incoming) (k : Key) (ms : List MaterialPublic)
    → find (stored_as k) (upsert_row now x ms)
      ≡ (if is_for k x then merge now (some x) (find (stored_as k) ms) else find (stored_as k) ms)
unfolding upsert_row
find-upsert_row now x k [] = ground arith
find-upsert_row now x k (m ∷ ms) = elim (Bool-cases (same_key m.key x.key)) [
  | inl e ↦ elim (Bool-cases (same_key m.key k)) [
    | inl f ↦
        rw (e, key-overwrite now x m, ← same_key-apart m.key x.key k e, f) (overwrite-merge now x m)
    | inr f ↦ rw (e, key-overwrite now x m, ← same_key-apart m.key x.key k e, f) refl
  ]
  | inr e ↦ elim (Bool-cases (same_key m.key k)) [
    | inl f ↦ let other = same_key-other m.key x.key k e f in rw (e, f, other) refl
    | inr f ↦ rw (e, f) (find-upsert_row now x k ms)
  ]
]

-- No two rows of a batch have one key.
abbrev pub AreKeyed : List Incoming → Type 0
AreKeyed [] = Unit
AreKeyed (x ∷ xs) = (any (is_for x.key) xs ≡ false) × AreKeyed xs

find-any-none :
    (k : Key) (xs : List Incoming) → any (is_for k) xs ≡ false → find (is_for k) xs ≡ none
find-any-none k [] h = refl
find-any-none k (x ∷ xs) h = ground (arith, find-any-none k xs)

pub find-upsert_rows :
    (now : ℕ) (k : Key) (xs : List Incoming) (ms : List MaterialPublic)
    → AreKeyed xs
    → find (stored_as k) (upsert_rows now xs ms).1
      ≡ merge now (find (is_for k) xs) (find (stored_as k) ms)
unfolding upsert_rows
find-upsert_rows now k [] ms h = refl
find-upsert_rows now k (x ∷ xs) ms h =
    find-upsert_rows now k xs (upsert_row now x ms) h.1
    ∙ rw (find-upsert_row now x k ms) (elim (Bool-cases (is_for k x)) [
      | inl e ↦
          let alone =
            find-any-none k xs
              (subst (λ z. any (is_for z) xs ≡ false) (same_key-same x.key k e) h.0) in
          rw (e, alone) refl
      | inr e ↦ rw e refl
    ])

any-put_last :
    (x : Incoming) (k : Key) (ys : List Incoming)
    → any (is_for k) (put_last x ys) ≡ (if is_for k x then true else any (is_for k) ys)
any-put_last x k [] = refl
any-put_last x k (y ∷ ys) = elim (Bool-cases (same_key y.key x.key)) [
  | inl e ↦ rw (e, same_key-apart y.key x.key k e) (ground arith)
  | inr e ↦ rw e (ground (arith, any-put_last x k ys))
]

put_last-AreKeyed : (x : Incoming) (ys : List Incoming) → AreKeyed ys → AreKeyed (put_last x ys)
put_last-AreKeyed x [] h = (refl, tt)
put_last-AreKeyed x (y ∷ ys) h = elim (Bool-cases (same_key y.key x.key)) [
  | inl e ↦ rw e (subst (λ z. any (is_for z) ys ≡ false) (same_key-same y.key x.key e) h.0, h.1)
  | inr e ↦
      let apart = same_key-other y.key x.key y.key e (same_key_refl y.key) in
      rw e (any-put_last x y.key ys ∙ rw apart h.0, put_last-AreKeyed x ys h.1)
]

find-put_last :
    (x : Incoming) (k : Key) (ys : List Incoming)
    → find (is_for k) (put_last x ys) ≡ (if is_for k x then some x else find (is_for k) ys)
find-put_last x k [] = refl
find-put_last x k (y ∷ ys) = elim (Bool-cases (same_key y.key x.key)) [
  | inl e ↦ rw (e, same_key-apart y.key x.key k e) (ground arith)
  | inr e ↦ elim (Bool-cases (same_key y.key k)) [
    | inl f ↦ rw (e, f, same_key-other y.key x.key k e f) refl
    | inr f ↦ rw (e, f) (find-put_last x k ys)
  ]
]

-- The last row of a batch with the key.
abbrev pub last_for : Key → List MaterialRow → Option Incoming
last_for k [] = none
last_for k (r ∷ rs) = elim (last_for k rs) [
  | none ↦ if is_for k (project r) then some (project r) else none
  | some x ↦ some x
]

abbrev or_else : Option Incoming → Option Incoming → Option Incoming
or_else none o = o
or_else (some x) o = some x

or_else-none : (o : Option Incoming) → or_else o none ≡ o
or_else-none none = refl
or_else-none (some x) = refl

or_else-last :
    (o : Option Incoming) (b : Bool) (x : Incoming) (f : Option Incoming)
    → or_else o (if b then some x else f)
      ≡ or_else
          (elim o as (λ z. Option Incoming) [ none ↦ if b then some x else none | some y ↦ some y ])
          f
or_else-last none true x f = refl
or_else-last none false x f = refl
or_else-last (some y) b x f = refl

find-dedupe_onto :
    (k : Key) (rs : List MaterialRow) (out : List Incoming)
    → find (is_for k) (dedupe_onto out rs) ≡ or_else (last_for k rs) (find (is_for k) out)
find-dedupe_onto k [] out = refl
find-dedupe_onto k (r ∷ rs) out =
    find-dedupe_onto k rs (put_last (project r) out)
    ∙ rw (find-put_last (project r) k out)
        (or_else-last (last_for k rs) (is_for k (project r)) (project r) (find (is_for k) out))

dedupe_onto-AreKeyed :
    (rs : List MaterialRow) (out : List Incoming) → AreKeyed out → AreKeyed (dedupe_onto out rs)
dedupe_onto-AreKeyed [] out h = h
dedupe_onto-AreKeyed (r ∷ rs) out h =
    dedupe_onto-AreKeyed rs (put_last (project r) out) (put_last-AreKeyed (project r) out h)

pub dedupe-AreKeyed : (rs : List MaterialRow) → AreKeyed (dedupe rs)
unfolding dedupe
dedupe-AreKeyed rs = dedupe_onto-AreKeyed rs [] tt

pub select-AreKeyed :
    (p : Incoming → Bool) (xs : List Incoming) → AreKeyed xs → AreKeyed (select p xs)
select-AreKeyed p [] h = tt
select-AreKeyed p (x ∷ xs) h = elim (Bool-cases (p x)) [
  | inl e ↦ rw e (any-select (is_for x.key) p xs h.0, select-AreKeyed p xs h.1)
  | inr e ↦ rw e (select-AreKeyed p xs h.1)
]

-- The rows of a batch that are kept are those of the documents kept.
find-select_key :
    (p : Key → Bool) (k : Key) (xs : List Incoming)
    → find (is_for k) (select (λ x. p x.key) xs) ≡ (if p k then find (is_for k) xs else none)
find-select_key p k [] = ground arith
find-select_key p k (x ∷ xs) = elim (Bool-cases (same_key x.key k)) [
  | inl e ↦
      let same = ap p (same_key-same x.key k e) in
      elim (Bool-cases (p k)) [
        | inl f ↦ rw (same, f, e) refl
        | inr f ↦ rw (same, f) (find-select_key p k xs ∙ rw f refl)
      ]
  | inr e ↦ elim (Bool-cases (p x.key)) [
    | inl f ↦ rw (f, e) (find-select_key p k xs)
    | inr f ↦ rw (f, e) (find-select_key p k xs)
  ]
]

-- What the rows of an upsert are in the table after it: for every key, the stored row merged with
-- the last row of the batch for that key, unless the document was deleted. A merged row has the
-- contents of the batch's row and keeps the time it was received at; the time of its update is that
-- of the upsert if a column of the contents changed and the old one otherwise. Every other table is
-- as before, and so are the tombstones.
pub upsert_materials_stores :
    (rows : List MaterialRow) (table other : String) (now : ℕ) (db : MaterialsDb) (k : Key)
    → let after = (upsert_materials rows table now db).1 in
      let batch =
        (if not (is_tombstoned table db.tombstones k.doc_number) then last_for k rows else none) in
      (find (stored_as k) (after.tables other) ≡ (
        if str_eq table other
        then merge now batch (find (stored_as k) (db.tables table))
        else find (stored_as k) (db.tables other)))
      × (after.tombstones ≡ db.tombstones)
unfolding upsert_materials dedupe
upsert_materials_stores rows table other now db k =
    let kept = (λ (l : Key). not (is_tombstoned table db.tombstones l.doc_number)) in
    let incoming = incoming_of table db.tombstones rows in
    let stored =
      find-upsert_rows now k incoming (db.tables table)
        (select-AreKeyed (λ x. kept x.key) (dedupe rows) (dedupe-AreKeyed rows)) in
    let chosen : find (is_for k) incoming ≡ (if kept k then last_for k rows else none) =
      find-select_key kept k (dedupe rows)
      ∙ ap (λ z. if kept k then z else none)
          (find-dedupe_onto k rows [] ∙ or_else-none (last_for k rows)) in
    elim (Bool-cases (str_eq table other)) [
      | inl e ↦
          rw e (stored ∙ ap (λ z. merge now z (find (stored_as k) (db.tables table))) chosen, refl)
      | inr e ↦ rw e (refl, refl)
    ]
