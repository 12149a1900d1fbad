-- ===== src/Materials/Router/Buried.antt =====
-- No stored row is of a document that was deleted.
use server_api.Prelude.{
  ℕ, ◌≡◌, refl, sym, Bool, true, false, not, ◌&&◌, List, [], ◌∷◌, String, arith, str_eq, eq_iff,
  ltb, if◌then◌else◌, count, any, select, any-select, str_eq_apart_sym, Bool-cases, inl, inr,
  and_parts,
}
use mathlib.Core.Path.{subst}
use server_api.Materials.Datasets.{Dataset}
use server_api.Materials.Model.{
  MaterialRow, Key, Incoming, MaterialPublic, Tombstone, MaterialsDb, same_key,
}
use server_api.Materials.Store.{
  dedupe, buries, is_tombstoned, upsert_row, upsert_rows, incoming_of, upsert_materials,
  of_document, bury, delete_document, restore_document,
}
use server_api.Materials.Store.Upsert.{key-overwrite}
use server_api.Materials.Router.{
  Server, backup_body, trigger_run_body, delete_row_body, restore_row_body,
}

abbrev pub buried : String → List Tombstone → MaterialPublic → Bool
buried table ts m = is_tombstoned table ts m.key.doc_number

-- No stored row of a table is of a document deleted from it.
abbrev pub NoneBuried : MaterialsDb → Type 0
NoneBuried db = (table : String) → any (buried table db.tombstones) (db.tables table) ≡ false

upsert_row-NoneBuried :
    (p : Key → Bool) (now : ℕ) (x : Incoming) (ms : List MaterialPublic)
    → p x.key ≡ false
    → any (λ (m : MaterialPublic). p m.key) ms ≡ false
    → any (λ (m : MaterialPublic). p m.key) (upsert_row now x ms) ≡ false
unfolding upsert_row
upsert_row-NoneBuried p now x [] h g = ground arith
upsert_row-NoneBuried p now x (m ∷ ms) h g = elim (Bool-cases (same_key m.key x.key)) [
  | inl e ↦ rw (e, key-overwrite now x m) g
  | inr e ↦ rw e (ground (arith, upsert_row-NoneBuried p now x ms h))
]

upsert_rows-NoneBuried :
    (p : Key → Bool) (now : ℕ) (xs : List Incoming) (ms : List MaterialPublic)
    → any (λ (m : MaterialPublic). p m.key) ms ≡ false
    → any
        (λ (m : MaterialPublic). p m.key)
        (upsert_rows now (select (λ (x : Incoming). not (p x.key)) xs) ms).1
      ≡ false
unfolding upsert_rows
upsert_rows-NoneBuried p now [] ms h = h
upsert_rows-NoneBuried p now (x ∷ xs) ms h = elim (Bool-cases (p x.key)) [
  | inl e ↦ rw e (upsert_rows-NoneBuried p now xs ms h)
  | inr e ↦
      rw e (
        upsert_rows-NoneBuried p now xs (upsert_row now x ms)
          (upsert_row-NoneBuried p now x ms e h))
]

upsert_materials-NoneBuried :
    (rows : List MaterialRow) (table : String) (now : ℕ) (db : MaterialsDb)
    → NoneBuried db
    → NoneBuried (upsert_materials rows table now db).1
unfolding upsert_materials
upsert_materials-NoneBuried rows table now db h other = elim (Bool-cases (str_eq table other)) [
  | inl e ↦
      let same = (eq_iff table other).0 e in
      rw e (
        subst
          (λ t.
            any (buried t db.tombstones)
              (upsert_rows now (incoming_of table db.tombstones rows) (db.tables table)).1
            ≡ false)
          same
          (upsert_rows-NoneBuried (λ k. is_tombstoned table db.tombstones k.doc_number) now
            (dedupe rows) (db.tables table) (h table)))
  | inr e ↦ rw e (h other)
]

pub is_tombstoned-bury :
    (table doc t d : String) (now : ℕ) (ts : List Tombstone)
    → is_tombstoned t (bury table doc now ts) d
      ≡ (if str_eq table t && str_eq doc d then true else is_tombstoned t ts d)
is_tombstoned-bury table doc t d now [] = ground arith
is_tombstoned-bury table doc t d now (x ∷ xs) = elim (Bool-cases (buries table doc x)) [
  | inl e ↦
      let (f, g) = and_parts (str_eq x.table_name table) (str_eq x.doc_number doc) e in
      let same : buries t d x ≡ (str_eq table t && str_eq doc d) = λ i.
        str_eq ((eq_iff x.table_name table).0 f i) t
        && str_eq ((eq_iff x.doc_number doc).0 g i) d in
      rw (e, same) (ground (arith, is_tombstoned-bury table doc t d now xs))
  | inr e ↦ rw e (ground (arith, is_tombstoned-bury table doc t d now xs))
]

-- The rows of other documents and of other tables are buried no more than before.
any-buried-bury :
    (table doc t : String) (now : ℕ) (ts : List Tombstone) (ms : List MaterialPublic)
    → any (buried t ts) ms ≡ false
    → any (λ (m : MaterialPublic). str_eq table t && str_eq doc m.key.doc_number) ms ≡ false
    → any (buried t (bury table doc now ts)) ms ≡ false
any-buried-bury table doc t now ts [] h g = refl
any-buried-bury table doc t now ts (m ∷ ms) h g =
    rw (is_tombstoned-bury table doc t m.key.doc_number now ts)
      (ground (arith, any-buried-bury table doc t now ts ms))

any-other_documents :
    (table doc t : String) (ms : List MaterialPublic)
    → any
        (λ (m : MaterialPublic). str_eq table t && str_eq doc m.key.doc_number)
        (select (λ m. not (of_document doc m)) ms)
      ≡ false
any-other_documents table doc t [] = refl
any-other_documents table doc t (m ∷ ms) = elim (Bool-cases (str_eq m.key.doc_number doc)) [
  | inl e ↦ rw e (any-other_documents table doc t ms)
  | inr e ↦
      rw (e, str_eq_apart_sym m.key.doc_number doc e)
        (ground (arith, any-other_documents table doc t ms))
]

any-other_table :
    (table doc t : String) (ms : List MaterialPublic)
    → str_eq table t ≡ false
    → any (λ (m : MaterialPublic). str_eq table t && str_eq doc m.key.doc_number) ms ≡ false
any-other_table table doc t [] h = refl
any-other_table table doc t (m ∷ ms) h = rw h (ground (arith, any-other_table table doc t ms h))

delete_document-NoneBuried :
    (doc table : String) (now : ℕ) (db : MaterialsDb)
    → NoneBuried db
    → NoneBuried (delete_document doc table now db).1
unfolding delete_document
delete_document-NoneBuried doc table now db h other =
    let kept = (λ (m : MaterialPublic). not (of_document doc m)) in
    let stays = any-select (buried other db.tombstones) kept (db.tables other) (h other) in
    elim (Bool-cases (ltb 0 (count (of_document doc) (db.tables table)))) [
      | inl e ↦ elim (Bool-cases (str_eq table other)) [
        | inl f ↦
            rw (e, f)
              (any-buried-bury table doc other now db.tombstones (select kept (db.tables table))
                (subst (λ t. any (buried other db.tombstones) (select kept (db.tables t)) ≡ false)
                  (sym ((eq_iff table other).0 f)) stays)
                (any-other_documents table doc other (db.tables table)))
        | inr f ↦
            rw (e, f)
              (any-buried-bury table doc other now db.tombstones (db.tables other) (h other)
                (any-other_table table doc other (db.tables other) f))
      ]
      | inr e ↦ elim (Bool-cases (str_eq table other)) [
        | inl f ↦
            rw (e, f)
              (subst (λ t. any (buried other db.tombstones) (select kept (db.tables t)) ≡ false)
                (sym ((eq_iff table other).0 f)) stays)
        | inr f ↦ rw (e, f) (h other)
      ]
    ]

any-buried-select :
    (t : String) (p : Tombstone → Bool) (ts : List Tombstone) (ms : List MaterialPublic)
    → any (buried t ts) ms ≡ false
    → any (buried t (select p ts)) ms ≡ false
any-buried-select t p ts [] h = refl
any-buried-select t p ts (m ∷ ms) h =
    let alone = any-select (buries t m.key.doc_number) p ts (ground arith) in
    rw alone (any-buried-select t p ts ms (ground arith))

-- One call of a route that changes the server.
pub data Step : Server → Server → Type 0 where
  backed_up :
      (ds : Dataset) (rows : List MaterialRow) (now recorded_at : ℕ) {server : Server}
      → Step server (backup_body ds rows now recorded_at server).1
  triggered :
      (enabled has_bot : Bool) (ds : Dataset) (now : ℕ) {server : Server}
      → Step server (trigger_run_body enabled has_bot ds now server).1
  deleted :
      (ds : Dataset) (doc : String) (now : ℕ) {server : Server}
      → Step server (delete_row_body ds doc now server).1
  restored :
      (ds : Dataset) (doc : String) {server : Server}
      → Step server (restore_row_body ds doc server).1

pub data Steps : Server → Server → Type 0 where
  done : {server : Server} → Steps server server
  next : {a b c : Server} → Steps a b → Step b c → Steps a c

pub Step-NoneBuried : {a b : Server} → Step a b → NoneBuried a.db → NoneBuried b.db
unfolding backup_body trigger_run_body delete_row_body restore_row_body restore_document
Step-NoneBuried (Step.backed_up ds rows now recorded_at {server}) h =
    upsert_materials-NoneBuried rows ds.table now server.db h
Step-NoneBuried (Step.triggered enabled has_bot ds now) h = h
Step-NoneBuried (Step.deleted ds doc now {server}) h =
    delete_document-NoneBuried doc ds.table now server.db h
Step-NoneBuried (Step.restored ds doc {server}) h = λ t.
    any-buried-select t (λ x. not (buries ds.table doc x)) server.db.tombstones (server.db.tables t)
      (h t)

-- From tables where no stored row is of a document deleted from its table, no sequence of backups,
-- triggers, deletions and restorations, of any dataset, leads to one where a row is.
pub Steps-NoneBuried : {a b : Server} → Steps a b → NoneBuried a.db → NoneBuried b.db
Steps-NoneBuried Steps.done h = h
Steps-NoneBuried (Steps.next steps step) h = Step-NoneBuried step (Steps-NoneBuried steps h)
