-- ===== src/Materials/Router/Deleted.antt =====
-- A document that was deleted is not found again until it is restored.
use server_api.Prelude.{
  Response, ℕ, ◌≡◌, refl, ap, ◌∙◌, Bool, true, false, not, ◌&&◌, List, [], ◌∷◌, String, arith,
  str_eq, eq_iff, ltb, count, any, select, Bool-cases, inl, inr, and_parts,
}
use server_api.Materials.Datasets.{Dataset}
use server_api.Materials.Model.{MaterialPublic, Tombstone}
use server_api.Materials.Store.{
  buries, is_tombstoned, upsert_materials, of_document, get_document, delete_document,
  restore_document,
}
use server_api.Materials.Router.{
  Server, backup_body, trigger_run_body, get_row_body, delete_row_body, restore_row_body,
}
use server_api.Materials.Router.Buried.{
  buried, NoneBuried, is_tombstoned-bury, Step, Steps, Step-NoneBuried, Steps-NoneBuried,
}

-- No step restores the document.
abbrev pub spares : String → String → {a b : Server} → Step a b → Bool
spares table doc (Step.restored ds d) = not (str_eq ds.table table && str_eq d doc)
spares table doc _ = true

abbrev pub spare : String → String → {a b : Server} → Steps a b → Bool
spare table doc Steps.done = true
spare table doc (Steps.next steps step) = spare table doc steps && spares table doc step

select-is_tombstoned :
    (t doc table d : String) (ts : List Tombstone)
    → (str_eq t table && str_eq d doc) ≡ false
    → is_tombstoned table ts doc ≡ true
    → is_tombstoned table (select (λ x. not (buries t d x)) ts) doc ≡ true
select-is_tombstoned t doc table d [] h g = g
select-is_tombstoned t doc table d (x ∷ xs) h g = elim (Bool-cases (buries t d x)) [
  | inl e ↦
      let (f, k) = and_parts (str_eq x.table_name t) (str_eq x.doc_number d) e in
      let same : buries table doc x ≡ (str_eq t table && str_eq d doc) = λ i.
        str_eq ((eq_iff x.table_name t).0 f i) table
        && str_eq ((eq_iff x.doc_number d).0 k i) doc in
      let apart = same ∙ h in rw e (select-is_tombstoned t doc table d xs h (ground arith))
  | inr e ↦ rw e (ground (arith, select-is_tombstoned t doc table d xs))
]

Step-is_tombstoned :
    (table doc : String) {a b : Server} (step : Step a b)
    → spares table doc step ≡ true
    → is_tombstoned table a.db.tombstones doc ≡ true
    → is_tombstoned table b.db.tombstones doc ≡ true
unfolding backup_body trigger_run_body delete_row_body restore_row_body restore_document
    upsert_materials delete_document
Step-is_tombstoned table doc (Step.backed_up ds rows now recorded_at) g h = h
Step-is_tombstoned table doc (Step.triggered enabled has_bot ds now) g h = h
Step-is_tombstoned table doc (Step.deleted ds d now {server}) g h =
    elim (Bool-cases (ltb 0 (count (of_document d) (server.db.tables ds.table)))) [
      | inl e ↦
          rw (e, is_tombstoned-bury ds.table d table doc now server.db.tombstones) (ground arith)
      | inr e ↦ rw e h
    ]
Step-is_tombstoned table doc (Step.restored ds d {server}) g h =
    select-is_tombstoned ds.table doc table d server.db.tombstones (ground arith) h

Steps-is_tombstoned :
    (table doc : String) {a b : Server} (steps : Steps a b)
    → spare table doc steps ≡ true
    → is_tombstoned table a.db.tombstones doc ≡ true
    → is_tombstoned table b.db.tombstones doc ≡ true
Steps-is_tombstoned table doc Steps.done g h = h
Steps-is_tombstoned table doc (Steps.next steps step) g h =
    let (f, k) = and_parts (spare table doc steps) (spares table doc step) g in
    Step-is_tombstoned table doc step k (Steps-is_tombstoned table doc steps f h)

select-buried :
    (table doc : String) (ts : List Tombstone) (ms : List MaterialPublic)
    → is_tombstoned table ts doc ≡ true
    → any (buried table ts) ms ≡ false
    → select (of_document doc) ms ≡ []
select-buried table doc ts [] h g = refl
select-buried table doc ts (m ∷ ms) h g = elim (Bool-cases (str_eq m.key.doc_number doc)) [
  | inl e ↦
      let same = ap (is_tombstoned table ts) ((eq_iff m.key.doc_number doc).0 e) in
      absurd (ground (arith, same))
  | inr e ↦ rw e (select-buried table doc ts ms h (ground arith))
]

delete_row_body-is_tombstoned :
    (ds : Dataset) (doc : String) (now n : ℕ) (server : Server)
    → (delete_row_body ds doc now server).0 ≡ Response.ok n
    → is_tombstoned ds.table (delete_row_body ds doc now server).1.db.tombstones doc ≡ true
unfolding delete_row_body delete_document
delete_row_body-is_tombstoned ds doc now n server h =
    elim (Bool-cases (ltb 0 (count (of_document doc) (server.db.tables ds.table)))) [
      | inl e ↦
          rw
            (
              e,
              is_tombstoned-bury ds.table doc ds.table doc now server.db.tombstones,
              (eq_iff ds.table ds.table).1 refl,
              (eq_iff doc doc).1 refl,
            )
            refl
      | inr e ↦ absurd (ground arith)
    ]

-- After a deletion that removed a row, and any sequence of route calls that do not restore the
-- document in that dataset's table, whatever the bot sends again, a request for the document is
-- answered with 404: from tables where no stored row is of a deleted document.
pub delete_row_body_stays :
    (ds : Dataset) (doc : String) (now n : ℕ) (server final : Server)
    → NoneBuried server.db
    → (delete_row_body ds doc now server).0 ≡ Response.ok n
    → (steps : Steps (delete_row_body ds doc now server).1 final) → spare ds.table doc steps ≡ true
    → get_row_body ds doc final ≡ Response.http_error 404
unfolding get_row_body get_document
delete_row_body_stays ds doc now n server final h g steps free =
    let gone =
      Steps-is_tombstoned ds.table doc steps free
        (delete_row_body-is_tombstoned ds doc now n server g) in
    let none_buried = Steps-NoneBuried steps (Step-NoneBuried (Step.deleted ds doc now) h) in
    let empty =
      select-buried ds.table doc final.db.tombstones (final.db.tables ds.table) gone
        (none_buried ds.table) in
    rw empty refl
