-- ===== src/Anomaly/Findings.antt =====
-- api/anomaly/store_findings.py: the history of emitted findings.
--
-- `fails` says that the storage raises: the functions answer with nothing and change nothing. Times
-- are seconds, as the texts in the table are.
use server_api.Prelude.{
  ℕ, ◌+◌, ◌*◌, ◌≤◌, ◌≡◌, refl, ap, Bool, true, false, not, ◌&&◌, Option, none, some, List, [], ◌∷◌,
  ◌++◌, String, arith, leb, ltb, leb→le, le→leb, and_parts, ◌==◌, str_eq, is_blank, max, min, take,
  length, select, select-select, count, sort_by, ℤ, to_nat, if◌then◌else◌,
}
use server_api.Anomaly.{Finding}

pub record FindingRow : Type 0 where
  pub id : ℕ
  pub finding : Finding
  pub emitted_at : ℕ

pub record FindingsDb : Type 0 where
  pub rows : List FindingRow
  pub last_id : ℕ

abbrev insert_each : List Finding → ℕ → FindingsDb → FindingsDb
insert_each [] now db = db
insert_each (f ∷ fs) now db = insert_each fs now (record {
  rows = db.rows ++ record { id = db.last_id + 1; finding = f; emitted_at = now } ∷ [];
  last_id = db.last_id + 1;
})

unfoldable pub record_findings : Bool → List Finding → ℕ → FindingsDb → ℕ × FindingsDb
record_findings fails [] now db = (0, db)
record_findings fails (f ∷ fs) now db =
    if fails then (0, db) else (length (f ∷ fs), insert_each (f ∷ fs) now db)

-- `emitted_at >= now - days`.
abbrev pub is_within : ℕ → ℕ → FindingRow → Bool
is_within days now r = leb now (r.emitted_at + days * 86400)

abbrev pub positive : ℤ → ℕ
positive n = max 1 (to_nat n)

-- `if kind:` and `if severity:`.
abbrev given : Option String → String → Bool
given none s = true
given (some t) s = if is_blank t then true else str_eq s t

abbrev pub is_wanted : ℤ → Option String → Option String → ℕ → FindingRow → Bool
is_wanted days kind severity now r =
    is_within (positive days) now r
    && given kind r.finding.kind
    && given severity r.finding.severity

-- `ORDER BY emitted_at DESC, id DESC`.
abbrev latest : FindingRow → FindingRow → Bool
latest a b =
    if ltb b.emitted_at a.emitted_at then true else (a.emitted_at == b.emitted_at) && leb b.id a.id

unfoldable pub list_findings :
    Bool → ℤ → Option String → Option String → ℤ → ℕ → FindingsDb → List FindingRow
list_findings fails days kind severity limit now db =
    if fails
    then []
    else take (max 1 (min (to_nat limit) 500))
        (sort_by latest (select (is_wanted days kind severity now) db.rows))

unfoldable pub prune_findings : Bool → ℤ → ℕ → FindingsDb → ℕ × FindingsDb
prune_findings fails retention_days now db =
    let kept = is_within (positive retention_days) now in
    if fails
    then (0, db)
    else (count (λ r. not (kept r)) db.rows, record db { rows = select kept db.rows })

-- The end of `_emit_new`: the history is kept after an emission.
unfoldable pub keep_history : Bool → Bool → ℤ → ℕ → List Finding → FindingsDb → FindingsDb
keep_history record_fails prune_fails retention_days now [] db = db
keep_history record_fails prune_fails retention_days now (f ∷ fs) db =
    (prune_findings prune_fails retention_days now
      (record_findings record_fails (f ∷ fs) now db).1).1

is_within-weaken :
    (days more now later : ℕ) (r : FindingRow)
    → days ≤ more
    → now ≤ later
    → is_within days later r ≡ true
    → is_within more now r ≡ true
is_within-weaken days more now later r h g w =
    let near = leb→le later (r.emitted_at + days * 86400) w in
    le→leb now (r.emitted_at + more * 86400) (omega arith)

-- What is pruned was not to be listed any more: a listing of no more days than the retention, at the
-- time of the pruning or later, is the same as without it, whatever its other filters.
pub list_findings-prune :
    (retention days limit : ℤ) (kind severity : Option String) (now later : ℕ) (fails : Bool)
    (db : FindingsDb)
    → positive days ≤ positive retention
    → now ≤ later
    → list_findings false days kind severity limit later (prune_findings fails retention now db).1
      ≡ list_findings false days kind severity limit later db
unfolding list_findings prune_findings
list_findings-prune retention days limit kind severity now later true db h g = refl
list_findings-prune retention days limit kind severity now later false db h g =
    ap (λ z. take (max 1 (min (to_nat limit) 500)) (sort_by latest z))
      (select-select (is_wanted days kind severity later) (is_within (positive retention) now)
        db.rows
        (λ r w.
          is_within-weaken (positive days) (positive retention) now later r h g
            (and_parts (is_within (positive days) later r) (given kind r.finding.kind)
              (and_parts (is_within (positive days) later r && given kind r.finding.kind)
                (given severity r.finding.severity) w).0).0))
