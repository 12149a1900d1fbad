-- ===== src/Materials/Runs/Single.antt =====
-- At most one bot runs, over all datasets.
use server_api.Prelude.{
  ℕ, ◌+◌, ◌≤◌, ◌≡◌, refl, Bool, true, false, Option, none, some, List, [], ◌∷◌, ◌++◌, map, String,
  arith, str_eq, eq_iff, if◌then◌else◌, count, any, update, set_where, Bool-cases, inl, inr, ℤ,
}
use mathlib.Core.Path.{subst}
use server_api.Materials.Datasets.{Dataset, all_datasets}
use server_api.Materials.Runs.{
  Status, running, failed, is_running, MaterialRun, RunTable, Store, set_table, map_runs, is_active,
  is_stale, reaped, finished, run_has_id, record_backup_run, start_run, finish_run,
  reap_stale_running, has_active_automation, reap_each, reap_stale_running_all,
  active_automation_dataset, start_if_free, trigger_automation, stale_running_sec, BotResult,
  exited, crashed, worker,
}

abbrev pub active_in : String → Store → ℕ
active_in name store = count is_active (store name).runs

-- The automations that run, over all datasets.
abbrev pub active_total : Store → ℕ
active_total store = active_in "material_runs" store + active_in "binder_runs" store

count-append :
    (xs : List MaterialRun) (x : MaterialRun)
    → count is_active (xs ++ x ∷ []) ≡ count is_active xs + (if is_active x then 1 else 0)
count-append [] x = ground arith
count-append (y ∷ ys) x = ground (arith, count-append ys x)

-- A change of rows that starts none.
abbrev Calms : (MaterialRun → MaterialRun) → Type 0
Calms f = (r : MaterialRun) → is_active r ≡ false → is_active (f r) ≡ false

count-map-le :
    (f : MaterialRun → MaterialRun) (xs : List MaterialRun)
    → Calms f
    → count is_active (map f xs) ≤ count is_active xs
count-map-le f [] calm = omega arith
count-map-le f (x ∷ xs) calm = ground (arith, count-map-le f xs calm, calm x)

-- The count of a table after a change of one table.
active_in-set_table :
    (name other : String) (t : RunTable) (store : Store)
    → active_in other (set_table name t store)
      ≡ (if str_eq name other then count is_active t.runs else active_in other store)
active_in-set_table name other t store = ground arith

update-le :
    (p : MaterialRun → Bool) (f : MaterialRun → MaterialRun) (name other : String) (store : Store)
    → Calms f
    → active_in other (map_runs (update p f) name store) ≤ active_in other store
update-le p f name other store calm =
    let calm_where : Calms (set_where p f) = λ r h. ground (arith, calm r h, h) in
    let le = count-map-le (set_where p f) (store name).runs calm_where in
    elim (Bool-cases (str_eq name other)) [
      | inl e ↦ rw e (
          subst (λ z. count is_active (update p f (store name).runs) ≤ active_in z store)
            ((eq_iff name other).0 e) le)
      | inr e ↦ rw e (omega arith)
    ]

-- No automation more than before.
abbrev NoMore : Store → Store → Type 0
NoMore before after = (other : String) → active_in other after ≤ active_in other before

finish_run-NoMore :
    (id : ℕ) (status : Status) (name : String) (code : Option ℤ) (message : Option String) (now : ℕ)
    (store : Store)
    → is_running status ≡ false
    → NoMore store (finish_run id status name code message now store)
unfolding finish_run
finish_run-NoMore id status name code message now store done other =
    update-le (run_has_id id) (finished status code message now) name other store
      (λ r h. ground (arith, done))

reap-NoMore :
    (name : String) (older now : ℕ) (store : Store)
    → NoMore store (reap_stale_running name older now store).1
unfolding reap_stale_running
reap-NoMore name older now store other =
    update-le (is_stale older now) (reaped now) name other store (λ r h. ground arith)

reap_each-NoMore :
    (ds : List Dataset) (older now : ℕ) (store : Store)
    → NoMore store (reap_each ds older now store).1
unfolding reap_each
reap_each-NoMore [] older now store other = omega arith
reap_each-NoMore (d ∷ ds) older now store other = omega (
  arith,
  reap-NoMore d.runs_table older now store other,
  reap_each-NoMore ds older now (reap_stale_running d.runs_table older now store).1 other,
)

record_backup_run-NoMore :
    (rows inserted updated : ℕ) (name : String) (message : Option String) (now : ℕ) (store : Store)
    → NoMore store (record_backup_run rows inserted updated name message now store).1
unfolding record_backup_run
record_backup_run-NoMore rows inserted updated name message now store other =
    elim (Bool-cases (str_eq name other)) [
      | inl e ↦ rw e (
          rw (count-append (store name).runs _) (
            subst (λ z. count is_active (store name).runs + 0 ≤ active_in z store)
              ((eq_iff name other).0 e) (omega arith)))
      | inr e ↦ rw e (omega arith)
    ]

worker-NoMore :
    (id : ℕ) (name : String) (result : BotResult) (now : ℕ) (store : Store)
    → NoMore store (worker id name result now store)
unfolding worker
worker-NoMore id name (exited code tail) now store other =
    finish_run-NoMore id _ name (some code) _ now store (ground arith) other
worker-NoMore id name (crashed message) now store other =
    finish_run-NoMore id failed name none (some message) now store refl other

count-any-zero : (xs : List MaterialRun) → any is_active xs ≡ false → count is_active xs ≡ 0
count-any-zero [] h = refl
count-any-zero (x ∷ xs) h = ground (arith, count-any-zero xs)

free_total : (store : Store) → active_automation_dataset store ≡ none → active_total store ≡ 0
unfolding active_automation_dataset has_active_automation
free_total store h =
    let first = Bool-cases (any is_active (store "material_runs").runs) in
    let second = Bool-cases (any is_active (store "binder_runs").runs) in
    ground (
      arith,
      first,
      second,
      h,
      count-any-zero (store "material_runs").runs,
      count-any-zero (store "binder_runs").runs,
    )

names_apart :
    (name : String) → str_eq name "material_runs" ≡ true → str_eq name "binder_runs" ≡ false
names_apart name e = rw ((eq_iff name "material_runs").0 e) refl

start_run-in :
    (kind name other : String) (now : ℕ) (store : Store)
    → active_in other (start_run kind name now store).1
      ≤ active_in other store + (if str_eq name other then 1 else 0)
unfolding start_run
start_run-in kind name other now store = elim (Bool-cases (str_eq name other)) [
  | inl e ↦
      let run : MaterialRun = record {
        id = (store name).last_id + 1;
        kind = kind;
        status = running;
        started_at = now;
        finished_at = none;
        rows = none;
        inserted = none;
        updated = none;
        exit_code = none;
        message = none;
      } in
      rw e (
        subst (λ z. count is_active ((store name).runs ++ run ∷ []) ≤ active_in z store + 1)
          ((eq_iff name other).0 e) (ground (arith, count-append (store name).runs run)))
  | inr e ↦ rw e (omega arith)
]

start_run-total :
    (kind name : String) (now : ℕ) (store : Store)
    → active_total store ≡ 0
    → active_total (start_run kind name now store).1 ≤ 1
start_run-total kind name now store h =
    let one = start_run-in kind name "material_runs" now store in
    let two = start_run-in kind name "binder_runs" now store in
    elim (Bool-cases (str_eq name "material_runs")) [
      | inl e ↦ ground (arith, one, two, e, names_apart name e, h)
      | inr e ↦ ground (arith, one, two, e, h)
    ]

start_if_free-total :
    (o : Option Dataset) (name : String) (now : ℕ) (store : Store)
    → (o ≡ none → active_total store ≡ 0)
    → active_total store ≤ 1
    → active_total (start_if_free o name now store).1 ≤ 1
start_if_free-total none name now store free h =
    start_run-total "automation" name now store (free refl)
start_if_free-total (some d) name now store free h = h

trigger-total :
    (enabled has_bot : Bool) (name : String) (now : ℕ) (store : Store)
    → active_total store ≤ 1
    → active_total (trigger_automation enabled has_bot name now store).1 ≤ 1
unfolding trigger_automation reap_stale_running_all
trigger-total enabled has_bot name now store h =
    let freed = (reap_each all_datasets stale_running_sec now store).1 in
    let less = reap_each-NoMore all_datasets stale_running_sec now store in
    elim (Bool-cases enabled) [
      | inl e ↦ elim (Bool-cases has_bot) [
        | inl f ↦
            rw (e, f)
              (start_if_free-total (active_automation_dataset freed) name now freed
                (free_total freed) (omega (arith, less "material_runs", less "binder_runs", h)))
        | inr f ↦ rw (e, f) h
      ]
      | inr e ↦ rw e h
    ]

-- One operation on the run history: a trigger, the end of a bot's worker, a recorded backup, and
-- the reaping at the start of the server.
pub data Step : Store → Store → Type 0 where
  triggered :
      (enabled has_bot : Bool) (name : String) (now : ℕ) {store : Store}
      → Step store (trigger_automation enabled has_bot name now store).1
  ended :
      (id : ℕ) (name : String) (result : BotResult) (now : ℕ) {store : Store}
      → Step store (worker id name result now store)
  backed_up :
      (rows inserted updated : ℕ) (name : String) (message : Option String) (now : ℕ)
      {store : Store}
      → Step store (record_backup_run rows inserted updated name message now store).1
  swept : (older now : ℕ) {store : Store} → Step store (reap_stale_running_all older now store).1

pub data Steps : Store → Store → Type 0 where
  done : {store : Store} → Steps store store
  next : {a b c : Store} → Steps a b → Step b c → Steps a c

Step-total : {a b : Store} → Step a b → active_total a ≤ 1 → active_total b ≤ 1
unfolding reap_stale_running_all
Step-total (Step.triggered enabled has_bot name now {store}) h =
    trigger-total enabled has_bot name now store h
Step-total (Step.ended id name result now {store}) h =
    let less = worker-NoMore id name result now store in
    omega (arith, less "material_runs", less "binder_runs", h)
Step-total (Step.backed_up rows inserted updated name message now {store}) h =
    let less = record_backup_run-NoMore rows inserted updated name message now store in
    omega (arith, less "material_runs", less "binder_runs", h)
Step-total (Step.swept older now {store}) h =
    let less = reap_each-NoMore all_datasets older now store in
    omega (arith, less "material_runs", less "binder_runs", h)

-- From a store where at most one automation runs over all datasets, no sequence of triggers, worker
-- ends, backups and sweeps leads to one where two run.
pub Steps-total : {a b : Store} → Steps a b → active_total a ≤ 1 → active_total b ≤ 1
Steps-total Steps.done h = h
Steps-total (Steps.next steps step) h = Step-total step (Steps-total steps h)
