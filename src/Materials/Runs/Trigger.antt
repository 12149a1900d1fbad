-- ===== src/Materials/Runs/Trigger.antt =====
-- When a trigger is refused, and with what status code.
use server_api.Prelude.{
  ℕ, ◌+◌, ◌≡◌, refl, ap, ◌∙◌, Bool, true, false, not, ◌&&◌, ◌||◌, Option, none, some, List, [], ◌∷◌,
  String, arith, leb, str_eq, eq_iff, if◌then◌else◌, any, update, Bool-cases, inl, inr,
}
use server_api.Materials.Datasets.{Dataset, all_datasets}
use server_api.Materials.Runs.{
  MaterialRun, Store, map_runs, is_active, is_stale, reaped, start_run, reap_stale_running,
  has_active_automation, reap_each, reap_stale_running_all, active_automation_dataset,
  start_if_free, trigger_automation, Triggered, refused, started, disabled, no_bot, busy,
  stale_running_sec,
}

-- An automation that is running and younger than the stale limit.
abbrev pub is_live : ℕ → MaterialRun → Bool
is_live now run = is_active run && not (leb (run.started_at + stale_running_sec) now)

abbrev pub has_live : String → ℕ → Store → Bool
has_live name now store = any (is_live now) (store name).runs

any-reaped :
    (now : ℕ) (xs : List MaterialRun)
    → any is_active (update (is_stale stale_running_sec now) (reaped now) xs) ≡ any (is_live now) xs
any-reaped now [] = refl
any-reaped now (x ∷ xs) = ground (arith, any-reaped now xs)

-- The rules by which a trigger answers.
abbrev pub answer : Bool → Bool → Bool → ℕ → Triggered
answer enabled has_bot live id =
    if not enabled
    then refused disabled
    else if not has_bot
    then refused no_bot
    else if live
    then refused busy
    else started id

abbrev is_some {ℓ} : {A : Type ℓ} → Option A → Bool
is_some none = false
is_some (some a) = true

free-has_live :
    (now : ℕ) (store : Store)
    → is_some (active_automation_dataset (reap_stale_running_all stale_running_sec now store).1)
      ≡ (has_live "material_runs" now store || has_live "binder_runs" now store)
unfolding active_automation_dataset reap_stale_running_all reap_each reap_stale_running
    has_active_automation
free-has_live now store =
    ground (
      arith,
      any-reaped now (store "material_runs").runs,
      any-reaped now (store "binder_runs").runs,
    )

last_id-map_runs :
    (f : List MaterialRun → List MaterialRun) (name other : String) (store : Store)
    → (map_runs f name store other).last_id ≡ (store other).last_id
last_id-map_runs f name other store = elim (Bool-cases (str_eq name other)) [
  | inl e ↦ rw e (ap (λ z. (store z).last_id) ((eq_iff name other).0 e))
  | inr e ↦ rw e refl
]

last_id-reap_each :
    (ds : List Dataset) (older now : ℕ) (other : String) (store : Store)
    → ((reap_each ds older now store).1 other).last_id ≡ (store other).last_id
unfolding reap_each reap_stale_running
last_id-reap_each [] older now other store = refl
last_id-reap_each (d ∷ ds) older now other store =
    last_id-reap_each ds older now other (reap_stale_running d.runs_table older now store).1
    ∙ last_id-map_runs (update (is_stale older now) (reaped now)) d.runs_table other store

start_if_free-answer :
    (o : Option Dataset) (name : String) (now : ℕ) (store : Store)
    → (start_if_free o name now store).0
      ≡ (if is_some o then refused busy else started ((store name).last_id + 1))
unfolding start_run
start_if_free-answer none name now store = refl
start_if_free-answer (some d) name now store = refl

-- A trigger answers by four rules in this order: 503 if it is switched off, 500 if the bot is not
-- there, 409 if some dataset has a running automation that is younger than the stale limit, and
-- else it starts a run under the next id of its table.
pub trigger_automation-answer :
    (enabled has_bot : Bool) (name : String) (now : ℕ) (store : Store)
    → (trigger_automation enabled has_bot name now store).0
      ≡ answer enabled has_bot
          (has_live "material_runs" now store || has_live "binder_runs" now store)
          ((store name).last_id + 1)
unfolding trigger_automation reap_stale_running_all
trigger_automation-answer enabled has_bot name now store = elim (Bool-cases enabled) [
  | inl e ↦ elim (Bool-cases has_bot) [
    | inl f ↦
        let freed = (reap_each all_datasets stale_running_sec now store).1 in
        rw (e, f)
          (start_if_free-answer (active_automation_dataset freed) name now freed
            ∙ rw
                (
                  free-has_live now store,
                  last_id-reap_each all_datasets stale_running_sec now name store,
                )
                refl)
    | inr f ↦ rw (e, f) refl
  ]
  | inr e ↦ rw e refl
]
