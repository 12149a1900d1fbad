-- ===== src/Materials/Runs.antt =====
-- api/materials/runs.py and automation.py: the run history and the trigger of the bot.
--
-- A store gives the rows of each run table, by its name. Times are seconds; the readings of the
-- clock within one operation are one time. Everything under `_trigger_lock` is one step.
pub mod Single
pub mod Trigger
use server_api.Prelude.{
  ℕ, ◌+◌, ◌*◌, Bool, true, false, not, ◌&&◌, Option, none, some, List, [], ◌∷◌, ◌++◌, String, leb,
  ◌==◌, str_eq, if◌then◌else◌, max, min, take, update, count, any, find, select, sort_by, is_blank,
  ℤ, pos, int_eq, to_nat,
}
use server_api.Materials.Datasets.{Dataset, all_datasets}

pub data Status : Type 0 where
  running success failed : Status

abbrev pub is_running : Status → Bool
is_running running = true
is_running _ = false

pub record MaterialRun : Type 0 where
  pub id : ℕ
  pub kind : String
  pub status : Status
  pub started_at : ℕ
  pub finished_at : Option ℕ
  pub rows : Option ℕ
  pub inserted : Option ℕ
  pub updated : Option ℕ
  pub exit_code : Option ℤ
  pub message : Option String

-- A run table; `AUTOINCREMENT` keeps its last id.
pub record RunTable : Type 0 where
  pub runs : List MaterialRun
  pub last_id : ℕ

abbrev pub Store : Type 0
Store = String → RunTable

abbrev pub set_table : String → RunTable → Store → Store
set_table name table store other = if str_eq name other then table else store other

abbrev pub stale_running_sec : ℕ
stale_running_sec = 6 * 3600

abbrev append_run : MaterialRun → RunTable → RunTable
append_run run t = record { runs = t.runs ++ run ∷ []; last_id = run.id }

abbrev pub map_runs : (List MaterialRun → List MaterialRun) → String → Store → Store
map_runs f name store = set_table name (record (store name) { runs = f (store name).runs }) store

unfoldable pub record_backup_run : ℕ → ℕ → ℕ → String → Option String → ℕ → Store → ℕ × Store
record_backup_run rows inserted updated runs_table message now store =
    let run : MaterialRun = record {
      id = (store runs_table).last_id + 1;
      kind = "backup";
      status = success;
      started_at = now;
      finished_at = some now;
      rows = some rows;
      inserted = some inserted;
      updated = some updated;
      exit_code = none;
      message = message;
    } in
    (run.id, set_table runs_table (append_run run (store runs_table)) store)

unfoldable pub start_run : String → String → ℕ → Store → ℕ × Store
start_run kind runs_table now store =
    let run : MaterialRun = record {
      id = (store runs_table).last_id + 1;
      kind = kind;
      status = running;
      started_at = now;
      finished_at = none;
      rows = none;
      inserted = none;
      updated = none;
      exit_code = none;
      message = none;
    } in
    (run.id, set_table runs_table (append_run run (store runs_table)) store)

abbrev pub run_has_id : ℕ → MaterialRun → Bool
run_has_id id run = run.id == id

abbrev pub finished : Status → Option ℤ → Option String → ℕ → MaterialRun → MaterialRun
finished status exit_code message now run = record run {
  status = status;
  finished_at = some now;
  exit_code = exit_code;
  message = message;
}

unfoldable pub finish_run : ℕ → Status → String → Option ℤ → Option String → ℕ → Store → Store
finish_run id status runs_table exit_code message now =
    map_runs (update (run_has_id id) (finished status exit_code message now)) runs_table

-- `kind = 'automation' AND status = 'running'`.
abbrev pub is_active : MaterialRun → Bool
is_active run = str_eq run.kind "automation" && is_running run.status

abbrev pub is_stale : ℕ → ℕ → MaterialRun → Bool
is_stale older_than_sec now run = is_active run && leb (run.started_at + older_than_sec) now

abbrev reaped : ℕ → MaterialRun → MaterialRun
reaped now run = record run {
  status = failed;
  finished_at = some now;
  message = some "stale running run reaped (server restart?)";
}

unfoldable pub reap_stale_running : String → ℕ → ℕ → Store → ℕ × Store
reap_stale_running runs_table older_than_sec now store = (
  count (is_stale older_than_sec now) (store runs_table).runs,
  map_runs (update (is_stale older_than_sec now) (reaped now)) runs_table store,
)

unfoldable pub has_active_automation : String → Store → Bool
has_active_automation runs_table store = any is_active (store runs_table).runs

unfoldable pub reap_each : List Dataset → ℕ → ℕ → Store → ℕ × Store
reap_each [] older_than_sec now store = (0, store)
reap_each (d ∷ ds) older_than_sec now store =
    let (n, after) = reap_stale_running d.runs_table older_than_sec now store in
    let (rest, final) = reap_each ds older_than_sec now after in (n + rest, final)

unfoldable pub reap_stale_running_all : ℕ → ℕ → Store → ℕ × Store
reap_stale_running_all = reap_each all_datasets

unfoldable pub active_automation_dataset : Store → Option Dataset
active_automation_dataset store =
    find (λ (d : Dataset). has_active_automation d.runs_table store) all_datasets

unfoldable pub get_run : ℕ → String → Store → Option MaterialRun
get_run id runs_table store = find (run_has_id id) (store runs_table).runs

abbrev newest : MaterialRun → MaterialRun → Bool
newest a b = leb b.id a.id

-- `if kind:`.
abbrev of_kind : Option String → MaterialRun → Bool
of_kind none run = true
of_kind (some kind) run = if is_blank kind then true else str_eq run.kind kind

unfoldable pub list_runs : String → Option String → ℤ → Store → List MaterialRun
list_runs runs_table kind limit store =
    take (max 1 (min (to_nat limit) 500))
      (sort_by newest (select (of_kind kind) (store runs_table).runs))

-- What `TriggerError` carries to the route.
pub data Refusal : Type 0 where
  disabled no_bot busy : Refusal

abbrev pub status_code : Refusal → ℕ
status_code disabled = 503
status_code no_bot = 500
status_code busy = 409

pub data Triggered : Type 0 where
  refused : Refusal → Triggered
  started : ℕ → Triggered

abbrev start_if_free : Option Dataset → String → ℕ → Store → Triggered × Store
start_if_free (some active) runs_table now store = (refused busy, store)
start_if_free none runs_table now store =
    let (id, after) = start_run "automation" runs_table now store in (started id, after)

-- `enabled` is `MATERIALS_RUN_ENABLED`, `has_bot` the check for `main.py`. What is reaped stays
-- reaped when the trigger is then refused.
unfoldable pub trigger_automation : Bool → Bool → String → ℕ → Store → Triggered × Store
trigger_automation enabled has_bot runs_table now store =
    if not enabled
    then (refused disabled, store)
    else if not has_bot
    then (refused no_bot, store)
    else let freed = (reap_stale_running_all stale_running_sec now store).1 in
      start_if_free (active_automation_dataset freed) runs_table now freed

-- What `_run_subprocess` returns, or the exception that it or the recording raises.
pub data BotResult : Type 0 where
  exited : ℤ → String → BotResult
  crashed : String → BotResult

abbrev tail_or_none : String → Option String
tail_or_none tail = if is_blank tail then none else some tail

unfoldable pub worker : ℕ → String → BotResult → ℕ → Store → Store
worker id runs_table (exited code tail) now =
    finish_run id (if int_eq code (pos 0) then success else failed) runs_table (some code)
      (tail_or_none tail) now
worker id runs_table (crashed message) now = finish_run id failed runs_table none (some message) now
