-- ===== src/Anomaly.antt =====
-- api/anomaly/store_state.py and `_emit_new` of api/anomaly/detector.py: the cooldown of alerts.
--
-- A time is a natural number of seconds; the details of a finding stand in its message.
pub mod Cooldown
pub mod Scans
pub mod Findings
pub mod Stale
mod Tests
use server_api.Prelude.{
  ℕ, ◌+◌, ◌*◌, String, Bool, Option, none, some, List, [], ◌∷◌, not, leb, ltb, if◌then◌else◌,
  select, Dict, get, put,
}

pub record Finding : Type 0 where
  pub kind : String
  pub severity : String
  pub key : String
  pub message : String

pub record State : Type 0 where
  pub cooldowns : Dict ℕ
  pub last_scan_ts : ℕ

-- `load_state` for a missing or a corrupt file.
abbrev pub empty_state : State
empty_state = record { cooldowns = []; last_scan_ts = 0 }

-- `cooldowns.get(f.key, 0)`.
abbrev pub or_zero : Option ℕ → ℕ
or_zero none = 0
or_zero (some t) = t

abbrev pub last_emit : String → State → ℕ
last_emit key state = or_zero (get key state.cooldowns)

-- `now - last >= cooldown_sec`.
abbrev pub is_new : ℕ → ℕ → State → String → Bool
is_new cooldown_sec now state key = leb (last_emit key state + cooldown_sec) now

unfoldable pub filter_new : ℕ → ℕ → State → List Finding → List Finding
filter_new cooldown_sec now state = select (λ f. is_new cooldown_sec now state f.key)

abbrev mark_each : List Finding → ℕ → Dict ℕ → Dict ℕ
mark_each [] now d = d
mark_each (f ∷ fs) now d = mark_each fs now (put f.key now d)

unfoldable pub mark_emitted : List Finding → ℕ → State → State
mark_emitted fs now state = record state { cooldowns = mark_each fs now state.cooldowns }

-- `now - ts < max_age_sec`.
abbrev pub is_recent : ℕ → ℕ → ℕ → Bool
is_recent max_age_sec now ts = ltb now (ts + max_age_sec)

abbrev keep_recent : ℕ → ℕ → Dict ℕ → Dict ℕ
keep_recent max_age_sec now [] = []
keep_recent max_age_sec now ((k, ts) ∷ d) =
    let rest = keep_recent max_age_sec now d in
    if is_recent max_age_sec now ts then (k, ts) ∷ rest else rest

unfoldable pub prune : ℕ → ℕ → State → State
prune max_age_sec now state = record state {
  cooldowns = keep_recent max_age_sec now state.cooldowns;
}

-- `fails` says which findings' `emit_event` raises: they are not marked.
abbrev pub emitted : (Finding → Bool) → List Finding → List Finding
emitted fails fresh = select (λ f. not (fails f)) fresh

-- The findings that were emitted, and the state that is saved.
unfoldable pub emit_new : ℕ → (Finding → Bool) → ℕ → List Finding → State → List Finding × State
unfolding filter_new mark_emitted prune
emit_new cooldown_sec fails now findings state =
    let sent = emitted fails (filter_new cooldown_sec now state findings) in
    let marked = record (mark_emitted sent now state) { last_scan_ts = now } in
    (sent, prune (cooldown_sec * 7) now marked)
