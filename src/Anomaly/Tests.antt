-- ===== src/Anomaly/Tests.antt =====
-- Three scans that find one stale item, a history of two findings, and two idle items.
use server_api.Prelude.{
  ℕ, String, pos, none, some, length, count, Pairwise, ◌≡◌, refl, true, false, List, [], ◌∷◌, arith,
  All, get, put,
}
use server_api.Anomaly.{Finding, is_new, emit_new, empty_state, filter_new, mark_emitted, prune}
use server_api.Anomaly.Cooldown.{has_key}
use server_api.Anomaly.Scans.{
  Scan, scan, emissions, keeps_away, emit_new_cooldown, emit_new_retries,
}
use server_api.Anomaly.Findings.{FindingsDb, list_findings, prune_findings, list_findings-prune}
use server_api.Anomaly.Stale.{
  Item, IsOfItem, is_idle_for, longer, detect_stale_items, detect_stale_items_lem,
}

abbrev stale : Finding
stale = record { kind = "stale_item"; severity = "warning"; key = "stale_item:A"; message = "A" }

abbrev scan_at : ℕ → Scan
scan_at now = record { findings = stale ∷ []; fails = λ f. false; now = now }

abbrev later_scans : List Scan
later_scans = scan_at 150 ∷ scan_at 230 ∷ []

emits_first : has_key "stale_item:A" (scan 100 (scan_at 120) empty_state).0 ≡ true
unfolding emit_new filter_new get
emits_first = refl

-- The scan within the cooldown emits nothing.
emits_after_cooldown :
    emissions 100 (scan_at 120 ∷ later_scans) empty_state
    ≡ ("stale_item:A", 120) ∷ ("stale_item:A", 230) ∷ []
unfolding emit_new filter_new mark_emitted prune get put
emits_after_cooldown = refl

emit_new_cooldown_example :
    All
      (λ e. keeps_away 100 "stale_item:A" 120 e ≡ true)
      (emissions 100 later_scans (scan 100 (scan_at 120) empty_state).1)
emit_new_cooldown_example =
    emit_new_cooldown 100 "stale_item:A" (scan_at 120) later_scans empty_state tt
      (omega arith, (omega arith, tt)) emits_first

abbrev failing : Scan
failing = record { findings = stale ∷ []; fails = λ f. true; now = 120 }

misses : has_key "stale_item:A" (scan 100 failing empty_state).0 ≡ false
unfolding emit_new filter_new get
misses = refl

new_at_120 : is_new 100 120 empty_state "stale_item:A" ≡ true
unfolding get
new_at_120 = refl

emit_new_retries_example : is_new 100 130 (scan 100 failing empty_state).1 "stale_item:A" ≡ true
emit_new_retries_example =
    emit_new_retries 100 "stale_item:A" failing 130 empty_state tt (omega arith) new_at_120 misses

abbrev history : FindingsDb
history = record {
  rows =
      record { id = 1; finding = stale; emitted_at = 10 }
      ∷ record { id = 2; finding = stale; emitted_at = 200000 }
      ∷ [];
  last_id = 2;
}

-- The older of the two is pruned.
prunes_one : (prune_findings false (pos 2) 200000 history).0 ≡ 1
unfolding prune_findings
prunes_one = refl

list_findings-prune_example :
    list_findings false
      (pos 1)
      (some "stale_item")
      none
      (pos 20)
      210000
      (prune_findings false (pos 2) 200000 history).1
    ≡ list_findings false (pos 1) (some "stale_item") none (pos 20) 210000 history
list_findings-prune_example =
    list_findings-prune (pos 2) (pos 1) (pos 20) (some "stale_item") none 200000 210000 false
      history (omega arith) (omega arith)

abbrev idle : String → ℕ → Item
idle code days = record {
  item_code = some code;
  item_name = none;
  last_date = some "2026-01-02";
  days_idle = some (pos days);
}

detect_stale_items_lem_example :
    let items = idle "A" 7 ∷ idle "B" 3 ∷ idle "C" 20 ∷ [] in
    let found = detect_stale_items 7 items in
    All (IsOfItem 7 items) found
    × (length found ≡ count (λ it. is_idle_for 7 it.days_idle) items)
    × Pairwise (λ x y. longer x y ≡ true) found
detect_stale_items_lem_example =
    detect_stale_items_lem 7 (idle "A" 7 ∷ idle "B" 3 ∷ idle "C" 20 ∷ [])
