-- ===== src/Anomaly/Scans.antt =====
-- Sequences of scans by `_emit_new` of api/anomaly/detector.py: when a key is emitted again.
use server_api.Prelude.{
  ℕ, ◌+◌, ◌*◌, ◌≤◌, ◌≡◌, refl, String, Bool, true, false, not, ◌||◌, Option, none, some, List, [],
  ◌∷◌, ◌++◌, map, arith, leb, str_eq, if◌then◌else◌, Bool-cases, inl, inr, All, All-append, All-map,
  All-weaken, All-select, select, IsDict, get, eq_iff, select_holds, le→leb, leb→le,
}
use mathlib.Core.Path.{subst}
use server_api.Anomaly.{is_recent, Finding, State, or_zero, is_new, filter_new, emitted, emit_new}
use server_api.Anomaly.Cooldown.{
  has_key, sent, IsQuiet, recent_only, last_emit-emit_new, emit_new-IsDict, left_for,
}

pub record Scan : Type 0 where
  pub findings : List Finding
  pub fails : Finding → Bool
  pub now : ℕ

-- The clock does not run back.
abbrev pub AreTimed : ℕ → List Scan → Type 0
AreTimed clock [] = Unit
AreTimed clock (s ∷ scans) = (clock ≤ s.now) × AreTimed s.now scans

module _ (cooldown_sec : ℕ) where
  abbrev pub scan : Scan → State → List Finding × State
  scan s state = emit_new cooldown_sec s.fails s.now s.findings state

  -- Every emission of a sequence of scans, with its time.
  abbrev pub emissions : List Scan → State → List (String × ℕ)
  emissions [] state = []
  emissions (s ∷ scans) state =
      let (fs, after) = scan s state in map (λ f. (f.key, s.now)) fs ++ emissions scans after

  scan-IsQuiet :
      (k : String) (t clock : ℕ) (s : Scan) (state : State)
      → IsDict state.cooldowns
      → t ≤ clock
      → clock ≤ s.now
      → IsQuiet cooldown_sec k t clock state
      → IsQuiet cooldown_sec k t s.now (scan s state).1
  scan-IsQuiet k t clock s state d le le' quiet later at new =
      left_for cooldown_sec t s.now later
        (has_key k (sent cooldown_sec s.fails s.now s.findings state)) (get k state.cooldowns)
        (omega (arith, le, le')) at (λ m l. quiet s.now le' (le→leb _ _ l))
        (λ m l. quiet later (omega (arith, le', at)) (le→leb _ _ l))
        (rw (← last_emit-emit_new cooldown_sec k s.fails s.now s.findings state d) (leb→le _ _ new))

  emission-IsQuiet :
      (k : String) (s : Scan) (state : State)
      → IsDict state.cooldowns
      → has_key k (scan s state).0 ≡ true
      → IsQuiet cooldown_sec k s.now s.now (scan s state).1
  unfolding emit_new
  emission-IsQuiet k s state d hit later at new =
      left_for cooldown_sec s.now s.now later
        (has_key k (sent cooldown_sec s.fails s.now s.findings state)) (get k state.cooldowns)
        (omega arith) at (λ m l. ground (arith, m, hit)) (λ m l. ground (arith, m, hit))
        (rw (← last_emit-emit_new cooldown_sec k s.fails s.now s.findings state d) (leb→le _ _ new))

  -- Not of the key, or after its cooldown.
  abbrev pub keeps_away : String → ℕ → String × ℕ → Bool
  keeps_away k t e = not (str_eq e.0 k) || leb (t + cooldown_sec) e.1

  emitted_later :
      (k : String) (t clock : ℕ) (s : Scan) (state : State)
      → clock ≤ s.now
      → IsQuiet cooldown_sec k t clock state
      → All (λ f. keeps_away k t (f.key, s.now) ≡ true) (scan s state).0
  unfolding emit_new filter_new
  emitted_later k t clock s state le quiet =
      let fresh = select (λ f. is_new cooldown_sec s.now state f.key) s.findings in
      let P = (λ (f : Finding). is_new cooldown_sec s.now state f.key ≡ true) in
      All-weaken P (λ f. keeps_away k t (f.key, s.now) ≡ true) (emitted s.fails fresh)
        (λ f new. elim (Bool-cases (str_eq f.key k)) [
          | inl e ↦
              let same = (eq_iff f.key k).0 e in
              rw
                (
                  e,
                  le→leb _ _ (
                      quiet s.now le
                        (subst (λ z. is_new cooldown_sec s.now state z ≡ true) same new)),
                )
                refl
          | inr e ↦ rw e refl
        ])
        (All-select P (λ f. not (s.fails f)) fresh
          (select_holds (λ f. is_new cooldown_sec s.now state f.key) s.findings))

  emissions_later :
      (k : String) (t clock : ℕ) (scans : List Scan) (state : State)
      → IsDict state.cooldowns
      → t ≤ clock
      → AreTimed clock scans
      → IsQuiet cooldown_sec k t clock state
      → All (λ e. keeps_away k t e ≡ true) (emissions scans state)
  emissions_later k t clock [] state d le timed quiet = tt
  emissions_later k t clock (s ∷ scans) state d le timed quiet =
      All-append (λ e. keeps_away k t e ≡ true) (map (λ f. (f.key, s.now)) (scan s state).0)
        (emissions scans (scan s state).1)
        (All-map (λ e. keeps_away k t e ≡ true) (λ f. (f.key, s.now)) (scan s state).0
          (emitted_later k t clock s state timed.0 quiet))
        (emissions_later k t s.now scans (scan s state).1
          (emit_new-IsDict cooldown_sec s.fails s.now s.findings state d)
          (omega (arith, le, timed.0)) timed.1 (scan-IsQuiet k t clock s state d le timed.0 quiet))

  -- Once a scan has emitted a key, no later scan emits it before the cooldown has passed, whatever
  -- is found, whatever else is emitted or fails, and whatever the pruning drops, under a clock that
  -- does not run back and with a state that every scan loads as the one before it saved it.
  pub emit_new_cooldown :
      (k : String) (first : Scan) (scans : List Scan) (state : State)
      → IsDict state.cooldowns
      → AreTimed first.now scans
      → has_key k (scan first state).0 ≡ true
      → All (λ e. keeps_away k first.now e ≡ true) (emissions scans (scan first state).1)
  emit_new_cooldown k first scans state d timed hit =
      emissions_later k first.now first.now scans (scan first state).1
        (emit_new-IsDict cooldown_sec first.fails first.now first.findings state d) (omega arith)
        timed (emission-IsQuiet k first state d hit)

  unmarked_le :
      (age now : ℕ) (marked : Bool) (o : Option ℕ)
      → marked ≡ false
      → or_zero (recent_only age now (if marked then some now else o)) ≤ or_zero o
  unmarked_le age now true o m = ground arith
  unmarked_le age now false none m = omega arith
  unmarked_le age now false (some u) m = elim (Bool-cases (is_recent age now u)) [
    | inl r ↦ rw r (omega arith)
    | inr r ↦ rw r (omega arith)
  ]

  -- A key that is new to a scan and that the scan does not emit, such as one whose emission fails,
  -- is new to every later scan that loads the state it saved.
  pub emit_new_retries :
      (k : String) (s : Scan) (later : ℕ) (state : State)
      → IsDict state.cooldowns
      → s.now ≤ later
      → is_new cooldown_sec s.now state k ≡ true
      → has_key k (scan s state).0 ≡ false
      → is_new cooldown_sec later (scan s state).1 k ≡ true
  unfolding emit_new
  emit_new_retries k s later state d le new missed =
      let marked = has_key k (sent cooldown_sec s.fails s.now s.findings state) in
      let below = unmarked_le (cooldown_sec * 7) s.now marked (get k state.cooldowns) missed in
      le→leb _ _ (
        rw (last_emit-emit_new cooldown_sec k s.fails s.now s.findings state d)
          (omega (arith, below, leb→le _ _ new, le)))
