-- ===== src/Anomaly/Cooldown.antt =====
-- One scan of `_emit_new` (api/anomaly/detector.py): what it leaves in the cooldown state.
use server_api.Prelude.{
  ℕ, ◌+◌, ◌*◌, ◌≤◌, ◌≡◌, refl, ◌∙◌, ap, String, Bool, true, false, Option, none, some, List, [],
  ◌∷◌, arith, str_eq, if◌then◌else◌, Bool-cases, inl, inr, any, Dict, IsDict, get, put, get-put,
  put-IsDict, eq_iff,
}
use server_api.Anomaly.{
  Finding, State, or_zero, last_emit, is_new, filter_new, mark_emitted, mark_each, is_recent,
  keep_recent, prune, emitted, emit_new,
}

-- The key is among those of the findings.
abbrev pub has_key : String → List Finding → Bool
has_key k fs = any (λ f. str_eq f.key k) fs

get-mark_each :
    (k : String) (fs : List Finding) (now : ℕ) (d : Dict ℕ)
    → get k (mark_each fs now d) ≡ (if has_key k fs then some now else get k d)
get-mark_each k [] now d = refl
get-mark_each k (f ∷ fs) now d =
    get-mark_each k fs now (put f.key now d) ∙ ground (arith, get-put f.key k now d)

mark_each-IsDict :
    (fs : List Finding) (now : ℕ) (d : Dict ℕ) → IsDict d → IsDict (mark_each fs now d)
mark_each-IsDict [] now d h = h
mark_each-IsDict (f ∷ fs) now d h =
    mark_each-IsDict fs now (put f.key now d) (put-IsDict f.key now d h)

abbrev pub recent_only : ℕ → ℕ → Option ℕ → Option ℕ
recent_only age now none = none
recent_only age now (some t) = if is_recent age now t then some t else none

get-keep_recent :
    (k : String) (age now : ℕ) (d : Dict ℕ)
    → IsDict d
    → get k (keep_recent age now d) ≡ recent_only age now (get k d)
unfolding get
get-keep_recent k age now [] h = refl
get-keep_recent k age now ((j, t) ∷ d) h = elim (Bool-cases (str_eq j k)) [
  | inl e ↦ elim (Bool-cases (is_recent age now t)) [
    | inl r ↦ rw (e, r) (ground (arith, e, r))
    | inr r ↦ rw (e, r) (ground (arith, get-keep_recent k age now d h.1, eq_iff j k, e, h.0))
  ]
  | inr e ↦ elim (Bool-cases (is_recent age now t)) [
    | inl r ↦ rw (e, r) (ground (arith, e, get-keep_recent k age now d h.1))
    | inr r ↦ rw (e, r) (get-keep_recent k age now d h.1)
  ]
]

keep_recent-IsDict : (age now : ℕ) (d : Dict ℕ) → IsDict d → IsDict (keep_recent age now d)
keep_recent-IsDict age now [] h = tt
keep_recent-IsDict age now ((j, t) ∷ d) h = elim (Bool-cases (is_recent age now t)) [
  | inl r ↦
      rw r (get-keep_recent j age now d h.1 ∙ ground (arith, h.0), keep_recent-IsDict age now d h.1)
  | inr r ↦ rw r (keep_recent-IsDict age now d h.1)
]

module _ (cooldown_sec : ℕ) where
  abbrev pub sent : (Finding → Bool) → ℕ → List Finding → State → List Finding
  sent fails now findings state = emitted fails (filter_new cooldown_sec now state findings)

  pub emit_new-IsDict :
      (fails : Finding → Bool) (now : ℕ) (findings : List Finding) (state : State)
      → IsDict state.cooldowns
      → IsDict (emit_new cooldown_sec fails now findings state).1.cooldowns
  unfolding emit_new mark_emitted prune
  emit_new-IsDict fails now findings state h =
      keep_recent-IsDict (cooldown_sec * 7) now _
        (mark_each-IsDict (sent fails now findings state) now state.cooldowns h)

  pub last_emit-emit_new :
      (k : String) (fails : Finding → Bool) (now : ℕ) (findings : List Finding) (state : State)
      → IsDict state.cooldowns
      → last_emit k (emit_new cooldown_sec fails now findings state).1
        ≡ or_zero (
            recent_only (cooldown_sec * 7) now (
              if has_key k (sent fails now findings state)
              then some now
              else get k state.cooldowns))
  unfolding emit_new mark_emitted prune
  last_emit-emit_new k fails now findings state h =
      let fs = sent fails now findings state in
      ap or_zero (
        get-keep_recent k (cooldown_sec * 7) now (mark_each fs now state.cooldowns)
          (mark_each-IsDict fs now state.cooldowns h)
        ∙ ap (recent_only (cooldown_sec * 7) now) (get-mark_each k fs now state.cooldowns))

  -- From `clock` on, the key is new only when the cooldown has passed since `t`.
  abbrev pub IsQuiet : String → ℕ → ℕ → State → Type 0
  IsQuiet k t clock state =
      (later : ℕ)
      → clock ≤ later
      → is_new cooldown_sec later state k ≡ true
      → t + cooldown_sec ≤ later

  -- The time that a scan leaves for a key, whether the scan emits it or not.
  pub left_for :
      (t now later : ℕ) (marked : Bool) (o : Option ℕ)
      → t ≤ now
      → now ≤ later
      → (marked ≡ false → or_zero o + cooldown_sec ≤ now → t + cooldown_sec ≤ now)
      → (marked ≡ false → or_zero o + cooldown_sec ≤ later → t + cooldown_sec ≤ later)
      → or_zero (recent_only (cooldown_sec * 7) now (if marked then some now else o)) + cooldown_sec
        ≤ later
      → t + cooldown_sec ≤ later
  left_for t now later true o le le' quiet quiet' h = ground arith
  left_for t now later false none le le' quiet quiet' h = quiet' refl h
  left_for t now later false (some u) le le' quiet quiet' h =
      elim (Bool-cases (is_recent (cooldown_sec * 7) now u)) [
        | inl r ↦ quiet' refl (ground (arith, r, h))
        | inr r ↦ let passed = quiet refl (ground (arith, r)) in omega (arith, passed, le')
      ]
