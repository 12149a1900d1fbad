-- ===== src/Notifications/Requeue/Effective.antt =====
-- `_effective_statuses` of api/notifications/deliveries_repo.py.
use server_api.Prelude.{
  ◌≡◌, ◌⊎◌, refl, ◌∙◌, Bool, true, false, ◌||◌, Option, none, some, List, [], ◌∷◌, ◌++◌, String,
  arith, any, codes, strip, lower, Bool-cases, inl, inr,
}
use server_api.Notifications.Model.{Status, failure, dead, status_eq}
use server_api.Notifications.Requeue.{
  retryable_status, mem_status, add_status, effective_from, effective_statuses,
}

-- The request names the status, after stripping and lowering.
abbrev pub names : Status → String → Bool
names s text = elim (retryable_status (lower (codes (strip text)))) [
  | none ↦ false
  | some t ↦ status_eq s t
]

mem_status-append :
    (s t : Status) (out : List Status)
    → mem_status s (out ++ t ∷ []) ≡ (mem_status s out || status_eq s t)
mem_status-append s t [] = ground arith
mem_status-append s t (u ∷ out) = ground (arith, mem_status-append s t out)

abbrev is_named : Status → Option Status → Bool
is_named s none = false
is_named s (some t) = status_eq s t

status_eq-same : (s t : Status) → status_eq s t ≡ true → s ≡ t
status_eq-same s t h = ground arith

mem_status-add_status :
    (s : Status) (o : Option Status) (out : List Status)
    → mem_status s (add_status o out) ≡ (mem_status s out || is_named s o)
mem_status-add_status s none out = ground arith
mem_status-add_status s (some t) out = elim (Bool-cases (mem_status t out)) [
  | inl e ↦ rw e (elim (Bool-cases (status_eq s t)) [
    | inl f ↦ ground (arith, status_eq-same s t f, e)
    | inr f ↦ ground (arith, f)
  ])
  | inr e ↦ rw e (mem_status-append s t out)
]

mem_status-effective_from :
    (s : Status) (out : List Status) (statuses : List String)
    → mem_status s (effective_from out statuses) ≡ (mem_status s out || any (names s) statuses)
unfolding effective_from
mem_status-effective_from s out [] = ground arith
mem_status-effective_from s out (t ∷ ts) =
    let o = retryable_status (lower (codes (strip t))) in
    mem_status-effective_from s (add_status o out) ts
    ∙ ground (arith, mem_status-add_status s o out)

abbrev pub IsDistinct : List Status → Type 0
IsDistinct [] = Unit
IsDistinct (s ∷ ss) = (mem_status s ss ≡ false) × IsDistinct ss

append-IsDistinct :
    (t : Status) (out : List Status)
    → mem_status t out ≡ false
    → IsDistinct out
    → IsDistinct (out ++ t ∷ [])
append-IsDistinct t [] fresh h = (refl, tt)
append-IsDistinct t (u ∷ out) fresh h = (
  ground (arith, mem_status-append u t out, status_eq-same u t, h.0, fresh),
  append-IsDistinct t out (ground arith) h.1,
)

add_status-IsDistinct :
    (o : Option Status) (out : List Status) → IsDistinct out → IsDistinct (add_status o out)
add_status-IsDistinct none out h = h
add_status-IsDistinct (some t) out h = elim (Bool-cases (mem_status t out)) [
  | inl e ↦ rw e h
  | inr e ↦ rw e (append-IsDistinct t out e h)
]

effective_from-IsDistinct :
    (out : List Status) (statuses : List String)
    → IsDistinct out
    → IsDistinct (effective_from out statuses)
unfolding effective_from
effective_from-IsDistinct out [] h = h
effective_from-IsDistinct out (t ∷ ts) h =
    let o = retryable_status (lower (codes (strip t))) in
    effective_from-IsDistinct (add_status o out) ts (add_status-IsDistinct o out h)

names-terminal : (s : Status) (text : String) → names s text ≡ true → (s ≡ dead) ⊎ (s ≡ failure)
names-terminal s text h = ground arith

any-names-terminal :
    (s : Status) (statuses : List String)
    → any (names s) statuses ≡ true
    → (s ≡ dead) ⊎ (s ≡ failure)
any-names-terminal s [] h = ground arith
any-names-terminal s (t ∷ ts) h = elim (Bool-cases (names s t)) [
  | inl e ↦ names-terminal s t e
  | inr e ↦ any-names-terminal s ts (ground arith)
]

pub effective-terminal :
    (s : Status) (statuses : List String)
    → mem_status s (effective_statuses statuses) ≡ true
    → (s ≡ dead) ⊎ (s ≡ failure)
unfolding effective_statuses
effective-terminal s statuses h =
    any-names-terminal s statuses (ground (arith, mem_status-effective_from s [] statuses))

-- The statuses that a bulk retry works on: no status twice, and a status is among them exactly
-- if some entry of the request names it, up to blanks and case, and it is a terminal failure.
pub effective_statuses_lem :
    (statuses : List String) (s : Status)
    → IsDistinct (effective_statuses statuses)
      × (mem_status s (effective_statuses statuses) ≡ any (names s) statuses)
unfolding effective_statuses
effective_statuses_lem statuses s = (
  effective_from-IsDistinct [] statuses tt,
  mem_status-effective_from s [] statuses ∙ ground arith,
)
