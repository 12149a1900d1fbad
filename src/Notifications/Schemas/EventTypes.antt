-- ===== src/Notifications/Schemas/EventTypes.antt =====
-- What `validate_event_types` returns.
use server_api.Prelude.{
  suc, ◌+◌, ◌≤◌, ◌≡◌, refl, ◌∙◌, Bool, true, false, not, ◌&&◌, ◌||◌, some, List, [], ◌∷◌, ◌++◌,
  String, arith, ltb, str_eq, length, length-append, any, strip, text_length, is_blank, mem_text,
  All, All-append, Bool-cases, inl, inr, eq_iff,
}
use mathlib.Core.Path.{subst}
use server_api.Notifications.Schemas.Urls.{guard_passed}
use server_api.Notifications.Schemas.{keep_type, dedup_types, validate_event_types}

abbrev pub AreDistinct : List String → Type 0
AreDistinct [] = Unit
AreDistinct (s ∷ ss) = (mem_text s ss ≡ false) × AreDistinct ss

-- Not blank, and at most 128 characters.
abbrev pub is_type : String → Bool
is_type t = not (is_blank t) && not (ltb 128 (text_length t))

abbrev pub is_entry : String → String → Bool
is_entry s t = not (is_blank s) && str_eq s (strip t)

mem_text-append :
    (s t : String) (out : List String) → mem_text s (out ++ t ∷ []) ≡ (mem_text s out || str_eq s t)
mem_text-append s t [] = ground arith
mem_text-append s t (u ∷ out) = ground (arith, mem_text-append s t out)

mem_text-keep_type :
    (s t : String) (out : List String)
    → mem_text s (keep_type t out) ≡ (mem_text s out || (not (is_blank s) && str_eq s t))
mem_text-keep_type s t out = elim (Bool-cases (is_blank t || mem_text t out)) [
  | inl e ↦ rw e (elim (Bool-cases (str_eq s t)) [
    | inl f ↦ ground (arith, eq_iff s t, f, e)
    | inr f ↦ ground (arith, f)
  ])
  | inr e ↦ rw e (
      mem_text-append s t out ∙ elim (Bool-cases (str_eq s t)) [
        | inl f ↦ ground (arith, eq_iff s t, f, e)
        | inr f ↦ ground (arith, f)
      ])
]

append-AreDistinct :
    (t : String) (out : List String)
    → mem_text t out ≡ false
    → AreDistinct out
    → AreDistinct (out ++ t ∷ [])
append-AreDistinct t [] fresh h = (refl, tt)
append-AreDistinct t (u ∷ out) fresh h = (
  ground (arith, mem_text-append u t out, eq_iff u t, eq_iff t u, h.0, fresh),
  append-AreDistinct t out (ground arith) h.1,
)

-- What holds of the list that is built, and is kept by one more entry of at most 128 characters.
abbrev IsClean : List String → Type 0
IsClean out = AreDistinct out × All (λ t. is_type t ≡ true) out

keep_type-IsClean :
    (t : String) (out : List String)
    → ltb 128 (text_length t) ≡ false
    → IsClean out
    → IsClean (keep_type t out)
keep_type-IsClean t out short h = elim (Bool-cases (is_blank t || mem_text t out)) [
  | inl e ↦ rw e h
  | inr e ↦ rw e (
    append-AreDistinct t out (ground (arith, e)) h.0,
    All-append (λ u. is_type u ≡ true) out (t ∷ []) h.1 (ground (arith, e, short), tt),
  )
]

length-keep_type : (t : String) (out : List String) → length (keep_type t out) ≤ suc (length out)
length-keep_type t out = ground (arith, length-append out (t ∷ []))

dedup_types-some :
    (types out result : List String)
    → dedup_types out types ≡ some result
    → IsClean out
    → IsClean result × (length result ≤ length out + length types)
dedup_types-some [] out result h c =
    let same : out ≡ result = cc in
    subst (λ z. IsClean z × (length z ≤ length out + 0)) same (c, omega arith)
dedup_types-some (t ∷ ts) out result h c =
    let (short, rest) = guard_passed (ltb 128 (text_length (strip t))) _ result h in
    let next =
      dedup_types-some ts (keep_type (strip t) out) result rest
        (keep_type-IsClean (strip t) out short c) in
    (next.0, omega (arith, next.1, length-keep_type (strip t) out))

dedup_types-mem :
    (types out result : List String) (s : String)
    → dedup_types out types ≡ some result
    → mem_text s result ≡ (mem_text s out || any (is_entry s) types)
dedup_types-mem [] out result s h = ground (arith, h)
dedup_types-mem (t ∷ ts) out result s h =
    let rest = guard_passed (ltb 128 (text_length (strip t))) _ result h in
    dedup_types-mem ts (keep_type (strip t) out) result s rest.1
    ∙ ground (arith, mem_text-keep_type s (strip t) out)

-- An accepted list of event types has at most 64 entries, no entry twice, each entry not blank and
-- of at most 128 characters; and a text is in it exactly if it is not blank and some entry of the
-- request is that text with blanks around it stripped.
pub validate_event_types_lem :
    (types result : List String) (s : String)
    → validate_event_types types ≡ some result
    → (length result ≤ 64)
      × AreDistinct result
      × All (λ t. is_type t ≡ true) result
      × (mem_text s result ≡ any (is_entry s) types)
unfolding validate_event_types
validate_event_types_lem types result s h =
    let (few, rest) = guard_passed (ltb 64 (length types)) _ result h in
    let built = dedup_types-some types [] result rest (tt, tt) in
    (
      ground (arith, few, built.1),
      built.0.0,
      built.0.1,
      dedup_types-mem types [] result s rest ∙ ground arith,
    )
