-- ===== src/Anomaly/Stale.antt =====
-- `detect_stale_items` of api/anomaly/rules.py.
--
-- A finding stands with the days that it is sorted by, which its details have in the source.
use server_api.Prelude.{
  Memᴰ, All-weaken, ℕ, suc, ◌*◌, ◌≤◌, ◌≡◌, refl, ap, ◌∙◌, Bool, true, false, Option, none, some,
  List, [], ◌∷◌, String, arith, leb, leb→le, le→leb, sort_by-IsOrdered, is_blank, decimal, length,
  count, sort_by, All, All-sort_by, length-sort_by, Pairwise, if◌then◌else◌, ℤ, pos, negsuc,
  Bool-cases, inl, inr,
}
use Prim.Native.String.{◌++◌ as text_append}
use server_api.Anomaly.{Finding}

pub record Item : Type 0 where
  pub item_code : Option String
  pub item_name : Option String
  pub last_date : Option String
  pub days_idle : Option ℤ

pub record Stale : Type 0 where
  pub finding : Finding
  pub days_idle : ℕ

-- `value or other`.
abbrev or_text : Option String → String → String
or_text none other = other
or_text (some s) other = if is_blank s then other else s

-- `it.get("last_date", "?")`.
abbrev or_unknown : Option String → String
or_unknown none = "?"
or_unknown (some s) = s

abbrev message_of : String → String → String → ℕ → String
message_of name code last days = text_append name (
    text_append "(" (
      text_append code (
        text_append ") — 마지막 생산 "
          (text_append last (text_append " 이후 " (text_append (decimal days) "일 미생산"))))))

abbrev flagged : ℕ → Item → ℕ → Stale
flagged stale_days it days =
    let code = or_text it.item_code "?" in
    let name = or_text it.item_name code in
    record {
      finding = record {
        kind = "stale_item";
        severity = if leb (stale_days * 2) days then "critical" else "warning";
        key = text_append "stale_item:" code;
        message = message_of name code (or_unknown it.last_date) days;
      };
      days_idle = days;
    }

-- Idle for at least so many days; a date to come is a negative number of them.
abbrev pub is_idle_for : ℕ → Option ℤ → Bool
is_idle_for stale_days none = false
is_idle_for stale_days (some (pos n)) = leb stale_days n
is_idle_for stale_days (some (negsuc n)) = false

abbrev add_flagged : ℕ → Item → Option ℤ → List Stale → List Stale
add_flagged stale_days it (some (pos n)) rest =
    if leb stale_days n then flagged stale_days it n ∷ rest else rest
add_flagged stale_days it _ rest = rest

abbrev flag_each : ℕ → List Item → List Stale
flag_each stale_days [] = []
flag_each stale_days (it ∷ its) = add_flagged stale_days it it.days_idle (flag_each stale_days its)

abbrev pub longer : Stale → Stale → Bool
longer a b = leb b.days_idle a.days_idle

unfoldable pub detect_stale_items : ℕ → List Item → List Stale
detect_stale_items stale_days items = sort_by longer (flag_each stale_days items)

-- The texts of a finding: what the item has, or what stands in for it.
abbrev pub code_of : Item → String
code_of it = or_text it.item_code "?"

abbrev pub name_of : Item → String
name_of it = or_text it.item_name (code_of it)

-- The finding is about the item, which is idle for as long as it says, and due.
abbrev pub IsAbout : ℕ → Stale → Item → Type 0
IsAbout stale_days s it =
    (it.days_idle ≡ some (pos s.days_idle))
    × (stale_days ≤ s.days_idle)
    × (s.finding.kind ≡ "stale_item")
    × (s.finding.severity ≡ (if leb (stale_days * 2) s.days_idle then "critical" else "warning"))
    × (s.finding.key ≡ text_append "stale_item:" (code_of it))
    × (s.finding.message
        ≡ text_append (name_of it) (
            text_append "(" (
              text_append (code_of it) (
                text_append ") — 마지막 생산 " (
                  text_append (or_unknown it.last_date)
                    (text_append " 이후 " (text_append (decimal s.days_idle) "일 미생산")))))))

abbrev pub IsOfItem : ℕ → List Item → Stale → Type 0
IsOfItem stale_days items s = (it : Item) × Memᴰ it items × IsAbout stale_days s it

IsOfItem-cons :
    (stale_days : ℕ) (it : Item) (its : List Item) (s : Stale)
    → IsOfItem stale_days its s
    → IsOfItem stale_days (it ∷ its) s
IsOfItem-cons stale_days it its s h = (h.0, Memᴰ.tail h.1, h.2)

add_flagged-IsOfItem :
    (stale_days : ℕ) (it : Item) (days : Option ℤ) (its : List Item) (rest : List Stale)
    → it.days_idle ≡ days
    → All (IsOfItem stale_days (it ∷ its)) rest
    → All (IsOfItem stale_days (it ∷ its)) (add_flagged stale_days it days rest)
add_flagged-IsOfItem stale_days it none its rest same h = h
add_flagged-IsOfItem stale_days it (some (negsuc n)) its rest same h = h
add_flagged-IsOfItem stale_days it (some (pos n)) its rest same h =
    elim (Bool-cases (leb stale_days n)) [
      | inl e ↦
          rw e ((it, Memᴰ.head refl, (same, leb→le stale_days n e, refl, refl, refl, refl)), h)
      | inr e ↦ rw e h
    ]

length-add_flagged :
    (stale_days : ℕ) (it : Item) (days : Option ℤ) (rest : List Stale)
    → length (add_flagged stale_days it days rest)
      ≡ (if is_idle_for stale_days days then suc (length rest) else length rest)
length-add_flagged stale_days it none rest = refl
length-add_flagged stale_days it (some (negsuc n)) rest = refl
length-add_flagged stale_days it (some (pos n)) rest = ground arith

flag_each-IsOfItem :
    (stale_days : ℕ) (its : List Item) → All (IsOfItem stale_days its) (flag_each stale_days its)
flag_each-IsOfItem stale_days [] = tt
flag_each-IsOfItem stale_days (it ∷ its) =
    let rest = flag_each stale_days its in
    add_flagged-IsOfItem stale_days it it.days_idle its rest refl (
      All-weaken (IsOfItem stale_days its) (IsOfItem stale_days (it ∷ its)) rest
        (λ s. IsOfItem-cons stale_days it its s) (flag_each-IsOfItem stale_days its))

length-flag_each :
    (stale_days : ℕ) (its : List Item)
    → length (flag_each stale_days its) ≡ count (λ it. is_idle_for stale_days it.days_idle) its
length-flag_each stale_days [] = refl
length-flag_each stale_days (it ∷ its) =
    length-add_flagged stale_days it it.days_idle (flag_each stale_days its)
    ∙ ap (λ n. if is_idle_for stale_days it.days_idle then suc n else n)
        (length-flag_each stale_days its)

longer_trans : (a b c : Stale) → longer a b ≡ true → longer b c ≡ true → longer a c ≡ true
longer_trans a b c h g =
    let x = leb→le b.days_idle a.days_idle h in
    let y = leb→le c.days_idle b.days_idle g in le→leb c.days_idle a.days_idle (omega arith)

longer_total : (a b : Stale) → longer a b ≡ false → longer b a ≡ true
longer_total a b h = ground arith

refl_All : (xs : List Stale) → All (λ x. true ≡ true) xs
refl_All [] = tt
refl_All (x ∷ xs) = (refl, refl_All xs)

refl_Pairwise : (xs : List Stale) → Pairwise (λ x y. true ≡ true) xs
refl_Pairwise [] = tt
refl_Pairwise (x ∷ xs) = (refl_All xs, refl_Pairwise xs)

-- Every finding is about one of the items that has been idle for at least the given days: with its
-- code in the key and its name, code, last date and days in the message, critical from twice the
-- days on. There are as many findings as such items, the longest idle first.
pub detect_stale_items_lem :
    (stale_days : ℕ) (items : List Item)
    → All (IsOfItem stale_days items) (detect_stale_items stale_days items)
      × (length (detect_stale_items stale_days items)
          ≡ count (λ it. is_idle_for stale_days it.days_idle) items)
      × Pairwise (λ x y. longer x y ≡ true) (detect_stale_items stale_days items)
unfolding detect_stale_items
detect_stale_items_lem stale_days items = (
  All-sort_by longer (IsOfItem stale_days items) (flag_each stale_days items)
      (flag_each-IsOfItem stale_days items),
  length-sort_by longer (flag_each stale_days items) ∙ length-flag_each stale_days items,
  sort_by-IsOrdered longer longer (λ x y. true) (λ x y h e. e) (λ x y e. e) longer_total
      longer_trans longer_trans (flag_each stale_days items)
      (refl_Pairwise (flag_each stale_days items)),
)
