-- ===== src/PortalJobs/Checked.antt =====
-- `validate_form`, which the dialog asks before it saves a form.
use server_api.Prelude.{
  ◌≡◌, refl, sym, ap, ◌∙◌, Bool, true, false, not, ◌&&◌, Option, none, some, List, [], ◌∷◌, ◌++◌,
  String, arith, str_eq, strip, is_blank, select, any, any-select, if◌then◌else◌, Bool-cases, inl,
  inr,
}
use Prim.Native.String.{◌++◌ as text_append}
use server_api.PortalJobs.Values.{
  list_of, object_of, Json, null, flag, number, text, array, object, nil, item, Fields, end_of,
  field, to_list,
}
use server_api.PortalJobs.{Form, is_renamed, job_is, job_of, merged_jobs, merge_job_form}
use server_api.PortalJobs.Kept.{jobs_of}
use server_api.PortalJobs.Saved.{old, jobs_of-saved}
use server_api.PortalJobs.Merged.{merge_job_form-saved}

-- `config.get("search", {}) or {}`, then `.get("jobs", [])` as a loop goes through it: the keys of
-- an object and the characters of a text are no objects. `none` raises.
abbrev section_of : Option Json → Option Fields
section_of none = some end_of
section_of (some (object fs)) = some fs
section_of (some null) = some end_of
section_of (some (flag b)) = if b then none else some end_of
section_of (some (number s b)) = if b then none else some end_of
section_of (some (text s)) = if is_blank s then some end_of else none
section_of (some (array nil)) = some end_of
section_of (some (array (item j js))) = none

abbrev iterated : Option Json → Option (List Json)
iterated none = some []
iterated (some (array js)) = some (to_list js)
iterated (some (object fs)) = some []
iterated (some (text s)) = some []
iterated (some _) = none

abbrev jobs_in : Option Fields → Option (List Json)
jobs_in none = none
jobs_in (some sec) = iterated (field "jobs" sec)

-- Editing the job of this keyword.
abbrev pub is_own : Option String → String → Bool
is_own none kw = false
is_own (some s) kw = if is_blank s then false else str_eq (strip s) kw

abbrev binder_errors : String → String → String → List String
binder_errors pattern drafter title =
    if str_eq pattern "binder" && is_blank (strip drafter) && is_blank (strip title)
    then "부서공개함(binder)은 기안자 또는 문서제목이 필요합니다." ∷ []
    else []

abbrev add_errors : Option (List String) → List String → Option (List String)
add_errors none more = none
add_errors (some errors) more = some (errors ++ more)

module _ (str_of_other : Json → String) where
  abbrev keyword_errors : Option (List Json) → String → Option String → Option (List String)
  keyword_errors none kw original = none
  keyword_errors (some jobs) kw original =
      if is_own original kw
      then some []
      else if any (job_is str_of_other kw) jobs
      then some (text_append "'" (text_append kw "' 작업이 이미 있습니다.") ∷ [])
      else some []

  unfoldable pub validate_form :
      Fields → String → String → String → String → Option String → Option (List String)
  validate_form config keyword pattern drafter title original =
      let kw = strip keyword in
      add_errors
        (if is_blank kw
          then some ("키워드를 입력하세요." ∷ [])
          else keyword_errors (jobs_in (section_of (field "search" config))) kw original)
        (binder_errors pattern drafter title)

select-none :
    (p : Json → Bool) (xs : List Json) → any p xs ≡ false → select (λ j. not (p j)) xs ≡ xs
select-none p [] h = refl
select-none p (x ∷ xs) h = elim (Bool-cases (p x)) [
  | inl e ↦ absurd (ground arith)
  | inr e ↦ rw e (ap (λ z. x ∷ z) (select-none p xs (ground arith)))
]

abbrev passes : Option (List String) → Bool
passes none = false
passes (some []) = true
passes (some (e ∷ es)) = false

add_errors-passes :
    (o : Option (List String)) (more : List String)
    → passes (add_errors o more) ≡ true
    → passes o ≡ true
add_errors-passes none more h = h
add_errors-passes (some []) more h = refl
add_errors-passes (some (e ∷ es)) more h = h

abbrev or_empty : Option (List Json) → List Json
or_empty none = []
or_empty (some js) = js

iterated-list_of : (o : Option Json) → or_empty (iterated o) ≡ list_of o
iterated-list_of none = refl
iterated-list_of (some null) = refl
iterated-list_of (some (flag b)) = refl
iterated-list_of (some (number s b)) = refl
iterated-list_of (some (text s)) = refl
iterated-list_of (some (array js)) = refl
iterated-list_of (some (object fs)) = refl

no_jobs : (b : Bool) → or_empty (jobs_in (if b then none else some end_of)) ≡ []
unfolding field
no_jobs true = refl
no_jobs false = refl

jobs_in-jobs_of :
    (s : Option Json) → or_empty (jobs_in (section_of s)) ≡ list_of (field "jobs" (object_of s))
unfolding field
jobs_in-jobs_of none = refl
jobs_in-jobs_of (some null) = refl
jobs_in-jobs_of (some (flag b)) = no_jobs b
jobs_in-jobs_of (some (number s b)) = no_jobs b
jobs_in-jobs_of (some (text s)) = elim (Bool-cases (is_blank s)) [
  | inl e ↦ rw e refl
  | inr e ↦ rw e refl
]
jobs_in-jobs_of (some (array nil)) = refl
jobs_in-jobs_of (some (array (item j js))) = refl
jobs_in-jobs_of (some (object fs)) = iterated-list_of (field "jobs" fs)

module _ (str_of_other : Json → String) where
  keyword_errors-passes :
      (o : Option (List Json)) (kw : String) (original : Option String)
      → is_own original kw ≡ false
      → passes (keyword_errors str_of_other o kw original) ≡ true
      → any (job_is str_of_other kw) (or_empty o) ≡ false
  keyword_errors-passes none kw original h g = refl
  keyword_errors-passes (some js) kw original h g =
      elim (Bool-cases (any (job_is str_of_other kw) js)) [
        | inl e ↦
            let clash : true ≡ false = sym g ∙ rw (h, e) refl in absurd (ground (arith, clash))
        | inr e ↦ e
      ]

  merged_jobs-absent :
      (form : Form) (before : Option String) (jobs : List Json)
      → any (job_is str_of_other form.keyword) jobs ≡ false
      → merged_jobs str_of_other before form jobs
        ≡ select (λ j. not (is_renamed str_of_other before j)) jobs ++ job_of str_of_other form ∷ []
  merged_jobs-absent form before jobs h =
      let K = job_is str_of_other form.keyword in
      let R = λ (j : Json). not (is_renamed str_of_other before j) in
      ap (λ z. z ++ job_of str_of_other form ∷ [])
        (select-none K (select R jobs) (any-select K R jobs h))

  keyword_passes :
      (b : Bool) (o : Option (List String))
      → passes (if b then some ("키워드를 입력하세요." ∷ []) else o) ≡ true
      → (b ≡ false) × (passes o ≡ true)
  keyword_passes true o h = absurd (ground arith)
  keyword_passes false o h = (refl, h)

  -- A form that passes the checks and is not for the job that is edited has a keyword, and saving it
  -- appends its job: but for the job that is renamed, all jobs stay where they are, if the keyword is
  -- trimmed.
  pub validate_form-merge_job_form :
      (form : Form) (config after : Fields)
      → validate_form str_of_other config form.keyword form.pattern form.drafter form.title
          form.original_keyword
        ≡ some []
      → is_own form.original_keyword form.keyword ≡ false
      → strip form.keyword ≡ form.keyword
      → merge_job_form str_of_other form config ≡ some after
      → (is_blank form.keyword ≡ false)
        × (jobs_of after
            ≡ select
                (λ j. not (is_renamed str_of_other (old str_of_other form config) j))
                (jobs_of config)
              ++ job_of str_of_other form ∷ [])
  unfolding validate_form
  validate_form-merge_job_form form config after passed other trimmed merged =
      let kw = form.keyword in
      let found = jobs_in (section_of (field "search" config)) in
      let errors = keyword_errors str_of_other found kw form.original_keyword in
      let at_trimmed =
        ap
          (λ z. passes (
            if is_blank z
            then some ("키워드를 입력하세요." ∷ [])
            else keyword_errors str_of_other found z form.original_keyword))
          (sym trimmed) in
      let checked = keyword_passes (is_blank kw) errors (
        at_trimmed
        ∙ add_errors-passes
            (if is_blank (strip kw)
              then some ("키워드를 입력하세요." ∷ [])
              else keyword_errors str_of_other found (strip kw) form.original_keyword)
            (binder_errors form.pattern form.drafter form.title) (ap passes passed)) in
      let absent : any (job_is str_of_other kw) (jobs_of config) ≡ false =
        ap (any (job_is str_of_other kw)) (sym (jobs_in-jobs_of (field "search" config)))
        ∙ keyword_errors-passes found kw form.original_keyword other checked.1 in
      (
        checked.0,
        ap jobs_of (sym (merge_job_form-saved str_of_other form config after merged))
            ∙ jobs_of-saved str_of_other form config
            ∙ merged_jobs-absent form (old str_of_other form config) (jobs_of config) absent,
      )
