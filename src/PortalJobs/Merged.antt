-- ===== src/PortalJobs/Merged.antt =====
-- What `merge_job_form` keeps and what it saves.
use server_api.Prelude.{
  select-append, select-select, ◌≡◌, refl, sym, ap, ◌∙◌, Bool, true, false, not, Option, none, some,
  List, [], ◌∷◌, ◌++◌, String, arith, str_eq, eq_iff, strip, select, any, if◌then◌else◌, Bool-cases,
  inl, inr,
}
use server_api.PortalJobs.Values.{
  Json, text, Fields, end_of, field, field-put_field, field-pop_field,
}
use server_api.PortalJobs.{
  Form, job_is, is_object, is_renamed, job_of, binder_spec, rename_moves, apply_collectors,
  apply_dataset_routes, merged_jobs, merge_job_form,
}
use server_api.PortalJobs.Kept.{
  jobs_of, collectors_of, routes_of, is_old, rename_moves-other, apply_collectors-other,
  apply_dataset_routes-other, job_is-other,
}
use server_api.PortalJobs.Saved.{
  is_dict, old, searched, saved, jobs_of-saved, collectors_of-saved, routes_of-saved,
  routes_of-searched, with_backup-not_dict, backup_of_searched,
}

from_some : (b : Bool) (x y : Fields) → (if b then none else some x) ≡ some y → x ≡ y
from_some true x y h = absurd (ground arith)
from_some false x y h = ap or_end h
  where
    or_end : Option Fields → Fields
    or_end none = end_of
    or_end (some z) = z

select-not : (p : Json → Bool) (xs : List Json) → select p (select (λ j. not (p j)) xs) ≡ []
select-not p [] = refl
select-not p (x ∷ xs) = elim (Bool-cases (p x)) [
  | inl e ↦ rw e (select-not p xs)
  | inr e ↦ rw e (rw e (select-not p xs))
]

append_nil : (xs : List Json) → xs ++ [] ≡ xs
append_nil [] = refl
append_nil (x ∷ xs) = ap (λ z. x ∷ z) (append_nil xs)

module _ (str_of_other : Json → String) (form : Form) (config : Fields) where
  pub merge_job_form-saved :
      (after : Fields)
      → merge_job_form str_of_other form config ≡ some after
      → saved str_of_other form config ≡ after
  unfolding merge_job_form
  merge_job_form-saved after h =
      from_some (any (λ j. not (is_object str_of_other j)) (jobs_of config))
        (saved str_of_other form config) after h

  is_renamed-other :
      (before : Option String) (k : String) (j : Json)
      → is_old before k ≡ false
      → job_is str_of_other k j ≡ true
      → is_renamed str_of_other before j ≡ false
  is_renamed-other none k j h g = refl
  is_renamed-other (some o) k j h g = job_is-other str_of_other k o j h g

  jobs-other :
      (k : String) (before : Option String) (jobs : List Json)
      → strip form.keyword ≡ form.keyword
      → str_eq form.keyword k ≡ false
      → is_old before k ≡ false
      → select (job_is str_of_other k) (merged_jobs str_of_other before form jobs)
        ≡ select (job_is str_of_other k) jobs
  unfolding field
  jobs-other k before jobs trimmed other kept =
      let K = job_is str_of_other k in
      let without_old = select (λ j. not (is_renamed str_of_other before j)) jobs in
      let without_own = select (λ j. not (job_is str_of_other form.keyword j)) without_old in
      let new_apart : K (job_of str_of_other form) ≡ false = ap (λ z. str_eq z k) trimmed ∙ other in
      let new_out : select K (job_of str_of_other form ∷ []) ≡ [] =
        ap (λ b. if b then job_of str_of_other form ∷ [] else []) new_apart in
      select-append K without_own (job_of str_of_other form ∷ [])
      ∙ ap (λ z. select K without_own ++ z) new_out
      ∙ append_nil (select K without_own)
      ∙ select-select K (λ j. not (job_is str_of_other form.keyword j)) without_old
          (λ j g. ap not (job_is-other str_of_other k form.keyword j other g))
      ∙ select-select K (λ j. not (is_renamed str_of_other before j)) jobs
          (λ j g. ap not (is_renamed-other before k j kept g))

  jobs-own :
      (before : Option String) (jobs : List Json)
      → strip form.keyword ≡ form.keyword
      → select (job_is str_of_other form.keyword) (merged_jobs str_of_other before form jobs)
        ≡ job_of str_of_other form ∷ []
  unfolding field
  jobs-own before jobs trimmed =
      let K = job_is str_of_other form.keyword in
      let without_old = select (λ j. not (is_renamed str_of_other before j)) jobs in
      let new_in : K (job_of str_of_other form) ≡ true =
        ap (λ z. str_eq z form.keyword) trimmed ∙ (eq_iff form.keyword form.keyword).1 refl in
      select-append K (select (λ j. not (K j)) without_old) (job_of str_of_other form ∷ [])
      ∙ ap (λ z. z ++ select K (job_of str_of_other form ∷ [])) (select-not K without_old)
      ∙ ap (λ b. if b then job_of str_of_other form ∷ [] else []) new_in

  routes-other :
      (k : String)
      → str_eq form.keyword k ≡ false
      → is_old (old str_of_other form config) k ≡ false
      → field k (routes_of (saved str_of_other form config)) ≡ field k (routes_of config)
  routes-other k other kept = elim (Bool-cases (is_dict (field "api_backup" config))) [
    | inl e ↦
        ap (field k) (routes_of-saved str_of_other form config e)
        ∙ apply_dataset_routes-other str_of_other form.keyword form.dataset_route k
            (rename_moves str_of_other (old str_of_other form config) form.keyword
              (routes_of config))
            other
        ∙ rename_moves-other str_of_other (old str_of_other form config) form.keyword k
            (routes_of config) kept other
    | inr e ↦
        let here = backup_of_searched str_of_other form config in
        ap (λ z. field k (routes_of z))
          (with_backup-not_dict str_of_other form config
            (field "api_backup" (searched str_of_other form config))
            (searched str_of_other form config) (ap is_dict here ∙ e))
        ∙ ap (field k) (routes_of-searched str_of_other form config)
  ]

  -- Saving a form whose keyword is trimmed leaves every other keyword as it was, but for the one that
  -- is renamed: its jobs in their order, its collector and its route.
  pub merge_job_form_keeps :
      (k : String) (after : Fields)
      → merge_job_form str_of_other form config ≡ some after
      → strip form.keyword ≡ form.keyword
      → str_eq form.keyword k ≡ false
      → is_old (old str_of_other form config) k ≡ false
      → (select (job_is str_of_other k) (jobs_of after)
          ≡ select (job_is str_of_other k) (jobs_of config))
        × (field k (collectors_of after) ≡ field k (collectors_of config))
        × (field k (routes_of after) ≡ field k (routes_of config))
  merge_job_form_keeps k after merged trimmed other kept =
      let before = old str_of_other form config in
      let same = merge_job_form-saved after merged in
      (
        ap (λ z. select (job_is str_of_other k) (jobs_of z)) (sym same)
            ∙ ap (select (job_is str_of_other k)) (jobs_of-saved str_of_other form config)
            ∙ jobs-other k before (jobs_of config) trimmed other kept,
        ap (λ z. field k (collectors_of z)) (sym same)
            ∙ ap (field k) (collectors_of-saved str_of_other form config)
            ∙ apply_collectors-other str_of_other form k
                (rename_moves str_of_other before form.keyword (collectors_of config)) other
            ∙ rename_moves-other str_of_other before form.keyword k (collectors_of config) kept
                other,
        ap (λ z. field k (routes_of z)) (sym same) ∙ routes-other k other kept,
      )

  route_saved :
      (routes : Fields)
      → field form.keyword
          (apply_dataset_routes str_of_other form.keyword form.dataset_route routes)
        ≡ (if str_eq form.dataset_route "/materials" then none else some (text form.dataset_route))
  unfolding apply_dataset_routes
  route_saved routes =
      let own = (eq_iff form.keyword form.keyword).1 refl in
      elim (Bool-cases (str_eq form.dataset_route "/materials")) [
        | inl e ↦ rw e (field-pop_field form.keyword form.keyword routes ∙ rw own refl)
        | inr e ↦ rw e (
            field-put_field form.keyword form.keyword (text form.dataset_route) routes
            ∙ rw own refl)
      ]

  collector_saved :
      (collectors : Fields)
      → str_eq form.pattern "binder" ≡ true
      → field form.keyword (apply_collectors str_of_other form collectors)
        ≡ some (binder_spec str_of_other form)
  unfolding apply_collectors
  collector_saved collectors binder = rw binder (
      field-put_field form.keyword form.keyword (binder_spec str_of_other form) collectors
      ∙ rw ((eq_iff form.keyword form.keyword).1 refl) refl)

  -- A form for the open department box, its keyword trimmed, is saved as the only job of its keyword,
  -- with its collector, and with its route unless this is the default one, which has no entry:
  -- where `api_backup` is an object or not there.
  pub merge_job_form_saves :
      (after : Fields)
      → merge_job_form str_of_other form config ≡ some after
      → strip form.keyword ≡ form.keyword
      → str_eq form.pattern "binder" ≡ true
      → is_dict (field "api_backup" config) ≡ true
      → (select (job_is str_of_other form.keyword) (jobs_of after) ≡ job_of str_of_other form ∷ [])
        × (field form.keyword (collectors_of after) ≡ some (binder_spec str_of_other form))
        × (field form.keyword (routes_of after) ≡ (
            if str_eq form.dataset_route "/materials"
            then none
            else some (text form.dataset_route)))
  merge_job_form_saves after merged trimmed binder dict =
      let before = old str_of_other form config in
      let same = merge_job_form-saved after merged in
      (
        ap (λ z. select (job_is str_of_other form.keyword) (jobs_of z)) (sym same)
            ∙ ap (select (job_is str_of_other form.keyword))
                (jobs_of-saved str_of_other form config)
            ∙ jobs-own before (jobs_of config) trimmed,
        ap (λ z. field form.keyword (collectors_of z)) (sym same)
            ∙ ap (field form.keyword) (collectors_of-saved str_of_other form config)
            ∙ collector_saved (rename_moves str_of_other before form.keyword (collectors_of config))
                binder,
        ap (λ z. field form.keyword (routes_of z)) (sym same)
            ∙ ap (field form.keyword) (routes_of-saved str_of_other form config dict)
            ∙ route_saved (rename_moves str_of_other before form.keyword (routes_of config)),
      )
