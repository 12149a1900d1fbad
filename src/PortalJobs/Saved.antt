-- ===== src/PortalJobs/Saved.antt =====
-- The configuration that `merge_job_form` returns.
use server_api.Prelude.{◌≡◌, refl, ap, ◌∙◌, Bool, true, false, Option, none, some, String, arith}
use server_api.PortalJobs.Values.{
  Json, nil, null, flag, number, text, array, object, Fields, end_of, field, put_field, object_of,
  list_of, from_list, to_list-from_list, field-put_field,
}
use server_api.PortalJobs.{
  Form, renamed_from, rename_moves, apply_collectors, apply_dataset_routes, merged_jobs,
  merged_search, merged_backup, with_backup,
}
use server_api.PortalJobs.Kept.{jobs_of, collectors_of, routes_of}

-- A value that `merge_job_form` takes for an object.
abbrev pub is_dict : Option Json → Bool
is_dict none = true
is_dict (some (object fs)) = true
is_dict (some _) = false

module _ (str_of_other : Json → String) (form : Form) (config : Fields) where
  abbrev pub old : Option String
  old = renamed_from str_of_other form.original_keyword form.keyword

  abbrev sec : Fields
  sec = object_of (field "search" config)

  abbrev pub searched : Fields
  searched = put_field "search" (object (merged_search str_of_other old form sec)) config

  abbrev pub saved : Fields
  saved = with_backup str_of_other old form (field "api_backup" searched) searched

  abbrev routes_for : Fields → Fields
  routes_for ab =
      apply_dataset_routes str_of_other form.keyword form.dataset_route
        (rename_moves str_of_other old form.keyword (object_of (field "dataset_routes" ab)))

  search_of_with_backup :
      (o : Option Json) (fs : Fields)
      → field "search" (with_backup str_of_other old form o fs) ≡ field "search" fs
  search_of_with_backup none fs =
      field-put_field "api_backup" "search" (object (merged_backup str_of_other old form end_of)) fs
  search_of_with_backup (some (object ab)) fs =
      field-put_field "api_backup" "search" (object (merged_backup str_of_other old form ab)) fs
  search_of_with_backup (some null) fs = refl
  search_of_with_backup (some (flag b)) fs = refl
  search_of_with_backup (some (number t b)) fs = refl
  search_of_with_backup (some (text t)) fs = refl
  search_of_with_backup (some (array js)) fs = refl

  search_of_saved : object_of (field "search" saved) ≡ merged_search str_of_other old form sec
  search_of_saved = ap object_of (
      search_of_with_backup (field "api_backup" searched) searched
      ∙ field-put_field "search" "search" (object (merged_search str_of_other old form sec)) config)

  pub jobs_of-saved : jobs_of saved ≡ merged_jobs str_of_other old form (jobs_of config)
  jobs_of-saved =
      let jobs = array (from_list (merged_jobs str_of_other old form (jobs_of config))) in
      let collectors = object (
        apply_collectors str_of_other form
          (rename_moves str_of_other old form.keyword (collectors_of config))) in
      let with_jobs = put_field "jobs" jobs sec in
      let emptied = put_field "profiles" (array nil) with_jobs in
      ap (λ z. list_of (field "jobs" z)) search_of_saved
      ∙ ap list_of (
          field-put_field "collectors" "jobs" collectors emptied
          ∙ field-put_field "profiles" "jobs" (array nil) with_jobs
          ∙ field-put_field "jobs" "jobs" jobs sec)
      ∙ to_list-from_list (merged_jobs str_of_other old form (jobs_of config))

  pub collectors_of-saved :
      collectors_of saved
      ≡ apply_collectors str_of_other form
          (rename_moves str_of_other old form.keyword (collectors_of config))
  collectors_of-saved =
      let jobs = array (from_list (merged_jobs str_of_other old form (jobs_of config))) in
      let collectors = object (
        apply_collectors str_of_other form
          (rename_moves str_of_other old form.keyword (collectors_of config))) in
      let emptied = put_field "profiles" (array nil) (put_field "jobs" jobs sec) in
      ap (λ z. object_of (field "collectors" z)) search_of_saved
      ∙ ap object_of (field-put_field "collectors" "collectors" collectors emptied)

  routes_of_backup :
      (o : Option Json) (fs : Fields)
      → is_dict o ≡ true
      → routes_of (with_backup str_of_other old form o fs)
        ≡ apply_dataset_routes str_of_other form.keyword form.dataset_route (
            rename_moves str_of_other old form.keyword
              (object_of (field "dataset_routes" (object_of o))))
  routes_of_backup none fs h =
      let backup = merged_backup str_of_other old form end_of in
      ap (λ z. object_of (field "dataset_routes" (object_of z)))
        (field-put_field "api_backup" "api_backup" (object backup) fs)
      ∙ ap object_of
          (field-put_field "dataset_routes" "dataset_routes" (object (routes_for end_of)) end_of)
  routes_of_backup (some (object ab)) fs h =
      let backup = merged_backup str_of_other old form ab in
      ap (λ z. object_of (field "dataset_routes" (object_of z)))
        (field-put_field "api_backup" "api_backup" (object backup) fs)
      ∙ ap object_of (field-put_field "dataset_routes" "dataset_routes" (object (routes_for ab)) ab)
  routes_of_backup (some null) fs h = absurd (ground arith)
  routes_of_backup (some (flag b)) fs h = absurd (ground arith)
  routes_of_backup (some (number t b)) fs h = absurd (ground arith)
  routes_of_backup (some (text t)) fs h = absurd (ground arith)
  routes_of_backup (some (array js)) fs h = absurd (ground arith)

  pub with_backup-not_dict :
      (o : Option Json) (fs : Fields)
      → is_dict o ≡ false
      → with_backup str_of_other old form o fs ≡ fs
  with_backup-not_dict none fs h = absurd (ground arith)
  with_backup-not_dict (some (object ab)) fs h = absurd (ground arith)
  with_backup-not_dict (some null) fs h = refl
  with_backup-not_dict (some (flag b)) fs h = refl
  with_backup-not_dict (some (number t b)) fs h = refl
  with_backup-not_dict (some (text t)) fs h = refl
  with_backup-not_dict (some (array js)) fs h = refl

  pub backup_of_searched : field "api_backup" searched ≡ field "api_backup" config
  backup_of_searched =
      field-put_field "search" "api_backup" (object (merged_search str_of_other old form sec))
        config

  pub routes_of-searched : routes_of searched ≡ routes_of config
  routes_of-searched = ap (λ z. object_of (field "dataset_routes" (object_of z))) backup_of_searched

  pub routes_of-saved :
      is_dict (field "api_backup" config) ≡ true
      → routes_of saved
        ≡ apply_dataset_routes str_of_other form.keyword form.dataset_route
            (rename_moves str_of_other old form.keyword (routes_of config))
  routes_of-saved h =
      routes_of_backup (field "api_backup" searched) searched (ap is_dict backup_of_searched ∙ h)
      ∙ ap
          (λ z.
            apply_dataset_routes str_of_other form.keyword form.dataset_route
              (rename_moves str_of_other old form.keyword z))
          routes_of-searched
