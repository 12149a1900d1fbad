-- ===== src/PortalJobs/Tests.antt =====
-- A form that renames a job.
use server_api.Prelude.{
  ◌≡◌, refl, true, false, not, ◌++◌, is_blank, Option, none, some, [], ◌∷◌, String, str_eq, select,
  if◌then◌else◌,
}
use server_api.PortalJobs.Values.{
  Json, text, array, object, Fields, end_of, with_field, field, from_list,
}
use server_api.PortalJobs.{Form, is_renamed, job_is, job_of, binder_spec, merge_job_form}
use server_api.PortalJobs.Kept.{jobs_of, collectors_of, routes_of}
use server_api.PortalJobs.Saved.{is_dict}
use server_api.PortalJobs.Merged.{merge_job_form_keeps, merge_job_form_saves}
use server_api.PortalJobs.Saved.{old}
use server_api.PortalJobs.Checked.{validate_form, validate_form-merge_job_form}

abbrev as_empty : Json → String
as_empty j = ""

abbrev job_for : String → Json
job_for keyword = object (with_field "keyword" (text keyword) end_of)

abbrev config : Fields
config =
    with_field "search"
      (object
        (with_field "jobs" (array (from_list (job_for "자재" ∷ job_for "PBHAv1.0" ∷ []))) end_of))
      end_of

abbrev form : Form
form = record {
  keyword = "PBHAv2.0";
  times = "09:00" ∷ [];
  enabled = true;
  pattern = "binder";
  drafter = "Kim ";
  title = "";
  weekdays = true;
  dataset_route = "/binder";
  original_keyword = some "PBHAv1.0";
}

abbrev or_config : Option Fields → Fields
or_config none = config
or_config (some after) = after

abbrev after : Fields
after = or_config (merge_job_form as_empty form config)

merged : merge_job_form as_empty form config ≡ some after
unfolding merge_job_form field
merged = refl

merge_job_form_keeps_example :
    (select (job_is as_empty "자재") (jobs_of after) ≡ select (job_is as_empty "자재") (jobs_of config))
    × (field "자재" (collectors_of after) ≡ field "자재" (collectors_of config))
    × (field "자재" (routes_of after) ≡ field "자재" (routes_of config))
merge_job_form_keeps_example =
    merge_job_form_keeps as_empty form config "자재" after merged refl refl refl

no_backup : is_dict (field "api_backup" config) ≡ true
unfolding field
no_backup = refl

merge_job_form_saves_example :
    (select (job_is as_empty "PBHAv2.0") (jobs_of after) ≡ job_of as_empty form ∷ [])
    × (field "PBHAv2.0" (collectors_of after) ≡ some (binder_spec as_empty form))
    × (field "PBHAv2.0" (routes_of after)
        ≡ (if str_eq "/binder" "/materials" then none else some (text "/binder")))
merge_job_form_saves_example =
    merge_job_form_saves as_empty form config after merged refl refl no_backup

passes_checks :
    validate_form as_empty config "PBHAv2.0" "binder" "Kim " "" (some "PBHAv1.0") ≡ some []
unfolding validate_form field
passes_checks = refl

-- A keyword that has a job is refused.
refuses_other :
    validate_form as_empty config "자재" "binder" "Kim " "" (some "PBHAv1.0")
    ≡ some ("'자재' 작업이 이미 있습니다." ∷ [])
unfolding validate_form field
refuses_other = refl

validate_form-merge_job_form_example :
    (is_blank "PBHAv2.0" ≡ false)
    × (jobs_of after
        ≡ select (λ j. not (is_renamed as_empty (old as_empty form config) j)) (jobs_of config)
          ++ job_of as_empty form ∷ [])
validate_form-merge_job_form_example =
    validate_form-merge_job_form as_empty form config after passes_checks refl refl merged
