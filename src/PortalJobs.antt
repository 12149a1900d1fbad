-- ===== src/PortalJobs.antt =====
-- portal_jobs_logic.py: the collection jobs of the manager in the bot's config.json.
--
-- `str` of a value that is not a text is the host's, a parameter. A configuration that is changed
-- in place is returned, `none` if a job that is no object raises.
pub mod Values
pub mod Kept
pub mod Saved
pub mod Merged
pub mod Checked
mod Tests
use server_api.Prelude.{
  Bool, true, false, not, Option, none, some, List, [], ◌∷◌, ◌++◌, map, String, str_eq, mem_text,
  strip, is_blank, select, any, if◌then◌else◌,
}
use server_api.PortalJobs.Values.{
  Json, flag, text, array, object, Fields, end_of, with_field, nil, field, put_field, pop_field,
  object_of, list_of, from_list, or_default,
}

pub record Form : Type 0 where
  pub keyword : String
  pub times : List String
  pub enabled : Bool
  pub pattern : String
  pub drafter : String
  pub title : String
  pub weekdays : Bool
  pub dataset_route : String
  pub original_keyword : Option String

module _ (str_of_other : Json → String) where
  abbrev pub str_of : Json → String
  str_of (text s) = s
  str_of j = str_of_other j

  -- `str(j.get(key, "")).strip()`.
  abbrev pub stripped_field : String → Fields → String
  stripped_field key fs = strip (str_of (or_default (text "") (field key fs)))

  abbrev pub job_is : String → Json → Bool
  job_is keyword (object fs) = str_eq (stripped_field "keyword" fs) keyword
  job_is keyword j = false

  abbrev pub is_object : Json → Bool
  is_object (object fs) = true
  is_object j = false

  -- `(original_keyword or "").strip() or None`, if it is another keyword.
  abbrev pub renamed_from : Option String → String → Option String
  renamed_from none keyword = none
  renamed_from (some s) keyword =
      let old = strip s in
      if is_blank old then none else if str_eq old keyword then none else some old

  abbrev pub is_renamed : Option String → Json → Bool
  is_renamed none j = false
  is_renamed (some old) j = job_is old j

  abbrev pub job_of : Form → Json
  job_of form = object (
      with_field "keyword" (text form.keyword) (
        with_field "times" (array (from_list (map (λ t. text t) form.times)))
          (with_field "enabled" (flag form.enabled) end_of)))

  abbrev pub merged_jobs : Option String → Form → List Json → List Json
  merged_jobs old form jobs =
      select (λ j. not (job_is form.keyword j)) (select (λ j. not (is_renamed old j)) jobs)
      ++ job_of form ∷ []

  -- `_rename_moves`, of one of the two dictionaries.
  abbrev pub move_found : String → String → Option Json → Fields → Fields
  move_found old new none fs = fs
  move_found old new (some v) fs = put_field new v (pop_field old fs)

  abbrev pub rename_moves : Option String → String → Fields → Fields
  rename_moves none new fs = fs
  rename_moves (some old) new fs = move_found old new (field old fs) fs

  abbrev pub binder_spec : Form → Json
  binder_spec form = object (
      with_field "type" (text "binder") (
        with_field "box" (text "dept_open") (
          with_field "drafter" (text (strip form.drafter)) (
            with_field "title" (text (strip form.title))
              (with_field "weekdays" (flag form.weekdays) end_of)))))

  abbrev pub is_pattern : Fields → Bool
  is_pattern spec = mem_text (stripped_field "type" spec) ("materials" ∷ "binder" ∷ [])

  abbrev pub as_materials : Fields → Fields
  as_materials spec = put_field "box" (text "completed") (put_field "type" (text "materials") spec)

  abbrev pub keep_or_update : String → Option Json → Fields → Fields
  keep_or_update keyword (some (object spec)) collectors =
      if is_pattern spec
      then put_field keyword (object (as_materials spec)) collectors
      else collectors
  keep_or_update keyword _ collectors = collectors

  unfoldable pub apply_collectors : Form → Fields → Fields
  apply_collectors form collectors =
      if str_eq form.pattern "binder"
      then put_field form.keyword (binder_spec form) collectors
      else keep_or_update form.keyword (field form.keyword collectors) collectors

  unfoldable pub apply_dataset_routes : String → String → Fields → Fields
  apply_dataset_routes keyword route routes =
      if str_eq route "/materials"
      then pop_field keyword routes
      else put_field keyword (text route) routes

  abbrev pub merged_search : Option String → Form → Fields → Fields
  merged_search old form sec =
      let collectors =
        apply_collectors form
          (rename_moves old form.keyword (object_of (field "collectors" sec))) in
      put_field "collectors" (object collectors) (
        put_field "profiles" (array nil) (
          put_field "jobs" (array (from_list (merged_jobs old form (list_of (field "jobs" sec)))))
            sec))

  abbrev pub merged_backup : Option String → Form → Fields → Fields
  merged_backup old form api_backup =
      let routes =
        apply_dataset_routes form.keyword form.dataset_route
          (rename_moves old form.keyword (object_of (field "dataset_routes" api_backup))) in
      put_field "dataset_routes" (object routes) api_backup

  -- A value that is there and no object stays.
  abbrev pub with_backup : Option String → Form → Option Json → Fields → Fields
  with_backup old form none config =
      put_field "api_backup" (object (merged_backup old form end_of)) config
  with_backup old form (some (object api_backup)) config =
      put_field "api_backup" (object (merged_backup old form api_backup)) config
  with_backup old form (some _) config = config

  unfoldable pub merge_job_form : Form → Fields → Option Fields
  merge_job_form form config =
      let old = renamed_from form.original_keyword form.keyword in
      let sec = object_of (field "search" config) in
      let searched = put_field "search" (object (merged_search old form sec)) config in
      if any (λ j. not (is_object j)) (list_of (field "jobs" sec))
      then none
      else some (with_backup old form (field "api_backup" searched) searched)
