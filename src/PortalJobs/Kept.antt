-- ===== src/PortalJobs/Kept.antt =====
-- What one step of saving a form leaves to the other keywords.
use server_api.Prelude.{
  ◌≡◌, refl, ap, ◌∙◌, Bool, true, false, Option, none, some, List, String, str_eq, eq_iff,
  str_eq_apart_sym, Bool-cases, inl, inr,
}
use server_api.PortalJobs.Values.{
  Json, null, flag, number, text, array, object, Fields, field, pop_field, object_of, list_of,
  field-put_field, field-pop_field,
}
use server_api.PortalJobs.{
  Form, stripped_field, job_is, move_found, keep_or_update, is_pattern, as_materials, binder_spec,
  rename_moves, apply_collectors, apply_dataset_routes,
}

-- The parts of a configuration that a job has entries in.
abbrev pub jobs_of : Fields → List Json
jobs_of config = list_of (field "jobs" (object_of (field "search" config)))

abbrev pub collectors_of : Fields → Fields
collectors_of config = object_of (field "collectors" (object_of (field "search" config)))

abbrev pub routes_of : Fields → Fields
routes_of config = object_of (field "dataset_routes" (object_of (field "api_backup" config)))

abbrev pub is_old : Option String → String → Bool
is_old none k = false
is_old (some old) k = str_eq old k

module _ (str_of_other : Json → String) where
  move_found-other :
      (o : Option Json) (old new k : String) (fs : Fields)
      → str_eq old k ≡ false
      → str_eq new k ≡ false
      → field k (move_found str_of_other old new o fs) ≡ field k fs
  move_found-other none old new k fs h g = refl
  move_found-other (some v) old new k fs h g =
      field-put_field new k v (pop_field old fs) ∙ rw g (field-pop_field old k fs ∙ rw h refl)

  pub rename_moves-other :
      (old : Option String) (new k : String) (fs : Fields)
      → is_old old k ≡ false
      → str_eq new k ≡ false
      → field k (rename_moves str_of_other old new fs) ≡ field k fs
  rename_moves-other none new k fs h g = refl
  rename_moves-other (some old) new k fs h g = move_found-other (field old fs) old new k fs h g

  keep_or_update-other :
      (o : Option Json) (keyword k : String) (fs : Fields)
      → str_eq keyword k ≡ false
      → field k (keep_or_update str_of_other keyword o fs) ≡ field k fs
  keep_or_update-other none keyword k fs h = refl
  keep_or_update-other (some null) keyword k fs h = refl
  keep_or_update-other (some (flag b)) keyword k fs h = refl
  keep_or_update-other (some (number t b)) keyword k fs h = refl
  keep_or_update-other (some (text t)) keyword k fs h = refl
  keep_or_update-other (some (array js)) keyword k fs h = refl
  keep_or_update-other (some (object spec)) keyword k fs h =
      elim (Bool-cases (is_pattern str_of_other spec)) [
        | inl e ↦
            rw e
              (field-put_field keyword k (object (as_materials str_of_other spec)) fs ∙ rw h refl)
        | inr e ↦ rw e refl
      ]

  pub apply_collectors-other :
      (form : Form) (k : String) (fs : Fields)
      → str_eq form.keyword k ≡ false
      → field k (apply_collectors str_of_other form fs) ≡ field k fs
  unfolding apply_collectors
  apply_collectors-other form k fs h = elim (Bool-cases (str_eq form.pattern "binder")) [
    | inl e ↦ rw e (field-put_field form.keyword k (binder_spec str_of_other form) fs ∙ rw h refl)
    | inr e ↦ rw e (keep_or_update-other (field form.keyword fs) form.keyword k fs h)
  ]

  pub apply_dataset_routes-other :
      (keyword route k : String) (fs : Fields)
      → str_eq keyword k ≡ false
      → field k (apply_dataset_routes str_of_other keyword route fs) ≡ field k fs
  unfolding apply_dataset_routes
  apply_dataset_routes-other keyword route k fs h = elim (Bool-cases (str_eq route "/materials")) [
    | inl e ↦ rw e (field-pop_field keyword k fs ∙ rw h refl)
    | inr e ↦ rw e (field-put_field keyword k (text route) fs ∙ rw h refl)
  ]

  -- A job of one keyword is of no other.
  pub job_is-other :
      (k keyword : String) (j : Json)
      → str_eq keyword k ≡ false
      → job_is str_of_other k j ≡ true
      → job_is str_of_other keyword j ≡ false
  job_is-other k keyword (object fs) h g =
      let same = (eq_iff (stripped_field str_of_other "keyword" fs) k).0 g in
      ap (λ z. str_eq z keyword) same ∙ str_eq_apart_sym keyword k h
  job_is-other k keyword null h g = refl
  job_is-other k keyword (flag b) h g = refl
  job_is-other k keyword (number t b) h g = refl
  job_is-other k keyword (text t) h g = refl
  job_is-other k keyword (array js) h g = refl
