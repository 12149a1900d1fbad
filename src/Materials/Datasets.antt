-- ===== src/Materials/Datasets.antt =====
-- api/materials/datasets.py: the registry of datasets.
use server_api.Prelude.{
  Option, none, some, List, [], ◌∷◌, String, if◌then◌else◌, find, is_blank, mem_text,
}

pub record Dataset : Type 0 where
  pub key : String
  pub table : String
  pub runs_table : String
  pub prefix : String
  pub title : String
  pub keywords : List String

abbrev pub materials : Dataset
materials = record {
  key = "materials";
  table = "material_requests";
  runs_table = "material_runs";
  prefix = "/materials";
  title = "Materials";
  keywords = "자재" ∷ "접수" ∷ [];
}

abbrev pub binder : Dataset
binder = record {
  key = "binder";
  table = "binder_requests";
  runs_table = "binder_runs";
  prefix = "/binder";
  title = "Binder";
  keywords = "PBHAv1.0" ∷ [];
}

abbrev pub all_datasets : List Dataset
all_datasets = materials ∷ binder ∷ []

abbrev or_materials : Option Dataset → Dataset
or_materials none = materials
or_materials (some d) = d

-- `if keyword:` and the search of the registry, `materials` if it finds nothing.
unfoldable pub dataset_for_keyword : Option String → Dataset
dataset_for_keyword none = materials
dataset_for_keyword (some keyword) =
    if is_blank keyword
    then materials
    else or_materials (find (λ (d : Dataset). mem_text keyword d.keywords) all_datasets)
