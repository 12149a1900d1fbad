-- ===== src/PortalJobs/Values.antt =====
-- JSON values as Python holds them, an object as its fields in order.
--
-- A number is its `str` and whether it is not zero.
use server_api.Prelude.{
  ◌≡◌, refl, sym, ap, ◌∙◌, Bool, true, false, not, Option, none, some, List, [], ◌∷◌, String,
  str_eq, eq_iff, str_eq_apart_sym, is_blank, if◌then◌else◌, Bool-cases, inl, inr,
}

mutual
  pub data Json : Type 0 where
    null : Json
    flag : Bool → Json
    number : String → Bool → Json
    text : String → Json
    array : Items → Json
    object : Fields → Json

  pub data Items : Type 0 where
    nil : Items
    item : Json → Items → Items

  pub data Fields : Type 0 where
    end_of : Fields
    with_field : String → Json → Fields → Fields

-- `dict.get`, `d[k] = v` and `d.pop(k, None)`.
unfoldable pub field : String → Fields → Option Json
field k end_of = none
field k (with_field l v fs) = let rest = field k fs in if str_eq l k then some v else rest

unfoldable pub put_field : String → Json → Fields → Fields
put_field k v end_of = with_field k v end_of
put_field k v (with_field l w fs) =
    let rest = put_field k v fs in if str_eq l k then with_field l v fs else with_field l w rest

unfoldable pub pop_field : String → Fields → Fields
pop_field k end_of = end_of
pop_field k (with_field l w fs) =
    let rest = pop_field k fs in if str_eq l k then rest else with_field l w rest

-- The object that a value is, an empty one if it is none or not there.
abbrev pub object_of : Option Json → Fields
object_of none = end_of
object_of (some (object fs)) = fs
object_of (some _) = end_of

abbrev pub to_list : Items → List Json
to_list nil = []
to_list (item j js) = j ∷ to_list js

abbrev pub from_list : List Json → Items
from_list [] = nil
from_list (j ∷ js) = item j (from_list js)

abbrev pub list_of : Option Json → List Json
list_of none = []
list_of (some (array js)) = to_list js
list_of (some _) = []

abbrev pub or_default : Json → Option Json → Json
or_default d none = d
or_default d (some j) = j

unfoldable pub truthy : Json → Bool
truthy null = false
truthy (flag b) = b
truthy (number s b) = b
truthy (text s) = not (is_blank s)
truthy (array nil) = false
truthy (array (item j js)) = true
truthy (object end_of) = false
truthy (object (with_field k v fs)) = true

pub to_list-from_list : (js : List Json) → to_list (from_list js) ≡ js
to_list-from_list [] = refl
to_list-from_list (j ∷ js) = ap (λ z. j ∷ z) (to_list-from_list js)

pub field-put_field :
    (k l : String) (v : Json) (fs : Fields)
    → field l (put_field k v fs) ≡ (if str_eq k l then some v else field l fs)
unfolding field put_field
field-put_field k l v end_of = refl
field-put_field k l v (with_field m w fs) = elim (Bool-cases (str_eq m k)) [
  | inl e ↦
      let same = ap (λ z. str_eq z l) ((eq_iff m k).0 e) in
      rw (e, same) (elim (Bool-cases (str_eq k l)) [ inl f ↦ rw f refl | inr f ↦ rw f refl ])
  | inr e ↦ elim (Bool-cases (str_eq m l)) [
    | inl f ↦
        let apart = str_eq_apart_sym m k e in
        let same = ap (str_eq k) ((eq_iff m l).0 f) in rw (e, f, (sym same ∙ apart)) refl
    | inr f ↦ rw (e, f) (field-put_field k l v fs)
  ]
]

pub field-pop_field :
    (k l : String) (fs : Fields)
    → field l (pop_field k fs) ≡ (if str_eq k l then none else field l fs)
unfolding field pop_field
field-pop_field k l end_of = elim (Bool-cases (str_eq k l)) [
  | inl f ↦ rw f refl
  | inr f ↦ rw f refl
]
field-pop_field k l (with_field m w fs) = elim (Bool-cases (str_eq m k)) [
  | inl e ↦
      let same = ap (λ z. str_eq z l) ((eq_iff m k).0 e) in
      rw (e, field-pop_field k l fs, same)
        (elim (Bool-cases (str_eq k l)) [ inl f ↦ rw f refl | inr f ↦ rw f refl ])
  | inr e ↦ elim (Bool-cases (str_eq m l)) [
    | inl f ↦
        let apart = str_eq_apart_sym m k e in
        let same = ap (str_eq k) ((eq_iff m l).0 f) in rw (e, f, (sym same ∙ apart)) refl
    | inr f ↦ rw (e, f) (field-pop_field k l fs)
  ]
]
