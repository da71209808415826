-- ===== src/Listing/Model/Sample.antt =====
-- lib/swagger-client.js, SwaggerModel.createJSONSample and SwaggerModelProperty.getSampleValue: sample
-- values. The table of samples that a page may fill is empty.
use mathlib.Core.List
use common_services_common_u.Base.{
  ℕ, zero, suc, String, Bool, true, false, ◌||◌, Option, none, some, List, [], ◌∷◌, ◌==◌,
  if◌then◌else◌,
}
use common_services_common_u.Js.Dict.{Dict, get}
use common_services_common_u.Js.Value.{
  Value, null, bool, num, str, arr, obj, no_items, item, Fields, no_fields, set_field, is_set,
}
use common_services_common_u.Models.{has_name}
use common_services_common_u.Listing.Model.{ModelProperty, ListedModel}

-- The values for a type's name; a type that is not known is its own sample.
abbrev pub sample_of_name : String → Value
sample_of_name type =
    if type == "integer" || type == "double" || type == "number"
    then num 0
    else if type == "boolean"
    then bool false
    else if type == "string"
    then str ""
    else str type

-- SwaggerModelProperty.toSampleValue
unfoldable pub to_sample_value : Option Value → Option String → Option Value
to_sample_value default_value type =
    if is_set default_value
    then default_value
    else elim type [ none ↦ none | some t ↦ some (sample_of_name t) ]

-- `[result]`; an item that is undefined is null in JSON.
abbrev pub collected : Bool → Option Value → Option Value
collected false v = v
collected true none = some (arr (item null no_items))
collected true (some v) = some (arr (item v no_items))

abbrev pub own_sample : ModelProperty → Option Value
own_sample p =
    to_sample_value p.default_value (if p.is_collection then p.ref_data_type else p.data_type)

-- A field that is undefined has no place in JSON.
abbrev pub set_defined : String → Option Value → Fields → Fields
set_defined name none fs = fs
set_defined name (some v) fs = set_field name v fs

abbrev pub referred : Dict ListedModel → Option String → Option ListedModel
referred models none = none
referred models (some key) = get key models

-- A call of createJSONSample: `none` is a call that needs more fuel.
abbrev pub Call : Type 0
Call = ListedModel → List String → Option Fields

abbrev pub with_object : Bool → Option Fields → (Option Value → Option Fields) → Option Fields
with_object is_collection none f = none
with_object is_collection (some fs) f = f (collected is_collection (some (obj fs)))

module _ (models : Dict ListedModel) where
  -- SwaggerModelProperty.getSampleValue, and what is done with it.
  abbrev pub sample_with :
      Call
      → ModelProperty
      → Option ListedModel
      → List String
      → (Option Value → Option Fields)
      → Option Fields
  sample_with call p none ignored f = f (collected p.is_collection (own_sample p))
  sample_with call p (some m) ignored f =
      if has_name m.name ignored
      then f (collected p.is_collection (own_sample p))
      else with_object p.is_collection (call m ignored) f

  unfoldable pub sample_fields : Call → List ModelProperty → List String → Fields → Option Fields
  unfolding set_field to_sample_value get
  sample_fields call [] ignored fs = some fs
  sample_fields call (p ∷ ps) ignored fs =
      sample_with call p (referred models p.ref_model) ignored
        (λ v. sample_fields call ps ignored (set_defined p.name v fs))

  -- SwaggerModel.createJSONSample. The array of ignored models is, behind a call, what it was before.
  unfoldable pub create_sample : ℕ → Call
  unfolding sample_fields
  create_sample zero m ignored = none
  create_sample (suc fuel) m ignored =
      sample_fields (create_sample fuel) m.properties (List.◌++◌ ignored (m.name ∷ [])) no_fields
