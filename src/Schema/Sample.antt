-- ===== src/Schema/Sample.antt =====
-- lib/swagger-client.js, the sample values of models and properties (getSampleValue, sampleValue and
-- createJSONSample of Model, ArrayModel and Property).
use common_services_common_u.Base.{
  ℕ, zero, suc, String, ◌≡◌, refl, Bool, true, false, ◌||◌, Option, none, some, List, [], ◌∷◌, ◌==◌,
  if◌then◌else◌, any, filter, not,
}
use common_services_common_u.Js.Text.{split}
use common_services_common_u.Js.Dict.{Dict, get, put}
use common_services_common_u.Js.Value.{
  Value, null, bool, num, str, arr, obj, no_items, item, Fields, no_fields, set_field, is_set,
  has_text,
}
use common_services_common_u.Schema.{is, or_text, simple_ref, get_string_signature}
use common_services_common_u.Schema.Property.{Property, facets}

-- A model, with the properties of one that is no array, and the fields of one that is.
pub data Sampled : Type 0 where
  object_of : String → List Property → Sampled
  array_of : Option String → Option String → Sampled

-- `modelsToIgnore` by its names, and `representations`.
pub record Tables : Type 0 where
  pub ignored : List String
  pub representations : Dict Value

-- What a call ends with: a value with the tables, an exception, or no more fuel.
pub data Sample : Type 0 where
  sampled : Value → Tables → Sample
  thrown : Sample
  out_of_fuel : Sample

abbrev pub then_with : Sample → (Value → Tables → Sample) → Sample
then_with (sampled v t) f = f v t
then_with thrown f = thrown
then_with out_of_fuel f = out_of_fuel

abbrev pub has_name : String → List String → Bool
has_name name names = any (λ n. n == name) names

abbrev pub first_or : String → List String → String
first_or d [] = d
first_or d (x ∷ xs) = x

-- The value for a type; `now` is `new Date().toISOString()`.
unfoldable pub value_of_type : String → String → Value
value_of_type now type =
    if type == "date-time"
    then str now
    else if type == "date"
    then str (first_or "" (split b'T' now))
    else if type == "string"
    then str "string"
    else if type == "integer" || type == "long" || type == "float" || type == "double"
    then num 0
    else if type == "boolean"
    then bool true
    else obj no_fields

abbrev pub value_or : Option Value → Value → Value
value_or none v = v
value_or (some x) v = if is_set (some x) then x else v

-- `example` and `default` of the property come before the value of its type.
abbrev pub plain_value : String → String → Option Value → Option Value → Value
plain_value now type example default = value_or example (value_or default (value_of_type now type))

abbrev pub ignore : String → Tables → Tables
ignore name t = record t { ignored = name ∷ t.ignored }

abbrev pub as_array : Bool → Value → Value
as_array is_array v = if is_array then arr (item v no_items) else v

abbrev pub is_array_property : Property → Bool
is_array_property p = is "array" (facets p.schema_of).type

-- A call of `getSampleValue` on a model, with these names in `modelsToIgnore`.
abbrev pub Call : Type 0
Call = Sampled → List String → Sample

module _ (now : String) (models : Dict Sampled) where
  -- The end of sampleValue.
  abbrev pub finish_sample : Bool → String → Value → Tables → Sample
  finish_sample is_array type v t = sampled (as_array is_array v) (ignore type t)

  -- A model that is referred to: `representations` gets what it is represented by.
  abbrev pub sample_model : Call → Bool → String → Sampled → Tables → Sample
  sample_model call is_array type m t = then_with (call m (type ∷ t.ignored)) λ v inner.
      finish_sample is_array type v
        (record { ignored = inner.ignored; representations = put type v t.representations })

  -- The branch of a property with a reference that has no representation yet.
  abbrev pub sample_ref : Call → Bool → String → String → Option Sampled → Tables → Sample
  sample_ref call is_array type name none t = finish_sample is_array type (str name) t
  sample_ref call is_array type name (some m) t =
      if has_name type t.ignored
      then finish_sample is_array type (str name) t
      else sample_model call is_array type m t

  -- A representation is returned as it is, also for an array.
  abbrev pub sample_known : Call → Bool → String → String → Option Value → Tables → Sample
  sample_known call is_array type name (some v) t = sampled v t
  sample_known call is_array type name none t =
      sample_ref call is_array type name (get name models) t

  unfoldable pub sample_value : Call → Bool → Property → Tables → Sample
  unfolding value_of_type
  sample_value call is_array p t =
      let type = get_string_signature true p.obj in
      let name = simple_ref (or_text "" p.ref) in
      let both = is_array || is_array_property p in
      if has_text p.ref
      then sample_known call both type name (get type t.representations) t
      else finish_sample both type
          (plain_value now type (facets p.obj).example (facets p.obj).default) t

  -- `obj[property.name] = property.sampleValue(false, modelsToIgnore, representations)`
  unfoldable pub sample_properties : Call → List Property → Fields → Tables → Sample
  unfolding sample_value
  sample_properties call [] fs t = sampled (obj fs) t
  sample_properties call (p ∷ ps) fs t =
      then_with (sample_value call false p t)
        λ v s. sample_properties call ps (set_field p.name v fs) s

  abbrev pub sample_item : Call → Option Sampled → List String → Sample
  sample_item call none ignored = thrown
  sample_item call (some m) ignored =
      then_with (call m ignored) λ v t. sampled (arr (item v no_items)) t

  -- getSampleValue of Model and of ArrayModel. An array of a type throws, since `type` is no
  -- variable there; one with no type and no reference is `[undefined]`, which is shown as `[null]`.
  unfoldable pub get_sample_value : ℕ → Call
  unfolding sample_properties
  get_sample_value zero m ignored = out_of_fuel
  get_sample_value (suc fuel) (object_of name ps) ignored =
      sample_properties (get_sample_value fuel) ps no_fields
        (record { ignored = ignored; representations = [] })
  get_sample_value (suc fuel) (array_of type ref) ignored =
      if has_text type
      then thrown
      else if has_text ref
      then sample_item (get_sample_value fuel) (get (simple_ref (or_text "" ref)) models) ignored
      else sampled (arr (item null no_items)) (record { ignored = ignored; representations = [] })

  -- The sample of a model of an array whose items refer to the model itself has no end: no fuel is
  -- enough for it, whatever is ignored.
  pub get_sample_value-out_of_fuel :
      (fuel : ℕ) (ref : String) (ignored : List String)
      → (ref == "") ≡ false
      → get (simple_ref ref) models ≡ some (array_of none (some ref))
      → get_sample_value fuel (array_of none (some ref)) ignored ≡ out_of_fuel
  unfolding get_sample_value
  get_sample_value-out_of_fuel zero ref ignored h e = refl
  get_sample_value-out_of_fuel (suc fuel) ref ignored h e =
      rw (h, e, get_sample_value-out_of_fuel fuel ref ignored h e) refl

  abbrev pub list_of_one : Value → List String → Sample
  list_of_one v ignored =
      sampled (arr (item v no_items)) (record { ignored = ignored; representations = [] })

  -- `delete modelsToIgnore[name]`
  abbrev pub unignore : String → Tables → Tables
  unignore name t = record t { ignored = filter (λ n. not (n == name)) t.ignored }

  -- The branch of an array of a model.
  abbrev pub create_item : Call → String → List String → Sample
  create_item call name ignored =
      if has_name name ignored
      then sampled (str name) (record { ignored = ignored; representations = [] })
      else sample_item call (get name models) (name ∷ ignored)

  -- createJSONSample of Model and of ArrayModel.
  unfoldable pub create_json_sample : ℕ → Call
  unfolding sample_properties get_sample_value
  create_json_sample zero m ignored = out_of_fuel
  create_json_sample (suc fuel) (object_of name ps) ignored =
      then_with
        (sample_properties (get_sample_value fuel) ps no_fields
          (record { ignored = name ∷ ignored; representations = [] }))
        λ v t. sampled v (unignore name t)
  create_json_sample (suc fuel) (array_of type ref) ignored =
      let below = create_item (create_json_sample fuel) (simple_ref (or_text "" ref)) ignored in
      if has_text type
      then list_of_one (str (or_text "" type)) ignored
      else if has_text ref
      then below
      else list_of_one null ignored
