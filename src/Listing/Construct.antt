-- ===== src/Listing/Construct.antt =====
-- lib/swagger-client.js, SwaggerOperation: what its constructor makes of the types and the parameters of
-- an operation.
use Prim.Native.String.{[], ◌∷◌, ◌++◌}
use common_services_common_u.Base.{
  zero, suc, String, Bool, true, false, ◌||◌, not, Option, none, some, List, [], ◌∷◌, map, ◌==◌,
  if◌then◌else◌, is_some, length,
}
use common_services_common_u.Js.Text.{index_of, substring, to_lower_case}
use common_services_common_u.Js.Dict.{Dict, get}
use common_services_common_u.Js.Value.{
  Value, null, str, arr, obj, Items, no_items, item, Fields, get_field, is_set, has_text, to_string,
  to_list,
}
use common_services_common_u.Js.Json.{stringify_at}
use common_services_common_u.Models.{Signature}
use common_services_common_u.Operation.Construct.{is_same}
use common_services_common_u.Client.{go_on}
use common_services_common_u.Listing.Model.{
  ListedModel, or_text, shown, find, shape_of, listed_signature,
}
use common_services_common_u.Listing.Model.Sample.{create_sample}

abbrev pub or_start {ℓ} : {A : Type ℓ} → A → Option A → A
or_start a none = a
or_start a (some b) = b

-- `type.substring(type.indexOf('[') + 1, type.indexOf(']'))`; with no closing bracket the second
-- index counts as 0.
unfoldable pub list_type : Option String → Option String
unfolding index_of substring
list_type none = none
list_type (some type) =
    go_on (index_of b'[' type)
      (λ i. some (substring (suc i) (or_start zero (index_of b']' type)) type))

abbrev pub text_of : Signature → Option (Option String)
text_of none = none
text_of (some (text, ignored)) = some (some text)

-- A type as the key of a model: that of its items, if it is a list.
abbrev pub key_of : Option String → Option String → Option String
key_of none type = type
key_of (some list) type = some list

module _ (models : Dict ListedModel) where
  abbrev pub is_listed : Option String → Bool
  is_listed none = false
  is_listed (some list) = is_some (find models (some list))

  -- `!isPrimitive`
  abbrev pub has_listed_model : Option String → Bool
  has_listed_model type = is_listed (list_type type) || is_some (find models type)

  -- `models[key].getMockSignature()`; `none` is the TypeError of a model that is not there.
  abbrev pub signature_at : Option ListedModel → Option (Option String)
  signature_at none = none
  signature_at (some m) = text_of (listed_signature models (suc (length models)) (shape_of m) [])

  -- SwaggerOperation.getSignature
  unfoldable pub get_listed_signature : Option String → Option (Option String)
  unfolding list_type get listed_signature
  get_listed_signature type =
      if has_listed_model type
      then signature_at (find models (key_of (list_type type) type))
      else some type

  -- The sample as JSON. A sample with a set field `nodeName` is taken for XML, which it is not: a
  -- TypeError.
  abbrev pub sample_text : Bool → Fields → Option (Option String)
  sample_text is_list fs =
      if is_set (get_field "nodeName" fs)
      then none
      else some (some (stringify_at 0 (if is_list then arr (item (obj fs) no_items) else obj fs)))

  abbrev pub sample_at : Bool → Option ListedModel → Option (Option String)
  sample_at is_list none = none
  sample_at is_list (some m) =
      go_on (create_sample models (suc (length models)) m []) (sample_text is_list)

  abbrev pub set_key : Option String → Option String → Option String
  set_key list type = if has_text list then list else type

  -- SwaggerOperation.getSampleJSON
  unfoldable pub get_sample_json : Option String → Option (Option String)
  unfolding list_type get create_sample stringify_at get_field
  get_sample_json type =
      let list = list_type type in
      if has_listed_model type
      then sample_at (has_text list) (find models (set_key list type))
      else some none

-- `items` of an operation or of a parameter.
pub record ItemsOf : Type 0 where
  pub type : Option String
  pub ref : Option String

pub record Allowable : Type 0 where
  pub value_type : Option String
  pub values : Option Items

pub record RawParameter : Type 0 where
  pub name : Option String
  pub param_type : String
  pub type : Option String
  pub data_type : Option String
  pub items : Option ItemsOf
  pub enum : Option Items
  pub allowable : Option Allowable
  pub default_value : Option Value

-- A parameter behind the loop; `descriptive` is `allowableValues.descriptiveValues`, each value with
-- its `isDefault`.
pub record ShownParameter : Type 0 where
  pub name : Option String
  pub param_type : String
  pub type : Option String
  pub is_list : Bool
  pub is_range : Bool
  pub descriptive : Option (List (String × Bool))
  pub signature : Option String
  pub sample_json : Option String

-- `none` is the TypeError of an array with no items.
abbrev pub array_type : Option ItemsOf → Option (Option String)
array_type none = none
array_type (some items) = some (some ("array[" ++ (shown (or_text items.ref items.type) ++ "]")))

abbrev pub is_type_name : String → Option String → Bool
is_type_name t none = false
is_type_name t (some s) = s == t

abbrev pub parameter_type : RawParameter → Option (Option String)
parameter_type param =
    let type = or_text param.type param.data_type in
    if is_type_name "array" type then array_type param.items else some type

abbrev pub is_boolean_type : Option String → Bool
is_boolean_type none = false
is_boolean_type (some t) = to_lower_case t == "boolean"

abbrev pub allowable_of : Bool → Option Allowable → Option Allowable
allowable_of true given =
    some (record {
      value_type = none;
      values = some (item (str "true") (item (str "false") no_items));
    })
allowable_of false given = given

abbrev pub with_default : Option Value → Value → String × Bool
with_default default v = (to_string v, is_same v default)

abbrev pub mark_all : Option Value → Option Items → List (String × Bool)
mark_all default none = []
mark_all default (some vs) = map (with_default default) (to_list vs)

-- The default of an enum counts only where it is set.
abbrev pub set_default : Option Value → Option Value
set_default default = if is_set default then default else none

-- No value counts as the default where that is null.
abbrev pub not_null : Option Value → Option Value
not_null (some null) = none
not_null default = default

abbrev pub with_values :
    Option Items → Option Allowable → Option Value → ShownParameter → ShownParameter
with_values (some enum) allowable default p = record p {
  is_list = true;
  descriptive = some (mark_all (set_default default) (some enum));
}
with_values none none default p = p
with_values none (some allowable) default p =
    let is_range = is_type_name "RANGE" allowable.value_type in
    record p {
      is_range = is_range;
      is_list = not is_range;
      descriptive = some (mark_all (not_null default) allowable.values);
    }

-- One turn of the loop over the parameters; `none` is a TypeError.
unfoldable pub show_listed_parameter : Dict ListedModel → RawParameter → Option ShownParameter
unfolding get_listed_signature get_sample_json to_string is_same to_lower_case
show_listed_parameter models param = go_on (parameter_type param) (λ type.
    go_on (get_listed_signature models type) (λ signature.
      go_on (get_sample_json models type) (λ sample. some (
        with_values param.enum (allowable_of (is_boolean_type type) param.allowable)
          param.default_value
          (record {
            name = or_text param.name (or_text param.type param.data_type);
            param_type = param.param_type;
            type = type;
            is_list = false;
            is_range = false;
            descriptive = none;
            signature = signature;
            sample_json = sample;
          })))))

unfoldable pub show_listed_parameters :
    Dict ListedModel → List RawParameter → Option (List ShownParameter)
unfolding show_listed_parameter
show_listed_parameters models [] = some []
show_listed_parameters models (param ∷ params) =
    go_on (show_listed_parameter models param)
      (λ p. go_on (show_listed_parameters models params) (λ ps. some (p ∷ ps)))
