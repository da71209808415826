-- ===== src/Listing/Model.antt =====
-- lib/swagger-client.js, SwaggerModel and SwaggerModelProperty: the models of a description of version
-- 1.1 or 1.2, their signatures and their samples.
pub mod Total
pub mod Sample
pub mod Samples
use Prim.Native.String.{◌++◌}
use mathlib.Core.List
use common_services_common_u.Base.{
  ℕ, zero, suc, String, Bool, true, false, ◌||◌, Option, none, some, List, [], ◌∷◌, map, ◌==◌,
  if◌then◌else◌, is_some, any,
}
use common_services_common_u.Js.Text.{join, to_lower_case}
use common_services_common_u.Js.Dict.{Dict, get}
use common_services_common_u.Js.Value.{
  Value, null, bool, num, str, arr, obj, Items, no_items, item, Fields, no_fields, field, set_field,
  item_strings, is_set, has_text,
}
use common_services_common_u.Models.{
  object_model, has_name, heading, properties_of, text_of, name_of, Signature, Call,
}
use common_services_common_u.Models

-- The fields of a property that the constructor reads.
pub record RawProperty : Type 0 where
  pub type : Option String
  pub data_type : Option String
  pub ref : Option String
  pub description : Option String
  pub required : Bool
  pub items_type : Option String
  pub items_ref : Option String
  pub allowable : Option Items
  pub enum : Option Items

-- SwaggerModelProperty; `ref_model` is the key under which the model it refers to was found.
pub record ModelProperty : Type 0 where
  pub name : String
  pub data_type : Option String
  pub is_collection : Bool
  pub descr : Option String
  pub required : Bool
  pub default_value : Option Value
  pub ref_data_type : Option String
  pub data_type_with_ref : Option String
  pub values : Option Items
  pub ref_model : Option String

abbrev pub or_text : Option String → Option String → Option String
or_text a b = if has_text a then a else b

abbrev pub is_collection_name : String → Bool
is_collection_name t = t == "array" || t == "list" || t == "set"

abbrev pub names_collection : Option String → Bool
names_collection none = false
names_collection (some t) = is_collection_name (to_lower_case t)

abbrev pub shown : Option String → String
shown none = "undefined"
shown (some t) = t

abbrev pub with_ref : Option String → Option String → Option String
with_ref data_type ref_data_type =
    if has_text ref_data_type
    then some (shown data_type ++ ("[" ++ (shown ref_data_type ++ "]")))
    else data_type

abbrev pub first_items : Option Items → Option Items → Option Items
first_items none b = b
first_items (some a) b = some a

-- The constructor of SwaggerModelProperty. With no macro set by the page the default value is that of
-- the model, which has none.
unfoldable pub new_model_property : String → RawProperty → ModelProperty
unfolding to_lower_case
new_model_property name o =
    let data_type = or_text o.type (or_text o.data_type o.ref) in
    let ref_data_type = or_text o.items_ref (or_text o.items_type none) in
    record {
      name = name;
      data_type = data_type;
      is_collection = names_collection data_type;
      descr = o.description;
      required = o.required;
      default_value = none;
      ref_data_type = ref_data_type;
      data_type_with_ref = with_ref data_type ref_data_type;
      values = first_items o.enum o.allowable;
      ref_model = none;
    }

pub record ListedModel : Type 0 where
  pub name : String
  pub properties : List ModelProperty

-- The loop over `obj.required`.
abbrev pub is_required : List String → String → RawProperty → RawProperty
is_required required name o = record o { required = o.required || has_name name required }

abbrev pub new_properties : List String → Dict RawProperty → List ModelProperty
new_properties required [] = []
new_properties required ((name, o) ∷ properties) =
    new_model_property name (is_required required name o) ∷ new_properties required properties

-- The constructor of SwaggerModel, of `id`, `required` and `properties` of its object.
unfoldable pub new_listed_model :
    String → Option String → List String → Dict RawProperty → ListedModel
unfolding new_model_property
new_listed_model model_name id required properties = record {
  name = elim id [ none ↦ model_name | some id ↦ id ];
  properties = new_properties required properties;
}

-- The end of a property's text.
abbrev pub values_text : Option Items → String
values_text none = ""
values_text (some vs) =
    " = <span class=\"propVals\">['" ++ (join "' or '" (item_strings vs) ++ "']</span>")

abbrev pub descr_text : Option String → String
descr_text none = ""
descr_text (some t) = if t == "" then "" else ": <span class=\"propDesc\">" ++ (t ++ "</span>")

-- SwaggerModelProperty.toString
unfoldable pub model_property_text : ModelProperty → String
unfolding item_strings
model_property_text p =
    "<span class=\"propName "
    ++ ((if p.required then "propReq" else "propOpt")
        ++ ("\">"
            ++ (p.name
                ++ ("</span> (<span class=\"propType\">"
                    ++ (shown p.data_type_with_ref
                        ++ ("</span>"
                            ++ ((if p.required
                                  then ""
                                  else ", <span class=\"propOptKey\">optional</span>")
                                ++ (")" ++ (values_text p.values ++ descr_text p.descr)))))))))

-- `models[k]` for a key that may be undefined.
abbrev pub find {ℓ} : {V : Type ℓ} → Dict V → Option String → Option V
find models none = get "undefined" models
find models (some key) = get key models

-- One turn of the loop of setReferencedModels: the key under which a model was found.
abbrev pub refer_to : Bool → Bool → ModelProperty → ModelProperty
refer_to true _ p = record p { ref_model = some (shown p.data_type) }
refer_to false true p = record p { ref_model = p.ref_data_type }
refer_to false false p = p

module _ {ℓ} {V : Type ℓ} (all_models : Dict V) where
  abbrev pub has_model : Option String → Bool
  has_model key = is_some (find all_models key)

  abbrev pub has_ref_model : Option String → Bool
  has_ref_model none = false
  has_ref_model (some key) = if key == "" then false else has_model (some key)

  abbrev pub refer : ModelProperty → ModelProperty
  refer p = refer_to (has_model p.data_type) (has_ref_model p.ref_data_type) p

  -- SwaggerModel.setReferencedModels
  unfoldable pub set_referenced_models : ListedModel → ListedModel
  unfolding get
  set_referenced_models m = record m { properties = map refer m.properties }

-- What a model shows of itself.
abbrev pub property_of : ModelProperty → Models.Property
property_of p = record { text = model_property_text p; ref = p.ref_model }

abbrev pub shape_of : ListedModel → Models.Model
shape_of m = object_model m.name (map property_of m.properties)

abbrev pub shapes : Dict ListedModel → Dict Models.Model
shapes [] = []
shapes ((key, m) ∷ models) = (key, shape_of m) ∷ shapes models

-- `classOpen + … + classClose`; the name of a model is that of its shape.
abbrev pub listed_class_text : Models.Model → String
listed_class_text m =
    "<span class=\"strong\">"
    ++ (heading m
        ++ (" {</span><div>"
            ++ (join ",</div><div>" (map text_of (properties_of m))
                ++ "</div><span class=\"strong\">}</span>")))

-- `returnVal + ('<br>' + …)`
abbrev pub append_text : String → Signature → (String → List String → Signature) → Signature
append_text text none later = none
append_text text (some (t, ignored)) later = later (text ++ ("<br>" ++ t)) ignored

-- The body of the loop of getMockSignature.
abbrev pub append_ref :
    Call
    → Option Models.Model
    → String
    → List String
    → (String → List String → Signature)
    → Signature
append_ref call none text ignored later = later text ignored
append_ref call (some m) text ignored later =
    if has_name (name_of m) ignored
    then later text ignored
    else append_text text (call m ignored) later

module _ (models : Dict ListedModel) where
  abbrev pub ref_model_of : Option String → Option Models.Model
  ref_model_of none = none
  ref_model_of (some key) = get key (shapes models)

  -- The loop over the properties of getMockSignature.
  unfoldable pub append_ref_models :
      (Models.Model → List String → Signature)
      → List Models.Property
      → String
      → List String
      → Signature
  unfolding get
  append_ref_models call [] text ignored = some (text, ignored)
  append_ref_models call (p ∷ ps) text ignored =
      append_ref call (ref_model_of p.ref) text ignored (append_ref_models call ps)

  -- SwaggerModel.getMockSignature; `none` is a call that needs more than `fuel` calls, one in the
  -- other.
  unfoldable pub listed_signature : ℕ → Models.Model → List String → Signature
  unfolding append_ref_models
  listed_signature zero m ignored = none
  listed_signature (suc fuel) m ignored =
      append_ref_models (listed_signature fuel) (properties_of m) (listed_class_text m)
        (List.◌++◌ ignored (name_of m ∷ []))
