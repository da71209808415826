-- ===== src/Tests/Models.antt =====
-- Signatures of models that refer to each other, and the types of schemas.
use Prim.Native.String.{◌++◌}
use common_services_common_u.Base.{String, ◌≡◌, refl, true, false, none, some, List, [], ◌∷◌, arith}
use common_services_common_u.Js.Dict.{Dict, get}
use common_services_common_u.Models.{
  Model, object_model, array_model, Property, get_mock_signature, class_text,
}
use common_services_common_u.Models.Total.{get_mock_signature_total}
use common_services_common_u.Models.Printed.{IsPrinted, get_mock_signature-IsPrinted}
use common_services_common_u.Js.Value.{
  arr, item, no_items, obj, no_fields, field, set_field, null, num, str, to_string, item_strings,
}
use common_services_common_u.Schema.{
  Facets, Schema, schema, no_schema, simple_ref, get_string_signature, plain_signature, named,
  get_type, plain_type,
}
use common_services_common_u.Schema.Property.{new_property, property_text, option_rows, option_html}
use common_services_common_u.Js.Text.{strip_prefix}
use common_services_common_u.Schema.Sample.{
  Sampled, object_of, array_of as self_array, sampled, get_sample_value, sample_properties,
  sample_value, value_of_type, create_json_sample,
}

abbrev to_model : String → Property
to_model ref = record { text = ref; ref = some ref }

abbrev pet : Model
pet = object_model "Pet" (to_model "Owner" ∷ to_model "Tags" ∷ to_model "Pet" ∷ [])

abbrev owner : Model
owner = object_model "Owner" (to_model "Pet" ∷ to_model "List" ∷ to_model "Tags" ∷ [])

abbrev models : Dict Model
models = ("Pet", pet) ∷ ("Owner", owner) ∷ ("Tags", array_model) ∷ ("List", array_model) ∷ []

get_mock_signature_total_example :
    (text : String) × (after : List String) × (get_mock_signature models 5 pet []
      ≡ some (text, after))
get_mock_signature_total_example = get_mock_signature_total models 5 pet [] (omega arith)

-- The second of two array models is left out: both have the name "arrayModel".
the_names :
    get_mock_signature models 5 pet []
    ≡ some (
      class_text pet ++ ("<br>" ++ (class_text owner ++ ("<br>" ++ class_text array_model))),
      "Pet" ∷ "Owner" ∷ "arrayModel" ∷ [],
    )
unfolding get_mock_signature get
the_names = refl

get_mock_signature-IsPrinted_example :
    IsPrinted models pet []
      (class_text pet ++ ("<br>" ++ (class_text owner ++ ("<br>" ++ class_text array_model))))
      ("Pet" ∷ "Owner" ∷ "arrayModel" ∷ [])
get_mock_signature-IsPrinted_example = get_mock_signature-IsPrinted models 5 pet [] _ _ the_names

abbrev pub no_facets : Facets
no_facets = record {
  ref = none;
  type = none;
  format = none;
  description = none;
  default = none;
  example = none;
  enum = none;
  collection_format = none;
  maximum = none;
  exclusive_maximum = none;
  minimum = none;
  exclusive_minimum = none;
  max_length = none;
  min_length = none;
  pattern = none;
  max_items = none;
  min_items = none;
  unique_items = none;
  multiple_of = none;
  source = null;
}

-- The two functions disagree on an integer with no format.
abbrev integer : Schema
integer = schema (record no_facets { type = some "integer" }) no_schema

unformatted : (get_string_signature false integer ≡ "long") × (get_type integer ≡ named "integer")
unfolding get_string_signature plain_signature get_type plain_type
unformatted = (refl, refl)

abbrev tag : Schema
tag =
    schema
      (record no_facets {
        type = some "string";
        max_length = some (num 9);
        enum = some (str "a" ∷ str "b" ∷ []);
      })
      no_schema

tag_text :
    property_text (new_property "tag" tag true)
    ≡ "<span class=\"propWrap\"><span class=\"propName true\">tag</span> (<span class=\"propType\">string</span>) = <span class=\"propVals\">['a' or 'b']</span><table class=\"optionsWrapper\"><tr><th colspan=\"2\">tag</th></tr><tr><td class=\"optionName\">Max. Length:</td><td>9</td></tr><tr><td class=\"optionName\">Enum:</td><td>\"a\", \"b\"</td></tr></table></span>"
unfolding property_text new_property option_rows option_html get_string_signature plain_signature
    to_string item_strings
tag_text = refl

abbrev tree : Sampled
tree = self_array none (some "#/definitions/Tree")

abbrev box : Sampled
box = object_of "Box" (
    new_property "tag" tag true
    ∷ new_property "box" (schema (record no_facets { ref = some "#/definitions/Box" }) no_schema)
        false
    ∷ [])

-- A model that refers to itself is sampled down to its name, the second time.
sampled_box :
    get_sample_value "" (("Box", box) ∷ []) 2 box ("Box" ∷ [])
    ≡ sampled
        (obj (field "tag" (str "string") (field "box" (str "Box") no_fields)))
        (record { ignored = "Box" ∷ "string" ∷ "Box" ∷ []; representations = [] })
unfolding get_sample_value sample_properties sample_value value_of_type new_property
    get_string_signature plain_signature simple_ref strip_prefix get set_field
sampled_box = refl

-- Here the array of itself ends, by its name.
created :
    create_json_sample "" (("Tree", tree) ∷ []) 9 tree []
    ≡ sampled
        (arr (item (str "Tree") no_items))
        (record { ignored = "Tree" ∷ []; representations = [] })
unfolding create_json_sample get simple_ref strip_prefix
created = refl
