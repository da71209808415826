-- ===== src/Schema/Property.antt =====
-- lib/swagger-client.js, Property and Model: the properties of a definition, and the text of each.
use Prim.Native.String.{◌++◌}
use common_services_common_u.Base.{
  String, Bool, true, false, ◌||◌, Option, none, some, List, [], ◌∷◌, ◌==◌, if◌then◌else◌, any,
}
use common_services_common_u.Js.Text.{join, concat}
use common_services_common_u.Js.Dict.{Dict, put}
use common_services_common_u.Js.Value.{Value, items, item_strings, to_string, is_set, has_text}
use common_services_common_u.Js.Json.{stringify}
use common_services_common_u.Models
use common_services_common_u.Models.{Model, object_model, array_model}
use common_services_common_u.Schema.{
  Facets, Schema, schema, SchemaItems, no_schema, items_of, or_text, simple_ref, is,
  get_string_signature,
}

-- The object that `new Property` makes; `obj` is the schema whose fields it takes.
pub record Property : Type 0 where
  pub name : String
  pub schema_of : Schema
  pub obj : Schema
  pub required : Bool
  pub ref : Option String

abbrev pub facets : Schema → Facets
facets (schema f items) = f

abbrev pub property_of_items : String → Schema → Schema → Bool → Property
property_of_items name s inner required =
    if has_text (facets inner).ref
    then record {
      name = name;
      schema_of = s;
      obj = s;
      required = required;
      ref = some (simple_ref (or_text "" (facets inner).ref));
    }
    else record { name = name; schema_of = s; obj = inner; required = required; ref = none }

abbrev pub property_of_array : String → Facets → SchemaItems → Bool → Property
property_of_array name f no_schema required = record {
  name = name;
  schema_of = schema f no_schema;
  obj = schema f no_schema;
  required = required;
  ref = none;
}
property_of_array name f (items_of inner) required =
    property_of_items name (schema f (items_of inner)) inner required

unfoldable pub new_property : String → Schema → Bool → Property
unfolding simple_ref
new_property name (schema f items) required =
    if has_text f.ref
    then record {
      name = name;
      schema_of = schema f items;
      obj = schema f items;
      required = required;
      ref = some (simple_ref (or_text "" f.ref));
    }
    else if is "array" f.type
    then property_of_array name f items required
    else record {
      name = name;
      schema_of = schema f items;
      obj = schema f items;
      required = required;
      ref = none;
    }

unfoldable pub option_html : String → String → String
option_html label value =
    "<tr><td class=\"optionName\">" ++ (label ++ (":</td><td>" ++ (value ++ "</td></tr>")))

-- `if (this.limit) options += optionHtml(label, this.limit)`
abbrev pub option_row : String → Option Value → String
option_row label none = ""
option_row label (some v) = if is_set (some v) then option_html label (to_string v) else ""

-- The same with the text "true" for the value.
abbrev pub true_row : String → Option Value → String
true_row label v = if is_set v then option_html label "true" else ""

-- The type that the options are chosen by.
abbrev pub items_facet_type : SchemaItems → Option String
items_facet_type no_schema = some ""
items_facet_type (items_of inner) = (facets inner).type

abbrev pub option_type : Schema → Option String
option_type (schema f items) = if is "array" f.type then items_facet_type items else f.type

abbrev pub type_rows : Option String → Facets → String
type_rows type f =
    if is "string" type
    then concat (
        option_row "Min. Length" f.min_length
        ∷ option_row "Max. Length" f.max_length
        ∷ option_row "Reg. Exp." f.pattern
        ∷ [])
    else if is "integer" type || is "number" type
    then concat (
        option_row "Min. Value" f.minimum
        ∷ true_row "Exclusive Min." f.exclusive_minimum
        ∷ option_row "Max. Value" f.maximum
        ∷ true_row "Exclusive Max." f.exclusive_maximum
        ∷ option_row "Multiple Of" f.multiple_of
        ∷ [])
    else ""

abbrev pub array_rows : Bool → Facets → String
array_rows false f = ""
array_rows true f = concat (
    option_row "Min. Items" f.min_items
    ∷ option_row "Max. Items" f.max_items
    ∷ true_row "Unique Items" f.unique_items
    ∷ option_row "Coll. Format" f.collection_format
    ∷ [])

abbrev pub enum_rows : Option String → Option (List Value) → String
enum_rows type none = ""
enum_rows type (some values) = option_html "Enum" (
    if is "number" type || is "integer" type
    then join ", " (item_strings (items values))
    else "\"" ++ (join "\", \"" (item_strings (items values)) ++ "\""))

-- `options`
unfoldable pub option_rows : Property → String
unfolding option_html
option_rows p =
    let f = facets p.obj in
    let type = option_type p.schema_of in
    concat (
      option_row "Default" f.default
      ∷ type_rows type f
      ∷ array_rows (is "array" (facets p.schema_of).type) f
      ∷ enum_rows type f.enum
      ∷ [])

abbrev pub signature_text : Property → String
signature_text p =
    let signature = get_string_signature false p.obj in
    if signature == ""
    then p.name ++ (" (" ++ (stringify (facets p.obj).source ++ ")"))
    else concat (
        "<span class=\"propName "
        ∷ (if p.required then "true" else "false")
        ∷ "\">"
        ∷ p.name
        ∷ "</span> (<span class=\"propType\">"
        ∷ signature
        ∷ "</span>"
        ∷ (if p.required then "" else ", <span class=\"propOptKey\">optional</span>")
        ∷ ")"
        ∷ [])

abbrev pub description_text : Option String → String
description_text none = ""
description_text (some s) = ": " ++ s

abbrev pub enum_text : Option (List Value) → String
enum_text none = ""
enum_text (some values) =
    " = <span class=\"propVals\">['" ++ (join "' or '" (item_strings (items values)) ++ "']</span>")

-- Property.prototype.toString; `descr`, which no property has, is left out.
unfoldable pub property_text : Property → String
unfolding option_rows
property_text p =
    let text =
      signature_text p
      ++ (description_text (facets p.obj).description ++ enum_text (facets p.obj).enum) in
    if option_rows p == ""
    then text
    else concat (
        "<span class=\"propWrap\">"
        ∷ text
        ∷ "<table class=\"optionsWrapper\"><tr><th colspan=\"2\">"
        ∷ p.name
        ∷ "</th></tr>"
        ∷ option_rows p
        ∷ "</table></span>"
        ∷ [])

-- A definition of the description.
pub record Definition : Type 0 where
  pub type : Option String
  pub required : List String
  pub properties : Dict Schema

unfoldable pub new_properties : List String → Dict Schema → List Models.Property
unfolding new_property property_text
new_properties required [] = []
new_properties required ((name, s) ∷ props) =
    let p = new_property name s (any (λ r. r == name) required) in
    record { text = property_text p; ref = p.ref } ∷ new_properties required props

-- `new Model(name, definition)`
unfoldable pub new_model : String → Definition → Model
unfolding new_properties
new_model name d =
    if is "array" d.type
    then array_model
    else object_model name (new_properties d.required d.properties)

-- `models[key] = new Model(key, definitions[key])` for every definition.
unfoldable pub add_models : Dict Definition → Dict Model → Dict Model
unfolding put new_model
add_models [] models = models
add_models ((key, d) ∷ definitions) models =
    add_models definitions (put key (new_model key d) models)
