-- ===== src/Schema.antt =====
-- lib/swagger-client.js: the types of schemas (simpleRef, typeFromJsonSchema, getStringSignature and
-- Operation.getType).
pub mod Property
pub mod Signature
pub mod Sample
use Prim.Native.String.{◌++◌}
use common_services_common_u.Base.{
  String, Bool, true, false, ◌&&◌, Option, none, some, List, [], ◌∷◌, ◌==◌, if◌then◌else◌, is_some,
}
use common_services_common_u.Js.Text.{strip_prefix}
use common_services_common_u.Js.Value.{Value, has_text}

-- A schema but for its items. A limit that is not given is `none`, and `source` is the object that
-- was read.
pub record Facets : Type 0 where
  pub ref : Option String
  pub type : Option String
  pub format : Option String
  pub description : Option String
  pub default : Option Value
  pub example : Option Value
  pub enum : Option (List Value)
  pub collection_format : Option Value
  pub maximum : Option Value
  pub exclusive_maximum : Option Value
  pub minimum : Option Value
  pub exclusive_minimum : Option Value
  pub max_length : Option Value
  pub min_length : Option Value
  pub pattern : Option Value
  pub max_items : Option Value
  pub min_items : Option Value
  pub unique_items : Option Value
  pub multiple_of : Option Value
  pub source : Value

mutual
  pub data Schema : Type 0 where
    schema : Facets → SchemaItems → Schema

  pub data SchemaItems : Type 0 where
    no_schema : SchemaItems
    items_of : Schema → SchemaItems

abbrev pub or_text : String → Option String → String
or_text d none = d
or_text d (some s) = s

-- simpleRef, of a name that is not undefined.
unfoldable pub simple_ref : String → String
simple_ref name = or_text name (strip_prefix "#/definitions/" name)

abbrev pub is : String → Option String → Bool
is t none = false
is t (some s) = s == t

abbrev pub is_undefined : Option String → Bool
is_undefined none = true
is_undefined (some s) = false

unfoldable pub type_from_json_schema : Option String → Option String → Option String
type_from_json_schema type format =
    if is "integer" type && is "int32" format
    then some "integer"
    else if is "integer" type && is "int64" format
    then some "long"
    else if is "integer" type && is_undefined format
    then some "long"
    else if is "string" type && is "date-time" format
    then some "date-time"
    else if is "string" type && is "date" format
    then some "date"
    else if is "number" type && is "float" format
    then some "float"
    else if is "number" type && is "double" format
    then some "double"
    else if is "number" type && is_undefined format
    then some "double"
    else if is "boolean" type
    then some "boolean"
    else if is "string" type
    then some "string"
    else none

-- The branches of getStringSignature for a type that is no array and that is given.
unfoldable pub plain_signature : String → Option String → String
plain_signature type format =
    if type == "integer" && is "int32" format
    then "integer"
    else if type == "integer" && is "int64" format
    then "long"
    else if type == "integer" && is_undefined format
    then "long"
    else if type == "string" && is "date-time" format
    then "date-time"
    else if type == "string" && is "date" format
    then "date"
    else if type == "string" && is_undefined format
    then "string"
    else if type == "number" && is "float" format
    then "float"
    else if type == "number" && is "double" format
    then "double"
    else if type == "number" && is_undefined format
    then "double"
    else if type == "boolean"
    then "boolean"
    else type

abbrev pub typed_signature : Bool → String → Option String → String → String
typed_signature base type format inner =
    if type == "array"
    then if base then inner else "Array[" ++ (inner ++ "]")
    else plain_signature type format

abbrev pub signature_of : Bool → Option String → Option String → Option String → String → String
signature_of base (some ref) type format inner = simple_ref ref
signature_of base none none format inner = "object"
signature_of base none (some type) format inner = typed_signature base type format inner

-- `base` leaves out the name of the outermost array.
unfoldable mutual
  unfolding simple_ref plain_signature

  pub get_string_signature : Bool → Schema → String
  get_string_signature base (schema f items) =
      signature_of base f.ref f.type f.format (items_signature items)

  -- Items that are missing are `{}`.
  pub items_signature : SchemaItems → String
  items_signature no_schema = "object"
  items_signature (items_of s) = get_string_signature false s

-- What getType answers: a name, an array of one answer, or undefined.
pub data TypeName : Type 0 where
  undefined_type : TypeName
  named : String → TypeName
  list_of : TypeName → TypeName

unfoldable pub plain_type : Option String → Option String → Option String
plain_type type format =
    if is "integer" type && is "int32" format
    then some "integer"
    else if is "integer" type && is "int64" format
    then some "long"
    else if is "integer" type
    then some "integer"
    else if is "string" type
    then some (
        if is "date-time" format
        then "date-time"
        else if is "date" format
        then "date"
        else "string")
    else if is "number" type && is "float" format
    then some "float"
    else if is "number" type && is "double" format
    then some "double"
    else if is "number" type
    then some "double"
    else if is "boolean" type
    then some "boolean"
    else none

abbrev pub or_undefined : Option String → TypeName
or_undefined none = undefined_type
or_undefined (some s) = named s

abbrev pub own_type : Option String → Option String → TypeName → TypeName
own_type type format inner =
    if is "array" type then inner else or_undefined (plain_type type format)

-- `if (param.$ref) str = param.$ref`
abbrev pub type_or_ref : Option String → TypeName → TypeName
type_or_ref ref t = if has_text ref then named (or_text "" ref) else t

abbrev pub wrap : Bool → TypeName → TypeName
wrap true t = list_of t
wrap false t = t

-- Operation.getType, of a parameter or schema with no `schema` of its own.
unfoldable mutual
  unfolding plain_type

  pub get_type : Schema → TypeName
  get_type (schema f items) =
      wrap (is "array" f.type) (type_or_ref f.ref (own_type f.type f.format (items_type items)))

  pub items_type : SchemaItems → TypeName
  items_type no_schema = undefined_type
  items_type (items_of s) = get_type s

-- Operation.getType, of a parameter; the second schema is its own.
unfoldable pub get_parameter_type : Schema → Option Schema → TypeName
unfolding get_type simple_ref
get_parameter_type param none = get_type param
get_parameter_type (schema f items) (some (schema g more)) =
    if has_text g.ref
    then wrap (is "array" f.type) (named (simple_ref (or_text "" g.ref)))
    else get_type (schema g more)
