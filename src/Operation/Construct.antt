-- ===== src/Operation/Construct.antt =====
-- lib/swagger-client.js, the constructor Operation: what it makes of the flag `deprecated`, of the
-- values that a parameter may have, and of the response that stands for success.
use Prim.Native.String.{[], ◌∷◌}
use common_services_common_u.Base.{
  String, Bool, true, false, ◌&&◌, ◌||◌, not, Option, none, some, List, [], ◌∷◌, map, ◌==◌, ◌=?◌,
  if◌then◌else◌, is_some,
}
use common_services_common_u.Js.Text.{to_lower_case}
use common_services_common_u.Js.Dict.{Dict, get, delete}
use common_services_common_u.Js.Value.{Value, null, bool, num, str}
use common_services_common_u.Models.{Model}
use common_services_common_u.Schema.{Schema, is, TypeName, list_of, get_parameter_type}
use common_services_common_u.Schema.Property.{facets, Definition}
use common_services_common_u.Schema.Signature.{type_text, resolve_model}

abbrev pub flag_of : String → String → Bool
flag_of s lower =
    if lower == "true" || lower == "yes" || lower == "1"
    then true
    else if lower == "false" || lower == "no" || lower == "0"
    then false
    else not (s == "")

-- `this.deprecated`
unfoldable pub deprecated_of : Option Value → Option Value
deprecated_of (some (str s)) = some (bool (flag_of s (to_lower_case s)))
deprecated_of v = v

-- `v === w` for values of which the second may be undefined; two objects are not the same one.
unfoldable pub is_same : Value → Option Value → Bool
is_same null (some null) = true
is_same (bool true) (some (bool b)) = b
is_same (bool false) (some (bool b)) = not b
is_same (num m) (some (num n)) = m =? n
is_same (str s) (some (str t)) = s == t
is_same _ _ = false

-- What the page shows of a parameter: `allowableValues` holds each value with `isDefault`.
pub record Shown : Type 0 where
  pub is_list : Bool
  pub allow_multiple : Bool
  pub enum : Option (List Value)
  pub allowable_values : Option (List (Value × Bool))

abbrev pub is_boolean : TypeName → Bool
is_boolean t = to_lower_case (type_text t) == "boolean"

abbrev pub mark_default : Option Value → Value → Value × Bool
mark_default default v = (v, is_same v default)

abbrev pub allowable : Option Value → Option (List Value) → Option (List (Value × Bool))
allowable default none = none
allowable default (some values) = some (map (mark_default default) values)

abbrev pub drop_list : Bool → Shown → Shown
drop_list is_array s =
    if is_array && not (is_some s.allowable_values)
    then record s { is_list = false; allow_multiple = false }
    else s

-- The loop over the parameters, for a parameter and its `schema`.
unfoldable pub show_parameter : Schema → Option Schema → Shown
unfolding is_same
show_parameter param own =
    let f = facets param in
    let is_array = is "array" f.type in
    let boolean = is_boolean (get_parameter_type param own) in
    let enum : Option (List Value) =
      if boolean then some (str "true" ∷ str "false" ∷ []) else f.enum in
    drop_list is_array (record {
      is_list = is_array || boolean;
      allow_multiple = is_array;
      enum = enum;
      allowable_values = allowable f.default enum;
    })

-- The type whose signature the parameter has.
abbrev pub shown_type : Schema → Option Schema → TypeName
shown_type param own =
    let type = get_parameter_type param own in
    if is "array" (facets param).type then list_of type else type

-- A response of the description: its schema, if it has one.
pub record Response : Type 0 where
  pub schema_of : Option Schema

-- The codes that stand for success, in the order of the tests.
abbrev pub success_codes : List String
success_codes = "200" ∷ "201" ∷ "202" ∷ "203" ∷ "204" ∷ "205" ∷ "206" ∷ "default" ∷ []

abbrev pub found_or :
    String → Option Response → Option (String × Response) → Option (String × Response)
found_or c none later = later
found_or c (some r) later = some (c, r)

-- `defaultResponseCode` and `response`
unfoldable pub first_response : List String → Dict Response → Option (String × Response)
first_response [] responses = none
first_response (c ∷ codes) responses =
    let later = first_response codes responses in found_or c (get c responses) later

-- An item of `successResponse`: a model, or the type of the schema.
pub data Success : Type 0 where
  a_model : Model → Success
  a_type : Option String → Success

abbrev pub success_of : Option String → Option Model → Success
success_of type none = a_type type
success_of type (some m) = a_model m

abbrev pub take_schema :
    Dict Definition
    → Dict Response
    → String
    → Option Schema
    → Dict Response × Option (String × Success)
take_schema definitions responses c none = (responses, none)
take_schema definitions responses c (some s) =
    (delete c responses, some (c, success_of (facets s).type (resolve_model s definitions)))

-- The responses that are left, and `successResponse`.
abbrev pub take_success :
    Dict Definition
    → Dict Response
    → Option (String × Response)
    → Dict Response × Option (String × Success)
take_success definitions responses none = (responses, none)
take_success definitions responses (some (c, r)) = take_schema definitions responses c r.schema_of

unfoldable pub success_response :
    Dict Definition → Dict Response → Dict Response × Option (String × Success)
unfolding first_response
success_response definitions responses =
    take_success definitions responses (first_response success_codes responses)
