-- ===== src/Operation/Payload.antt =====
-- lib/swagger-client.js, Operation: getMissingParams and getBody.
pub mod Missing
pub mod Form
pub mod Multipart
use Prim.Native.String.{◌++◌}
use mathlib.Core.List
use common_services_common_u.Base.{
  ℕ, String, Bool, true, false, ◌&&◌, ◌||◌, not, Option, none, some, List, [], ◌∷◌, ◌==◌,
  if◌then◌else◌, is_some,
}
use common_services_common_u.Js.Text.{contains}
use common_services_common_u.Js.Dict.{Dict, get, put, delete}
use common_services_common_u.Js.Value.{
  Value, null, arr, str, obj, Fields, get_field, is_set, to_string, truthy,
}
use common_services_common_u.Js.Uri.{encode_uri_component}
use common_services_common_u.Request.{Body, no_body, value, form_data}
use common_services_common_u.Operation.Types.{Parameter, Operation}
use common_services_common_u.Operation.ContentTypes.{is_urlencoded}

-- `missingParams`: the empty array (`none`), or the name of one parameter.
unfoldable pub missing_from : Dict Value → List Parameter → Option String → Option String
missing_from args [] missing = missing
missing_from args (param ∷ params) missing =
    missing_from args params
      (if param.required && not (is_some (get param.name args)) then some param.name else missing)

unfoldable pub get_missing_params : Operation → Dict Value → Option String
unfolding missing_from
get_missing_params op args = missing_from args op.parameters none

-- `body` and `formParams`
pub record Parts : Type 0 where
  pub body : Body
  pub form_params : Dict Value

unfoldable pub add_part : Parameter → Option Value → Parts → Parts
add_part param none p = p
add_part param (some v) p =
    if param.location == "body"
    then record p { body = value v }
    else if param.location == "formData"
    then record p { form_params = put param.name v p.form_params }
    else p

unfoldable pub add_parts : Dict Value → List Parameter → Parts → Parts
unfolding add_part
add_parts args [] p = p
add_parts args (param ∷ params) p = add_parts args params (add_part param (get param.name args) p)

-- The loop that writes the form parameters as application/x-www-form-urlencoded.
unfoldable pub encode_form : Dict Value → String → String
encode_form [] encoded = encoded
encode_form ((key, v) ∷ form) encoded = encode_form form (
    (if encoded == "" then encoded else encoded ++ "&")
    ++ (encode_uri_component key ++ ("=" ++ encode_uri_component (to_string v))))

-- The `value` of an argument that is a file, if it is set.
abbrev pub file_type : Option Value → Bool
file_type (some (str s)) = s == "file"
file_type _ = false

abbrev pub set_only : Option Value → Option Value
set_only none = none
set_only (some v) = if truthy v then some v else none

abbrev pub file_value : Value → Option Value
file_value (obj fs) =
    if file_type (get_field "type" fs) then set_only (get_field "value" fs) else none
file_value v = none

-- One part of a FormData; a file takes the content type off the headers.
abbrev pub append_part :
    String
    → Value
    → Option Value
    → Dict Value × List (String × Value)
    → Dict Value × List (String × Value)
append_part key v none (headers, parts) = (headers, List.◌++◌ parts ((key, v) ∷ []))
append_part key v (some file) (headers, parts) =
    (delete "Content-Type" headers, List.◌++◌ parts ((key, file) ∷ []))

-- `none` is the TypeError of `null.type`.
unfoldable pub append_parts :
    Dict Value → Dict Value × List (String × Value) → Option (Dict Value × List (String × Value))
append_parts [] acc = some acc
append_parts ((key, null) ∷ form) acc = none
append_parts ((key, v) ∷ form) acc = append_parts form (append_part key v (file_value v) acc)

abbrev pub form_result : Option (Dict Value × List (String × Value)) → Option (Dict Value × Body)
form_result none = none
form_result (some (headers, parts)) = some (headers, form_data parts)

-- `headers['Content-Type'] && headers['Content-Type'].indexOf('multipart/form-data') >= 0`, for a
-- content type that is a text or is not set.
abbrev pub is_multipart : Option Value → Bool
is_multipart (some (str s)) = contains "multipart/form-data" s
is_multipart _ = false

abbrev pub is_urlencoded? : Option Value → Bool
is_urlencoded? none = false
is_urlencoded? (some v) = is_urlencoded v

-- The headers, from which a file may take the content type, and the body. `none` is a TypeError.
unfoldable pub get_body :
    Operation → Dict Value → Dict Value → Dict Value → Option (Dict Value × Body)
unfolding add_parts encode_form append_parts
get_body op headers args opts =
    let p = add_parts args op.parameters (record { body = no_body; form_params = [] }) in
    if is_urlencoded? (get "Content-Type" headers)
    then some (headers, value (str (encode_form p.form_params "")))
    else if is_multipart (get "Content-Type" headers) && is_set (get "useJQuery" opts)
    then form_result (append_parts p.form_params (headers, []))
    else some (headers, p.body)
