-- ===== src/Operation/ContentTypes.antt =====
-- lib/swagger-client.js, Operation: setContentTypes and getHeaderParams. The messages that a function
-- hands to `log` are returned beside its result.
pub mod Laws
use Prim.Native.String.{◌++◌}
use mathlib.Core.List
use common_services_common_u.Base.{
  ℕ, zero, suc, ◌+◌, String, Bool, true, false, ◌&&◌, ◌||◌, not, Option, none, some, List, [], ◌∷◌,
  ◌==◌, ltb, if◌then◌else◌, any, map,
}
use common_services_common_u.Js.Dict.{Dict, get, put}
use common_services_common_u.Js.Value.{Value, null, arr, str, items, is_set, to_string, truthy}
use common_services_common_u.Js.Json.{stringify}
use common_services_common_u.Operation.Types.{Parameter, Operation}

-- The variables of setContentTypes that its loop over the parameters fills in; of the two lists of
-- form parameters only the lengths are read.
pub record Scan : Type 0 where
  pub form_params : ℕ
  pub file_params : ℕ
  pub body : Option Value
  pub headers : Dict Value

abbrev pub or_else : Option Value → Option Value → Option Value
or_else none old = old
or_else (some v) old = some v

abbrev pub put_defined : String → Option Value → Dict Value → Dict Value
put_defined key none headers = headers
put_defined key (some v) headers = put key v headers

abbrev pub is_text : String → Option String → Bool
is_text s none = false
is_text s (some t) = t == s

unfoldable pub scan_parameter : Dict Value → Dict Value → Parameter → Scan → Scan
scan_parameter args opts param s =
    if param.location == "formData"
    then (if is_text "file" param.type
        then record s { file_params = s.file_params + 1 }
        else record s { form_params = s.form_params + 1 })
    else if param.location == "header"
    then record s { headers = put_defined param.name (get param.name opts) s.headers }
    else if param.location == "body"
    then record s { body = or_else (get param.name args) s.body }
    else s

unfoldable pub scan_parameters : Dict Value → Dict Value → List Parameter → Scan → Scan
unfolding scan_parameter
scan_parameters args opts [] s = s
scan_parameters args opts (param ∷ params) s =
    scan_parameters args opts params (scan_parameter args opts param s)

abbrev pub start : Scan
start = record { form_params = 0; file_params = 0; body = none; headers = [] }

abbrev pub takes_body : String → Bool
takes_body method = method == "post" || method == "put" || method == "patch" || method == "delete"

-- `o || v`
abbrev pub set_or : Option Value → Value → Value
set_or none v = v
set_or (some x) v = if truthy x then x else v

abbrev pub urlencoded : String
urlencoded = "application/x-www-form-urlencoded"

-- The variable `consumes` behind the choice of the content type; `null` is the null of a call that
-- has no body to describe.
unfoldable pub choose_consumes : String → Dict Value → Dict Value → Scan → Value
choose_consumes method args opts s =
    if is_set s.body && takes_body method
    then set_or (get "requestContentType" opts)
        (set_or (get "parameterContentType" args) (str "application/json"))
    else if ltb 0 s.form_params
    then set_or (get "requestContentType" opts)
        (if ltb 0 s.file_params then str "multipart/form-data" else str urlencoded)
    else null

unfoldable pub choose_accepts : Dict Value → Value
choose_accepts opts = set_or (get "responseContentType" opts) (str "application/json")

-- `list.indexOf(v) !== -1`
abbrev pub lists : List String → Value → Bool
lists texts (str s) = any (λ t. t == s) texts
lists texts v = false

abbrev pub list_value : List String → Value
list_value texts = arr (items (map str texts))

abbrev pub consumes_message : Value → Option (List String) → List String
consumes_message v none = []
consumes_message v (some texts) =
    if truthy v && not (lists texts v)
    then ("server doesn't consume " ++ (to_string v ++ (", try " ++ stringify (list_value texts))))
      ∷ []
    else []

abbrev pub produces_message : Value → Option (List String) → List String
produces_message v none = []
produces_message v (some texts) =
    if truthy v && not (lists texts v) then ("server can't produce " ++ to_string v) ∷ [] else []

-- `body !== ''`
abbrev pub is_not_empty_text : Option Value → Bool
is_not_empty_text (some (str s)) = not (s == "")
is_not_empty_text _ = true

abbrev pub is_urlencoded : Value → Bool
is_urlencoded (str s) = s == urlencoded
is_urlencoded v = false

abbrev pub put_if : Bool → String → Value → Dict Value → Dict Value
put_if b key v headers = if b then put key v headers else headers

unfoldable pub write_types : Value → Value → Scan → Dict Value
write_types consumes accepts s = put_if (truthy accepts) "Accept" accepts (
    put_if (truthy consumes && is_not_empty_text s.body || is_urlencoded consumes) "Content-Type"
      consumes s.headers)

-- The headers, and the messages that are logged.
unfoldable pub set_content_types : Operation → Dict Value → Dict Value → Dict Value × List String
unfolding scan_parameters choose_consumes choose_accepts write_types
set_content_types op args opts =
    let s = scan_parameters args opts op.parameters start in
    let consumes = choose_consumes op.method args opts s in
    let accepts = choose_accepts opts in
    (
      write_types consumes accepts s,
      List.◌++◌ (consumes_message consumes op.consumes) (produces_message accepts op.produces),
    )

-- `if (Array.isArray(value)) value = value.toString()`
abbrev pub header_value : Value → Value
header_value (arr xs) = str (to_string (arr xs))
header_value v = v

abbrev pub put_header : String → Option Value → Dict Value → Dict Value
put_header name none headers = headers
put_header name (some v) headers = put name (header_value v) headers

unfoldable pub add_header_params : Dict Value → List Parameter → Dict Value → Dict Value
add_header_params args [] headers = headers
add_header_params args (param ∷ params) headers = add_header_params args params (
    if param.location == "header"
    then put_header param.name (get param.name args) headers
    else headers)

unfoldable pub get_header_params : Operation → Dict Value → Dict Value × List String
unfolding set_content_types add_header_params
get_header_params op args =
    let (headers, messages) = set_content_types op args [] in
    (add_header_params args op.parameters headers, messages)
