-- ===== src/Listing/Curl.antt =====
-- lib/swagger-client.js, SwaggerOperation.asCurl: the command for a call of an older description. It calls
-- setHeaders of SwaggerRequest on the prototype, which has none of the fields of a request.
pub mod Laws
use Prim.Native.String.{◌++◌}
use mathlib.Core.List
use common_services_common_u.Base.{
  ℕ, ◌+◌, String, Bool, true, false, ◌&&◌, Option, none, some, List, [], ◌∷◌, ◌==◌, ltb, map,
  if◌then◌else◌,
}
use common_services_common_u.Js.Text.{join}
use common_services_common_u.Js.Dict.{Dict, get, put}
use common_services_common_u.Js.Value.{Value, null, str, is_set, truthy, to_string}
use common_services_common_u.Operation.ContentTypes.{
  Scan, start, urlencoded, produces_message, write_types,
}
use common_services_common_u.Client.{go_on}
use common_services_common_u.Listing.{Parameter, put_set}
use common_services_common_u.Listing.Urlify.{listed_url}
use common_services_common_u.Listing.Call.{ListedOperation}

-- The loop of setHeaders over the parameters; `none` is the TypeError of `this.params.headers`.
unfoldable pub scan_bare : List Parameter → Scan → Option Scan
scan_bare [] s = some s
scan_bare (param ∷ params) s =
    if param.param_type == "form"
    then scan_bare params (record s { form_params = s.form_params + 1 })
    else if param.param_type == "file"
    then scan_bare params (record s { file_params = s.file_params + 1 })
    else if param.param_type == "header"
    then none
    else scan_bare params s

-- `consumes`, where `this.type` is undefined.
abbrev pub bare_consumes : Scan → Value
bare_consumes s =
    if ltb 0 s.form_params
    then (if ltb 0 s.file_params then str "multipart/form-data" else str urlencoded)
    else null

-- The rest of setHeaders: the headers and the messages to the log. `none` is the TypeError of
-- `this.operation.consumes`.
abbrev pub bare_types : Option (List String) → Scan → Option (Dict Value × List String)
bare_types produces s =
    let consumes = bare_consumes s in
    let accepts = str "application/json" in
    if truthy consumes
    then none
    else some (write_types consumes accepts s, produces_message accepts produces)

unfoldable pub set_headers_bare :
    Dict Value → List Parameter → Option (List String) → Option (Dict Value × List String)
unfolding scan_bare write_types
set_headers_bare args params produces =
    go_on (scan_bare params (record start { body = get "body" args })) (bare_types produces)

-- The loop of asCurl over the parameters.
unfoldable pub put_headers : Dict Value → List Parameter → Dict Value → Dict Value
unfolding get put
put_headers args [] headers = headers
put_headers args (param ∷ params) headers = put_headers args params (
    if param.param_type == "header"
    then put_set param.name (get param.name args) headers
    else headers)

abbrev pub header_word : String × Value → String
header_word (key, v) = "--header \"" ++ (key ++ (": " ++ (to_string v ++ "\"")))

abbrev pub curl_words : Dict Value → String → String
curl_words headers url = "curl " ++ (join " " (map header_word headers) ++ (" " ++ url))

abbrev pub curl_at : Dict Value → Option String → Option String
curl_at headers none = none
curl_at headers (some url) = some (curl_words headers url)

-- The command; `none` is an exception, of setHeaders or of urlify.
unfoldable pub listed_as_curl : ListedOperation → Dict Value → Option String
unfolding set_headers_bare put_headers listed_url
listed_as_curl op args =
    go_on (set_headers_bare args op.parameters op.produces) λ (headers, messages).
      curl_at (put_headers args op.parameters headers)
        (listed_url op.base_path op.path op.parameters args)
