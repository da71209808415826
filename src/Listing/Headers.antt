-- ===== src/Listing/Headers.antt =====
-- lib/swagger-client.js, SwaggerRequest.setHeaders: the headers of a request for an operation of
-- version 1.1 or 1.2.
use mathlib.Core.List
use common_services_common_u.Base.{
  ◌+◌, String, Bool, ◌&&◌, ◌||◌, Option, none, some, List, [], ◌∷◌, ◌==◌, ltb, if◌then◌else◌,
}
use common_services_common_u.Js.Dict.{Dict, get}
use common_services_common_u.Js.Value.{Value, null, str, is_set}
use common_services_common_u.Listing.{Parameter}
use common_services_common_u.Operation.ContentTypes.{
  Scan, start, set_or, put_defined, urlencoded, consumes_message, produces_message, write_types,
}

-- The fields of the request that setHeaders reads: `this.type`, `this.params.headers`, `this.opts` and
-- `this.operation.consumes`.
pub record Context : Type 0 where
  pub type : String
  pub param_headers : Option (Dict Value)
  pub opts : Dict Value
  pub consumes : Option (List String)

abbrev pub put_header : String → Option (Dict Value) → Dict Value → Dict Value
put_header name none headers = headers
put_header name (some given) headers = put_defined name (get name given) headers

unfoldable pub scan_listed : Context → List Parameter → Scan → Scan
scan_listed this [] s = s
scan_listed this (param ∷ params) s = scan_listed this params (
    if param.param_type == "form"
    then record s { form_params = s.form_params + 1 }
    else if param.param_type == "file"
    then record s { file_params = s.file_params + 1 }
    else if param.param_type == "header"
    then record s { headers = put_header param.name this.param_headers s.headers }
    else s)

abbrev pub takes_listed_body : String → Bool
takes_listed_body type = type == "POST" || type == "PUT" || type == "PATCH" || type == "DELETE"

-- `consumes` and `body` behind the choice of the content type.
unfoldable pub choose_listed : Context → Dict Value → Scan → Value × Option Value
choose_listed this opts s =
    let first = set_or (get "requestContentType" opts) (str "application/json") in
    if is_set s.body && takes_listed_body this.type
    then (set_or (get "requestContentType" this.opts) first, s.body)
    else if ltb 0 s.form_params
    then ((if ltb 0 s.file_params then str "multipart/form-data" else str urlencoded), s.body)
    else if this.type == "DELETE"
    then (first, some (str "{}"))
    else (null, s.body)

abbrev pub listed_accepts : Context → Value
listed_accepts this = set_or (get "responseContentType" this.opts) (str "application/json")

-- The headers, and the messages to the log.
unfoldable pub set_headers :
    Context
    → Dict Value
    → Dict Value
    → List Parameter
    → Option (List String)
    → Dict Value × List String
unfolding scan_listed choose_listed write_types
set_headers this params opts defined produces =
    let s = scan_listed this defined (record start { body = get "body" params }) in
    let (consumes, body) = choose_listed this opts s in
    let accepts = listed_accepts this in
    (
      write_types consumes accepts (record s { body = body }),
      List.◌++◌ (consumes_message consumes this.consumes) (produces_message accepts produces),
    )
