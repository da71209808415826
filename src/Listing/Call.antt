-- ===== src/Listing/Call.antt =====
-- lib/swagger-client.js, SwaggerOperation.do and SwaggerRequest: a call of an operation of an older
-- description, from its arguments to its request.
pub mod Form
pub mod Laws
use Prim.Native.String.{◌++◌}
use mathlib.Core.List
use common_services_common_u.Base.{
  String, Bool, true, false, ◌||◌, ◌&&◌, not, Option, none, some, List, [], ◌∷◌, ◌==◌,
  if◌then◌else◌, is_some, any,
}
use common_services_common_u.Js.Text.{starts_with, to_lower_case, to_upper_case}
use common_services_common_u.Js.Dict.{Dict, get, put, delete}
use common_services_common_u.Js.Value.{Value, str, arr, obj, no_items, no_fields, is_set, to_string}
use common_services_common_u.Js.Uri.{encode_uri_component}
use common_services_common_u.Request.{Env, Body, no_body, value, Request}
use common_services_common_u.Authorizations.{Authorization, Security, apply}
use common_services_common_u.Operation.ContentTypes.{put_defined, urlencoded}
use common_services_common_u.Client.{go_on}
use common_services_common_u.Listing.{Parameter, put_set}
use common_services_common_u.Listing.Headers.{set_headers}
use common_services_common_u.Listing.Urlify.{listed_url}

-- SwaggerOperation, with the base path of its resource.
pub record ListedOperation : Type 0 where
  pub method : String
  pub path : String
  pub base_path : String
  pub parameters : List Parameter
  pub consumes : Option (List String)
  pub produces : Option (List String)
  pub security : Security
  pub use_jquery : Bool

-- `args`, the headers that it may have apart from the arguments.
pub record Arguments : Type 0 where
  pub headers : Option (Dict Value)
  pub values : Dict Value

-- `params`, an object with the headers, the body and the arguments of a form. `headers_object` is what
-- the headers are as a value: those that the call is given are an object, and the others properties of
-- an empty array.
pub record Params : Type 0 where
  pub headers : Dict Value
  pub headers_object : Value
  pub body : Option Value
  pub fields : Dict Value

-- The loop over the parameters: the headers, `possibleParams` by their names, and the arguments.
pub record Taken : Type 0 where
  pub headers : Dict Value
  pub possible : List String
  pub args : Dict Value

-- A parameter that is the body, under a name of its own; `none` is the exception for a second one.
abbrev pub take_body : Option Value → Taken → Option Taken
take_body none s = some s
take_body (some v) s =
    if is_set (get "body" s.args) then none else some (record s { args = put "body" v s.args })

unfoldable pub take_parameter : Parameter → Taken → Option Taken
unfolding get put to_lower_case
take_parameter param s =
    if param.param_type == "header"
    then some (record s { headers = put_defined param.name (get param.name s.args) s.headers })
    else if param.param_type == "form" || to_lower_case param.param_type == "file"
    then some (record s { possible = List.◌++◌ s.possible (param.name ∷ []) })
    else if param.param_type == "body" && not (param.name == "body")
    then take_body (get param.name s.args) s
    else some s

unfoldable pub take_parameters : List Parameter → Taken → Option Taken
unfolding take_parameter
take_parameters [] s = some s
take_parameters (param ∷ params) s = go_on (take_parameter param s) (take_parameters params)

-- `for (key in possibleParams)`
abbrev pub take_fields : Dict Value → List String → Dict Value → Dict Value
take_fields args [] fields = fields
take_fields args (name ∷ names) fields =
    take_fields args names (put_set name (get name args) fields)

abbrev pub headers_or_none : Option (Dict Value) → Dict Value
headers_or_none none = []
headers_or_none (some headers) = headers

-- The two options that override headers: the type of the response goes to `Content-Type`, and that
-- of the request to `Accept`.
unfoldable pub override_types : Dict Value → Dict Value → Dict Value
unfolding get put
override_types opts headers =
    put_set "Accept" (get "requestContentType" opts)
      (put_set "Content-Type" (get "responseContentType" opts) headers)

-- `this.params[key]`. The arguments never write over the headers or the body, whose keys are deleted
-- from `args` before.
unfoldable pub param_of : Params → String → Option Value
unfolding get
param_of params key =
    if key == "headers"
    then some params.headers_object
    else if key == "body"
    then params.body
    else get key params.fields

abbrev pub object_of_headers : Option (Dict Value) → Value
object_of_headers none = arr no_items
object_of_headers (some headers) = obj no_fields

-- `values` of SwaggerRequest, by its keys.
abbrev pub add_name : String → List String → List String
add_name name names = if any (λ n. n == name) names then names else List.◌++◌ names (name ∷ [])

unfoldable pub form_names : List Parameter → List String → List String
form_names [] names = names
form_names (param ∷ params) names =
    form_names params (if param.param_type == "form" then add_name param.name names else names)

abbrev pub encode_one : String → Option Value → String → String
encode_one key none encoded = encoded
encode_one key (some v) encoded =
    (if encoded == "" then encoded else encoded ++ "&")
    ++ (encode_uri_component key ++ ("=" ++ encode_uri_component (to_string v)))

unfoldable pub encode_fields : Params → List String → String → String
unfolding param_of
encode_fields params [] encoded = encoded
encode_fields params (key ∷ keys) encoded =
    encode_fields params keys (encode_one key (param_of params key) encoded)

abbrev pub write_one : String → String → Option Value → String → String
write_one boundary key none text = text
write_one boundary key (some v) text =
    text
    ++ ("--"
        ++ (boundary
            ++ ("\nContent-Disposition: form-data; name=\""
                ++ (key ++ ("\"\n\n" ++ (to_string v ++ "\n"))))))

unfoldable pub write_fields : String → Params → List String → String → String
unfolding param_of
write_fields boundary params [] text = text ++ ("--" ++ (boundary ++ "--\n"))
write_fields boundary params (key ∷ keys) text =
    write_fields boundary params keys (write_one boundary key (param_of params key) text)

abbrev pub is_type : String → Option Value → Bool
is_type type (some (str s)) = starts_with type s
is_type type v = false

abbrev pub plain_body : Option Value → Body
plain_body none = no_body
plain_body (some v) = value v

-- The headers and the body of the request; `now` is the text of `Date.now()`, and a content type is a
-- text.
unfoldable pub form_body : String → List Parameter → Params → Dict Value → Dict Value × Body
unfolding form_names encode_fields write_fields
form_body now parameters params headers =
    let names = form_names parameters [] in
    let boundary = "----SwaggerFormBoundary" ++ now in
    if is_type urlencoded (get "Content-Type" headers)
    then (headers, value (str (encode_fields params names "")))
    else if is_type "multipart/form-data" (get "Content-Type" headers)
    then (
      put "Content-Type" (str ("multipart/form-data; boundary=" ++ boundary)) headers,
      value (str (write_fields boundary params names "")),
    )
    else (headers, plain_body params.body)

-- What a call comes to: an exception, no request at all, or a request with the messages logged on the
-- way, which it returns (`opts.mock`) or hands to SwaggerHttp.
pub data Outcome (Jar : Type 0) : Type 0 where
  thrown : Outcome Jar
  nothing : Outcome Jar
  request : Request Jar → List String → Outcome Jar

abbrev pub body_entry : Option Value → Dict Value
body_entry none = []
body_entry (some v) = ("body", v) ∷ []

module _ (env : Env) (now : String) (authz : Dict Authorization) where
  open env use {Jar}

  -- SwaggerRequest, of its type, URL, params and options.
  unfoldable pub listed_request :
      ListedOperation → String → String → Params → Dict Value → Outcome Jar
  unfolding set_headers form_body apply to_upper_case
  listed_request op type url params opts =
      let type' = to_upper_case type in
      let (typed, messages) =
        set_headers
          (record {
            type = type';
            param_headers = some params.headers;
            opts = opts;
            consumes = op.consumes;
          })
          (body_entry params.body) opts op.parameters op.produces in
      let (headers, body) = form_body now op.parameters params typed in
      if type == "" || url == ""
      then thrown
      else if is_set (get "mock" params.headers)
      then nothing
      else request
          (apply env authz
            (record {
              url = url;
              method = type';
              body = body;
              use_jquery = op.use_jquery;
              headers = headers;
              cookies = none;
            })
            op.security).0
          messages

  abbrev pub request_at : ListedOperation → Params → Dict Value → Option String → Outcome Jar
  request_at op params opts none = thrown
  request_at op params opts (some url) = listed_request op op.method url params opts

  abbrev pub params_of : Option (Dict Value) → Taken → Params
  params_of given s = record {
    headers = s.headers;
    headers_object = object_of_headers given;
    body = get "body" s.args;
    fields = take_fields (delete "body" s.args) s.possible [];
  }

  abbrev pub call_with :
      ListedOperation → Option (Dict Value) → Dict Value → Option Taken → Outcome Jar
  call_with op given opts none = thrown
  call_with op given opts (some s) =
      request_at op (params_of given s) opts
        (listed_url op.base_path op.path op.parameters (delete "body" s.args))

  -- SwaggerOperation.do
  unfoldable pub call : ListedOperation → Arguments → Dict Value → Outcome Jar
  unfolding override_types take_parameters listed_url listed_request
  call op args opts = call_with op args.headers opts (
      take_parameters op.parameters (record {
        headers = override_types opts (headers_or_none args.headers);
        possible = [];
        args = args.values;
      }))
