-- ===== src/Client/Start.antt =====
-- lib/swagger-client.js, SwaggerClient.initialize and SwaggerClient.build: how a client begins, and what it
-- does with the answer to its request. JSON.parse is a parameter.
pub mod Laws
use Prim.Native.String.{[], ◌∷◌, ◌++◌}
use common_services_common_u.Base.{
  ℕ, zero, suc, ◌+◌, ◌-◌, ◌*◌, code, Char, String, Bool, true, false, ◌||◌, ◌&&◌, not, Option, none,
  some, List, [], ◌∷◌, ◌==◌, ◌=?◌, if◌then◌else◌,
}
use common_services_common_u.Js.Space.{between, trim_left}
use common_services_common_u.Js.Text.{strip_prefix}
use common_services_common_u.Js.Dict.{Dict}
use common_services_common_u.Js.Value.{
  Value, null, str, obj, arr, Fields, is_set, truthy, get_field, to_string, has_text,
}
use common_services_common_u.Request.{Env, Request, no_body}
use common_services_common_u.Authorizations.{Authorization, apply, undefined}
use common_services_common_u.Http.{is_digit, read_digits}
use common_services_common_u.Client.{failure_message}

-- The options of a client. `has_success` says that `success` is a function, and `own_authorizations`
-- are the credentials of the options.
pub record Options : Type 0 where
  pub url : String
  pub request_headers : Option String
  pub has_success : Bool
  pub use_jquery : Bool
  pub own_authorizations : Option (Dict Authorization)
  pub supported_submit_methods : Option (List String)
  pub spec : Option Value

-- The first argument of `initialize`: a URL beside the options, or the options with the URL.
pub data Address : Type 0 where
  address : String → Options → Address
  with_options : Options → Address

-- SwaggerClient, before it is built.
pub record Starting : Type 0 where
  pub url : String
  pub request_headers : String
  pub has_success : Bool
  pub use_jquery : Bool
  pub client_authorizations : Dict Authorization
  pub supported_submit_methods : List String
  pub spec : Option Value
  pub ready : Bool
  pub is_built : Bool

abbrev pub text_or : String → Option String → String
text_or d none = d
text_or d (some s) = if s == "" then d else s

abbrev pub dict_or : Dict Authorization → Option (Dict Authorization) → Dict Authorization
dict_or d none = d
dict_or d (some e) = e

abbrev pub list_or_empty : Option (List String) → List String
list_or_empty none = []
list_or_empty (some xs) = xs

abbrev pub options_of : Address → String × Options
options_of (address url o) = (url, o)
options_of (with_options o) = (o.url, o)

-- The fields that `initialize` sets; `page` are the credentials of the page.
abbrev pub initial : Dict Authorization → String × Options → Starting
initial page (url, o) = record {
  url = url;
  request_headers = text_or "application/json;charset=utf-8,*/*" o.request_headers;
  has_success = o.has_success;
  use_jquery = o.use_jquery;
  client_authorizations = dict_or page o.own_authorizations;
  supported_submit_methods = list_or_empty o.supported_submit_methods;
  spec = o.spec;
  ready = o.has_success;
  is_built = false;
}

-- What `build` begins: nothing, the resolution of a description that is given, or a request, which is
-- only answered with if `mock` is set.
pub data Begin (Jar : Type 0) : Type 0 where
  nothing : Begin Jar
  resolves : Value → Begin Jar
  mocked : Request Jar → Begin Jar
  fetches : Request Jar → Begin Jar

module _ (env : Env) where
  open env use {Jar}

  abbrev pub description_request : Starting → Request Jar
  description_request c = record {
    url = c.url;
    method = "get";
    body = no_body;
    use_jquery = c.use_jquery;
    headers = ("accept", str c.request_headers) ∷ [];
    cookies = none;
  }

  abbrev pub send_request : Dict Authorization → Bool → Starting → Begin Jar
  send_request page mock c =
      let r = (apply env page (description_request c) undefined).0 in
      if mock then mocked r else fetches r

  unfoldable pub build : Dict Authorization → Bool → Starting → Begin Jar
  unfolding apply
  build page mock c = if c.is_built then nothing else elim c.spec [
    | none ↦ send_request page mock c
    | some spec ↦ if truthy spec then resolves spec else send_request page mock c
  ]

  -- A client with no `success` is left to be built by a later call.
  unfoldable pub initialize : Dict Authorization → Address → Starting × Begin Jar
  unfolding build
  initialize page a =
      let c = initial page (options_of a) in
      (c, if c.has_success then build page false c else nothing)

-- `parseInt(s) === 2`
abbrev pub hex_value : ℕ → Option ℕ
hex_value c =
    if between b'0' b'9' c
    then some (c - b'0')
    else if between b'A' b'F' c
    then some (c - 55)
    else if between b'a' b'f' c
    then some (c - 87)
    else none

unfoldable pub read_hex : ℕ → String → ℕ
read_hex n [] = n
read_hex n (c ∷ s) = elim (hex_value (code c)) [ none ↦ n | some d ↦ read_hex (n * 16 + d) s ]

abbrev pub is_two_decimal : String → Bool
is_two_decimal s = read_digits 0 s =? 2

-- A text with no digit in front is no number, and is read as 0 here, which is not 2 either.
abbrev pub is_two_unsigned : String → Bool
is_two_unsigned s = elim (strip_prefix "0x" s) [
  | some digits ↦ read_hex 0 digits =? 2
  | none ↦ elim (strip_prefix "0X" s) [
    | some digits ↦ read_hex 0 digits =? 2
    | none ↦ is_two_decimal s
  ]
]

-- A negative number is not 2.
abbrev pub is_two_signed : String → Bool
is_two_signed [] = false
is_two_signed (c ∷ s) = if code c =? b'+' then is_two_unsigned s else is_two_unsigned (c ∷ s)

unfoldable pub is_two : String → Bool
unfolding read_digits read_hex strip_prefix trim_left
is_two s = is_two_signed (trim_left s)

-- The answer to the request.
pub data Reply : Type 0 where
  error : ℕ → String → Reply
  response : Option Value → String → Reply

-- What follows it: the message of a failure, the resolution of a description of version 2, one of
-- the two ways to build older clients, or an exception.
pub data Next : Type 0 where
  fails : String → Next
  resolves_2 : Value → Next
  builds_1_2 : Value → Next
  builds_1_1 : Value → Next
  throws : Next

abbrev pub is_version : String → Option Value → Bool
is_version s (some (str t)) = t == s
is_version s v = false

abbrev pub is_swagger_2 : Option Value → Bool
is_swagger_2 none = false
is_swagger_2 (some v) = if truthy v then is_two (to_string v) else false

-- `none` is what JSON.parse throws for, and null has no fields.
unfoldable pub dispatch : Option Value → Next
unfolding is_two to_string get_field
dispatch none = throws
dispatch (some null) = throws
dispatch (some (obj fs)) =
    if is_swagger_2 (get_field "swagger" fs)
    then resolves_2 (obj fs)
    else if is_version "1.2" (get_field "swaggerVersion" fs)
    then builds_1_2 (obj fs)
    else builds_1_1 (obj fs)
dispatch (some v) = builds_1_1 v

-- `resp.obj || JSON.parse(resp.data)`
abbrev pub read_response : (String → Option Value) → Option Value → String → Option Value
read_response parse none data_ = parse data_
read_response parse (some v) data_ = if truthy v then some v else parse data_

-- The callbacks `error` and `response` of `build`.
unfoldable pub receive_description : (String → Option Value) → String → Reply → Next
unfolding dispatch failure_message
receive_description parse url (error status status_text) =
    fails (failure_message url status status_text)
receive_description parse url (response body data_) = dispatch (read_response parse body data_)
