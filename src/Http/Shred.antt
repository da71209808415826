-- ===== src/Http/Shred.antt =====
-- lib/swagger-client.js, ShredHttpClient.execute: what its callbacks make of an answer of Shred, and of
-- an error in sending.
use common_services_common_u.Base.{
  ℕ, String, Bool, true, false, ◌||◌, Option, none, some, ◌==◌, if◌then◌else◌,
}
use common_services_common_u.Js.Dict.{Dict, get}
use common_services_common_u.Js.Value.{Value, str, obj, Fields, no_fields, get_field, is_set}
use common_services_common_u.Http.Answer.{Out, content_type_of, is_json}

-- Shred's answer; `content` is the text of the body, and `headers` its `_headers`.
pub record ShredAnswer : Type 0 where
  pub headers : Dict Value
  pub normalized : Option (Dict Value)
  pub url : String
  pub method : String
  pub status : ℕ
  pub content : String

-- `response._headers.normalized || response._headers`
abbrev pub headers_to_read : ShredAnswer → Dict Value
headers_to_read r = elim r.normalized [ none ↦ r.headers | some headers ↦ headers ]

module _ (json_parse : String → Option Value) where
  abbrev pub parse_content : String → Bool → Option Value
  parse_content text false = none
  parse_content text true = if text == "" then some (obj no_fields) else json_parse text

  -- `transform(response)`; it has no `statusText`.
  unfoldable pub transform : ShredAnswer → Out
  unfolding get
  transform r = record {
    url = r.url;
    method = r.method;
    status = r.status;
    status_text = none;
    text = r.content;
    headers = r.headers;
    content = parse_content r.content (is_json (content_type_of (headers_to_read r)));
  }

-- The answer that an error in sending is made into.
pub record ErrorAnswer : Type 0 where
  pub status : ℕ
  pub message : Value
  pub content : Option Value

abbrev pub or_error : Option Value → Value → Value
or_error none error = error
or_error (some m) error = if is_set (some m) then m else error

abbrev pub is_text : String → Option Value → Bool
is_text t (some (str s)) = s == t
is_text t v = false

abbrev pub is_unreachable : Option Value → Bool
is_unreachable code = is_text "ENOTFOUND" code || is_text "ECONNREFUSED" code

-- `transformError(error)`, of an error that is an object: one with a code is kept, and a host that is
-- not found or refuses the connection counts as a missing resource.
unfoldable pub transform_error : Fields → ErrorAnswer
unfolding get_field
transform_error error =
    let code = get_field "code" error in
    record {
      status = if is_set code then (if is_unreachable code then 404 else 0) else 0;
      message = or_error (get_field "message" error) (obj error);
      content = if is_set code then some (obj error) else none;
    }
