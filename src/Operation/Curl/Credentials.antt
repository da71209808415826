-- ===== src/Operation/Curl/Credentials.antt =====
-- lib/swagger-client.js, Operation.asCurl: the credentials in its command.
use Prim.Native.String.{◌++◌}
use mathlib.Core.List
use common_services_common_u.Base.{
  String, ◌≡◌, true, false, none, some, List, [], ◌∷◌, if◌then◌else◌, Bool-cases, inl, inr,
}
use common_services_common_u.Js.Text.{join, to_upper_case}
use common_services_common_u.Js.Dict.{Dict, get}
use common_services_common_u.Js.Value.{Value, bool}
use common_services_common_u.Request.{Env, Body, Request}
use common_services_common_u.Authorizations.{
  api_key, undefined, has_query, apply_api_key, apply_one, apply_all, apply,
}
use common_services_common_u.Operation.Types.{Operation}
use common_services_common_u.Operation.Urlify.{urlify}
use common_services_common_u.Operation.Payload.{get_missing_params, get_body}
use common_services_common_u.Operation.Execute.{
  request, merged_headers, is_blocking, respond, execute,
}
use common_services_common_u.Operation.Curl.{header_words, body_words, as_curl}

-- The options of the call that asCurl makes.
abbrev pub mock : Dict Value
mock = ("mock", bool true) ∷ []

-- A URL behind which an API key of type "query" is written.
abbrev pub with_key : String → String → String → String
with_key name v url = url ++ ((if has_query url then "&" else "?") ++ (name ++ ("=" ++ v)))

module _ (env : Env) (key name v : String) where
  open env use {Jar}

  apply_query_key :
      (req : Request Jar)
      → (apply env ((key, api_key name v "query") ∷ []) req undefined).0
        ≡ record req { url = with_key name v req.url }
  unfolding apply apply_all apply_one apply_api_key
  apply_query_key req = elim (Bool-cases (has_query req.url)) [ inl e ↦ rw e | inr e ↦ rw e ]

  keyed : Operation → Dict Value → String → Body → Request Jar
  keyed op headers url body = record {
    url = with_key name v url;
    method = to_upper_case op.method;
    body = body;
    use_jquery = op.use_jquery;
    headers = headers;
    cookies = none;
  }

  respond_with_key :
      (op : Operation) (args headers : Dict Value) (url : String) (body : Body)
      → op.security ≡ undefined
      → is_blocking (get_missing_params op args) ≡ false
      → urlify op args ≡ some url
      → get_body op (merged_headers op args mock).0 args mock ≡ some (headers, body)
      → respond env ((key, api_key name v "query") ∷ []) op args mock
        ≡ request (keyed op headers url body) (merged_headers op args mock).1
  unfolding respond keyed
  respond_with_key op args headers url body sec missing from_urlify from_body =
      rw (missing, from_urlify, from_body, sec, apply_query_key)

  -- With one stored credential, an API key for the query, the command of an operation with no
  -- security requirement has the key in its URL twice: `execute` has written it once before asCurl
  -- applies the credentials again.
  pub as_curl_repeats_key :
      (op : Operation) (args headers : Dict Value) (url : String) (body : Body)
      (words : List String)
      → op.security ≡ undefined
      → is_blocking (get_missing_params op args) ≡ false
      → urlify op args ≡ some url
      → get_body op (merged_headers op args mock).0 args mock ≡ some (headers, body)
      → body_words body ≡ some words
      → as_curl env ((key, api_key name v "query") ∷ []) op args
        ≡ some (
            "curl "
            ++ (join " "
                  (("-X " ++ to_upper_case op.method) ∷ List.◌++◌ (header_words headers) words)
                ++ (" \"" ++ (with_key name v (with_key name v url) ++ "\""))))
  unfolding as_curl execute get keyed
  as_curl_repeats_key op args headers url body words sec missing from_urlify from_body from_words =
      rw (
        respond_with_key op args headers url body sec missing from_urlify from_body,
        apply_query_key,
        from_words,
      )
