-- ===== src/Operation/Execute.antt =====
-- lib/swagger-client.js, Operation.execute: from the arguments of a call to its request.
pub mod Headers
pub mod Laws
use mathlib.Core.List
use common_services_common_u.Base.{
  String, Bool, true, false, ◌||◌, not, Option, none, some, List, [], ◌∷◌, ◌==◌, if◌then◌else◌,
}
use Prim.Native.String.{◌++◌}
use common_services_common_u.Js.Text.{to_upper_case}
use common_services_common_u.Js.Dict.{Dict, get, put_all}
use common_services_common_u.Js.Value.{Value, is_set}
use common_services_common_u.Request.{Env, Body, Request}
use common_services_common_u.Authorizations.{Authorization, apply}
use common_services_common_u.Operation.Types.{Operation}
use common_services_common_u.Operation.Urlify.{urlify}
use common_services_common_u.Operation.ContentTypes.{set_content_types, get_header_params}
use common_services_common_u.Operation.Payload.{get_missing_params, get_body}

-- What a call comes to: it stops at `fail(message)`, it throws, or it has a request, which
-- it returns (`opts.mock`) or hands to SwaggerHttp. The messages are those logged on the way.
pub data Outcome (Jar : Type 0) : Type 0 where
  missing : String → Outcome Jar
  type_error : Outcome Jar
  request : Request Jar → List String → Outcome Jar

-- The headers of the parameters, under those of the options.
unfoldable pub merged_headers : Operation → Dict Value → Dict Value → Dict Value × List String
unfolding get_header_params set_content_types put_all
merged_headers op args opts =
    let (all, first_messages) = get_header_params op args in
    let (types, messages) = set_content_types op args opts in
    (put_all types (put_all all []), List.◌++◌ first_messages messages)

-- `missingParams.length > 0`: the empty array has no item, and an empty name no character.
abbrev pub is_blocking : Option String → Bool
is_blocking none = false
is_blocking (some name) = not (name == "")

abbrev pub name_or_empty : Option String → String
name_or_empty none = ""
name_or_empty (some name) = name

module _ (env : Env) where
  open env use {Jar}

  -- `obj`, before the credentials are put on it.
  abbrev pub plain_request :
      Operation → Option String → Option (Dict Value × Body) → Option (Request Jar)
  plain_request op (some url) (some (headers, body)) = some (record {
    url = url;
    method = to_upper_case op.method;
    body = body;
    use_jquery = op.use_jquery;
    headers = headers;
    cookies = none;
  })
  plain_request op _ _ = none

  abbrev pub finish :
      Dict Authorization → Operation → List String → Option (Request Jar) → Outcome Jar
  finish authz op messages none = type_error
  finish authz op messages (some obj) = request (apply env authz obj op.security).0 messages

  -- The call behind its first statements, on the operation that they leave.
  unfoldable pub respond : Dict Authorization → Operation → Dict Value → Dict Value → Outcome Jar
  respond authz op args opts =
      let missing_params = get_missing_params op args in
      let (headers, messages) = merged_headers op args opts in
      if is_blocking missing_params
      then missing ("missing required params: " ++ name_or_empty missing_params)
      else finish authz op messages
          (plain_request op (urlify op args) (get_body op headers args opts))

  -- The operation afterwards, and the outcome. The option `useJQuery` stays with the operation.
  unfoldable pub execute :
      Dict Authorization → Operation → Dict Value → Dict Value → Operation × Outcome Jar
  execute authz op args opts =
      let op' = record op { use_jquery = is_set (get "useJQuery" opts) || op.use_jquery } in
      (op', respond authz op' args opts)
