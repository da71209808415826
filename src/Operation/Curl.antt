-- ===== src/Operation/Curl.antt =====
-- lib/swagger-client.js, Operation: asCurl and help.

pub mod Credentials
use Prim.Native.String.{[], ◌∷◌, ◌++◌}
use mathlib.Core.List
use common_services_common_u.Base.{
  Char, code, String, Bool, true, Option, none, some, List, [], ◌∷◌, ◌==◌, ◌=?◌, if◌then◌else◌,
}
use common_services_common_u.Js.Text.{join, to_upper_case}
use common_services_common_u.Js.Dict.{Dict}
use common_services_common_u.Js.Value.{Value, bool, str, num, arr, obj, null, truthy, to_string}
use common_services_common_u.Js.Json.{stringify}
use common_services_common_u.Request.{Env, Body, no_body, value, form_data, Request}
use common_services_common_u.Authorizations.{Authorization, Security, undefined, apply}
use common_services_common_u.Operation.Types.{Parameter, Operation}
use common_services_common_u.Operation.Execute.{Outcome, missing, type_error, request, execute}

-- `--header "name: value"` for each header.
abbrev pub header_words : Dict Value → List String
header_words [] = []
header_words ((key, v) ∷ headers) =
    ("--header \"" ++ (key ++ (": " ++ (to_string v ++ "\"")))) ∷ header_words headers

-- `body.replace(/"/g, '\\"')`
unfoldable pub escape_quotes : String → String
escape_quotes [] = ""
escape_quotes (c ∷ s) = if code c =? b'"' then "\\\"" ++ escape_quotes s else c ∷ escape_quotes s

abbrev pub data_word : String → List String
data_word text = ("-d \"" ++ (escape_quotes text ++ "\"")) ∷ []

-- The words of the body; `none` is the TypeError of a number or a Boolean, which has no `replace`.
-- Of a FormData only its own property `type` is in its JSON text.
unfoldable pub body_words : Body → Option (List String)
unfolding escape_quotes
body_words no_body = some []
body_words (form_data parts) = some (data_word "{\"type\":\"formData\"}")
body_words (value (str s)) = some (if s == "" then [] else data_word s)
body_words (value (arr xs)) = some (data_word (stringify (arr xs)))
body_words (value (obj fs)) = some (data_word (stringify (obj fs)))
body_words (value v) = if truthy v then none else some []

module _ {Jar : Type 0} where
  abbrev pub curl_text : Operation → Request Jar → Option (List String) → Option String
  curl_text op req none = none
  curl_text op req (some words) = some (
      "curl "
      ++ (join " " (("-X " ++ to_upper_case op.method) ∷ List.◌++◌ (header_words req.headers) words)
          ++ (" \"" ++ (req.url ++ "\""))))

module _ (env : Env) where
  open env use {Jar}

  -- `none` is an exception, also that of a call with a missing parameter, which has no request.
  abbrev pub curl_of : Dict Authorization → Operation → Outcome Jar → Option String
  curl_of authz op (missing message) = none
  curl_of authz op type_error = none
  curl_of authz op (request req messages) =
      let req' = (apply env authz req undefined).0 in curl_text op req' (body_words req'.body)

  unfoldable pub as_curl : Dict Authorization → Operation → Dict Value → Option String
  as_curl authz op args = curl_of authz op (execute env authz op args (("mock", bool true) ∷ [])).1

abbrev pub parameter_line : Parameter → String
parameter_line param =
    "\n  * " ++ (param.name ++ (" (" ++ (param.signature ++ ("): " ++ param.description))))

unfoldable pub add_lines : List Parameter → String → String
add_lines [] out = out
add_lines (param ∷ params) out = add_lines params (out ++ parameter_line param)

unfoldable pub help : Operation → String
unfolding add_lines
help op = add_lines op.parameters (op.nickname ++ (": " ++ (op.summary ++ "\n")))
