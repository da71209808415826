-- ===== src/Listing.antt =====
-- lib/swagger-client.js, SwaggerResource and SwaggerOperation: the resources of a description of
-- version 1.1 or 1.2, their names and URLs.
pub mod Headers
pub mod Model
pub mod Urlify
pub mod Call
pub mod Curl
pub mod Construct
pub mod Resource
pub mod Build
use Prim.Native.String.{[], ◌∷◌, ◌++◌}
use common_services_common_u.Base.{
  ℕ, Char, code, String, Bool, false, ◌||◌, ◌&&◌, Option, none, some, List, [], ◌∷◌, ◌==◌, ◌=?◌,
  if◌then◌else◌,
}
use common_services_common_u.Js.Text.{split, starts_with}
use common_services_common_u.Js.Dict.{Dict, get, put, put_all}
use common_services_common_u.Js.Value.{Value, is_set, to_string}
use common_services_common_u.Js.Uri.{encode_uri_component}
use common_services_common_u.Js.Space.{between, is_space}
use common_services_common_u.Client.{go_on}

-- The class `[\s!@#$%^&*()_+=\[{\]};:<>|.\/?,\\'""-]` of the regular expression.
unfoldable pub is_mark : ℕ → Bool
unfolding is_space
is_mark c = between 33 47 c || between 58 64 c || between 91 95 c || between 123 125 c || is_space c

abbrev pub is_underscore : Char → Bool
is_underscore c = code c =? b'_'

abbrev pub unmarked : Char → Char
unmarked c = if is_mark (code c) then "_" else c

-- `nickname.replace(/[…]/g, '_')`
unfoldable pub replace_listed : String → String
unfolding is_mark
replace_listed [] = ""
replace_listed (c ∷ s) = unmarked c ∷ replace_listed s

-- `op.replace(/((_){2,})/g, '_')`; the flag says that the last character was an underscore.
unfoldable pub collapse : Bool → String → String
collapse after [] = ""
collapse after (c ∷ s) =
    let rest = collapse (is_underscore c) s in if after && is_underscore c then rest else c ∷ rest

-- `op.replace(/^(_)*/g, '')`
unfoldable pub trim_start : String → String
trim_start [] = ""
trim_start (c ∷ s) = let rest = trim_start s in if is_underscore c then rest else c ∷ s

-- `op.replace(/([_])*$/g, '')`
unfoldable pub trim_end : String → String
trim_end [] = ""
trim_end (c ∷ s) = let rest = trim_end s in if is_underscore c && rest == "" then "" else c ∷ rest

unfoldable pub sanitize : String → String
unfolding replace_listed collapse trim_start trim_end
sanitize nickname = trim_end (trim_start (collapse false (replace_listed nickname)))

-- `parts[0] + '//' + parts[2]`, where a part that is missing is written as undefined.
abbrev pub third_part : List String → String
third_part (a ∷ b ∷ c ∷ parts) = c
third_part parts = "undefined"

abbrev pub first_part : List String → String
first_part [] = "undefined"
first_part (a ∷ parts) = a

unfoldable pub root_url : String → String
root_url url = let parts = split b'/' url in first_part parts ++ ("//" ++ third_part parts)

abbrev pub with_char : Char → Option String → Option String
with_char c (some s) = some (c ∷ s)
with_char c none = if code c =? b'/' then some "" else none

-- `s.substring(0, s.lastIndexOf('/'))`; `none` is a text with no slash.
unfoldable pub before_last_slash : String → Option String
before_last_slash [] = none
before_last_slash (c ∷ s) = with_char c (before_last_slash s)

abbrev pub text_or_empty : Option String → String
text_or_empty none = ""
text_or_empty (some s) = s

unfoldable pub ends_in_slash : String → Bool
ends_in_slash [] = false
ends_in_slash (c ∷ s) = let rest = ends_in_slash s in if s == "" then code c =? b'/' else rest

-- SwaggerResource.getAbsoluteBasePath, of the base paths of the API and of the resource.
unfoldable pub get_absolute_base_path : String → String → String → String
unfolding root_url before_last_slash ends_in_slash
get_absolute_base_path api_base base_path relative =
    if starts_with "http" relative
    then relative
    else if relative == "/"
    then root_url api_base
    else if starts_with "/" relative
    then root_url api_base ++ relative
    else let base = text_or_empty (before_last_slash base_path) in
      if ends_in_slash base then base ++ relative else base ++ ("/" ++ relative)

-- A parameter of an operation.
pub record Parameter : Type 0 where
  pub name : String
  pub param_type : String
  pub required : Bool
  pub description : String

abbrev pub put_set : String → Option Value → Dict Value → Dict Value
put_set name none d = d
put_set name (some v) d = if is_set (some v) then put name v d else d

unfoldable pub match_params : Dict Value → List Parameter → Dict Value → Dict Value
unfolding get put
match_params args [] matching = matching
match_params args (param ∷ params) matching =
    match_params args params (put_set param.name (get param.name args) matching)

-- SwaggerOperation.getMatchingParams; the types of parameters that it is given are not read, so
-- getQueryParams and getHeaderParams are the same function.
unfoldable pub get_matching_params : Dict Value → List Parameter → Dict Value → Dict Value
unfolding match_params put_all
get_matching_params headers params args = put_all headers (match_params args params [])

unfoldable pub help_lines : List Parameter → String → String
help_lines [] msg = msg
help_lines (param ∷ params) msg = help_lines params (
    msg
    ++ ("\n* "
        ++ (param.name
            ++ ((if param.required then " (required)" else "") ++ (" - " ++ param.description)))))

-- SwaggerOperation.help
unfoldable pub operation_help : String → String → List Parameter → String
unfolding help_lines
operation_help nickname summary params = help_lines params (nickname ++ (": " ++ summary))
