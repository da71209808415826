-- ===== src/Operation/Urlify.antt =====
-- lib/swagger-client.js, Operation.urlify: the URL of a call.
pub mod Laws
use Prim.Native.String.{[], ◌∷◌, ◌++◌}
use common_services_common_u.Base.{
  Char, code, String, Bool, true, false, ◌&&◌, Option, none, some, List, [], ◌∷◌, ◌==◌, ◌=?◌,
  if◌then◌else◌,
}
use common_services_common_u.Js.Space.{between}
use common_services_common_u.Js.Text.{replace_all}
use common_services_common_u.Js.Dict.{Dict, get}
use common_services_common_u.Js.Value.{Value, Items, arr, to_list}
use common_services_common_u.Operation.Types.{Parameter, Operation}
use common_services_common_u.Operation.Encode.{
  encode_query_param, encode_path_param, encode_path_collection, encode_query_collection,
}
use common_services_common_u.Js.Value.{str}

-- A name that `new RegExp('{' + name + '}', 'gi')` reads as a quantifier, such as `1`, `1,` or `1,2`: it
-- has nothing to repeat, which is a SyntaxError.
abbrev pub is_digit : Char → Bool
is_digit c = between 48 57 (code c)

abbrev pub behind_digits : String → String
behind_digits [] = ""
behind_digits (c ∷ s) = let rest = behind_digits s in if is_digit c then rest else c ∷ s

abbrev pub ends_quantifier : String → Bool
ends_quantifier [] = true
ends_quantifier (c ∷ s) = (code c =? b',') && (behind_digits s == "")

abbrev pub is_quantifier : String → Bool
is_quantifier [] = false
is_quantifier (c ∷ s) = is_digit c && ends_quantifier (behind_digits s)

abbrev pub path_text : Parameter → Value → Option String
path_text param (arr xs) = some (encode_path_collection param.collection_format (to_list xs))
path_text param v = encode_path_param v

-- The text that stands in the path for an argument; `none` is an exception, a SyntaxError of the
-- regular expression or a TypeError of the encoder.
unfoldable pub path_value : Parameter → Value → Option String
path_value param v = if is_quantifier param.name then none else path_text param v

abbrev pub single : Parameter → Value → String
single param v = encode_query_param (str param.name) ++ ("=" ++ encode_query_param v)

abbrev pub collected : Option String → Parameter → Value → String
collected none param v = single param v
collected (some format) param (arr xs) = encode_query_collection format param.name (to_list xs)
collected (some format) param v = single param v

-- What an argument adds to the query string, behind its `?` or `&`.
unfoldable pub query_piece : Parameter → Value → String
query_piece param v = collected param.collection_format param v

abbrev pub template : Parameter → String
template param = "{" ++ (param.name ++ "}")

-- `requestUrl` and `querystring`
pub record Progress : Type 0 where
  pub request_url : String
  pub querystring : String

abbrev pub then_continue {ℓ κ} : {A : Type ℓ} {B : Type κ} → Option A → (A → Option B) → Option B
then_continue none f = none
then_continue (some a) f = f a

-- One round, for a parameter whose argument is defined.
unfoldable pub add_argument : Parameter → Value → Progress → Option Progress
unfolding path_value query_piece
add_argument param v p =
    if param.location == "path"
    then then_continue (path_value param v)
        (λ text. some (record p { request_url = replace_all (template param) text p.request_url }))
    else if param.location == "query"
    then some (record p {
      querystring =
          (if p.querystring == "" then p.querystring ++ "?" else p.querystring ++ "&")
          ++ query_piece param v;
    })
    else some p

abbrev pub add_given : Parameter → Option Value → Progress → Option Progress
add_given param none p = some p
add_given param (some v) p = add_argument param v p

unfoldable pub add_parameter : Dict Value → Parameter → Progress → Option Progress
unfolding add_argument
add_parameter args param p = add_given param (get param.name args) p

-- `for (i = 0; i < this.parameters.length; i++)`
unfoldable pub add_parameters : Dict Value → List Parameter → Progress → Option Progress
unfolding add_parameter
add_parameters args [] p = some p
add_parameters args (param ∷ params) p =
    then_continue (add_parameter args param p) (add_parameters args params)

abbrev pub base_url : Operation → String
base_url op =
    op.scheme ++ ("://" ++ (op.host ++ (if op.base_path == "/" then "" else op.base_path)))

-- `none` is the exception of a path parameter, whose argument is null or whose name is a quantifier.
unfoldable pub urlify : Operation → Dict Value → Option String
unfolding add_parameters
urlify op args =
    then_continue
      (add_parameters args op.parameters (record { request_url = op.path; querystring = "" }))
      λ p. some (base_url op ++ (p.request_url ++ p.querystring))
