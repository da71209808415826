-- ===== src/Operation/Encode.antt =====
-- lib/swagger-client.js, Operation: encodeQueryParam, encodePathParam, encodePathCollection and
-- encodeQueryCollection.
pub mod Laws
pub mod RoundTrip
use Prim.Native.String.{◌++◌}
use common_services_common_u.Base.{
  String, Bool, Option, none, some, List, [], ◌∷◌, map, ◌==◌, ◌||◌, if◌then◌else◌, is_some,
}
use common_services_common_u.Js.Text.{index_of, split, join, join_more}
use common_services_common_u.Js.Value.{Value, null, to_string}
use common_services_common_u.Js.Uri.{encode_uri_component}

-- `encodeURIComponent(arg)`, with the conversion to a text that it makes.
unfoldable pub encode_query_param : Value → String
encode_query_param arg = encode_uri_component (to_string arg)

-- The body of encodePathParam behind `pathParam = pathParam.toString()`.
unfoldable pub encode_path_text : String → String
encode_path_text param =
    if is_some (index_of b'/' param)
    then join "/" (map encode_uri_component (split b'/' param))
    else encode_uri_component param

-- `none` is the TypeError of `null.toString()`.
unfoldable pub encode_path_param : Value → Option String
unfolding encode_path_text
encode_path_param null = none
encode_path_param param = some (encode_path_text (to_string param))

abbrev pub path_separator : Option String → String
path_separator none = ","
path_separator (some type) =
    if type == "ssv"
    then "%20"
    else if type == "tsv"
    then "\\t"
    else if type == "pipes"
    then "|"
    else ","

-- The loop behind its first round.
abbrev pub add_separated : String → String → List Value → String
add_separated separator encoded [] = encoded
add_separated separator encoded (v ∷ vs) =
    add_separated separator (encoded ++ (separator ++ encode_query_param v)) vs

unfoldable pub encode_path_collection : Option String → List Value → String
encode_path_collection type [] = ""
encode_path_collection type (v ∷ vs) = add_separated (path_separator type) (encode_query_param v) vs

-- `separator` of encodeQueryCollection; empty for a format that is none of the four.
abbrev pub query_separator : String → String
query_separator type =
    if type == "csv"
    then ","
    else if type == "ssv"
    then "%20"
    else if type == "tsv"
    then "\\t"
    else if type == "pipes"
    then "|"
    else ""

-- The loops that repeat the name: `link` is "=" or "[]=".
abbrev pub add_repeated : String → String → String → List Value → String
add_repeated name link encoded [] = encoded
add_repeated name link encoded (v ∷ vs) =
    add_repeated name link (encoded ++ ("&" ++ (name ++ (link ++ encode_query_param v)))) vs

abbrev pub repeated : String → String → List Value → String
repeated name link [] = ""
repeated name link (v ∷ vs) = add_repeated name link (name ++ (link ++ encode_query_param v)) vs

abbrev pub separated : String → String → List Value → String
separated separator name [] = ""
separated separator name (v ∷ vs) =
    add_separated separator (name ++ ("=" ++ encode_query_param v)) vs

unfoldable pub encode_query_collection : String → String → List Value → String
encode_query_collection type name vs =
    let key = encode_uri_component name in
    if type == "default" || type == "multi"
    then repeated key "=" vs
    else if type == "brackets"
    then repeated key "[]=" vs
    else if query_separator type == ""
    then ""
    else separated (query_separator type) key vs
