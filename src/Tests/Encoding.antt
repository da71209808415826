-- ===== src/Tests/Encoding.antt =====
-- The encoders of parameters.
use common_services_common_u.Base.{◌≡◌, refl, some, List, [], ◌∷◌}
use common_services_common_u.Js.Text.{index_of, split}
use common_services_common_u.Js.Value.{
  Value, str, num, arr, obj, no_items, item, no_fields, field, decimal, to_string,
}
use common_services_common_u.Js.Json.{stringify, escape_all}
use common_services_common_u.Js.Uri.{encode_uri_component}
use common_services_common_u.Js.Uri.RoundTrip.{decode_uri_component, codes}
use common_services_common_u.Operation.Encode.{
  encode_query_param, encode_path_text, encode_path_collection, encode_query_collection,
}
use common_services_common_u.Operation.Encode.Laws.{encode_query_collection-eq-join}
use common_services_common_u.Operation.Encode.RoundTrip.{decode-encode_path_text}

encoded : encode_uri_component "a/é€😀 z" ≡ "a%2F%C3%A9%E2%82%AC%F0%9F%98%80%20z"
unfolding encode_uri_component
encoded = refl

encoded_path : encode_path_text "a b/c?/" ≡ "a%20b/c%3F/"
unfolding encode_path_text index_of split encode_uri_component
encoded_path = refl

json_text :
    stringify (obj (field "a" (arr (item (num 12) (item (str "x\"\n") no_items))) no_fields))
    ≡ "{\"a\":[12,\"x\\\"\\n\"]}"
unfolding stringify escape_all decimal
json_text = refl

abbrev three : List Value
three = str "a,b" ∷ num 120 ∷ str "" ∷ []

csv : encode_query_collection "csv" "n" three ≡ "n=a%2Cb,120,"
unfolding encode_query_collection encode_query_param encode_uri_component to_string
csv = refl

brackets : encode_query_collection "brackets" "n" three ≡ "n[]=a%2Cb&n[]=120&n[]="
unfolding encode_query_collection encode_query_param encode_uri_component to_string
brackets = refl

-- A format that the code does not know writes nothing, whatever the items.
unknown : encode_query_collection "csv " "n" three ≡ ""
unfolding encode_query_collection encode_query_param encode_uri_component to_string
unknown = refl

decode-encode_path_text_example : decode_uri_component (encode_path_text "é/€ ?") ≡ codes "é/€ ?"
decode-encode_path_text_example = decode-encode_path_text "é/€ ?"

pipes : encode_path_collection (some "pipes") three ≡ "a%2Cb|120|"
unfolding encode_path_collection encode_query_param encode_uri_component to_string
pipes = refl

encode_query_collection-eq-join_example :
    encode_query_collection "multi" "n" three ≡ "n=a%2Cb&n=120&n="
unfolding encode_query_param encode_uri_component to_string
encode_query_collection-eq-join_example = encode_query_collection-eq-join "multi" "n" three
