-- ===== src/Tests/Requests.antt =====
-- Calls of four operations.
use common_services_common_u.Base.{
  String, ◌≡◌, refl, true, false, none, some, List, [], ◌∷◌, arith, is_some,
}
use common_services_common_u.Js.Text.{index_of, split, replace_all, contains}
use common_services_common_u.Js.Dict.{get, put}
use common_services_common_u.Js.Value.{
  Value, str, bool, obj, field, no_fields, to_string, get_field,
}
use common_services_common_u.Js.Uri.{encode_uri_component}
use common_services_common_u.Request.{Body, Request, value, form_data}
use common_services_common_u.Operation.Encode.{encode_query_param, encode_path_param}
use common_services_common_u.Operation.Urlify.{urlify, path_value, query_piece}
use common_services_common_u.Operation.Urlify.Laws.{urlify-eq-url_of, url_of, urlify_total}
use common_services_common_u.Operation.ContentTypes.{set_content_types, get_header_params}
use common_services_common_u.Operation.ContentTypes.Laws.{form_content_type}
use common_services_common_u.Operation.Payload.{get_missing_params, get_body}
use common_services_common_u.Operation.Payload.Missing.{get_missing_params-eq-last}
use common_services_common_u.Operation.Payload.Form.{get_body-urlencoded}
use common_services_common_u.Operation.Payload.Multipart.{get_body-multipart, body_part}
use common_services_common_u.Operation.Execute.{merged_headers}
use common_services_common_u.Operation.Execute.Headers.{get-merged_headers}
use common_services_common_u.Tests.Data.{get_pet, pet_args, post_form, form_args}

pet_url : urlify get_pet pet_args ≡ some "http://h/pets/a/b%20c?tag=x%26y&page=12"
unfolding urlify get encode_path_param encode_query_param to_string encode_uri_component replace_all
    split index_of
pet_url = refl

urlify-eq-url_of_example :
    urlify get_pet pet_args ≡ some (url_of get_pet ("tag=x%26y" ∷ "page=12" ∷ []) "/pets/a/b%20c")
unfolding get path_value query_piece encode_path_param encode_query_param to_string
    encode_uri_component replace_all split index_of
urlify-eq-url_of_example = urlify-eq-url_of get_pet pet_args

urlify_total_example : is_some (urlify get_pet (("id", Value.null) ∷ [])) ≡ false
unfolding get
urlify_total_example =
    urlify_total get_pet (("id", Value.null) ∷ []) (λ _. refl, (λ _. refl, (λ _. refl, tt)))

form_content_type_example :
    get "Content-Type" (set_content_types post_form form_args []).0
    ≡ some (str "application/x-www-form-urlencoded")
unfolding get
form_content_type_example = form_content_type post_form form_args [] (omega arith) refl refl

get_missing_params-eq-last_example : get_missing_params get_pet [] ≡ some "page"
unfolding get
get_missing_params-eq-last_example = get_missing_params-eq-last get_pet []

get_body-urlencoded_example :
    get_body post_form (("Content-Type", str "application/x-www-form-urlencoded") ∷ []) form_args []
    ≡ some (
      ("Content-Type", str "application/x-www-form-urlencoded") ∷ [],
      value (str "name=a%20b&tag=%3D"),
    )
unfolding get get_body encode_uri_component put to_string
get_body-urlencoded_example =
    get_body-urlencoded post_form (("Content-Type", str "application/x-www-form-urlencoded") ∷ [])
      form_args [] refl

abbrev photo : Value
photo = obj (field "type" (str "file") (field "value" (str "bytes") no_fields))

get_body-multipart_example :
    body_part (
      get_body post_form
        (("Content-Type", str "multipart/form-data") ∷ [])
        (("name", photo) ∷ ("tag", str "t") ∷ [])
        (("useJQuery", bool true) ∷ []))
    ≡ some (form_data (("name", str "bytes") ∷ ("tag", str "t") ∷ []))
unfolding get get_field get_body contains put
get_body-multipart_example =
    get_body-multipart post_form (("Content-Type", str "multipart/form-data") ∷ [])
      (("name", photo) ∷ ("tag", str "t") ∷ []) (("useJQuery", bool true) ∷ []) refl refl refl

get-merged_headers_example :
    get "Accept" (merged_headers get_pet pet_args (("responseContentType", str "text/xml") ∷ [])).0
    ≡ some (str "text/xml")
unfolding get set_content_types get_header_params put
get-merged_headers_example =
    get-merged_headers get_pet pet_args (("responseContentType", str "text/xml") ∷ []) "Accept"

abbrev sent : Request (List String)
sent = record {
  url = "http://h/pets/a/b%20c?tag=x%26y&page=12&api_key=s3";
  method = "GET";
  body = Body.no_body;
  use_jquery = false;
  headers = ("Accept", str "application/json") ∷ ("Authorization", str "Basic u:p") ∷ [];
  cookies = none;
}
