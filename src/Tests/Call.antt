-- ===== src/Tests/Call.antt =====
-- Calls of operations of older descriptions.
use common_services_common_u.Base.{◌≡◌, refl, String, true, false, none, some, List, [], ◌∷◌}
use common_services_common_u.Js.Text.{split, index_of, starts_with}
use common_services_common_u.Js.Dict.{get}
use common_services_common_u.Js.Space.{is_space}
use common_services_common_u.Js.Uri.{encode_uri_component}
use common_services_common_u.Js.Uri.Laws.{AllChars-of_all_chars}
use common_services_common_u.Js.Value.{str, num, arr, obj, no_items, no_fields, to_string}
use common_services_common_u.Request.{value, Request}
use common_services_common_u.Authorizations.{undefined}
use common_services_common_u.Listing.{Parameter}
use common_services_common_u.Listing.Urlify.{replace_slots, query_params, listed_url}
use common_services_common_u.Listing.Urlify.Laws.{is_no_brace, is_slot_char, replace_slots-slot}
use common_services_common_u.Listing.Urlify.Query.{query_params-eq-join}
use common_services_common_u.Listing.Headers.{set_headers}
use common_services_common_u.Listing.Call.{
  ListedOperation, Params, form_body, form_names, param_of, Taken, request, thrown, take_parameters,
  override_types, call,
}
use common_services_common_u.Listing.Call.Form.{form_body-urlencoded}
use common_services_common_u.Listing.Call.Laws.{IsRequestOf, call-IsRequestOf}
use common_services_common_u.Listing.Curl.{listed_as_curl}
use common_services_common_u.Listing.Curl.Laws.{listed_as_curl-eq}
use common_services_common_u.Tests.Data.{env}

-- The parameter `id` takes the slot of `idType`, and a slot may have a pattern.
slots :
    (replace_slots "id" "7" 0 "/a/{idType}/{ ID }/{x}" ≡ "/a/7/7/{x}")
    × (replace_slots "id" "7" 0 "/a/{id:[0-9]{2}}/b" ≡ "/a/7/b")
    × (replace_slots "id" "7" 0 "/a/{id/b}" ≡ "/a/{id/b}")
unfolding replace_slots is_space
slots = (refl, refl, refl)

replace_slots-slot_example : replace_slots "id" "7" 0 "/a/{idType}/b" ≡ "/a/7/b"
unfolding replace_slots is_space
replace_slots-slot_example =
    replace_slots-slot "id" "7" "/a/" "Type" "/b" (AllChars-of_all_chars is_no_brace "/a/" refl)
      (AllChars-of_all_chars is_slot_char "Type" refl)

abbrev at : String → String → Parameter
at name param_type = record {
  name = name;
  param_type = param_type;
  required = false;
  description = "";
}

query_params-eq-join_example :
    query_params
      (("b", num 1) ∷ ("d", str "x y") ∷ [])
      (at "a" "query" ∷ at "b" "query" ∷ at "c" "query" ∷ at "p" "path" ∷ at "d" "query" ∷ [])
      ""
    ≡ some "b=1&&d=x%20y"
unfolding get encode_uri_component to_string
query_params-eq-join_example =
    query_params-eq-join (("b", num 1) ∷ ("d", str "x y") ∷ [])
      (at "a" "query" ∷ at "b" "query" ∷ at "c" "query" ∷ at "p" "path" ∷ at "d" "query" ∷ [])

-- A path parameter takes its argument away.
url :
    listed_url "http://h/v1/" "/pets.{format}/{id}"
      (at "id" "path" ∷ at "id" "query" ∷ [])
      (("id", str "a/b c") ∷ [])
    ≡ some "http://h/v1/pets.json/a/b%20c"
unfolding listed_url encode_uri_component to_string is_space split index_of
url = refl

abbrev filled : Params
filled = record {
  headers = [];
  headers_object = arr no_items;
  body = some (str "{}");
  fields = ("name", str "a b") ∷ ("tag", str "t") ∷ [];
}

-- Parameters of a form that are named as fields of `params` have the values of these.
fields_of_params :
    (form_body "0"
      (at "body" "form" ∷ at "headers" "form" ∷ [])
      (record filled { headers_object = obj no_fields })
      (("Content-Type", str "application/x-www-form-urlencoded") ∷ [])).1
    ≡ value (str "body=%7B%7D&headers=%5Bobject%20Object%5D")
unfolding form_body get encode_uri_component to_string starts_with
fields_of_params = refl

form_body-urlencoded_example :
    form_body "0"
      (at "tag" "form" ∷ at "x" "form" ∷ at "body" "form" ∷ at "name" "form" ∷ [])
      filled
      (("Content-Type", str "application/x-www-form-urlencoded") ∷ [])
    ≡ (
      ("Content-Type", str "application/x-www-form-urlencoded") ∷ [],
      value (str "tag=t&body=%7B%7D&name=a%20b"),
    )
unfolding get form_names param_of encode_uri_component to_string starts_with
form_body-urlencoded_example =
    form_body-urlencoded "0"
      (at "tag" "form" ∷ at "x" "form" ∷ at "body" "form" ∷ at "name" "form" ∷ []) filled
      (("Content-Type", str "application/x-www-form-urlencoded") ∷ []) refl

abbrev post_pet : ListedOperation
post_pet = record {
  method = "post";
  path = "/pets";
  base_path = "http://h";
  parameters = at "pet" "body" ∷ [];
  consumes = none;
  produces = none;
  security = undefined;
  use_jquery = false;
}

abbrev taken : Taken
taken = record { headers = []; possible = []; args = ("pet", str "{}") ∷ ("body", str "{}") ∷ [] }

abbrev sent : Request (List String)
sent = record {
  url = "http://h/pets";
  method = "POST";
  body = value (str "{}");
  use_jquery = false;
  headers = ("Content-Type", str "application/json") ∷ ("Accept", str "application/json") ∷ [];
  cookies = none;
}

-- The argument of a body parameter is the body, and a second one is refused.
bodies :
    (call env "0" [] post_pet (record { headers = none; values = ("pet", str "{}") ∷ [] }) []
      ≡ request sent [])
    × (call env "0" [] post_pet
          (record { headers = none; values = ("pet", str "{}") ∷ ("body", str "b") ∷ [] })
          []
        ≡ thrown)
unfolding call set_headers listed_url
bodies = (refl, refl)

call-IsRequestOf_example :
    (s : Taken) × (take_parameters post_pet.parameters
        (record { headers = []; possible = []; args = ("pet", str "{}") ∷ [] })
      ≡ some s)
    × IsRequestOf env "0" [] post_pet none s [] sent
unfolding get override_types
call-IsRequestOf_example =
    call-IsRequestOf env "0" [] post_pet
      (record { headers = none; values = ("pet", str "{}") ∷ [] }) [] sent [] tt bodies.0

abbrev read_one : ListedOperation
read_one = record {
  method = "get";
  path = "/pets/{id}";
  base_path = "http://h/v1";
  parameters = at "id" "path" ∷ [];
  consumes = none;
  produces = none;
  security = undefined;
  use_jquery = true;
}

listed_as_curl-eq_example :
    listed_as_curl read_one (("id", num 7) ∷ [])
    ≡ some "curl --header \"Accept: application/json\" http://h/v1/pets/7"
unfolding listed_url replace_slots is_space to_string encode_uri_component get index_of
listed_as_curl-eq_example = listed_as_curl-eq read_one (("id", num 7) ∷ [])

no_command :
    listed_as_curl
      (record read_one { parameters = at "id" "path" ∷ at "key" "header" ∷ [] })
      (("id", num 7) ∷ [])
    ≡ none
unfolding listed_as_curl
no_command = refl
