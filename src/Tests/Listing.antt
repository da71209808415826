-- ===== src/Tests/Listing.antt =====
-- Names and URLs of the resources of an older description.
use common_services_common_u.Base.{◌≡◌, refl, true, false, none, some, [], ◌∷◌}
use common_services_common_u.Js.Dict.{get, put}
use common_services_common_u.Js.Text.{split, starts_with}
use common_services_common_u.Js.Value.{str, num, to_string}
use common_services_common_u.Js.Json.{stringify, escape_all}
use common_services_common_u.Listing.Headers.{Context, set_headers}
use common_services_common_u.Js.Uri.{encode_uri_component}
use common_services_common_u.Js.Space.{is_space}
use common_services_common_u.Listing.Urlify.{query_params}
use common_services_common_u.Listing.{
  sanitize, get_absolute_base_path, get_matching_params, operation_help,
}

sanitized : sanitize "/get {pet-id}..by/" ≡ "get_pet_id_by"
unfolding sanitize is_space
sanitized = refl

absolute :
    (get_absolute_base_path "http://h:80/v1/api" "http://h/a/b" "/c" ≡ "http://h:80/c")
    × (get_absolute_base_path "http://h/v1" "http://h/a/b" "c" ≡ "http://h/a/c")
unfolding get_absolute_base_path split starts_with
absolute = (refl, refl)

-- An argument of 0 is no argument.
matching :
    get_matching_params
      (("x", str "1") ∷ [])
      (record { name = "a"; param_type = "query"; required = true; description = "" }
        ∷ record { name = "b"; param_type = "query"; required = true; description = "" }
        ∷ [])
      (("a", num 0) ∷ ("b", num 2) ∷ [])
    ≡ ("b", num 2) ∷ ("x", str "1") ∷ []
unfolding get_matching_params get
matching = refl

help :
    operation_help "n" "s"
      (record { name = "a"; param_type = "query"; required = true; description = "d" } ∷ [])
    ≡ "n: s\n* a (required) - d"
unfolding operation_help
help = refl

abbrev delete_request : Context
delete_request = record {
  type = "DELETE";
  param_headers = some (("X-Key", str "k") ∷ []);
  opts = [];
  consumes = some ("text/xml" ∷ []);
}

-- A DELETE with no body says that it sends JSON.
delete_headers :
    set_headers delete_request [] []
      (record { name = "X-Key"; param_type = "header"; required = false; description = "" }
        ∷ record { name = "id"; param_type = "path"; required = false; description = "" }
        ∷ [])
      none
    ≡ (
      ("X-Key", str "k")
          ∷ ("Content-Type", str "application/json")
          ∷ ("Accept", str "application/json")
          ∷ [],
      "server doesn't consume application/json, try [\"text/xml\"]" ∷ [],
    )
unfolding set_headers get put to_string stringify escape_all
delete_headers = refl

form_headers :
    set_headers
      (record delete_request { type = "POST"; consumes = none })
      []
      []
      (record { name = "f"; param_type = "file"; required = false; description = "" }
        ∷ record { name = "n"; param_type = "form"; required = false; description = "" }
        ∷ [])
      none
    ≡ (("Content-Type", str "multipart/form-data") ∷ ("Accept", str "application/json") ∷ [], [])
unfolding set_headers get put
form_headers = refl

-- A parameter with no argument leaves an `&`.
queried :
    query_params
      (("a", num 1) ∷ [])
      (record { name = "a"; param_type = "query"; required = true; description = "" }
        ∷ record { name = "b"; param_type = "query"; required = false; description = "" }
        ∷ [])
      ""
    ≡ some "a=1&"
unfolding query_params get encode_uri_component to_string
queried = refl
